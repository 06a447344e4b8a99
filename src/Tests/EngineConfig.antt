-- ===== src/Tests/EngineConfig.antt =====
-- Configurations of Hysteria on concrete tables.
use matreshka_panel.Base.{ℕ, ◌≡◌, refl, true, some, List, [], ◌∷◌, ◌++◌, get, count, length, arith}
use matreshka_panel.Base.Text.{codes, starts_with}
use matreshka_panel.Journal.Record.{empty, word}
use matreshka_panel.Registry.{hysteria}
use matreshka_panel.EngineConfig.Template.{
  occurrences, invalid_blocks, replace, Setting, replaced, render,
}
use matreshka_panel.EngineConfig.Diff.{
  minus, plus, common, line_diff, minus_lines, plus_lines, diff_rebuilds,
}
use matreshka_panel.EngineConfig.Configs.{
  Config, Db, is_version, active_config, Reason, to_apply, to_roll_back, new_config, written,
  preview, apply, rollback,
}
use matreshka_panel.EngineConfig.Active.{WellFormed, apply_one_active, rollback_reuses}

abbrev setting : Setting
setting = record {
  domain = codes "example.org";
  stats_secret = codes "s";
  xhttp_path = codes "/x";
  users = codes "[]";
  parses = λ e text. true;
}

abbrev template : List ℕ
template =
    codes
      "{{MATRESHKA_AUTH_URL}} {{MATRESHKA_STATS_LISTEN}} {{MATRESHKA_STATS_SECRET}} {{MATRESHKA_TLS_CERT}} {{MATRESHKA_TLS_KEY}}"

abbrev first : Config
first = new_config 1 hysteria 1 template 0 1000

abbrev one_config : Db
one_config = record { configs = first ∷ []; journal = empty }

one_config_fine : WellFormed one_config.configs
unfolding count
one_config_fine e = (ground arith, λ v. ground arith)

abbrev second : Reason → Db
second reason = written reason 2 hysteria template 155 (word "owner") 2000 one_config

apply_one_active_example :
    WellFormed (second to_apply).configs
    × ((text : List ℕ) × (c : Config) × (true ≡ true)
        × (render setting hysteria template ≡ some text)
        × (active_config hysteria (second to_apply) ≡ some c)
        × (c.template ≡ template)
        × (c.rendered_hash ≡ length text)
        × (count (is_version hysteria c.version) one_config.configs ≡ 0))
unfolding apply preview render invalid_blocks occurrences replaced replace starts_with
apply_one_active_example =
    apply_one_active setting length (λ t. true) to_apply 2 hysteria template (word "owner") 2000
      one_config (second to_apply) one_config_fine refl

rollback_reuses_example :
    WellFormed (second to_roll_back).configs
    × ((row c : Config) × (get (is_version hysteria 1) one_config.configs ≡ some row)
        × (active_config hysteria (second to_roll_back) ≡ some c)
        × (c.template ≡ row.template)
        × (count (is_version hysteria c.version) one_config.configs ≡ 0))
unfolding rollback apply preview render invalid_blocks occurrences replaced replace starts_with get
rollback_reuses_example =
    rollback_reuses setting length (λ t. true) 2 hysteria 1 (word "owner") 2000 one_config
      (second to_roll_back) one_config_fine refl

abbrev old_lines : List (List ℕ)
old_lines = codes "a" ∷ codes "b" ∷ codes "c" ∷ codes "d" ∷ []

abbrev new_lines : List (List ℕ)
new_lines = codes "a" ∷ codes "x" ∷ codes "d" ∷ []

diff_rebuilds_example :
    (first_lines last_lines : List (List ℕ)) × (old_lines
      ≡ first_lines ++ (minus_lines (line_diff (some old_lines) new_lines) ++ last_lines))
    × (new_lines ≡ first_lines ++ (plus_lines (line_diff (some old_lines) new_lines) ++ last_lines))
diff_rebuilds_example = diff_rebuilds old_lines new_lines

diff_is_short :
    line_diff (some old_lines) new_lines
    ≡ minus (codes "b") ∷ minus (codes "c") ∷ plus (codes "x") ∷ []
unfolding line_diff common
diff_is_short = refl
