-- ===== src/EngineConfig/Template.antt =====
-- Templates of an engine's configuration: the protected blocks, and what they are replaced by.
-- A text is the list of its characters. No replacement has a `$`, which `replace` would read.
use matreshka_panel.Base.{
  ℕ, zero, suc, ◌-◌, Bool, true, false, not, Option, none, some, List, [], ◌∷◌, ◌++◌, String,
  if◌then◌else◌, ◌==◌, length, drop,
}
use matreshka_panel.Base.Text.{codes, starts_with}
use matreshka_panel.Registry.{Engine, hysteria, xray}

-- `protectedBlocks`
abbrev pub protected_blocks : Engine → List String
protected_blocks hysteria =
    "{{MATRESHKA_AUTH_URL}}" ∷ "{{MATRESHKA_STATS_LISTEN}}" ∷ "{{MATRESHKA_STATS_SECRET}}"
    ∷ "{{MATRESHKA_TLS_CERT}}" ∷ "{{MATRESHKA_TLS_KEY}}" ∷ []
protected_blocks xray =
    "{{MATRESHKA_MANAGED_USERS}}" ∷ "{{MATRESHKA_API}}" ∷ "{{MATRESHKA_STATS}}"
    ∷ "{{MATRESHKA_XHTTP_PATH}}" ∷ []

-- `count`: the occurrences of a text that do not overlap. `skip` characters belong to the last one.
unfoldable pub occurrences : List ℕ → ℕ → List ℕ → ℕ
unfolding starts_with
occurrences needle skip [] = 0
occurrences needle (suc skip) (c ∷ cs) = occurrences needle skip cs
occurrences needle zero (c ∷ cs) =
    let found = suc (occurrences needle (length needle - 1) cs) in
    let passed = occurrences needle 0 cs in if starts_with needle (c ∷ cs) then found else passed

abbrev pub missing_from : List ℕ → List String → List String
missing_from template [] = []
missing_from template (b ∷ bs) =
    let rest = missing_from template bs in
    if occurrences (codes b) 0 template == 1 then rest else b ∷ rest

-- `validateTemplate`: the blocks that its errors name; the template is valid if there are none.
unfoldable pub invalid_blocks : Engine → List ℕ → List String
unfolding occurrences
invalid_blocks engine template = missing_from template (protected_blocks engine)

-- `text.replace(needle, value)`: the first occurrence
unfoldable pub replace : List ℕ → List ℕ → List ℕ → List ℕ
unfolding starts_with
replace needle value [] = []
replace needle value (c ∷ cs) =
    let rest = c ∷ replace needle value cs in
    if starts_with needle (c ∷ cs) then value ++ drop (length needle) (c ∷ cs) else rest

-- What the configuration of the program and the libraries for YAML and JSON give to a rendering.
-- `users` is the JSON of the credentials.
pub record Setting : Type 0 where
  pub domain : List ℕ
  pub stats_secret : List ℕ
  pub xhttp_path : List ℕ
  pub users : List ℕ
  pub parses : Engine → List ℕ → Bool

-- The replacements of `renderHysteria` and `renderXray`, in their order
unfoldable pub replaced : Setting → Engine → List ℕ → List ℕ
unfolding replace
replaced s hysteria template = replace (codes "{{MATRESHKA_STATS_SECRET}}") s.stats_secret (
    replace (codes "{{MATRESHKA_STATS_LISTEN}}") (codes "127.0.0.1:9999") (
      replace (codes "{{MATRESHKA_AUTH_URL}}")
        (codes "http://127.0.0.1:8181/internal/hysteria/auth")
        (replace (codes "{{MATRESHKA_TLS_KEY}}")
          ((codes "/etc/letsencrypt/live/" ++ s.domain) ++ codes "/privkey.pem")
          (replace (codes "{{MATRESHKA_TLS_CERT}}")
            ((codes "/etc/letsencrypt/live/" ++ s.domain) ++ codes "/fullchain.pem") template))))
replaced s xray template = replace (codes "{{MATRESHKA_XHTTP_PATH}}") s.xhttp_path (
    replace (codes "\"{{MATRESHKA_MANAGED_USERS}}\"") s.users (
      replace (codes "\"{{MATRESHKA_API}}\"")
        (codes
          "{\"tag\":\"api\",\"listen\":\"127.0.0.1:10085\",\"services\":[\"HandlerService\",\"StatsService\",\"LoggerService\"]}")
        (replace (codes "\"{{MATRESHKA_STATS}}\"") (codes "{}") template)))

abbrev pub is_valid : Engine → List ℕ → Bool
is_valid engine template = elim (invalid_blocks engine template) as (λ _. Bool) [
  | [] ↦ true
  | b ∷ bs ↦ false
]

-- `renderHysteria` and `renderXray`; `none` where they throw.
unfoldable pub render : Setting → Engine → List ℕ → Option (List ℕ)
unfolding invalid_blocks replaced
render s engine template =
    if not (is_valid engine template)
    then none
    else (if s.parses engine (replaced s engine template)
        then some (replaced s engine template)
        else none)
