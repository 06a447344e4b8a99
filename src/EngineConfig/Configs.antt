-- ===== src/EngineConfig/Configs.antt =====
-- `EngineConfigService`: `preview`, `apply`, `rollback` and the row in use.
use matreshka_panel.Base.{
  ℕ, suc, Bool, true, false, ◌&&◌, max, Option, none, some, List, [], ◌∷◌, ◌++◌, Time, Key, String,
  if◌then◌else◌, ◌==◌, get, update,
}
use matreshka_panel.Journal.Types.{EventType}
use matreshka_panel.Journal.Record.{Ident, uuid, blank, log_change, Journal}
use matreshka_panel.Registry.{
  Engine, hysteria, xray, engine_eq, Result, ok, ◌>>=◌, ◌>>◌, require, found,
}
use matreshka_panel.EngineConfig.Template.{Setting, render}

-- A row of `engine_configs`; `preset_version` is always 1.
pub record Config : Type 0 where
  pub id : Key
  pub engine : Engine
  pub version : ℕ
  pub template : List ℕ
  pub rendered_hash : Key
  pub active : Bool
  pub created_at : Time

pub record Db : Type 0 where
  pub configs : List Config
  pub journal : Journal

abbrev pub of_engine : Engine → Config → Bool
of_engine e c = engine_eq c.engine e

-- `engine = ? AND active = 1`
abbrev pub in_use : Engine → Config → Bool
in_use e c = engine_eq c.engine e && c.active

-- `engine = ? AND version = ?`
abbrev pub is_version : Engine → ℕ → Config → Bool
is_version e v c = engine_eq c.engine e && c.version == v

-- `active`
unfoldable pub active_config : Engine → Db → Option Config
active_config e db = get (in_use e) db.configs

-- `SELECT COALESCE(MAX(version), 0) ... WHERE engine = ?`
unfoldable pub last_version : Engine → List Config → ℕ
last_version e [] = 0
last_version e (c ∷ cs) =
    let rest = last_version e cs in if engine_eq c.engine e then max c.version rest else rest

-- Why a configuration is written: the event, and the action of the audit log.
pub data Reason : Type 0 where
  to_apply to_roll_back : Reason

abbrev pub event_of : Reason → EventType
event_of to_apply = EventType.engine_config_applied
event_of to_roll_back = EventType.engine_config_rolled_back

abbrev pub action_of : Reason → String
action_of to_apply = "engines.config.apply"
action_of to_roll_back = "engines.config.rollback"

abbrev pub engine_text : Engine → String
engine_text hysteria = "hysteria"
engine_text xray = "xray"

abbrev pub new_config : Key → Engine → ℕ → List ℕ → Key → Time → Config
new_config id e version template hash now = record {
  id = id;
  engine = e;
  version = version;
  template = template;
  rendered_hash = hash;
  active = true;
  created_at = now;
}

abbrev pub retired : Engine → List Config → List Config
retired e cs = update (of_engine e) (λ c. record c { active = false }) cs

-- The transaction of `apply`, and the audit row and the event after it.
unfoldable pub written : Reason → Key → Engine → List ℕ → Key → Ident → Time → Db → Db
unfolding last_version
written reason id e template hash actor now db =
    let version = suc (last_version e db.configs) in
    record db {
      configs = retired e db.configs ++ new_config id e version template hash now ∷ [];
      journal =
          log_change (event_of reason) actor (action_of reason) "engine_config" (some (uuid id))
            (record blank {
              actor = some actor;
              source = some (engine_text e);
              subject_type = some "engine_config";
              subject_id = some (uuid id);
            })
            now db.journal;
    }

-- `preview`: the text and its hash; `none` where it is not valid.
unfoldable pub preview : Setting → (List ℕ → Key) → Engine → List ℕ → Option (List ℕ × Key)
unfolding render
preview s hash e template = elim (render s e template) [
  | none ↦ none
  | some text ↦ some (text, hash text)
]

-- `!preview.valid || !preview.rendered`
abbrev pub usable : Option (List ℕ × Key) → Option (List ℕ × Key)
usable none = none
usable (some ([], hash)) = none
usable (some (c ∷ cs, hash)) = some (c ∷ cs, hash)

-- `apply`: `agent` says whether the privileged agent puts the text in place; its error is the status 500.
unfoldable pub apply :
    Setting
    → (List ℕ → Key)
    → (List ℕ → Bool)
    → Reason
    → Key
    → Engine
    → List ℕ
    → Ident
    → Time
    → Db
    → Result Db
unfolding preview written
apply s hash agent reason id e template actor now db = do
  p ← found (usable (preview s hash e template)) 400
  require (agent p.0) 500
  ok (written reason id e template p.1 actor now db)

-- `rollback`
unfoldable pub rollback :
    Setting → (List ℕ → Key) → (List ℕ → Bool) → Key → Engine → ℕ → Ident → Time → Db → Result Db
unfolding apply
rollback s hash agent id e version actor now db = do
  row ← found (get (is_version e version) db.configs) 404
  apply s hash agent to_roll_back id e row.template actor now db
