-- ===== src/System/Engines.antt =====
-- `status`, `engineOrder` and `updateEngineOrder` of SystemService.
use matreshka_panel.Base.{
  ℕ, suc, Bool, true, false, not, ◌&&◌, ◌||◌, Option, none, some, List, [], ◌∷◌, ◌++◌, Time, String,
  if◌then◌else◌, ◌==◌, or_else, select, length,
}
use matreshka_panel.Base.Text.{same_text, listed}
use matreshka_panel.Journal.Types.{EventType}
use matreshka_panel.Journal.Record.{Ident, blank, log_change, Journal}
use matreshka_panel.Registry.{Engine, hysteria, xray, engine_eq, Result, ok, err, ◌>>◌, require}

-- An item of a JSON list, as far as it is read: a text, or something else.
pub data Item : Type 0 where
  text : String → Item
  other : Item

-- A JSON value, as far as it is read.
pub data Value : Type 0 where
  items : List Item → Value
  no_list : Value

pub record Service : Type 0 where
  pub name : String
  pub status : String

-- The settings `engine_order` and `monitor_snapshot` (its services and the state of its certificate),
-- and the journal.
pub record Db : Type 0 where
  pub engine_order : Option Value
  pub services : Option (List Service)
  pub tls_status : Option String
  pub journal : Journal

abbrev pub engine_ids : List Engine
engine_ids = hysteria ∷ xray ∷ []

abbrev pub engine_id : Engine → String
engine_id hysteria = "hysteria"
engine_id xray = "xray"

-- `engineIds.includes(item)`, and the engine that it names
unfoldable pub engine_of : Item → Option Engine
engine_of (text s) =
    if same_text s "hysteria" then some hysteria else if same_text s "xray" then some xray else none
engine_of other = none

-- `stored.filter(...)`
abbrev pub engines_of : List Item → List Engine
engines_of [] = []
engines_of (i ∷ is_) = elim (engine_of i) [ none ↦ engines_of is_ | some e ↦ e ∷ engines_of is_ ]

abbrev pub has_engine : List Engine → Engine → Bool
has_engine [] e = false
has_engine (d ∷ ds) e = engine_eq d e || has_engine ds e

-- `new Set(engines)`, with the engines seen so far
unfoldable pub unique_engines : List Engine → List Engine → List Engine
unique_engines seen [] = []
unique_engines seen (e ∷ es) =
    let kept = e ∷ unique_engines (e ∷ seen) es in
    let dropped = unique_engines seen es in if has_engine seen e then dropped else kept

abbrev pub completed : List Engine → List Engine
completed valid = unique_engines [] valid ++ select (λ e. not (has_engine valid e)) engine_ids

-- `engineOrder` of the setting
unfoldable pub order_of : Option Value → List Engine
unfolding engine_of unique_engines
order_of none = completed engine_ids
order_of (some no_list) = engine_ids
order_of (some (items is_)) = completed (engines_of is_)

-- `engineOrder`
abbrev pub engine_order : Db → List Engine
engine_order db = order_of db.engine_order

abbrev pub is_text : Item → Bool
is_text (text s) = true
is_text other = false

abbrev pub all_texts : List Item → Bool
all_texts [] = true
all_texts (i ∷ is_) = is_text i && all_texts is_

abbrev pub texts_of : List Item → List String
texts_of [] = []
texts_of (text s ∷ is_) = s ∷ texts_of is_
texts_of (other ∷ is_) = texts_of is_

-- `new Set(texts).size`, with the texts seen so far
unfoldable pub different : List String → List String → ℕ
different seen [] = 0
different seen (s ∷ ss) =
    let kept = suc (different (s ∷ seen) ss) in
    let dropped = different seen ss in if listed seen s then dropped else kept

-- What `updateEngineOrder` writes.
unfoldable pub reordered : List Item → Ident → Time → Db → Db
reordered ids actor now db = record db {
  engine_order = some (items ids);
  journal =
      log_change EventType.engine_order_changed actor "engines.reorder" "engines" none
        (record blank {
          actor = some actor;
          source = some "engines";
          subject_type = some "engine_order";
        })
        now db.journal;
}

-- `updateEngineOrder`
unfoldable pub update_engine_order : Value → Ident → Time → Db → Result Db
unfolding different reordered
update_engine_order no_list actor now db = err 400
update_engine_order (items ids) actor now db = do
  require (length ids == 2 && all_texts ids) 400
  require
      (different [] (texts_of ids) == 2
        && (listed (texts_of ids) "hysteria" && listed (texts_of ids) "xray"))
      400
  ok (reordered ids actor now db)

-- The services that are shown where none were monitored.
abbrev pub unknown_services : List Service
unknown_services =
    (record { name = "matreshka"; status = "unknown" })
    ∷ (record { name = "nginx"; status = "unknown" })
    ∷ (record { name = "hysteria-server"; status = "unknown" })
    ∷ (record { name = "xray"; status = "unknown" })
    ∷ []

abbrev pub all_active : List Service → Bool
all_active [] = true
all_active (s ∷ ss) = same_text s.status "active" && all_active ss

-- `status().healthy`
unfoldable pub is_healthy : Db → Bool
is_healthy db =
    all_active (or_else db.services unknown_services)
    && same_text (or_else db.tls_status "unknown") "valid"
