-- ===== src/Routes/Publish.antt =====
-- `publish`, `discard`, `rollback`, `published` and `state` of RouteService.
use matreshka_panel.Base.Text.{same_text}
use matreshka_panel.Base.{
  ℕ, suc, Bool, true, false, not, ◌&&◌, none, some, List, [], ◌∷◌, ◌++◌, Time, Key, String,
  if◌then◌else◌, ◌==◌, ltb, get, length,
}
use matreshka_panel.Base.Int.{pos}
use matreshka_panel.Journal.Json.{object, field, string, number, end, Fields}
use matreshka_panel.Journal.Types.{EventType}
use matreshka_panel.Journal.Record.{Entry, blank, Ident, uuid, log_change}
use matreshka_panel.Registry.{Result, ok, ◌>>=◌, ◌>>◌, require, found}
use matreshka_panel.Routes.Draft.{
  Action, direct, proxy, block, Matcher, domain, suffix, ip_cidr, geosite, geoip, Source, system,
  preset, user, Rule, Revision, Db, draft, largest_version,
}
use matreshka_panel.Routes.Edit.{noted}

-- `revision`
unfoldable pub revision : ℕ → Db → Result Revision
revision v db = found (get (λ r. r.version == v) db.revisions) 404

-- `published`
unfoldable pub published : Db → Result (List Rule)
unfolding revision draft
published db =
    if ltb 0 db.active_version
    then (revision db.active_version db >>= λ r. ok r.rules)
    else ok (draft db)

-- The rows of `writeDraft` from a position on, with their ids.
unfoldable pub written : ℕ → (ℕ → Rule → Key) → Time → List Rule → List Rule
written i id_at now [] = []
written i id_at now (r ∷ rs) =
    record r { id = id_at i r; position = i; created_at = now; updated_at = now }
    ∷ written (suc i) id_at now rs

-- What is published: the draft, or the rules of a revision with its version and the active one.
pub data Kind : Type 0 where
  draft_rules : Kind
  rolled_back : List Rule → ℕ → ℕ → Kind

abbrev pub rules_of : Kind → Db → List Rule
rules_of draft_rules db = draft db
rules_of (rolled_back rules from target) db = rules

abbrev pub drafts_of : Kind → (ℕ → Key) → Time → Db → List Rule
drafts_of draft_rules fresh now db = db.drafts
drafts_of (rolled_back rules from target) fresh now db = written 0 (λ i r. fresh i) now rules

abbrev pub event_of : Kind → EventType
event_of draft_rules = EventType.routes_published
event_of (rolled_back rules from target) = EventType.routes_rolled_back

abbrev pub action_of : Kind → String
action_of draft_rules = "routes.publish"
action_of (rolled_back rules from target) = "routes.rollback"

abbrev pub event_fields : Kind → Fields
event_fields draft_rules = end
event_fields (rolled_back rules from target) =
    field "fromVersion" (number (pos from)) (field "targetVersion" (number (pos target)) end)

unfoldable pub published_entry : Ident → Key → ℕ → ℕ → String → Kind → Entry
published_entry actor id version rules_count note kind = record blank {
  actor = some actor;
  subject_type = some "route_revision";
  subject_id = some (uuid id);
  payload = object (
      field "version" (number (pos version)) (
        field "newVersion" (number (pos version)) (
          field "rulesCount" (number (pos rules_count))
            (field "note" (string note) (event_fields kind)))));
}

-- The transaction of `publish`; `fresh` gives the ids of the rows that `writeDraft` inserts.
unfoldable pub publication : Key → String → Ident → Kind → (ℕ → Key) → Time → Db → Db
unfolding largest_version written published_entry
publication id note actor kind fresh now db =
    let rules = rules_of kind db in
    let version = suc (largest_version db.revisions) in
    let row : Revision = record {
      id = id;
      version = version;
      rules = rules;
      note = note;
      created_at = now;
      actor = actor;
    } in
    record db {
      drafts = drafts_of kind fresh now db;
      revisions = db.revisions ++ row ∷ [];
      active_version = version;
      journal =
          log_change (event_of kind) actor (action_of kind) "route_revision" (some (uuid id))
            (published_entry actor id version (length rules) note kind) now db.journal;
    }

-- `publish`; `note` is trimmed.
unfoldable pub publish : Key → String → Ident → Kind → (ℕ → Key) → Time → Db → Result Db
unfolding publication draft
publish id note actor kind fresh now db = do
  require (ltb 0 (length (rules_of kind db))) 409
  ok (publication id note actor kind fresh now db)

-- `discard`
unfoldable pub discard : Ident → Time → Db → Result Db
unfolding revision written noted
discard actor now db = do
  require (ltb 0 db.active_version) 409
  target ← revision db.active_version db
  ok (
      noted actor "routes.discard" "routes" none now
        (record db { drafts = written 0 (λ i r. r.id) now target.rules }))

-- `rollback`; `note` is the text that names the revision.
unfoldable pub rollback : Key → String → ℕ → Ident → (ℕ → Key) → Time → Db → Result Db
unfolding revision publish
rollback id note version actor fresh now db = do
  target ← revision version db
  publish id note actor (rolled_back target.rules db.active_version version) fresh now db

abbrev pub action_eq : Action → Action → Bool
action_eq direct direct = true
action_eq proxy proxy = true
action_eq block block = true
action_eq _ _ = false

abbrev pub matcher_eq : Matcher → Matcher → Bool
matcher_eq domain domain = true
matcher_eq suffix suffix = true
matcher_eq ip_cidr ip_cidr = true
matcher_eq geosite geosite = true
matcher_eq geoip geoip = true
matcher_eq _ _ = false

abbrev pub source_eq : Source → Source → Bool
source_eq system system = true
source_eq preset preset = true
source_eq user user = true
source_eq _ _ = false

abbrev pub bool_eq : Bool → Bool → Bool
bool_eq true b = b
bool_eq false b = not b

-- Equality of two rules under `normalize`: without ids and times.
unfoldable pub same_rule : Rule → Rule → Bool
same_rule a b =
    a.position == b.position
    && action_eq a.action b.action
    && matcher_eq a.matcher b.matcher
    && same_text a.value b.value
    && source_eq a.source b.source
    && bool_eq a.locked b.locked
    && bool_eq a.enabled b.enabled

unfoldable pub same_rules : List Rule → List Rule → Bool
unfolding same_rule
same_rules [] [] = true
same_rules [] (b ∷ bs) = false
same_rules (a ∷ as') [] = false
same_rules (a ∷ as') (b ∷ bs) = same_rule a b && same_rules as' bs

-- The field `dirty` of `state`
unfoldable pub dirty : Db → Result Bool
unfolding revision draft same_rules
dirty db =
    if ltb 0 db.active_version
    then (revision db.active_version db >>= λ r. ok (not (same_rules (draft db) r.rules)))
    else ok true
