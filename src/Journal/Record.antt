-- ===== src/Journal/Record.antt =====
-- `JournalService.record` and `change`, and `audit` and `event` of src/server/db/database.ts.
-- The two tables are the rows written so far, newest first; their AUTOINCREMENT ids are counters.
use matreshka_panel.Base.{
  ℕ, suc, Bool, String, Option, none, some, List, [], ◌∷◌, Time, Key, or_else,
}
use matreshka_panel.Journal.Json.{Json, object, end}
use matreshka_panel.Journal.Sanitize.{sanitize}
use matreshka_panel.Journal.Types.{
  Category, Kind, Severity, Outcome, EventType, definitions, source_of,
}

-- An actor, a subject or a resource: an id of the database, or a fixed word such as `owner`.
pub data Ident : Type 0 where
  uuid : Key → Ident
  word : String → Ident

-- A row of `events`.
pub record Event : Type 0 where
  pub id : ℕ
  pub type : EventType
  pub category : Category
  pub kind : Kind
  pub severity : Severity
  pub outcome : Option Outcome
  pub important : Bool
  pub source : String
  pub actor : Option Ident
  pub subject_type : Option String
  pub subject_id : Option Ident
  pub operation_id : Option Key
  pub audit_id : Option ℕ
  pub payload : Json
  pub occurred_at : Time

-- A row of `audit_log`; the `before` and `after` snapshots are left out.
pub record Audit : Type 0 where
  pub id : ℕ
  pub actor : Ident
  pub action : String
  pub resource : String
  pub resource_id : Option Ident
  pub created_at : Time

pub record Journal : Type 0 where
  pub events : List Event
  pub last_event : ℕ
  pub audits : List Audit
  pub last_audit : ℕ

abbrev pub empty : Journal
empty = record { events = []; last_event = 0; audits = []; last_audit = 0 }

-- `JournalRecord`. `outcome` tells an absent field (`none`) from `null` (`some none`).
pub record Entry : Type 0 where
  pub severity : Option Severity
  pub outcome : Option (Option Outcome)
  pub important : Option Bool
  pub source : Option String
  pub actor : Option Ident
  pub subject_type : Option String
  pub subject_id : Option Ident
  pub operation_id : Option Key
  pub audit_id : Option ℕ
  pub payload : Json
  pub occurred_at : Option Time

-- An entry with no field given.
abbrev pub blank : Entry
blank = record {
  severity = none;
  outcome = none;
  important = none;
  source = none;
  actor = none;
  subject_type = none;
  subject_id = none;
  operation_id = none;
  audit_id = none;
  payload = object end;
  occurred_at = none;
}

-- `JournalService.record` and `MatreshkaDatabase.event`
unfoldable pub log : EventType → Entry → Time → Journal → Journal
log t e now j =
    let d = definitions t in
    let row : Event = record {
      id = suc j.last_event;
      type = t;
      category = d.category;
      kind = d.kind;
      severity = or_else e.severity d.severity;
      outcome = or_else e.outcome (some d.outcome);
      important = or_else e.important d.important;
      source = or_else e.source (source_of t);
      actor = e.actor;
      subject_type = e.subject_type;
      subject_id = e.subject_id;
      operation_id = e.operation_id;
      audit_id = e.audit_id;
      payload = sanitize e.payload;
      occurred_at = or_else e.occurred_at now;
    } in
    record j { events = row ∷ j.events; last_event = suc j.last_event }

-- `MatreshkaDatabase.audit`: the new id and the log
unfoldable pub audit : Ident → String → String → Option Ident → Time → Journal → ℕ × Journal
audit actor action resource resource_id now j =
    let row : Audit = record {
      id = suc j.last_audit;
      actor = actor;
      action = action;
      resource = resource;
      resource_id = resource_id;
      created_at = now;
    } in
    (suc j.last_audit, record j { audits = row ∷ j.audits; last_audit = suc j.last_audit })

-- The audit row and the event that points to it, as `change` writes them after its mutation.
unfoldable pub log_change :
    EventType → Ident → String → String → Option Ident → Entry → Time → Journal → Journal
unfolding audit log
log_change t actor action resource resource_id e now j =
    let (audit_id, j') = audit actor action resource resource_id now j in
    log t (record e { audit_id = some audit_id }) now j'
