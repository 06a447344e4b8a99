-- ===== src/Operations/Run.antt =====
-- `preview`, `confirm` and `execute` of OperationService, outside the demo. The root agent's answer
-- is an argument; `execute` runs in the background, so it is a step of its own after `confirm`. The
-- messages, results and errors of an operation are texts for the panel and are left out.
use matreshka_panel.Base.{
  ℕ, ◌+◌, Bool, false, not, ◌&&◌, Option, none, some, List, [], ◌∷◌, ◌++◌, Time, Key, if◌then◌else◌,
  leb, ◌==◌, is_some, get, update,
}
use matreshka_panel.Journal.Json.{Fields, object}
use matreshka_panel.Journal.Types.{EventType}
use matreshka_panel.Journal.Record.{Journal, Entry, blank, Ident, uuid, word, audit, log}
use matreshka_panel.Registry.{Registry, engine_eq, Result, ok, ◌>>=◌, ◌>>◌, require, found}
use matreshka_panel.DeviceSync.Process.{revoke_device}
use matreshka_panel.Operations.Actions.{
  Action, revoke_of_device, engine_update, action_eq, preview_name, confirm_name, Payload,
  phase_started, phase_completed, phase_failed, redact_payload, operation_event, operation_data,
  operation_result_data, operation_subject, operation_subject_id, joined,
}
use matreshka_panel.Operations.Validate.{Version, engine_named, validate}

-- A row of `confirmations`; of `preview_json` the payload is kept.
pub record Confirmation : Type 0 where
  pub id : Key
  pub action : Action
  pub payload_hash : Key
  pub shown : Payload
  pub expires_at : Time
  pub used_at : Option Time
  pub created_at : Time

pub data Status : Type 0 where
  queued running completed failed : Status

-- A row of `operations`
pub record Operation : Type 0 where
  pub id : Key
  pub kind : Action
  pub status : Status
  pub progress : ℕ
  pub created_at : Time
  pub updated_at : Time

pub record Db : Type 0 where
  pub registry : Registry
  pub versions : List Version
  pub confirmations : List Confirmation
  pub operations : List Operation

abbrev pub confirmation_ms : ℕ
confirmation_ms = 612000

abbrev pub with_journal : Journal → Db → Db
with_journal j db = record db { registry = record db.registry { journal = j } }

unfoldable pub new_confirmation :
    (Action → Payload → Key) → Key → Action → Payload → Time → Confirmation
unfolding redact_payload
new_confirmation hash id action payload now = record {
  id = id;
  action = action;
  payload_hash = hash action payload;
  shown = redact_payload action payload;
  expires_at = now + confirmation_ms;
  used_at = none;
  created_at = now;
}

-- What `preview` writes; `hash` is `payloadHash`, `id` the new id.
unfoldable pub previewed :
    (Action → Payload → Key) → Key → Action → Payload → Ident → Time → Db → Db
unfolding new_confirmation
previewed hash id action payload actor now db =
    let (_, journal) =
      audit actor (preview_name action) "confirmation" (some (uuid id)) now db.registry.journal in
    with_journal journal (record db {
      confirmations = db.confirmations ++ new_confirmation hash id action payload now ∷ [];
    })

-- `preview`
unfoldable pub preview :
    (Action → Payload → Key) → Key → Action → Payload → Ident → Time → Db → Result Db
unfolding validate previewed
preview hash id action payload actor now db = do
  validate action payload db.versions db.registry
  ok (previewed hash id action payload actor now db)

-- The entry of an event of an operation.
unfoldable pub operation_entry : Action → Payload → Key → Ident → Option ℕ → Fields → Entry
unfolding operation_subject operation_subject_id
operation_entry action payload id actor audit_id data' = record blank {
  actor = some actor;
  audit_id = audit_id;
  operation_id = some id;
  subject_type = some (operation_subject action);
  subject_id = operation_subject_id action payload;
  payload = object data';
}

-- `if (type) this.journal.record(type, ...)`
unfoldable pub log_phase : Option EventType → Entry → Time → Journal → Journal
log_phase none e now j = j
log_phase (some t) e now j = log t e now j

abbrev pub is_usable : (Action → Payload → Key) → Action → Payload → Time → Confirmation → Bool
is_usable hash action payload now c =
    not (is_some c.used_at)
    && not (leb c.expires_at now)
    && action_eq c.action action
    && c.payload_hash == hash action payload

-- The transaction of `confirm`; `operation` is the new id.
unfoldable pub confirmed : Key → Action → Payload → Key → Ident → Time → Db → Db
unfolding log_phase operation_event operation_entry operation_data
confirmed confirmation action payload operation actor now db =
    let row : Operation = record {
      id = operation;
      kind = action;
      status = queued;
      progress = 0;
      created_at = now;
      updated_at = now;
    } in
    let (audit_id, journal) =
      audit actor (confirm_name action) "operation" (some (uuid operation)) now
        db.registry.journal in
    with_journal
      (log_phase (operation_event action phase_started)
        (operation_entry action payload operation actor (some audit_id)
          (operation_data action payload))
        now journal)
      (record db {
        confirmations =
            update (λ c. c.id == confirmation) (λ c. record c { used_at = some now })
              db.confirmations;
        operations = db.operations ++ row ∷ [];
      })

-- `confirm`, up to the start of `execute`
unfoldable pub confirm :
    (Action → Payload → Key) → Key → Action → Payload → Key → Ident → Time → Db → Result Db
unfolding validate confirmed
confirm hash confirmation action payload operation actor now db = do
  row ← found (get (λ c. c.id == confirmation) db.confirmations) 409
  require (is_usable hash action payload now row) 409
  validate action payload db.versions db.registry
  ok (confirmed confirmation action payload operation actor now db)

-- `update`
unfoldable pub progressed : Key → Status → ℕ → Time → Db → Db
progressed id status progress now db = record db {
  operations =
      update (λ o. o.id == id)
        (λ o. record o { status = status; progress = progress; updated_at = now }) db.operations;
}

-- `UPDATE engine_versions SET installed_version = ... WHERE engine = ?` after an `engine.update`
unfoldable pub installed : Action → Payload → Db → Db
installed engine_update p db = record db {
  versions =
      update
        (λ v. elim (engine_named p.engine) as (λ _. Bool) [
          | none ↦ false
          | some e ↦ engine_eq v.engine e
        ])
        (λ v. record v { installed = some p.version }) db.versions;
}
installed _ p db = db

-- The end of `execute` after a success
unfoldable pub succeed : Key → Action → Payload → Ident → Time → Db → Db
unfolding installed progressed log_phase operation_event operation_entry operation_data
    operation_result_data
succeed id action payload actor now db =
    let db' = progressed id completed 100 now (installed action payload db) in
    with_journal
      (log_phase (operation_event action phase_completed)
        (operation_entry action payload id actor none
          (joined (operation_data action payload) (operation_result_data action payload)))
        now db'.registry.journal)
      db'

-- The `catch` of `execute`
unfoldable pub fail : Key → Action → Payload → Ident → Time → Db → Db
unfolding log_phase operation_event operation_entry operation_data
fail id action payload actor now db =
    with_journal
      (log_phase (operation_event action phase_failed)
        (operation_entry action payload id actor none (operation_data action payload)) now
        db.registry.journal)
      (record db {
        operations =
            update (λ o. o.id == id) (λ o. record o { status = failed; updated_at = now })
              db.operations;
      })

-- What stands for the outside of `execute`: the hash of a device's subscription token, the id of a
-- job that may be opened, and the answer of the agent (or of the engine), `false` if it throws.
pub record Outside : Type 0 where
  pub subscription : Key → Key
  pub job : Key
  pub answer : Bool

-- The call that `execute` awaits: the tables after it, and whether it returned.
unfoldable pub perform : Outside → Action → Payload → Time → Time → Db → Db × Bool
unfolding revoke_device
perform o revoke_of_device p asked answered db =
    let (reg, thrown) =
      revoke_device o.subscription o.job p.device_id (word "operation") o.answer asked answered
        db.registry in
    (record db { registry = reg }, not (is_some thrown))
perform o _ p asked answered db = (db, o.answer)

-- `execute`, when nothing else runs while it waits.
unfoldable pub execute : Outside → Key → Action → Payload → Ident → Time → Time → Db → Db
unfolding progressed perform succeed fail
execute o id action payload actor asked answered db =
    let (db', returned) =
      perform o action payload asked answered (progressed id running 15 asked db) in
    if returned
    then succeed id action payload actor answered db'
    else fail id action payload actor answered db'
