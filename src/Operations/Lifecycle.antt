-- ===== src/Operations/Lifecycle.antt =====
-- How an operation ends, and what the journal says of it.
use matreshka_panel.Base.{
  ◌≡◌, ◌∙◌, refl, ap, Bool, true, false, Option, none, some, List, [], ◌∷◌, ◌++◌, Time, Key,
  if◌then◌else◌, ◌==◌, ==_refl, get, get-append, get-update, get_sound, arith,
}
use matreshka_panel.Journal.Types.{EventType}
use matreshka_panel.Journal.Record.{Journal, Entry, Ident, audit}
use matreshka_panel.Monitoring.Services.{types, types-log}
use matreshka_panel.Operations.Actions.{
  Action, revoke_of_device, Payload, Phase, phase_started, phase_completed, phase_failed,
  operation_event,
}
use matreshka_panel.Operations.Run.{
  Operation, queued, running, completed, failed, Db, log_phase, confirmed, progressed, installed,
  succeed, fail, Outside, perform, execute,
}

-- The row that an id finds
abbrev pub find_operation : Key → Db → Option Operation
find_operation id db = get (λ o. o.id == id) db.operations

abbrev pub is_agent : Action → Bool
is_agent revoke_of_device = false
is_agent _ = true

abbrev pub events_of : Option EventType → List EventType
events_of none = []
events_of (some t) = t ∷ []

types-log_phase :
    (t : Option EventType) (e : Entry) (now : Time) (j : Journal)
    → types (log_phase t e now j).events ≡ events_of t ++ types j.events
unfolding log_phase
types-log_phase none e now j = refl
types-log_phase (some t) e now j = types-log t e now j

abbrev pub new_operation : Key → Action → Time → Operation
new_operation id action now = record {
  id = id;
  kind = action;
  status = queued;
  progress = 0;
  created_at = now;
  updated_at = now;
}

module _ (confirmation id : Key) (action : Action) (payload : Payload) (actor : Ident) where
  pub find_operation-confirmed :
      (now : Time) (db : Db)
      → find_operation id db ≡ none
      → find_operation id (confirmed confirmation action payload id actor now db)
        ≡ some (new_operation id action now)
  unfolding confirmed get
  find_operation-confirmed now db new =
      get-append (λ o. o.id == id) db.operations (new_operation id action now ∷ [])
      ∙ rw (new, ==_refl id) refl

  types-confirmed :
      (now : Time) (db : Db)
      → types (confirmed confirmation action payload id actor now db).registry.journal.events
        ≡ events_of (operation_event action phase_started) ++ types db.registry.journal.events
  unfolding confirmed audit
  types-confirmed now db = types-log_phase (operation_event action phase_started) _ now _

-- The last step of an operation on its row
abbrev pub ended : Bool → Time → Operation → Operation
ended true now o = record o { status = completed; progress = 100; updated_at = now }
ended false now o = record o { status = failed; updated_at = now }

abbrev end_phase : Bool → Phase
end_phase true = phase_completed
end_phase false = phase_failed

-- The end of `execute`
abbrev pub finish : Bool → Key → Action → Payload → Ident → Time → Db → Db
finish true = succeed
finish false = fail

module _ (id : Key) (action : Action) (payload : Payload) (actor : Ident) (now : Time)
    (db : Db) where
  operations-installed : (installed action payload db).operations ≡ db.operations
  unfolding installed
  operations-installed = ground arith

  journal-installed : (installed action payload db).registry ≡ db.registry
  unfolding installed
  journal-installed = ground arith

  pub find_operation-finish :
      (o : Operation) (returned : Bool)
      → find_operation id db ≡ some o
      → find_operation id (finish returned id action payload actor now db)
        ≡ some (ended returned now o)
  unfolding succeed fail progressed
  find_operation-finish o true there =
      get-update (λ x. x.id == id) (λ x. x.id == id) (ended true now)
        (installed action payload db).operations (λ x. refl)
      ∙ rw (operations-installed, there, get_sound (λ x. x.id == id) db.operations o there) refl
  find_operation-finish o false there =
      get-update (λ x. x.id == id) (λ x. x.id == id) (ended false now) db.operations (λ x. refl)
      ∙ rw (there, get_sound (λ x. x.id == id) db.operations o there) refl

  types-finish :
      (returned : Bool)
      → types (finish returned id action payload actor now db).registry.journal.events
        ≡ events_of (operation_event action (end_phase returned))
          ++ types db.registry.journal.events
  unfolding succeed fail progressed
  types-finish true =
      types-log_phase (operation_event action phase_completed) _ now _ ∙ rw journal-installed refl
  types-finish false = types-log_phase (operation_event action phase_failed) _ now _

abbrev pub started : Time → Operation → Operation
started now o = record o { status = running; progress = 15; updated_at = now }

pub find_operation-progressed :
    (id : Key) (now : Time) (db : Db) (o : Operation)
    → find_operation id db ≡ some o
    → find_operation id (progressed id running 15 now db) ≡ some (started now o)
unfolding progressed
find_operation-progressed id now db o there =
    get-update (λ x. x.id == id) (λ x. x.id == id) (started now) db.operations (λ x. refl)
    ∙ rw (there, get_sound (λ x. x.id == id) db.operations o there) refl

-- The row of an operation between its start and its end, whatever the call did.
pub operations-perform :
    (o : Outside) (id : Key) (action : Action) (payload : Payload) (asked answered : Time) (db : Db)
    → (perform o action payload asked answered db).0.operations ≡ db.operations
unfolding perform
operations-perform o id action payload asked answered db = ground arith

perform-agent :
    (o : Outside) (action : Action) (payload : Payload) (asked answered : Time) (db : Db)
    → is_agent action ≡ true
    → perform o action payload asked answered db ≡ (db, o.answer)
unfolding perform
perform-agent o action payload asked answered db h = ground (arith, h)

-- `execute` in terms of the answer to its call
pub execute-finish :
    (o : Outside) (id : Key) (action : Action) (payload : Payload) (actor : Ident)
    (asked answered : Time) (db db' : Db) (returned : Bool)
    → perform o action payload asked answered (progressed id running 15 asked db) ≡ (db', returned)
    → execute o id action payload actor asked answered db
      ≡ finish returned id action payload actor answered db'
unfolding execute
execute-finish o id action payload actor asked answered db db' true e = rw (e, execute) refl
execute-finish o id action payload actor asked answered db db' false e = rw (e, execute) refl

status-ended :
    (returned : Bool) (now : Time) (o : Operation)
    → (ended returned now o).status ≡ (if returned then completed else failed)
status-ended true now o = refl
status-ended false now o = refl

progress-ended :
    (returned : Bool) (now : Time) (o : Operation)
    → o.progress ≡ 15
    → (ended returned now o).progress ≡ (if returned then 100 else 15)
progress-ended true now o h = refl
progress-ended false now o h = h

types-progressed :
    (id : Key) (now : Time) (db : Db)
    → types (progressed id running 15 now db).registry.journal.events
      ≡ types db.registry.journal.events
unfolding progressed
types-progressed id now db = refl

devices-finish :
    (id : Key) (action : Action) (payload : Payload) (actor : Ident) (now : Time) (db : Db)
    (returned : Bool)
    → (finish returned id action payload actor now db).registry.devices ≡ db.registry.devices
unfolding succeed fail progressed
devices-finish id action payload actor now db true =
    ap (λ r. r.devices) (journal-installed id action payload actor now db)
devices-finish id action payload actor now db false = refl

devices-confirmed :
    (confirmation id : Key) (action : Action) (payload : Payload) (actor : Ident) (asked now : Time)
    (db : Db)
    → (progressed id running 15 asked
        (confirmed confirmation action payload id actor now db)).registry.devices
      ≡ db.registry.devices
unfolding progressed confirmed
devices-confirmed confirmation id action payload actor asked now db = refl

-- A confirmed operation of the root agent, under a new id, is executed. If the agent answers, it is
-- completed at 100 percent; if the agent fails, it has failed at 15. The journal gains exactly its
-- start and then its end of that kind, and no device changes.
pub operation_ends :
    (o : Outside) (confirmation id : Key) (action : Action) (payload : Payload) (actor : Ident)
    (now asked answered : Time) (db : Db)
    → is_agent action ≡ true
    → find_operation id db ≡ none
    → let db' =
        execute o id action payload actor asked answered
          (confirmed confirmation action payload id actor now db) in
      (row : Operation) × (find_operation id db' ≡ some row)
      × (row.status ≡ (if o.answer then completed else failed))
      × (row.progress ≡ (if o.answer then 100 else 15))
      × (types db'.registry.journal.events
          ≡ events_of (operation_event action (end_phase o.answer))
            ++ (events_of (operation_event action phase_started)
                ++ types db.registry.journal.events))
      × (db'.registry.devices ≡ db.registry.devices)
operation_ends o confirmation id action payload actor now asked answered db agent new =
    let db1 = confirmed confirmation action payload id actor now db in
    let db2 = progressed id running 15 asked db1 in
    let row = started asked (new_operation id action now) in
    let run =
      execute-finish o id action payload actor asked answered db1 db2 o.answer
        (perform-agent o action payload asked answered db2 agent) in
    let there =
      find_operation-progressed id asked db1 (new_operation id action now)
        (find_operation-confirmed confirmation id action payload actor now db new) in
    (
      ended o.answer answered row,
      ap (find_operation id) run
          ∙ find_operation-finish id action payload actor answered db2 row o.answer there,
      status-ended o.answer answered row,
      progress-ended o.answer answered row refl,
      ap (λ x. types x.registry.journal.events) run
          ∙ types-finish id action payload actor answered db2 o.answer
          ∙ ap (◌++◌ (events_of (operation_event action (end_phase o.answer)))) (
              types-progressed id asked db1
              ∙ types-confirmed confirmation id action payload actor now db),
      ap (λ x. x.registry.devices) run
          ∙ devices-finish id action payload actor answered db2 o.answer
          ∙ devices-confirmed confirmation id action payload actor asked now db,
    )
