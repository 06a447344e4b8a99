-- ===== src/Operations/Removal.antt =====
-- A device that is revoked through a confirmed operation.
use matreshka_panel.Base.{◌≡◌, ◌∙◌, refl, ap, sym, subst, true, none, some, Time, Key}
use matreshka_panel.Journal.Record.{Journal, Ident, word}
use matreshka_panel.Registry.{Registry, Device}
use matreshka_panel.People.Directory.{find_device}
use matreshka_panel.DeviceSync.Jobs.{open_job, find_job}
use matreshka_panel.DeviceSync.Process.{revoke_device}
use matreshka_panel.DeviceSync.Severed.{CutOff}
use matreshka_panel.DeviceSync.Revocation.{IsRevocable, revoke_cuts_off}
use matreshka_panel.Operations.Actions.{revoke_of_device, Payload, operation_event}
use matreshka_panel.Operations.Run.{
  Operation, running, completed, Db, log_phase, confirmed, progressed, installed, succeed, Outside,
  perform, execute,
}
use matreshka_panel.Operations.Lifecycle.{
  find_operation, find_operation-confirmed, find_operation-progressed, find_operation-finish,
  execute-finish, new_operation, started, ended,
}

IsRevocable-with_journal :
    (fresh id : Key) (d : Device) (reg : Registry) (j : Journal)
    → IsRevocable fresh id d reg
    → IsRevocable fresh id d (record reg { journal = j })
unfolding find_device open_job find_job
IsRevocable-with_journal fresh id d reg j h = record {
  known = h.known;
  on = h.on;
  no_activation = h.no_activation;
  no_revocation = h.no_revocation;
  new_id = h.new_id;
}

perform-revoke :
    (o : Outside) (payload : Payload) (asked answered : Time) (db : Db) (reg : Registry)
    → revoke_device o.subscription o.job payload.device_id
        (word "operation")
        o.answer
        asked
        answered
        db.registry
      ≡ (reg, none)
    → perform o revoke_of_device payload asked answered db ≡ (record db { registry = reg }, true)
unfolding perform
perform-revoke o payload asked answered db reg e = rw (e, perform) refl

registry-succeed :
    (id : Key) (payload : Payload) (actor : Ident) (now : Time) (db : Db)
    → (succeed id revoke_of_device payload actor now db).registry ≡ db.registry
unfolding succeed progressed installed log_phase operation_event
registry-succeed id payload actor now db = refl

-- The revocation of an active device with no open job is confirmed and executed, and the engine
-- answers. Then the operation is completed, and nothing of the device works any more: no credentials,
-- no Hysteria password, no subscription token, no redemption session.
pub operation_revokes :
    (o : Outside) (hash open_box : Key → Key) (confirmation id auth token : Key) (payload : Payload)
    (actor : Ident) (now asked answered : Time) (d d' : Device) (db : Db)
    → o.answer ≡ true
    → IsRevocable o.job payload.device_id d db.registry
    → find_operation id db ≡ none
    → d'.id ≡ payload.device_id
    → let db' =
        execute o id revoke_of_device payload actor asked answered
          (confirmed confirmation revoke_of_device payload id actor now db) in
      (row : Operation) × (find_operation id db' ≡ some row)
      × (row.status ≡ completed)
      × CutOff hash open_box payload.device_id auth token d' db'.registry
unfolding confirmed progressed
operation_revokes o hash open_box confirmation id auth token payload actor now asked answered d d'
      db answers h new same =
    let db1 = confirmed confirmation revoke_of_device payload id actor now db in
    let db2 = progressed id running 15 asked db1 in
    let row = started asked (new_operation id revoke_of_device now) in
    let (reg', e, cut) =
      revoke_cuts_off o.subscription hash open_box o.job payload.device_id auth token
        (word "operation") asked answered d d' db2.registry
        (IsRevocable-with_journal o.job payload.device_id d db.registry db2.registry.journal h)
        same in
    let run =
      execute-finish o id revoke_of_device payload actor asked answered db1
        (record db2 { registry = reg' }) true
        (perform-revoke o payload asked answered db2 reg' (rw (answers) e)) in
    let there =
      find_operation-progressed id asked db1 (new_operation id revoke_of_device now)
        (find_operation-confirmed confirmation id revoke_of_device payload actor now db new) in
    (
      ended true answered row,
      ap (find_operation id) run
          ∙ find_operation-finish id revoke_of_device payload actor answered
              (record db2 { registry = reg' }) row true there,
      refl,
      subst (CutOff hash open_box payload.device_id auth token d')
          (sym (
            ap (λ x. x.registry) run
            ∙ registry-succeed id payload actor answered (record db2 { registry = reg' })))
          cut,
    )
