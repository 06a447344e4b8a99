-- ===== src/Tests/Operations.antt =====
-- Privileged operations on concrete tables.
use matreshka_panel.Base.{Key, ◌+◌, ◌≡◌, ◌++◌, refl, true, some, [], ◌∷◌, get}
use matreshka_panel.Journal.Record.{word}
use matreshka_panel.Registry.{err}
use matreshka_panel.People.Directory.{find_device}
use matreshka_panel.DeviceSync.Severed.{CutOff}
use matreshka_panel.Operations.Actions.{
  Action, revoke_of_device, nginx_reload, no_passphrase, Payload, operation_event, phase_started,
  phase_completed,
}
use matreshka_panel.Operations.Validate.{validate}
use matreshka_panel.Operations.Run.{
  Db, Operation, completed, Outside, new_confirmation, previewed, confirmed, confirm, execute,
}
use matreshka_panel.Operations.Once.{confirmation_used_once}
use matreshka_panel.Operations.Lifecycle.{find_operation, events_of, operation_ends}
use matreshka_panel.Operations.Removal.{operation_revokes}
use matreshka_panel.Monitoring.Services.{types}
use matreshka_panel.Tests.Sync.{laptop-IsRevocable}
use matreshka_panel.Tests.Tables.{laptop, one_device}

abbrev about : Key → Payload
about id = record {
  device_id = id;
  service = "";
  engine = "";
  version = "";
  checksum = "";
  bundle = "";
  signature = "";
  output = "";
  passphrase = no_passphrase;
}

abbrev before : Db
before = record { registry = one_device; versions = []; confirmations = []; operations = [] }

abbrev digest : Action → Payload → Key
digest action p = p.device_id

abbrev shown : Db
shown = previewed digest 60 revoke_of_device (about 7) (word "owner") 1000 before

confirmation_used_once_example :
    confirm digest 60 revoke_of_device
      (about 7)
      62
      (word "owner")
      3000
      (confirmed 60 revoke_of_device (about 7) 61 (word "owner") 2000 shown)
    ≡ err 409
unfolding confirm confirmed previewed new_confirmation validate find_device get
confirmation_used_once_example =
    confirmation_used_once digest 60 61 62 revoke_of_device revoke_of_device (about 7) (about 7)
      (word "owner") (word "owner") 2000 3000 shown
      (confirmed 60 revoke_of_device (about 7) 61 (word "owner") 2000 shown) refl

abbrev outside : Outside
outside = record { subscription = λ d. 2900 + d; job = 41; answer = true }

operation_ends_example :
    let db' =
      execute outside 61 nginx_reload
        (about 0)
        (word "owner")
        2100
        2200
        (confirmed 60 nginx_reload (about 0) 61 (word "owner") 2000 before) in
    (row : Operation) × (find_operation 61 db' ≡ some row)
    × (row.status ≡ completed)
    × (row.progress ≡ 100)
    × (types db'.registry.journal.events
        ≡ events_of (operation_event nginx_reload phase_completed)
          ++ (events_of (operation_event nginx_reload phase_started) ++ []))
    × (db'.registry.devices ≡ laptop ∷ [])
unfolding get types
operation_ends_example =
    operation_ends outside 60 61 nginx_reload (about 0) (word "owner") 2000 2100 2200 before refl
      refl

operation_revokes_example :
    let db' =
      execute outside 61 revoke_of_device
        (about 7)
        (word "owner")
        2100
        2200
        (confirmed 60 revoke_of_device (about 7) 61 (word "owner") 2000 before) in
    (row : Operation) × (find_operation 61 db' ≡ some row)
    × (row.status ≡ completed)
    × CutOff (λ t. 900 + t) (λ b. b) 7 55 7 laptop db'.registry
unfolding get
operation_revokes_example =
    operation_revokes outside (λ t. 900 + t) (λ b. b) 60 61 55 7 (about 7) (word "owner") 2000 2100
      2200 laptop laptop before refl laptop-IsRevocable refl refl
