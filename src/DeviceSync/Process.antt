-- ===== src/DeviceSync/Process.antt =====
-- `process`, `drain` and `revoke` of DeviceSyncService. The call of the engine is awaited, so a job
-- runs in two steps, `claim` and `settle`; its outcome is an argument.
use matreshka_panel.Base.{
  ℕ, suc, Bool, true, false, ◌&&◌, Option, none, some, List, [], ◌∷◌, ◌++◌, Time, Key,
  if◌then◌else◌, is_some, select, update, ◌==◌, leb, take, map,
}
use matreshka_panel.Journal.Types.{EventType}
use matreshka_panel.Journal.Record.{Ident, uuid, log_change}
use matreshka_panel.Registry.{
  Registry, invited, active, revoked, Job, activate, revoke, running, failed, completed,
  is_claimable, Result, ok, err, ◌>>=◌,
}
use matreshka_panel.People.Directory.{find_device, device}
use matreshka_panel.People.Devices.{device_entry}
use matreshka_panel.DeviceSync.Jobs.{
  find_job, open_job, new_job, next_retry, claim, complete_activation, complete_revocation,
  revoke_rows,
}

-- The `catch` of `process`.
unfoldable pub fail_job : Job → Time → Registry → Registry
fail_job j now reg = record reg {
  jobs =
      update (λ x. x.id == j.id)
        (λ x. record x {
          status = failed;
          next_attempt_at = next_retry j.attempts now;
          updated_at = now;
        })
        reg.jobs;
}

unfoldable pub complete : (Key → Key) → Job → Time → Registry → Option Registry
complete subscription j now reg = elim j.kind [
  | activate ↦ complete_activation subscription j now reg
  | revoke ↦ complete_revocation j now reg
]

-- The second half of `process`, after the engine has answered (`true`) or thrown: the new tables,
-- and whether the call returned.
unfoldable pub settle : (Key → Key) → Job → Bool → Time → Registry → Registry × Bool
settle subscription j false now reg = (fail_job j now reg, false)
settle subscription j true now reg = elim (complete subscription j now reg) [
  | none ↦ (fail_job j now reg, false)
  | some reg' ↦ (reg', true)
]

-- The result of `process`: `true`, `false`, or an exception.
pub data Processed : Type 0 where
  done skipped thrown : Processed

abbrev pub outcome_of : Bool → Processed
outcome_of true = done
outcome_of false = thrown

-- `process` with no other step between its halves; `asked` and `answered` are their times.
unfoldable pub process :
    (Key → Key) → Key → Bool → Bool → Time → Time → Registry → Registry × Processed
process subscription id force answer asked answered reg = elim (find_job id reg) [
  | none ↦ (reg, thrown)
  | some current ↦ elim current.status [
    | completed ↦ (reg, done)
    | running ↦ (reg, skipped)
    | _ ↦ elim (claim id force asked reg) [
      | none ↦ (reg, skipped)
      | some reg1 ↦ elim (find_job id reg1) [
        | none ↦ (reg1, thrown)
        | some j ↦
            let (reg2, returned) = settle subscription j answer answered reg1 in
            (reg2, outcome_of returned)
      ]
    ]
  ]
]

-- `SELECT id FROM device_sync_jobs WHERE status IN ('pending', 'failed') AND next_attempt_at <= ?
-- ORDER BY created_at LIMIT ?`: the table is in order of creation.
unfoldable pub due : Time → ℕ → List Job → List Key
due now limit jobs =
    take limit
      (map (λ j. j.id) (select (λ j. is_claimable j.status && leb j.next_attempt_at now) jobs))

-- The loop of `drain`: the answer of the engine for each job, and the count of jobs processed.
unfoldable pub drain_jobs :
    (Key → Key) → (Key → Bool) → Time → List Key → Registry → ℕ → Registry × ℕ
drain_jobs subscription answer now [] reg processed = (reg, processed)
drain_jobs subscription answer now (id ∷ ids) reg processed =
    let (reg', r) = process subscription id false (answer id) now now reg in
    drain_jobs subscription answer now ids reg'
      (elim r [ done ↦ suc processed | skipped ↦ processed | thrown ↦ processed ])

-- `drain`, when no other drain is under way.
unfoldable pub drain : (Key → Key) → (Key → Bool) → Time → ℕ → Registry → Registry × ℕ
drain subscription answer now limit reg =
    drain_jobs subscription answer now (due now limit reg.jobs) reg 0

-- `revokeUnprovisioned`
unfoldable pub revoke_unprovisioned : Key → Ident → Time → Registry → Result Registry
unfolding device find_device device_entry revoke_rows
revoke_unprovisioned id actor now reg = do
  d ← device id reg
  let reg' = revoke_rows id now reg
  ok (record reg' {
    journal =
        log_change EventType.device_revoked actor "devices.revoke" "device" (some (uuid id))
          (device_entry actor d) now reg'.journal;
  })

-- The job of `revoke`: the open one, or a new one with the id `fresh`.
unfoldable pub revoke_job : Key → Key → Ident → Time → Registry → Registry × Key
unfolding open_job new_job
revoke_job fresh id actor now reg = elim (open_job id revoke reg) [
  | some j ↦ (reg, j.id)
  | none ↦ (record reg { jobs = reg.jobs ++ new_job fresh id none revoke actor now ∷ [] }, fresh)
]

-- `DeviceSyncService.revoke`: the tables it leaves, and the HTTP status where it throws.
unfoldable pub revoke_device :
    (Key → Key) → Key → Key → Ident → Bool → Time → Time → Registry → Registry × Option ℕ
revoke_device subscription fresh id actor answer asked answered reg = elim (find_device id reg) [
  | none ↦ (reg, some 404)
  | some d ↦ elim d.status [
    | revoked ↦ (reg, none)
    | invited ↦
        if is_some (open_job id activate reg)
        then (reg, some 409)
        else elim (revoke_unprovisioned id actor asked reg) [
          | ok reg' ↦ (reg', none)
          | err e ↦ (reg, some e)
        ]
    | active ↦
        if is_some (open_job id activate reg)
        then (reg, some 409)
        else (let (reg1, job) = revoke_job fresh id actor asked reg in
            let (reg2, r) = process subscription job true answer asked answered reg1 in
            (reg2, elim r [ thrown ↦ some 503 | done ↦ none | skipped ↦ none ]))
  ]
]
