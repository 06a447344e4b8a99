-- ===== src/Tests/Sync.antt =====
-- The device outbox on concrete tables.
use matreshka_panel.Base.{
  Key, Bool, [], ◌∷◌, ◌==◌, suc, ◌+◌, ◌*◌, ◌≡◌, ◌≤◌, refl, true, false, none, some, get, count,
  latest, length, hour_ms, arith, min,
}
use matreshka_panel.Journal.Record.{word}
use matreshka_panel.Registry.{Registry, Device, DeviceStatus, Job, JobKind, JobStatus, ok}
use matreshka_panel.People.Directory.{find_device}
use matreshka_panel.DeviceSync.Jobs.{find_job, open_job, next_retry, retry_seconds}
use matreshka_panel.DeviceSync.Process.{drain, revoke_device}
use matreshka_panel.DeviceSync.Redeem.{
  redeem, still_pending, installed, redemption_hours, activates,
}
use matreshka_panel.DeviceSync.Activation.{IsRedeemable, redeem_installs}
use matreshka_panel.DeviceSync.Activation.Failure.{redeem_failure_queues}
use matreshka_panel.DeviceSync.Drain.{drain_activates}
use matreshka_panel.DeviceSync.Severed.{CutOff}
use matreshka_panel.DeviceSync.Revocation.{IsRevocable, revoke_cuts_off, revoke_failure_keeps}
use matreshka_panel.DeviceSync.Queue.{here, step, recover, open_jobs, one_open_job}
use matreshka_panel.DeviceSync.Retry.{retry_grows}
use matreshka_panel.DeviceSync.Jobs.{recover_interrupted}
use matreshka_panel.Tests.Tables.{
  laptop, phone, one_device, invited_phone, crypto, new_rows, link, failed_once, waiting_phone,
}

link-IsRedeemable : IsRedeemable crypto 5 new_rows link phone 1000 invited_phone
unfolding get open_job find_device find_job
link-IsRedeemable = record {
  invited = refl;
  waiting = refl;
  in_time = omega arith;
  idle = refl;
  known = refl;
  new_session = refl;
  new_id = refl;
}

redeem_installs_example :
    (reg' : Registry) × (d' : Device) × (j : Job) × (redeem crypto 5 new_rows true 1000 2000
        invited_phone
      ≡ (reg', ok (installed d' 2008 (1000 + redemption_hours * hour_ms))))
    × (find_device 8 reg' ≡ some d')
    × (d'.status ≡ DeviceStatus.active)
    × (d'.subscription_hash ≡ some 2908)
    × (length reg'.redemptions ≡ suc (length invited_phone.redemptions))
    × (latest (activates 20) reg'.jobs ≡ some j)
    × (j.status ≡ JobStatus.completed)
redeem_installs_example =
    redeem_installs crypto 5 new_rows link phone 1000 2000 invited_phone link-IsRedeemable
      (omega arith)

redeem_failure_queues_example :
    (reg' : Registry) × (j : Job) × (redeem crypto 5 new_rows false 1000 2000 invited_phone
      ≡ (reg', ok (still_pending JobStatus.failed phone (1000 + redemption_hours * hour_ms))))
    × (reg'.devices ≡ invited_phone.devices)
    × (reg'.credentials ≡ invited_phone.credentials)
    × (find_job 40 reg' ≡ some j)
    × (j.status ≡ JobStatus.failed)
    × (j.attempts ≡ 1)
    × (j.next_attempt_at ≡ 2000 + 5000)
redeem_failure_queues_example =
    redeem_failure_queues crypto 5 new_rows link phone 1000 2000 invited_phone link-IsRedeemable
      (omega arith)

-- A revocation of the laptop that waits too.
abbrev laptop_job : Job
laptop_job = record failed_once {
  id = 39;
  device_id = 7;
  invitation_id = none;
  kind = JobKind.revoke;
}

abbrev two_waiting : Registry
two_waiting = record invited_phone { jobs = laptop_job ∷ failed_once ∷ [] }

abbrev accepts_phone : Key → Bool
accepts_phone id = id == 40

drain_activates_example :
    let reg' = (drain (λ d. 2900 + d) accepts_phone 7000 20 two_waiting).0 in
    (j' : Job) × (d' : Device) × (find_job 40 reg' ≡ some j')
    × (j'.status ≡ JobStatus.completed)
    × (find_device 8 reg' ≡ some d')
    × (d'.status ≡ DeviceStatus.active)
    × (d'.subscription_hash ≡ some 2908)
unfolding find_job find_device get count
drain_activates_example =
    drain_activates (λ d. 2900 + d) accepts_phone failed_once 20 phone 7000 20 two_waiting refl refl
      refl refl (omega arith) refl refl (refl, (refl, tt)) (omega arith)
      ((λ ready other. refl), ((λ ready other. ground arith), tt))

pub laptop-IsRevocable : IsRevocable 41 7 laptop one_device
unfolding open_job find_device find_job get
laptop-IsRevocable = record {
  known = refl;
  on = refl;
  no_activation = refl;
  no_revocation = refl;
  new_id = refl;
}

revoke_cuts_off_example :
    (reg' : Registry) × (revoke_device (λ d. 2900 + d) 41 7 (word "owner") true 1000 2000 one_device
      ≡ (reg', none))
    × CutOff (λ t. 900 + t) (λ b. b) 7 55 7 laptop reg'
revoke_cuts_off_example =
    revoke_cuts_off (λ d. 2900 + d) (λ t. 900 + t) (λ b. b) 41 7 55 7 (word "owner") 1000 2000
      laptop laptop one_device laptop-IsRevocable refl

revoke_failure_keeps_example :
    (reg' : Registry) × (j : Job) × (revoke_device
        (λ d. 2900 + d)
        41
        7
        (word "owner")
        false
        1000
        2000
        one_device
      ≡ (reg', some 503))
    × (reg'.devices ≡ one_device.devices)
    × (reg'.credentials ≡ one_device.credentials)
    × (reg'.invitations ≡ one_device.invitations)
    × (reg'.redemptions ≡ one_device.redemptions)
    × (find_job 41 reg' ≡ some j)
    × (j.kind ≡ JobKind.revoke)
    × (j.status ≡ JobStatus.failed)
    × (j.attempts ≡ 1)
    × (j.next_attempt_at ≡ 2000 + 5000)
revoke_failure_keeps_example =
    revoke_failure_keeps (λ d. 2900 + d) 41 7 (word "owner") 1000 2000 laptop one_device
      laptop-IsRevocable

one_open_job_example : open_jobs 8 JobKind.activate (recover_interrupted 9000 waiting_phone) ≤ 1
unfolding count
one_open_job_example =
    one_open_job waiting_phone (recover_interrupted 9000 waiting_phone) 8 JobKind.activate
      (omega arith) (step here (recover 9000 waiting_phone))

retry_grows_example :
    (next_retry 1 0 ≡ 0 + 5000)
    × (retry_seconds 2 ≡ min 300 (2 * retry_seconds 1))
    × (0 + 5000 ≤ next_retry 1 0)
    × (next_retry 1 0 ≤ next_retry 2 0)
    × (next_retry 7 0 ≡ 0 + 300000)
retry_grows_example = retry_grows 0 0
