-- ===== src/DeviceSync/Revocation.antt =====
-- Revoking a device: what a confirmed revocation cuts off, and what a failed one leaves.
use matreshka_panel.Base.{
  ◌+◌, ◌≡◌, refl, ◌∙◌, ap, Bool, true, false, none, some, [], ◌∷◌, ◌++◌, Time, Key, get, get-append,
  arith, ◌==◌, ==_refl, if◌then◌else◌,
}
use matreshka_panel.Journal.Record.{Ident}
use matreshka_panel.Registry.{Registry, Device, active, Job, failed, activate, revoke}
use matreshka_panel.People.Directory.{find_device}
use matreshka_panel.DeviceSync.Jobs.{
  find_job, open_job, new_job, next_retry, retry_seconds, revoked_by, complete_revocation,
}
use matreshka_panel.DeviceSync.Process.{
  process, settle, complete, fail_job, revoke_job, revoke_device, outcome_of,
}
use matreshka_panel.DeviceSync.Steps.{
  claimed, claimed_registry, process-settle, failed_job, find_job-fail_job,
  find_job-claimed_registry,
}
use matreshka_panel.DeviceSync.Severed.{IsSevered, CutOff, IsSevered-CutOff, revoke_rows-IsSevered}

-- A device that can be revoked: active, with no open job, and an id for the job that is not in use.
pub record IsRevocable (fresh id : Key) (d : Device) (reg : Registry) : Type 0 where
  pub known : find_device id reg ≡ some d
  pub on : d.status ≡ active
  pub no_activation : open_job id activate reg ≡ none
  pub no_revocation : open_job id revoke reg ≡ none
  pub new_id : find_job fresh reg ≡ none

module _ (subscription : Key → Key) (fresh id : Key) (actor : Ident) (asked : Time) (d : Device)
    (reg : Registry) (h : IsRevocable fresh id d reg) where
  abbrev job : Job
  job = new_job fresh id none revoke actor asked

  abbrev opened : Registry
  opened = record reg { jobs = reg.jobs ++ job ∷ [] }

  revoke_job-opened : revoke_job fresh id actor asked reg ≡ (opened, fresh)
  unfolding revoke_job
  revoke_job-opened = rw (h.no_revocation, revoke_job)

  find_job-opened : find_job fresh opened ≡ some job
  unfolding find_job new_job get
  find_job-opened =
      get-append (λ j. j.id == fresh) reg.jobs (job ∷ []) ∙ rw (h.new_id, ==_refl fresh)

  abbrev taken : Registry
  taken = claimed_registry fresh true asked opened

  process-opened :
      (answer : Bool) (answered : Time)
      → let (reg', returned) = settle subscription (claimed job asked) answer answered taken in
        process subscription fresh true answer asked answered opened ≡ (reg', outcome_of returned)
  unfolding new_job
  process-opened answer answered =
      process-settle fresh true asked opened job find_job-opened refl refl subscription answer
        answered

  settle-taken :
      (answered : Time)
      → settle subscription (claimed job asked) true answered taken
        ≡ (revoked_by (claimed job asked) d answered taken, true)
  unfolding settle complete complete_revocation new_job claimed_registry find_device
  settle-taken answered = ground (arith, h.known)

  revoke_device-process :
      (answer : Bool) (answered : Time)
      → let (reg', returned) = settle subscription (claimed job asked) answer answered taken in
        revoke_device subscription fresh id actor answer asked answered reg
        ≡ (reg', if returned then none else some 503)
  unfolding revoke_device
  revoke_device-process answer answered =
      ground
        (arith, h.known, h.on, h.no_activation, revoke_job-opened, process-opened answer answered)

  revoke_device-done :
      (answered : Time)
      → revoke_device subscription fresh id actor true asked answered reg
        ≡ (revoked_by (claimed job asked) d answered taken, none)
  revoke_device-done answered =
      revoke_device-process true answered
      ∙ ap (λ x. (x.0, if x.1 then none else some 503)) (settle-taken answered)

revoked_by-IsSevered :
    (j : Job) (d : Device) (now : Time) (reg : Registry)
    → IsSevered j.device_id (revoked_by j d now reg)
unfolding revoked_by
revoked_by-IsSevered j d now reg =
    let s = revoke_rows-IsSevered j.device_id now reg in
    record { inactive = s.inactive; keyless = s.keyless; sessionless = s.sessionless }

-- An active device with no open job is revoked while the engine answers. Then the call returns
-- normally, and in the tables that it leaves the credentials of the device are refused with 409, no
-- Hysteria password leads to it, no subscription token leads to it, and it has no redemption session.
pub revoke_cuts_off :
    (subscription hash open_box : Key → Key) (fresh id auth token : Key) (actor : Ident)
    (asked answered : Time) (d d' : Device) (reg : Registry)
    → IsRevocable fresh id d reg
    → d'.id ≡ id
    → (reg' : Registry) × (revoke_device subscription fresh id actor true asked answered reg
        ≡ (reg', none))
      × CutOff hash open_box id auth token d' reg'
unfolding new_job
revoke_cuts_off subscription hash open_box fresh id auth token actor asked answered d d' reg h
      same =
    let j = claimed (job subscription fresh id actor asked d reg h) asked in
    let tables = taken subscription fresh id actor asked d reg h in
    (
      revoked_by j d answered tables,
      revoke_device-done subscription fresh id actor asked d reg h answered,
      IsSevered-CutOff hash open_box id auth token d' _ (revoked_by-IsSevered j d answered tables)
          same,
    )

-- An active device with no open job is revoked while the engine does not answer. Then the call ends
-- with 503, devices, credentials, invitations and redemption sessions are as before, and the job of
-- the revocation has failed after one attempt and is due five seconds after the answer.
pub revoke_failure_keeps :
    (subscription : Key → Key) (fresh id : Key) (actor : Ident) (asked answered : Time) (d : Device)
    (reg : Registry)
    → IsRevocable fresh id d reg
    → (reg' : Registry) × (j : Job) × (revoke_device subscription fresh id actor false asked
          answered reg
        ≡ (reg', some 503))
      × (reg'.devices ≡ reg.devices)
      × (reg'.credentials ≡ reg.credentials)
      × (reg'.invitations ≡ reg.invitations)
      × (reg'.redemptions ≡ reg.redemptions)
      × (find_job fresh reg' ≡ some j)
      × (j.kind ≡ revoke)
      × (j.status ≡ failed)
      × (j.attempts ≡ 1)
      × (j.next_attempt_at ≡ answered + 5000)
unfolding new_job settle fail_job claimed_registry next_retry retry_seconds
revoke_failure_keeps subscription fresh id actor asked answered d reg h =
    let j = claimed (job subscription fresh id actor asked d reg h) asked in
    let tables = taken subscription fresh id actor asked d reg h in
    (
      fail_job j answered tables,
      failed_job j answered,
      revoke_device-process subscription fresh id actor asked d reg h false answered,
      refl,
      refl,
      refl,
      refl,
      find_job-fail_job j answered tables (
          find_job-claimed_registry fresh true asked _ _
            (find_job-opened subscription fresh id actor asked d reg h) refl refl),
      refl,
      refl,
      refl,
      refl,
    )
