-- ===== src/DeviceSync/Steps.antt =====
-- What `process` does to the job that it runs.
use matreshka_panel.Base.{
  suc, ◌≡◌, refl, ◌∙◌, Bool, true, ◌||◌, ◌&&◌, some, Time, Key, update, get-update, get_sound,
  arith, ◌==◌, leb,
}
use matreshka_panel.Registry.{Device, active, Registry, Job, running, failed, is_claimable}
use matreshka_panel.DeviceSync.Jobs.{find_job, claim, next_retry, activated, coalesce}
use matreshka_panel.People.Directory.{find_device}
use matreshka_panel.DeviceSync.Process.{process, settle, outcome_of, fail_job}

-- The job as `claim` leaves it, and the tables with it.
abbrev pub claimed : Job → Time → Job
claimed j now = record j { status = running; attempts = suc j.attempts; updated_at = now }

unfoldable pub claimed_registry : Key → Bool → Time → Registry → Registry
claimed_registry id force now reg = record reg {
  jobs =
      update (λ x. x.id == id && is_claimable x.status && (force || leb x.next_attempt_at now))
        (λ x. claimed x now) reg.jobs;
}

module _ (id : Key) (force : Bool) (now : Time) (reg : Registry) (j : Job)
    (e : find_job id reg ≡ some j) (h : is_claimable j.status ≡ true)
    (due : (force || leb j.next_attempt_at now) ≡ true) where
  pub find_job-claimed_registry :
      find_job id (claimed_registry id force now reg) ≡ some (claimed j now)
  unfolding find_job claimed_registry
  find_job-claimed_registry =
      get-update (λ x. x.id == id && is_claimable x.status && (force || leb x.next_attempt_at now))
        (λ x. x.id == id) (λ x. claimed x now) reg.jobs (λ x. refl)
      ∙ rw (e, get_sound (λ x. x.id == id) reg.jobs j e, h, due)

  claim-claimed_registry : claim id force now reg ≡ some (claimed_registry id force now reg)
  unfolding claim claimed_registry
  claim-claimed_registry = ground (arith, e, h, due)

  -- `process` claims a pending or failed job whose turn has come, and settles it.
  pub process-settle :
      (subscription : Key → Key) (answer : Bool) (answered : Time)
      → let (reg', returned) =
          settle subscription (claimed j now) answer answered (claimed_registry id force now reg) in
        process subscription id force answer now answered reg ≡ (reg', outcome_of returned)
  unfolding process
  process-settle subscription answer answered =
      ground (arith, e, h, claim-claimed_registry, find_job-claimed_registry)

abbrev pub failed_job : Job → Time → Job
failed_job j now = record j {
  status = failed;
  next_attempt_at = next_retry j.attempts now;
  updated_at = now;
}

pub find_job-fail_job :
    (j : Job) (now : Time) (reg : Registry)
    → find_job j.id reg ≡ some j
    → find_job j.id (fail_job j now reg) ≡ some (failed_job j now)
unfolding find_job fail_job
find_job-fail_job j now reg e =
    get-update (λ x. x.id == j.id) (λ x. x.id == j.id)
      (λ x. record x {
        status = failed;
        next_attempt_at = next_retry j.attempts now;
        updated_at = now;
      })
      reg.jobs (λ x. refl)
    ∙ rw (e, get_sound (λ x. x.id == j.id) reg.jobs j e)

abbrev pub active_device : Device → Key → Time → Device
active_device d subscription_hash now = record d {
  status = active;
  subscription_hash = some subscription_hash;
  activated_at = coalesce d.activated_at now;
  updated_at = now;
}

pub find_device-activated :
    (subscription : Key → Key) (j : Job) (invitation : Key) (d : Device) (now : Time)
    (reg : Registry)
    → find_device j.device_id reg ≡ some d
    → find_device j.device_id (activated subscription j invitation d now reg)
      ≡ some (active_device d (subscription j.device_id) now)
unfolding find_device activated
find_device-activated subscription j invitation d now reg known =
    get-update (λ x. x.id == j.device_id) (λ x. x.id == j.device_id) _ reg.devices (λ x. refl)
    ∙ rw (known, get_sound (λ x. x.id == j.device_id) reg.devices d known)

pub find_device-claimed :
    (id other : Key) (force : Bool) (now : Time) (reg : Registry)
    → find_device other (claimed_registry id force now reg) ≡ find_device other reg
unfolding find_device claimed_registry
find_device-claimed id other force now reg = refl
