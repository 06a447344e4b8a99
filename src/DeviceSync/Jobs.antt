-- ===== src/DeviceSync/Jobs.antt =====
-- The job table of DeviceSyncService: open jobs, claiming, the outcome of a job, the retry delay.
use matreshka_panel.Base.{
  ℕ, suc, ◌+◌, ◌-◌, ◌*◌, ◌^◌, min, max, Bool, true, false, ◌&&◌, ◌||◌, Option, none, some, List,
  Time, Key, if◌then◌else◌, get, update, delete, ◌==◌, leb,
}
use matreshka_panel.Journal.Types.{EventType}
use matreshka_panel.Journal.Record.{Ident, uuid, word, log_change}
use matreshka_panel.Registry.{
  Registry, Device, active, revoked, pending, redeeming, redeemed, withdrawn, Job, JobKind,
  job_kind_eq, waiting, running, failed, completed, is_open, is_claimable,
}
use matreshka_panel.People.Directory.{find_device}
use matreshka_panel.People.Devices.{device_entry}

-- `job`
unfoldable pub find_job : Key → Registry → Option Job
find_job id reg = get (λ j. j.id == id) reg.jobs

abbrev pub open_for : Key → JobKind → Job → Bool
open_for device_id kind j = j.device_id == device_id && job_kind_eq j.kind kind && is_open j.status

-- `openJob`. The index `device_sync_jobs_open` lets a device have one open job of a kind, so the
-- order of the query does not matter.
unfoldable pub open_job : Key → JobKind → Registry → Option Job
open_job device_id kind reg = get (open_for device_id kind) reg.jobs

-- `INSERT INTO device_sync_jobs`, always as `pending` with no attempts.
unfoldable pub new_job : Key → Key → Option Key → JobKind → Ident → Time → Job
new_job id device_id invitation_id kind actor now = record {
  id = id;
  device_id = device_id;
  invitation_id = invitation_id;
  kind = kind;
  status = waiting;
  actor = actor;
  attempts = 0;
  next_attempt_at = now;
  created_at = now;
  updated_at = now;
  completed_at = none;
}

-- The delay of `nextRetry` in seconds: `Math.min(300, 5 * 2 ** Math.max(0, attempts - 1))`.
unfoldable pub retry_seconds : ℕ → ℕ
retry_seconds attempts = min 300 (5 * 2 ^ max 0 (attempts - 1))

-- `nextRetry`
unfoldable pub next_retry : ℕ → Time → Time
unfolding retry_seconds
next_retry attempts now = now + retry_seconds attempts * 1000

-- `recoverInterrupted`
unfoldable pub recover_interrupted : Time → Registry → Registry
recover_interrupted now reg = record reg {
  jobs =
      update (λ j. elim j.status as (λ _. Bool) [ running ↦ true | _ ↦ false ])
        (λ j. record j { status = failed; next_attempt_at = now; updated_at = now }) reg.jobs;
}

-- The first half of `process`: the `UPDATE` that claims the job. `none` if nothing was claimed.
unfoldable pub claim : Key → Bool → Time → Registry → Option Registry
unfolding find_job
claim id force now reg = elim (find_job id reg) [
  | none ↦ none
  | some j ↦
      if is_claimable j.status && (force || leb j.next_attempt_at now)
      then some (record reg {
        jobs =
            update
              (λ x. x.id == id && is_claimable x.status && (force || leb x.next_attempt_at now))
              (λ x. record x { status = running; attempts = suc x.attempts; updated_at = now })
              reg.jobs;
      })
      else none
]

-- `completeJob`
unfoldable pub complete_job : Key → Time → List Job → List Job
complete_job id now =
    update (λ j. j.id == id)
      (λ j. record j {
        status = completed;
        next_attempt_at = now;
        completed_at = some now;
        updated_at = now;
      })

-- `revokeRows`
unfoldable pub revoke_rows : Key → Time → Registry → Registry
revoke_rows id now reg = record reg {
  devices =
      update (λ d. d.id == id)
        (λ d. record d {
          status = revoked;
          subscription_hash = none;
          revoked_at = some now;
          updated_at = now;
        })
        reg.devices;
  credentials =
      update (λ c. c.device_id == id) (λ c. record c { revoked_at = some now }) reg.credentials;
  invitations =
      update
        (λ i.
          i.device_id == id
          && elim i.status as (λ _. Bool) [ pending ↦ true | redeeming ↦ true | _ ↦ false ])
        (λ i. record i { status = withdrawn }) reg.invitations;
  redemptions = delete (λ r. r.device_id == id) reg.redemptions;
}

-- `COALESCE(activated_at, ?)`
abbrev pub coalesce : Option Time → Time → Option Time
coalesce none now = some now
coalesce (some t) now = some t

-- The transaction of `completeActivation`.
unfoldable pub activated : (Key → Key) → Job → Key → Device → Time → Registry → Registry
unfolding device_entry complete_job
activated subscription j invitation_id d now reg = record reg {
  devices =
      update (λ d. d.id == j.device_id)
        (λ d. record d {
          status = active;
          subscription_hash = some (subscription j.device_id);
          activated_at = coalesce d.activated_at now;
          updated_at = now;
        })
        reg.devices;
  invitations =
      update (λ i. i.id == invitation_id)
        (λ i. record i { status = redeemed; redeemed_at = some now }) reg.invitations;
  jobs = complete_job j.id now reg.jobs;
  journal =
      log_change EventType.device_activated (word "invitation") "devices.redeem" "device"
        (some (uuid j.device_id)) (device_entry (word "invitation") d) now reg.journal;
}

-- `completeActivation`; `none` where it throws. `subscription` is the hash of the device's token.
unfoldable pub complete_activation : (Key → Key) → Job → Time → Registry → Option Registry
complete_activation subscription j now reg = elim j.invitation_id [
  | none ↦ none
  | some invitation_id ↦ elim (find_device j.device_id reg) [
    | none ↦ none
    | some d ↦ some (activated subscription j invitation_id d now reg)
  ]
]

-- The transaction of `completeRevocation`.
unfoldable pub revoked_by : Job → Device → Time → Registry → Registry
unfolding device_entry complete_job revoke_rows
revoked_by j d now reg =
    let reg' = revoke_rows j.device_id now reg in
    record reg' {
      jobs = complete_job j.id now reg'.jobs;
      journal =
          log_change EventType.device_revoked j.actor "devices.revoke" "device"
            (some (uuid j.device_id)) (device_entry j.actor d) now reg'.journal;
    }

-- `completeRevocation`; `none` where it throws.
unfoldable pub complete_revocation : Job → Time → Registry → Option Registry
complete_revocation j now reg = elim (find_device j.device_id reg) [
  | none ↦ none
  | some d ↦ some (revoked_by j d now reg)
]
