-- ===== src/DeviceSync/Activation.antt =====
-- Redeeming an invitation, from the link to the working subscription.
pub mod Failure
use matreshka_panel.Base.{
  ℕ, suc, ◌+◌, ◌*◌, ◌<◌, ◌≡◌, refl, ap, ◌∙◌, Bool, true, false, not, ◌&&◌, Option, none, some, List,
  [], ◌∷◌, ◌++◌, Time, Key, String, if◌then◌else◌, is_some, get, latest, update, get-update,
  get-append, update-snoc, latest-append, get_sound, arith, length, length-append, ◌==◌, ==_refl,
  leb, hour_ms,
}
use matreshka_panel.Journal.Record.{word}
use matreshka_panel.Registry.{
  Registry, Device, DeviceStatus, active, Invitation, InvitationStatus, pending, Redemption, Job,
  JobStatus, failed, completed, activate, is_claimable, Result, ok, err, ◌>>=◌, ◌>>◌, found,
  require,
}
use matreshka_panel.People.Directory.{find_device, device}
use matreshka_panel.People.Devices.{is_pending}
use matreshka_panel.People.Devices as Devices
use matreshka_panel.DeviceSync.Jobs.{
  find_job, open_job, new_job, complete_activation, activated, complete_job, coalesce,
}
use matreshka_panel.DeviceSync.Process.{settle, process, complete, fail_job}
use matreshka_panel.DeviceSync.Redeem.{
  Crypto, subscription_hash_of, redemption_hours, FreshActivation, Prepared, prepare_activation,
  open_activation, prepared, activates, is_completed, job_status_or, Redeemed, still_pending,
  installed, redemption, redeem,
}
use matreshka_panel.DeviceSync.Steps.{claimed, claimed_registry, process-settle, active_device}

-- A link that can be redeemed: an invitation that waits, for a device that no activation is under
-- way for, and ids that are not in use.
pub record IsRedeemable (c : Crypto) (token : Key) (fresh : FreshActivation) (i : Invitation)
    (d : Device) (now : Time) (reg : Registry) : Type 0 where
  pub invited : get (λ x. x.token_hash == c.hash token) reg.invitations ≡ some i
  pub waiting : i.status ≡ pending
  pub in_time : now < i.expires_at
  pub idle : open_job i.device_id activate reg ≡ none
  pub known : find_device i.device_id reg ≡ some d
  pub new_session :
      get (λ r. r.token_hash == c.hash (c.redemption_token i.id)) reg.redemptions ≡ none
  pub new_id : find_job fresh.job reg ≡ none

module _ (c : Crypto) (token : Key) (fresh : FreshActivation) (i : Invitation) (d : Device)
    (asked : Time) (reg : Registry) (h : IsRedeemable c token fresh i d asked reg) where
  abbrev session : Redemption
  session = record {
    id = fresh.session;
    invitation_id = i.id;
    device_id = i.device_id;
    token_hash = c.hash (c.redemption_token i.id);
    expires_at = asked + redemption_hours * hour_ms;
    created_at = asked;
  }

  abbrev activation : Job
  activation = new_job fresh.job i.device_id (some i.id) activate (word "invitation") asked

  -- The tables after `prepareActivation`.
  abbrev opened : Registry
  opened = record reg {
    invitations =
        update (λ x. x.id == i.id && is_pending x.status)
          (λ x. record x { status = InvitationStatus.redeeming }) reg.invitations;
    redemptions = reg.redemptions ++ session ∷ [];
    jobs = reg.jobs ++ activation ∷ [];
  }

  open_activation-opened : open_activation c i fresh asked reg ≡ ok opened
  unfolding open_activation
  open_activation-opened = rw (h.new_session)

  prepare_activation-opened :
      prepare_activation c token fresh asked reg ≡ ok (opened, prepared c i fresh.job asked opened)
  unfolding prepare_activation
  prepare_activation-opened =
      ground (arith, h.invited, h.waiting, h.in_time, h.idle, open_activation-opened)

  find_job-opened : find_job fresh.job opened ≡ some activation
  unfolding find_job new_job get
  find_job-opened =
      get-append (λ j. j.id == fresh.job) reg.jobs (activation ∷ [])
      ∙ rw (h.new_id, ==_refl fresh.job)

  abbrev taken : Registry
  taken = claimed_registry fresh.job true asked opened

  abbrev job_taken : Job
  job_taken = claimed activation asked

  abbrev device_done : Time → Device
  device_done now = active_device d (subscription_hash_of c i.device_id) now

  -- The tables after a successful `process`, but for the journal.
  record Done (now : Time) (r : Registry) : Type 0 where
    redemptions : r.redemptions ≡ reg.redemptions ++ session ∷ []
    device_row : find_device i.device_id r ≡ some (device_done now)
    job : (j : Job) × (latest (activates i.id) r.jobs ≡ some j) × (j.status ≡ completed)

  abbrev done : Time → Registry
  done now = activated (subscription_hash_of c) job_taken i.id d now taken

  complete-done :
      (now : Time) → complete (subscription_hash_of c) job_taken now taken ≡ some (done now)
  unfolding complete complete_activation claimed_registry new_job find_device
  complete-done now = ground (arith, h.known)

  abbrev job_done : Time → Job
  job_done now = record job_taken {
    status = completed;
    next_attempt_at = now;
    completed_at = some now;
    updated_at = now;
  }

  jobs-done : (now : Time) → latest (activates i.id) (done now).jobs ≡ some (job_done now)
  unfolding activated claimed_registry new_job complete_job
  jobs-done now =
      rw
        (
          update-snoc (λ x. x.id == fresh.job && is_claimable x.status && true)
              (λ x. claimed x asked) reg.jobs activation (ground arith),
          update-snoc (λ x. x.id == fresh.job) _ (update _ _ reg.jobs) job_taken
              (==_refl fresh.job),
        )
        (latest-append (activates i.id) _ (job_done now) (==_refl i.id))

  Done-done : (now : Time) → Done now (done now)
  unfolding activated claimed_registry new_job find_device
  Done-done now = record {
    redemptions = refl;
    device_row =
        get-update (λ x. x.id == i.device_id) (λ x. x.id == i.device_id) _ reg.devices (λ x. refl)
        ∙ rw (h.known, get_sound (λ x. x.id == i.device_id) reg.devices d h.known);
    job = (job_done now, jobs-done now, refl);
  }

  session-done :
      (now : Time)
      → get (λ r. r.token_hash == c.hash (c.redemption_token i.id)) (done now).redemptions
        ≡ some session
  unfolding activated claimed_registry get
  session-done now =
      get-append (λ r. r.token_hash == c.hash (c.redemption_token i.id)) reg.redemptions
        (session ∷ [])
      ∙ rw (h.new_session, ==_refl (c.hash (c.redemption_token i.id)))

  redemption-done :
      (now : Time)
      → now < asked + redemption_hours * hour_ms
      → redemption c (c.redemption_token i.id) now (done now)
        ≡ ok (
            installed
              (device_done now)
              (c.subscription_token i.device_id)
              (asked + redemption_hours * hour_ms))
  unfolding redemption Devices.redemption device
  redemption-done now early =
      ground (arith, session-done now, (Done-done now).device_row, jobs-done now)

  settle-done :
      (now : Time) → settle (subscription_hash_of c) job_taken true now taken ≡ (done now, true)
  unfolding settle
  settle-done now = rw (complete-done now, settle)

  redeem-done :
      (answered : Time)
      → answered < asked + redemption_hours * hour_ms
      → redeem c token fresh true asked answered reg ≡ (
        done answered,
        ok (
            installed
              (device_done answered)
              (c.subscription_token i.device_id)
              (asked + redemption_hours * hour_ms)),
      )
  unfolding redeem prepared new_job
  redeem-done answered early = ground (
    arith,
    prepare_activation-opened,
    process-settle fresh.job true asked opened activation find_job-opened refl refl
        (subscription_hash_of c) true answered,
    settle-done answered,
    redemption-done answered early,
  )

-- An invitation that waits and is in time, for a device with no activation under way, is redeemed
-- while the engine accepts the device, and the answer comes before the session of 24 hours ends.
-- Then the call answers with the subscription token of the device and the end of the session, the
-- device is active with the hash of that token, no other session is opened, and the newest
-- activation job of the invitation is completed.
pub redeem_installs :
    (c : Crypto) (token : Key) (fresh : FreshActivation) (i : Invitation) (d : Device)
    (asked answered : Time) (reg : Registry)
    → IsRedeemable c token fresh i d asked reg
    → answered < asked + redemption_hours * hour_ms
    → (reg' : Registry) × (d' : Device) × (j : Job) × (redeem c token fresh true asked answered reg
        ≡ (
          reg',
          ok (installed d' (c.subscription_token i.device_id) (asked + redemption_hours * hour_ms)),
        ))
      × (find_device i.device_id reg' ≡ some d')
      × (d'.status ≡ active)
      × (d'.subscription_hash ≡ some (c.hash (c.subscription_token i.device_id)))
      × (length reg'.redemptions ≡ suc (length reg.redemptions))
      × (latest (activates i.id) reg'.jobs ≡ some j)
      × (j.status ≡ completed)
redeem_installs c token fresh i d asked answered reg h early =
    let r = done c token fresh i d asked reg h answered in
    let facts = Done-done c token fresh i d asked reg h answered in
    let (j, newest, finished) = facts.job in
    (
      r,
      device_done c token fresh i d asked reg h answered,
      j,
      redeem-done c token fresh i d asked reg h answered early,
      facts.device_row,
      refl,
      refl,
      rw facts.redemptions (
          omega
            (arith, length-append reg.redemptions (session c token fresh i d asked reg h ∷ []))),
      newest,
      finished,
    )
