-- ===== src/DeviceSync/Activation/Failure.antt =====
-- Redeeming an invitation while the engine cannot be reached.
use matreshka_panel.Base.{
  ◌+◌, ◌*◌, ◌<◌, ◌≡◌, refl, ◌∙◌, true, false, ◌&&◌, some, [], ◌∷◌, Time, Key, get, latest, update,
  get-append, update-snoc, latest-append, arith, ◌==◌, ==_refl, hour_ms,
}
use matreshka_panel.Registry.{Registry, Device, Invitation, Job, failed, ok, is_claimable}
use matreshka_panel.People.Directory.{find_device, device}
use matreshka_panel.DeviceSync.Jobs.{find_job, new_job, next_retry}
use matreshka_panel.DeviceSync.Process.{settle, fail_job}
use matreshka_panel.DeviceSync.Redeem.{
  Crypto, subscription_hash_of, redemption_hours, FreshActivation, prepared, activates,
  still_pending, redemption, redeem,
}
use matreshka_panel.DeviceSync.Steps.{
  claimed, claimed_registry, process-settle, find_job-claimed_registry, find_job-fail_job,
}
use matreshka_panel.DeviceSync.Activation.{
  IsRedeemable, session, activation, opened, taken, job_taken, find_job-opened,
  prepare_activation-opened,
}

module _ (c : Crypto) (token : Key) (fresh : FreshActivation) (i : Invitation) (d : Device)
    (asked : Time) (reg : Registry) (h : IsRedeemable c token fresh i d asked reg)
    (now : Time) where
  abbrev after : Registry
  after =
      fail_job (job_taken c token fresh i d asked reg h) now (taken c token fresh i d asked reg h)

  abbrev job_failed : Job
  job_failed = record (job_taken c token fresh i d asked reg h) {
    status = failed;
    next_attempt_at = next_retry 1 now;
    updated_at = now;
  }

  jobs-after : latest (activates i.id) after.jobs ≡ some job_failed
  unfolding fail_job claimed_registry new_job
  jobs-after =
      rw
        (
          update-snoc (λ x. x.id == fresh.job && is_claimable x.status && true)
              (λ x. claimed x asked) reg.jobs (activation c token fresh i d asked reg h)
              (ground arith),
          update-snoc (λ x. x.id == fresh.job) _ (update _ _ reg.jobs)
              (job_taken c token fresh i d asked reg h) (==_refl fresh.job),
        )
        (latest-append (activates i.id) _ job_failed (==_refl i.id))

  job-after : find_job fresh.job after ≡ some job_failed
  unfolding new_job
  job-after =
      find_job-fail_job (job_taken c token fresh i d asked reg h) now
        (taken c token fresh i d asked reg h)
        (find_job-claimed_registry fresh.job true asked (opened c token fresh i d asked reg h)
          (activation c token fresh i d asked reg h) (find_job-opened c token fresh i d asked reg h)
          refl refl)

  session-after :
      get (λ r. r.token_hash == c.hash (c.redemption_token i.id)) after.redemptions
      ≡ some (session c token fresh i d asked reg h)
  unfolding fail_job claimed_registry get
  session-after =
      get-append (λ r. r.token_hash == c.hash (c.redemption_token i.id)) reg.redemptions
        (session c token fresh i d asked reg h ∷ [])
      ∙ rw (h.new_session, ==_refl (c.hash (c.redemption_token i.id)))

  redemption-after :
      now < asked + redemption_hours * hour_ms
      → redemption c (c.redemption_token i.id) now after
        ≡ ok (still_pending failed d (asked + redemption_hours * hour_ms))
  unfolding redemption device fail_job claimed_registry find_device
  redemption-after early = ground (arith, session-after, h.known, jobs-after)

  redeem-after :
      now < asked + redemption_hours * hour_ms
      → redeem c token fresh false asked now reg
        ≡ (after, ok (still_pending failed d (asked + redemption_hours * hour_ms)))
  unfolding redeem prepared new_job settle
  redeem-after early = ground (
    arith,
    prepare_activation-opened c token fresh i d asked reg h,
    process-settle fresh.job true asked (opened c token fresh i d asked reg h)
        (activation c token fresh i d asked reg h) (find_job-opened c token fresh i d asked reg h)
        refl refl (subscription_hash_of c) false now,
    redemption-after early,
  )

-- The same invitation is redeemed while the engine fails. Then the call answers that the activation
-- is pending, with its job failed; devices and credentials are as they were; and the job stays in
-- the queue with one attempt counted, to be tried again 5 seconds after the failure.
pub redeem_failure_queues :
    (c : Crypto) (token : Key) (fresh : FreshActivation) (i : Invitation) (d : Device)
    (asked answered : Time) (reg : Registry)
    → IsRedeemable c token fresh i d asked reg
    → answered < asked + redemption_hours * hour_ms
    → (reg' : Registry) × (j : Job) × (redeem c token fresh false asked answered reg
        ≡ (reg', ok (still_pending failed d (asked + redemption_hours * hour_ms))))
      × (reg'.devices ≡ reg.devices)
      × (reg'.credentials ≡ reg.credentials)
      × (find_job fresh.job reg' ≡ some j)
      × (j.status ≡ failed)
      × (j.attempts ≡ 1)
      × (j.next_attempt_at ≡ answered + 5000)
unfolding fail_job claimed_registry new_job next_retry
redeem_failure_queues c token fresh i d asked answered reg h early = (
  after c token fresh i d asked reg h answered,
  job_failed c token fresh i d asked reg h answered,
  redeem-after c token fresh i d asked reg h answered early,
  refl,
  refl,
  job-after c token fresh i d asked reg h answered,
  refl,
  refl,
  refl,
)
