-- ===== src/DeviceSync/Drain.antt =====
-- What a drain does for one job among the others.
use matreshka_panel.Base.{
  ℕ, ◌≤◌, ◌≡◌, ◌∙◌, refl, ap, Bool, true, false, ◌&&◌, ◌||◌, some, List, [], ◌∷◌, map, Time, Key,
  ◌==◌, ==_refl, leb, get, get-update, select, count, length, contains, take, take_all, All, inl,
  inr, Bool-cases, arith,
}
use matreshka_panel.Registry.{
  Registry, Device, active, Job, activate, failed, completed, is_claimable,
}
use matreshka_panel.People.Directory.{find_device}
use matreshka_panel.DeviceSync.Jobs.{find_job, complete_job, activated, complete_activation}
use matreshka_panel.DeviceSync.Process.{complete, settle, process, done, due, drain}
use matreshka_panel.DeviceSync.Steps.{
  claimed, claimed_registry, process-settle, find_job-claimed_registry, active_device,
  find_device-activated, find_device-claimed,
}
use matreshka_panel.DeviceSync.Frame.{of_device, of_device-update}
use matreshka_panel.DeviceSync.Loop.{Apart, drain_comes}

-- The turn of a failed activation whose delay has passed, when the engine accepts the device.
turn_activates :
    (subscription : Key → Key) (j : Job) (invitation : Key) (d : Device) (now : Time)
    (reg : Registry)
    → j.status ≡ failed
    → j.kind ≡ activate
    → j.invitation_id ≡ some invitation
    → j.next_attempt_at ≤ now
    → find_job j.id reg ≡ some j
    → find_device j.device_id reg ≡ some d
    → (reg2 : Registry) × (j' : Job) × (d' : Device) × ((process subscription j.id false true now
          now reg).0
        ≡ reg2)
      × (find_job j.id reg2 ≡ some j')
      × (j'.status ≡ completed)
      × (find_device j.device_id reg2 ≡ some d')
      × (d'.status ≡ active)
      × (d'.subscription_hash ≡ some (subscription j.device_id))
      × ((k : Key)
          → of_device j.device_id (find_job k reg2) ≡ of_device j.device_id (find_job k reg))
unfolding settle complete complete_activation find_job activated complete_job claimed_registry
turn_activates subscription j invitation d now reg failed' kind inv ready there known =
    let taken = claimed_registry j.id false now reg in
    let device_there = find_device-claimed j.id j.device_id false now reg ∙ known in
    let p : Job → Bool =
      λ x. x.id == j.id && is_claimable x.status && (false || leb x.next_attempt_at now) in
    let job_there =
      find_job-claimed_registry j.id false now reg j there (rw (failed') refl)
        (ground (arith, ready)) in
    let whole : process subscription j.id false true now now reg
        ≡ (activated subscription (claimed j now) invitation d now taken, done) =
      process-settle j.id false now reg j there (rw (failed') refl) (ground (arith, ready))
        subscription true now
      ∙ ground (arith, kind, inv, device_there) in
    (
      activated subscription (claimed j now) invitation d now taken,
      record (claimed j now) {
        status = completed;
        next_attempt_at = now;
        completed_at = some now;
        updated_at = now;
      },
      active_device d (subscription j.device_id) now,
      ap (λ x. x.0) whole,
      get-update (λ x. x.id == j.id) (λ x. x.id == j.id) _ taken.jobs (λ x. refl)
          ∙ rw (job_there, ==_refl j.id) refl,
      refl,
      find_device-activated subscription (claimed j now) invitation d now taken device_there,
      refl,
      refl,
      λ k.
          of_device-update (λ x. x.id == j.id) _ (λ x. refl) j.device_id k taken.jobs (λ x. refl)
          ∙ of_device-update p (λ x. claimed x now) (λ x. refl) j.device_id k reg.jobs (λ x. refl),
    )

-- `status IN ('pending', 'failed') AND next_attempt_at <= ?`
abbrev pub is_due : Time → Job → Bool
is_due now x = is_claimable x.status && leb x.next_attempt_at now

length-due :
    (now : Time) (jobs : List Job)
    → length (map (λ x. x.id) (select (is_due now) jobs)) ≡ count (is_due now) jobs
unfolding select count
length-due now [] = refl
length-due now (x ∷ jobs) = ground (arith, length-due now jobs)

due_has :
    (now : Time) (i : Key) (jobs : List Job) (j : Job)
    → get (λ x. x.id == i) jobs ≡ some j
    → is_due now j ≡ true
    → contains (map (λ x. x.id) (select (is_due now) jobs)) i ≡ true
unfolding get select
due_has now i [] j there ready = cc
due_has now i (x ∷ jobs) j there ready = ground (arith, there, ready, due_has now i jobs j)

due-Apart :
    (now : Time) (dev i : Key) (reg : Registry) (jobs : List Job)
    → All (λ x. find_job x.id reg ≡ some x) jobs
    → All (λ x. is_due now x ≡ true → (x.id == i) ≡ false → (x.device_id == dev) ≡ false) jobs
    → All (Apart dev i reg) (map (λ x. x.id) (select (is_due now) jobs))
unfolding select
due-Apart now dev i reg [] rows others = tt
due-Apart now dev i reg (x ∷ jobs) rows others = elim (Bool-cases (is_due now x)) [
  | inr waits ↦ rw waits (due-Apart now dev i reg jobs rows.1 others.1)
  | inl ready ↦ rw ready (
    elim (Bool-cases (x.id == i)) as (λ _. Apart dev i reg x.id) [
      | inl same ↦ inl same
      | inr other ↦ inr (ap (of_device dev) rows.0 ∙ others.0 ready other)
    ],
    due-Apart now dev i reg jobs rows.1 others.1,
  )
]

-- A failed activation whose delay has passed is among the jobs of a drain. The ids of the jobs differ,
-- no more jobs are due than the drain takes, and no other job that is due is for the device. If the
-- engine accepts the device, then after the drain, whatever the engine answers for the other jobs, the
-- job is completed and the device is active with its subscription hash.
pub drain_activates :
    (subscription : Key → Key) (answer : Key → Bool) (j : Job) (invitation : Key) (d : Device)
    (now : Time) (limit : ℕ) (reg : Registry)
    → find_job j.id reg ≡ some j
    → j.status ≡ failed
    → j.kind ≡ activate
    → j.invitation_id ≡ some invitation
    → j.next_attempt_at ≤ now
    → find_device j.device_id reg ≡ some d
    → answer j.id ≡ true
    → All (λ x. find_job x.id reg ≡ some x) reg.jobs
    → count (is_due now) reg.jobs ≤ limit
    → All
        (λ x. is_due now x ≡ true → (x.id == j.id) ≡ false → (x.device_id == j.device_id) ≡ false)
        reg.jobs
    → let reg' = (drain subscription answer now limit reg).0 in
      (j' : Job) × (d' : Device) × (find_job j.id reg' ≡ some j')
      × (j'.status ≡ completed)
      × (find_device j.device_id reg' ≡ some d')
      × (d'.status ≡ active)
      × (d'.subscription_hash ≡ some (subscription j.device_id))
unfolding drain due find_job
drain_activates subscription answer j invitation d now limit reg there failed' kind inv ready known
      accepts rows few others =
    let ids = map (λ x. x.id) (select (is_due now) reg.jobs) in
    let all_ids : take limit ids ≡ ids =
      take_all limit ids (omega (arith, length-due now reg.jobs, few)) in
    let is_ready : is_due now j ≡ true = ground (arith, failed', ready) in
    rw all_ids (
      drain_comes j.device_id j.id subscription answer now ids reg 0 j d
        (λ reg1 there1 known1. rw accepts (
          turn_activates subscription j invitation d now reg1 failed' kind inv ready there1 known1))
        there known (due-Apart now j.device_id j.id reg reg.jobs rows others)
        (due_has now j.id reg.jobs j there is_ready))
