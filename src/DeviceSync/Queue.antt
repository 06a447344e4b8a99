-- ===== src/DeviceSync/Queue.antt =====
-- The job table over time: how many jobs of a device can be open at once.
use matreshka_panel.Base.{
  ℕ, suc, ◌≤◌, ◌≡◌, refl, Bool, true, false, none, some, List, [], ◌∷◌, ◌++◌, Time, Key, update,
  count, count-update-le, count-append, count-get, All, All-everywhere, ◌||◌, ◌&&◌, arith, ◌==◌,
  Bool-cases, Option-cases, inl, inr, ==_iff, leb,
}
use matreshka_panel.Journal.Record.{Ident, word}
use matreshka_panel.Registry.{
  Registry, Invitation, Job, JobKind, job_kind_eq, activate, revoke, running, completed,
  is_claimable, ok,
}
use matreshka_panel.DeviceSync.Jobs.{
  open_for, open_job, new_job, recover_interrupted, claim, complete_job, activated, revoked_by,
  complete_activation, complete_revocation, revoke_rows,
}
use matreshka_panel.DeviceSync.Process.{fail_job, complete, settle, revoke_job}
use matreshka_panel.DeviceSync.Redeem.{
  Crypto, FreshActivation, Prepared, prepare_activation, open_activation,
}

abbrev pub open_jobs : Key → JobKind → Registry → ℕ
open_jobs id kind reg = count (open_for id kind) reg.jobs

-- One step of the service on the tables. A job that the engine has answered is still `running`.
pub data Step : Registry → Registry → Type 0 where
  recover : (now : Time) (reg : Registry) → Step reg (recover_interrupted now reg)
  take_up :
      (id : Key) (force : Bool) (now : Time) (reg reg' : Registry)
      → claim id force now reg ≡ some reg'
      → Step reg reg'
  answered :
      (subscription : Key → Key) (j : Job) (answer : Bool) (now : Time) (reg : Registry)
      → All (λ x. (x.id == j.id) ≡ true → x.status ≡ running) reg.jobs
      → Step reg ((settle subscription j answer now reg).0)
  redeem_asked :
      (c : Crypto) (token : Key) (fresh : FreshActivation) (now : Time) (reg reg' : Registry)
      (p : Prepared)
      → prepare_activation c token fresh now reg ≡ ok (reg', p)
      → Step reg reg'
  revoke_asked :
      (fresh id : Key) (actor : Ident) (now : Time) (reg : Registry)
      → Step reg ((revoke_job fresh id actor now reg).0)

pub data Reachable (start : Registry) : Registry → Type 0 where
  here : Reachable start start
  step : {reg reg' : Registry} → Reachable start reg → Step reg reg' → Reachable start reg'

job_kind_eq→eq : (a b : JobKind) → job_kind_eq a b ≡ true → a ≡ b
job_kind_eq→eq activate activate h = refl
job_kind_eq→eq activate revoke h = cc
job_kind_eq→eq revoke activate h = cc
job_kind_eq→eq revoke revoke h = refl

module _ (d : Key) (k : JobKind) where
  recover-le :
      (now : Time) (reg : Registry)
      → open_jobs d k (recover_interrupted now reg) ≤ open_jobs d k reg
  unfolding recover_interrupted
  recover-le now reg =
      count-update-le (open_for d k) _ _ reg.jobs (All-everywhere _ reg.jobs λ j. ground arith)

  claim-le :
      (id : Key) (force : Bool) (now : Time) (reg reg' : Registry)
      → claim id force now reg ≡ some reg'
      → open_jobs d k reg' ≤ open_jobs d k reg
  unfolding claim
  claim-le id force now reg reg' e =
      let fact =
        count-update-le (open_for d k)
          (λ x. x.id == id && is_claimable x.status && (force || leb x.next_attempt_at now))
          (λ x. record x { status = running; attempts = suc x.attempts; updated_at = now }) reg.jobs
          (All-everywhere _ reg.jobs λ j. ground arith) in
      ground (arith, fact, e)

  still_open :
      (id : Key) (f : Job → Job) (js : List Job)
      → All (λ x. (x.id == id) ≡ true → x.status ≡ running) js
      → ((x : Job) → ((f x).device_id ≡ x.device_id) × ((f x).kind ≡ x.kind))
      → All (λ x. (x.id == id) ≡ true → open_for d k (f x) ≡ true → open_for d k x ≡ true) js
  still_open id f [] h keep = tt
  still_open id f (x ∷ js) h keep =
      ((λ e o. ground (arith, h.0 e, (keep x).0, (keep x).1, o)), still_open id f js h.1 keep)

  -- An update of the row of a running job, whatever it writes, opens no job.
  running-le :
      (id : Key) (f : Job → Job) (js : List Job)
      → All (λ x. (x.id == id) ≡ true → x.status ≡ running) js
      → ((x : Job) → ((f x).device_id ≡ x.device_id) × ((f x).kind ≡ x.kind))
      → count (open_for d k) (update (λ x. x.id == id) f js) ≤ count (open_for d k) js
  running-le id f js h keep = count-update-le (open_for d k) _ f js (still_open id f js h keep)

  fail-le :
      (j : Job) (now : Time) (reg : Registry)
      → All (λ x. (x.id == j.id) ≡ true → x.status ≡ running) reg.jobs
      → open_jobs d k (fail_job j now reg) ≤ open_jobs d k reg
  unfolding fail_job
  fail-le j now reg h = running-le j.id _ reg.jobs h (λ x. (refl, refl))

  complete-le :
      (subscription : Key → Key) (j : Job) (now : Time) (reg reg' : Registry)
      → All (λ x. (x.id == j.id) ≡ true → x.status ≡ running) reg.jobs
      → complete subscription j now reg ≡ some reg'
      → open_jobs d k reg' ≤ open_jobs d k reg
  unfolding complete complete_activation complete_revocation activated revoked_by revoke_rows
      complete_job
  complete-le subscription j now reg reg' h e =
      let fact =
        running-le j.id
          (λ x. record x {
            status = completed;
            next_attempt_at = now;
            completed_at = some now;
            updated_at = now;
          })
          reg.jobs h (λ x. (refl, refl)) in
      ground (arith, fact, e)

  settle-le :
      (subscription : Key → Key) (j : Job) (answer : Bool) (now : Time) (reg : Registry)
      → All (λ x. (x.id == j.id) ≡ true → x.status ≡ running) reg.jobs
      → open_jobs d k (settle subscription j answer now reg).0 ≤ open_jobs d k reg
  unfolding settle
  settle-le subscription j false now reg h = fail-le j now reg h
  settle-le subscription j true now reg h = elim (Option-cases (complete subscription j now reg)) [
    | inl none_done ↦ rw (none_done, settle) (fail-le j now reg h)
    | inr (reg', e) ↦ rw (e, settle) (complete-le subscription j now reg reg' h e)
  ]

  -- A job is only inserted where none of its device and kind is open.
  insert-le :
      (id : Key) (kind : JobKind) (reg : Registry) (j : Job)
      → open_job id kind reg ≡ none
      → j.device_id ≡ id
      → j.kind ≡ kind
      → open_jobs d k reg ≤ 1
      → count (open_for d k) (reg.jobs ++ j ∷ []) ≤ 1
  unfolding open_job count
  insert-le id kind reg j none_open own same h = elim (Bool-cases (open_for d k j)) [
    | inl counts ↦
        let at : d ≡ id = ground (arith, ==_iff j.device_id d) in
        let of : k ≡ kind = ground (arith, job_kind_eq→eq j.kind k) in
        let zero_open : count (open_for d k) reg.jobs ≡ 0 =
          rw (at, of) (count-get (open_for id kind) reg.jobs none_open) in
        ground (arith, count-append (open_for d k) reg.jobs (j ∷ []), zero_open)
    | inr other ↦ ground (arith, count-append (open_for d k) reg.jobs (j ∷ []), other, h)
  ]

  revoke-le :
      (fresh id : Key) (actor : Ident) (now : Time) (reg : Registry)
      → open_jobs d k reg ≤ 1
      → open_jobs d k (revoke_job fresh id actor now reg).0 ≤ 1
  unfolding revoke_job
  revoke-le fresh id actor now reg h = elim (Option-cases (open_job id revoke reg)) [
    | inl free ↦
        rw (free, revoke_job)
          (insert-le id revoke reg (new_job fresh id none revoke actor now) free refl refl h)
    | inr (j, e) ↦ rw (e, revoke_job) h
  ]

  opened-le :
      (c : Crypto) (fresh : FreshActivation) (now : Time) (reg : Registry) (i : Invitation)
      (reg' : Registry)
      → open_job i.device_id activate reg ≡ none
      → open_activation c i fresh now reg ≡ ok reg'
      → open_jobs d k reg ≤ 1
      → open_jobs d k reg' ≤ 1
  unfolding open_activation new_job
  opened-le c fresh now reg i reg' free e h =
      let fact =
        insert-le i.device_id activate reg
          (new_job fresh.job i.device_id (some i.id) activate (word "invitation") now) free refl
          refl h in
      ground (arith, fact, e)

  prepare-le :
      (c : Crypto) (token : Key) (fresh : FreshActivation) (now : Time) (reg reg' : Registry)
      (p : Prepared)
      → prepare_activation c token fresh now reg ≡ ok (reg', p)
      → open_jobs d k reg ≤ 1
      → open_jobs d k reg' ≤ 1
  unfolding prepare_activation
  prepare-le c token fresh now reg reg' p e h = grind (arith, opened-le c fresh now reg)

open_jobs-Step :
    {reg reg' : Registry} (d : Key) (k : JobKind)
    → Step reg reg'
    → open_jobs d k reg ≤ 1
    → open_jobs d k reg' ≤ 1
open_jobs-Step d k (recover now reg) h = omega (arith, recover-le d k now reg)
open_jobs-Step d k (take_up id force now reg reg' e) h =
    omega (arith, claim-le d k id force now reg reg' e)
open_jobs-Step d k (answered subscription j answer now reg alone) h =
    omega (arith, settle-le d k subscription j answer now reg alone)
open_jobs-Step d k (redeem_asked c token fresh now reg reg' p e) h =
    prepare-le d k c token fresh now reg reg' p e h
open_jobs-Step d k (revoke_asked fresh id actor now reg) h = revoke-le d k fresh id actor now reg h

-- From tables in which no device has two open jobs of a kind, every sequence of steps of the
-- service (recovery at the start, claims, answers of the engine, redemptions, revocations) leads
-- to such tables.
pub one_open_job :
    (start reg : Registry) (d : Key) (k : JobKind)
    → open_jobs d k start ≤ 1
    → Reachable start reg
    → open_jobs d k reg ≤ 1
one_open_job start _ d k h here = h
one_open_job start _ d k h (step before s) =
    open_jobs-Step d k s (one_open_job start _ d k h before)
