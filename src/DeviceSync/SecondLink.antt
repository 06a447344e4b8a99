-- ===== src/DeviceSync/SecondLink.antt =====
-- A second link for a device whose activation is still under way.
use matreshka_panel.Base.{
  ◌<◌, ◌≡◌, ◌∙◌, refl, ap, Bool, true, false, none, some, Time, Key, get, ◌==◌, arith, Option-cases,
  Bool-cases, get_sound, inl, inr,
}
use matreshka_panel.Registry.{Registry, Invitation, pending, Job, activate, ok, err, is_claimable}
use matreshka_panel.DeviceSync.Jobs.{find_job, open_job, open_for, complete_activation, activated}
use matreshka_panel.DeviceSync.Process.{fail_job, complete, settle, process}
use matreshka_panel.DeviceSync.Redeem.{
  Crypto, subscription_hash_of, FreshActivation, prepare_activation, prepared, redemption, redeem,
}
use matreshka_panel.DeviceSync.Steps.{claimed, claimed_registry, process-settle}

complete-redemptions :
    (subscription : Key → Key) (j : Job) (now : Time) (reg reg' : Registry)
    → j.kind ≡ activate
    → complete subscription j now reg ≡ some reg'
    → reg'.redemptions ≡ reg.redemptions
unfolding complete complete_activation activated
complete-redemptions subscription j now reg reg' kind e = ground (arith, kind, e)

settle-redemptions :
    (subscription : Key → Key) (j : Job) (answer : Bool) (now : Time) (reg : Registry)
    → j.kind ≡ activate
    → (settle subscription j answer now reg).0.redemptions ≡ reg.redemptions
unfolding settle fail_job
settle-redemptions subscription j false now reg kind = refl
settle-redemptions subscription j true now reg kind =
    elim (Option-cases (complete subscription j now reg)) [
      | inl unfinished ↦ rw (unfinished, settle) refl
      | inr (reg', e) ↦ rw (e, settle) (complete-redemptions subscription j now reg reg' kind e)
    ]

open_job_kind :
    (id : Key) (reg : Registry) (j : Job) → open_job id activate reg ≡ some j → j.kind ≡ activate
unfolding open_job
open_job_kind id reg j e =
    let passes = get_sound (open_for id activate) reg.jobs j e in ground (arith, passes)

process-idle :
    (subscription : Key → Key) (id : Key) (answer : Bool) (asked answered : Time) (j : Job)
    (reg : Registry)
    → find_job id reg ≡ some j
    → is_claimable j.status ≡ false
    → (process subscription id true answer asked answered reg).0 ≡ reg
unfolding process
process-idle subscription id answer asked answered j reg e h = ground (arith, e, h)

-- Running an activation opens and closes no session.
process-redemptions :
    (subscription : Key → Key) (id : Key) (answer : Bool) (asked answered : Time) (j : Job)
    (reg : Registry)
    → find_job id reg ≡ some j
    → j.kind ≡ activate
    → (process subscription id true answer asked answered reg).0.redemptions ≡ reg.redemptions
unfolding claimed_registry
process-redemptions subscription id answer asked answered j reg e kind =
    elim (Bool-cases (is_claimable j.status)) [
      | inl ready ↦
          ap (λ r. r.0.redemptions)
            (process-settle id true asked reg j e ready refl subscription answer answered)
          ∙ settle-redemptions subscription (claimed j asked) answer answered
              (claimed_registry id true asked reg) kind
      | inr shut ↦
          ap (λ r. r.redemptions) (process-idle subscription id answer asked answered j reg e shut)
    ]

module _ (c : Crypto) (token : Key) (fresh : FreshActivation) (i : Invitation) (j : Job)
    (asked : Time) (reg : Registry)
    (link : get (λ x. x.token_hash == c.hash token) reg.invitations ≡ some i)
    (waits : i.status ≡ pending) (in_time : asked < i.expires_at)
    (under_way : open_job i.device_id activate reg ≡ some j) where
  prepare_activation-reuses :
      prepare_activation c token fresh asked reg ≡ ok (reg, prepared c i j.id asked reg)
  unfolding prepare_activation
  prepare_activation-reuses = ground (arith, link, waits, in_time, under_way)

  redeem-reuses :
      (answer : Bool) (answered : Time)
      → let reg' = (process (subscription_hash_of c) j.id true answer asked answered reg).0 in
        redeem c token fresh answer asked answered reg
        ≡ (reg', redemption c (c.redemption_token i.id) answered reg')
  unfolding redeem prepared
  redeem-reuses answer answered = rw (prepare_activation-reuses, redeem) refl

redemption-missing :
    (c : Crypto) (token : Key) (now : Time) (reg : Registry)
    → get (λ r. r.token_hash == c.hash token) reg.redemptions ≡ none
    → redemption c token now reg ≡ err 404
unfolding redemption
redemption-missing c token now reg h = rw (h) refl

-- An invitation waits and is in time, but an activation that another invitation began is still open
-- for its device, and it has no session of its own. Redeeming it then ends with 404, whatever the
-- engine answers, since that activation is taken for its own and no session is opened.
pub second_link_not_found :
    (c : Crypto) (token : Key) (fresh : FreshActivation) (i : Invitation) (j : Job) (answer : Bool)
    (asked answered : Time) (reg : Registry)
    → get (λ x. x.token_hash == c.hash token) reg.invitations ≡ some i
    → i.status ≡ pending
    → asked < i.expires_at
    → open_job i.device_id activate reg ≡ some j
    → find_job j.id reg ≡ some j
    → get (λ r. r.token_hash == c.hash (c.redemption_token i.id)) reg.redemptions ≡ none
    → (redeem c token fresh answer asked answered reg).1 ≡ err 404
second_link_not_found c token fresh i j answer asked answered reg link waits in_time under_way at
      no_session =
    let reg' = (process (subscription_hash_of c) j.id true answer asked answered reg).0 in
    let kept =
      process-redemptions (subscription_hash_of c) j.id answer asked answered j reg at
        (open_job_kind i.device_id reg j under_way) in
    ap (λ r. r.1)
      (redeem-reuses c token fresh i j asked reg link waits in_time under_way answer answered)
    ∙ redemption-missing c (c.redemption_token i.id) answered reg' (rw (kept) no_session)
