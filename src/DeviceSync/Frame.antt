-- ===== src/DeviceSync/Frame.antt =====
-- What running one job leaves alone: another job, and the device that is not its own.
use matreshka_panel.Base.{
  ◌≡◌, ◌∙◌, refl, sym, ap, subst, Bool, true, false, ◌&&◌, ◌||◌, Option, none, some, List, [], ◌∷◌,
  Time, Key, ◌==◌, leb, get, get_sound, update, inl, inr, ◌⊎◌, Option-cases, arith,
}
use matreshka_panel.Registry.{
  Registry, Device, Job, JobKind, activate, revoke, JobStatus, waiting, running, failed, completed,
  is_claimable,
}
use matreshka_panel.People.Directory.{find_device}
use matreshka_panel.DeviceSync.Jobs.{
  find_job, claim, complete_job, activated, complete_activation, revoke_rows, revoked_by,
  complete_revocation,
}
use matreshka_panel.DeviceSync.Process.{
  fail_job, complete, settle, Processed, outcome_of, process, skipped, thrown,
}
use matreshka_panel.DeviceSync.Steps.{claimed, claimed_registry}

-- A row that is found is of the device.
abbrev pub of_device : Key → Option Job → Bool
of_device dev none = false
of_device dev (some x) = x.device_id == dev

module _ (p : Job → Bool) (f : Job → Job) (id_kept : (x : Job) → (f x).id ≡ x.id) where
  get-update_ne :
      (i : Key) (jobs : List Job)
      → ((x : Job) → p x ≡ true → (x.id == i) ≡ false)
      → get (λ x. x.id == i) (update p f jobs) ≡ get (λ x. x.id == i) jobs
  unfolding get update
  get-update_ne i [] ne = refl
  get-update_ne i (x ∷ jobs) ne = ground (arith, ne x, id_kept x, get-update_ne i jobs ne)

  pub of_device-update :
      (dev k : Key) (jobs : List Job)
      → ((x : Job) → (f x).device_id ≡ x.device_id)
      → of_device dev (get (λ x. x.id == k) (update p f jobs))
        ≡ of_device dev (get (λ x. x.id == k) jobs)
  unfolding get update
  of_device-update dev k [] kept = refl
  of_device-update dev k (x ∷ jobs) kept =
      ground (arith, kept x, id_kept x, of_device-update dev k jobs kept)

-- What a step for another job and another device keeps.
pub record IsKept (dev i : Key) (reg reg' : Registry) : Type 0 where
  pub job : find_job i reg' ≡ find_job i reg
  pub device : find_device dev reg' ≡ find_device dev reg
  pub owners : (k : Key) → of_device dev (find_job k reg') ≡ of_device dev (find_job k reg)

pub IsKept-refl : (dev i : Key) (reg : Registry) → IsKept dev i reg reg
IsKept-refl dev i reg = record { job = refl; device = refl; owners = λ k. refl }

IsKept-trans :
    (dev i : Key) (a b c : Registry) → IsKept dev i a b → IsKept dev i b c → IsKept dev i a c
IsKept-trans dev i a b c ab bc = record {
  job = bc.job ∙ ab.job;
  device = bc.device ∙ ab.device;
  owners = λ k. bc.owners k ∙ ab.owners k;
}

devices_ne :
    (p : Device → Bool) (f : Device → Device) (dev : Key) (ds : List Device)
    → ((x : Device) → (f x).id ≡ x.id)
    → ((x : Device) → p x ≡ true → (x.id == dev) ≡ false)
    → get (λ x. x.id == dev) (update p f ds) ≡ get (λ x. x.id == dev) ds
unfolding get update
devices_ne p f dev [] kept ne = refl
devices_ne p f dev (x ∷ ds) kept ne = ground (arith, ne x, kept x, devices_ne p f dev ds kept ne)

id_ne : (k i x : Key) → (k == i) ≡ false → (x == k) ≡ true → (x == i) ≡ false
id_ne k i x ne h = ground (arith, ne, h)

claimed-IsKept :
    (dev i k : Key) (now : Time) (reg : Registry)
    → (k == i) ≡ false
    → IsKept dev i reg (claimed_registry k false now reg)
unfolding claimed_registry find_job find_device
claimed-IsKept dev i k now reg ne =
    let p : Job → Bool =
      λ x. x.id == k && is_claimable x.status && (false || leb x.next_attempt_at now) in
    record {
      job =
          get-update_ne p (λ x. claimed x now) (λ x. refl) i reg.jobs
            (λ x h. ground (arith, ne, h));
      device = refl;
      owners = λ j. of_device-update p (λ x. claimed x now) (λ x. refl) dev j reg.jobs (λ x. refl);
    }

fail-IsKept :
    (dev i : Key) (j : Job) (now : Time) (reg : Registry)
    → (j.id == i) ≡ false
    → IsKept dev i reg (fail_job j now reg)
unfolding fail_job find_job find_device
fail-IsKept dev i j now reg ne = record {
  job = get-update_ne (λ x. x.id == j.id) _ (λ x. refl) i reg.jobs (λ x h. id_ne j.id i x.id ne h);
  device = refl;
  owners = λ k. of_device-update (λ x. x.id == j.id) _ (λ x. refl) dev k reg.jobs (λ x. refl);
}

activated-IsKept :
    (dev i : Key) (subscription : Key → Key) (j : Job) (invitation : Key) (d : Device) (now : Time)
    (reg : Registry)
    → (j.id == i) ≡ false
    → (j.device_id == dev) ≡ false
    → IsKept dev i reg (activated subscription j invitation d now reg)
unfolding activated complete_job find_job find_device
activated-IsKept dev i subscription j invitation d now reg ne apart = record {
  job = get-update_ne (λ x. x.id == j.id) _ (λ x. refl) i reg.jobs (λ x h. id_ne j.id i x.id ne h);
  device =
      devices_ne (λ x. x.id == j.device_id) _ dev reg.devices (λ x. refl)
        (λ x h. id_ne j.device_id dev x.id apart h);
  owners = λ k. of_device-update (λ x. x.id == j.id) _ (λ x. refl) dev k reg.jobs (λ x. refl);
}

revoked_by-IsKept :
    (dev i : Key) (j : Job) (d : Device) (now : Time) (reg : Registry)
    → (j.id == i) ≡ false
    → (j.device_id == dev) ≡ false
    → IsKept dev i reg (revoked_by j d now reg)
unfolding revoked_by revoke_rows complete_job find_job find_device
revoked_by-IsKept dev i j d now reg ne apart = record {
  job = get-update_ne (λ x. x.id == j.id) _ (λ x. refl) i reg.jobs (λ x h. id_ne j.id i x.id ne h);
  device =
      devices_ne (λ x. x.id == j.device_id) _ dev reg.devices (λ x. refl)
        (λ x h. id_ne j.device_id dev x.id apart h);
  owners = λ k. of_device-update (λ x. x.id == j.id) _ (λ x. refl) dev k reg.jobs (λ x. refl);
}

complete-IsKept :
    (dev i : Key) (subscription : Key → Key) (j : Job) (k : JobKind) (invitation : Option Key)
    (d : Option Device) (now : Time) (reg reg' : Registry)
    → j.kind ≡ k
    → j.invitation_id ≡ invitation
    → find_device j.device_id reg ≡ d
    → (j.id == i) ≡ false
    → (j.device_id == dev) ≡ false
    → complete subscription j now reg ≡ some reg'
    → IsKept dev i reg reg'
unfolding complete complete_activation complete_revocation
complete-IsKept dev i subscription j activate none d now reg reg' kind inv known ne apart e =
    let wrong : none ≡ some reg' = rw (kind, complete, inv, complete_activation) at e in cc
complete-IsKept dev i subscription j activate (some v) none now reg reg' kind inv known ne apart e =
    let wrong : none ≡ some reg' = rw (kind, complete, inv, complete_activation, known) at e in cc
complete-IsKept dev i subscription j activate (some v) (some d) now reg reg' kind inv known ne apart
      e =
    let same : some (activated subscription j v d now reg) ≡ some reg' =
      rw (kind, complete, inv, complete_activation, known) at e in
    let at_last : activated subscription j v d now reg ≡ reg' = ground (arith, same) in
    subst (IsKept dev i reg) at_last (activated-IsKept dev i subscription j v d now reg ne apart)
complete-IsKept dev i subscription j revoke invitation none now reg reg' kind inv known ne apart e =
    let wrong : none ≡ some reg' = rw (kind, complete, complete_revocation, known) at e in cc
complete-IsKept dev i subscription j revoke invitation (some d) now reg reg' kind inv known ne apart
      e =
    let same : some (revoked_by j d now reg) ≡ some reg' =
      rw (kind, complete, complete_revocation, known) at e in
    let at_last : revoked_by j d now reg ≡ reg' = ground (arith, same) in
    subst (IsKept dev i reg) at_last (revoked_by-IsKept dev i j d now reg ne apart)

settle-IsKept :
    (dev i : Key) (subscription : Key → Key) (j : Job) (answer : Bool) (now : Time) (reg : Registry)
    → (j.id == i) ≡ false
    → (j.device_id == dev) ≡ false
    → IsKept dev i reg (settle subscription j answer now reg).0
unfolding settle
settle-IsKept dev i subscription j false now reg ne apart = fail-IsKept dev i j now reg ne
settle-IsKept dev i subscription j true now reg ne apart =
    elim (Option-cases (complete subscription j now reg)) [
      | inl fails ↦ rw (fails, settle) (fail-IsKept dev i j now reg ne)
      | inr (reg', there) ↦
          rw (there, settle)
            (complete-IsKept dev i subscription j j.kind j.invitation_id
              (find_device j.device_id reg) now reg reg' refl refl refl ne apart there)
    ]

claim_lem :
    (k : Key) (now : Time) (reg reg' : Registry)
    → claim k false now reg ≡ some reg'
    → claimed_registry k false now reg ≡ reg'
unfolding claim claimed_registry
claim_lem k now reg reg' h = ground (arith, h)

found_id : (k : Key) (reg : Registry) (j : Job) → find_job k reg ≡ some j → (j.id == k) ≡ true
unfolding find_job
found_id k reg j h = get_sound (λ x. x.id == k) reg.jobs j h

-- What `process` does with a job that may be claimed.
claim_then : (Key → Key) → Key → Bool → Time → Time → Registry → Registry × Processed
claim_then subscription id answer asked answered reg = elim (claim id false asked reg) [
  | none ↦ (reg, skipped)
  | some reg1 ↦ elim (find_job id reg1) [
    | none ↦ (reg1, thrown)
    | some j ↦
        let (reg2, returned) = settle subscription j answer answered reg1 in
        (reg2, outcome_of returned)
  ]
]

process_lem :
    (subscription : Key → Key) (id : Key) (answer : Bool) (asked answered : Time) (reg : Registry)
    (x : Job) (status : JobStatus)
    → find_job id reg ≡ some x
    → x.status ≡ status
    → ((process subscription id false answer asked answered reg).0 ≡ reg)
      ⊎ ((process subscription id false answer asked answered reg).0
          ≡ (claim_then subscription id answer asked answered reg).0)
unfolding process claim_then
process_lem subscription id answer asked answered reg x completed there e =
    inl (rw (there, process, e) refl)
process_lem subscription id answer asked answered reg x running there e =
    inl (rw (there, process, e) refl)
process_lem subscription id answer asked answered reg x waiting there e =
    inr (rw (there, process, e) refl)
process_lem subscription id answer asked answered reg x failed there e =
    inr (rw (there, process, e) refl)

claim_then-IsKept :
    (dev i : Key) (subscription : Key → Key) (k : Key) (answer : Bool) (asked answered : Time)
    (reg : Registry)
    → (k == i) ≡ false
    → of_device dev (find_job k reg) ≡ false
    → IsKept dev i reg (claim_then subscription k answer asked answered reg).0
unfolding claim_then
claim_then-IsKept dev i subscription k answer asked answered reg ne apart =
    elim (Option-cases (claim k false asked reg)) [
      | inl no_claim ↦ rw (no_claim, claim_then) (IsKept-refl dev i reg)
      | inr (reg1, taken) ↦
          let first : IsKept dev i reg reg1 =
            subst (IsKept dev i reg) (claim_lem k asked reg reg1 taken)
              (claimed-IsKept dev i k asked reg ne) in
          elim (Option-cases (find_job k reg1)) [
            | inl gone ↦ rw (taken, claim_then, gone) first
            | inr (j, there) ↦
                let its_id = found_id k reg1 j there in
                let elsewhere : (j.device_id == dev) ≡ false =
                  sym (ap (of_device dev) there) ∙ first.owners k ∙ apart in
                rw (taken, claim_then, there)
                  (IsKept-trans dev i reg reg1 (settle subscription j answer answered reg1).0 first
                    (settle-IsKept dev i subscription j answer answered reg1
                      (id_ne k i j.id ne its_id) elsewhere))
          ]
    ]

pub process-IsKept :
    (dev i : Key) (subscription : Key → Key) (k : Key) (answer : Bool) (asked answered : Time)
    (reg : Registry)
    → (k == i) ≡ false
    → of_device dev (find_job k reg) ≡ false
    → IsKept dev i reg (process subscription k false answer asked answered reg).0
unfolding process
process-IsKept dev i subscription k answer asked answered reg ne apart =
    elim (Option-cases (find_job k reg)) [
      | inl missing ↦ rw (missing, process) (IsKept-refl dev i reg)
      | inr (x, there) ↦
          elim (process_lem subscription k answer asked answered reg x x.status there refl) [
            | inl same ↦ subst (IsKept dev i reg) (sym same) (IsKept-refl dev i reg)
            | inr same ↦
                subst (IsKept dev i reg) (sym same)
                  (claim_then-IsKept dev i subscription k answer asked answered reg ne apart)
          ]
    ]
