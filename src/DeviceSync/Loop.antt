-- ===== src/DeviceSync/Loop.antt =====
-- The loop of a drain, for one job among those that it runs.
use matreshka_panel.Base.{
  ℕ, suc, ◌≡◌, ◌∙◌, refl, sym, ap, subst, Bool, true, false, some, List, [], ◌∷◌, Time, Key, ◌==◌,
  contains, All, inl, inr, ◌⊎◌, Bool-cases, arith,
}
use matreshka_panel.Registry.{Registry, Device, active, Job, completed}
use matreshka_panel.People.Directory.{find_device}
use matreshka_panel.DeviceSync.Jobs.{find_job}
use matreshka_panel.DeviceSync.Process.{process, done, skipped, thrown, drain_jobs}
use matreshka_panel.DeviceSync.Frame.{of_device, IsKept, IsKept-refl, process-IsKept}

-- The ids of a drain: of the job itself, and of jobs of other devices.
abbrev pub Apart : Key → Key → Registry → Key → Type 0
Apart dev i reg k = ((k == i) ≡ true) ⊎ (of_device dev (find_job k reg) ≡ false)

Apart-owners :
    (dev i : Key) (reg reg' : Registry) (ids : List Key)
    → ((k : Key) → of_device dev (find_job k reg') ≡ of_device dev (find_job k reg))
    → All (Apart dev i reg) ids
    → All (Apart dev i reg') ids
Apart-owners dev i reg reg' [] kept h = tt
Apart-owners dev i reg reg' (k ∷ ids) kept h = (
  elim h.0 [ inl same ↦ inl same | inr apart ↦ inr (kept k ∙ apart) ],
  Apart-owners dev i reg reg' ids kept h.1,
)

Apart-of_device :
    (dev i k : Key) (reg : Registry)
    → (k == i) ≡ false
    → Apart dev i reg k
    → of_device dev (find_job k reg) ≡ false
Apart-of_device dev i k reg other (inl same) = let wrong : false ≡ true = sym other ∙ same in cc
Apart-of_device dev i k reg other (inr apart) = apart

-- The tables after one turn of the loop, and after the whole loop
drain_next :
    (subscription : Key → Key) (answer : Key → Bool) (now : Time) (id : Key) (ids : List Key)
    (reg : Registry) (n : ℕ)
    → (m : ℕ) × (drain_jobs subscription answer now (id ∷ ids) reg n
        ≡ drain_jobs subscription answer now ids
            (process subscription id false (answer id) now now reg).0
            m)
unfolding drain_jobs
drain_next subscription answer now id ids reg n = (
  (elim (process subscription id false (answer id) now now reg).1 as (λ _. ℕ) [
    | done ↦ suc n
    | skipped ↦ n
    | thrown ↦ n
  ]),
  refl,
)

process-completed :
    (subscription : Key → Key) (id : Key) (answer : Bool) (now : Time) (reg : Registry) (j : Job)
    → find_job id reg ≡ some j
    → j.status ≡ completed
    → (process subscription id false answer now now reg).0 ≡ reg
unfolding process
process-completed subscription id answer now reg j there e = rw (there, process, e) refl

same_id : (k i : Key) → (k == i) ≡ true → k ≡ i
same_id k i h = ground (arith, h)

-- A job that is completed stays so, and its device as it is.
drain_after :
    (dev i : Key) (subscription : Key → Key) (answer : Key → Bool) (now : Time) (ids : List Key)
    (reg : Registry) (n : ℕ) (j : Job)
    → find_job i reg ≡ some j
    → j.status ≡ completed
    → All (Apart dev i reg) ids
    → (find_job i (drain_jobs subscription answer now ids reg n).0 ≡ some j)
      × (find_device dev (drain_jobs subscription answer now ids reg n).0 ≡ find_device dev reg)
unfolding drain_jobs
drain_after dev i subscription answer now [] reg n j there ready h = (there, refl)
drain_after dev i subscription answer now (k ∷ ids) reg n j there ready h =
    let (m, turn) = drain_next subscription answer now k ids reg n in
    let after = (process subscription k false (answer k) now now reg).0 in
    let kept : IsKept dev i reg after = elim (Bool-cases (k == i)) [
      | inl same ↦
          subst (IsKept dev i reg)
            (sym (
              process-completed subscription k (answer k) now reg j
                (ap (λ x. find_job x reg) (same_id k i same) ∙ there) ready))
            (IsKept-refl dev i reg)
      | inr other ↦
          process-IsKept dev i subscription k (answer k) now now reg other
            (Apart-of_device dev i k reg other h.0)
    ] in
    let rest =
      drain_after dev i subscription answer now ids after m j (kept.job ∙ there) ready
        (Apart-owners dev i reg after ids kept.owners h.1) in
    (
      ap (λ x. find_job i x.0) turn ∙ rest.0,
      ap (λ x. find_device dev x.0) turn ∙ rest.1 ∙ kept.device,
    )

-- The loop comes to the job, of which one turn is known.
pub drain_comes :
    (dev i : Key) (subscription : Key → Key) (answer : Key → Bool) (now : Time) (ids : List Key)
    (reg : Registry) (n : ℕ) (j : Job) (d : Device)
    → ((reg1 : Registry)
        → find_job i reg1 ≡ some j
        → find_device dev reg1 ≡ some d
        → (reg2 : Registry) × (j' : Job) × (d' : Device) × ((process subscription i false
              (answer i)
              now
              now
              reg1).0
            ≡ reg2)
          × (find_job i reg2 ≡ some j')
          × (j'.status ≡ completed)
          × (find_device dev reg2 ≡ some d')
          × (d'.status ≡ active)
          × (d'.subscription_hash ≡ some (subscription dev))
          × ((k : Key) → of_device dev (find_job k reg2) ≡ of_device dev (find_job k reg1)))
    → find_job i reg ≡ some j
    → find_device dev reg ≡ some d
    → All (Apart dev i reg) ids
    → contains ids i ≡ true
    → (j' : Job) × (d' : Device) × (find_job i (drain_jobs subscription answer now ids reg n).0
        ≡ some j')
      × (j'.status ≡ completed)
      × (find_device dev (drain_jobs subscription answer now ids reg n).0 ≡ some d')
      × (d'.status ≡ active)
      × (d'.subscription_hash ≡ some (subscription dev))
drain_comes dev i subscription answer now [] reg n j d turn_of there known h among = cc
drain_comes dev i subscription answer now (k ∷ ids) reg n j d turn_of there known h among =
    let (m, turn) = drain_next subscription answer now k ids reg n in
    let after = (process subscription k false (answer k) now now reg).0 in
    elim (Bool-cases (k == i)) [
      | inl same ↦
          let (reg2, j', d', result, there', ready, known', on, hash, owners) =
            turn_of reg there known in
          let at_last : after ≡ reg2 =
            ap (λ x. (process subscription x false (answer x) now now reg).0) (same_id k i same)
            ∙ result in
          let rest =
            drain_after dev i subscription answer now ids after m j'
              (ap (find_job i) at_last ∙ there') ready
              (Apart-owners dev i reg after ids
                (λ q. ap (λ x. of_device dev (find_job q x)) at_last ∙ owners q) h.1) in
          (
            j',
            d',
            ap (λ x. find_job i x.0) turn ∙ rest.0,
            ready,
            ap (λ x. find_device dev x.0) turn ∙ rest.1 ∙ ap (find_device dev) at_last ∙ known',
            on,
            hash,
          )
      | inr other ↦
          let kept =
            process-IsKept dev i subscription k (answer k) now now reg other
              (Apart-of_device dev i k reg other h.0) in
          let (j', d', there', ready, known', on, hash) =
            drain_comes dev i subscription answer now ids after m j d turn_of (kept.job ∙ there)
              (kept.device ∙ known) (Apart-owners dev i reg after ids kept.owners h.1)
              (rw other at among) in
          (
            j',
            d',
            ap (λ x. find_job i x.0) turn ∙ there',
            ready,
            ap (λ x. find_device dev x.0) turn ∙ known',
            on,
            hash,
          )
    ]
