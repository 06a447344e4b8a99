-- ===== src/Traffic/Conservation.antt =====
-- What `compact` does to the totals that the panel shows.
use matreshka_panel.Base.{
  ℕ, ◌+◌, ◌-◌, ◌*◌, ◌≡◌, ◌∙◌, refl, Bool, false, ◌&&◌, List, [], ◌∷◌, Time, Key, select, delete,
  upsert, arith, hour_ms, day_ms,
}
use matreshka_panel.Registry.{Engine}
use matreshka_panel.Traffic.Samples.{
  Sample, Bucket, five_minutes, hour, day, bucket_eq, is_older, same_key, add_sample,
}
use matreshka_panel.Traffic.Volume.{
  volume, Merges, volume-upsert, volume-delete, volume-select, volume-none, of_device,
  due_of_device, Amount, amount_of, of_device-Merges, due-Merges,
}
use matreshka_panel.Traffic.Compact.{coarser, coarser_rows, insert_all, rollup, compact}

volume-insert_all :
    (q : Sample → Bool) (amount : Sample → ℕ) (m : Merges q amount) (rows samples : List Sample)
    → volume q amount (insert_all rows samples) ≡ volume q amount samples + volume q amount rows
unfolding volume insert_all
volume-insert_all q amount m [] samples = omega arith
volume-insert_all q amount m (x ∷ rows) samples = ground (
  arith,
  volume-insert_all q amount m rows (upsert (same_key x) (add_sample x) x samples),
  volume-upsert q amount m x samples,
)

bucket_eq_apart :
    (a b c : Bucket) → bucket_eq b c ≡ false → (bucket_eq a b && bucket_eq a c) ≡ false
bucket_eq_apart a b c h = ground arith

module _ (d : Key) (e : Engine) (k : Amount) where
  abbrev total : List Sample → ℕ
  total = volume (of_device d e) (amount_of k)

  abbrev due : Bucket → Time → List Sample → ℕ
  due b before = volume (due_of_device b before d e) (amount_of k)

  amount_of-coarser :
      (target : Bucket) (minutes : ℕ) (x : Sample)
      → amount_of k (coarser target minutes x) ≡ amount_of k x
  amount_of-coarser target minutes x =
      elim k as (λ k'. amount_of k' (coarser target minutes x) ≡ amount_of k' x) [
        | Amount.uploaded ↦ refl
        | Amount.downloaded ↦ refl
      ]

  total-coarser :
      (target : Bucket) (minutes : ℕ) (rows : List Sample)
      → total (coarser_rows target minutes rows) ≡ total rows
  unfolding volume
  total-coarser target minutes [] = refl
  total-coarser target minutes (x ∷ rows) =
      ground (arith, amount_of-coarser target minutes x, total-coarser target minutes rows)

  due-coarser :
      (b target : Bucket) (before : Time) (minutes : ℕ) (rows : List Sample)
      → bucket_eq target b ≡ false
      → due b before (coarser_rows target minutes rows) ≡ 0
  unfolding volume
  due-coarser b target before minutes [] other = refl
  due-coarser b target before minutes (x ∷ rows) other =
      ground (arith, other, due-coarser b target before minutes rows other)

  total-rollup :
      (source target : Bucket) (before : Time) (minutes : ℕ) (xs : List Sample)
      → total (rollup source target before minutes xs) ≡ total xs + due source before xs
  unfolding rollup
  total-rollup source target before minutes xs =
      volume-insert_all (of_device d e) (amount_of k) (of_device-Merges d e k)
        (coarser_rows target minutes (select (is_older source before) xs)) xs
      ∙ rw
          (
            total-coarser target minutes (select (is_older source before) xs),
            volume-select (is_older source before) (of_device d e) (amount_of k) xs,
          )
          refl

  due-rollup :
      (b source target : Bucket) (cutoff before : Time) (minutes : ℕ) (xs : List Sample)
      → bucket_eq target b ≡ false
      → due b cutoff (rollup source target before minutes xs) ≡ due b cutoff xs
  unfolding rollup
  due-rollup b source target cutoff before minutes xs other = omega (
    arith,
    volume-insert_all (due_of_device b cutoff d e) (amount_of k) (due-Merges b cutoff d e k)
        (coarser_rows target minutes (select (is_older source before) xs)) xs,
    due-coarser b target cutoff minutes (select (is_older source before) xs) other,
  )

  due-delete_other :
      (b c : Bucket) (cutoff before : Time) (xs : List Sample)
      → bucket_eq b c ≡ false
      → due b cutoff (delete (is_older c before) xs) ≡ due b cutoff xs
  due-delete_other b c cutoff before xs other =
      let taken =
        volume-none (λ x. is_older c before x && due_of_device b cutoff d e x) (amount_of k) xs
          (λ x. ground (arith, bucket_eq_apart x.bucket b c other)) in
      omega (
        arith,
        taken,
        volume-delete (is_older c before) (due_of_device b cutoff d e) (amount_of k) xs,
      )

-- Compacting never changes how much a device has uploaded or downloaded over an engine, in total.
pub compact_conserves :
    (d : Key) (e : Engine) (k : Amount) (now : Time) (samples : List Sample)
    → volume (of_device d e) (amount_of k) (compact now samples)
      ≡ volume (of_device d e) (amount_of k) samples
unfolding compact
compact_conserves d e k now samples =
    let cut5 = now - 48 * hour_ms in
    let cut1 = now - 90 * day_ms in
    let hourly = rollup five_minutes hour cut5 60 samples in
    let daily = rollup hour day cut1 (24 * 60) hourly in
    let fewer = delete (is_older five_minutes cut5) daily in
    omega (
      arith,
      total-rollup d e k five_minutes hour cut5 60 samples,
      due-rollup d e k five_minutes five_minutes hour cut5 cut5 60 samples refl,
      total-rollup d e k hour day cut1 (24 * 60) hourly,
      due-rollup d e k five_minutes hour day cut5 cut1 (24 * 60) hourly refl,
      due-rollup d e k hour hour day cut1 cut1 (24 * 60) hourly refl,
      due-delete_other d e k hour five_minutes cut1 cut5 daily refl,
      volume-delete (is_older five_minutes cut5) (of_device d e) (amount_of k) daily,
      volume-delete (is_older hour cut1) (of_device d e) (amount_of k) fewer,
    )
