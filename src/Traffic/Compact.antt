-- ===== src/Traffic/Compact.antt =====
-- `rollup` and `compact` of TrafficService: fine samples are merged into coarser ones with age.
use matreshka_panel.Base.{ℕ, ◌-◌, ◌*◌, List, [], ◌∷◌, Time, select, delete, upsert, hour_ms, day_ms}
use matreshka_panel.Traffic.Samples.{
  Sample, Bucket, is_older, five_minutes, hour, day, floor_date, same_key, add_sample,
}

abbrev pub coarser : Bucket → ℕ → Sample → Sample
coarser target minutes x = record x { bucket = target; bucket_at = floor_date x.bucket_at minutes }

unfoldable pub insert_all : List Sample → List Sample → List Sample
insert_all [] samples = samples
insert_all (x ∷ xs) samples = insert_all xs (upsert (same_key x) (add_sample x) x samples)

abbrev pub coarser_rows : Bucket → ℕ → List Sample → List Sample
coarser_rows target minutes [] = []
coarser_rows target minutes (x ∷ xs) = coarser target minutes x ∷ coarser_rows target minutes xs

-- `rollup`
unfoldable pub rollup : Bucket → Bucket → Time → ℕ → List Sample → List Sample
unfolding insert_all
rollup source target before minutes samples =
    insert_all (coarser_rows target minutes (select (is_older source before) samples)) samples

-- `compact`
unfoldable pub compact : Time → List Sample → List Sample
unfolding rollup
compact now samples =
    let five_minute_cutoff = now - 48 * hour_ms in
    let hourly_cutoff = now - 90 * day_ms in
    let hourly = rollup five_minutes hour five_minute_cutoff 60 samples in
    let daily = rollup hour day hourly_cutoff (24 * 60) hourly in
    delete (is_older hour hourly_cutoff) (delete (is_older five_minutes five_minute_cutoff) daily)
