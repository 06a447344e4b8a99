-- ===== src/Traffic/Metered.antt =====
-- What the samples hold after any sequence of readings of the two counters.
use matreshka_panel.Base.{
  ℕ, ◌+◌, ◌-◌, ◌≡◌, ◌∙◌, refl, ap, ap₂, true, Option, none, some, List, [], ◌∷◌, Time, Key, arith,
  if◌then◌else◌, leb, get-upsert_self, ==_refl,
}
use matreshka_panel.Registry.{Device, Engine, engine_eq}
use matreshka_panel.People.Directory.{find_device}
use matreshka_panel.Traffic.Samples.{Cursor, Point, Db}
use matreshka_panel.Traffic.Record.{
  cursor, is_cursor, increment, upload_of, download_of, record_point, record_cumulative, new_sample,
}
use matreshka_panel.Traffic.Volume.{
  volume, volume-upsert, of_device, of_device-Merges, Amount, uploaded, downloaded, amount_of,
}

-- The readings of the upload and download counters of one device, newest first.
unfoldable pub metered : Key → Engine → List (ℕ × ℕ × Time) → Db → Db
unfolding record_cumulative
metered id e [] db = db
metered id e ((up, down, now) ∷ earlier) db =
    (record_cumulative e (record { device_id = id; upload = up; download = down }) now
      (metered id e earlier db)).0

-- The reading of one of the two counters
abbrev pub reading_of : Amount → ℕ × ℕ × Time → ℕ
reading_of uploaded (up, down, now) = up
reading_of downloaded (up, down, now) = down

-- The independent description: what a counter that restarts at 0 has counted over its readings.
unfoldable pub counted : Amount → List (ℕ × ℕ × Time) → ℕ
counted k [] = 0
counted k (r ∷ []) = reading_of k r
counted k (r ∷ before ∷ earlier) =
    let rest = counted k (before ∷ earlier) in
    rest
    + (if leb (reading_of k before) (reading_of k r)
        then reading_of k r - reading_of k before
        else reading_of k r)

abbrev pub newest : Amount → List (ℕ × ℕ × Time) → Option ℕ
newest k [] = none
newest k (r ∷ earlier) = some (reading_of k r)

-- The column of a cursor
abbrev pub marked : Amount → Option Cursor → Option ℕ
marked uploaded c = upload_of c
marked downloaded c = download_of c

abbrev point_reading : Amount → Point → ℕ
point_reading uploaded p = p.upload
point_reading downloaded p = p.download

abbrev point_at : Key → ℕ × ℕ × Time → Point
point_at id (up, down, now) = record { device_id = id; upload = up; download = down }

point_reading-point_at :
    (k : Amount) (id : Key) (r : ℕ × ℕ × Time) → point_reading k (point_at id r) ≡ reading_of k r
point_reading-point_at uploaded id (up, down, now) = refl
point_reading-point_at downloaded id (up, down, now) = refl

counted_step :
    (k : Amount) (r : ℕ × ℕ × Time) (h : List (ℕ × ℕ × Time))
    → counted k (r ∷ h) ≡ counted k h + increment (reading_of k r) (newest k h)
unfolding counted
counted_step k r [] = omega arith
counted_step k r (before ∷ h) = refl

engine_eq_refl : (e : Engine) → engine_eq e e ≡ true
engine_eq_refl e = ground arith

marked-record_point :
    (k : Amount) (e : Engine) (p : Point) (now : Time) (d : Device) (db : Db)
    → marked k (cursor p.device_id e (record_point e p now d db)) ≡ some (point_reading k p)
unfolding cursor record_point
marked-record_point uploaded e p now d db = ap upload_of (
    get-upsert_self (is_cursor p.device_id e) _ db.cursors
      (rw (==_refl p.device_id, engine_eq_refl e) refl))
marked-record_point downloaded e p now d db = ap download_of (
    get-upsert_self (is_cursor p.device_id e) _ db.cursors
      (rw (==_refl p.device_id, engine_eq_refl e) refl))

total-record_point :
    (k : Amount) (e : Engine) (p : Point) (now : Time) (d : Device) (db : Db)
    → volume (of_device p.device_id e) (amount_of k) (record_point e p now d db).samples
      ≡ volume (of_device p.device_id e) (amount_of k) db.samples
        + increment (point_reading k p) (marked k (cursor p.device_id e db))
unfolding record_point new_sample
total-record_point uploaded e p now d db =
    let before = cursor p.device_id e db in
    let sample =
      new_sample e p d.person_id (increment p.upload (upload_of before))
        (increment p.download (download_of before)) now in
    ground (
      arith,
      volume-upsert (of_device p.device_id e) (amount_of uploaded)
          (of_device-Merges p.device_id e uploaded) sample db.samples,
      ==_refl p.device_id,
      engine_eq_refl e,
    )
total-record_point downloaded e p now d db =
    let before = cursor p.device_id e db in
    let sample =
      new_sample e p d.person_id (increment p.upload (upload_of before))
        (increment p.download (download_of before)) now in
    ground (
      arith,
      volume-upsert (of_device p.device_id e) (amount_of downloaded)
          (of_device-Merges p.device_id e downloaded) sample db.samples,
      ==_refl p.device_id,
      engine_eq_refl e,
    )

registry-record_point :
    (e : Engine) (p : Point) (now : Time) (d : Device) (db : Db)
    → (record_point e p now d db).registry ≡ db.registry
unfolding record_point
registry-record_point e p now d db = refl

recorded :
    (e : Engine) (p : Point) (now : Time) (d : Device) (db : Db)
    → find_device p.device_id db.registry ≡ some d
    → (record_cumulative e p now db).0 ≡ record_point e p now d db
unfolding record_cumulative record_point
recorded e p now d db known = rw (known, record_cumulative) refl

record Tracks (k : Amount) (id : Key) (e : Engine) (h : List (ℕ × ℕ × Time)) (start db : Db)
    : Type 0 where
  at : marked k (cursor id e db) ≡ newest k h
  holds :
      volume (of_device id e) (amount_of k) db.samples
      ≡ volume (of_device id e) (amount_of k) start.samples + counted k h
  same : db.registry ≡ start.registry

no_mark : (k : Amount) (c : Option Cursor) → c ≡ none → marked k c ≡ none
no_mark uploaded c h = rw h refl
no_mark downloaded c h = rw h refl

metered-Tracks :
    (k : Amount) (id : Key) (e : Engine) (d : Device) (h : List (ℕ × ℕ × Time)) (start : Db)
    → find_device id start.registry ≡ some d
    → cursor id e start ≡ none
    → Tracks k id e h start (metered id e h start)
unfolding metered volume counted
metered-Tracks k id e d [] start known new = record {
  at = no_mark k (cursor id e start) new;
  holds = omega arith;
  same = refl;
}
metered-Tracks k id e d ((up, down, now) ∷ h) start known new =
    let db = metered id e h start in
    let t = metered-Tracks k id e d h start known new in
    let r : ℕ × ℕ × Time = (up, down, now) in
    let p = point_at id r in
    let found_there : find_device id db.registry ≡ some d = rw (t.same) known in
    let step = recorded e p now d db found_there in
    record {
      at = rw (step) (marked-record_point k e p now d db ∙ ap some (point_reading-point_at k id r));
      holds = rw (step) (
          omega (
            arith,
            total-record_point k e p now d db,
            t.holds,
            counted_step k r h,
            ap₂ increment (point_reading-point_at k id r) (t.at),
          ));
      same = rw (step) (registry-record_point e p now d db ∙ t.same);
    }

-- A device that is known and has no cursor for the engine is read any number of times. Then for
-- upload and for download its samples for the engine hold what they held before, and what the counter
-- has counted over these readings when it may restart at 0 between any two of them; and the cursor
-- has the newest reading.
pub metered_counts :
    (k : Amount) (id : Key) (e : Engine) (d : Device) (h : List (ℕ × ℕ × Time)) (start : Db)
    → find_device id start.registry ≡ some d
    → cursor id e start ≡ none
    → let after = metered id e h start in
      (volume (of_device id e) (amount_of k) after.samples
        ≡ volume (of_device id e) (amount_of k) start.samples + counted k h)
      × (marked k (cursor id e after) ≡ newest k h)
metered_counts k id e d h start known new =
    let t = metered-Tracks k id e d h start known new in (t.holds, t.at)
