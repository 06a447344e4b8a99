-- ===== src/Traffic/Record.antt =====
-- `recordCumulative` of TrafficService: cumulative counters become increments.
use matreshka_panel.Base.{
  ℕ, ◌-◌, Bool, false, not, ◌&&◌, ◌||◌, Option, none, some, Time, Key, ◌==◌, if◌then◌else◌, leb,
  ltb, get, upsert, is_some,
}
use matreshka_panel.Registry.{Device, Engine, engine_eq}
use matreshka_panel.People.Directory.{find_device}
use matreshka_panel.Traffic.Samples.{
  Sample, Cursor, Point, Db, five_minutes, floor_date, same_key, add_sample,
}

abbrev pub is_cursor : Key → Engine → Cursor → Bool
is_cursor id e c = c.device_id == id && engine_eq c.engine e

unfoldable pub cursor : Key → Engine → Db → Option Cursor
cursor id e db = get (is_cursor id e) db.cursors

-- `cursor && counter >= before ? counter - before : counter`
abbrev pub increment : ℕ → Option ℕ → ℕ
increment counter none = counter
increment counter (some before) = if leb before counter then counter - before else counter

abbrev pub upload_of : Option Cursor → Option ℕ
upload_of none = none
upload_of (some c) = some c.upload

abbrev pub download_of : Option Cursor → Option ℕ
download_of none = none
download_of (some c) = some c.download

abbrev pub is_reset : Option Cursor → Point → Bool
is_reset none p = false
is_reset (some c) p = ltb p.upload c.upload || ltb p.download c.download

-- What `recordCumulative` returns.
pub record Delta : Type 0 where
  pub upload : ℕ
  pub download : ℕ
  pub activity : Bool
  pub reset : Bool

abbrev pub no_delta : Delta
no_delta = record { upload = 0; download = 0; activity = false; reset = false }

abbrev pub some_traffic : ℕ → ℕ → Bool
some_traffic upload download = not (upload == 0) || not (download == 0)

unfoldable pub new_sample : Engine → Point → Key → ℕ → ℕ → Time → Sample
new_sample e p person_id upload download now = record {
  bucket = five_minutes;
  bucket_at = floor_date now 5;
  person_id = person_id;
  device_id = p.device_id;
  engine = e;
  upload = upload;
  download = download;
}

-- The transaction of `recordCumulative` for a device that is known.
unfoldable pub record_point : Engine → Point → Time → Device → Db → Db
unfolding new_sample
record_point e p now d db =
    let before = cursor p.device_id e db in
    let upload = increment p.upload (upload_of before) in
    let download = increment p.download (download_of before) in
    let row : Cursor = record {
      device_id = p.device_id;
      engine = e;
      upload = p.upload;
      download = p.download;
      observed_at = now;
    } in
    let sample = new_sample e p d.person_id upload download now in
    record db {
      cursors = upsert (is_cursor p.device_id e) (λ _. row) row db.cursors;
      samples =
          if some_traffic upload download
          then upsert (same_key sample) (add_sample sample) sample db.samples
          else db.samples;
    }

-- `recordCumulative`
unfoldable pub record_cumulative : Engine → Point → Time → Db → Db × Delta
unfolding record_point
record_cumulative e p now db = elim (find_device p.device_id db.registry) [
  | none ↦ (db, no_delta)
  | some d ↦
      let before = cursor p.device_id e db in
      let upload = increment p.upload (upload_of before) in
      let download = increment p.download (download_of before) in
      let reset = is_reset before p in
      (
        record_point e p now d db,
        record {
          upload = upload;
          download = download;
          activity = is_some before && not reset && some_traffic upload download;
          reset = reset;
        },
      )
]
