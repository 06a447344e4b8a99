-- ===== src/Traffic/Samples.antt =====
-- The tables of TrafficService (`traffic_cursors`, `traffic_samples`, `device_presence`) and `floorDate`.
use matreshka_panel.Base.{
  ℕ, ◌+◌, ◌*◌, ◌/◌, ◌%◌, Bool, true, false, ◌&&◌, Option, List, Time, Key, ◌==◌, if◌then◌else◌, leb,
  ltb,
}
use matreshka_panel.Registry.{Registry, Engine, engine_eq}
use matreshka_panel.Monitoring.State.{Row}

-- `'5m'`, `'1h'` and `'1d'`
pub data Bucket : Type 0 where
  five_minutes hour day : Bucket

abbrev pub bucket_eq : Bucket → Bucket → Bool
bucket_eq five_minutes five_minutes = true
bucket_eq hour hour = true
bucket_eq day day = true
bucket_eq _ _ = false

-- A row of `traffic_samples`, with the key (bucket, bucket_at, device, engine).
pub record Sample : Type 0 where
  pub bucket : Bucket
  pub bucket_at : Time
  pub person_id : Key
  pub device_id : Key
  pub engine : Engine
  pub upload : ℕ
  pub download : ℕ

pub record Cursor : Type 0 where
  pub device_id : Key
  pub engine : Engine
  pub upload : ℕ
  pub download : ℕ
  pub observed_at : Time

-- `TrafficPoint`
pub record Point : Type 0 where
  pub device_id : Key
  pub upload : ℕ
  pub download : ℕ

pub data Status : Type 0 where
  online offline unknown : Status

abbrev pub status_eq : Status → Status → Bool
status_eq online online = true
status_eq offline offline = true
status_eq unknown unknown = true
status_eq _ _ = false

pub data Signal : Type 0 where
  by_connections by_traffic : Signal

-- `PresenceRow`
pub record Presence : Type 0 where
  pub device_id : Key
  pub engine : Engine
  pub status : Status
  pub signal : Signal
  pub connections : Option ℕ
  pub misses : ℕ
  pub last_active_at : Option Time
  pub observed_at : Time
  pub changed_at : Time

pub record Db : Type 0 where
  pub registry : Registry
  pub monitors : List Row
  pub cursors : List Cursor
  pub samples : List Sample
  pub presence : List Presence

-- `floorDate`: seconds to zero, the minute of the hour down to a multiple, and from one hour on the
-- hour of the day down to a multiple and the minute to zero.
unfoldable pub floor_date : Time → ℕ → Time
floor_date date minutes =
    let total = date / 60000 in
    let hours = total / 60 in
    let minute = (total % 60) / minutes * minutes in
    if leb 60 minutes
    then (hours / 24 * 24 + (hours % 24) / (minutes / 60) * (minutes / 60)) * 3600000
    else hours * 3600000 + minute * 60000

-- The conflict target of the samples.
abbrev pub same_key : Sample → Sample → Bool
same_key a b =
    bucket_eq b.bucket a.bucket
    && b.bucket_at == a.bucket_at
    && b.device_id == a.device_id
    && engine_eq b.engine a.engine

-- `DO UPDATE SET upload = upload + excluded.upload, download = download + excluded.download`
abbrev pub add_sample : Sample → Sample → Sample
add_sample new old = record old {
  upload = old.upload + new.upload;
  download = old.download + new.download;
}

-- `WHERE bucket = ? AND bucket_at < ?`
abbrev pub is_older : Bucket → Time → Sample → Bool
is_older b before x = bucket_eq x.bucket b && ltb x.bucket_at before
