-- ===== src/Traffic/Telemetry.antt =====
-- `telemetryFailure`, `telemetrySuccess`, `saveMonitor` and `collect` of TrafficService.
use matreshka_panel.Base.{
  ℕ, suc, not, ◌&&◌, Option, none, some, List, [], ◌∷◌, Time, Key, String, if◌then◌else◌, leb,
}
use matreshka_panel.Journal.Json.{object, field, string, end}
use matreshka_panel.Journal.Types.{EventType}
use matreshka_panel.Journal.Record.{Entry, blank, word, log}
use matreshka_panel.Registry.{Engine, hysteria, xray}
use matreshka_panel.Monitoring.State as Monitor
use matreshka_panel.Monitoring.State.{
  Row, state, save, failures_of, status_or, has_status, telemetry, hysteria_engine, xray_engine,
}
use matreshka_panel.Traffic.Samples.{Point, Db}
use matreshka_panel.Traffic.Record.{record_cumulative}
use matreshka_panel.Traffic.Presence.{update_hysteria_presence, update_xray_presence, mark_unknown}
use matreshka_panel.Traffic.Facts.{update_device_facts}
use matreshka_panel.Traffic.Compact.{compact}

-- `telemetry:<engine>`
abbrev pub telemetry_key : Engine → Monitor.Monitor
telemetry_key hysteria = telemetry hysteria_engine
telemetry_key xray = telemetry xray_engine

abbrev pub engine_name : Engine → String
engine_name hysteria = "hysteria"
engine_name xray = "xray"

unfoldable pub telemetry_entry : Engine → Time → Entry
telemetry_entry e now = record blank {
  actor = some (word "monitor");
  source = some (engine_name e);
  subject_type = some "engine";
  subject_id = some (word (engine_name e));
  payload = object (field "engine" (string (engine_name e)) end);
  occurred_at = some now;
}

-- `telemetryFailure`; the text of the error in `data_json` is left out.
unfoldable pub telemetry_failure : Engine → Time → Db → Db
unfolding telemetry_entry
telemetry_failure e now db =
    let previous = state (telemetry_key e) db.monitors in
    let failures = suc (failures_of previous) in
    let journal =
      if leb 2 failures && not (has_status previous Monitor.Status.unavailable)
      then log EventType.engine_telemetry_unavailable (telemetry_entry e now) now
          db.registry.journal
      else db.registry.journal in
    record db {
      registry = record db.registry { journal = journal };
      monitors =
          save (telemetry_key e)
            (if leb 2 failures
              then Monitor.Status.unavailable
              else status_or previous Monitor.Status.baseline)
            none failures none now db.monitors;
    }

-- `telemetrySuccess`
unfoldable pub telemetry_success : Engine → Time → Db → Db
unfolding telemetry_entry
telemetry_success e now db =
    let journal =
      if has_status (state (telemetry_key e) db.monitors) Monitor.Status.unavailable
      then log EventType.engine_telemetry_restored (telemetry_entry e now) now db.registry.journal
      else db.registry.journal in
    record db {
      registry = record db.registry { journal = journal };
      monitors = save (telemetry_key e) Monitor.Status.available none 0 none now db.monitors;
    }

-- `for (const point of snapshot.traffic)`: the tables, and the devices that were active.
unfoldable pub record_all : Engine → List Point → Time → Db → List Key → Db × List Key
record_all e [] now db moved = (db, moved)
record_all e (p ∷ ps) now db moved =
    let (db', delta) = record_cumulative e p now db in
    record_all e ps now db' (if delta.activity then p.device_id ∷ moved else moved)

-- `TelemetrySnapshot`; the connections of a device that the engine does not list are 0.
pub record Snapshot : Type 0 where
  pub traffic : List Point
  pub connections : Key → ℕ

-- The body of the loop of `collect`: the engine's snapshot, or `none` where its call throws.
unfoldable pub collect_engine : Engine → Option Snapshot → Time → Db → Db
unfolding record_all telemetry_success telemetry_failure update_hysteria_presence
    update_xray_presence mark_unknown
collect_engine e none now db = telemetry_failure e now (mark_unknown e now db)
collect_engine e (some s) now db =
    let (db', moved) = record_all e s.traffic now db [] in
    let db'' : Db = elim e [
      | hysteria ↦ update_hysteria_presence s.connections now db'
      | xray ↦ update_xray_presence moved now db'
    ] in
    telemetry_success e now db''

unfoldable pub collect_all : List (Engine × Option Snapshot) → Time → Db → Db
collect_all [] now db = db
collect_all ((e, s) ∷ rest) now db = collect_all rest now (collect_engine e s now db)

-- `collect`
unfoldable pub collect : List (Engine × Option Snapshot) → Time → Db → Db
unfolding collect_all compact update_device_facts
collect snapshots now db =
    let db' = update_device_facts now (collect_all snapshots now db) in
    record db' { samples = compact now db'.samples }
