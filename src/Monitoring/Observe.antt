-- ===== src/Monitoring/Observe.antt =====
-- `observeService` and `observeThreshold`: an incident is told after two bad polls in a row, a
-- recovery after one good poll.
use matreshka_panel.Base.{
  suc, Bool, true, false, not, ◌&&◌, ◌||◌, Option, none, some, List, Time, String, if◌then◌else◌,
  leb,
}
use matreshka_panel.Journal.Json.{Json, object, field, string, end}
use matreshka_panel.Journal.Types.{EventType, Severity}
use matreshka_panel.Journal.Record.{Journal, Entry, blank, log, word}
use matreshka_panel.Monitoring.State.{
  Service, Monitor, service, Status, baseline, available, unavailable, healthy, warning, critical,
  Level, is_healthy, is_held, is_warning, is_critical, level_eq, Row, state, save, failures_of,
  status_or, has_status,
}

-- The tables that monitoring reads and writes.
pub record Db : Type 0 where
  pub monitors : List Row
  pub journal : Journal

abbrev pub service_name : Service → String
service_name Service.matreshka = "matreshka"
service_name Service.nginx = "nginx"
service_name Service.hysteria_server = "hysteria-server"
service_name Service.xray = "xray"

-- The event of `observeService`.
service_entry : Service → Time → Entry
service_entry s now = record blank {
  actor = some (word "monitor");
  source = some (service_name s);
  subject_type = some "service";
  subject_id = some (word (service_name s));
  payload = object (field "service" (string (service_name s)) end);
  occurred_at = some now;
}

-- `observeService`
unfoldable pub observe_service : Service → Bool → Time → Db → Db
unfolding service_entry
observe_service s true now db =
    let previous = state (service s) db.monitors in
    let entry = service_entry s now in
    record db {
      monitors = save (service s) available none 0 none now db.monitors;
      journal =
          if has_status previous unavailable
          then log EventType.service_restored entry now db.journal
          else db.journal;
    }
observe_service s false now db =
    let previous = state (service s) db.monitors in
    let failures = suc (failures_of previous) in
    let entry = service_entry s now in
    record db {
      monitors =
          save (service s) (if leb 2 failures then unavailable else status_or previous baseline)
            (some Severity.error) failures none now db.monitors;
      journal =
          if leb 2 failures && not (has_status previous unavailable)
          then log EventType.service_unavailable entry now db.journal
          else db.journal;
    }

-- The events that a threshold reports.
pub record Reports : Type 0 where
  pub warned : EventType
  pub alarmed : EventType
  pub restored : EventType

abbrev pub level_status : Level → Status
level_status is_healthy = healthy
level_status is_held = healthy
level_status is_warning = warning
level_status is_critical = critical

abbrev pub level_severity : Level → Severity
level_severity is_critical = Severity.critical
level_severity _ = Severity.warning

abbrev pub report_of : Reports → Level → EventType
report_of r is_critical = r.alarmed
report_of r _ = r.warned

abbrev pub severity_of : Option Row → Option Severity
severity_of none = none
severity_of (some r) = r.severity

abbrev pub target_is : Option Row → Level → Bool
target_is none l = false
target_is (some r) l = elim r.target [ none ↦ false | some t ↦ level_eq t l ]

threshold_entry : Option Severity → Json → Time → Entry
threshold_entry sev payload now = record blank {
  actor = some (word "monitor");
  severity = sev;
  payload = payload;
  occurred_at = some now;
}

-- The part of `observeThreshold` for a warning or critical level.
unfoldable pub observe_bad : Monitor → Level → Time → Json → Reports → Db → Db
unfolding threshold_entry
observe_bad k level now payload reports db =
    let previous = state k db.monitors in
    let failures = if target_is previous level then suc (failures_of previous) else 1 in
    let entry = threshold_entry (some (level_severity level)) payload now in
    record db {
      monitors =
          save k (if leb 2 failures then level_status level else status_or previous baseline)
            (some (level_severity level)) failures (some level) now db.monitors;
      journal =
          if leb 2 failures && not (has_status previous (level_status level))
          then log (report_of reports level) entry now db.journal
          else db.journal;
    }

-- `observeThreshold`
unfoldable pub observe_threshold : Monitor → Level → Time → Json → Reports → Db → Db
unfolding threshold_entry observe_bad
observe_threshold k is_held now payload reports db =
    let previous = state k db.monitors in
    record db {
      monitors =
          save k (status_or previous healthy) (severity_of previous) (failures_of previous) none now
            db.monitors;
    }
observe_threshold k is_healthy now payload reports db =
    let previous = state k db.monitors in
    let entry = threshold_entry none payload now in
    record db {
      monitors = save k healthy none 0 none now db.monitors;
      journal =
          if has_status previous warning || has_status previous critical
          then log reports.restored entry now db.journal
          else db.journal;
    }
observe_threshold k is_warning now payload reports db =
    observe_bad k is_warning now payload reports db
observe_threshold k is_critical now payload reports db =
    observe_bad k is_critical now payload reports db
