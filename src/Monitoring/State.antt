-- ===== src/Monitoring/State.antt =====
-- `monitor_states` (src/server/db/schema.ts) and `state`, `save` of MonitoringService.
use matreshka_panel.Base.{
  ℕ, Bool, true, false, Option, none, some, List, Time, if◌then◌else◌, get, upsert,
}
use matreshka_panel.Journal.Types.{Severity}

-- The keys of the table: `service:<name>`, `system:disk`, `system:tls`, `telemetry:<engine>`.
pub data Service : Type 0 where
  matreshka nginx hysteria_server xray : Service

pub data Engine : Type 0 where
  hysteria_engine xray_engine : Engine

pub data Monitor : Type 0 where
  service : Service → Monitor
  disk tls : Monitor
  telemetry : Engine → Monitor

abbrev pub service_eq : Service → Service → Bool
service_eq matreshka matreshka = true
service_eq nginx nginx = true
service_eq hysteria_server hysteria_server = true
service_eq xray xray = true
service_eq _ _ = false

abbrev pub engine_eq : Engine → Engine → Bool
engine_eq hysteria_engine hysteria_engine = true
engine_eq xray_engine xray_engine = true
engine_eq _ _ = false

abbrev pub monitor_eq : Monitor → Monitor → Bool
monitor_eq (service a) (service b) = service_eq a b
monitor_eq disk disk = true
monitor_eq tls tls = true
monitor_eq (telemetry a) (telemetry b) = engine_eq a b
monitor_eq _ _ = false

pub data Status : Type 0 where
  baseline available unavailable healthy warning critical : Status

abbrev pub status_eq : Status → Status → Bool
status_eq baseline baseline = true
status_eq available available = true
status_eq unavailable unavailable = true
status_eq healthy healthy = true
status_eq warning warning = true
status_eq critical critical = true
status_eq _ _ = false

-- The level that `data_json.target` names.
pub data Level : Type 0 where
  is_healthy is_held is_warning is_critical : Level

abbrev pub level_eq : Level → Level → Bool
level_eq is_healthy is_healthy = true
level_eq is_held is_held = true
level_eq is_warning is_warning = true
level_eq is_critical is_critical = true
level_eq _ _ = false

-- `MonitorRow`; of `data_json` only `target` is read back.
pub record Row : Type 0 where
  pub key : Monitor
  pub status : Status
  pub severity : Option Severity
  pub failures : ℕ
  pub target : Option Level
  pub observed_at : Time
  pub changed_at : Time

unfoldable pub state : Monitor → List Row → Option Row
unfolding get
state k rows = get (λ r. monitor_eq r.key k) rows

-- `previous?.status === status ? previous.changed_at : observedAt`
abbrev pub change_time : Option Row → Status → Time → Time
change_time none s now = now
change_time (some r) s now = if status_eq r.status s then r.changed_at else now

unfoldable pub save :
    Monitor → Status → Option Severity → ℕ → Option Level → Time → List Row → List Row
unfolding state upsert
save k s sev failures target now rows =
    let row : Row = record {
      key = k;
      status = s;
      severity = sev;
      failures = failures;
      target = target;
      observed_at = now;
      changed_at = change_time (state k rows) s now;
    } in
    upsert (λ r. monitor_eq r.key k) (λ _. row) row rows

-- `previous?.failures ?? 0`
abbrev pub failures_of : Option Row → ℕ
failures_of none = 0
failures_of (some r) = r.failures

-- `previous?.status ?? fallback`
abbrev pub status_or : Option Row → Status → Status
status_or none s = s
status_or (some r) s = r.status

-- `previous?.status === status`
abbrev pub has_status : Option Row → Status → Bool
has_status none s = false
has_status (some r) s = status_eq r.status s
