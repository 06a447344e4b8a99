-- ===== src/Monitoring/Collect.antt =====
-- One poll of MonitoringService: `collect` and `networkMetric`. The probe of the host is
-- an argument, with its percentages. Rates are exact fractions, where the program has doubles.
use matreshka_panel.Base.{
  ℕ, ◌+◌, ◌-◌, ◌*◌, ◌/◌, Bool, false, Option, none, some, List, [], ◌∷◌, ◌++◌, Time, if◌then◌else◌,
  ltb, leb, max, length, drop,
}
use matreshka_panel.Base.Int.{ℤ, pos, ltb_ℤ}
use matreshka_panel.Journal.Json.{object, field, number, end}
use matreshka_panel.Journal.Types.{EventType}
use matreshka_panel.Monitoring.State.{
  Service, disk, tls, Level, is_healthy, is_held, is_warning, is_critical,
}
use matreshka_panel.Monitoring.Observe.{Db, Reports, observe_service, observe_threshold}

-- `Math.round(a / b)` for b above 0: halves go up.
abbrev pub round_div : ℕ → ℕ → ℕ
round_div a b = (2 * a + b) / (2 * b)

unfoldable pub disk_level : ℕ → Level
disk_level p =
    if leb 95 p
    then is_critical
    else if leb 85 p
    then is_warning
    else if ltb p 80
    then is_healthy
    else is_held

unfoldable pub tls_level : ℤ → Level
tls_level days =
    if ltb_ℤ days (pos 7)
    then is_critical
    else if ltb_ℤ days (pos 30)
    then is_warning
    else is_healthy

abbrev pub disk_reports : Reports
disk_reports = record {
  warned = EventType.system_disk_warning;
  alarmed = EventType.system_disk_critical;
  restored = EventType.system_disk_restored;
}

abbrev pub tls_reports : Reports
tls_reports = record {
  warned = EventType.system_tls_warning;
  alarmed = EventType.system_tls_critical;
  restored = EventType.system_tls_restored;
}

-- What a poll reads of the host (`MonitoringSnapshot`); a service that is missing counts as down.
pub record Snapshot : Type 0 where
  pub services : Service → Option Bool
  pub disk_percent : ℕ
  pub tls_days : Option ℤ

abbrev pub service_up : Snapshot → Service → Bool
service_up s v = elim (s.services v) [ none ↦ false | some b ↦ b ]

unfoldable pub observe_tls : Option ℤ → Time → Db → Db
observe_tls none now db = db
observe_tls (some days) now db =
    observe_threshold tls (tls_level days) now (object (field "days" (number days) end)) tls_reports
      db

-- `for (const service of monitoredServices) this.observeService(...)`
unfoldable pub observe_services : Snapshot → Time → Db → Db
observe_services s now db =
    let db1 = observe_service Service.matreshka (service_up s Service.matreshka) now db in
    let db2 = observe_service Service.nginx (service_up s Service.nginx) now db1 in
    let db3 =
      observe_service Service.hysteria_server (service_up s Service.hysteria_server) now db2 in
    observe_service Service.xray (service_up s Service.xray) now db3

-- The observations of `collect`, in its order. `snapshot.services` has the demo overrides applied.
unfoldable pub collect : Snapshot → Time → Db → Db
collect s now db =
    let percent_data = object (field "percent" (number (pos s.disk_percent)) end) in
    observe_tls s.tls_days now (
      observe_threshold disk (disk_level s.disk_percent) now percent_data disk_reports
        (observe_services s now db))

-- `NetworkMetric`
pub record Sample : Type 0 where
  pub download : ℕ
  pub upload : ℕ
  pub sampled_at : Time

pub record Metric : Type 0 where
  pub received : ℕ
  pub transmitted : ℕ
  pub latest : Sample
  pub history : List Sample

-- `Math.max(0, Math.round((counter - before) / elapsed))` per second, `elapsed` at least 1 s
rate : ℕ → ℕ → ℕ → ℕ
rate counter before ms = round_div ((counter - before) * 1000) (max 1000 ms)

-- `history.slice(-20)`
unfoldable pub last_twenty : List Sample → List Sample
last_twenty xs = drop (length xs - 20) xs

-- `networkMetric` outside the demo
unfoldable pub network_metric : Option (ℕ × ℕ) → Option Metric → Time → Metric
unfolding rate last_twenty
network_metric current none now =
    let (received, transmitted) = elim current as (λ _. ℕ × ℕ) [ none ↦ (0, 0) | some c ↦ c ] in
    let sample : Sample = record { download = 0; upload = 0; sampled_at = now } in
    record {
      received = received;
      transmitted = transmitted;
      latest = sample;
      history = last_twenty (sample ∷ []);
    }
network_metric current (some previous) now =
    let (received, transmitted) = elim current as (λ _. ℕ × ℕ) [ none ↦ (0, 0) | some c ↦ c ] in
    let ms = now - previous.latest.sampled_at in
    let sample : Sample = record {
      download = rate received previous.received ms;
      upload = rate transmitted previous.transmitted ms;
      sampled_at = now;
    } in
    record {
      received = received;
      transmitted = transmitted;
      latest = sample;
      history = last_twenty (previous.history ++ sample ∷ []);
    }
