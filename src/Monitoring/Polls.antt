-- ===== src/Monitoring/Polls.antt =====
-- What one whole poll does: each key is observed by itself, and the network history stays short.
use matreshka_panel.Base.{
  ℕ, zero, suc, ◌-◌, ◌≤◌, ◌<◌, ◌≡◌, refl, ◌∙◌, Bool, true, false, Option, none, some, List, [], ◌∷◌,
  ◌++◌, Time, arith, get-upsert_ne, length, length-append, length-drop, drop, last?,
}
use matreshka_panel.Base.Int.{ℤ}
use matreshka_panel.Journal.Types.{Severity}
use matreshka_panel.Journal.Json.{Json}
use matreshka_panel.Monitoring.State.{
  Service, Monitor, service, disk, tls, monitor_eq, Status, Level, Row, available, state, save,
}
use matreshka_panel.Monitoring.Observe.{Db, Reports, observe_service, observe_threshold}
use matreshka_panel.Monitoring.Services.{monitor_eq→eq, state-save_self}
use matreshka_panel.Monitoring.Collect.{
  Snapshot, service_up, observe_services, observe_tls, disk_level, collect, Sample, Metric,
  network_metric, last_twenty,
}

state-save_ne :
    (k j : Monitor) (s : Status) (sev : Option Severity) (n : ℕ) (t : Option Level) (now : Time)
    (rows : List Row)
    → monitor_eq k j ≡ false
    → state j (save k s sev n t now rows) ≡ state j rows
unfolding state save
state-save_ne k j s sev n t now rows h =
    get-upsert_ne (λ r. monitor_eq r.key k) (λ r. monitor_eq r.key j) _ _ rows h
      (λ r e. (rw (monitor_eq→eq r.key k e) h, h))

state-observe_service_ne :
    (v : Service) (ok : Bool) (now : Time) (db : Db) (j : Monitor)
    → monitor_eq (service v) j ≡ false
    → state j (observe_service v ok now db).monitors ≡ state j db.monitors
unfolding observe_service
state-observe_service_ne v true now db j h = state-save_ne (service v) j _ _ _ _ _ db.monitors h
state-observe_service_ne v false now db j h = state-save_ne (service v) j _ _ _ _ _ db.monitors h

state-observe_threshold_ne :
    (k : Monitor) (l : Level) (now : Time) (d : Json) (r : Reports) (db : Db) (j : Monitor)
    → monitor_eq k j ≡ false
    → state j (observe_threshold k l now d r db).monitors ≡ state j db.monitors
unfolding observe_threshold
state-observe_threshold_ne k Level.is_held now d r db j h =
    state-save_ne k j _ _ _ _ _ db.monitors h
state-observe_threshold_ne k Level.is_healthy now d r db j h =
    state-save_ne k j _ _ _ _ _ db.monitors h
state-observe_threshold_ne k Level.is_warning now d r db j h =
    state-save_ne k j _ _ _ _ _ db.monitors h
state-observe_threshold_ne k Level.is_critical now d r db j h =
    state-save_ne k j _ _ _ _ _ db.monitors h

-- The row that an observation leaves depends on the row before it alone.
state-observe_service_cong :
    (v : Service) (ok : Bool) (now : Time) (db db' : Db)
    → state (service v) db.monitors ≡ state (service v) db'.monitors
    → state (service v) (observe_service v ok now db).monitors
      ≡ state (service v) (observe_service v ok now db').monitors
unfolding observe_service
state-observe_service_cong v true now db db' h = rw (
  state-save_self (service v) available none 0 none now db.monitors,
  state-save_self (service v) available none 0 none now db'.monitors,
  h,
)
state-observe_service_cong v false now db db' h = rw (
  state-save_self (service v) _ _ _ _ now db.monitors,
  state-save_self (service v) _ _ _ _ now db'.monitors,
  h,
)

state-observe_tls_ne :
    (days : Option ℤ) (now : Time) (db : Db) (v : Service)
    → state (service v) (observe_tls days now db).monitors ≡ state (service v) db.monitors
unfolding observe_tls
state-observe_tls_ne none now db v = refl
state-observe_tls_ne (some days) now db v =
    state-observe_threshold_ne tls _ now _ _ db (service v) refl

services_separate :
    (s : Snapshot) (now : Time) (db : Db) (v : Service)
    → state (service v) (observe_services s now db).monitors
      ≡ state (service v) (observe_service v (service_up s v) now db).monitors
unfolding observe_services
services_separate s now db Service.matreshka =
    state-observe_service_ne Service.xray _ now _ (service Service.matreshka) refl
    ∙ state-observe_service_ne Service.hysteria_server _ now _ (service Service.matreshka) refl
    ∙ state-observe_service_ne Service.nginx _ now _ (service Service.matreshka) refl
services_separate s now db Service.nginx =
    state-observe_service_ne Service.xray _ now _ (service Service.nginx) refl
    ∙ state-observe_service_ne Service.hysteria_server _ now _ (service Service.nginx) refl
    ∙ state-observe_service_cong Service.nginx _ now _ db
        (state-observe_service_ne Service.matreshka _ now db (service Service.nginx) refl)
services_separate s now db Service.hysteria_server =
    state-observe_service_ne Service.xray _ now _ (service Service.hysteria_server) refl
    ∙ state-observe_service_cong Service.hysteria_server _ now _ db (
        state-observe_service_ne Service.nginx _ now _ (service Service.hysteria_server) refl
        ∙ state-observe_service_ne Service.matreshka _ now db (service Service.hysteria_server)
            refl)
services_separate s now db Service.xray = state-observe_service_cong Service.xray _ now _ db (
    state-observe_service_ne Service.hysteria_server _ now _ (service Service.xray) refl
    ∙ state-observe_service_ne Service.nginx _ now _ (service Service.xray) refl
    ∙ state-observe_service_ne Service.matreshka _ now db (service Service.xray) refl)

-- A poll treats each service as if it were the only one: for every monitored service, the row
-- after the whole `collect` is the row that observing this service alone would have left.
pub collect_separates :
    (s : Snapshot) (now : Time) (db : Db) (v : Service)
    → state (service v) (collect s now db).monitors
      ≡ state (service v) (observe_service v (service_up s v) now db).monitors
unfolding collect
collect_separates s now db v =
    rw
      (
        state-observe_tls_ne s.tls_days,
        state-observe_threshold_ne disk (disk_level s.disk_percent) now _ _ _ (service v) refl,
      )
      (services_separate s now db v)

last-append : (xs : List Sample) (x : Sample) → last? (xs ++ x ∷ []) ≡ some x
last-append [] x = refl
last-append (y ∷ []) x = refl
last-append (y ∷ z ∷ xs) x = last-append (z ∷ xs) x

last-drop : (n : ℕ) (xs : List Sample) → n < length xs → last? (drop n xs) ≡ last? xs
last-drop zero xs h = refl
last-drop (suc n) [] h = absurd (omega arith)
last-drop (suc n) (x ∷ []) h = absurd (omega arith)
last-drop (suc n) (x ∷ y ∷ xs) h = last-drop n (y ∷ xs) (omega arith)

last_twenty-append :
    (xs : List Sample) (x : Sample)
    → (length (last_twenty (xs ++ x ∷ [])) ≤ 20) × (last? (last_twenty (xs ++ x ∷ [])) ≡ some x)
unfolding last_twenty
last_twenty-append xs x =
    let long = xs ++ x ∷ [] in
    (
      omega (arith, length-drop (length long - 20) long),
      last-drop (length long - 20) long (omega (arith, length-append xs (x ∷ [])))
          ∙ last-append xs x,
    )

-- After any reading the network history holds at most 20 samples, and its newest one is the sample
-- just taken.
pub network_history_bounded :
    (current : Option (ℕ × ℕ)) (previous : Option Metric) (now : Time)
    → let m = network_metric current previous now in
      (length m.history ≤ 20) × (last? m.history ≡ some m.latest)
unfolding network_metric
network_history_bounded current none now = last_twenty-append [] _
network_history_bounded current (some p) now = last_twenty-append p.history _
