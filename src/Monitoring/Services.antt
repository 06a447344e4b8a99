-- ===== src/Monitoring/Services.antt =====
-- What the journal tells of a service over any sequence of polls.
use matreshka_panel.Base.{
  ℕ, suc, ◌≡◌, refl, ap, Bool, true, false, not, ◌||◌, Option, none, some, List, [], ◌∷◌, ◌++◌,
  Time, if◌then◌else◌, leb, arith, get-upsert_self,
}
use matreshka_panel.Journal.Types.{EventType}
use matreshka_panel.Journal.Record.{Journal, Event, Entry, log}
use matreshka_panel.Monitoring.State.{
  change_time, status_eq, Service, Monitor, service, disk, tls, telemetry, monitor_eq, Status,
  Level, Row, state, save, failures_of, has_status, status_or, unavailable, available, baseline,
}
use matreshka_panel.Monitoring.Observe.{Db, observe_service}
use matreshka_panel.Journal.Types.{Severity}

pub monitor_eq_refl : (k : Monitor) → monitor_eq k k ≡ true
monitor_eq_refl (service s) = ground arith
monitor_eq_refl disk = refl
monitor_eq_refl tls = refl
monitor_eq_refl (telemetry e) = ground arith

pub monitor_eq→eq : (a b : Monitor) → monitor_eq a b ≡ true → a ≡ b
monitor_eq→eq a b h = ground arith

abbrev pub written : Monitor → Status → Option Severity → ℕ → Option Level → Time → Option Row → Row
written k s sev n t now before = record {
  key = k;
  status = s;
  severity = sev;
  failures = n;
  target = t;
  observed_at = now;
  changed_at = change_time before s now;
}

-- What `save` wrote is what `state` reads.
pub state-save_self :
    (k : Monitor) (s : Status) (sev : Option Severity) (n : ℕ) (t : Option Level) (now : Time)
    (rows : List Row)
    → state k (save k s sev n t now rows) ≡ some (written k s sev n t now (state k rows))
unfolding state save
state-save_self k s sev n t now rows =
    get-upsert_self (λ r. monitor_eq r.key k) _ rows (monitor_eq_refl k)

-- The polls of one service, newest first: the result and its time.
unfoldable pub polled : Service → List (Bool × Time) → Db → Db
unfolding observe_service
polled s [] db = db
polled s ((ok, now) ∷ earlier) db = observe_service s ok now (polled s earlier db)

-- The independent description: a service is down from its second failure in a row until a success.
abbrev failed_last : List (Bool × Time) → Bool
failed_last [] = false
failed_last ((ok, now) ∷ earlier) = not ok

unfoldable pub is_down : List (Bool × Time) → Bool
is_down [] = false
is_down ((true, now) ∷ earlier) = false
is_down ((false, now) ∷ earlier) = failed_last earlier || is_down earlier

unfoldable pub failures_in_row : List (Bool × Time) → ℕ
failures_in_row [] = 0
failures_in_row ((true, now) ∷ earlier) = 0
failures_in_row ((false, now) ∷ earlier) = suc (failures_in_row earlier)

-- One event at each change of `is_down`, newest first.
unfoldable pub changes : List (Bool × Time) → List EventType
changes [] = []
changes (p ∷ earlier) =
    let rest = changes earlier in
    if is_down (p ∷ earlier)
    then if is_down earlier then rest else EventType.service_unavailable ∷ rest
    else if is_down earlier
    then EventType.service_restored ∷ rest
    else rest

unfoldable pub types : List Event → List EventType
types [] = []
types (e ∷ es) = e.type ∷ types es

record Tracks (s : Service) (h : List (Bool × Time)) (start db : Db) : Type 0 where
  failures : failures_of (state (service s) db.monitors) ≡ failures_in_row h
  status : has_status (state (service s) db.monitors) unavailable ≡ is_down h
  told : types db.journal.events ≡ changes h ++ types start.journal.events

pub types-log :
    (t : EventType) (e : Entry) (now : Time) (j : Journal)
    → types (log t e now j).events ≡ t ∷ types j.events
unfolding log types
types-log t e now j = refl

failed_last-failures : (h : List (Bool × Time)) → leb 2 (suc (failures_in_row h)) ≡ failed_last h
unfolding failures_in_row
failed_last-failures [] = refl
failed_last-failures ((true, now) ∷ h) = refl
failed_last-failures ((false, now) ∷ h) = ground arith

step-up :
    (s : Service) (now : Time) (h : List (Bool × Time)) (start db : Db)
    → Tracks s h start db
    → Tracks s ((true, now) ∷ h) start (observe_service s true now db)
unfolding observe_service is_down failures_in_row changes
step-up s now h start db t =
    let e = state-save_self (service s) available none 0 none now db.monitors in
    record { failures = rw e; status = rw e; told = grind (arith, types-log) }

has_status-status_or :
    (o : Option Row) → status_eq (status_or o baseline) unavailable ≡ has_status o unavailable
has_status-status_or none = refl
has_status-status_or (some r) = refl

step-down :
    (s : Service) (now : Time) (h : List (Bool × Time)) (start db : Db)
    → Tracks s h start db
    → Tracks s ((false, now) ∷ h) start (observe_service s false now db)
unfolding observe_service is_down failures_in_row changes
step-down s now h start db t =
    let failures = suc (failures_of (state (service s) db.monitors)) in
    let e =
      state-save_self (service s)
        (if leb 2 failures then unavailable else status_or (state (service s) db.monitors) baseline)
        (some Severity.error) failures none now db.monitors in
    record {
      failures = rw e (ap suc t.failures);
      status =
          rw (e, ← t.status, ← failed_last-failures h, ← t.failures)
            (ground (arith, has_status-status_or (state (service s) db.monitors)));
      told = grind (arith, types-log, failed_last-failures h);
    }

polled-Tracks :
    (s : Service) (h : List (Bool × Time)) (db : Db)
    → state (service s) db.monitors ≡ none
    → Tracks s h db (polled s h db)
unfolding polled is_down failures_in_row changes
polled-Tracks s [] db new = record { failures = rw new; status = rw new; told = refl }
polled-Tracks s ((true, now) ∷ h) db new =
    step-up s now h db (polled s h db) (polled-Tracks s h db new)
polled-Tracks s ((false, now) ∷ h) db new =
    step-down s now h db (polled s h db) (polled-Tracks s h db new)

-- A service that has no row yet is polled any number of times. Then its row is `unavailable` exactly
-- when it failed twice in a row with no success since, the row counts the failures since the last
-- success, and the journal has gained one event for each change between up and down, in order: at
-- the second failure in a row `service.unavailable`, at the first success after it
-- `service.restored`, and nothing else.
pub polled_reports_changes :
    (s : Service) (h : List (Bool × Time)) (db : Db)
    → state (service s) db.monitors ≡ none
    → let after = polled s h db in
      (has_status (state (service s) after.monitors) unavailable ≡ is_down h)
      × (failures_of (state (service s) after.monitors) ≡ failures_in_row h)
      × (types after.journal.events ≡ changes h ++ types db.journal.events)
polled_reports_changes s h db new =
    let t = polled-Tracks s h db new in (t.status, t.failures, t.told)
