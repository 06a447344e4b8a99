-- ===== src/Monitoring/Thresholds.antt =====
-- What the journal tells of a threshold (disk, TLS) over any sequence of levels.
use matreshka_panel.Base.{
  suc, ◌≡◌, refl, Bool, true, false, ◌≤◌, Option, none, some, List, [], ◌∷◌, ◌++◌, Time,
  if◌then◌else◌, arith, leb, ◌∙◌,
}
use matreshka_panel.Journal.Json.{Json}
use matreshka_panel.Journal.Types.{EventType, Severity}
use matreshka_panel.Monitoring.State.{
  Monitor, Level, is_healthy, is_held, is_warning, is_critical, level_eq, Row, state, failures_of,
  has_status, Status, warning, critical, status_eq, status_or, baseline, healthy,
}
use matreshka_panel.Monitoring.Observe.{Db, Reports, observe_threshold, target_is, severity_of}
use matreshka_panel.Monitoring.Services.{types, types-log, state-save_self}

-- The observations of one key, newest first: the level, its time and the data of the event.
unfoldable pub observed : Monitor → Reports → List (Level × Time × Json) → Db → Db
unfolding observe_threshold
observed k r [] db = db
observed k r ((l, now, d) ∷ earlier) db = observe_threshold k l now d r (observed k r earlier db)

abbrev last_is : Level → List (Level × Time × Json) → Bool
last_is l [] = false
last_is l ((m, now, d) ∷ earlier) = level_eq m l

-- The independent description: the level that is told. A bad level is told from its second
-- observation in a row on, a healthy one at once, and a held one changes nothing.
unfoldable pub told_level : List (Level × Time × Json) → Level
told_level [] = is_healthy
told_level ((is_healthy, now, d) ∷ earlier) = is_healthy
told_level ((is_held, now, d) ∷ earlier) = told_level earlier
told_level ((is_warning, now, d) ∷ earlier) =
    let before = told_level earlier in if last_is is_warning earlier then is_warning else before
told_level ((is_critical, now, d) ∷ earlier) =
    let before = told_level earlier in if last_is is_critical earlier then is_critical else before

abbrev pub reported : Reports → Level → EventType
reported r is_warning = r.warned
reported r is_critical = r.alarmed
reported r _ = r.restored

-- One event at each change of the told level, newest first.
unfoldable pub level_changes : Reports → List (Level × Time × Json) → List EventType
level_changes r [] = []
level_changes r (o ∷ earlier) =
    let rest = level_changes r earlier in
    if level_eq (told_level (o ∷ earlier)) (told_level earlier)
    then rest
    else reported r (told_level (o ∷ earlier)) ∷ rest

record Tracks (k : Monitor) (r : Reports) (h : List (Level × Time × Json)) (start db : Db)
    : Type 0 where
  warned : has_status (state k db.monitors) warning ≡ level_eq (told_level h) is_warning
  alarmed : has_status (state k db.monitors) critical ≡ level_eq (told_level h) is_critical
  repeated_warning : target_is (state k db.monitors) is_warning ≡ last_is is_warning h
  repeated_critical : target_is (state k db.monitors) is_critical ≡ last_is is_critical h
  counted : (last_is is_warning h ≡ true) → 1 ≤ failures_of (state k db.monitors)
  counted' : (last_is is_critical h ≡ true) → 1 ≤ failures_of (state k db.monitors)
  told : types db.journal.events ≡ level_changes r h ++ types start.journal.events
  never_held : level_eq (told_level h) is_held ≡ false

has_status-status_or :
    (o : Option Row) (d s : Status)
    → status_eq d s ≡ false
    → status_eq (status_or o d) s ≡ has_status o s
has_status-status_or none d s h = h
has_status-status_or (some r) d s h = refl

abbrev Step : Monitor → Reports → List (Level × Time × Json) → Level → Time → Json → Type 0
Step k r h l now d =
    (start db : Db)
    → Tracks k r h start db
    → Tracks k r ((l, now, d) ∷ h) start (observe_threshold k l now d r db)

Step-healthy :
    (k : Monitor) (r : Reports) (h : List (Level × Time × Json)) (now : Time) (d : Json)
    → Step k r h is_healthy now d
unfolding observe_threshold told_level level_changes
Step-healthy k r h now d start db t =
    let e = state-save_self k healthy none 0 none now db.monitors in
    record {
      warned = rw e;
      alarmed = rw e;
      repeated_warning = rw e;
      repeated_critical = rw e;
      counted = λ q. cc;
      counted' = λ q. cc;
      told = grind (arith, types-log);
      never_held = refl;
    }

Step-held :
    (k : Monitor) (r : Reports) (h : List (Level × Time × Json)) (now : Time) (d : Json)
    → Step k r h is_held now d
unfolding observe_threshold told_level level_changes
Step-held k r h now d start db t =
    let previous = state k db.monitors in
    let e =
      state-save_self k (status_or previous healthy) (severity_of previous) (failures_of previous)
        none now db.monitors in
    record {
      warned = rw e (has_status-status_or previous healthy warning refl ∙ t.warned);
      alarmed = rw e (has_status-status_or previous healthy critical refl ∙ t.alarmed);
      repeated_warning = rw e;
      repeated_critical = rw e;
      counted = λ q. cc;
      counted' = λ q. cc;
      told = ground (arith, t.told);
      never_held = t.never_held;
    }

Step-warning :
    (k : Monitor) (r : Reports) (h : List (Level × Time × Json)) (now : Time) (d : Json)
    → Step k r h is_warning now d
unfolding observe_threshold told_level level_changes
Step-warning k r h now d start db t =
    let previous = state k db.monitors in
    let failures = if target_is previous is_warning then suc (failures_of previous) else 1 in
    let e =
      state-save_self k (if leb 2 failures then warning else status_or previous baseline)
        (some Severity.warning) failures (some is_warning) now db.monitors in
    record {
      warned = rw e (ground (arith, has_status-status_or previous baseline warning refl));
      alarmed = rw e (ground (arith, has_status-status_or previous baseline critical refl));
      repeated_warning = rw e;
      repeated_critical = rw e;
      counted = λ q. rw e (ground arith);
      counted' = λ q. cc;
      told = grind (arith, types-log);
      never_held = ground arith;
    }

Step-critical :
    (k : Monitor) (r : Reports) (h : List (Level × Time × Json)) (now : Time) (d : Json)
    → Step k r h is_critical now d
unfolding observe_threshold told_level level_changes
Step-critical k r h now d start db t =
    let previous = state k db.monitors in
    let failures = if target_is previous is_critical then suc (failures_of previous) else 1 in
    let e =
      state-save_self k (if leb 2 failures then critical else status_or previous baseline)
        (some Severity.critical) failures (some is_critical) now db.monitors in
    record {
      warned = rw e (ground (arith, has_status-status_or previous baseline warning refl));
      alarmed = rw e (ground (arith, has_status-status_or previous baseline critical refl));
      repeated_warning = rw e;
      repeated_critical = rw e;
      counted = λ q. cc;
      counted' = λ q. rw e (ground arith);
      told = grind (arith, types-log);
      never_held = ground arith;
    }

observed-Tracks :
    (k : Monitor) (r : Reports) (h : List (Level × Time × Json)) (db : Db)
    → state k db.monitors ≡ none
    → Tracks k r h db (observed k r h db)
unfolding observed told_level level_changes
observed-Tracks k r [] db new = record {
  warned = rw new;
  alarmed = rw new;
  repeated_warning = rw new;
  repeated_critical = rw new;
  counted = λ q. cc;
  counted' = λ q. cc;
  told = refl;
  never_held = refl;
}
observed-Tracks k r ((is_healthy, now, d) ∷ h) db new =
    Step-healthy k r h now d db (observed k r h db) (observed-Tracks k r h db new)
observed-Tracks k r ((is_held, now, d) ∷ h) db new =
    Step-held k r h now d db (observed k r h db) (observed-Tracks k r h db new)
observed-Tracks k r ((is_warning, now, d) ∷ h) db new =
    Step-warning k r h now d db (observed k r h db) (observed-Tracks k r h db new)
observed-Tracks k r ((is_critical, now, d) ∷ h) db new =
    Step-critical k r h now d db (observed k r h db) (observed-Tracks k r h db new)

-- A key without a row is observed at any sequence of levels. Then its row says `warning` or
-- `critical` exactly when that is the told level (the last level observed twice in a row, with no
-- healthy one since), and the journal has gained exactly one event for each change of the told
-- level, in order: the warning, the alarm or the recovery that the new level calls for.
pub observed_reports_changes :
    (k : Monitor) (r : Reports) (h : List (Level × Time × Json)) (db : Db)
    → state k db.monitors ≡ none
    → let after = observed k r h db in
      (has_status (state k after.monitors) warning ≡ level_eq (told_level h) is_warning)
      × (has_status (state k after.monitors) critical ≡ level_eq (told_level h) is_critical)
      × (types after.journal.events ≡ level_changes r h ++ types db.journal.events)
observed_reports_changes k r h db new =
    let t = observed-Tracks k r h db new in (t.warned, t.alarmed, t.told)
