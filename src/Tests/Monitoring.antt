-- ===== src/Tests/Monitoring.antt =====
-- Monitoring and the journal on concrete polls and values.
use matreshka_panel.Base.{
  ◌≤◌, ◌≡◌, refl, Bool, true, false, Option, none, some, List, [], ◌∷◌, ◌++◌, Time, length, last?,
  if◌then◌else◌,
}
use matreshka_panel.Journal.Json.{Json, object, field, string, end}
use matreshka_panel.Journal.Sanitize.{sanitize, IsClean}
use matreshka_panel.Journal.Sanitize.Laws.{
  at_path, some_sensitive, sanitized, at_path-sanitize, sanitize-IsClean,
}
use matreshka_panel.Journal.Record.{empty}
use matreshka_panel.Monitoring.State.{
  Service, service, disk, state, has_status, failures_of, unavailable, warning, critical, Level,
  is_warning, is_critical, level_eq,
}
use matreshka_panel.Monitoring.Observe.{Db, observe_service}
use matreshka_panel.Monitoring.Collect.{
  Snapshot, service_up, collect, disk_reports, network_metric, Metric, Sample,
}
use matreshka_panel.Monitoring.Services.{
  polled, is_down, failures_in_row, changes, types, polled_reports_changes,
}
use matreshka_panel.Monitoring.Thresholds.{
  observed, told_level, level_changes, observed_reports_changes,
}
use matreshka_panel.Monitoring.Polls.{collect_separates, network_history_bounded}

abbrev no_rows : Db
no_rows = record { monitors = []; journal = empty }

-- Down for two polls, then up again; newest first.
abbrev outage : List (Bool × Time)
outage = (true, 180) ∷ (false, 120) ∷ (false, 60) ∷ []

outage_told : length (changes outage) ≡ 2
unfolding changes is_down failures_in_row
outage_told = refl

polled_reports_changes_example :
    let after = polled Service.xray outage no_rows in
    (has_status (state (service Service.xray) after.monitors) unavailable ≡ is_down outage)
    × (failures_of (state (service Service.xray) after.monitors) ≡ failures_in_row outage)
    × (types after.journal.events ≡ changes outage ++ types no_rows.journal.events)
unfolding state
polled_reports_changes_example = polled_reports_changes Service.xray outage no_rows refl

abbrev fills_up : List (Level × Time × Json)
fills_up =
    (is_critical, 240, object end)
    ∷ (is_critical, 180, object end)
    ∷ (is_warning, 120, object end)
    ∷ (is_warning, 60, object end)
    ∷ []

fills_up_told : length (level_changes disk_reports fills_up) ≡ 2
unfolding level_changes told_level
fills_up_told = refl

observed_reports_changes_example :
    let after = observed disk disk_reports fills_up no_rows in
    (has_status (state disk after.monitors) warning ≡ level_eq (told_level fills_up) is_warning)
    × (has_status (state disk after.monitors) critical ≡ level_eq (told_level fills_up) is_critical)
    × (types after.journal.events
        ≡ level_changes disk_reports fills_up ++ types no_rows.journal.events)
unfolding state
observed_reports_changes_example = observed_reports_changes disk disk_reports fills_up no_rows refl

abbrev nginx_down : Snapshot
nginx_down = record {
  services = λ s. elim s as (λ _. Option Bool) [ Service.nginx ↦ some false | _ ↦ some true ];
  disk_percent = 40;
  tls_days = none;
}

collect_separates_example :
    state (service Service.nginx) (collect nginx_down 60 no_rows).monitors
    ≡ state
        (service Service.nginx)
        (observe_service Service.nginx (service_up nginx_down Service.nginx) 60 no_rows).monitors
collect_separates_example = collect_separates nginx_down 60 no_rows Service.nginx

abbrev first_sample : Sample
first_sample = record { download = 0; upload = 0; sampled_at = 1000 }

abbrev first_metric : Metric
first_metric = record {
  received = 500;
  transmitted = 100;
  latest = first_sample;
  history = first_sample ∷ [];
}

network_history_bounded_example :
    let m = network_metric (some (2500, 300)) (some first_metric) 3000 in
    (length m.history ≤ 20) × (last? m.history ≡ some m.latest)
network_history_bounded_example =
    network_history_bounded (some (2500, 300)) (some first_metric) 3000

abbrev login : Json
login = object (
    field "browser" (string "Firefox")
      (field "session" (object (field "apiToken" (string "t1") end)) end))

at_path-sanitize_example : at_path ("session" ∷ "apiToken" ∷ []) (sanitize login) ≡ (
    if some_sensitive ("session" ∷ "apiToken" ∷ [])
    then none
    else sanitized (at_path ("session" ∷ "apiToken" ∷ []) login))
at_path-sanitize_example = at_path-sanitize ("session" ∷ "apiToken" ∷ []) login

sanitize-IsClean_example : IsClean (sanitize login) × (sanitize (sanitize login) ≡ sanitize login)
sanitize-IsClean_example = sanitize-IsClean login
