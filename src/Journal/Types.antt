-- ===== src/Journal/Types.antt =====
-- The event types of src/server/services/journal.ts with their category, kind, severity, outcome
-- and importance. The Russian titles and descriptions are presentation and are left out.
use matreshka_panel.Base.{Bool, true, false, String}

pub data Category : Type 0 where
  people routes engines maintenance security system : Category

pub data Kind : Type 0 where
  is_change is_activity is_incident : Kind

pub data Severity : Type 0 where
  info warning error critical : Severity

-- `null` is `none`
pub data Outcome : Type 0 where
  was_started was_succeeded was_failed was_recovered : Outcome

-- The keys of `definitions`; `.` is `_`.
pub data EventType : Type 0 where
  person_created person_updated person_archived device_created device_updated device_activated
        device_revoked device_profile_fetched device_first_seen device_offline_long device_returned
        routes_published routes_rolled_back routes_neutralized engine_order_changed
        engine_config_applied engine_config_rolled_back engine_telemetry_unavailable
        engine_telemetry_restored backup_started backup_created backup_failed
        service_restart_started service_restarted service_restart_failed service_start_started
        service_started service_start_failed service_stop_started service_stopped
        service_stop_failed nginx_reload_started nginx_reloaded nginx_reload_failed
        engine_update_started engine_updated engine_update_failed app_update_started app_updated
        app_update_failed auth_login_succeeded passkey_registered passkey_revoked session_revoked
        sessions_revoked_others token_created token_revoked bootstrap_reset service_unavailable
        service_restored system_disk_warning system_disk_critical system_disk_restored
        system_tls_warning system_tls_critical system_tls_restored :
      EventType

pub record Definition : Type 0 where
  pub category : Category
  pub kind : Kind
  pub severity : Severity
  pub outcome : Outcome
  -- `definition.important ?? false`
  pub important : Bool

unfoldable pub change : Category → Bool → Definition
change c i = record {
  category = c;
  kind = is_change;
  severity = info;
  outcome = was_succeeded;
  important = i;
}

unfoldable pub activity : Category → Definition
activity c = record {
  category = c;
  kind = is_activity;
  severity = info;
  outcome = was_succeeded;
  important = false;
}

unfoldable pub incident : Category → Severity → Bool → Definition
incident c s i = record {
  category = c;
  kind = is_incident;
  severity = s;
  outcome = was_failed;
  important = i;
}

unfoldable pub recovered : Category → Definition
recovered c = record {
  category = c;
  kind = is_incident;
  severity = info;
  outcome = was_recovered;
  important = false;
}

unfoldable pub started : Category → Bool → Definition
started c i = record {
  category = c;
  kind = is_activity;
  severity = info;
  outcome = was_started;
  important = i;
}

unfoldable pub succeeded : Category → Definition
succeeded c = record {
  category = c;
  kind = is_activity;
  severity = info;
  outcome = was_succeeded;
  important = false;
}

unfoldable pub failed : Category → Definition
failed c = record {
  category = c;
  kind = is_incident;
  severity = error;
  outcome = was_failed;
  important = true;
}

unfoldable pub definitions : EventType → Definition
unfolding change activity incident recovered started succeeded failed
definitions person_created = change people false
definitions person_updated = change people false
definitions person_archived = change people false
definitions device_created = change people false
definitions device_updated = change people false
definitions device_activated = change people false
definitions device_revoked = change people true
definitions device_profile_fetched = activity people
definitions device_first_seen = activity people
definitions device_offline_long = incident people warning true
definitions device_returned = recovered people
definitions routes_published = change routes false
definitions routes_rolled_back = change routes true
definitions routes_neutralized = change routes false
definitions engine_order_changed = change engines false
definitions engine_config_applied = change engines false
definitions engine_config_rolled_back = change engines true
definitions engine_telemetry_unavailable = incident engines warning true
definitions engine_telemetry_restored = recovered engines
definitions backup_started = started maintenance false
definitions backup_created = succeeded maintenance
definitions backup_failed = failed maintenance
definitions service_restart_started = started maintenance false
definitions service_restarted = succeeded maintenance
definitions service_restart_failed = failed maintenance
definitions service_start_started = started maintenance false
definitions service_started = succeeded maintenance
definitions service_start_failed = failed maintenance
definitions service_stop_started = started maintenance false
definitions service_stopped = succeeded maintenance
definitions service_stop_failed = failed maintenance
definitions nginx_reload_started = started maintenance false
definitions nginx_reloaded = succeeded maintenance
definitions nginx_reload_failed = failed maintenance
definitions engine_update_started = started maintenance false
definitions engine_updated = succeeded maintenance
definitions engine_update_failed = failed maintenance
definitions app_update_started = started maintenance false
definitions app_updated = succeeded maintenance
definitions app_update_failed = failed maintenance
definitions auth_login_succeeded = activity security
definitions passkey_registered = change security false
definitions passkey_revoked = change security true
definitions session_revoked = change security false
definitions sessions_revoked_others = change security false
definitions token_created = change security true
definitions token_revoked = change security true
definitions bootstrap_reset = incident security critical true
definitions service_unavailable = incident system error true
definitions service_restored = recovered system
definitions system_disk_warning = incident system warning true
definitions system_disk_critical = incident system critical true
definitions system_disk_restored = recovered system
definitions system_tls_warning = incident system warning true
definitions system_tls_critical = incident system critical true
definitions system_tls_restored = recovered system

-- `type.split(".")[0]`, the source of an entry that names none
unfoldable pub source_of : EventType → String
source_of person_created = "person"
source_of person_updated = "person"
source_of person_archived = "person"
source_of device_created = "device"
source_of device_updated = "device"
source_of device_activated = "device"
source_of device_revoked = "device"
source_of device_profile_fetched = "device"
source_of device_first_seen = "device"
source_of device_offline_long = "device"
source_of device_returned = "device"
source_of routes_published = "routes"
source_of routes_rolled_back = "routes"
source_of routes_neutralized = "routes"
source_of engine_order_changed = "engine"
source_of engine_config_applied = "engine"
source_of engine_config_rolled_back = "engine"
source_of engine_telemetry_unavailable = "engine"
source_of engine_telemetry_restored = "engine"
source_of backup_started = "backup"
source_of backup_created = "backup"
source_of backup_failed = "backup"
source_of service_restart_started = "service"
source_of service_restarted = "service"
source_of service_restart_failed = "service"
source_of service_start_started = "service"
source_of service_started = "service"
source_of service_start_failed = "service"
source_of service_stop_started = "service"
source_of service_stopped = "service"
source_of service_stop_failed = "service"
source_of nginx_reload_started = "nginx"
source_of nginx_reloaded = "nginx"
source_of nginx_reload_failed = "nginx"
source_of engine_update_started = "engine"
source_of engine_updated = "engine"
source_of engine_update_failed = "engine"
source_of app_update_started = "app"
source_of app_updated = "app"
source_of app_update_failed = "app"
source_of auth_login_succeeded = "auth"
source_of passkey_registered = "passkey"
source_of passkey_revoked = "passkey"
source_of session_revoked = "session"
source_of sessions_revoked_others = "sessions"
source_of token_created = "token"
source_of token_revoked = "token"
source_of bootstrap_reset = "bootstrap"
source_of service_unavailable = "service"
source_of service_restored = "service"
source_of system_disk_warning = "system"
source_of system_disk_critical = "system"
source_of system_disk_restored = "system"
source_of system_tls_warning = "system"
source_of system_tls_critical = "system"
source_of system_tls_restored = "system"
