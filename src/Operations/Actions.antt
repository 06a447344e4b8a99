-- ===== src/Operations/Actions.antt =====
-- The actions of OperationService, their payload, and what the journal says of them.
use Prim.Native.String as Str
use matreshka_panel.Base.{Bool, true, false, Option, none, some, Key, String, if◌then◌else◌}
use matreshka_panel.Base.Text.{same_text}
use matreshka_panel.Journal.Json.{Fields, end, field, string, boolean}
use matreshka_panel.Journal.Types.{EventType}
use matreshka_panel.Journal.Record.{Ident, uuid, word}

-- `PrivilegedAction`
pub data Action : Type 0 where
  revoke_of_device service_restart service_start service_stop engine_update nginx_reload
        update_apply backup_export :
      Action

abbrev pub action_eq : Action → Action → Bool
action_eq revoke_of_device revoke_of_device = true
action_eq service_restart service_restart = true
action_eq service_start service_start = true
action_eq service_stop service_stop = true
action_eq engine_update engine_update = true
action_eq nginx_reload nginx_reload = true
action_eq update_apply update_apply = true
action_eq backup_export backup_export = true
action_eq _ _ = false

abbrev pub action_name : Action → String
action_name revoke_of_device = "device.revoke"
action_name service_restart = "service.restart"
action_name service_start = "service.start"
action_name service_stop = "service.stop"
action_name engine_update = "engine.update"
action_name nginx_reload = "nginx.reload"
action_name update_apply = "update.apply"
action_name backup_export = "backup.export"

-- `${action}.preview`, `${action}.confirm`: the action of an audit row
abbrev pub preview_name : Action → String
preview_name a = Str.◌++◌ (action_name a) ".preview"

abbrev pub confirm_name : Action → String
confirm_name a = Str.◌++◌ (action_name a) ".confirm"

-- `payload.passphrase`: absent, a text, or something else.
pub data Passphrase : Type 0 where
  no_passphrase : Passphrase
  passphrase : String → Passphrase
  not_a_text : Passphrase

-- The fields of a payload that the actions read, each as `String(payload.field ?? "")` makes it.
-- `device_id` is the number that stands for the id.
pub record Payload : Type 0 where
  pub device_id : Key
  pub service : String
  pub engine : String
  pub version : String
  pub checksum : String
  pub bundle : String
  pub signature : String
  pub output : String
  pub passphrase : Passphrase

abbrev pub redacted : Passphrase → Passphrase
redacted no_passphrase = no_passphrase
redacted (passphrase text) = passphrase "[REDACTED]"
redacted not_a_text = passphrase "[REDACTED]"

-- `redactPayload`
unfoldable pub redact_payload : Action → Payload → Payload
redact_payload backup_export p = record p { passphrase = redacted p.passphrase }
redact_payload revoke_of_device p = p
redact_payload service_restart p = p
redact_payload service_start p = p
redact_payload service_stop p = p
redact_payload engine_update p = p
redact_payload nginx_reload p = p
redact_payload update_apply p = p

pub data Phase : Type 0 where
  phase_started phase_completed phase_failed : Phase

-- `operationEvent`
unfoldable pub operation_event : Action → Phase → Option EventType
operation_event revoke_of_device _ = none
operation_event backup_export phase_started = some EventType.backup_started
operation_event backup_export phase_completed = some EventType.backup_created
operation_event backup_export phase_failed = some EventType.backup_failed
operation_event service_restart phase_started = some EventType.service_restart_started
operation_event service_restart phase_completed = some EventType.service_restarted
operation_event service_restart phase_failed = some EventType.service_restart_failed
operation_event service_start phase_started = some EventType.service_start_started
operation_event service_start phase_completed = some EventType.service_started
operation_event service_start phase_failed = some EventType.service_start_failed
operation_event service_stop phase_started = some EventType.service_stop_started
operation_event service_stop phase_completed = some EventType.service_stopped
operation_event service_stop phase_failed = some EventType.service_stop_failed
operation_event nginx_reload phase_started = some EventType.nginx_reload_started
operation_event nginx_reload phase_completed = some EventType.nginx_reloaded
operation_event nginx_reload phase_failed = some EventType.nginx_reload_failed
operation_event engine_update phase_started = some EventType.engine_update_started
operation_event engine_update phase_completed = some EventType.engine_updated
operation_event engine_update phase_failed = some EventType.engine_update_failed
operation_event update_apply phase_started = some EventType.app_update_started
operation_event update_apply phase_completed = some EventType.app_updated
operation_event update_apply phase_failed = some EventType.app_update_failed

-- `... || undefined`: an empty text leaves the field out.
abbrev pub field_unless_empty : String → String → Fields → Fields
field_unless_empty key text rest = if same_text text "" then rest else field key (string text) rest

-- `operationData`
unfoldable pub operation_data : Action → Payload → Fields
operation_data service_restart p = field "service" (string p.service) end
operation_data service_start p = field "service" (string p.service) end
operation_data service_stop p = field "service" (string p.service) end
operation_data engine_update p =
    field "engine" (string p.engine) (field "version" (string p.version) end)
operation_data update_apply p = field_unless_empty "version" p.version end
operation_data revoke_of_device p = end
operation_data nginx_reload p = end
operation_data backup_export p = end

-- `typeof payload.passphrase === "string"`
abbrev pub is_encrypted : Passphrase → Bool
is_encrypted (passphrase text) = true
is_encrypted no_passphrase = false
is_encrypted not_a_text = false

-- `operationResultData`, without the size that the agent tells.
unfoldable pub operation_result_data : Action → Payload → Fields
operation_result_data backup_export p = field "encrypted" (boolean (is_encrypted p.passphrase)) end
operation_result_data _ p = end

-- `operationSubject`
unfoldable pub operation_subject : Action → String
operation_subject service_restart = "service"
operation_subject service_start = "service"
operation_subject service_stop = "service"
operation_subject engine_update = "engine"
operation_subject revoke_of_device = "device"
operation_subject _ = "operation"

abbrev pub unless_empty : String → Option Ident
unless_empty text = if same_text text "" then none else some (word text)

-- `operationSubjectId`
unfoldable pub operation_subject_id : Action → Payload → Option Ident
operation_subject_id service_restart p = unless_empty p.service
operation_subject_id service_start p = unless_empty p.service
operation_subject_id service_stop p = unless_empty p.service
operation_subject_id engine_update p = unless_empty p.engine
operation_subject_id revoke_of_device p = some (uuid p.device_id)
operation_subject_id _ p = none

-- The value of `result` when `operationData` and `operationResultData` are put together.
abbrev pub joined : Fields → Fields → Fields
joined end more = more
joined (field k v rest) more = field k v (joined rest more)
