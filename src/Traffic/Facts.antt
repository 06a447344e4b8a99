-- ===== src/Traffic/Facts.antt =====
-- `updateDeviceFacts` of TrafficService: first seen, long absent, returned.
use matreshka_panel.Base.{
  ◌-◌, Bool, true, false, not, ◌&&◌, ◌||◌, Option, none, some, List, [], ◌∷◌, Time, ◌==◌, max,
  if◌then◌else◌, leb, or_else, is_some, select, update, day_ms,
}
use matreshka_panel.Journal.Json.{object, field, string, end}
use matreshka_panel.Journal.Types.{EventType}
use matreshka_panel.Journal.Record.{Entry, blank, word, uuid, log}
use matreshka_panel.Registry.{Registry, Device}
use matreshka_panel.Traffic.Samples.{Status, online, offline, unknown, status_eq, Presence, Db}
use matreshka_panel.Traffic.Presence.{active_devices}

-- `states.includes(status)`
abbrev pub has_state : Status → List Presence → Bool
has_state s [] = false
has_state s (p ∷ ps) = status_eq p.status s || has_state s ps

abbrev pub is_empty : List Presence → Bool
is_empty [] = true
is_empty (p ∷ ps) = false

-- The aggregate of the engines' states.
unfoldable pub aggregate : List Presence → Status
aggregate ps =
    if has_state online ps
    then online
    else if has_state unknown ps || is_empty ps
    then unknown
    else offline

-- `.sort().at(-1)` of the times that are there
abbrev pub later : Option Time → Option Time → Option Time
later none b = b
later (some a) none = some a
later (some a) (some b) = some (max a b)

abbrev pub last_online : List Presence → Option Time
last_online [] = none
last_online (p ∷ ps) =
    let rest = last_online ps in
    if status_eq p.status online then later p.last_active_at rest else rest

-- The event of a fact; of its data the name of the device is kept.
unfoldable pub fact_entry : Device → Time → Entry
fact_entry d now = record blank {
  actor = some (word "telemetry");
  subject_type = some "device";
  subject_id = some (uuid d.id);
  payload = object (field "deviceName" (string d.name) end);
  occurred_at = some now;
}

abbrev pub is_long_absent : Option Time → Time → Bool
is_long_absent none now = false
is_long_absent (some t) now = leb day_ms (now - t)

-- A device that is online.
unfoldable pub seen : Device → Time → Time → Registry → Registry
unfolding fact_entry
seen d seen_at now reg =
    let first = not (is_some d.first_seen_at) in
    let returned = is_some d.absence_notified_at in
    record reg {
      devices =
          update (λ x. x.id == d.id)
            (λ x. record x {
              first_seen_at = some (or_else x.first_seen_at seen_at);
              last_seen_at = some seen_at;
              absence_notified_at = none;
            })
            reg.devices;
      journal =
          if first
          then log EventType.device_first_seen (fact_entry d now) now reg.journal
          else if returned
          then log EventType.device_returned (fact_entry d now) now reg.journal
          else reg.journal;
    }

-- A device that is reported as long absent.
unfoldable pub missed : Device → Time → Registry → Registry
unfolding fact_entry
missed d now reg = record reg {
  devices =
      update (λ x. x.id == d.id) (λ x. record x { absence_notified_at = some now }) reg.devices;
  journal = log EventType.device_offline_long (fact_entry d now) now reg.journal;
}

-- The body of the loop of `updateDeviceFacts`.
unfoldable pub device_facts : Device → Time → List Presence → Registry → Registry
unfolding aggregate seen missed
device_facts d now rows reg =
    let mine = select (λ p. p.device_id == d.id) rows in
    elim (aggregate mine) [
      | online ↦ seen d (or_else (last_online mine) now) now reg
      | unknown ↦ reg
      | offline ↦
          if is_long_absent d.last_seen_at now && not (is_some d.absence_notified_at)
          then missed d now reg
          else reg
    ]

-- The loop of `updateDeviceFacts` over the devices that were active when it began.
unfoldable pub all_facts : List Device → Time → List Presence → Registry → Registry
unfolding device_facts
all_facts [] now rows reg = reg
all_facts (d ∷ ds) now rows reg = all_facts ds now rows (device_facts d now rows reg)

-- `updateDeviceFacts`
unfoldable pub update_device_facts : Time → Db → Db
unfolding all_facts active_devices
update_device_facts now db = record db {
  registry = all_facts (active_devices db.registry) now db.presence db.registry;
}
