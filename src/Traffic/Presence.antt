-- ===== src/Traffic/Presence.antt =====
-- `savePresence`, `updateHysteriaPresence`, `updateXrayPresence`, `markUnknown` and `activeDevices`.
-- The timestamps of a presence row are those that this program wrote, so comparing them as text
-- and as times is the same.
use matreshka_panel.Base.{
  ℕ, suc, ◌-◌, ◌*◌, Bool, true, false, ◌&&◌, Option, none, some, List, [], ◌∷◌, Time, Key, ◌==◌,
  if◌then◌else◌, leb, ltb, get, select, upsert, contains,
}
use matreshka_panel.Registry.{
  Registry, Person, Device, active, device_status_eq, Engine, hysteria, xray, engine_eq,
}
use matreshka_panel.People.Directory.{find_person}
use matreshka_panel.Traffic.Samples.{
  Status, online, offline, unknown, status_eq, Signal, by_connections, by_traffic, Presence, Db,
}

abbrev pub is_live_person : Option Person → Bool
is_live_person none = false
is_live_person (some p) = elim p.archived_at as (λ _. Bool) [ none ↦ true | some t ↦ false ]

-- `activeDevices`
unfoldable pub active_devices : Registry → List Device
active_devices reg =
    select (λ d. device_status_eq d.status active && is_live_person (find_person d.person_id reg))
      reg.devices

abbrev pub is_presence : Key → Engine → Presence → Bool
is_presence id e p = p.device_id == id && engine_eq p.engine e

-- `presence`
unfoldable pub presence : Key → Engine → List Presence → Option Presence
presence id e rows = get (is_presence id e) rows

abbrev pub change_time : Option Presence → Status → Time → Time
change_time none s now = now
change_time (some p) s now = if status_eq p.status s then p.changed_at else now

-- `savePresence`
unfoldable pub save_presence :
    Key
    → Engine
    → Status
    → Signal
    → Time
    → Option ℕ
    → ℕ
    → Option Time
    → List Presence
    → List Presence
unfolding presence
save_presence id e s signal now connections misses last_active rows =
    let row : Presence = record {
      device_id = id;
      engine = e;
      status = s;
      signal = signal;
      connections = connections;
      misses = misses;
      last_active_at = last_active;
      observed_at = now;
      changed_at = change_time (presence id e rows) s now;
    } in
    upsert (is_presence id e) (λ _. row) row rows

abbrev pub misses_of : Option Presence → ℕ
misses_of none = 0
misses_of (some p) = p.misses

abbrev pub last_active_of : Option Presence → Option Time
last_active_of none = none
last_active_of (some p) = p.last_active_at

abbrev pub connections_of : Option Presence → Option ℕ
connections_of none = none
connections_of (some p) = p.connections

-- `previous?.status ?? "unknown"`
abbrev pub status_of : Option Presence → Status
status_of none = unknown
status_of (some p) = p.status

-- The body of the loop of `updateHysteriaPresence` for one device and its connections.
unfoldable pub hysteria_presence : Key → ℕ → Time → List Presence → List Presence
unfolding presence save_presence
hysteria_presence id connections now rows =
    let previous = presence id hysteria rows in
    let misses = suc (misses_of previous) in
    let missed = if leb 2 misses then offline else status_of previous in
    if ltb 0 connections
    then save_presence id hysteria online by_connections now (some connections) 0 (some now) rows
    else save_presence id hysteria missed by_connections now (some 0) misses
        (last_active_of previous) rows

-- `lastActiveAt !== null && reference - lastActiveAt <= 2 minutes`
abbrev pub is_recent : Option Time → Time → Bool
is_recent none now = false
is_recent (some t) now = leb (now - t) (2 * 60 * 1000)

-- The body of the loop of `updateXrayPresence` for one device, `moved` if it had traffic.
unfoldable pub xray_presence : Key → Bool → Time → List Presence → List Presence
unfolding presence save_presence
xray_presence id moved now rows =
    let last_active = if moved then some now else last_active_of (presence id xray rows) in
    save_presence id xray (if is_recent last_active now then online else offline) by_traffic now
      none 0 last_active rows

-- The body of the loop of `markUnknown`.
unfoldable pub unknown_presence : Engine → Key → Time → List Presence → List Presence
unfolding presence save_presence
unknown_presence e id now rows =
    let previous = presence id e rows in
    save_presence id e unknown (elim e [ hysteria ↦ by_connections | xray ↦ by_traffic ]) now
      (connections_of previous) (misses_of previous) (last_active_of previous) rows

-- `for (const device of this.activeDevices())`
unfoldable pub each_device :
    (Key → List Presence → List Presence) → List Device → List Presence → List Presence
each_device f [] rows = rows
each_device f (d ∷ ds) rows = each_device f ds (f d.id rows)

-- `updateHysteriaPresence`; `connections` is 0 for a device that the engine does not list.
unfoldable pub update_hysteria_presence : (Key → ℕ) → Time → Db → Db
unfolding each_device hysteria_presence active_devices
update_hysteria_presence connections now db = record db {
  presence =
      each_device (λ id. hysteria_presence id (connections id) now) (active_devices db.registry)
        db.presence;
}

-- `updateXrayPresence`
unfoldable pub update_xray_presence : List Key → Time → Db → Db
unfolding each_device xray_presence active_devices
update_xray_presence moved now db = record db {
  presence =
      each_device (λ id. xray_presence id (contains moved id) now) (active_devices db.registry)
        db.presence;
}

-- `markUnknown`
unfoldable pub mark_unknown : Engine → Time → Db → Db
unfolding each_device unknown_presence active_devices
mark_unknown e now db = record db {
  presence = each_device (λ id. unknown_presence e id now) (active_devices db.registry) db.presence;
}
