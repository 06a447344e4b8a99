-- ===== src/People/Devices.antt =====
-- Devices of PeopleService: creation with credentials and an invitation, updates, the subscription
-- lookup, and the password check that Hysteria calls. Hashing and sealing are arguments.
use matreshka_panel.Base.{
  ℕ, ◌+◌, ◌*◌, Bool, true, false, not, ◌&&◌, Option, none, some, List, [], ◌∷◌, ◌++◌, Time, Key,
  String, if◌then◌else◌, or_else, is_some, get, update, ◌==◌, leb, hour_ms,
}
use matreshka_panel.Journal.Json.{object, field, string, end}
use matreshka_panel.Journal.Types.{EventType}
use matreshka_panel.Journal.Record.{Entry, blank, Ident, uuid, word, log, log_change}
use matreshka_panel.Registry.{
  Registry, Device, invited, active, revoked, device_status_eq, Client, Engine, hysteria, xray,
  engine_eq, Credential, Invitation, InvitationStatus, pending, superseded, Result, ok, ◌>>=◌, ◌>>◌,
  require, found,
}
use matreshka_panel.People.Directory.{find_device, find_person, person, device}

abbrev pub invitation_hours : ℕ
invitation_hours = 72

-- The zod-parsed input of `createDevice`.
pub record DeviceInput : Type 0 where
  pub name : String
  pub kind : String
  pub platform : String
  pub client : Client

-- Of the payload the name of the device is kept; the names of the person and of the kind are left out.
unfoldable pub device_entry : Ident → Device → Entry
device_entry actor d = record blank {
  actor = some actor;
  subject_type = some "device";
  subject_id = some (uuid d.id);
  payload = object (field "deviceName" (string d.name) end);
}

abbrev pub is_pending : InvitationStatus → Bool
is_pending pending = true
is_pending _ = false

-- The random values that one call draws.
pub record Fresh : Type 0 where
  pub id : Key
  pub token : Key

-- `createInvitation`: the pending invitations of the device are superseded.
unfoldable pub create_invitation :
    (Key → Key) → Key → Fresh → Time → Registry → Result (Registry × Invitation)
unfolding device find_device
create_invitation hash device_id fresh now reg = do
  d ← device device_id reg
  require (not (device_status_eq d.status revoked)) 409
  let row : Invitation = record {
    id = fresh.id;
    device_id = device_id;
    token_hash = hash fresh.token;
    status = pending;
    expires_at = now + invitation_hours * hour_ms;
    created_at = now;
    redeemed_at = none;
  }
  ok (
    record reg {
      invitations =
          update (λ i. i.device_id == device_id && is_pending i.status)
            (λ i. record i { status = superseded }) reg.invitations
          ++ row ∷ [];
    },
    row,
  )

unfoldable pub new_device : Key → Key → DeviceInput → Time → Device
new_device id person_id input now = record {
  id = id;
  person_id = person_id;
  name = input.name;
  kind = input.kind;
  platform = input.platform;
  client = input.client;
  status = invited;
  subscription_hash = none;
  created_at = now;
  updated_at = now;
  activated_at = none;
  first_seen_at = none;
  last_seen_at = none;
  profile_fetched_at = none;
  last_routes_version = none;
  absence_notified_at = none;
  revoked_at = none;
}

-- `storeCredential`
unfoldable pub new_credential : Key → Key → Engine → Key → Time → Credential
new_credential id device_id engine secret now = record {
  id = id;
  device_id = device_id;
  engine = engine;
  secret = secret;
  created_at = now;
  revoked_at = none;
}

-- `createDevice`: `hysteria_box` and `xray_box` are the sealed credentials with their row ids.
unfoldable pub create_device :
    (Key → Key)
    → Key
    → Key
    → DeviceInput
    → Key × Key
    → Key × Key
    → Fresh
    → Ident
    → Time
    → Registry
    → Result (Registry × Device)
unfolding person find_person new_device new_credential create_invitation device_entry
create_device hash id person_id input hysteria_box xray_box fresh actor now reg = do
  _ ← person person_id reg
  let d = new_device id person_id input now
  let stored : Registry = record reg {
    devices = reg.devices ++ d ∷ [];
    credentials =
        reg.credentials
        ++ new_credential hysteria_box.0 id hysteria hysteria_box.1 now
          ∷ new_credential xray_box.0 id xray xray_box.1 now
          ∷ [];
  }
  (reg', _) ← create_invitation hash id fresh now stored
  _ ← person person_id reg'
  ok (
    record reg' {
      journal =
          log_change EventType.device_created actor "devices.create" "device" (some (uuid id))
            (device_entry actor d) now reg'.journal;
    },
    d,
  )

-- The zod-parsed input of `updateDevice`.
pub record DeviceUpdate : Type 0 where
  pub name : Option String
  pub kind : Option String
  pub platform : Option String

-- `updateDevice`
unfoldable pub update_device : Key → DeviceUpdate → Ident → Time → Registry → Result Registry
unfolding device find_device device_entry
update_device id input actor now reg = do
  before ← device id reg
  let next = λ (d : Device). record d {
    name = or_else input.name before.name;
    kind = or_else input.kind before.kind;
    platform = or_else input.platform before.platform;
    updated_at = now;
  }
  ok (record reg {
    devices = update (λ d. d.id == id) next reg.devices;
    journal =
        log_change EventType.device_updated actor "devices.update" "device" (some (uuid id))
          (device_entry actor (next before)) now reg.journal;
  })

-- `invitation`: what the invitation page shows.
unfoldable pub invitation : (Key → Key) → Key → Time → Registry → Result Invitation
invitation hash token now reg = do
  row ← found (get (λ i. i.token_hash == hash token) reg.invitations) 404
  require (is_pending row.status) 410
  require (not (leb row.expires_at now)) 410
  ok row

-- `bySubscriptionToken`
unfoldable pub by_subscription_token : (Key → Key) → Key → Registry → Result Device
by_subscription_token hash token reg =
    found
      (get
        (λ d.
          elim d.subscription_hash as (λ _. Bool) [ none ↦ false | some h ↦ h == hash token ]
          && device_status_eq d.status active)
        reg.devices)
      404

-- `redemption`: the device and the token of its subscription URL, `derive` the keyed derivation.
unfoldable pub redemption :
    (Key → Key) → (Key → Key) → Key → Time → Registry → Result (Device × Key × Time)
unfolding device find_device
redemption hash derive token now reg = do
  row ← found (get (λ r. r.token_hash == hash token) reg.redemptions) 404
  require (not (leb row.expires_at now)) 404
  d ← device row.device_id reg
  require (device_status_eq d.status active) 409
  ok (d, derive row.device_id, row.expires_at)

-- `markProfileFetched`
unfoldable pub mark_profile_fetched : Key → Time → Registry → Result Registry
unfolding device find_device device_entry
mark_profile_fetched id now reg = do
  d ← device id reg
  ok (record reg {
    devices =
        update (λ d. d.id == id) (λ d. record d { profile_fetched_at = some now }) reg.devices;
    journal =
        if is_some d.profile_fetched_at
        then reg.journal
        else log EventType.device_profile_fetched
            (record (device_entry (word "device") d) { subject_type = some "device" }) now
            reg.journal;
  })

-- `markRoutesFetched`
unfoldable pub mark_routes_fetched : Key → ℕ → Registry → Registry
mark_routes_fetched id version reg = record reg {
  devices =
      update (λ d. d.id == id) (λ d. record d { last_routes_version = some version }) reg.devices;
}

abbrev pub live_credential : Key → Engine → Credential → Bool
live_credential id engine c =
    c.device_id == id && engine_eq c.engine engine && not (is_some c.revoked_at)

-- `credentials`: the two sealed boxes of the device.
unfoldable pub credentials : Key → Registry → Result (Key × Key)
credentials id reg = do
  h ← found (get (live_credential id hysteria) reg.credentials) 409
  x ← found (get (live_credential id xray) reg.credentials) 409
  ok (h.secret, x.secret)

-- Is there an active device with this id? (`JOIN devices ... WHERE devices.status = 'active'`)
unfoldable pub is_active : Key → Registry → Bool
is_active id reg = is_some (get (λ d. d.id == id && device_status_eq d.status active) reg.devices)

-- The loop of `authenticateHysteria`; `open_box` opens a sealed box to its password.
unfoldable pub matching_credential : (Key → Key) → Key → Registry → List Credential → Option Key
unfolding is_active
matching_credential open_box auth reg [] = none
matching_credential open_box auth reg (c ∷ cs) =
    if engine_eq c.engine hysteria
      && not (is_some c.revoked_at)
      && is_active c.device_id reg
      && open_box c.secret == auth
    then some c.device_id
    else matching_credential open_box auth reg cs

-- `authenticateHysteria`: the device that the password belongs to.
unfoldable pub authenticate_hysteria : (Key → Key) → Key → Registry → Option Key
unfolding matching_credential
authenticate_hysteria open_box auth reg = matching_credential open_box auth reg reg.credentials
