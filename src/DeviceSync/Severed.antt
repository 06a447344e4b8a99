-- ===== src/DeviceSync/Severed.antt =====
-- A device whose rows were revoked, and what it cannot do any more.
use matreshka_panel.Base.{
  ℕ, ◌≡◌, ◌≢◌, refl, Bool, true, false, ◌&&◌, Option, none, some, List, [], ◌∷◌, Time, Key, get,
  update, get-delete, All, arith, ◌==◌, is_some,
}
use matreshka_panel.Registry.{
  Registry, Device, active, revoked, device_status_eq, Credential, Engine, hysteria, ok, err, found,
}
use matreshka_panel.People.Devices.{
  credentials, live_credential, is_active, matching_credential, authenticate_hysteria,
  by_subscription_token,
}
use matreshka_panel.DeviceSync.Jobs.{revoke_rows}

-- Nothing that belongs to the device opens a door any more.
pub record IsSevered (id : Key) (reg : Registry) : Type 0 where
  pub inactive : get (λ d. d.id == id && device_status_eq d.status active) reg.devices ≡ none
  pub keyless : All (λ c. (c.device_id == id) ≡ true → is_some c.revoked_at ≡ true) reg.credentials
  pub sessionless : get (λ r. r.device_id == id) reg.redemptions ≡ none

revoke_devices-inactive :
    (id : Key) (f : Device → Device) (ds : List Device)
    → ((d : Device) → (f d).id ≡ d.id)
    → ((d : Device) → (f d).status ≡ revoked)
    → get (λ d. d.id == id && device_status_eq d.status active) (update (λ d. d.id == id) f ds)
      ≡ none
unfolding get update
revoke_devices-inactive id f [] same off = refl
revoke_devices-inactive id f (d ∷ ds) same off =
    ground (arith, same d, off d, revoke_devices-inactive id f ds same off)

All-revoked :
    (id : Key) (now : Time) (cs : List Credential)
    → All
        (λ c. (c.device_id == id) ≡ true → is_some c.revoked_at ≡ true)
        (update (λ c. c.device_id == id) (λ c. record c { revoked_at = some now }) cs)
unfolding update
All-revoked id now [] = tt
All-revoked id now (c ∷ cs) = (λ e. ground arith, All-revoked id now cs)

pub revoke_rows-IsSevered :
    (id : Key) (now : Time) (reg : Registry) → IsSevered id (revoke_rows id now reg)
unfolding revoke_rows
revoke_rows-IsSevered id now reg = record {
  inactive = revoke_devices-inactive id _ reg.devices (λ d. refl) (λ d. refl);
  keyless = All-revoked id now reg.credentials;
  sessionless =
      get-delete (λ r. r.device_id == id) (λ r. r.device_id == id) reg.redemptions (λ x h. h);
}

no_live_credential :
    (id : Key) (e : Engine) (cs : List Credential)
    → All (λ c. (c.device_id == id) ≡ true → is_some c.revoked_at ≡ true) cs
    → get (live_credential id e) cs ≡ none
unfolding get
no_live_credential id e [] h = refl
no_live_credential id e (c ∷ cs) h = ground (arith, h.0, no_live_credential id e cs h.1)

not_matching :
    (open_box : Key → Key) (auth id : Key) (reg : Registry) (cs : List Credential)
    → is_active id reg ≡ false
    → matching_credential open_box auth reg cs ≢ some id
unfolding matching_credential
not_matching open_box auth id reg [] off e = cc
not_matching open_box auth id reg (c ∷ cs) off e =
    ground (arith, off, e, not_matching open_box auth id reg cs off)

severed_get :
    (id : Key) (q : Device → Bool) (ds : List Device) (d : Device)
    → get (λ x. x.id == id && device_status_eq x.status active) ds ≡ none
    → ((x : Device) → q x ≡ true → device_status_eq x.status active ≡ true)
    → d.id ≡ id
    → get q ds ≢ some d
unfolding get
severed_get id q [] d off act same e = cc
severed_get id q (x ∷ ds) d off act same e =
    ground (arith, act x, severed_get id q ds d, off, e, same)

abbrev by_token : (Key → Key) → Key → Device → Bool
by_token hash token d =
    elim d.subscription_hash as (λ _. Bool) [ none ↦ false | some h ↦ h == hash token ]
    && device_status_eq d.status active

found-ok : {A : Type 0} (x : Option A) (a : A) (n : ℕ) → found x n ≡ ok a → x ≡ some a
found-ok none a n e = cc
found-ok (some b) a n e = cc

-- What a severed device cannot do any more: no credentials are handed out, no password and no
-- subscription token leads to it, and no redemption session of it is left.
abbrev pub CutOff : (Key → Key) → (Key → Key) → Key → Key → Key → Device → Registry → Type 0
CutOff hash open_box id auth token d reg =
    (credentials id reg ≡ err 409)
    × (authenticate_hysteria open_box auth reg ≢ some id)
    × (by_subscription_token hash token reg ≢ ok d)
    × (get (λ r. r.device_id == id) reg.redemptions ≡ none)

pub IsSevered-CutOff :
    (hash open_box : Key → Key) (id auth token : Key) (d : Device) (reg : Registry)
    → IsSevered id reg
    → d.id ≡ id
    → CutOff hash open_box id auth token d reg
unfolding credentials authenticate_hysteria by_subscription_token is_active
IsSevered-CutOff hash open_box id auth token d reg s same = (
  rw (no_live_credential id hysteria reg.credentials s.keyless),
  not_matching open_box auth id reg reg.credentials (rw (s.inactive)),
  (λ e.
      severed_get id (by_token hash token) reg.devices d s.inactive (λ x h. ground arith) same
        (found-ok _ d 404 e)),
  s.sessionless,
)
