-- ===== src/Registry.antt =====
-- The tables of people and devices (src/server/db/schema.ts, src/server/models.ts) that
-- PeopleService, DeviceSyncService and TrafficService share, and the error of a service call.
use matreshka_panel.Base.{
  ℕ, ◌≡◌, ◌⊎◌, inl, inr, refl, arith, Bool, true, false, Option, none, some, List, Time, Key,
  String,
}
use matreshka_panel.Journal.Record.{Journal, Ident}

-- `ServiceError`: the HTTP status. Its Russian message is presentation.
pub data Result {ℓ} (A : Type ℓ) : Type ℓ where
  ok : A → Result A
  err : ℕ → Result A

-- The next step of a service call, which a thrown error skips.
infixl 5 ◌>>=◌ ◌>>◌
abbrev pub ◌>>=◌ {ℓ κ} : {V : Type ℓ} {W : Type κ} → Result V → (V → Result W) → Result W
err status >>= next = err status
ok v >>= next = next v

abbrev pub ◌>>◌ {ℓ} : {W : Type ℓ} → Result (Unit {0}) → Result W → Result W
check >> next = check >>= λ _. next

-- `if (!condition) throw new ServiceError(status)`
abbrev pub require : Bool → ℕ → Result (Unit {0})
require true status = ok tt
require false status = err status

-- `if (!row) throw new ServiceError(status)`
abbrev pub found {ℓ} : {A : Type ℓ} → Option A → ℕ → Result A
found none status = err status
found (some a) status = ok a

-- A call that succeeds had a first step that did.
pub bind_ok :
    {A B : Type 0} (r : Result A) (f : A → Result B) (y : B)
    → (r >>= f) ≡ ok y
    → (a : A) × (r ≡ ok a) × (f a ≡ ok y)
bind_ok (ok a) f y h = (a, refl, h)
bind_ok (err n) f y h = cc

pub require_ok : (b : Bool) (status : ℕ) (u : Unit {0}) → require b status ≡ ok u → b ≡ true
require_ok true status u h = refl
require_ok false status u h = cc

pub found_ok : {A : Type 0} (o : Option A) (status : ℕ) (a : A) → found o status ≡ ok a → o ≡ some a
found_ok none status a h = cc
found_ok (some x) status a h = ground (arith, h)

pub Result-cases :
    {A : Type 0} (r : Result A) → ((status : ℕ) × (r ≡ err status)) ⊎ ((a : A) × (r ≡ ok a))
Result-cases (ok a) = inr (a, refl)
Result-cases (err n) = inl (n, refl)

pub data Client : Type 0 where
  incy mihomo : Client

pub data Engine : Type 0 where
  hysteria xray : Engine

abbrev pub engine_eq : Engine → Engine → Bool
engine_eq hysteria hysteria = true
engine_eq xray xray = true
engine_eq _ _ = false

pub data DeviceStatus : Type 0 where
  invited active revoked : DeviceStatus

abbrev pub device_status_eq : DeviceStatus → DeviceStatus → Bool
device_status_eq invited invited = true
device_status_eq active active = true
device_status_eq revoked revoked = true
device_status_eq _ _ = false

pub record Person : Type 0 where
  pub id : Key
  pub name : String
  pub note : String
  pub color : String
  pub avatar : String
  pub created_at : Time
  pub updated_at : Time
  pub archived_at : Option Time

pub record Device : Type 0 where
  pub id : Key
  pub person_id : Key
  pub name : String
  pub kind : String
  pub platform : String
  pub client : Client
  pub status : DeviceStatus
  pub subscription_hash : Option Key
  pub created_at : Time
  pub updated_at : Time
  pub activated_at : Option Time
  pub first_seen_at : Option Time
  pub last_seen_at : Option Time
  pub profile_fetched_at : Option Time
  pub last_routes_version : Option ℕ
  pub absence_notified_at : Option Time
  pub revoked_at : Option Time

-- `secret` is the sealed box (ciphertext, iv and tag).
pub record Credential : Type 0 where
  pub id : Key
  pub device_id : Key
  pub engine : Engine
  pub secret : Key
  pub created_at : Time
  pub revoked_at : Option Time

pub data InvitationStatus : Type 0 where
  pending redeeming redeemed superseded withdrawn : InvitationStatus

pub record Invitation : Type 0 where
  pub id : Key
  pub device_id : Key
  pub token_hash : Key
  pub status : InvitationStatus
  pub expires_at : Time
  pub created_at : Time
  pub redeemed_at : Option Time

pub record Redemption : Type 0 where
  pub id : Key
  pub invitation_id : Key
  pub device_id : Key
  pub token_hash : Key
  pub expires_at : Time
  pub created_at : Time

pub data JobKind : Type 0 where
  activate revoke : JobKind

abbrev pub job_kind_eq : JobKind → JobKind → Bool
job_kind_eq activate activate = true
job_kind_eq revoke revoke = true
job_kind_eq _ _ = false

pub data JobStatus : Type 0 where
  waiting running failed completed : JobStatus

-- `status IN ('pending', 'running', 'failed')`; `waiting` is `pending`.
abbrev pub is_open : JobStatus → Bool
is_open completed = false
is_open _ = true

-- `status IN ('pending', 'failed')`
abbrev pub is_claimable : JobStatus → Bool
is_claimable waiting = true
is_claimable failed = true
is_claimable _ = false

pub record Job : Type 0 where
  pub id : Key
  pub device_id : Key
  pub invitation_id : Option Key
  pub kind : JobKind
  pub status : JobStatus
  pub actor : Ident
  pub attempts : ℕ
  pub next_attempt_at : Time
  pub created_at : Time
  pub updated_at : Time
  pub completed_at : Option Time

pub record Registry : Type 0 where
  pub people : List Person
  pub devices : List Device
  pub credentials : List Credential
  pub invitations : List Invitation
  pub redemptions : List Redemption
  pub jobs : List Job
  pub journal : Journal
