-- ===== src/Auth/Tables.antt =====
-- The tables of AuthService: owners, passkeys, sessions, API tokens and challenges.
use matreshka_panel.Base.{ℕ, Bool, true, false, Option, List, Time, Key, String, get}
use matreshka_panel.Journal.Record.{Journal}

pub record Owner : Type 0 where
  pub id : Key
  pub name : String
  pub timezone : String

pub record Passkey : Type 0 where
  pub id : Key
  pub owner_id : Key
  pub counter : ℕ
  pub last_used_at : Option Time

pub record Session : Type 0 where
  pub id : Key
  pub owner_id : Key
  pub token_hash : Key
  pub expires_at : Time
  pub created_at : Time
  pub last_seen_at : Time

pub record Token : Type 0 where
  pub id : Key
  pub name : String
  pub token_hash : Key
  pub scopes : List String
  pub expires_at : Option Time
  pub last_used_at : Option Time
  pub revoked_at : Option Time

pub data Kind : Type 0 where
  registration authentication : Kind

abbrev pub kind_eq : Kind → Kind → Bool
kind_eq registration registration = true
kind_eq authentication authentication = true
kind_eq _ _ = false

-- `context_json`: of a sign-in the owner, of a registration what is to be created.
pub data Context : Type 0 where
  for_login : Key → Context
  for_registration : String → String → Key → Option Key → Context

-- `challenge` is the random text that the authenticator signs.
pub record Challenge : Type 0 where
  pub id : Key
  pub kind : Kind
  pub challenge : Key
  pub context : Context
  pub expires_at : Time
  pub created_at : Time

-- What the library's check of a response comes to: an exception, a refusal, or what was verified.
pub data Verification (A : Type 0) : Type 0 where
  threw not_verified : Verification A
  verified : A → Verification A

-- The setting `bootstrap`
pub record Bootstrap : Type 0 where
  pub token_hash : Key
  pub expires_at : Time

pub record Db : Type 0 where
  pub owners : List Owner
  pub passkeys : List Passkey
  pub sessions : List Session
  pub tokens : List Token
  pub challenges : List Challenge
  pub bootstrap : Option Bootstrap
  pub journal : Journal

-- `owner`: `SELECT ... FROM owners LIMIT 1`
unfoldable pub owner : Db → Option Owner
owner db = get (λ o. true) db.owners
