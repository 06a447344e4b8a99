-- ===== src/Auth/Registration.antt =====
-- `ensureBootstrap`, `resetBootstrap`, `registrationOptions`, `finishRegistration` and `updateOwner`
-- of AuthService, after the setup of the domain. Texts are trimmed and checked by the zod schemas.
use matreshka_panel.Base.{
  ℕ, ◌+◌, Bool, false, not, ◌&&◌, ◌||◌, Option, none, some, List, [], ◌∷◌, ◌++◌, Time, Key, String,
  if◌then◌else◌, ◌==◌, leb, or_else, is_some, get, update, delete, hour_ms,
}
use matreshka_panel.Journal.Types.{EventType}
use matreshka_panel.Journal.Record.{Ident, uuid, word, blank, log_change, audit}
use matreshka_panel.Registry.{Result, ok, err, ◌>>=◌, ◌>>◌, require, found}
use matreshka_panel.Auth.Tables.{
  Verification, threw, not_verified, verified, Owner, Passkey, Session, registration, Context,
  for_login, for_registration, Bootstrap, Db, owner,
}
use matreshka_panel.Auth.Sessions.{create_session}
use matreshka_panel.Auth.Challenges.{prune_challenges, store_challenge, find_challenge}

-- A new link with the token `token`, for one hour.
abbrev pub new_bootstrap : (Key → Key) → Key → Time → Bootstrap
new_bootstrap hash token now = record { token_hash = hash token; expires_at = now + hour_ms }

abbrev pub is_current : Option Bootstrap → Time → Bool
is_current none now = false
is_current (some b) now = not (leb b.expires_at now)

-- `ensureBootstrap`: the tables, and the token of a new link.
unfoldable pub ensure_bootstrap : (Key → Key) → Key → Time → Db → Db × Option Key
unfolding owner
ensure_bootstrap hash token now db =
    if is_some (owner db) || is_current db.bootstrap now
    then (db, none)
    else (record db { bootstrap = some (new_bootstrap hash token now) }, some token)

abbrev pub owner_ident : Option Owner → Option Ident
owner_ident none = none
owner_ident (some o) = some (uuid o.id)

abbrev pub sessions_without : Option Owner → List Session → List Session
sessions_without none ss = ss
sessions_without (some o) ss = delete (λ s. s.owner_id == o.id) ss

-- `resetBootstrap`
unfoldable pub reset_bootstrap : (Key → Key) → Key → Time → Db → Db
unfolding owner
reset_bootstrap hash token now db =
    let o = owner_ident (owner db) in
    record db {
      sessions = sessions_without (owner db) db.sessions;
      bootstrap = some (new_bootstrap hash token now);
      journal =
          log_change EventType.bootstrap_reset (word "root-cli") "auth.bootstrap.reset" "owner" o
            (record blank {
              actor = some (word "root-cli");
              subject_type = some "owner";
              subject_id = o;
            })
            now db.journal;
    }

-- `verifyBootstrap`
unfoldable pub verify_bootstrap : (Key → Key) → Option Key → Time → Db → Result Bootstrap
verify_bootstrap hash token now db = do
  t ← found token 401
  b ← found db.bootstrap 401
  require (not (leb b.expires_at now)) 401
  require (hash t == b.token_hash) 401
  ok b

-- `verifyBootstrapHash`
unfoldable pub verify_bootstrap_hash : Option Key → Time → Db → Result (Unit {0})
verify_bootstrap_hash token_hash now db = do
  h ← found token_hash 401
  b ← found db.bootstrap 401
  require (not (leb b.expires_at now) && b.token_hash == h) 401

-- `registrationContext`
pub record Applicant : Type 0 where
  pub name : String
  pub timezone : String
  pub bootstrap_token : Option Key

-- The random values of a registration: the challenge's id and text, and an id for the owner.
pub record Drawn : Type 0 where
  pub challenge_id : Key
  pub text : Key
  pub owner_id : Key

-- `registrationOptions` for an owner who adds a passkey, or for the first one.
unfoldable pub registration_context :
    (Key → Key) → Applicant → Option Key → Drawn → Time → Db → Result Context
unfolding owner verify_bootstrap
registration_context hash a authenticated drawn now db = elim (owner db) [
  | some o ↦
      require (elim authenticated as (λ _. Bool) [ none ↦ false | some id ↦ id == o.id ]) 401
      >> ok (for_registration a.name a.timezone o.id none)
  | none ↦ verify_bootstrap hash a.bootstrap_token now db >>= λ b.
      ok (for_registration a.name a.timezone drawn.owner_id (some b.token_hash))
]

-- `registrationOptions`: the tables and the id of the challenge.
unfoldable pub registration_options :
    (Key → Key) → Applicant → Option Key → Drawn → Time → Db → Db × Result Key
unfolding registration_context store_challenge
registration_options hash a authenticated drawn now db =
    elim (registration_context hash a authenticated drawn now db) [
      | err e ↦ (db, err e)
      | ok context ↦ store_challenge drawn.challenge_id registration drawn.text context now db
    ]

-- `INSERT INTO owners` where there is none.
unfoldable pub insert_owner : Key → String → String → Db → Db
unfolding owner
insert_owner id name timezone db = if is_some (owner db) then db else record db {
  owners = db.owners ++ (record { id = id; name = name; timezone = timezone }) ∷ [];
}

-- The transaction of `finishRegistration`: `passkey` is the credential's id and counter. It throws
-- where the passkey's id is taken or its owner is not there (a foreign key).
unfoldable pub register : Key → Key × ℕ → String → String → Key → Db → Option Db
unfolding insert_owner
register challenge_id passkey name timezone owner_id db =
    let db' = insert_owner owner_id name timezone db in
    let row : Passkey = record {
      id = passkey.0;
      owner_id = owner_id;
      counter = passkey.1;
      last_used_at = none;
    } in
    if is_some (get (λ p. p.id == passkey.0) db'.passkeys)
      || not (is_some (get (λ o. o.id == owner_id) db'.owners))
    then none
    else some (record db' {
      passkeys = db'.passkeys ++ row ∷ [];
      challenges = delete (λ c. c.id == challenge_id) db'.challenges;
      bootstrap = none;
    })

-- What `finishRegistration` writes after its transaction.
unfoldable pub registered : (Key → Key) → Key → Key → Key → Key → Time → Db → Db
unfolding create_session
registered hash passkey owner_id session token now db =
    create_session hash session token owner_id now (record db {
      journal =
          log_change EventType.passkey_registered (uuid owner_id) "auth.passkey.register" "passkey"
            (some (uuid passkey))
            (record blank { actor = some (uuid owner_id); subject_type = some "passkey" }) now
            db.journal;
    })

-- `challenge` and the checks of its context
unfoldable pub find_registration : Key → Time → Db → Result (Key × String × String × Key)
unfolding find_challenge owner verify_bootstrap_hash
find_registration challenge_id now db = do
  c ← find_challenge challenge_id registration now db
  elim c.context [
    | for_login id ↦ err 400
    | for_registration name timezone owner_id token_hash ↦
        (if is_some (owner db) then ok tt else verify_bootstrap_hash token_hash now db)
        >> ok (c.challenge, name, timezone, owner_id)
  ]

-- `finishRegistration`: `verify` is the check of the response by the library. An exception there or in
-- the transaction is the status 500.
unfoldable pub finish_registration :
    (Key → Key) → (Key → Verification (Key × ℕ)) → Key → Key → Key → Time → Db → Db × Result Key
unfolding prune_challenges find_registration register registered
finish_registration hash verify challenge_id session token now db =
    let db' = prune_challenges now db in
    elim (find_registration challenge_id now db') [
      | err e ↦ (db', err e)
      | ok (text, name, timezone, owner_id) ↦ elim (verify text) [
        | threw ↦ (db', err 500)
        | not_verified ↦ (db', err 400)
        | verified passkey ↦ elim (register challenge_id passkey name timezone owner_id db') [
          | none ↦ (db', err 500)
          | some db'' ↦ (registered hash passkey.0 owner_id session token now db'', ok token)
        ]
      ]
    ]

-- `updateOwner`, of a name or a timezone at least
unfoldable pub update_owner : Option String → Option String → Ident → Time → Db → Result Db
unfolding owner
update_owner name timezone actor now db = do
  o ← found (owner db) 404
  require (is_some name || is_some timezone) 400
  let (_, journal) = audit actor "owner.update" "owner" (some (uuid o.id)) now db.journal
  ok (record db {
    owners =
        update (λ x. x.id == o.id)
          (λ x. record x { name = or_else name o.name; timezone = or_else timezone o.timezone })
          db.owners;
    journal = journal;
  })
