-- ===== src/Auth/Challenges.antt =====
-- The challenges of AuthService (`storeChallenge`, `challenge`, `consumeChallenge`), the sign-in with
-- a passkey, and `revokePasskey`.
use matreshka_panel.Base.{
  ℕ, ◌+◌, Bool, not, ◌&&◌, none, some, [], ◌∷◌, ◌++◌, Time, Key, if◌then◌else◌, ◌==◌, leb, get,
  update, delete, count,
}
use matreshka_panel.Journal.Types.{EventType}
use matreshka_panel.Journal.Record.{Ident, uuid, blank, log_change}
use matreshka_panel.Registry.{Result, ok, err, ◌>>=◌, ◌>>◌, require, found}
use matreshka_panel.Auth.Tables.{
  Verification, threw, not_verified, verified, Passkey, Kind, authentication, kind_eq, Challenge,
  Context, for_login, Db, owner,
}
use matreshka_panel.Auth.Sessions.{create_session}

abbrev pub challenge_limit : ℕ
challenge_limit = 100

-- `addHours(0.17)`
abbrev pub challenge_ms : ℕ
challenge_ms = 612000

-- `pruneChallenges`
unfoldable pub prune_challenges : Time → Db → Db
prune_challenges now db = record db {
  challenges = delete (λ c. leb c.expires_at now) db.challenges;
}

abbrev pub of_kind : Kind → Challenge → Bool
of_kind k c = kind_eq c.kind k

-- `storeChallenge`: the tables after the pruning, and its result.
unfoldable pub store_challenge : Key → Kind → Key → Context → Time → Db → Db × Result Key
unfolding prune_challenges
store_challenge id k text context now db =
    let db' = prune_challenges now db in
    let row : Challenge = record {
      id = id;
      kind = k;
      challenge = text;
      context = context;
      expires_at = now + challenge_ms;
      created_at = now;
    } in
    if leb challenge_limit (count (of_kind k) db'.challenges)
    then (db', err 429)
    else (record db' { challenges = db'.challenges ++ row ∷ [] }, ok id)

-- `challenge`, on the tables that the pruning leaves.
unfoldable pub find_challenge : Key → Kind → Time → Db → Result Challenge
find_challenge id k now db = do
  c ← found (get (λ x. x.id == id) db.challenges) 400
  require (kind_eq c.kind k) 400
  require (not (leb c.expires_at now)) 400
  ok c

-- `authenticationOptions`; `text` is the challenge that the library draws.
unfoldable pub authentication_options : Key → Key → Time → Db → Db × Result Key
unfolding owner store_challenge
authentication_options id text now db = elim (owner db) [
  | none ↦ (db, err 409)
  | some o ↦ store_challenge id authentication text (for_login o.id) now db
]

-- The transaction of `finishAuthentication` and the session after it.
unfoldable pub signed_in : (Key → Key) → Key → Key → Key → ℕ → Key → Key → Time → Db → Db
unfolding create_session
signed_in hash challenge_id passkey_id owner_id counter session token now db =
    let db' = create_session hash session token owner_id now (record db {
      passkeys =
          update (λ p. p.id == passkey_id)
            (λ p. record p { counter = counter; last_used_at = some now }) db.passkeys;
      challenges = delete (λ c. c.id == challenge_id) db.challenges;
    }) in
    record db' {
      journal =
          log_change EventType.auth_login_succeeded (uuid owner_id) "auth.login" "session"
            (some (uuid session))
            (record blank { actor = some (uuid owner_id); subject_type = some "session" }) now
            db'.journal;
    }

-- `finishAuthentication`: `verify` is the check of the response by the library, with the new counter;
-- an exception is the status 500.
unfoldable pub finish_authentication :
    (Key → Key)
    → (Key → Passkey → Verification ℕ)
    → Key
    → Key
    → Key
    → Key
    → Time
    → Db
    → Db × Result Key
unfolding prune_challenges find_challenge signed_in
finish_authentication hash verify challenge_id passkey_id session token now db =
    let db' = prune_challenges now db in
    elim (find_challenge challenge_id authentication now db') [
      | err e ↦ (db', err e)
      | ok c ↦ elim (get (λ p. p.id == passkey_id) db'.passkeys) [
        | none ↦ (db', err 401)
        | some p ↦ elim (verify c.challenge p) [
          | threw ↦ (db', err 500)
          | not_verified ↦ (db', err 401)
          | verified counter ↦
              (signed_in hash challenge_id p.id p.owner_id counter session token now db', ok token)
        ]
      ]
    ]

abbrev pub of_owner : Key → Passkey → Bool
of_owner owner_id p = p.owner_id == owner_id

abbrev pub is_revoked : Key → Key → Passkey → Bool
is_revoked id owner_id p = p.id == id && p.owner_id == owner_id

-- `revokePasskey`
unfoldable pub revoke_passkey : Key → Ident → Time → Db → Result Db
unfolding owner
revoke_passkey id actor now db = do
  o ← found (owner db) 404
  require (not (leb (count (of_owner o.id) db.passkeys) 1)) 409
  require (not (count (is_revoked id o.id) db.passkeys == 0)) 404
  ok (record db {
    passkeys = delete (is_revoked id o.id) db.passkeys;
    journal =
        log_change EventType.passkey_revoked actor "auth.passkey.revoke" "passkey" (some (uuid id))
          (record blank { actor = some actor; subject_type = some "passkey" }) now db.journal;
  })
