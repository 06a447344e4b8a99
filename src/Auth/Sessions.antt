-- ===== src/Auth/Sessions.antt =====
-- `createSession`, `authenticate`, `logout`, `endOtherSessions` and `revokeSession` of AuthService,
-- outside the demo.
use matreshka_panel.Base.{
  ℕ, ◌+◌, ◌*◌, Bool, true, not, ◌&&◌, Option, none, some, List, [], ◌∷◌, ◌++◌, Time, Key, String,
  if◌then◌else◌, ◌==◌, leb, is_some, get, update, delete, count, hour_ms,
}
use matreshka_panel.Base.Int.{pos}
use matreshka_panel.Journal.Json.{object, field, number, end}
use matreshka_panel.Journal.Types.{EventType}
use matreshka_panel.Journal.Record.{Ident, uuid, blank, log_change}
use matreshka_panel.Registry.{Result, ok, ◌>>=◌, ◌>>◌, require, found}
use matreshka_panel.Auth.Tables.{Owner, Session, Token, Db, owner}

abbrev pub session_hours : ℕ
session_hours = 24 * 30

-- `createSession`
unfoldable pub create_session : (Key → Key) → Key → Key → Key → Time → Db → Db
create_session hash id token owner_id now db = record db {
  sessions =
      db.sessions
      ++ (record {
        id = id;
        owner_id = owner_id;
        token_hash = hash token;
        expires_at = now + session_hours * hour_ms;
        created_at = now;
        last_seen_at = now;
      })
        ∷ [];
}

-- Who a request is from: an API token, or the owner (if there is one).
pub data Identity : Type 0 where
  by_token : Key → List String → Identity
  by_session : Option Owner → Identity

abbrev pub is_valid_token : Token → Time → Bool
is_valid_token t now = elim t.expires_at as (λ _. Bool) [ none ↦ true | some e ↦ not (leb e now) ]

-- `SELECT ... FROM api_tokens WHERE token_hash = ? AND revoked_at IS NULL`
unfoldable pub find_token : Key → Db → Option Token
find_token h db = get (λ t. t.token_hash == h && not (is_some t.revoked_at)) db.tokens

-- The part of `authenticate` for a session.
unfoldable pub with_session : Key → Time → Db → Db × Option Identity
unfolding owner
with_session h now db = elim (get (λ s. s.token_hash == h) db.sessions) [
  | none ↦ (db, none)
  | some s ↦ if leb s.expires_at now then (db, none) else (
    record db {
      sessions = update (λ x. x.id == s.id) (λ x. record x { last_seen_at = now }) db.sessions;
    },
    some (by_session (owner db)),
  )
]

-- The part of `authenticate` for an API token.
unfoldable pub with_token : Key → Time → Db → Db × Option Identity
unfolding find_token with_session
with_token h now db = elim (find_token h db) [
  | none ↦ with_session h now db
  | some t ↦
      if is_valid_token t now
      then (
        record db {
          tokens = update (λ x. x.id == t.id) (λ x. record x { last_used_at = some now }) db.tokens;
        },
        some (by_token t.id t.scopes),
      )
      else with_session h now db
]

-- `sessionToken || (authorization?.startsWith("Bearer ") ? authorization.slice(7) : undefined)`: a
-- `bearer` is such a header, with its text if that is not empty.
abbrev pub token_of : Option Key → Option (Option Key) → Option Key
token_of (some t) bearer = some t
token_of none none = none
token_of none (some t) = t

-- `authenticate`
unfoldable pub authenticate :
    (Key → Key) → Option Key → Option (Option Key) → Time → Db → Db × Option Identity
unfolding with_token with_session
authenticate hash session_token bearer now db = elim (token_of session_token bearer) [
  | none ↦ (db, none)
  | some t ↦ if is_some bearer then with_token (hash t) now db else with_session (hash t) now db
]

-- `logout`
unfoldable pub logout : (Key → Key) → Option Key → Db → Db
logout hash none db = db
logout hash (some token) db = record db {
  sessions = delete (λ s. s.token_hash == hash token) db.sessions;
}

abbrev pub is_other : Key → Key → Session → Bool
is_other owner_id h s = s.owner_id == owner_id && not (s.token_hash == h)

-- What `endOtherSessions` writes.
unfoldable pub without_others : Key → Key → Ident → Time → Db → Db
without_others owner_id h actor now db = record db {
  sessions = delete (is_other owner_id h) db.sessions;
  journal =
      log_change EventType.sessions_revoked_others actor "auth.sessions.revoke_others" "session"
        none
        (record blank {
          actor = some actor;
          subject_type = some "session";
          payload =
              object (field "revoked" (number (pos (count (is_other owner_id h) db.sessions))) end);
        })
        now db.journal;
}

-- `endOtherSessions`: the tables and the number of sessions ended.
unfoldable pub end_other_sessions : (Key → Key) → Option Key → Ident → Time → Db → Result (Db × ℕ)
unfolding owner without_others
end_other_sessions hash session_token actor now db = do
  o ← found (owner db) 404
  token ← found session_token 400
  ok (without_others o.id (hash token) actor now db, count (is_other o.id (hash token)) db.sessions)

-- `revokeSession`
unfoldable pub revoke_session : (Key → Key) → Key → Option Key → Ident → Time → Db → Result Db
unfolding owner
revoke_session hash id session_token actor now db = do
  o ← found (owner db) 404
  token ← found session_token 400
  s ← found (get (λ x. x.id == id && x.owner_id == o.id) db.sessions) 404
  require (not (s.token_hash == hash token)) 409
  ok (record db {
    sessions = delete (λ x. x.id == id && x.owner_id == o.id) db.sessions;
    journal =
        log_change EventType.session_revoked actor "auth.session.revoke" "session" (some (uuid id))
          (record blank { actor = some actor; subject_type = some "session" }) now db.journal;
  })
