-- ===== src/Auth/Access.antt =====
-- What can be used to sign in: challenges once and in limited number, one passkey at least, and no
-- session that was ended.
use matreshka_panel.Base.{
  get-delete-none, count-delete, length-delete, ℕ, ◌+◌, ◌≤◌, ◌≡◌, refl, ap, true, false, ◌&&◌, none,
  some, List, [], ◌∷◌, Time, Key, ◌==◌, ==_iff, leb, get, delete, count, count-append, get-delete,
  All, arith, length,
}
use matreshka_panel.Journal.Record.{Ident}
use matreshka_panel.Registry.{ok, err}
use matreshka_panel.Auth.Tables.{
  Verification, Owner, Passkey, Session, Kind, kind_eq, Challenge, Context, Db, owner,
}
use matreshka_panel.Auth.Sessions.{
  create_session, with_session, authenticate, end_other_sessions, without_others, is_other,
}
use matreshka_panel.Auth.Challenges.{
  challenge_limit, prune_challenges, of_kind, store_challenge, find_challenge, signed_in,
  finish_authentication, of_owner, is_revoked, revoke_passkey,
}

kind_eq→eq : (a b : Kind) → kind_eq a b ≡ true → a ≡ b
kind_eq→eq a b h = ground arith

same_kind :
    (k other : Kind) (cs : List Challenge)
    → kind_eq k other ≡ true
    → count (of_kind k) cs ≡ count (of_kind other) cs
same_kind k other cs h = ap (λ x. count (of_kind x) cs) (kind_eq→eq k other h)

revoked-le :
    (id owner_id : Key) (ps : List Passkey)
    → count (λ p. is_revoked id owner_id p && of_owner owner_id p) ps ≤ count (λ p. p.id == id) ps
unfolding count
revoked-le id owner_id [] = omega arith
revoked-le id owner_id (p ∷ ps) = ground (arith, revoked-le id owner_id ps)

-- Storing a challenge of any kind never leaves more than 100 challenges of a kind.
pub challenges_bounded :
    (id : Key) (k : Kind) (text : Key) (context : Context) (now : Time) (other : Kind) (db : Db)
    → count (of_kind other) db.challenges ≤ challenge_limit
    → count (of_kind other) (store_challenge id k text context now db).0.challenges
      ≤ challenge_limit
unfolding store_challenge prune_challenges count
challenges_bounded id k text context now other db h =
    let kept = delete (λ c. leb c.expires_at now) db.challenges in
    ground (
      arith,
      h,
      count-delete (λ c. leb c.expires_at now) (of_kind other) db.challenges,
      count-append (of_kind other) kept (
          (record {
            id = id;
            kind = k;
            challenge = text;
            context = context;
            expires_at = now + 612000;
            created_at = now;
          })
          ∷ []),
      same_kind k other kept,
    )

finish-consumes :
    (hash : Key → Key) (verify : Key → Passkey → Verification ℕ)
    (id passkey session token answer : Key) (now : Time) (db db' : Db)
    → finish_authentication hash verify id passkey session token now db ≡ (db', ok answer)
    → get (λ c. c.id == id) db'.challenges ≡ none
unfolding finish_authentication signed_in create_session prune_challenges
finish-consumes hash verify id passkey session token answer now db db' e = ground (
  arith,
  e,
  get-delete (λ c. c.id == id) (λ c. c.id == id) (delete (λ c. leb c.expires_at now) db.challenges)
      (λ c h. h),
)

-- A challenge that was used to sign in is refused from then on, with 400, whatever passkey and
-- response come with it.
pub challenge_used_once :
    (hash : Key → Key) (verify verify' : Key → Passkey → Verification ℕ)
    (id passkey session token answer passkey' session' token' : Key) (now later : Time)
    (db db' : Db)
    → finish_authentication hash verify id passkey session token now db ≡ (db', ok answer)
    → (finish_authentication hash verify' id passkey' session' token' later db').1 ≡ err 400
unfolding finish_authentication find_challenge prune_challenges
challenge_used_once hash verify verify' id passkey session token answer passkey' session' token' now
      later db db' e =
    let gone =
      get-delete-none (λ c. leb c.expires_at later) (λ c. c.id == id) db'.challenges
        (finish-consumes hash verify id passkey session token answer now db db' e) in
    ground (arith, gone)

-- Passkeys have different ids. When one is revoked, the owner keeps at least one passkey.
pub revoke_keeps_one :
    (id : Key) (actor : Ident) (now : Time) (o : Owner) (db db' : Db)
    → owner db ≡ some o
    → count (λ p. p.id == id) db.passkeys ≤ 1
    → revoke_passkey id actor now db ≡ ok db'
    → 1 ≤ count (of_owner o.id) db'.passkeys
unfolding revoke_passkey
revoke_keeps_one id actor now o db db' at single e = ground (
  arith,
  at,
  single,
  e,
  count-delete (is_revoked id o.id) (of_owner o.id) db.passkeys,
  revoked-le id o.id db.passkeys,
)

ended :
    (o h other : Key) (ss : List Session)
    → (other == h) ≡ false
    → All (λ s. (s.owner_id == o) ≡ true) ss
    → get (λ s. s.token_hash == other) (delete (is_other o h) ss) ≡ none
unfolding get delete
ended o h other [] apart mine = refl
ended o h other (s ∷ ss) apart mine =
    ground (arith, apart, mine.0, ended o h other ss apart mine.1, ==_iff s.token_hash other)

-- The sessions are all of the owner, who ends all sessions but the current one. Then the call says
-- how many sessions are gone, and a session token with another hash than the current one no longer
-- authenticates a request.
pub ended_sessions_refused :
    (hash : Key → Key) (current other : Key) (actor : Ident) (now later : Time) (o : Owner)
    (db : Db)
    → owner db ≡ some o
    → All (λ s. (s.owner_id == o.id) ≡ true) db.sessions
    → (hash other == hash current) ≡ false
    → (db' : Db) × (n : ℕ) × (end_other_sessions hash (some current) actor now db ≡ ok (db', n))
      × (length db'.sessions + n ≡ length db.sessions)
      × ((authenticate hash (some other) none later db').1 ≡ none)
unfolding end_other_sessions without_others authenticate with_session
ended_sessions_refused hash current other actor now later o db at mine apart =
    let gone = ended o.id (hash current) (hash other) db.sessions apart mine in
    (
      without_others o.id (hash current) actor now db,
      count (is_other o.id (hash current)) db.sessions,
      rw (at, end_other_sessions) refl,
      length-delete (is_other o.id (hash current)) db.sessions,
      ground (arith, gone),
    )
