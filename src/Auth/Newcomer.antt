-- ===== src/Auth/Newcomer.antt =====
-- The tables after the first registration.
use matreshka_panel.Base.{
  ℕ, ◌+◌, ◌*◌, ◌<◌, ◌≡◌, ◌∙◌, refl, true, false, none, some, List, [], ◌∷◌, ◌++◌, Time, Key, String,
  ◌==◌, ==_refl, leb, get, delete, get-append, hour_ms, arith,
}
use matreshka_panel.Registry.{ok}
use matreshka_panel.Auth.Tables.{
  Owner, Session, registration, for_registration, Challenge, Bootstrap, Db, owner,
}
use matreshka_panel.Auth.Sessions.{
  by_session, create_session, session_hours, with_session, authenticate,
}
use matreshka_panel.Auth.Challenges.{find_challenge}
use matreshka_panel.Auth.Registration.{
  verify_bootstrap_hash, insert_owner, register, registered, find_registration,
}

pub find_registration_first :
    (id text owner_id : Key) (name timezone : String) (b : Bootstrap) (c : Challenge) (now : Time)
    (db : Db)
    → owner db ≡ none
    → db.bootstrap ≡ some b
    → leb b.expires_at now ≡ false
    → find_challenge id registration now db ≡ ok c
    → c.context ≡ for_registration name timezone owner_id (some b.token_hash)
    → find_registration id now db ≡ ok (c.challenge, name, timezone, owner_id)
unfolding find_registration verify_bootstrap_hash
find_registration_first id text owner_id name timezone b c now db vacant link live there context =
    rw
      (
        there,
        find_registration,
        context,
        vacant,
        link,
        live,
        ==_refl b.token_hash,
        verify_bootstrap_hash,
      )
      refl

abbrev pub with_owner : Key → Key × ℕ → String → String → Key → Db → Db
with_owner challenge_id passkey name timezone owner_id db = record db {
  owners = db.owners ++ (record { id = owner_id; name = name; timezone = timezone }) ∷ [];
  passkeys =
      db.passkeys
      ++ (record { id = passkey.0; owner_id = owner_id; counter = passkey.1; last_used_at = none })
        ∷ [];
  challenges = delete (λ c. c.id == challenge_id) db.challenges;
  bootstrap = none;
}

pub no_rows : (os : List Owner) → get (λ o. true) os ≡ none → os ≡ []
unfolding get
no_rows [] h = refl
no_rows (o ∷ os) h = cc

pub register_first :
    (challenge_id : Key) (passkey : Key × ℕ) (name timezone : String) (owner_id : Key) (db : Db)
    → owner db ≡ none
    → get (λ p. p.id == passkey.0) db.passkeys ≡ none
    → register challenge_id passkey name timezone owner_id db
      ≡ some (with_owner challenge_id passkey name timezone owner_id db)
unfolding register insert_owner owner get
register_first challenge_id passkey name timezone owner_id db vacant new =
    rw (vacant, new, no_rows db.owners vacant, ==_refl owner_id) refl

with_session_found :
    (h : Key) (now : Time) (db : Db) (s : Session)
    → get (λ x. x.token_hash == h) db.sessions ≡ some s
    → leb s.expires_at now ≡ false
    → (with_session h now db).1 ≡ some (by_session (owner db))
unfolding with_session
with_session_found h now db s there live = rw (there, with_session, live) refl

module _ (hash : Key → Key) (challenge_id : Key) (passkey : Key × ℕ) (name timezone : String)
    (owner_id session token : Key) (now : Time) (db : Db) where
  pub owner-registered :
      owner db ≡ none
      → owner (
          registered hash passkey.0 owner_id session token now
            (with_owner challenge_id passkey name timezone owner_id db))
        ≡ some (record { id = owner_id; name = name; timezone = timezone })
  unfolding owner registered create_session get
  owner-registered vacant = rw (no_rows db.owners vacant) refl

  get_session-registered :
      get (λ s. s.token_hash == hash token) db.sessions ≡ none
      → get
          (λ s. s.token_hash == hash token)
          (registered hash passkey.0 owner_id session token now
            (with_owner challenge_id passkey name timezone owner_id db)).sessions
        ≡ some (record {
          id = session;
          owner_id = owner_id;
          token_hash = hash token;
          expires_at = now + session_hours * hour_ms;
          created_at = now;
          last_seen_at = now;
        })
  unfolding registered create_session get
  get_session-registered new =
      get-append (λ s. s.token_hash == hash token) db.sessions
        ((record {
          id = session;
          owner_id = owner_id;
          token_hash = hash token;
          expires_at = now + session_hours * hour_ms;
          created_at = now;
          last_seen_at = now;
        })
          ∷ [])
      ∙ rw (new, ==_refl (hash token)) refl

  pub session-registered :
      (later : Time)
      → get (λ s. s.token_hash == hash token) db.sessions ≡ none
      → later < now + session_hours * hour_ms
      → let db' =
          registered hash passkey.0 owner_id session token now
            (with_owner challenge_id passkey name timezone owner_id db) in
        (authenticate hash (some token) none later db').1 ≡ some (by_session (owner db'))
  unfolding authenticate
  session-registered later new early =
      let row : Session = record {
        id = session;
        owner_id = owner_id;
        token_hash = hash token;
        expires_at = now + session_hours * hour_ms;
        created_at = now;
        last_seen_at = now;
      } in
      with_session_found (hash token) later
        (registered hash passkey.0 owner_id session token now
          (with_owner challenge_id passkey name timezone owner_id db))
        row (get_session-registered new) (ground (arith, early))
