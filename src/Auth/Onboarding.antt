-- ===== src/Auth/Onboarding.antt =====
-- How the first owner comes about, and what the link is worth afterwards.
use matreshka_panel.Base.{
  false, Bool, ◌||◌, ◌∙◌, sym, ap, subst, List, [], ◌∷◌, ◌++◌, ==_refl, leb, delete, All,
  All-append, inl, inr, Bool-cases, ℕ, ◌+◌, ◌*◌, ◌<◌, ◌≤◌, ◌≡◌, refl, true, Option, none, some,
  Time, Key, String, ◌==◌, get, count, hour_ms, arith,
}
use matreshka_panel.Registry.{ok, err, found}
use matreshka_panel.Auth.Tables.{
  Verification, verified, Challenge, Owner, registration, Context, for_registration, Bootstrap, Db,
  owner,
}
use matreshka_panel.Auth.Sessions.{create_session, by_session, session_hours, authenticate}
use matreshka_panel.Auth.Challenges.{challenge_limit, challenge_ms, of_kind, prune_challenges}
use matreshka_panel.Auth.Registration.{
  Applicant, Drawn, registration_context, registration_options, register, registered,
  find_registration, finish_registration,
}
use matreshka_panel.Auth.Outsiders.{
  is_him, Reachable, is_foreign, IsClosed, All-delete, finish_foreign, options_foreign,
}
use matreshka_panel.Auth.Reached.{passkey_ids, reached-IsKept}
use matreshka_panel.Auth.Offer.{row_of, offered, store_challenge_room, context_first, find_offered}
use matreshka_panel.Auth.Newcomer.{
  no_rows, find_registration_first, with_owner, register_first, session-registered,
}

options_first :
    (hash : Key → Key) (a : Applicant) (drawn : Drawn) (context : Context) (now : Time) (db : Db)
    → registration_context hash a none drawn now db ≡ ok context
    → count (of_kind registration) db.challenges < challenge_limit
    → registration_options hash a none drawn now db
      ≡ (offered drawn context now db, ok drawn.challenge_id)
unfolding registration_options
options_first hash a drawn context now db e room =
    rw (e, registration_options) (store_challenge_room drawn context now db room)

finish_first :
    (hash : Key → Key) (verify : Key → Verification (Key × ℕ))
    (id session token text owner_id : Key) (name timezone : String) (passkey : Key × ℕ) (now : Time)
    (db db' : Db)
    → find_registration id now (prune_challenges now db) ≡ ok (text, name, timezone, owner_id)
    → verify text ≡ verified passkey
    → register id passkey name timezone owner_id (prune_challenges now db) ≡ some db'
    → finish_registration hash verify id session token now db
      ≡ (registered hash passkey.0 owner_id session token now db', ok token)
unfolding finish_registration
finish_first hash verify id session token text owner_id name timezone passkey now db db' found
      accepted written =
    rw (found, finish_registration, accepted, written) refl

All-delete_left :
    (p q : Challenge → Bool) (cs : List Challenge)
    → All (λ c. (p c || q c) ≡ true) cs
    → All (λ c. q c ≡ true) (delete p cs)
unfolding delete
All-delete_left p q [] h = tt
All-delete_left p q (c ∷ cs) h = elim (Bool-cases (p c)) [
  | inl gone ↦ rw gone (All-delete_left p q cs h.1)
  | inr kept ↦ rw kept (rw kept at h.0, All-delete_left p q cs h.1)
]

All-or_right :
    (p q : Challenge → Bool) (cs : List Challenge)
    → All (λ c. q c ≡ true) cs
    → All (λ c. (p c || q c) ≡ true) cs
All-or_right p q [] h = tt
All-or_right p q (c ∷ cs) h = (ground (arith, h.0), All-or_right p q cs h.1)

-- The challenges that are left after the first registration.
left_foreign :
    (drawn : Drawn) (context : Context) (now later : Time) (db : Db)
    → All (λ c. is_foreign drawn.owner_id c ≡ true) db.challenges
    → All
        (λ c. is_foreign drawn.owner_id c ≡ true)
        (delete
          (λ c. c.id == drawn.challenge_id)
          (prune_challenges later (offered drawn context now db)).challenges)
unfolding prune_challenges
left_foreign drawn context now later db foreign =
    let used : Challenge → Bool = λ c. c.id == drawn.challenge_id in
    let strange : Challenge → Bool = is_foreign drawn.owner_id in
    let before = delete (λ c. leb c.expires_at now) db.challenges in
    All-delete_left used strange
      (delete (λ c. leb c.expires_at later) (before ++ row_of drawn context now ∷ []))
      (All-delete (λ c. (used c || strange c) ≡ true) (λ c. leb c.expires_at later)
        (before ++ row_of drawn context now ∷ [])
        (All-append (λ c. (used c || strange c) ≡ true) before (row_of drawn context now ∷ [])
          (All-or_right used strange before
            (All-delete (λ c. strange c ≡ true) (λ c. leb c.expires_at now) db.challenges foreign))
          (rw (==_refl drawn.challenge_id) refl, tt)))

registered-IsClosed :
    (hash : Key → Key) (challenge_id : Key) (passkey : Key × ℕ) (name timezone : String)
    (owner_id session token : Key) (now : Time) (db : Db)
    → owner db ≡ none
    → All (λ c. is_foreign owner_id c ≡ true) (delete (λ c. c.id == challenge_id) db.challenges)
    → IsClosed
        (record { id = owner_id; name = name; timezone = timezone })
        (registered hash passkey.0 owner_id session token now
          (with_owner challenge_id passkey name timezone owner_id db))
unfolding registered create_session owner
registered-IsClosed hash challenge_id passkey name timezone owner_id session token now db vacant
      foreign =
    record { one = rw (no_rows db.owners vacant) refl; foreign = foreign }

-- There is no owner. The drawn ids and the session's hash are new, no stored challenge is for the drawn
-- owner, and there is room for a challenge. Within the time of the challenge and of the link, a
-- registration with the link's token makes the applicant the only owner, and its session lets
-- requests in for 30 days. From then on, after any calls of registration and sign-in that do not come
-- with the owner's identity, the owner and the ids of the passkeys are still the same, a request for a
-- challenge for a passkey without that identity is refused with 401, whatever token of a link it has,
-- and every attempt to end a registration fails.
pub first_owner_once :
    (hash : Key → Key) (verify verify' : Key → Verification (Key × ℕ)) (a a' : Applicant)
    (drawn drawn' : Drawn) (passkey : Key × ℕ) (session token t : Key) (now later after ever : Time)
    (b : Bootstrap) (who : Option Key) (challenge' session' token' : Key) (db reached : Db)
    → owner db ≡ none
    → a.bootstrap_token ≡ some t
    → db.bootstrap ≡ some b
    → (hash t == b.token_hash) ≡ true
    → now ≤ later
    → later < b.expires_at
    → later < now + challenge_ms
    → after < later + session_hours * hour_ms
    → count (of_kind registration) db.challenges < challenge_limit
    → get (λ c. c.id == drawn.challenge_id) db.challenges ≡ none
    → get (λ p. p.id == passkey.0) db.passkeys ≡ none
    → get (λ s. s.token_hash == hash token) db.sessions ≡ none
    → All (λ c. is_foreign drawn.owner_id c ≡ true) db.challenges
    → verify drawn.text ≡ verified passkey
    → is_him drawn.owner_id who ≡ false
    → Reachable hash drawn.owner_id
        (finish_registration hash verify drawn.challenge_id session token later
          (registration_options hash a none drawn now db).0).0
        reached
    → (db' db'' : Db) × (status : ℕ) × (registration_options hash a none drawn now db
        ≡ (db', ok drawn.challenge_id))
      × (finish_registration hash verify drawn.challenge_id session token later db'
          ≡ (db'', ok token))
      × (db''.owners ≡ (record { id = drawn.owner_id; name = a.name; timezone = a.timezone }) ∷ [])
      × ((authenticate hash (some token) none after db'').1 ≡ some (by_session (owner db'')))
      × (reached.owners ≡ db''.owners)
      × (passkey_ids reached ≡ passkey_ids db'')
      × (registration_options hash a' who drawn' ever reached ≡ (reached, err 401))
      × ((finish_registration hash verify' challenge' session' token' ever reached).1 ≡ err status)
unfolding prune_challenges owner
first_owner_once hash verify verify' a a' drawn drawn' passkey session token t now later after ever
      b who challenge' session' token' db reached vacant has link match order live early fresh room
      new_id new_key new_session foreign accepted stranger steps =
    let context = for_registration a.name a.timezone drawn.owner_id (some b.token_hash) in
    let asked = offered drawn context now db in
    let kept = prune_challenges later asked in
    let o : Owner = record { id = drawn.owner_id; name = a.name; timezone = a.timezone } in
    let db'' =
      registered hash passkey.0 drawn.owner_id session token later
        (with_owner drawn.challenge_id passkey a.name a.timezone drawn.owner_id kept) in
    let begun =
      options_first hash a drawn context now db
        (context_first hash a drawn t b now db vacant has link (ground arith) match) room in
    let ended =
      finish_first hash verify drawn.challenge_id session token drawn.text drawn.owner_id a.name
        a.timezone passkey later asked
        (with_owner drawn.challenge_id passkey a.name a.timezone drawn.owner_id kept)
        (find_registration_first drawn.challenge_id drawn.text drawn.owner_id a.name a.timezone b
          (row_of drawn context now) later kept vacant link (ground arith)
          (find_offered drawn context now later db new_id early) refl)
        accepted
        (register_first drawn.challenge_id passkey a.name a.timezone drawn.owner_id kept vacant
          new_key) in
    let closed =
      registered-IsClosed hash drawn.challenge_id passkey a.name a.timezone drawn.owner_id session
        token later kept vacant (left_foreign drawn context now later db foreign) in
    let whole : (finish_registration hash verify drawn.challenge_id session token later
          (registration_options hash a none drawn now db).0).0
        ≡ db'' =
      ap (λ x. (finish_registration hash verify drawn.challenge_id session token later x.0).0) begun
      ∙ ap (λ x. x.0) ended in
    let still =
      reached-IsKept o hash db'' reached (subst (λ x. Reachable hash o.id x reached) whole steps)
        closed in
    let fails =
      finish_foreign o hash verify' challenge' session' token' ever reached still.closed in
    (
      asked,
      db'',
      fails.0,
      begun,
      ended,
      closed.one,
      session-registered hash drawn.challenge_id passkey a.name a.timezone drawn.owner_id session
          token later kept after new_session fresh,
      still.closed.one ∙ sym closed.one,
      still.passkeys,
      options_foreign o hash a' who drawn' ever reached still.closed stranger,
      ap (λ x. x.1) fails.1,
    )
