-- ===== src/Auth/Offer.antt =====
-- The challenge that a registration with a valid link gets.
use matreshka_panel.Base.{
  count-delete, get-delete-none, ◌+◌, ◌<◌, ◌≡◌, refl, Bool, true, false, none, some, List, [], ◌∷◌,
  ◌++◌, Time, Key, ◌==◌, ==_refl, leb, get, delete, count, arith,
}
use matreshka_panel.Registry.{ok}
use matreshka_panel.Auth.Tables.{
  registration, Context, for_registration, Challenge, Bootstrap, Db, owner,
}
use matreshka_panel.Auth.Challenges.{
  challenge_limit, challenge_ms, of_kind, prune_challenges, store_challenge, find_challenge,
}
use matreshka_panel.Auth.Registration.{Applicant, Drawn, verify_bootstrap, registration_context}

get-delete_snoc :
    {A : Type 0} (p q : A → Bool) (xs : List A) (x : A)
    → get q xs ≡ none
    → q x ≡ true
    → p x ≡ false
    → get q (delete p (xs ++ x ∷ [])) ≡ some x
unfolding get delete
get-delete_snoc p q [] x h qx px = ground (arith, qx, px)
get-delete_snoc p q (y ∷ xs) x h qx px = ground (arith, h, get-delete_snoc p q xs x _ qx px)

abbrev pub row_of : Drawn → Context → Time → Challenge
row_of drawn context now = record {
  id = drawn.challenge_id;
  kind = registration;
  challenge = drawn.text;
  context = context;
  expires_at = now + challenge_ms;
  created_at = now;
}

abbrev pub offered : Drawn → Context → Time → Db → Db
offered drawn context now db = record db {
  challenges = delete (λ c. leb c.expires_at now) db.challenges ++ row_of drawn context now ∷ [];
}

pub store_challenge_room :
    (drawn : Drawn) (context : Context) (now : Time) (db : Db)
    → count (of_kind registration) db.challenges < challenge_limit
    → store_challenge drawn.challenge_id registration drawn.text context now db
      ≡ (offered drawn context now db, ok drawn.challenge_id)
unfolding store_challenge prune_challenges
store_challenge_room drawn context now db room =
    let few : leb challenge_limit
          (count (of_kind registration) (delete (λ c. leb c.expires_at now) db.challenges))
        ≡ false =
      ground (
        arith,
        room,
        count-delete (λ c. leb c.expires_at now) (of_kind registration) db.challenges,
      ) in
    rw few refl

-- The context of a registration with a valid link
pub context_first :
    (hash : Key → Key) (a : Applicant) (drawn : Drawn) (t : Key) (b : Bootstrap) (now : Time)
    (db : Db)
    → owner db ≡ none
    → a.bootstrap_token ≡ some t
    → db.bootstrap ≡ some b
    → leb b.expires_at now ≡ false
    → (hash t == b.token_hash) ≡ true
    → registration_context hash a none drawn now db
      ≡ ok (for_registration a.name a.timezone drawn.owner_id (some b.token_hash))
unfolding registration_context verify_bootstrap
context_first hash a drawn t b now db vacant has link live match =
    rw (vacant, has, link, live, match, registration_context, verify_bootstrap) refl

-- The challenge is found again in time.
pub find_offered :
    (drawn : Drawn) (context : Context) (now later : Time) (db : Db)
    → get (λ c. c.id == drawn.challenge_id) db.challenges ≡ none
    → later < now + challenge_ms
    → find_challenge drawn.challenge_id registration later
        (prune_challenges later (offered drawn context now db))
      ≡ ok (row_of drawn context now)
unfolding find_challenge prune_challenges
find_offered drawn context now later db new early =
    let in_time : leb (now + challenge_ms) later ≡ false = ground (arith, early) in
    let there =
      get-delete_snoc (λ c. leb c.expires_at later) (λ c. c.id == drawn.challenge_id)
        (delete (λ c. leb c.expires_at now) db.challenges) (row_of drawn context now)
        (get-delete-none (λ c. leb c.expires_at now) (λ c. c.id == drawn.challenge_id) db.challenges
          new)
        (==_refl drawn.challenge_id) in_time in
    rw (there, in_time) refl
