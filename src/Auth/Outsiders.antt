-- ===== src/Auth/Outsiders.antt =====
-- What those can call who have no session of the owner, and that no registration succeeds.
use matreshka_panel.Base.{
  ℕ, ◌≡◌, ◌∙◌, refl, ap, Bool, true, false, not, ◌||◌, Option, none, some, List, [], ◌∷◌, Time, Key,
  String, if◌then◌else◌, ◌==◌, leb, get, delete, All, All-get, inl, inr, Bool-cases, is_some, arith,
}
use matreshka_panel.Registry.{
  Result, ok, err, ◌>>◌, require, found, bind_ok, found_ok, Result-cases,
}
use matreshka_panel.Auth.Tables.{
  Owner, Passkey, Verification, threw, not_verified, verified, Context, for_login, for_registration,
  Challenge, Kind, kind_eq, registration, Db, owner,
}
use matreshka_panel.Auth.Challenges.{
  prune_challenges, find_challenge, authentication_options, finish_authentication,
}
use matreshka_panel.Auth.Registration.{
  Applicant, Drawn, registration_context, registration_options, insert_owner, register,
  find_registration, verify_bootstrap_hash, finish_registration,
}

abbrev pub is_him : Key → Option Key → Bool
is_him owner_id none = false
is_him owner_id (some id) = id == owner_id

-- A call of the service by a request that is not the owner's: `who` is the identity it has, if any.
pub data Step (hash : Key → Key) (owner_id : Key) : Db → Db → Type 0 where
  ask_registration :
      (a : Applicant) (who : Option Key) (drawn : Drawn) (now : Time) (db : Db)
      → is_him owner_id who ≡ false
      → Step hash owner_id db (registration_options hash a who drawn now db).0
  end_registration :
      (verify : Key → Verification (Key × ℕ)) (id session token : Key) (now : Time) (db : Db)
      → Step hash owner_id db (finish_registration hash verify id session token now db).0
  ask_login :
      (id text : Key) (now : Time) (db : Db)
      → Step hash owner_id db (authentication_options id text now db).0
  end_login :
      (verify : Key → Passkey → Verification ℕ) (id passkey session token : Key) (now : Time)
      (db : Db)
      → Step hash owner_id db (finish_authentication hash verify id passkey session token now db).0

-- Any sequence of such calls
pub data Reachable (hash : Key → Key) (owner_id : Key) (start : Db) : Db → Type 0 where
  here : Reachable hash owner_id start start
  next :
      {db db' : Db}
      → Reachable hash owner_id start db
      → Step hash owner_id db db'
      → Reachable hash owner_id start db'

-- A challenge that does not register a passkey of the owner
abbrev pub is_foreign : Key → Challenge → Bool
is_foreign owner_id c = elim c.context as (λ _. Bool) [
  | for_login id ↦ true
  | for_registration name timezone id token_hash ↦ not (id == owner_id)
]

-- One owner, and no challenge left that adds a passkey of that owner.
pub record IsClosed (o : Owner) (db : Db) : Type 0 where
  pub one : db.owners ≡ o ∷ []
  pub foreign : All (λ c. is_foreign o.id c ≡ true) db.challenges

pub All-delete :
    {A : Type 0} (P : A → Type 0) (p : A → Bool) (xs : List A) → All P xs → All P (delete p xs)
unfolding delete
All-delete P p [] h = tt
All-delete P p (x ∷ xs) h = elim (Bool-cases (p x)) [
  | inl gone ↦ rw gone (All-delete P p xs h.1)
  | inr kept ↦ rw kept (h.0, All-delete P p xs h.1)
]

pub prune-IsClosed :
    (o : Owner) (now : Time) (db : Db) → IsClosed o db → IsClosed o (prune_challenges now db)
unfolding prune_challenges
prune-IsClosed o now db h = record {
  one = h.one;
  foreign =
      All-delete (λ c. is_foreign o.id c ≡ true) (λ c. leb c.expires_at now) db.challenges
        h.foreign;
}

pub owner-IsClosed : (o : Owner) (db : Db) → IsClosed o db → owner db ≡ some o
unfolding owner get
owner-IsClosed o db h = rw (h.one) refl

by_or : {A : Type 0} (b : Bool) (a : A) → (if b || true then none else some a) ≡ none
by_or b a = ground arith

find_challenge_found :
    (id : Key) (k : Kind) (now : Time) (db : Db) (c : Challenge)
    → find_challenge id k now db ≡ ok c
    → get (λ x. x.id == id) db.challenges ≡ some c
unfolding find_challenge
find_challenge_found id k now db c h =
    let (c', there, h1) = bind_ok (found (get (λ x. x.id == id) db.challenges) 400) _ c h in
    let (u, same_kind, h2) = bind_ok (require (kind_eq c'.kind k) 400) _ c h1 in
    let (v, in_time, h3) = bind_ok (require (not (leb c'.expires_at now)) 400) _ c h2 in
    let same : c' ≡ c = ground (arith, h3) in
    found_ok (get (λ x. x.id == id) db.challenges) 400 c' there ∙ ap some same

context_foreign :
    (o owner_id text text' : Key) (name timezone : String) (now : Time) (db : Db) (c : Challenge)
    (context : Context)
    → c.context ≡ context
    → is_foreign o c ≡ true
    → (elim context as (λ _. Result (Key × String × String × Key)) [
      | for_login id ↦ err 400
      | for_registration n t i token_hash ↦
          (if is_some (owner db) then ok tt else verify_bootstrap_hash token_hash now db)
          >> ok (text, n, t, i)
    ])
      ≡ ok (text', name, timezone, owner_id)
    → (owner_id == o) ≡ false
context_foreign o owner_id text text' name timezone now db c (for_login id) has foreign h = cc
context_foreign o owner_id text text' name timezone now db c (for_registration n t i token_hash) has
      foreign h =
    let (u, passed, h1) =
      bind_ok (if is_some (owner db) then ok tt else verify_bootstrap_hash token_hash now db) _ _
        h in
    let same : i ≡ owner_id = ground (arith, h1) in
    let other : not (i == o) ≡ true = rw has at foreign in ground (arith, same, other)

-- A registration that would end is not for the owner there is.
found_foreign :
    (o : Owner) (id text owner_id : Key) (name timezone : String) (now : Time) (db : Db)
    → IsClosed o db
    → find_registration id now db ≡ ok (text, name, timezone, owner_id)
    → (owner_id == o.id) ≡ false
unfolding find_registration
found_foreign o id text owner_id name timezone now db closed h =
    let (c, there, h1) = bind_ok (find_challenge id registration now db) _ _ h in
    let mine =
      All-get (λ x. is_foreign o.id x ≡ true) (λ x. x.id == id) db.challenges c closed.foreign
        (find_challenge_found id registration now db c there) in
    context_foreign o.id owner_id c.challenge text name timezone now db c c.context refl mine h1

register_foreign :
    (o : Owner) (challenge_id : Key) (passkey : Key × ℕ) (name timezone : String) (owner_id : Key)
    (db : Db)
    → IsClosed o db
    → (owner_id == o.id) ≡ false
    → register challenge_id passkey name timezone owner_id db ≡ none
unfolding register insert_owner get
register_foreign o challenge_id passkey name timezone owner_id db closed other =
    let absent : get (λ x. x.id == owner_id) db.owners ≡ none =
      ap (get (λ x. x.id == owner_id)) (closed.one) ∙ ground (arith, other) in
    rw (owner-IsClosed o db closed, absent)
      (by_or (is_some (get (λ p. p.id == passkey.0) db.passkeys)) _)

finish_with :
    (hash : Key → Key) (verify : Key → Verification (Key × ℕ)) (id session token : Key) (now : Time)
    (db : Db) (v : Verification (Key × ℕ)) (text owner_id : Key) (name timezone : String)
    → find_registration id now (prune_challenges now db) ≡ ok (text, name, timezone, owner_id)
    → verify text ≡ v
    → ((passkey : Key × ℕ)
        → register id passkey name timezone owner_id (prune_challenges now db) ≡ none)
    → (status : ℕ) × (finish_registration hash verify id session token now db
        ≡ (prune_challenges now db, err status))
unfolding finish_registration
finish_with hash verify id session token now db threw text owner_id name timezone h e fails =
    (500, rw (h, finish_registration, e) refl)
finish_with hash verify id session token now db not_verified text owner_id name timezone h e fails =
    (400, rw (h, finish_registration, e) refl)
finish_with hash verify id session token now db (verified p) text owner_id name timezone h e fails =
    (500, rw (h, finish_registration, e, fails p) refl)

finish_refused :
    (hash : Key → Key) (verify : Key → Verification (Key × ℕ)) (id session token : Key) (now : Time)
    (db : Db) (status : ℕ)
    → find_registration id now (prune_challenges now db) ≡ err status
    → finish_registration hash verify id session token now db
      ≡ (prune_challenges now db, err status)
unfolding finish_registration
finish_refused hash verify id session token now db status h = rw (h, finish_registration) refl

-- Every attempt to end a registration fails, and only removes challenges that have expired.
pub finish_foreign :
    (o : Owner) (hash : Key → Key) (verify : Key → Verification (Key × ℕ)) (id session token : Key)
    (now : Time) (db : Db)
    → IsClosed o db
    → (status : ℕ) × (finish_registration hash verify id session token now db
        ≡ (prune_challenges now db, err status))
finish_foreign o hash verify id session token now db closed =
    let kept = prune-IsClosed o now db closed in
    elim (Result-cases (find_registration id now (prune_challenges now db))) [
      | inl (status, refused) ↦
          (status, finish_refused hash verify id session token now db status refused)
      | inr ((text, name, timezone, owner_id), there) ↦
          finish_with hash verify id session token now db (verify text) text owner_id name timezone
            there refl
            (λ p. register_foreign o id p name timezone owner_id (prune_challenges now db) kept (
              found_foreign o id text owner_id name timezone now (prune_challenges now db) kept
                there))
    ]

-- Nobody but the owner is given a challenge for a passkey.
pub options_foreign :
    (o : Owner) (hash : Key → Key) (a : Applicant) (who : Option Key) (drawn : Drawn) (now : Time)
    (db : Db)
    → IsClosed o db
    → is_him o.id who ≡ false
    → registration_options hash a who drawn now db ≡ (db, err 401)
unfolding registration_options registration_context
options_foreign o hash a none drawn now db closed other =
    rw (owner-IsClosed o db closed, registration_options, registration_context) refl
options_foreign o hash a (some id) drawn now db closed other =
    rw (owner-IsClosed o db closed, registration_options, registration_context, other) refl
