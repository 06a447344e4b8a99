-- ===== src/Auth/Reached.antt =====
-- What any calls of those who have no session of the owner keep.
use matreshka_panel.Base.{
  ℕ, ◌+◌, ◌≡◌, ◌∙◌, refl, sym, subst, Bool, true, some, List, [], ◌∷◌, map, Time, Key, ◌==◌, leb,
  get, update, delete, All-append, inl, inr, Bool-cases, Option-cases, count, arith,
}
use matreshka_panel.Registry.{ok, Result-cases}
use matreshka_panel.Auth.Tables.{
  Owner, Passkey, Verification, threw, not_verified, verified, for_login, Challenge, Kind, Db,
}
use matreshka_panel.Auth.Sessions.{create_session}
use matreshka_panel.Auth.Challenges.{
  challenge_limit, challenge_ms, of_kind, prune_challenges, store_challenge, find_challenge,
  authentication_options, signed_in, finish_authentication,
}
use matreshka_panel.Auth.Outsiders.{
  Step, ask_registration, end_registration, ask_login, end_login, Reachable, here, next, is_foreign,
  IsClosed, All-delete, prune-IsClosed, owner-IsClosed, finish_foreign, options_foreign,
}

-- The ids of the passkeys
abbrev pub passkey_ids : Db → List Key
passkey_ids db = map (λ p. p.id) db.passkeys

-- What the steps keep
pub record IsKept (o : Owner) (db db' : Db) : Type 0 where
  pub closed : IsClosed o db'
  pub passkeys : passkey_ids db' ≡ passkey_ids db

pruned : (o : Owner) (now : Time) (db : Db) → IsClosed o db → IsKept o db (prune_challenges now db)
unfolding prune_challenges
pruned o now db h = record { closed = prune-IsClosed o now db h; passkeys = refl }

store-IsKept :
    (o : Owner) (id text now : Key) (owner_id : Key) (db : Db)
    → IsClosed o db
    → IsKept o db (store_challenge id Kind.authentication text (for_login owner_id) now db).0
unfolding store_challenge prune_challenges
store-IsKept o id text now owner_id db h =
    let kept = pruned o now db h in
    elim (Bool-cases (
      leb challenge_limit
        (count (of_kind Kind.authentication) (delete (λ c. leb c.expires_at now) db.challenges)))) [
          | inl full ↦ rw full kept
          | inr room ↦ rw room (record {
            closed = record {
              one = h.one;
              foreign =
                  All-append (λ c. is_foreign o.id c ≡ true)
                    (delete (λ c. leb c.expires_at now) db.challenges)
                    ((record {
                      id = id;
                      kind = Kind.authentication;
                      challenge = text;
                      context = for_login owner_id;
                      expires_at = now + challenge_ms;
                      created_at = now;
                    })
                      ∷ [])
                    (All-delete (λ c. is_foreign o.id c ≡ true) (λ c. leb c.expires_at now)
                      db.challenges h.foreign)
                    (refl, tt);
            };
            passkeys = refl;
          })
        ]

ask_login-IsKept :
    (o : Owner) (id text : Key) (now : Time) (db : Db)
    → IsClosed o db
    → IsKept o db (authentication_options id text now db).0
unfolding authentication_options
ask_login-IsKept o id text now db h =
    rw (owner-IsClosed o db h, authentication_options) (store-IsKept o id text now o.id db h)

ids-update :
    (p : Passkey → Bool) (f : Passkey → Passkey) (ps : List Passkey)
    → ((x : Passkey) → (f x).id ≡ x.id)
    → map (λ x. x.id) (update p f ps) ≡ map (λ x. x.id) ps
unfolding update
ids-update p f [] keep = refl
ids-update p f (x ∷ ps) keep = ground (arith, keep x, ids-update p f ps keep)

signed_in-IsKept :
    (o : Owner) (hash : Key → Key) (id passkey owner_id counter session token : Key) (now : Time)
    (db : Db)
    → IsClosed o db
    → IsKept o db (signed_in hash id passkey owner_id counter session token now db)
unfolding signed_in create_session
signed_in-IsKept o hash id passkey owner_id counter session token now db h = record {
  closed = record {
    one = h.one;
    foreign = All-delete (λ c. is_foreign o.id c ≡ true) (λ c. c.id == id) db.challenges h.foreign;
  };
  passkeys =
      ids-update (λ p. p.id == passkey)
        (λ p. record p { counter = counter; last_used_at = some now }) db.passkeys (λ x. refl);
}

login_with :
    (o : Owner) (hash : Key → Key) (verify : Key → Passkey → Verification ℕ)
    (id passkey session token : Key) (now : Time) (db : Db) (c : Challenge) (p : Passkey)
    (v : Verification ℕ)
    → IsClosed o (prune_challenges now db)
    → find_challenge id Kind.authentication now (prune_challenges now db) ≡ ok c
    → get (λ x. x.id == passkey) (prune_challenges now db).passkeys ≡ some p
    → verify c.challenge p ≡ v
    → IsKept o
        (prune_challenges now db)
        (finish_authentication hash verify id passkey session token now db).0
unfolding finish_authentication
login_with o hash verify id passkey session token now db c p threw h there known e =
    rw (there, finish_authentication, known, e) (record { closed = h; passkeys = refl })
login_with o hash verify id passkey session token now db c p not_verified h there known e =
    rw (there, finish_authentication, known, e) (record { closed = h; passkeys = refl })
login_with o hash verify id passkey session token now db c p (verified n) h there known e =
    rw (there, finish_authentication, known, e)
      (signed_in-IsKept o hash id p.id p.owner_id n session token now (prune_challenges now db) h)

end_login-IsKept :
    (o : Owner) (hash : Key → Key) (verify : Key → Passkey → Verification ℕ)
    (id passkey session token : Key) (now : Time) (db : Db)
    → IsClosed o (prune_challenges now db)
    → IsKept o
        (prune_challenges now db)
        (finish_authentication hash verify id passkey session token now db).0
unfolding finish_authentication
end_login-IsKept o hash verify id passkey session token now db h =
    elim (Result-cases (find_challenge id Kind.authentication now (prune_challenges now db))) [
      | inl (status, refused) ↦
          rw (refused, finish_authentication) (record { closed = h; passkeys = refl })
      | inr (c, there) ↦
          elim (Option-cases (get (λ x. x.id == passkey) (prune_challenges now db).passkeys)) [
            | inl unknown ↦
                rw (there, finish_authentication, unknown) (record { closed = h; passkeys = refl })
            | inr (p, known) ↦
                login_with o hash verify id passkey session token now db c p (verify c.challenge p)
                  h there known refl
          ]
    ]

Step-IsKept :
    (o : Owner) (hash : Key → Key) (db db' : Db)
    → Step hash o.id db db'
    → IsClosed o db
    → IsKept o db db'
Step-IsKept o hash db db' (ask_registration a who drawn now _ other) h =
    subst (λ x. IsKept o db x.0) (sym (options_foreign o hash a who drawn now db h other))
      (record { closed = h; passkeys = refl })
Step-IsKept o hash db db' (end_registration verify id session token now _) h =
    subst (λ x. IsKept o db x.0) (sym (finish_foreign o hash verify id session token now db h).1)
      (pruned o now db h)
Step-IsKept o hash db db' (ask_login id text now _) h = ask_login-IsKept o id text now db h
Step-IsKept o hash db db' (end_login verify id passkey session token now _) h =
    let kept = pruned o now db h in
    let done = end_login-IsKept o hash verify id passkey session token now db (kept.closed) in
    record { closed = done.closed; passkeys = done.passkeys ∙ kept.passkeys }

-- Where there is one owner and no challenge adds a passkey for that owner, this stays so.
pub reached-IsKept :
    (o : Owner) (hash : Key → Key) (start db : Db)
    → Reachable hash o.id start db
    → IsClosed o start
    → IsKept o start db
reached-IsKept o hash start db here h = record { closed = h; passkeys = refl }
reached-IsKept o hash start db (next {db = before} reached step) h =
    let earlier = reached-IsKept o hash start before reached h in
    let last = Step-IsKept o hash before db step earlier.closed in
    record { closed = last.closed; passkeys = last.passkeys ∙ earlier.passkeys }
