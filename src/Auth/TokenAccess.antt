-- ===== src/Auth/TokenAccess.antt =====
-- From when until when an API token lets a request in.
use matreshka_panel.Base.Text.{codes, text_eq, text_eq→eq, same_text, listed}
use matreshka_panel.Base.{
  true, false, ap₂, count, ℕ, if◌then◌else◌, ◌||◌, ◌≡◌, ◌∙◌, refl, ap, subst, Bool, not, ◌&&◌, none,
  some, List, [], ◌∷◌, Time, Key, String, ◌==◌, ==_refl, is_some, get, update, get-append,
  update-append, arith,
}
use matreshka_panel.Journal.Record.{Ident}
use matreshka_panel.Registry.{ok}
use matreshka_panel.Auth.Tables.{Token, Db}
use matreshka_panel.Auth.Sessions.{by_token, find_token, with_token, with_session, authenticate}
use matreshka_panel.Auth.Tokens.{
  unique_scopes, new_token, with_new_token, create_api_token, is_live, without_token,
  revoke_api_token,
}

-- `find_token` on a list of tokens
abbrev unlocks : Key → Token → Bool
unlocks h t = t.token_hash == h && not (is_some t.revoked_at)

get-unlocks-revoked :
    (h id : Key) (now : Time) (ts : List Token)
    → get (unlocks h) ts ≡ none
    → get (unlocks h) (update (is_live id) (λ x. record x { revoked_at = some now }) ts) ≡ none
unfolding get update
get-unlocks-revoked h id now [] e = refl
get-unlocks-revoked h id now (t ∷ ts) e = ground (arith, e, get-unlocks-revoked h id now ts)

with_token_found :
    (h : Key) (now : Time) (db : Db) (t : Token)
    → find_token h db ≡ some t
    → t.expires_at ≡ none
    → (with_token h now db).1 ≡ some (by_token t.id t.scopes)
unfolding with_token
with_token_found h now db t e forever = rw (e, with_token, forever) refl

with_token_missing :
    (h : Key) (now : Time) (db : Db)
    → find_token h db ≡ none
    → get (λ s. s.token_hash == h) db.sessions ≡ none
    → (with_token h now db).1 ≡ none
unfolding with_token with_session
with_token_missing h now db e no_session = rw (e, with_token, no_session, with_session) refl

module _ (hash : Key → Key) (id token : Key) (name : String) (scopes : List String) (actor : Ident)
    (now : Time) (db : Db) where
  find_token-created :
      get (unlocks (hash token)) db.tokens ≡ none
      → find_token (hash token) (with_new_token hash id token name scopes actor now db)
        ≡ some (new_token hash id token name scopes)
  unfolding find_token with_new_token new_token get
  find_token-created new =
      get-append (unlocks (hash token)) db.tokens (new_token hash id token name scopes ∷ [])
      ∙ rw (new, ==_refl (hash token)) refl

  get_live-created :
      get (is_live id) db.tokens ≡ none
      → get (is_live id) (with_new_token hash id token name scopes actor now db).tokens
        ≡ some (new_token hash id token name scopes)
  unfolding with_new_token new_token get
  get_live-created new =
      get-append (is_live id) db.tokens (new_token hash id token name scopes ∷ [])
      ∙ rw (new, ==_refl id) refl

  find_token-revoked :
      (actor' : Ident) (at : Time)
      → get (unlocks (hash token)) db.tokens ≡ none
      → find_token (hash token) (
          without_token
            (new_token hash id token name scopes)
            actor'
            at
            (with_new_token hash id token name scopes actor now db))
        ≡ none
  unfolding find_token with_new_token without_token new_token get update
  find_token-revoked actor' at new =
      ap (get (unlocks (hash token))) (
        update-append (is_live id) (λ x. record x { revoked_at = some at }) db.tokens
          (new_token hash id token name scopes ∷ []))
      ∙ get-append (unlocks (hash token))
          (update (is_live id) (λ x. record x { revoked_at = some at }) db.tokens)
          (update (is_live id) (λ x. record x { revoked_at = some at })
            (new_token hash id token name scopes ∷ []))
      ∙ rw (get-unlocks-revoked (hash token) id at db.tokens new, ==_refl id, ==_refl (hash token))
          refl

  created-authenticates :
      (later : Time)
      → get (unlocks (hash token)) db.tokens ≡ none
      → (authenticate hash none
          (some (some token))
          later
          (with_new_token hash id token name scopes actor now db)).1
        ≡ some (by_token id scopes)
  unfolding authenticate new_token
  created-authenticates later new =
      with_token_found (hash token) later (with_new_token hash id token name scopes actor now db)
        (new_token hash id token name scopes) (find_token-created new) refl

  revoked-refused :
      (actor' : Ident) (at later : Time)
      → get (unlocks (hash token)) db.tokens ≡ none
      → get (λ s. s.token_hash == hash token) db.sessions ≡ none
      → (authenticate hash none (some (some token)) later (
          without_token
            (new_token hash id token name scopes)
            actor'
            at
            (with_new_token hash id token name scopes actor now db))).1
        ≡ none
  unfolding authenticate without_token with_new_token
  revoked-refused actor' at later new no_session =
      with_token_missing (hash token) later
        (without_token (new_token hash id token name scopes) actor' at
          (with_new_token hash id token name scopes actor now db))
        (find_token-revoked actor' at new) no_session

-- What a creation that succeeds writes.
created_tables :
    (hash : Key → Key) (id token : Key) (name : String) (scopes : List String) (actor : Ident)
    (now : Time) (db db' : Db)
    → create_api_token hash id token name scopes actor now db ≡ ok db'
    → with_new_token hash id token name (unique_scopes [] scopes) actor now db ≡ db'
unfolding create_api_token
created_tables hash id token name scopes actor now db db' e = ground (arith, e)

abbrev once_if : Bool → ℕ
once_if true = 1
once_if false = 0

once_if_ite : (b : Bool) → once_if (not false && b) ≡ (if b then 1 else 0)
once_if_ite b = ground arith

listed_same : (ss : List String) (a b : String) → same_text a b ≡ true → listed ss a ≡ listed ss b
listed_same [] a b h = refl
listed_same (s ∷ ss) a b h =
    ap₂ ◌||◌ (ap (text_eq (codes s)) (text_eq→eq (codes a) (codes b) h)) (listed_same ss a b h)

-- How often the kept scopes have a text that was not seen before.
count-unique_scopes :
    (s : String) (seen ss : List String)
    → count (λ t. same_text t s) (unique_scopes seen ss)
      ≡ once_if (not (listed seen s) && listed ss s)
unfolding count unique_scopes
count-unique_scopes s seen [] = ground arith
count-unique_scopes s seen (d ∷ ss) = ground (
  arith,
  count-unique_scopes s seen ss,
  count-unique_scopes s (d ∷ seen) ss,
  listed_same seen d s,
)

-- A token is created under a new id, and its hash is that of no other token in use and of no session.
-- Then it lets requests in with a list of scopes in which every scope that was asked for stands once
-- and no other scope stands, and it can be revoked, after which a request with it is refused.
pub token_until_revoked :
    (hash : Key → Key) (id token : Key) (name : String) (scopes : List String)
    (actor actor' : Ident) (now later at after : Time) (db db' : Db) (scope : String)
    → get (unlocks (hash token)) db.tokens ≡ none
    → get (is_live id) db.tokens ≡ none
    → get (λ s. s.token_hash == hash token) db.sessions ≡ none
    → create_api_token hash id token name scopes actor now db ≡ ok db'
    → (kept : List String) × (db'' : Db) × ((authenticate hash none (some (some token)) later db').1
        ≡ some (by_token id kept))
      × (count (λ t. same_text t scope) kept ≡ (if listed scopes scope then 1 else 0))
      × (revoke_api_token id actor' at db' ≡ ok db'')
      × ((authenticate hash none (some (some token)) after db'').1 ≡ none)
unfolding revoke_api_token
token_until_revoked hash id token name scopes actor actor' now later at after db db' scope new
      new_id no_session e =
    let kept = unique_scopes [] scopes in
    let made = with_new_token hash id token name kept actor now db in
    let same = created_tables hash id token name scopes actor now db db' e in
    let row = new_token hash id token name kept in
    (
      kept,
      without_token row actor' at db',
      subst (λ x. (authenticate hash none (some (some token)) later x).1 ≡ some (by_token id kept))
          same (created-authenticates hash id token name kept actor now db later new),
      count-unique_scopes scope [] scopes ∙ once_if_ite (listed scopes scope),
      subst (λ x. revoke_api_token id actor' at x ≡ ok (without_token row actor' at x)) same
          (rw (get_live-created hash id token name kept actor now db new_id) refl),
      subst
          (λ x.
            (authenticate hash none (some (some token)) after (without_token row actor' at x)).1
            ≡ none)
          same
          (revoked-refused hash id token name kept actor now db actor' at after new no_session),
    )
