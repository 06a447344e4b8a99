-- ===== src/Http/Confinement.antt =====
-- What a request with an API token reaches.
use matreshka_panel.Base.{
  ◌≡◌, ◌≢◌, ◌∙◌, refl, sym, ap, subst, Bool, true, false, Option, some, List, Time, Key, String,
  get, arith, inl, inr, Option-cases,
}
use matreshka_panel.Base.Text.{listed}
use matreshka_panel.Auth.Tables.{Db}
use matreshka_panel.Auth.Sessions.{Identity, by_token, authenticate}
use matreshka_panel.Auth.Tokens.{all_allowed}
use matreshka_panel.Http.Endpoints.{Endpoint}
use matreshka_panel.Http.Guard.{required_scope, authorized, Outcome, handled, guard, serves, fetch}
use matreshka_panel.Http.Scopes.{authorized_allowed}

-- What lets a token through the guard of a handler that is not public.
token_guard :
    (method path : String) (e e' : Endpoint) (id : Key) (scopes : List String)
    (who : Option Identity)
    → e.is_public ≡ false
    → guard method path e (some (by_token id scopes)) ≡ handled e' who
    → (authorized method path scopes ≡ true)
      × (e.owner_only ≡ false)
      × (e' ≡ e)
      × (who ≡ some (by_token id scopes))
unfolding guard
token_guard method path e e' id scopes who closed h = ground (arith, closed, h)

static_ne_handled : (e : Endpoint) (who : Option Identity) → Outcome.to_static ≢ handled e who
static_ne_handled e who h = cc

-- A handled request with a token that a handler does not need: the row of the table, and the guard.
pub handled_token :
    (matches : String → String → Bool) (hash : Key → Key) (registry : List Endpoint)
    (method path : String) (session : Option Key) (bearer : Option (Option Key)) (now : Time)
    (db : Db) (id : Key) (scopes : List String) (e : Endpoint) (who : Option Identity)
    → (authenticate hash session bearer now db).1 ≡ some (by_token id scopes)
    → (fetch matches hash registry method path session bearer now db).1 ≡ handled e who
    → e.is_public ≡ false
    → (get (serves matches method path) registry ≡ some e)
      × (guard method path e (some (by_token id scopes)) ≡ handled e who)
unfolding fetch guard
handled_token matches hash registry method path session bearer now db id scopes e who known h
      closed =
    elim (Option-cases (get (serves matches method path) registry)) [
      | inl missing ↦ absurd (static_ne_handled e who (sym (rw (missing, fetch) refl) ∙ h))
      | inr (e0, there) ↦
          let at : guard method path e0 (some (by_token id scopes)) ≡ handled e who =
            sym (rw (there, fetch, known) refl) ∙ h in
          let same : e0 ≡ e = ground (arith, at) in
          (
            there ∙ ap some same,
            subst (λ x. guard method path x (some (by_token id scopes)) ≡ handled e who) same at,
          )
    ]

-- A handled request with an API token whose scopes are among those that can be given, to a handler
-- that is not public, has the scope that its path asks for, is seen by the handler as the token, and
-- its handler is not one for the owner alone.
pub token_confined :
    (matches : String → String → Bool) (hash : Key → Key) (registry : List Endpoint)
    (method path : String) (session : Option Key) (bearer : Option (Option Key)) (now : Time)
    (db : Db) (id : Key) (scopes : List String) (e : Endpoint) (who : Option Identity)
    → all_allowed scopes ≡ true
    → (authenticate hash session bearer now db).1 ≡ some (by_token id scopes)
    → (fetch matches hash registry method path session bearer now db).1 ≡ handled e who
    → e.is_public ≡ false
    → (listed scopes (required_scope method path) ≡ true)
      × (who ≡ some (by_token id scopes))
      × (e.owner_only ≡ false)
token_confined matches hash registry method path session bearer now db id scopes e who allowed known
      h closed =
    let at =
      handled_token matches hash registry method path session bearer now db id scopes e who known h
        closed in
    let checks = token_guard method path e e id scopes who closed at.1 in
    (sym (authorized_allowed method path scopes allowed) ∙ checks.0, checks.3, checks.1)
