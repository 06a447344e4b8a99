-- ===== src/Http/Scopes.antt =====
-- Lists of scopes, and when `authorized` holds for the scopes that a token can have.
use matreshka_panel.Base.{
  ◌≡◌, ◌∙◌, refl, sym, ap, ℕ, Bool, true, false, not, ◌&&◌, ◌||◌, List, [], ◌∷◌, String, All, arith,
  inl, inr, Bool-cases,
}
use matreshka_panel.Base.Text.{codes, text_eq, text_eq→eq, same_text, listed}
use matreshka_panel.Auth.Tokens.{allowed_scopes, all_allowed}
use matreshka_panel.Http.Guard.{is_get, required_scope, authorized}

pub same_codes : (a b : String) → same_text a b ≡ true → codes a ≡ codes b
same_codes a b h = text_eq→eq (codes a) (codes b) h

-- Whatever all scopes of a list satisfy, a scope that is listed satisfies.
pub every_listed :
    (p : List ℕ → Bool) (scopes : List String) (s : String)
    → All (λ t. p (codes t) ≡ true) scopes
    → listed scopes s ≡ true
    → p (codes s) ≡ true
every_listed p [] s h e = cc
every_listed p (t ∷ ts) s h e = elim (Bool-cases (same_text t s)) [
  | inl same ↦ ap p (sym (same_codes t s same)) ∙ h.0
  | inr other ↦ every_listed p ts s h.1 (rw other at e)
]

abbrev listed_codes : List String → List ℕ → Bool
listed_codes [] cs = false
listed_codes (t ∷ ts) cs = text_eq (codes t) cs || listed_codes ts cs

listed_codes-codes : (ts : List String) (s : String) → listed_codes ts (codes s) ≡ listed ts s
listed_codes-codes [] s = refl
listed_codes-codes (t ∷ ts) s = ap (λ b. same_text t s || b) (listed_codes-codes ts s)

allowed_codes :
    (scopes : List String)
    → all_allowed scopes ≡ true
    → All (λ t. listed_codes allowed_scopes (codes t) ≡ true) scopes
allowed_codes [] h = tt
allowed_codes (s ∷ ss) h = elim (Bool-cases (listed allowed_scopes s)) [
  | inl yes_it ↦ (listed_codes-codes allowed_scopes s ∙ yes_it, allowed_codes ss (rw yes_it at h))
  | inr no_it ↦ let e : false ≡ true = rw no_it at h in cc
]

pub listed_allowed :
    (scopes : List String) (s : String)
    → all_allowed scopes ≡ true
    → listed scopes s ≡ true
    → listed allowed_scopes s ≡ true
listed_allowed scopes s h e =
    sym (listed_codes-codes allowed_scopes s)
    ∙ every_listed (listed_codes allowed_scopes) scopes s (allowed_codes scopes h) e

not_listed :
    (scopes : List String) (s : String)
    → all_allowed scopes ≡ true
    → listed allowed_scopes s ≡ false
    → listed scopes s ≡ false
not_listed scopes s h e = elim (Bool-cases (listed scopes s)) [
  | inl there ↦ let wrong : false ≡ true = sym e ∙ listed_allowed scopes s h there in cc
  | inr out ↦ out
]

by_parts : (a g : Bool) → (a || g && false || not g && false) ≡ a
by_parts a g = ground arith

-- For scopes that a token can have, only the scope that the path asks for counts.
pub authorized_allowed :
    (method path : String) (scopes : List String)
    → all_allowed scopes ≡ true
    → authorized method path scopes ≡ listed scopes (required_scope method path)
unfolding authorized
authorized_allowed method path scopes h =
    let a = not_listed scopes "*" h refl in
    let b = not_listed scopes "read" h refl in
    let c = not_listed scopes "write" h refl in
    rw (a, b, c) (by_parts (listed scopes (required_scope method path)) (is_get method))
