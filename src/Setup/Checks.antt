-- ===== src/Setup/Checks.antt =====
-- What the privileged agent is asked for by the setup.
use matreshka_panel.Base.{
  ℕ, ◌≡◌, ◌⊎◌, inl, inr, refl, sym, ap, ◌∙◌, Bool, true, ◌||◌, Option, none, some, List, [], ◌∷◌,
  Time, Key, String, ◌==◌, leb, arith, Bool-cases, &&-eq-true,
}
use matreshka_panel.Base.Text.{codes, utf16_length, listed, all_of, cons_first, split_on}
use matreshka_panel.Registry.{Result, ok, err, require, bind_ok, require_ok, Result-cases}
use matreshka_panel.Auth.Tables.{Bootstrap, Db}
use matreshka_panel.Auth.Registration.{verify_bootstrap}
use matreshka_panel.Setup.Domain.{
  every_label, is_word, is_inner, label_rest, is_label, valid_ipv4, valid_domain,
}
use matreshka_panel.Setup.Finalize.{
  Settings, Call, Onboarding, require_setup, is_domain, points_here, finalize_checks, finalize,
}

-- A character of a label, or a dot
abbrev pub is_host : ℕ → Bool
is_host c = is_inner c || c == b'.'

word_inner : (c : ℕ) → is_word c ≡ true → is_inner c ≡ true
unfolding is_inner
word_inner c h = rw h refl

rest_inner : (cs : List ℕ) → label_rest cs ≡ true → all_of is_inner cs ≡ true
rest_inner [] h = refl
rest_inner (c ∷ []) h = ground (arith, word_inner c h)
rest_inner (c ∷ d ∷ cs) h = ground (arith, h, rest_inner (d ∷ cs))

label_inner : (cs : List ℕ) → is_label cs ≡ true → all_of is_inner cs ≡ true
unfolding is_label
label_inner [] h = cc
label_inner (c ∷ cs) h = ground (arith, h, word_inner c, rest_inner cs)

labels_inner :
    (ls : List (List ℕ)) → every_label is_label ls ≡ true → every_label (all_of is_inner) ls ≡ true
labels_inner [] h = refl
labels_inner (l ∷ ls) h = ground (arith, h, label_inner l, labels_inner ls)

first_inner :
    (c : ℕ) (ls : List (List ℕ))
    → every_label (all_of is_inner) (cons_first c ls) ≡ true
    → (is_inner c ≡ true) × (every_label (all_of is_inner) ls ≡ true)
first_inner c [] h = ground (arith, h)
first_inner c (l ∷ ls) h = ground (arith, h)

split_inner :
    (cs : List ℕ)
    → every_label (all_of is_inner) (split_on b'.' cs) ≡ true
    → all_of is_host cs ≡ true
unfolding split_on
split_inner [] h = refl
split_inner (c ∷ cs) h = elim (Bool-cases (c == b'.')) [
  | inl dot ↦ ground (arith, dot, split_inner cs (rw dot at h))
  | inr other ↦
      let (here, there) = first_inner c (split_on b'.' cs) (rw other at h) in
      ground (arith, here, split_inner cs there)
]

-- A valid domain has no characters but small letters, digits, hyphens and dots.
domain_hosts : (value : List ℕ) → valid_domain value ≡ true → all_of is_host value ≡ true
unfolding valid_domain
domain_hosts value h = split_inner value (labels_inner (split_on b'.' value) (ground (arith, h)))

points_ok :
    (s : Settings) (found : Option (List String)) (u : Unit {0})
    → points_here s found ≡ ok u
    → (addresses : List String) × (found ≡ some addresses) × (listed addresses s.public_ip ≡ true)
points_ok s none u h = cc
points_ok s (some addresses) u h =
    (addresses, refl, require_ok (listed addresses s.public_ip) 409 u h)

-- The conditions under which the agent may be asked for a domain
abbrev pub Permitted :
    (Key → Key) → Settings → (String → Option (List String)) → Key → String → Time → Db → Type 0
Permitted hash s resolver token domain now db =
    (s.setup ≡ true)
    × (all_of is_host (codes domain) ≡ true)
    × ((b : Bootstrap) × (verify_bootstrap hash (some token) now db ≡ ok b))
    × ((addresses : List String) × (resolver domain ≡ some addresses)
        × (listed addresses s.public_ip ≡ true))

checks_permit :
    (hash : Key → Key) (s : Settings) (resolver : String → Option (List String)) (token : Key)
    (domain : String) (now : Time) (db : Db) (u : Unit {0})
    → finalize_checks hash s resolver token domain now db ≡ ok u
    → Permitted hash s resolver token domain now db
unfolding finalize_checks
checks_permit hash s resolver token domain now db u h =
    let (u1, setup, h1) = bind_ok (require_setup s) _ u h in
    let (u2, valid, h2) = bind_ok (require (is_domain domain) 400) _ u h1 in
    let (b, link, h3) = bind_ok (verify_bootstrap hash (some token) now db) _ u h2 in
    (
      (&&-eq-true s.setup (valid_ipv4 (codes s.public_ip)) (require_ok _ 409 u1 setup)).0,
      domain_hosts (codes domain)
          (&&-eq-true (leb (utf16_length (codes domain)) 253) (valid_domain (codes domain))
            (require_ok _ 400 u2 valid)).1,
      (b, link),
      points_ok s (resolver domain) u h3,
    )

module _ (hash : Key → Key) (s : Settings) (resolver : String → Option (List String))
    (runner : Call → Bool) (token : Key) (domain : String) (now : Time) (db : Db) where
  finalize_refused :
      (status : ℕ)
      → finalize_checks hash s resolver token domain now db ≡ err status
      → finalize hash s resolver runner token domain now db ≡ ([], err status)
  unfolding finalize
  finalize_refused status h = rw (h, finalize) refl

  finalize_calls :
      (u : Unit {0})
      → finalize_checks hash s resolver token domain now db ≡ ok u
      → (finalize hash s resolver runner token domain now db).0
        ≡ (record { domain = domain; public_ip = s.public_ip }) ∷ []
  unfolding finalize
  finalize_calls u h = rw (h, finalize) refl

-- The agent is asked for a domain at most once in a call of `finalize`: only in the setup, with a
-- valid link, for a domain of small letters, digits, hyphens and dots which resolves to the server's
-- address. If it is not asked, the call fails.
pub agent_asked_once :
    (hash : Key → Key) (s : Settings) (resolver : String → Option (List String))
    (runner : Call → Bool) (token : Key) (domain : String) (now : Time) (db : Db)
    (calls : List Call) (r : Result Onboarding)
    → finalize hash s resolver runner token domain now db ≡ (calls, r)
    → ((calls ≡ []) × ((status : ℕ) × (r ≡ err status)))
      ⊎ ((calls ≡ (record { domain = domain; public_ip = s.public_ip }) ∷ [])
          × Permitted hash s resolver token domain now db)
agent_asked_once hash s resolver runner token domain now db calls r e =
    elim (Result-cases (finalize_checks hash s resolver token domain now db)) [
      | inl (status, refused) ↦
          let same =
            sym e ∙ finalize_refused hash s resolver runner token domain now db status refused in
          inl (ap (λ x. x.0) same, (status, ap (λ x. x.1) same))
      | inr (u, passed) ↦ inr (
        ap (λ x. x.0) (sym e) ∙ finalize_calls hash s resolver runner token domain now db u passed,
        checks_permit hash s resolver token domain now db u passed,
      )
    ]
