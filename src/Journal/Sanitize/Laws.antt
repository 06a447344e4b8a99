-- ===== src/Journal/Sanitize/Laws.antt =====
-- What `sanitize` drops and what it keeps.
use text.Mathlib.Text.{◌==◌ as str_eq}
use text.Mathlib.TextEquality.{eq_iff}
use matreshka_panel.Base.{
  String, Bool, false, ◌||◌, List, [], ◌∷◌, ◌≡◌, refl, arith, if◌then◌else◌, Bool-cases, inl, inr,
  ap, ap₂, Option, none, some,
}
use matreshka_panel.Journal.Json.{
  Json, null, boolean, number, string, array, object, Items, nil, item, Fields, end, field,
}
use matreshka_panel.Journal.Sanitize.{
  sensitive_key, sanitize, sanitize_items, sanitize_fields, IsClean, IsCleanItems, IsCleanFields,
}

mutual
  unfolding sanitize sanitize_items sanitize_fields

  clean : (v : Json) → IsClean (sanitize v)
  clean null = tt
  clean (boolean b) = tt
  clean (number n) = tt
  clean (string s) = tt
  clean (array xs) = clean_items xs
  clean (object fs) = clean_fields fs

  clean_items : (xs : Items) → IsCleanItems (sanitize_items xs)
  clean_items nil = tt
  clean_items (item v xs) = (clean v, clean_items xs)

  clean_fields : (fs : Fields) → IsCleanFields (sanitize_fields fs)
  clean_fields end = tt
  clean_fields (field k v fs) = elim (Bool-cases (sensitive_key k)) [
    | inl e ↦ rw e (clean_fields fs)
    | inr e ↦ rw e (e, clean v, clean_fields fs)
  ]

mutual
  unfolding sanitize sanitize_items sanitize_fields

  same : (v : Json) → IsClean v → sanitize v ≡ v
  same null h = refl
  same (boolean b) h = refl
  same (number n) h = refl
  same (string s) h = refl
  same (array xs) h = ap array (same_items xs h)
  same (object fs) h = ap object (same_fields fs h)

  same_items : (xs : Items) → IsCleanItems xs → sanitize_items xs ≡ xs
  same_items nil h = refl
  same_items (item v xs) h = ap₂ item (same v h.0) (same_items xs h.1)

  same_fields : (fs : Fields) → IsCleanFields fs → sanitize_fields fs ≡ fs
  same_fields end h = refl
  same_fields (field k v fs) h = rw h.0 (ap₂ (field k) (same v h.1) (same_fields fs h.2))

-- The value behind a path of object keys.
abbrev pub member : String → Fields → Option Json
member key end = none
member key (field k v fs) = if str_eq k key then some v else member key fs

abbrev pub fields_of : Json → Fields
fields_of (object fs) = fs
fields_of _ = end

unfoldable pub at_path : List String → Json → Option Json
at_path [] v = some v
at_path (k ∷ ks) v = elim (member k (fields_of v)) [ none ↦ none | some w ↦ at_path ks w ]

unfoldable pub some_sensitive : List String → Bool
some_sensitive [] = false
some_sensitive (k ∷ ks) = sensitive_key k || some_sensitive ks

abbrev pub sanitized : Option Json → Option Json
sanitized none = none
sanitized (some v) = some (sanitize v)

member-sanitize :
    (key : String) (fs : Fields)
    → member key (sanitize_fields fs)
      ≡ (if sensitive_key key then none else sanitized (member key fs))
unfolding sanitize_fields
member-sanitize key end = ground arith
member-sanitize key (field k v fs) = ground (arith, eq_iff k key, member-sanitize key fs)

fields_of-sanitize : (v : Json) → fields_of (sanitize v) ≡ sanitize_fields (fields_of v)
unfolding sanitize
fields_of-sanitize null = unfold sanitize_fields in refl
fields_of-sanitize (boolean b) = unfold sanitize_fields in refl
fields_of-sanitize (number n) = unfold sanitize_fields in refl
fields_of-sanitize (string s) = unfold sanitize_fields in refl
fields_of-sanitize (array xs) = unfold sanitize_fields in refl
fields_of-sanitize (object fs) = refl

step-sanitized :
    (ks : List String) (m : Option Json)
    → ((w : Json)
        → at_path ks (sanitize w) ≡ (if some_sensitive ks then none else sanitized (at_path ks w)))
    → elim (sanitized m) as (λ _. Option Json) [ none ↦ none | some w ↦ at_path ks w ] ≡ (
        if some_sensitive ks
        then none
        else sanitized (elim m [ none ↦ none | some w ↦ at_path ks w ]))
step-sanitized ks none ih = ground arith
step-sanitized ks (some w) ih = ih w

-- Behind a path of object keys, sanitising removes the value when a key of the path is
-- sensitive, and otherwise leaves exactly the sanitised value that stood there (or nothing,
-- where nothing stood).
pub at_path-sanitize :
    (ks : List String) (v : Json)
    → at_path ks (sanitize v) ≡ (if some_sensitive ks then none else sanitized (at_path ks v))
unfolding at_path some_sensitive
at_path-sanitize [] v = refl
at_path-sanitize (k ∷ ks) v =
    rw (fields_of-sanitize v, member-sanitize k (fields_of v), at_path)
      (elim (Bool-cases (sensitive_key k)) [
        | inl e ↦ rw e
        | inr e ↦ rw e (step-sanitized ks (member k (fields_of v)) (at_path-sanitize ks))
      ])

-- A sanitised value has no sensitive key at any depth, and sanitising it again changes nothing.
pub sanitize-IsClean : (v : Json) → IsClean (sanitize v) × (sanitize (sanitize v) ≡ sanitize v)
sanitize-IsClean v = (clean v, same (sanitize v) (clean v))

-- A value without sensitive keys is recorded whole.
pub sanitize_of_clean : (v : Json) → IsClean v → sanitize v ≡ v
sanitize_of_clean v h = same v h
