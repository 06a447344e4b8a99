-- ===== src/Journal/Sanitize.antt =====
-- `sanitize` and `sensitiveKey` of src/server/services/journal.ts: what never reaches the journal.
pub mod Laws
use matreshka_panel.Base.{
  ℕ, String, Bool, true, false, ◌&&◌, ◌||◌, List, [], ◌∷◌, ◌≡◌, refl, arith, if◌then◌else◌, map,
  Bool-cases, inl, inr, ap,
}
use matreshka_panel.Base.Text.{
  codes, is_lower, is_upper, is_digit, to_lower, text_eq, includes, ends_with,
}
use matreshka_panel.Journal.Json.{
  Json, null, boolean, number, string, array, object, Items, nil, item, Fields, end, field,
}

-- `key.replaceAll(/[^a-z0-9]/gi, "").toLowerCase()`
unfoldable pub normalized : List ℕ → List ℕ
unfolding to_lower is_lower is_upper is_digit
normalized [] = []
normalized (c ∷ cs) =
    let rest = normalized cs in
    if is_lower c || is_upper c || is_digit c then to_lower c ∷ rest else rest

abbrev sensitive_parts : List (List ℕ)
sensitive_parts = map codes (
    "token" ∷ "password" ∷ "passphrase" ∷ "secret" ∷ "credential" ∷ "challenge" ∷ "authorization"
    ∷ "cookie" ∷ "ciphertext" ∷ "privatekey" ∷ "destination" ∷ "domain" ∷ "address" ∷ "url" ∷ "path"
    ∷ [])

some_included : List (List ℕ) → List ℕ → Bool
unfolding includes
some_included [] key = false
some_included (p ∷ ps) key = includes p key || some_included ps key

-- `sensitiveKey`
unfoldable pub sensitive_key : String → Bool
unfolding normalized some_included includes ends_with
sensitive_key key =
    let k = normalized (codes key) in
    some_included sensitive_parts k || text_eq k (codes "ip") || ends_with (codes "ip") k

unfoldable mutual
  pub sanitize : Json → Json
  sanitize null = null
  sanitize (boolean b) = boolean b
  sanitize (number n) = number n
  sanitize (string s) = string s
  sanitize (array xs) = array (sanitize_items xs)
  sanitize (object fs) = object (sanitize_fields fs)

  pub sanitize_items : Items → Items
  sanitize_items nil = nil
  sanitize_items (item v xs) = item (sanitize v) (sanitize_items xs)

  pub sanitize_fields : Fields → Fields
  sanitize_fields end = end
  sanitize_fields (field k v fs) =
      let rest = sanitize_fields fs in
      let kept = field k (sanitize v) rest in if sensitive_key k then rest else kept

-- No object at any depth has a sensitive key.
abbrev mutual
  pub IsClean : Json → Type 0
  IsClean null = Unit
  IsClean (boolean b) = Unit
  IsClean (number n) = Unit
  IsClean (string s) = Unit
  IsClean (array xs) = IsCleanItems xs
  IsClean (object fs) = IsCleanFields fs

  pub IsCleanItems : Items → Type 0
  IsCleanItems nil = Unit
  IsCleanItems (item v xs) = IsClean v × IsCleanItems xs

  pub IsCleanFields : Fields → Type 0
  IsCleanFields end = Unit
  IsCleanFields (field k v fs) = (sensitive_key k ≡ false) × IsClean v × IsCleanFields fs
