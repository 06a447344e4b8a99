-- ===== src/Setup/Domain.antt =====
-- `validDomain` and `validIPv4`, on the characters of a text.
use matreshka_panel.Base.{
  ℕ, ◌+◌, ◌*◌, ◌-◌, Bool, true, false, not, ◌&&◌, ◌||◌, List, [], ◌∷◌, if◌then◌else◌, ◌==◌, leb,
  length,
}
use matreshka_panel.Base.Text.{is_lower, is_digit, ends_with, all_of, split_on}

abbrev pub every_label : (List ℕ → Bool) → List (List ℕ) → Bool
every_label p [] = true
every_label p (l ∷ ls) = p l && every_label p ls

-- `Number(part)` of decimal digits, after the digits that were read
abbrev pub number_from : ℕ → List ℕ → ℕ
number_from n [] = n
number_from n (c ∷ cs) = number_from (10 * n + (c - b'0')) cs

-- `/^\d{1,3}$/.test(part) && Number(part) <= 255`
abbrev pub is_octet : List ℕ → Bool
is_octet part =
    leb 1 (length part)
    && leb (length part) 3
    && all_of is_digit part
    && leb (number_from 0 part) 255

-- `validIPv4`
unfoldable pub valid_ipv4 : List ℕ → Bool
unfolding split_on is_digit
valid_ipv4 value =
    let parts = split_on b'.' value in length parts == 4 && every_label is_octet parts

-- `[a-z0-9]`, `[a-z0-9-]`
unfoldable pub is_word : ℕ → Bool
unfolding is_lower is_digit
is_word c = is_lower c || is_digit c

unfoldable pub is_inner : ℕ → Bool
unfolding is_word
is_inner c = is_word c || c == b'-'

-- `[a-z0-9-]*[a-z0-9]`, or nothing
abbrev pub label_rest : List ℕ → Bool
label_rest [] = true
label_rest (c ∷ []) = is_word c
label_rest (c ∷ d ∷ cs) = is_inner c && label_rest (d ∷ cs)

-- `/^[a-z0-9](?:[a-z0-9-]{0,61}[a-z0-9])?$/`
unfoldable pub is_label : List ℕ → Bool
unfolding is_word is_inner
is_label [] = false
is_label (c ∷ cs) = is_word c && label_rest cs && leb (length cs) 62

abbrev pub any_of : (ℕ → Bool) → List ℕ → Bool
any_of p [] = false
any_of p (c ∷ cs) = p c || any_of p cs

-- `/[a-z]/.test(labels.at(-1))`
abbrev pub last_has_letter : List (List ℕ) → Bool
last_has_letter [] = false
last_has_letter (l ∷ []) = any_of is_lower l
last_has_letter (l ∷ m ∷ ls) = last_has_letter (m ∷ ls)

-- `validDomain`
unfoldable pub valid_domain : List ℕ → Bool
unfolding ends_with valid_ipv4 split_on is_label is_lower
valid_domain value =
    if not (any_of (λ c. c == b'.') value) || ends_with (b'.' ∷ []) value || valid_ipv4 value
    then false
    else (let labels = split_on b'.' value in last_has_letter labels && every_label is_label labels)
