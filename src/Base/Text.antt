-- ===== src/Base/Text.antt =====
-- Texts as lists of code points, for code that looks inside a text.
use Prim.Native.Nat.{ℕ, ◌+◌}
use Prim.Native.Char.{code}
use Prim.Native.String.{String}
use mathlib.Core.Bool.{Bool, true, false, ◌&&◌, ◌||◌}
use mathlib.Core.List.{List, [], ◌∷◌}
use mathlib.Core.Path.{◌≡◌, refl, ap₂}
use native.Mathlib.Omega.{arith}
use matreshka_panel.Base.Tests.{leb, ◌==◌, if◌then◌else◌, ==_refl, ==_iff}

abbrev pub codes : String → List ℕ
codes String.[] = []
codes (String.◌∷◌ c s) = code c ∷ codes s

-- `/[a-z]/`, `/[A-Z]/`, `/[0-9]/` on one character
unfoldable pub is_lower : ℕ → Bool
is_lower c = leb b'a' c && leb c b'z'

unfoldable pub is_upper : ℕ → Bool
is_upper c = leb b'A' c && leb c b'Z'

unfoldable pub is_digit : ℕ → Bool
is_digit c = leb b'0' c && leb c b'9'

-- `toLowerCase` on an ASCII character
unfoldable pub to_lower : ℕ → ℕ
unfolding is_upper
to_lower c = if is_upper c then c + 32 else c

abbrev pub text_eq : List ℕ → List ℕ → Bool
text_eq [] [] = true
text_eq [] (y ∷ ys) = false
text_eq (x ∷ xs) [] = false
text_eq (x ∷ xs) (y ∷ ys) = x == y && text_eq xs ys

-- `a === b` on texts
abbrev pub same_text : String → String → Bool
same_text a b = text_eq (codes a) (codes b)

pub text_eq_refl : (cs : List ℕ) → text_eq cs cs ≡ true
text_eq_refl [] = refl
text_eq_refl (c ∷ cs) = rw (==_refl c) (text_eq_refl cs)

pub text_eq→eq : (xs ys : List ℕ) → text_eq xs ys ≡ true → xs ≡ ys
text_eq→eq [] [] h = refl
text_eq→eq [] (y ∷ ys) h = cc
text_eq→eq (x ∷ xs) [] h = cc
text_eq→eq (x ∷ xs) (y ∷ ys) h =
    let tails = text_eq→eq xs ys (ground arith) in
    let heads : x ≡ y = ground (arith, ==_iff x y) in ap₂ ◌∷◌ heads tails

-- `text.startsWith(part)`
unfoldable pub starts_with : List ℕ → List ℕ → Bool
starts_with [] text = true
starts_with (p ∷ ps) [] = false
starts_with (p ∷ ps) (c ∷ cs) = p == c && starts_with ps cs

-- `text.includes(part)`
unfoldable pub includes : List ℕ → List ℕ → Bool
unfolding starts_with
includes part [] = starts_with part []
includes part (c ∷ cs) = starts_with part (c ∷ cs) || includes part cs

-- `text.endsWith(part)`
unfoldable pub ends_with : List ℕ → List ℕ → Bool
ends_with part [] = text_eq part []
ends_with part (c ∷ cs) = text_eq part (c ∷ cs) || ends_with part cs

-- `texts.includes(text)`
abbrev pub listed : List String → String → Bool
listed [] s = false
listed (t ∷ ts) s = same_text t s || listed ts s

-- A test on every character
abbrev pub all_of : (ℕ → Bool) → List ℕ → Bool
all_of p [] = true
all_of p (c ∷ cs) = p c && all_of p cs

-- `text.length`: the UTF-16 code units
abbrev pub utf16_length : List ℕ → ℕ
utf16_length [] = 0
utf16_length (c ∷ cs) = (if leb 65536 c then 2 else 1) + utf16_length cs

-- The first part of a text and the others
abbrev pub cons_first : ℕ → List (List ℕ) → List (List ℕ)
cons_first c [] = (c ∷ []) ∷ []
cons_first c (part ∷ parts) = (c ∷ part) ∷ parts

-- `text.split(separator)` for one character
unfoldable pub split_on : ℕ → List ℕ → List (List ℕ)
split_on sep [] = [] ∷ []
split_on sep (c ∷ cs) =
    let rest = split_on sep cs in if c == sep then [] ∷ rest else cons_first c rest
