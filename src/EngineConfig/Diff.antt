-- ===== src/EngineConfig/Diff.antt =====
-- `lineDiff`: the lines between the common beginning and the common end of two texts.
use matreshka_panel.Base.{
  ℕ, suc, ◌-◌, ◌≤◌, ◌≡◌, Option, none, some, ◌∙◌, refl, sym, ap, ap₂, Bool, true, false, List, [],
  ◌∷◌, ◌++◌, if◌then◌else◌, length, take, drop, take-append-drop, length-drop, length-append, arith,
  Bool-cases, &&-eq-true, ◌&&◌, inl, inr, map,
}
use mathlib.Core.List.{reverse, reverse-cons, reverse-append, reverse-reverse}
use matreshka_panel.Base.Text.{text_eq, text_eq→eq}

-- How many lines two texts have in common from the beginning: the loop on `prefix`.
unfoldable pub common : List (List ℕ) → List (List ℕ) → ℕ
common [] ys = 0
common (x ∷ xs) [] = 0
common (x ∷ xs) (y ∷ ys) = let n = suc (common xs ys) in if text_eq x y then n else 0

-- How many lines they have in common from the end, after `prefix` lines: the loop on `suffix`.
abbrev pub common_end : ℕ → List (List ℕ) → List (List ℕ) → ℕ
common_end prefix left right = common (reverse (drop prefix left)) (reverse (drop prefix right))

-- A line of the diff: `- line` or `+ line`
pub data Change : Type 0 where
  minus plus : List ℕ → Change

-- `lines.slice(prefix, lines.length - suffix)`
abbrev pub middle : ℕ → ℕ → List (List ℕ) → List (List ℕ)
middle prefix suffix lines = take (length lines - suffix - prefix) (drop prefix lines)

-- `before === after`
abbrev pub same_lines : List (List ℕ) → List (List ℕ) → Bool
same_lines [] [] = true
same_lines [] (y ∷ ys) = false
same_lines (x ∷ xs) [] = false
same_lines (x ∷ xs) (y ∷ ys) = text_eq x y && same_lines xs ys

-- `lineDiff` of two texts as their lines. The empty list stands for the text that says that nothing
-- has changed.
unfoldable pub line_diff : Option (List (List ℕ)) → List (List ℕ) → List Change
unfolding common
line_diff none right = map plus right
line_diff (some left) right =
    let prefix = common left right in
    let suffix = common_end prefix left right in
    if same_lines left right
    then []
    else map minus (middle prefix suffix left) ++ map plus (middle prefix suffix right)

abbrev pub minus_lines : List Change → List (List ℕ)
minus_lines [] = []
minus_lines (minus l ∷ cs) = l ∷ minus_lines cs
minus_lines (plus l ∷ cs) = minus_lines cs

abbrev pub plus_lines : List Change → List (List ℕ)
plus_lines [] = []
plus_lines (minus l ∷ cs) = plus_lines cs
plus_lines (plus l ∷ cs) = l ∷ plus_lines cs

minus_lines-plus : (ls ks : List (List ℕ)) → minus_lines (map minus ls ++ map plus ks) ≡ ls
minus_lines-plus [] [] = refl
minus_lines-plus [] (k ∷ ks) = minus_lines-plus [] ks
minus_lines-plus (l ∷ ls) ks = ap (◌∷◌ l) (minus_lines-plus ls ks)

plus_lines-minus : (ls ks : List (List ℕ)) → plus_lines (map minus ls ++ map plus ks) ≡ ks
plus_lines-minus [] [] = refl
plus_lines-minus [] (k ∷ ks) = ap (◌∷◌ k) (plus_lines-minus [] ks)
plus_lines-minus (l ∷ ls) ks = plus_lines-minus ls ks

-- The common beginnings are the same, and not longer than either text.
take-common : (xs ys : List (List ℕ)) → take (common xs ys) xs ≡ take (common xs ys) ys
unfolding common
take-common [] [] = refl
take-common [] (y ∷ ys) = refl
take-common (x ∷ xs) [] = refl
take-common (x ∷ xs) (y ∷ ys) = elim (Bool-cases (text_eq x y)) [
  | inl same ↦ rw same (ap₂ ◌∷◌ (text_eq→eq x y same) (take-common xs ys))
  | inr other ↦ rw other refl
]

common_le : (xs ys : List (List ℕ)) → (common xs ys ≤ length xs) × (common xs ys ≤ length ys)
unfolding common
common_le [] ys = (omega arith, omega arith)
common_le (x ∷ xs) [] = (omega arith, omega arith)
common_le (x ∷ xs) (y ∷ ys) =
    (ground (arith, (common_le xs ys).0), ground (arith, (common_le xs ys).1))

length-reverse : {A : Type 0} (xs : List A) → length (reverse xs) ≡ length xs
length-reverse [] = refl
length-reverse (x ∷ xs) =
    ap length (reverse-cons x xs)
    ∙ omega (arith, length-append (reverse xs) (x ∷ []), length-reverse xs)

take-append_length : {A : Type 0} (xs ys : List A) → take (length xs) (xs ++ ys) ≡ xs
take-append_length [] ys = refl
take-append_length (x ∷ xs) ys = ap (◌∷◌ x) (take-append_length xs ys)

-- All but the last lines, and the last lines
take_end :
    {A : Type 0} (n : ℕ) (xs : List A)
    → n ≤ length xs
    → take (length xs - n) xs ++ reverse (take n (reverse xs)) ≡ xs
take_end n xs h =
    let last = take n (reverse xs) in
    let first = reverse (drop n (reverse xs)) in
    let whole : first ++ reverse last ≡ xs =
      sym (reverse-append last (drop n (reverse xs)))
      ∙ ap reverse (take-append-drop n (reverse xs))
      ∙ reverse-reverse xs in
    let size : length xs - n ≡ length first = omega (
      arith,
      length-reverse (drop n (reverse xs)),
      length-drop n (reverse xs),
      length-reverse xs,
    ) in
    let begin : take (length xs - n) xs ≡ first =
      ap₂ take size (sym whole) ∙ take-append_length first (reverse last) in
    ap (λ x. x ++ reverse last) begin ∙ whole

same_lines→eq : (xs ys : List (List ℕ)) → same_lines xs ys ≡ true → xs ≡ ys
same_lines→eq [] [] h = refl
same_lines→eq [] (y ∷ ys) h = cc
same_lines→eq (x ∷ xs) [] h = cc
same_lines→eq (x ∷ xs) (y ∷ ys) h =
    let (head, tail) = &&-eq-true (text_eq x y) (same_lines xs ys) h in
    ap₂ ◌∷◌ (text_eq→eq x y head) (same_lines→eq xs ys tail)

append_nil : (xs : List (List ℕ)) → xs ++ [] ≡ xs
append_nil [] = refl
append_nil (x ∷ xs) = ap (◌∷◌ x) (append_nil xs)

-- A text is its beginning, its middle and its end.
around :
    (prefix suffix : ℕ) (lines : List (List ℕ))
    → suffix ≤ length (drop prefix lines)
    → lines
      ≡ take prefix lines
        ++ (middle prefix suffix lines ++ reverse (take suffix (reverse (drop prefix lines))))
around prefix suffix lines h =
    let size : length lines - suffix - prefix ≡ length (drop prefix lines) - suffix =
      omega (arith, length-drop prefix lines) in
    sym (take-append-drop prefix lines)
    ∙ ap (λ x. take prefix lines ++ x)
        (sym (take_end suffix (drop prefix lines) h)
          ∙ ap
              (λ n.
                take n (drop prefix lines) ++ reverse (take suffix (reverse (drop prefix lines))))
              (sym size))

-- The diff shows what the one text has between a beginning and an end that both texts have, and what
-- the other has there: with these two parts each text is rebuilt from the diff.
pub diff_rebuilds :
    (left right : List (List ℕ))
    → let d = line_diff (some left) right in
      (first last : List (List ℕ)) × (left ≡ first ++ (minus_lines d ++ last))
      × (right ≡ first ++ (plus_lines d ++ last))
unfolding line_diff
diff_rebuilds left right = elim (Bool-cases (same_lines left right)) [
  | inl same ↦
      rw same (
        left,
        [],
        sym (append_nil left),
        sym (same_lines→eq left right same) ∙ sym (append_nil left),
      )
  | inr other ↦
      let p = common left right in
      let s = common_end p left right in
      let fits = common_le (reverse (drop p left)) (reverse (drop p right)) in
      let last = reverse (take s (reverse (drop p left))) in
      let same_last : last ≡ reverse (take s (reverse (drop p right))) =
        ap reverse (take-common (reverse (drop p left)) (reverse (drop p right))) in
      rw other (
        take p left,
        last,
        around p s left (omega (arith, fits.0, length-reverse (drop p left)))
            ∙ ap (λ x. take p left ++ (x ++ last))
                (sym (minus_lines-plus (middle p s left) (middle p s right))),
        around p s right (omega (arith, fits.1, length-reverse (drop p right)))
            ∙ ap₂ (λ x y. x ++ (middle p s right ++ y)) (sym (take-common left right))
                (sym same_last)
            ∙ ap (λ x. take p left ++ (x ++ last))
                (sym (plus_lines-minus (middle p s left) (middle p s right))),
      )
]
