-- ===== src/Base/Table.antt =====
-- A table of the database as a list of rows, and the statements that the program runs on it.
use Prim.Native.Nat.{ℕ, suc, ◌+◌, ◌≤◌}
use mathlib.Core.Path.{◌≡◌, refl, ap, subst}
use mathlib.Core.Logic.{inl, inr}
use mathlib.Core.Bool.{Bool, true, false, ◌&&◌}
use mathlib.Core.List.{List, [], ◌∷◌, ◌++◌}
use mathlib.Core.Option
use mathlib.Core.Option.{Option, none, some}
use native.Mathlib.Omega.{arith}
use matreshka_panel.Base.Tests.{if◌then◌else◌, Bool-cases}
use matreshka_panel.Base.Lists.{All, length}

module _ {ℓ} {A : Type ℓ} where
  -- `SELECT * FROM t WHERE p`, `.get()`
  unfoldable pub get : (A → Bool) → List A → Option A
  get p [] = none
  get p (x ∷ xs) = if p x then some x else get p xs

  latest_or : (A → Bool) → Option A → List A → Option A
  latest_or p before [] = before
  latest_or p before (x ∷ xs) = latest_or p (if p x then some x else before) xs

  -- `SELECT * FROM t WHERE p ORDER BY created_at DESC LIMIT 1`, the table in order of creation
  unfoldable pub latest : (A → Bool) → List A → Option A
  unfolding latest_or
  latest p xs = latest_or p none xs

  -- `SELECT * FROM t WHERE p`, `.all()`
  unfoldable pub select : (A → Bool) → List A → List A
  select p [] = []
  select p (x ∷ xs) = let rest = select p xs in if p x then x ∷ rest else rest

  -- `UPDATE t SET f WHERE p`
  unfoldable pub update : (A → Bool) → (A → A) → List A → List A
  update p f [] = []
  update p f (x ∷ xs) = (if p x then f x else x) ∷ update p f xs

  -- `DELETE FROM t WHERE p`
  unfoldable pub delete : (A → Bool) → List A → List A
  delete p [] = []
  delete p (x ∷ xs) = let rest = delete p xs in if p x then rest else x ∷ rest

  -- `SELECT COUNT(*) FROM t WHERE p`
  unfoldable pub count : (A → Bool) → List A → ℕ
  count p [] = 0
  count p (x ∷ xs) = let rest = count p xs in if p x then suc rest else rest

  -- `INSERT ... ON CONFLICT(p) DO UPDATE SET f`, `new` the row when there is no conflict
  unfoldable pub upsert : (A → Bool) → (A → A) → A → List A → List A
  upsert p f new [] = new ∷ []
  upsert p f new (x ∷ xs) = if p x then f x ∷ xs else x ∷ upsert p f new xs

  -- What an update does to the row that a query finds, if it keeps the query's columns.
  pub get-update :
      (p q : A → Bool) (f : A → A) (xs : List A)
      → ((x : A) → q (f x) ≡ q x)
      → get q (update p f xs) ≡ Option.map (λ x. if p x then f x else x) (get q xs)
  unfolding get update
  get-update p q f [] keep = refl
  get-update p q f (x ∷ xs) keep = ground (arith, keep x, get-update p q f xs keep)

  pub get-append :
      (q : A → Bool) (xs ys : List A)
      → get q (xs ++ ys) ≡ elim (get q xs) [ none ↦ get q ys | some x ↦ some x ]
  unfolding get
  get-append q [] ys = refl
  get-append q (x ∷ xs) ys = ground (arith, get-append q xs ys)

  -- The row that a query finds passes its test.
  pub get_sound : (q : A → Bool) (xs : List A) (x : A) → get q xs ≡ some x → q x ≡ true
  unfolding get
  get_sound q [] x h = cc
  get_sound q (y ∷ xs) x h = ground (arith, get_sound q xs x)

  pub get-delete :
      (p q : A → Bool) (xs : List A)
      → ((x : A) → q x ≡ true → p x ≡ true)
      → get q (delete p xs) ≡ none
  unfolding get delete
  get-delete p q [] h = refl
  get-delete p q (x ∷ xs) h = ground (arith, h x, get-delete p q xs h)

  pub get-delete_ne :
      (p q : A → Bool) (xs : List A)
      → ((x : A) → q x ≡ true → p x ≡ false)
      → get q (delete p xs) ≡ get q xs
  unfolding get delete
  get-delete_ne p q [] h = refl
  get-delete_ne p q (x ∷ xs) h = ground (arith, h x, get-delete_ne p q xs h)

  pub All-get {κ} :
      (P : A → Type κ) (q : A → Bool) (xs : List A) (x : A) → All P xs → get q xs ≡ some x → P x
  unfolding get
  All-get P q [] x h e = cc
  All-get P q (y ∷ xs) x h e = elim (Bool-cases (q y)) [
    | inl hit ↦ let same : y ≡ x = ground arith in subst P same h.0
    | inr miss ↦ All-get P q xs x h.1 (ground arith)
  ]

  pub All-update {κ} :
      (P : A → Type κ) (p : A → Bool) (f : A → A) (xs : List A)
      → ((x : A) → p x ≡ true → P x → P (f x))
      → All P xs
      → All P (update p f xs)
  unfolding update
  All-update P p f [] step h = tt
  All-update P p f (x ∷ xs) step h =
      let rest = All-update P p f xs step h.1 in ground (arith, step x, h.0, rest)

  -- A row written by an upsert is the row that its key finds.
  pub get-upsert_self :
      (p : A → Bool) (new : A) (xs : List A)
      → p new ≡ true
      → get p (upsert p (λ _. new) new xs) ≡ some new
  unfolding get upsert
  get-upsert_self p new [] h = rw h
  get-upsert_self p new (x ∷ xs) h = ground (arith, h, get-upsert_self p new xs h)

  pub get-upsert_ne :
      (p q : A → Bool) (f : A → A) (new : A) (xs : List A)
      → q new ≡ false
      → ((x : A) → p x ≡ true → (q x ≡ false) × (q (f x) ≡ false))
      → get q (upsert p f new xs) ≡ get q xs
  unfolding get upsert
  get-upsert_ne p q f new [] h apart = rw h
  get-upsert_ne p q f new (x ∷ xs) h apart =
      ground (arith, apart x, get-upsert_ne p q f new xs h apart)

  pub update-append :
      (p : A → Bool) (f : A → A) (xs ys : List A)
      → update p f (xs ++ ys) ≡ update p f xs ++ update p f ys
  unfolding update
  update-append p f [] ys = refl
  update-append p f (x ∷ xs) ys = ap (◌∷◌ (if p x then f x else x)) (update-append p f xs ys)

  latest_or-append :
      (p : A → Bool) (before : Option A) (xs : List A) (x : A)
      → p x ≡ true
      → latest_or p before (xs ++ x ∷ []) ≡ some x
  unfolding latest_or
  latest_or-append p before [] x h = rw h
  latest_or-append p before (y ∷ xs) x h =
      latest_or-append p (if p y then some y else before) xs x h

  -- The newest row wins.
  pub latest-append :
      (p : A → Bool) (xs : List A) (x : A) → p x ≡ true → latest p (xs ++ x ∷ []) ≡ some x
  unfolding latest
  latest-append p xs x h = latest_or-append p none xs x h

  -- An update counts no more rows when it never makes a row pass that did not pass.
  pub count-update-le :
      (q p : A → Bool) (f : A → A) (xs : List A)
      → All (λ x. p x ≡ true → q (f x) ≡ true → q x ≡ true) xs
      → count q (update p f xs) ≤ count q xs
  unfolding count update
  count-update-le q p f [] h = omega arith
  count-update-le q p f (x ∷ xs) h = ground (arith, h.0, count-update-le q p f xs h.1)

  pub count-append : (q : A → Bool) (xs ys : List A) → count q (xs ++ ys) ≡ count q xs + count q ys
  unfolding count
  count-append q [] ys = omega arith
  count-append q (x ∷ xs) ys = ground (arith, count-append q xs ys)

  pub count-get : (q : A → Bool) (xs : List A) → get q xs ≡ none → count q xs ≡ 0
  unfolding count get
  count-get q [] h = refl
  count-get q (x ∷ xs) h = ground (arith, count-get q xs)

  -- An update that concerns the newest row.
  pub update-snoc :
      (p : A → Bool) (f : A → A) (xs : List A) (x : A)
      → p x ≡ true
      → update p f (xs ++ x ∷ []) ≡ update p f xs ++ f x ∷ []
  unfolding update
  update-snoc p f [] x h = rw h
  update-snoc p f (y ∷ xs) x h = ap (◌∷◌ (if p y then f y else y)) (update-snoc p f xs x h)

  pub get-delete-none :
      (p q : A → Bool) (xs : List A) → get q xs ≡ none → get q (delete p xs) ≡ none
  unfolding get delete
  get-delete-none p q [] h = refl
  get-delete-none p q (x ∷ xs) h = ground (arith, h, get-delete-none p q xs)

  pub count-delete :
      (p q : A → Bool) (xs : List A)
      → count q (delete p xs) + count (λ x. p x && q x) xs ≡ count q xs
  unfolding count delete
  count-delete p q [] = refl
  count-delete p q (x ∷ xs) = ground (arith, count-delete p q xs)

  pub count-and-le : (p q : A → Bool) (xs : List A) → count (λ x. p x && q x) xs ≤ count p xs
  unfolding count
  count-and-le p q [] = omega arith
  count-and-le p q (x ∷ xs) = ground (arith, count-and-le p q xs)

  pub length-delete : (p : A → Bool) (xs : List A) → length (delete p xs) + count p xs ≡ length xs
  unfolding count delete
  length-delete p [] = refl
  length-delete p (x ∷ xs) = ground (arith, length-delete p xs)
