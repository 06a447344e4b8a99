-- ===== src/Journal/Order.antt =====
-- What the journal shows, and in which order.
use matreshka_panel.Base.{
  ℕ, suc, ◌≡◌, ◌≤◌, none, some, length, refl, Bool, true, false, ◌&&◌, List, [], ◌∷◌, select, count,
  All, arith, inl, inr, Bool-cases,
}
use matreshka_panel.Journal.Record.{Event, Journal}
use matreshka_panel.Journal.Listing.{
  Query, passes, precedes, insert, ordered, searched, available, read_all,
}
use matreshka_panel.Journal.Paging.{has_id, searched_le, count-searched, read_rest}

-- Every event is at least as new as those after it.
abbrev pub NewestFirst : List Event → Type 0
NewestFirst [] = Unit
NewestFirst (e ∷ es) = All (λ x. precedes e x ≡ true) es × NewestFirst es

precedes_total : (a b : Event) → precedes a b ≡ false → precedes b a ≡ true
precedes_total a b h = ground arith

precedes_trans : (a b c : Event) → precedes a b ≡ true → precedes b c ≡ true → precedes a c ≡ true
precedes_trans a b c ab bc = ground arith

precede_lem :
    (a b : Event) (es : List Event)
    → precedes a b ≡ true
    → All (λ x. precedes b x ≡ true) es
    → All (λ x. precedes a x ≡ true) es
precede_lem a b [] ab h = tt
precede_lem a b (x ∷ es) ab h = (precedes_trans a b x ab h.0, precede_lem a b es ab h.1)

All-insert :
    (P : Event → Type 0) (e : Event) (es : List Event) → P e → All P es → All P (insert e es)
unfolding insert
All-insert P e [] he h = (he, tt)
All-insert P e (x ∷ es) he h = elim (Bool-cases (precedes e x)) [
  | inl before ↦ rw before (he, h)
  | inr after ↦ rw after (h.0, All-insert P e es he h.1)
]

insert-NewestFirst : (e : Event) (es : List Event) → NewestFirst es → NewestFirst (insert e es)
unfolding insert
insert-NewestFirst e [] h = (tt, tt)
insert-NewestFirst e (x ∷ es) h = elim (Bool-cases (precedes e x)) [
  | inl before ↦ rw before ((before, precede_lem e x es before h.0), h)
  | inr after ↦ rw after (
    All-insert (λ y. precedes x y ≡ true) e es (precedes_total e x after) h.0,
    insert-NewestFirst e es h.1,
  )
]

ordered-NewestFirst : (es : List Event) → NewestFirst (ordered es)
unfolding ordered
ordered-NewestFirst [] = tt
ordered-NewestFirst (e ∷ es) = insert-NewestFirst e (ordered es) (ordered-NewestFirst es)

All-select :
    (P : Event → Type 0) (p : Event → Bool) (es : List Event) → All P es → All P (select p es)
unfolding select
All-select P p [] h = tt
All-select P p (e ∷ es) h = elim (Bool-cases (p e)) [
  | inl kept ↦ rw kept (h.0, All-select P p es h.1)
  | inr dropped ↦ rw dropped (All-select P p es h.1)
]

select-NewestFirst :
    (p : Event → Bool) (es : List Event) → NewestFirst es → NewestFirst (select p es)
unfolding select
select-NewestFirst p [] h = tt
select-NewestFirst p (e ∷ es) h = elim (Bool-cases (p e)) [
  | inl kept ↦ rw kept (All-select (λ x. precedes e x ≡ true) p es h.0, select-NewestFirst p es h.1)
  | inr dropped ↦ rw dropped (select-NewestFirst p es h.1)
]

-- In the journal no id comes twice and none is zero. A reader who starts without `before` and asks for
-- page after page, whatever the limit, is done after at most one page more than there are events that
-- the query finds. The events read are in the order newest first, and with any property there are as
-- many of them as the journal has that are of the query's categories and scope and have its search
-- text.
pub pages_complete :
    (q : Query) (j : Journal) (p : Event → Bool)
    → ((id : ℕ) → count (has_id id) j.events ≤ 1)
    → count (has_id 0) j.events ≡ 0
    → q.before ≡ none
    → (es : List Event) × (read_all (suc (length es)) q j ≡ some es)
      × NewestFirst es
      × (count p es ≡ count (λ e. (p e && q.found e) && passes q e) j.events)
unfolding available searched
pages_complete q j p once positive first = (
  searched q j,
  read_rest (suc (length (searched q j))) q j [] (searched q j)
      (λ id. omega (arith, once id, searched_le (has_id id) q j))
      (omega (arith, positive, searched_le (has_id 0) q j)) refl (rw first refl) (omega arith),
  select-NewestFirst q.found (ordered (select (passes q) j.events))
      (ordered-NewestFirst (select (passes q) j.events)),
  count-searched p q j,
)
