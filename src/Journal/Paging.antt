-- ===== src/Journal/Paging.antt =====
-- That the pages of the journal fit together.
use matreshka_panel.Base.{
  take_all, count-and-le, ℕ, zero, suc, ◌+◌, ◌≤◌, ◌<◌, ◌≡◌, ◌∙◌, refl, sym, ap, Bool, false, ◌&&◌,
  Option, none, some, List, [], ◌∷◌, ◌++◌, ◌==◌, ==_refl, ltb, ltb→lt, select, count, count-append,
  length, length-take, length-drop, take, drop, take-append-drop, last?, arith, inl, inr,
  Bool-cases,
}
use mathlib.Core.List.{append_assoc}
use matreshka_panel.Journal.Record.{Event, Journal}
use matreshka_panel.Journal.Listing.{
  Query, Page, passes, insert, ordered, searched, after_event, available, page_limit, last_id, page,
  list, read_all,
}

abbrev pub has_id : ℕ → Event → Bool
has_id id e = e.id == id

-- Sorting and filtering keep what is counted.
count-insert :
    (p : Event → Bool) (e : Event) (es : List Event) → count p (insert e es) ≡ count p (e ∷ es)
unfolding count insert
count-insert p e [] = refl
count-insert p e (x ∷ es) = ground (arith, count-insert p e es)

count-ordered : (p : Event → Bool) (es : List Event) → count p (ordered es) ≡ count p es
unfolding count ordered
count-ordered p [] = refl
count-ordered p (e ∷ es) = count-insert p e (ordered es) ∙ ground (arith, count-ordered p es)

count-select :
    (p q : Event → Bool) (es : List Event) → count p (select q es) ≡ count (λ e. p e && q e) es
unfolding count select
count-select p q [] = refl
count-select p q (e ∷ es) = ground (arith, count-select p q es)

pub count-searched :
    (p : Event → Bool) (q : Query) (j : Journal)
    → count p (searched q j) ≡ count (λ e. (p e && q.found e) && passes q e) j.events
unfolding searched
count-searched p q j =
    count-select p q.found (ordered (select (passes q) j.events))
    ∙ count-ordered (λ e. p e && q.found e) (select (passes q) j.events)
    ∙ count-select (λ e. p e && q.found e) (passes q) j.events

pub searched_le :
    (p : Event → Bool) (q : Query) (j : Journal) → count p (searched q j) ≤ count p j.events
searched_le p q j = omega (
  arith,
  count-searched p q j,
  count-and-le (λ e. p e && q.found e) (passes q) j.events,
  count-and-le p q.found j.events,
)

-- What follows the last event of a page, where no id comes twice.
after_event-append :
    (e : Event) (xs ys : List Event)
    → count (has_id e.id) xs ≡ 0
    → after_event e.id (xs ++ e ∷ ys) ≡ some ys
unfolding count after_event
after_event-append e [] ys none_before = rw (==_refl e.id) refl
after_event-append e (x ∷ xs) ys none_before =
    ground (arith, none_before, after_event-append e xs ys)

last_split :
    (xs : List Event)
    → (1 ≤ length xs)
    → (init : List Event) × (e : Event) × (last? xs ≡ some e) × (xs ≡ init ++ e ∷ [])
last_split [] h = absurd (omega (arith, h))
last_split (x ∷ []) h = ([], x, refl, refl)
last_split (x ∷ y ∷ xs) h =
    let (init, e, at, same) = last_split (y ∷ xs) (omega arith) in
    (x ∷ init, e, at, ap (◌∷◌ x) same)

-- A page that is not the last: its `next` asks for what the page leaves.
next_page :
    (es pre av : List Event) (limit : ℕ)
    → ((id : ℕ) → count (has_id id) es ≤ 1)
    → count (has_id 0) es ≡ 0
    → es ≡ pre ++ av
    → 1 ≤ limit
    → limit < length av
    → (id : ℕ) × (last_id (take limit av) ≡ some id) × (available (some id) es ≡ drop limit av)
unfolding available count
next_page es pre av limit once positive split one more =
    let (init, e, at, same) =
      last_split (take limit av) (omega (arith, one, more, length-take limit av)) in
    let whole : es ≡ (pre ++ init) ++ e ∷ drop limit av =
      split
      ∙ ap (λ x. pre ++ x)
          (sym (take-append-drop limit av)
            ∙ ap (λ x. x ++ drop limit av) same
            ∙ append_assoc init (e ∷ []) (drop limit av))
      ∙ sym (append_assoc pre init (e ∷ drop limit av)) in
    let counted : (id : ℕ)
        → count (has_id id) es
          ≡ count (has_id id) (pre ++ init) + count (has_id id) (e ∷ drop limit av) =
      λ id.
        ap (count (has_id id)) whole ∙ count-append (has_id id) (pre ++ init) (e ∷ drop limit av) in
    let alone : count (has_id e.id) (pre ++ init) ≡ 0 =
      ground (arith, once e.id, counted e.id, ==_refl e.id) in
    let some_id : (e.id == 0) ≡ false = ground (arith, positive, counted 0) in
    (
      e.id,
      ap (λ o. elim o as (λ _. Option ℕ) [ none ↦ none | some x ↦ some x.id ]) at,
      rw (some_id, whole, after_event-append e (pre ++ init) (drop limit av) alone) refl,
    )

list_at :
    (q : Query) (j : Journal) (av : List Event)
    → available q.before (searched q j) ≡ av
    → list q j ≡ page (page_limit q.limit) (length (searched q j)) av
unfolding list
list_at q j av here = ap (page (page_limit q.limit) (length (searched q j))) here

read_last :
    (fuel : ℕ) (q : Query) (j : Journal) (p : Page)
    → list q j ≡ p
    → p.next ≡ none
    → read_all (suc fuel) q j ≡ some p.events
unfolding read_all
read_last fuel q j p e last = rw (e, last, read_all) (ap (λ x. some x.events) e)

read_more :
    (fuel : ℕ) (q : Query) (j : Journal) (p : Page) (id : ℕ) (rest : List Event)
    → list q j ≡ p
    → p.next ≡ some id
    → read_all fuel (record q { before = some id }) j ≡ some rest
    → read_all (suc fuel) q j ≡ some (p.events ++ rest)
unfolding read_all
read_more fuel q j p id rest e more then_ =
    rw (e, more, then_, read_all) (ap (λ x. some (x.events ++ rest)) e)

-- Reading on from what is left of the journal.
pub read_rest :
    (fuel : ℕ) (q : Query) (j : Journal) (pre av : List Event)
    → ((id : ℕ) → count (has_id id) (searched q j) ≤ 1)
    → count (has_id 0) (searched q j) ≡ 0
    → searched q j ≡ pre ++ av
    → available q.before (searched q j) ≡ av
    → length av < fuel
    → read_all fuel q j ≡ some av
unfolding page searched
read_rest zero q j pre av once positive split here enough = absurd (omega (arith, enough))
read_rest (suc fuel) q j pre av once positive split here enough =
    let limit = page_limit q.limit in
    elim (Bool-cases (ltb limit (length av))) [
      | inr last ↦
          read_last fuel q j (page limit (length (searched q j)) av) (list_at q j av here)
            (rw last refl)
          ∙ ap some (take_all limit av (ground (arith, last)))
      | inl more ↦
          let (id, next, left) =
            next_page (searched q j) pre av limit once positive split (omega arith)
              (ltb→lt limit (length av) more) in
          let rest =
            read_rest fuel (record q { before = some id }) j (pre ++ take limit av) (drop limit av)
              once positive
              (split
                ∙ ap (λ x. pre ++ x) (sym (take-append-drop limit av))
                ∙ sym (append_assoc pre (take limit av) (drop limit av)))
              left (omega (arith, length-drop limit av, ltb→lt limit (length av) more, enough)) in
          read_more fuel q j (page limit (length (searched q j)) av) id (drop limit av)
            (list_at q j av here) (rw more next) rest
          ∙ ap some (take-append-drop limit av)
    ]
