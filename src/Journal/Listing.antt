-- ===== src/Journal/Listing.antt =====
-- `JournalService.list` and `latest`: one page of the journal, newest events first.
use matreshka_panel.Base.{
  ℕ, zero, suc, Bool, true, false, ◌&&◌, ◌||◌, max, min, Option, none, some, List, [], ◌∷◌, ◌++◌,
  if◌then◌else◌, ◌==◌, ltb, leb, or_else, select, length, take, last?,
}
use matreshka_panel.Journal.Types.{
  Category, people, routes, engines, maintenance, security, system, Kind, is_change, Severity, info,
  error, critical,
}
use matreshka_panel.Journal.Record.{Event, Journal}

-- `JournalScope`
pub data Scope : Type 0 where
  every_event important_only errors_only changes_only : Scope

-- `JournalQuery`, with one category as a list. `found` is the test of the search text `q` on what is
-- shown of an event, which holds of every event where there is no text.
pub record Query : Type 0 where
  pub scope : Option Scope
  pub categories : List Category
  pub found : Event → Bool
  pub before : Option ℕ
  pub limit : Option ℕ

-- `JournalPage`
pub record Page : Type 0 where
  pub events : List Event
  pub total : ℕ
  pub next : Option ℕ

abbrev pub category_eq : Category → Category → Bool
category_eq people people = true
category_eq routes routes = true
category_eq engines engines = true
category_eq maintenance maintenance = true
category_eq security security = true
category_eq system system = true
category_eq _ _ = false

-- `events.category IN (...)`, where there is a category
abbrev pub one_of : List Category → Category → Bool
one_of [] c = false
one_of (d ∷ ds) c = category_eq d c || one_of ds c

abbrev pub in_categories : List Category → Event → Bool
in_categories [] e = true
in_categories (c ∷ cs) e = one_of (c ∷ cs) e.category

-- `severity IN ('error', 'critical')`
abbrev pub is_error : Severity → Bool
is_error error = true
is_error critical = true
is_error _ = false

abbrev pub is_alert : Severity → Bool
is_alert info = false
is_alert _ = true

abbrev pub is_kind_change : Kind → Bool
is_kind_change is_change = true
is_kind_change _ = false

-- The clauses of the `WHERE`
unfoldable pub in_scope : Scope → Event → Bool
in_scope Scope.every_event e = true
in_scope Scope.important_only e = e.important || is_alert e.severity
in_scope Scope.errors_only e = is_error e.severity
in_scope Scope.changes_only e = is_kind_change e.kind

unfoldable pub passes : Query → Event → Bool
unfolding in_scope
passes q e = in_categories q.categories e && in_scope (or_else q.scope Scope.every_event) e

-- `ORDER BY occurred_at DESC, id DESC`
abbrev pub precedes : Event → Event → Bool
precedes a b = ltb b.occurred_at a.occurred_at || a.occurred_at == b.occurred_at && leb b.id a.id

unfoldable pub insert : Event → List Event → List Event
insert e [] = e ∷ []
insert e (x ∷ xs) = let rest = insert e xs in if precedes e x then e ∷ x ∷ xs else x ∷ rest

unfoldable pub ordered : List Event → List Event
unfolding insert
ordered [] = []
ordered (e ∷ es) = insert e (ordered es)

-- `searched`
unfoldable pub searched : Query → Journal → List Event
unfolding passes ordered
searched q j = select q.found (ordered (select (passes q) j.events))

-- What follows the event `id`, if it is there: `findIndex` and `slice`.
unfoldable pub after_event : ℕ → List Event → Option (List Event)
after_event id [] = none
after_event id (e ∷ es) = let rest = after_event id es in if e.id == id then some es else rest

-- `available`; an absent or zero `before` is not looked for.
unfoldable pub available : Option ℕ → List Event → List Event
unfolding after_event
available none es = es
available (some id) es = if id == 0 then es else or_else (after_event id es) es

-- `limit`
abbrev pub page_limit : Option ℕ → ℕ
page_limit l = max 1 (min 100 (or_else l 50))

abbrev pub last_id : List Event → Option ℕ
last_id es = elim (last? es) [ none ↦ none | some e ↦ some e.id ]

unfoldable pub page : ℕ → ℕ → List Event → Page
page limit total es = record {
  events = take limit es;
  total = total;
  next = if ltb limit (length es) then last_id (take limit es) else none;
}

-- `list`
unfoldable pub list : Query → Journal → Page
unfolding searched available page
list q j = page (page_limit q.limit) (length (searched q j)) (available q.before (searched q j))

-- `latest`
unfoldable pub latest : ℕ → Journal → List Event
unfolding list
latest limit j =
    (list
      (record {
        scope = none;
        categories = [];
        found = λ e. true;
        before = none;
        limit = some limit;
      })
      j).events

-- A reader who asks for page after page, each time with the `next` of the page before; `none` where
-- the fuel is used up.
unfoldable pub read_all : ℕ → Query → Journal → Option (List Event)
read_all zero q j = none
read_all (suc fuel) q j =
    let p = list q j in
    elim p.next [
      | none ↦ some p.events
      | some id ↦ elim (read_all fuel (record q { before = some id }) j) [
        | none ↦ none
        | some rest ↦ some (p.events ++ rest)
      ]
    ]
