-- ===== src/System/EngineOrder.antt =====
-- That the order of the engines names each engine once.
use matreshka_panel.Base.{
  ℕ, ◌≡◌, ◌⊎◌, ◌∙◌, refl, sym, ap, Bool, true, false, not, ◌&&◌, ◌||◌, Option, none, some, List, [],
  ◌∷◌, Time, String, ◌==◌, select, count, count-append, length, arith, inl, inr, Bool-cases,
  &&-eq-true,
}
use matreshka_panel.Base.Text.{codes, text_eq→eq, same_text, listed}
use matreshka_panel.Journal.Record.{Ident}
use matreshka_panel.Registry.{Engine, hysteria, xray, engine_eq, ok, ◌>>◌, require}
use matreshka_panel.System.Engines.{
  Item, text, other, Value, items, no_list, Db, engine_ids, engine_of, engines_of, has_engine,
  unique_engines, completed, order_of, engine_order, all_texts, texts_of, different, reordered,
  update_engine_order,
}

abbrev once_if : Bool → ℕ
once_if true = 1
once_if false = 0

-- How often a list without repetitions has an engine that was not seen before.
count-unique_engines :
    (e : Engine) (seen es : List Engine)
    → count (engine_eq e) (unique_engines seen es)
      ≡ once_if (not (has_engine seen e) && has_engine es e)
unfolding count unique_engines
count-unique_engines e seen [] = ground arith
count-unique_engines e seen (d ∷ es) =
    ground (arith, count-unique_engines e seen es, count-unique_engines e (d ∷ seen) es)

count-missing :
    (e : Engine) (valid : List Engine)
    → count (engine_eq e) (select (λ d. not (has_engine valid d)) engine_ids)
      ≡ once_if (not (has_engine valid e))
unfolding count select
count-missing hysteria valid = ground arith
count-missing xray valid = ground arith

count-completed : (e : Engine) (valid : List Engine) → count (engine_eq e) (completed valid) ≡ 1
count-completed e valid =
    count-append (engine_eq e) (unique_engines [] valid)
      (select (λ d. not (has_engine valid d)) engine_ids)
    ∙ ground (arith, count-unique_engines e [] valid, count-missing e valid)

not_both : (s : String) → same_text s "hysteria" ≡ true → same_text s "xray" ≡ false
not_both s h = rw (text_eq→eq (codes s) (codes "hysteria") h) refl

named_hysteria : (s : String) → same_text s "hysteria" ≡ true → engine_of (text s) ≡ some hysteria
unfolding engine_of
named_hysteria s h = rw h refl

named_xray : (s : String) → same_text s "xray" ≡ true → engine_of (text s) ≡ some xray
unfolding engine_of
named_xray s h =
    let no_hysteria : same_text s "hysteria" ≡ false = ground (arith, h, not_both s) in
    rw (no_hysteria, h) refl

two_engines :
    (a b : Item) (d e : Engine)
    → engine_of a ≡ some d
    → engine_of b ≡ some e
    → engines_of (a ∷ b ∷ []) ≡ d ∷ e ∷ []
two_engines a b d e ha hb = rw (ha, hb, engines_of) refl

two_named :
    (a b : String)
    → ((same_text a "hysteria" || (same_text b "hysteria" || false))
        && (same_text a "xray" || (same_text b "xray" || false)))
      ≡ true
    → (engines_of (text a ∷ text b ∷ []) ≡ hysteria ∷ xray ∷ [])
      ⊎ (engines_of (text a ∷ text b ∷ []) ≡ xray ∷ hysteria ∷ [])
two_named a b both = elim (Bool-cases (same_text a "hysteria")) [
  | inl first ↦
      let second : same_text b "xray" ≡ true = ground (arith, both, not_both a first) in
      inl
        (two_engines (text a) (text b) hysteria xray (named_hysteria a first) (named_xray b second))
  | inr not_first ↦
      let second : same_text b "hysteria" ≡ true = ground (arith, both, not_first) in
      let first : same_text a "xray" ≡ true = ground (arith, both, not_both b second) in
      inr
        (two_engines (text a) (text b) xray hysteria (named_xray a first) (named_hysteria b second))
]

-- A list of two texts, among them both engines, is read back as it is.
both_engines :
    (ids : List Item)
    → length ids ≡ 2
    → all_texts ids ≡ true
    → (listed (texts_of ids) "hysteria" && listed (texts_of ids) "xray") ≡ true
    → (engines_of ids ≡ hysteria ∷ xray ∷ []) ⊎ (engines_of ids ≡ xray ∷ hysteria ∷ [])
both_engines [] two texts both = absurd (omega (arith, two))
both_engines (a ∷ []) two texts both = absurd (omega (arith, two))
both_engines (text a ∷ text b ∷ []) two texts both = two_named a b both
both_engines (text a ∷ other ∷ []) two texts both = cc
both_engines (other ∷ b ∷ []) two texts both = cc
both_engines (a ∷ b ∷ c ∷ ids) two texts both = absurd (omega (arith, two))

order_complete : (e : Engine) (v : Option Value) → count (engine_eq e) (order_of v) ≡ 1
unfolding order_of count
order_complete e none = count-completed e engine_ids
order_complete hysteria (some no_list) = refl
order_complete xray (some no_list) = refl
order_complete e (some (items is_)) = count-completed e (engines_of is_)

completed_both :
    (es : List Engine)
    → (es ≡ hysteria ∷ xray ∷ []) ⊎ (es ≡ xray ∷ hysteria ∷ [])
    → completed es ≡ es
unfolding unique_engines select
completed_both es (inl h) = ap completed h ∙ sym h
completed_both es (inr h) = ap completed h ∙ sym h

guarded2 :
    {A : Type 0} (a b : Bool) (m n : ℕ) (x y : A)
    → (require a m >> (require b n >> ok x)) ≡ ok y
    → (a ≡ true) × (b ≡ true) × (x ≡ y)
guarded2 true true m n x y h = (refl, refl, ground (arith, h))
guarded2 true false m n x y h = cc
guarded2 false b m n x y h = cc

reorder_read_back :
    (ids : List Item) (actor : Ident) (now : Time) (db db' : Db)
    → update_engine_order (items ids) actor now db ≡ ok db'
    → engine_order db' ≡ engines_of ids
unfolding update_engine_order reordered order_of
reorder_read_back ids actor now db db' h =
    let (shape, content, same) = guarded2 _ _ 400 400 (reordered ids actor now db) db' h in
    let (two, texts) = &&-eq-true (length ids == 2) (all_texts ids) shape in
    let (_, both) =
      &&-eq-true (different [] (texts_of ids) == 2)
        (listed (texts_of ids) "hysteria" && listed (texts_of ids) "xray") content in
    ap engine_order (sym same)
    ∙ completed_both (engines_of ids) (both_engines ids (ground (arith, two)) texts both)

-- Whatever is stored as the order of the engines, each engine stands exactly once in the order that is
-- used. An order that is accepted is the one that is used from then on, and this holds of it too.
pub engine_order_complete :
    (ids : List Item) (actor : Ident) (now : Time) (db db' : Db) (e : Engine)
    → update_engine_order (items ids) actor now db ≡ ok db'
    → (count (engine_eq e) (engine_order db) ≡ 1)
      × (engine_order db' ≡ engines_of ids)
      × (count (engine_eq e) (engines_of ids) ≡ 1)
engine_order_complete ids actor now db db' e h =
    let same = reorder_read_back ids actor now db db' h in
    (
      order_complete e db.engine_order,
      same,
      ap (count (engine_eq e)) (sym same) ∙ order_complete e db'.engine_order,
    )
