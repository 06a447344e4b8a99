-- ===== src/Routes/History.antt =====
-- What publishing and rolling back leave for the devices, the draft and the earlier revisions.
use matreshka_panel.Base.{
  ℕ, suc, ◌<◌, ◌≤◌, ◌≡◌, ◌∙◌, refl, ap, Bool, true, false, not, none, some, List, [], ◌∷◌, ◌++◌,
  map, Time, Key, String, ◌==◌, ltb, get, get-append, ==_refl, length, arith,
}
use matreshka_panel.Base.Text.{codes, text_eq_refl}
use matreshka_panel.Journal.Record.{Ident}
use matreshka_panel.Registry.{ok, found}
use matreshka_panel.Routes.Draft.{
  Action, Matcher, Source, Rule, Revision, Db, draft, in_order, insert, largest_version,
}
use matreshka_panel.Routes.Publish.{
  revision, published, written, Kind, draft_rules, rolled_back, rules_of, drafts_of, publish,
  publication, rollback, action_eq, matcher_eq, source_eq, bool_eq, same_rule, same_rules, dirty,
}

-- No revision has a version above the largest.
get_above :
    (v : ℕ) (rs : List Revision) → largest_version rs < v → get (λ r. r.version == v) rs ≡ none
unfolding get largest_version
get_above v [] h = refl
get_above v (r ∷ rs) h = ground (arith, h, get_above v rs)

get_version :
    (v : ℕ) (rs : List Revision) (r : Revision)
    → r.version ≡ suc (largest_version rs)
    → v ≤ largest_version rs
    → get (λ x. x.version == v) (rs ++ r ∷ []) ≡ get (λ x. x.version == v) rs
unfolding get
get_version v rs r new old = ground (arith, get-append (λ x. x.version == v) rs (r ∷ []), new, old)

get_newest :
    (rs : List Revision) (r : Revision)
    → r.version ≡ suc (largest_version rs)
    → get (λ x. x.version == suc (largest_version rs)) (rs ++ r ∷ []) ≡ some r
unfolding get
get_newest rs r new = ground (
  arith,
  get-append (λ x. x.version == suc (largest_version rs)) rs (r ∷ []),
  get_above (suc (largest_version rs)) rs,
  new,
  ==_refl (suc (largest_version rs)),
)

-- The tables after a publication of some rules.
record IsPublished (kind : Kind) (fresh : ℕ → Key) (now : Time) (db db' : Db) : Type 0 where
  version : db'.active_version ≡ suc (largest_version db.revisions)
  rules : published db' ≡ ok (rules_of kind db)
  drafts : db'.drafts ≡ drafts_of kind fresh now db
  earlier : (v : ℕ) → v ≤ largest_version db.revisions → revision v db' ≡ revision v db

publish-IsPublished :
    (id : Key) (note : String) (actor : Ident) (kind : Kind) (fresh : ℕ → Key) (now : Time)
    (db : Db)
    → 0 < length (rules_of kind db)
    → (db' : Db) × (publish id note actor kind fresh now db ≡ ok db')
      × IsPublished kind fresh now db db'
unfolding publish publication published revision
publish-IsPublished id note actor kind fresh now db h =
    let row : Revision = record {
      id = id;
      version = suc (largest_version db.revisions);
      rules = rules_of kind db;
      note = note;
      created_at = now;
      actor = actor;
    } in
    (
      publication id note actor kind fresh now db,
      ground (arith, h),
      record {
        version = refl;
        rules = ground (arith, get_newest db.revisions row refl);
        drafts = refl;
        earlier = λ v old. ap (λ o. found o 404) (get_version v db.revisions row refl old);
      },
    )

action_eq_refl : (a : Action) → action_eq a a ≡ true
action_eq_refl a = ground arith

matcher_eq_refl : (m : Matcher) → matcher_eq m m ≡ true
matcher_eq_refl m = ground arith

source_eq_refl : (s : Source) → source_eq s s ≡ true
source_eq_refl s = ground arith

bool_eq_refl : (b : Bool) → bool_eq b b ≡ true
bool_eq_refl b = ground arith

same_rules_refl : (rs : List Rule) → same_rules rs rs ≡ true
unfolding same_rules same_rule
same_rules_refl [] = refl
same_rules_refl (r ∷ rs) =
    rw
      (
        ==_refl r.position,
        action_eq_refl r.action,
        matcher_eq_refl r.matcher,
        text_eq_refl (codes r.value),
        source_eq_refl r.source,
        bool_eq_refl r.locked,
        bool_eq_refl r.enabled,
      )
      (same_rules_refl rs)

dirty-published :
    (db : Db) (rs : List Rule)
    → published db ≡ ok rs
    → ltb 0 db.active_version ≡ true
    → dirty db ≡ ok (not (same_rules (draft db) rs))
unfolding dirty published
dirty-published db rs e above = ground (arith, e, above)

clean :
    (db : Db) (rs : List Rule)
    → published db ≡ ok rs
    → ltb 0 db.active_version ≡ true
    → draft db ≡ rs
    → dirty db ≡ ok false
clean db rs e above same = dirty-published db rs e above ∙ rw (same, same_rules_refl rs) refl

in_order-written :
    (i : ℕ) (id_at : ℕ → Rule → Key) (now : Time) (rs : List Rule)
    → in_order (written i id_at now rs) ≡ written i id_at now rs
unfolding in_order insert written
in_order-written i id_at now [] = refl
in_order-written i id_at now (r ∷ []) = refl
in_order-written i id_at now (r ∷ s ∷ rs) =
    rw (in_order-written (suc i) id_at now (s ∷ rs)) (ground arith)

-- What a rule says, without its id, position and times.
abbrev pub content : Rule → Action × Matcher × String × Source × Bool × Bool
content r = (r.action, r.matcher, r.value, r.source, r.locked, r.enabled)

content-written :
    (i : ℕ) (id_at : ℕ → Rule → Key) (now : Time) (rs : List Rule)
    → map content (written i id_at now rs) ≡ map content rs
unfolding written
content-written i id_at now [] = refl
content-written i id_at now (r ∷ rs) = ap (◌∷◌ (content r)) (content-written (suc i) id_at now rs)

-- Publishing a draft that is not empty succeeds: the devices are then given exactly the rules of the
-- draft, under a version above all earlier ones, the draft is unchanged and no longer differs from
-- what is published, and every earlier version still has its revision.
pub publish_publishes :
    (id : Key) (note : String) (actor : Ident) (fresh : ℕ → Key) (now : Time) (v : ℕ) (db : Db)
    → 0 < length (draft db)
    → v ≤ largest_version db.revisions
    → (db' : Db) × (publish id note actor draft_rules fresh now db ≡ ok db')
      × (published db' ≡ ok (draft db))
      × (db'.active_version ≡ suc (largest_version db.revisions))
      × (draft db' ≡ draft db)
      × (dirty db' ≡ ok false)
      × (revision v db' ≡ revision v db)
unfolding draft
publish_publishes id note actor fresh now v db h old =
    let (db', e, facts) = publish-IsPublished id note actor draft_rules fresh now db h in
    let same : draft db' ≡ draft db = ap in_order facts.drafts in
    let above : ltb 0 db'.active_version ≡ true = rw (facts.version) (ground arith) in
    (
      db',
      e,
      facts.rules,
      facts.version,
      same,
      clean db' (draft db) facts.rules above same,
      facts.earlier v old,
    )

-- Rolling back to a revision that has rules succeeds: it is published again as a new version, the
-- devices are given exactly its rules, the draft says the same rules in the same order, and every
-- earlier version, the one that was rolled back from included, still has its revision.
pub rollback_restores :
    (id : Key) (note : String) (target : ℕ) (actor : Ident) (fresh : ℕ → Key) (now : Time) (v : ℕ)
    (db : Db) (r : Revision)
    → revision target db ≡ ok r
    → 0 < length r.rules
    → v ≤ largest_version db.revisions
    → (db' : Db) × (rollback id note target actor fresh now db ≡ ok db')
      × (published db' ≡ ok r.rules)
      × (db'.active_version ≡ suc (largest_version db.revisions))
      × (map content (draft db') ≡ map content r.rules)
      × (revision v db' ≡ revision v db)
unfolding rollback draft
rollback_restores id note target actor fresh now v db r e h old =
    let kind = rolled_back r.rules db.active_version target in
    let (db', done, facts) = publish-IsPublished id note actor kind fresh now db h in
    let order : draft db' ≡ written 0 (λ i _. fresh i) now r.rules =
      ap in_order facts.drafts ∙ in_order-written 0 (λ i _. fresh i) now r.rules in
    (
      db',
      rw (e, rollback) done,
      facts.rules,
      facts.version,
      ap (map content) order ∙ content-written 0 (λ i _. fresh i) now r.rules,
      facts.earlier v old,
    )
