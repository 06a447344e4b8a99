-- ===== src/Routes/Edit.antt =====
-- `add`, `update`, `updateLocal`, `remove` and `reorder` of RouteService, on the parsed input.
use matreshka_panel.Base.Text.{same_text}
use matreshka_panel.Base.{
  ℕ, suc, ◌+◌, Bool, true, false, not, ◌&&◌, ◌||◌, Option, none, some, List, [], ◌∷◌, ◌++◌, map,
  Time, Key, String, if◌then◌else◌, ◌==◌, or_else, is_some, get, select, update, delete, contains,
  length, last?,
}
use matreshka_panel.Journal.Record.{Ident, uuid, word, audit}
use matreshka_panel.Registry.{Result, ok, ◌>>=◌, ◌>>◌, require, found}
use matreshka_panel.Routes.Draft.{
  Action, Matcher, Rule, Db, user, draft, local, terminal, valid_value, local_networks, lift, place,
}

-- `this.db.audit(...)`
unfoldable pub noted : Ident → String → String → Option Ident → Time → Db → Db
noted actor action resource id now db =
    let (_, journal) = audit actor action resource id now db.journal in
    record db { journal = journal }

abbrev pub ids_of : List Rule → List Key
ids_of rs = map (λ r. r.id) rs

-- `routeInput`
pub record RuleInput : Type 0 where
  pub action : Action
  pub matcher : Matcher
  pub value : String
  pub enabled : Bool

-- `add`
unfoldable pub add : (ℕ → Bool) → Key → RuleInput → Ident → Time → Db → Result Db
unfolding draft local terminal valid_value lift place noted
add letter id input actor now db = do
  require (valid_value letter input.matcher input.value) 400
  require (not (terminal input.matcher input.value)) 409
  let current = draft db
  let locals = select local current
  let others = select (λ r. not (local r)) current
  let rule : Rule = record {
    id = id;
    position = length current + 20000;
    action = input.action;
    matcher = input.matcher;
    value = input.value;
    source = user;
    locked = false;
    enabled = input.enabled;
    created_at = now;
    updated_at = now;
  }
  ok (
      noted actor "routes.create" "route" (some (uuid id)) now (record db {
        drafts = place 0 (ids_of locals ++ id ∷ ids_of others) now (lift db.drafts ++ rule ∷ []);
      }))

-- `routeUpdate`
pub record RuleUpdate : Type 0 where
  pub action : Option Action
  pub matcher : Option Matcher
  pub value : Option String
  pub enabled : Option Bool

-- `updateLocal`: the rules of the local networks change their action together.
unfoldable pub update_local : Action → Ident → Time → Db → Db
unfolding draft local noted
update_local action actor now db =
    let before = ids_of (select local (draft db)) in
    noted actor "routes.update" "route_group" (some (word "local-network")) now (record db {
      drafts =
          update (λ r. contains before r.id) (λ r. record r { action = action; updated_at = now })
            db.drafts;
    })

-- `update` for a rule that is not of the local networks, or keeps its action.
unfoldable pub update_rule : (ℕ → Bool) → Rule → RuleUpdate → Ident → Time → Db → Result Db
unfolding terminal valid_value noted
update_rule letter before input actor now db = do
  let matcher = or_else input.matcher before.matcher
  let value = or_else input.value before.value
  require (valid_value letter matcher value) 400
  require (terminal before.matcher before.value || not (terminal matcher value)) 409
  ok (
      noted actor "routes.update" "route" (some (uuid before.id)) now (record db {
        drafts =
            update (λ r. r.id == before.id)
              (λ r. record r {
                action = or_else input.action before.action;
                matcher = matcher;
                value = value;
                enabled = or_else input.enabled before.enabled;
                updated_at = now;
              })
              db.drafts;
      }))

abbrev pub is_structural : RuleUpdate → Bool
is_structural input = is_some input.matcher || is_some input.value || is_some input.enabled

-- `update`
unfoldable pub update_route : (ℕ → Bool) → Key → RuleUpdate → Ident → Time → Db → Result Db
unfolding update_rule update_local local
update_route letter id input actor now db = do
  before ← found (get (λ r. r.id == id) db.drafts) 404
  require (not (before.locked && is_structural input)) 409
  elim input.action [
    | none ↦ update_rule letter before input actor now db
    | some action ↦
        if local before
        then ok (update_local action actor now db)
        else update_rule letter before input actor now db
  ]

unfoldable pub reindexed : ℕ → List Key → List Rule → List Rule
reindexed i [] rs = rs
reindexed i (id ∷ ids) rs =
    reindexed (suc i) ids (update (λ r. r.id == id) (λ r. record r { position = i }) rs)

-- `reindex`
unfoldable pub reindex : Db → Db
unfolding draft lift reindexed
reindex db = record db { drafts = reindexed 0 (ids_of (draft db)) (lift db.drafts) }

-- `remove`
unfoldable pub remove : Key → Ident → Time → Db → Result Db
unfolding reindex noted
remove id actor now db = do
  before ← found (get (λ r. r.id == id) db.drafts) 404
  require (not before.locked) 409
  ok (
      noted actor "routes.delete" "route" (some (uuid id)) now
        (reindex (record db { drafts = delete (λ r. r.id == id) db.drafts })))

abbrev pub all_known : List Key → List Key → Bool
all_known known [] = true
all_known known (id ∷ ids) = contains known id && all_known known ids

abbrev pub begins_with : List Key → List Key → Bool
begins_with [] ids = true
begins_with (x ∷ xs) [] = false
begins_with (x ∷ xs) (id ∷ ids) = x == id && begins_with xs ids

-- The local rules in the order of `localNetworks`.
unfoldable pub locals_in_order : List String → List Rule → List Key
unfolding local
locals_in_order [] current = []
locals_in_order (v ∷ vs) current =
    let rest = locals_in_order vs current in
    elim (get (λ r. local r && same_text r.value v) current) [ none ↦ rest | some r ↦ r.id ∷ rest ]

abbrev pub ends_at : Option Rule → List Key → Bool
ends_at none ids = true
ends_at (some r) ids = elim (last? ids) as (λ _. Bool) [ none ↦ false | some id ↦ id == r.id ]

-- `reorder`
unfoldable pub reorder : List Key → Ident → Time → Db → Result Db
unfolding draft terminal locals_in_order lift place noted
reorder ids actor now db = do
  let current = draft db
  require (length ids == length current && all_known (ids_of current) ids) 400
  require (ends_at (get (λ r. terminal r.matcher r.value) current) ids) 409
  require (begins_with (locals_in_order local_networks current) ids) 409
  ok (
      noted actor "routes.reorder" "routes" none now
        (record db { drafts = place 0 ids now (lift db.drafts) }))
