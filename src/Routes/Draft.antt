-- ===== src/Routes/Draft.antt =====
-- The tables of RouteService (`route_drafts`, `route_revisions`), the draft in order, its helpers.
use matreshka_panel.Base.{
  ℕ, suc, ◌+◌, Bool, true, false, not, ◌&&◌, ◌||◌, List, [], ◌∷◌, Time, Key, String, if◌then◌else◌,
  leb, ◌==◌, update, max,
}
use matreshka_panel.Base.Text.{codes, same_text, is_digit}
use matreshka_panel.Journal.Record.{Journal, Ident}

pub data Action : Type 0 where
  direct proxy block : Action

pub data Matcher : Type 0 where
  domain suffix ip_cidr geosite geoip : Matcher

pub data Source : Type 0 where
  system preset user : Source

-- `RouteRule`
pub record Rule : Type 0 where
  pub id : Key
  pub position : ℕ
  pub action : Action
  pub matcher : Matcher
  pub value : String
  pub source : Source
  pub locked : Bool
  pub enabled : Bool
  pub created_at : Time
  pub updated_at : Time

pub record Revision : Type 0 where
  pub id : Key
  pub version : ℕ
  pub rules : List Rule
  pub note : String
  pub created_at : Time
  pub actor : Ident

-- The two tables, the setting `active_route_version` and the journal.
pub record Db : Type 0 where
  pub drafts : List Rule
  pub revisions : List Revision
  pub active_version : ℕ
  pub journal : Journal

unfoldable pub insert : Rule → List Rule → List Rule
insert r [] = r ∷ []
insert r (x ∷ xs) = if leb r.position x.position then r ∷ x ∷ xs else x ∷ insert r xs

unfoldable pub in_order : List Rule → List Rule
unfolding insert
in_order [] = []
in_order (r ∷ rs) = insert r (in_order rs)

-- `draft`: `ORDER BY position`
unfoldable pub draft : Db → List Rule
unfolding in_order
draft db = in_order db.drafts

abbrev pub local_networks : List String
local_networks = "10.0.0.0/8" ∷ "172.16.0.0/12" ∷ "192.168.0.0/16" ∷ []

abbrev pub has_value : List String → String → Bool
has_value [] v = false
has_value (n ∷ ns) v = same_text n v || has_value ns v

abbrev pub is_system : Source → Bool
is_system system = true
is_system _ = false

abbrev pub is_cidr : Matcher → Bool
is_cidr ip_cidr = true
is_cidr _ = false

abbrev pub is_suffix : Matcher → Bool
is_suffix suffix = true
is_suffix _ = false

-- `terminal`
unfoldable pub terminal : Matcher → String → Bool
terminal m v = is_suffix m && same_text v "*"

-- `local`
unfoldable pub local : Rule → Bool
local r = is_system r.source && is_cidr r.matcher && has_value local_networks r.value

abbrev pub is_hex : ℕ → Bool
is_hex c = is_digit c || (leb b'a' c && leb c b'f') || (leb b'A' c && leb c b'F')

unfoldable pub short_digits : ℕ → List ℕ → Bool
unfolding is_digit
short_digits n [] = leb 1 n && leb n 3
short_digits n (c ∷ cs) = is_digit c && short_digits (suc n) cs

-- `/^[0-9a-f:.]+\/\d{1,3}$/i`, `started` once a character of the address was read
unfoldable pub cidr_text : Bool → List ℕ → Bool
unfolding short_digits is_digit
cidr_text started [] = false
cidr_text started (c ∷ cs) =
    let rest = cidr_text true cs in
    if c == b'/' then started && short_digits 0 cs else (is_hex c || c == b':' || c == b'.') && rest

-- `[\p{L}0-9-]+(\.[\p{L}0-9-]+)+$`: `dotted` after a dot, `filled` in a label with a character.
unfoldable pub labels : (ℕ → Bool) → Bool → Bool → List ℕ → Bool
unfolding is_digit
labels letter dotted filled [] = dotted && filled
labels letter dotted filled (c ∷ cs) =
    let dot = c == b'.' in
    let rest = labels letter (dotted || dot) (not dot) cs in
    (if dot then filled else letter c || is_digit c || c == b'-') && rest

-- `/^(\.)?[\p{L}0-9-]+(\.[\p{L}0-9-]+)+$/u`
unfoldable pub domain_text : (ℕ → Bool) → List ℕ → Bool
unfolding labels
domain_text letter [] = false
domain_text letter (c ∷ cs) =
    if c == b'.' then labels letter false false cs else labels letter false false (c ∷ cs)

-- `validateValue` for a trimmed value: whether it does not throw. `letter` is the class `\p{L}`.
unfoldable pub valid_value : (ℕ → Bool) → Matcher → String → Bool
unfolding cidr_text domain_text
valid_value letter ip_cidr v = cidr_text false (codes v)
valid_value letter domain v = same_text v "*" || domain_text letter (codes v)
valid_value letter suffix v = same_text v "*" || domain_text letter (codes v)
valid_value letter geosite v = true
valid_value letter geoip v = true

-- `UPDATE route_drafts SET position = position + 10000`
unfoldable pub lift : List Rule → List Rule
lift rs = update (λ r. true) (λ r. record r { position = r.position + 10000 }) rs

-- `ids.forEach((id, position) => update.run(position, now(), id))`, from a position on
unfoldable pub place : ℕ → List Key → Time → List Rule → List Rule
place i [] now rs = rs
place i (id ∷ ids) now rs =
    place (suc i) ids now
      (update (λ r. r.id == id) (λ r. record r { position = i; updated_at = now }) rs)

unfoldable pub largest_version : List Revision → ℕ
largest_version [] = 0
largest_version (r ∷ rs) = max r.version (largest_version rs)
