-- ===== src/Http/Guard.antt =====
-- `authorized`, `ownerOnly` and the part of `fetch` before the handler runs.
use matreshka_panel.Base.{
  Bool, true, not, ◌&&◌, ◌||◌, Option, none, some, List, Time, Key, String, if◌then◌else◌, ℕ, get,
}
use matreshka_panel.Base.Text.{codes, starts_with, same_text, listed}
use matreshka_panel.Auth.Tables.{Db}
use matreshka_panel.Auth.Sessions.{Identity, by_token, by_session, authenticate}
use matreshka_panel.Http.Endpoints.{Endpoint}

-- `path.startsWith(prefix)`
unfoldable pub under : String → String → Bool
unfolding starts_with
under prefix path = starts_with (codes prefix) (codes path)

-- `method === "GET"`
abbrev pub is_get : String → Bool
is_get method = same_text method "GET"

-- ``read ? `${area}:read` : `${area}:write` ``
abbrev pub either : Bool → String → String → String
either read r w = if read then r else w

-- `required` of `authorized`
unfoldable pub required_scope : String → String → String
required_scope method path =
    let read = is_get method in
    if same_text path "/api/v1/status"
    then "status:read"
    else if same_text path "/api/v1/dashboard"
    then "owner:session"
    else if under "/api/v1/me" path
    then either read "settings:read" "settings:write"
    else if under "/api/v1/people" path || under "/api/v1/devices" path
    then either read "people:read" "people:write"
    else if under "/api/v1/routes" path
    then either read "routes:read" "routes:write"
    else if under "/api/v1/traffic" path
    then "traffic:read"
    else if under "/api/v1/backups" path
    then "backups:read"
    else if under "/api/v1/operations" path
    then either read "operations:read" "operations:write"
    else if under "/api/v1/settings" path
    then either read "settings:read" "settings:write"
    else if under "/api/v1/engines" path
    then either read "engines:read" "engines:write"
    else if under "/api/v1/tokens" path
    then "tokens:write"
    else if under "/api/v1/system" path
    then "system:read"
    else "api:read"

-- `authorized`
unfoldable pub authorized : String → String → List String → Bool
unfolding required_scope
authorized method path scopes =
    if listed scopes "*"
    then true
    else listed scopes (required_scope method path)
      || is_get method && listed scopes "read"
      || not (is_get method) && listed scopes "write"

-- What becomes of a request: a static file, an error status, or a handler, with who asks.
pub data Outcome : Type 0 where
  to_static : Outcome
  refused : ℕ → Outcome
  handled : Endpoint → Option Identity → Outcome

-- `ownerOnly` at the start of a handler
abbrev pub owner_only_check : Endpoint → Option Identity → Outcome
owner_only_check e none = if e.owner_only then refused 403 else handled e none
owner_only_check e (some (by_token id scopes)) =
    if e.owner_only then refused 403 else handled e (some (by_token id scopes))
owner_only_check e (some (by_session none)) = if e.owner_only then refused 403 else handled e none
owner_only_check e (some (by_session (some o))) = handled e (some (by_session (some o)))

-- The two checks of `fetch`. A session without an owner is nobody.
unfoldable pub guard : String → String → Endpoint → Option Identity → Outcome
unfolding authorized
guard method path e none = if e.is_public then owner_only_check e none else refused 401
guard method path e (some (by_session none)) =
    if e.is_public then owner_only_check e none else refused 401
guard method path e (some (by_session (some o))) = owner_only_check e (some (by_session (some o)))
guard method path e (some (by_token id scopes)) =
    if not e.is_public && not (authorized method path scopes)
    then refused 403
    else owner_only_check e (some (by_token id scopes))

abbrev pub serves : (String → String → Bool) → String → String → Endpoint → Bool
serves matches method path e = same_text e.method method && matches e.pattern path

-- `fetch` up to the handler. `matches` is `URLPattern.test`; `session` and `bearer` are the request's
-- cookie and authorization header.
unfoldable pub fetch :
    (String → String → Bool)
    → (Key → Key)
    → List Endpoint
    → String
    → String
    → Option Key
    → Option (Option Key)
    → Time
    → Db
    → Db × Outcome
unfolding guard
fetch matches hash registry method path session bearer now db =
    elim (get (serves matches method path) registry) [
      | none ↦ (db, to_static)
      | some e ↦
          let (db', who) = authenticate hash session bearer now db in (db', guard method path e who)
    ]
