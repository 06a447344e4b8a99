-- ===== src/Auth/Tokens.antt =====
-- `createApiToken` and `revokeApiToken` of AuthService.
use matreshka_panel.Base.{
  Bool, true, false, not, ◌&&◌, none, some, List, [], ◌∷◌, ◌++◌, Time, Key, String, if◌then◌else◌,
  ◌==◌, leb, is_some, get, update,
}
use matreshka_panel.Base.Text.{codes, utf16_length, listed}
use matreshka_panel.Journal.Json.{object, field, string, end}
use matreshka_panel.Journal.Types.{EventType}
use matreshka_panel.Journal.Record.{Ident, uuid, blank, log_change}
use matreshka_panel.Registry.{Result, ok, ◌>>=◌, ◌>>◌, require, found}
use matreshka_panel.Auth.Tables.{Token, Db}

-- The scopes that a token may have.
abbrev pub allowed_scopes : List String
allowed_scopes =
    "status:read" ∷ "traffic:read" ∷ "people:read" ∷ "people:write" ∷ "routes:read" ∷ "routes:write"
    ∷ "operations:read" ∷ "operations:write" ∷ "settings:read" ∷ "settings:write" ∷ "engines:read"
    ∷ "engines:write" ∷ "system:read" ∷ "backups:read" ∷ []

-- `Array.from(new Set(scopes))`, with the scopes seen so far
unfoldable pub unique_scopes : List String → List String → List String
unique_scopes seen [] = []
unique_scopes seen (s ∷ ss) =
    let kept = s ∷ unique_scopes (s ∷ seen) ss in
    let dropped = unique_scopes seen ss in if listed seen s then dropped else kept

abbrev pub all_allowed : List String → Bool
all_allowed [] = true
all_allowed (s ∷ ss) = listed allowed_scopes s && all_allowed ss

abbrev pub is_empty : List String → Bool
is_empty [] = true
is_empty (s ∷ ss) = false

abbrev pub is_name : String → Bool
is_name name = leb 1 (utf16_length (codes name)) && leb (utf16_length (codes name)) 80

unfoldable pub new_token : (Key → Key) → Key → Key → String → List String → Token
new_token hash id token name scopes = record {
  id = id;
  name = name;
  token_hash = hash token;
  scopes = scopes;
  expires_at = none;
  last_used_at = none;
  revoked_at = none;
}

-- What `createApiToken` writes. Of the event's data the name is kept.
unfoldable pub with_new_token :
    (Key → Key) → Key → Key → String → List String → Ident → Time → Db → Db
unfolding new_token
with_new_token hash id token name scopes actor now db = record db {
  tokens = db.tokens ++ new_token hash id token name scopes ∷ [];
  journal =
      log_change EventType.token_created actor "tokens.create" "api_token" (some (uuid id))
        (record blank {
          actor = some actor;
          subject_type = some "api_token";
          subject_id = some (uuid id);
          payload = object (field "name" (string name) end);
        })
        now db.journal;
}

-- `createApiToken` with a trimmed name; `id` and `token` are drawn.
unfoldable pub create_api_token :
    (Key → Key) → Key → Key → String → List String → Ident → Time → Db → Result Db
unfolding unique_scopes with_new_token
create_api_token hash id token name scopes actor now db = do
  require (is_name name) 400
  require (not (is_empty (unique_scopes [] scopes)) && all_allowed (unique_scopes [] scopes)) 400
  ok (with_new_token hash id token name (unique_scopes [] scopes) actor now db)

abbrev pub is_live : Key → Token → Bool
is_live id t = t.id == id && not (is_some t.revoked_at)

-- What `revokeApiToken` writes.
unfoldable pub without_token : Token → Ident → Time → Db → Db
without_token t actor now db = record db {
  tokens = update (is_live t.id) (λ x. record x { revoked_at = some now }) db.tokens;
  journal =
      log_change EventType.token_revoked actor "tokens.revoke" "api_token" (some (uuid t.id))
        (record blank {
          actor = some actor;
          subject_type = some "api_token";
          subject_id = some (uuid t.id);
          payload = object (field "name" (string t.name) end);
        })
        now db.journal;
}

-- `revokeApiToken`
unfoldable pub revoke_api_token : Key → Ident → Time → Db → Result Db
unfolding without_token
revoke_api_token id actor now db = do
  t ← found (get (is_live id) db.tokens) 404
  ok (without_token t actor now db)
