-- ===== src/Tests/Http.antt =====
-- Requests with an API token against the table of endpoints.
use matreshka_panel.Base.{◌+◌, ◌≡◌, refl, Bool, true, false, String, none, some, [], ◌∷◌, get}
use matreshka_panel.Base.Text.{codes, starts_with, ends_with, listed}
use matreshka_panel.Journal.Record.{empty}
use matreshka_panel.Auth.Tables.{Db, Token}
use matreshka_panel.Auth.Sessions.{by_token, find_token, with_token, authenticate}
use matreshka_panel.Http.Endpoints.{Endpoint, for_signed_in, endpoints}
use matreshka_panel.Http.Guard.{under, is_get, required_scope, authorized, guard, fetch}
use matreshka_panel.Http.Confinement.{token_confined}
use matreshka_panel.Http.Reading.{literal, read_token_reads}

-- A matcher of patterns by their text before the first parameter
abbrev matches : String → String → Bool
matches p u = starts_with (literal (codes p)) (codes u)

abbrev script : Token
script = record {
  id = 50;
  name = "script";
  token_hash = 906;
  scopes = "people:read" ∷ [];
  expires_at = none;
  last_used_at = none;
  revoked_at = none;
}

abbrev tables : Db
tables = record {
  owners = [];
  passkeys = [];
  sessions = [];
  tokens = script ∷ [];
  challenges = [];
  bootstrap = none;
  journal = empty;
}

abbrev people_list : Endpoint
people_list = for_signed_in "GET" "/api/v1/people"

token_confined_example :
    (listed ("people:read" ∷ []) (required_scope "GET" "/api/v1/people") ≡ true)
    × (some (by_token 50 ("people:read" ∷ [])) ≡ some (by_token 50 ("people:read" ∷ [])))
    × (people_list.owner_only ≡ false)
unfolding authenticate with_token find_token fetch guard authorized required_scope under starts_with
    get
token_confined_example =
    token_confined matches (λ t. 900 + t) endpoints "GET" "/api/v1/people" none (some (some 6)) 1000
      tables 50 ("people:read" ∷ []) people_list (some (by_token 50 ("people:read" ∷ []))) refl refl
      refl refl

read_token_reads_example : is_get "GET" ≡ true
unfolding authenticate with_token find_token fetch guard authorized required_scope under starts_with
    ends_with get
read_token_reads_example =
    read_token_reads matches (λ t. 900 + t) "GET" "/api/v1/people" none (some (some 6)) 1000 tables
      50 ("people:read" ∷ []) people_list (some (by_token 50 ("people:read" ∷ []))) (λ p u h. h)
      refl (refl, tt) refl refl refl
