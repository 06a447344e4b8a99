-- ===== src/Http/Endpoints.antt =====
-- The table that `registerRoutes` fills, and what of it the guard reads.
use matreshka_panel.Base.{Bool, true, false, List, [], ◌∷◌, String}

-- `is_public`: no session is asked for. `owner_only`: the handler begins with `ownerOnly`.
pub record Endpoint : Type 0 where
  pub method : String
  pub pattern : String
  pub is_public : Bool
  pub owner_only : Bool

-- A handler that anybody, that the owner or a token, and that only the owner calls
abbrev pub for_all : String → String → Endpoint
for_all method pattern = record {
  method = method;
  pattern = pattern;
  is_public = true;
  owner_only = false;
}

abbrev pub for_signed_in : String → String → Endpoint
for_signed_in method pattern = record {
  method = method;
  pattern = pattern;
  is_public = false;
  owner_only = false;
}

abbrev pub for_owner : String → String → Endpoint
for_owner method pattern = record {
  method = method;
  pattern = pattern;
  is_public = false;
  owner_only = true;
}

-- `registerRoutes`, in its order
abbrev pub endpoints : List Endpoint
endpoints =
    for_all "GET" "/healthz"
    ∷ for_all "GET" "/readyz"
    ∷ for_all "GET" "/api/v1/auth/state"
    ∷ for_all "GET" "/api/v1/setup"
    ∷ for_all "POST" "/api/v1/setup/domain"
    ∷ for_all "POST" "/api/v1/auth/register/options"
    ∷ for_all "POST" "/api/v1/auth/register/verify"
    ∷ for_all "POST" "/api/v1/auth/login/options"
    ∷ for_all "POST" "/api/v1/auth/login/verify"
    ∷ for_signed_in "POST" "/api/v1/auth/logout"
    ∷ for_owner "GET" "/api/v1/security"
    ∷ for_owner "DELETE" "/api/v1/passkeys/:id"
    ∷ for_owner "DELETE" "/api/v1/sessions"
    ∷ for_owner "DELETE" "/api/v1/sessions/:id"
    ∷ for_signed_in "GET" "/api/v1/me"
    ∷ for_signed_in "PATCH" "/api/v1/me"
    ∷ for_signed_in "GET" "/api/v1/status"
    ∷ for_owner "GET" "/api/v1/dashboard"
    ∷ for_signed_in "GET" "/api/v1/people"
    ∷ for_signed_in "POST" "/api/v1/people"
    ∷ for_signed_in "GET" "/api/v1/people/:id"
    ∷ for_signed_in "PATCH" "/api/v1/people/:id"
    ∷ for_signed_in "DELETE" "/api/v1/people/:id"
    ∷ for_signed_in "POST" "/api/v1/people/:id/devices"
    ∷ for_signed_in "PATCH" "/api/v1/devices/:id"
    ∷ for_signed_in "POST" "/api/v1/devices/:id/invitations"
    ∷ for_signed_in "POST" "/api/v1/devices/:id/revoke"
    ∷ for_all "GET" "/api/v1/invitations/:token"
    ∷ for_all "POST" "/api/v1/invitations/:token/redeem"
    ∷ for_all "GET" "/api/v1/redemptions/:token"
    ∷ for_signed_in "GET" "/api/v1/routes"
    ∷ for_signed_in "GET" "/api/v1/routes/revisions"
    ∷ for_signed_in "GET" "/api/v1/routes/preview"
    ∷ for_signed_in "POST" "/api/v1/routes"
    ∷ for_signed_in "PATCH" "/api/v1/routes/:id"
    ∷ for_signed_in "DELETE" "/api/v1/routes/:id"
    ∷ for_signed_in "POST" "/api/v1/routes/reorder"
    ∷ for_signed_in "POST" "/api/v1/routes/publish"
    ∷ for_signed_in "POST" "/api/v1/routes/discard"
    ∷ for_signed_in "POST" "/api/v1/routes/rollback/:version"
    ∷ for_signed_in "GET" "/api/v1/traffic"
    ∷ for_signed_in "GET" "/api/v1/system"
    ∷ for_signed_in "GET" "/api/v1/system/events"
    ∷ for_owner "POST" "/api/v1/engines/reorder"
    ∷ for_signed_in "GET" "/api/v1/settings"
    ∷ for_signed_in "PATCH" "/api/v1/settings"
    ∷ for_signed_in "GET" "/api/v1/engines/configurations"
    ∷ for_signed_in "POST" "/api/v1/engines/configurations/preview"
    ∷ for_signed_in "POST" "/api/v1/engines/configurations/apply"
    ∷ for_signed_in "POST" "/api/v1/engines/configurations/:engine/rollback/:version"
    ∷ for_signed_in "GET" "/api/v1/operations"
    ∷ for_signed_in "GET" "/api/v1/operations/events"
    ∷ for_signed_in "GET" "/api/v1/backups/:name"
    ∷ for_signed_in "POST" "/api/v1/operations/preview"
    ∷ for_signed_in "POST" "/api/v1/operations/confirm"
    ∷ for_signed_in "POST" "/api/v1/tokens"
    ∷ for_signed_in "GET" "/api/v1/tokens"
    ∷ for_signed_in "DELETE" "/api/v1/tokens/:id"
    ∷ for_all "POST" "/internal/hysteria/auth"
    ∷ for_all "GET" "/subscriptions/:client/:token"
    ∷ for_all "GET" "/routes/:token.json"
    ∷ []
