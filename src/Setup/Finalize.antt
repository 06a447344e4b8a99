-- ===== src/Setup/Finalize.antt =====
-- `SetupService`: `state` and `finalize`. The length of a token is checked by the zod schema.
use matreshka_panel.Base.{
  Bool, ◌&&◌, Option, none, some, List, [], ◌∷◌, Time, Key, String, if◌then◌else◌, leb,
}
use matreshka_panel.Base.Text.{codes, utf16_length, listed}
use matreshka_panel.Registry.{Result, ok, err, ◌>>=◌, ◌>>◌, require}
use matreshka_panel.Auth.Tables.{Db}
use matreshka_panel.Auth.Registration.{verify_bootstrap}
use matreshka_panel.Setup.Domain.{valid_ipv4, valid_domain}

-- `SetupConfig`
pub record Settings : Type 0 where
  pub setup : Bool
  pub public_ip : String
  pub admin_path : String

-- A message `setup.finalize` to the privileged agent
pub record Call : Type 0 where
  pub domain : String
  pub public_ip : String

-- What `finalize` returns: the texts are made of the domain, the admin path and the link's token.
pub record Onboarding : Type 0 where
  pub domain : String
  pub admin_path : String
  pub bootstrap_token : Key

-- `requireSetup`
abbrev pub require_setup : Settings → Result (Unit {0})
require_setup s = require (s.setup && valid_ipv4 (codes s.public_ip)) 409

-- `state`: the server's address, and when the link ends.
unfoldable pub setup_state :
    (Key → Key) → Settings → Option Key → Time → Db → Result (String × Time)
unfolding verify_bootstrap valid_ipv4
setup_state hash s token now db =
    require_setup s >> (verify_bootstrap hash token now db >>= λ b. ok (s.public_ip, b.expires_at))

-- `domainSchema` on a text that is trimmed and in lower case
abbrev pub is_domain : String → Bool
is_domain domain = leb (utf16_length (codes domain)) 253 && valid_domain (codes domain)

-- The addresses of the domain, as `resolver` finds them; `none` where it throws.
abbrev pub points_here : Settings → Option (List String) → Result (Unit {0})
points_here s none = err 409
points_here s (some addresses) = require (listed addresses s.public_ip) 409

-- `finalize` up to the call of the agent.
unfoldable pub finalize_checks :
    (Key → Key)
    → Settings
    → (String → Option (List String))
    → Key
    → String
    → Time
    → Db
    → Result (Unit {0})
unfolding verify_bootstrap valid_ipv4 valid_domain
finalize_checks hash s resolver token domain now db =
    require_setup s
    >> (require (is_domain domain) 400
        >> (verify_bootstrap hash (some token) now db >>= λ b. points_here s (resolver domain)))

-- `finalize`: the messages to the agent, and what is returned. `runner` says whether the agent does
-- what it is asked.
unfoldable pub finalize :
    (Key → Key)
    → Settings
    → (String → Option (List String))
    → (Call → Bool)
    → Key
    → String
    → Time
    → Db
    → List Call × Result Onboarding
unfolding finalize_checks
finalize hash s resolver runner token domain now db =
    elim (finalize_checks hash s resolver token domain now db) [
      | err status ↦ ([], err status)
      | ok _ ↦
          let call : Call = record { domain = domain; public_ip = s.public_ip } in
          (
            call ∷ [],
            if runner call
                then ok
                    (record { domain = domain; admin_path = s.admin_path; bootstrap_token = token })
                else err 502,
          )
    ]
