-- ===== src/Tests/Onboarding.antt =====
-- The first owner and an API token on concrete tables.
use matreshka_panel.Base.Text.{same_text}
use matreshka_panel.Base.{
  List, String, ◌+◌, ◌≡◌, refl, Key, ℕ, none, some, [], ◌∷◌, get, count, arith,
}
use matreshka_panel.Journal.Record.{empty, word}
use matreshka_panel.Registry.{ok, err}
use matreshka_panel.Auth.Tables.{
  Challenge, registration, for_registration, Verification, verified, Bootstrap, Db, owner,
}
use matreshka_panel.Auth.Sessions.{by_session, by_token, authenticate}
use matreshka_panel.Auth.Registration.{Applicant, Drawn, registration_options, finish_registration}
use matreshka_panel.Auth.Tokens.{unique_scopes, create_api_token, with_new_token, revoke_api_token}
use matreshka_panel.Auth.Onboarding.{first_owner_once}
use matreshka_panel.Auth.Outsiders.{Reachable, here, next, end_registration}
use matreshka_panel.Auth.Reached.{passkey_ids}
use matreshka_panel.Auth.TokenAccess.{token_until_revoked}

abbrev one_link : Bootstrap
one_link = record { token_hash = 905; expires_at = 3600000 }

abbrev pub nobody : Db
nobody = record {
  owners = [];
  passkeys = [];
  sessions = [];
  tokens = [];
  challenges = [];
  bootstrap = some one_link;
  journal = empty;
}

abbrev applicant : Applicant
applicant = record { name = "Fedor"; timezone = "UTC"; bootstrap_token = some 5 }

abbrev first_draw : Drawn
first_draw = record { challenge_id = 70; text = 71; owner_id = 1 }

abbrev second_draw : Drawn
second_draw = record { challenge_id = 80; text = 81; owner_id = 2 }

abbrev pub hash : Key → Key
hash t = 900 + t

abbrev verify : Key → Verification (Key × ℕ)
verify text = verified (10, 0)

-- Somebody had begun a registration with the same link.
abbrev pending : Challenge
pending = record {
  id = 60;
  kind = registration;
  challenge = 61;
  context = for_registration "Guest" "UTC" 3 (some 905);
  expires_at = 600000;
  created_at = 0;
}

abbrev two_begun : Db
two_begun = record nobody { challenges = pending ∷ [] }

abbrev begun : Db
begun = (registration_options hash applicant none first_draw 1000 two_begun).0

abbrev owned : Db
owned = (finish_registration hash verify 70 30 31 2000 begun).0

-- The other tries to end it, and asks again.
abbrev tried : Db
tried = (finish_registration hash verify 60 40 41 2500 owned).0

tried-Reachable : Reachable hash 1 owned tried
tried-Reachable = next here (end_registration verify 60 40 41 2500 owned)

first_owner_once_example :
    (db' db'' : Db) × (status : ℕ) × (registration_options hash applicant none first_draw 1000
        two_begun
      ≡ (db', ok 70))
    × (finish_registration hash verify 70 30 31 2000 db' ≡ (db'', ok 31))
    × (db''.owners ≡ (record { id = 1; name = "Fedor"; timezone = "UTC" }) ∷ [])
    × ((authenticate hash (some 31) none 3000 db'').1 ≡ some (by_session (owner db'')))
    × (tried.owners ≡ db''.owners)
    × (passkey_ids tried ≡ passkey_ids db'')
    × (registration_options hash applicant (some 9) second_draw 3000 tried ≡ (tried, err 401))
    × ((finish_registration hash verify 60 40 41 3000 tried).1 ≡ err status)
unfolding owner get count
first_owner_once_example =
    first_owner_once hash verify verify applicant applicant first_draw second_draw (10, 0) 30 31 5
      1000 2000 3000 3000 one_link (some 9) 60 40 41 two_begun tried refl refl refl refl
      (omega arith) (omega arith) (omega arith) (omega arith) (omega arith) refl refl refl
      (refl, tt) refl refl tried-Reachable

abbrev with_script : Db
with_script =
    with_new_token hash 50 6 "script" ("people:read" ∷ "routes:read" ∷ []) (word "owner") 1000
      nobody

token_until_revoked_example :
    (kept : List String) × (db'' : Db) × ((authenticate hash none
        (some (some 6))
        2000
        with_script).1
      ≡ some (by_token 50 kept))
    × (count (λ t. same_text t "routes:read") kept ≡ 1)
    × (revoke_api_token 50 (word "owner") 3000 with_script ≡ ok db'')
    × ((authenticate hash none (some (some 6)) 4000 db'').1 ≡ none)
unfolding get create_api_token unique_scopes
token_until_revoked_example =
    token_until_revoked hash 50 6 "script" ("people:read" ∷ "people:read" ∷ "routes:read" ∷ [])
      (word "owner") (word "owner") 1000 2000 3000 4000 nobody with_script "routes:read" refl refl
      refl refl
