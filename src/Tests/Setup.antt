-- ===== src/Tests/Setup.antt =====
-- The setup of a domain.
use matreshka_panel.Base.{◌≡◌, ◌⊎◌, refl, true, some, ℕ, String, Option, List, [], ◌∷◌}
use matreshka_panel.Registry.{err}
use matreshka_panel.Setup.Finalize.{Settings, Call, finalize}
use matreshka_panel.Setup.Checks.{Permitted, agent_asked_once}
use matreshka_panel.Tests.Onboarding.{nobody, hash}

abbrev settings : Settings
settings = record { setup = true; public_ip = "203.0.113.7"; admin_path = "/admin" }

abbrev resolver : String → Option (List String)
resolver domain = some ("203.0.113.7" ∷ [])

abbrev asked : Call
asked = record { domain = "home.example.org"; public_ip = "203.0.113.7" }

agent_asked_once_example :
    let run = finalize hash settings resolver (λ c. true) 5 "home.example.org" 1000 nobody in
    ((run.0 ≡ []) × ((status : ℕ) × (run.1 ≡ err status)))
    ⊎ ((run.0 ≡ asked ∷ []) × Permitted hash settings resolver 5 "home.example.org" 1000 nobody)
agent_asked_once_example =
    let run = finalize hash settings resolver (λ c. true) 5 "home.example.org" 1000 nobody in
    agent_asked_once hash settings resolver (λ c. true) 5 "home.example.org" 1000 nobody run.0 run.1
      refl

setup_runs :
    (finalize hash settings resolver (λ c. true) 5 "home.example.org" 1000 nobody).0 ≡ asked ∷ []
unfolding finalize
setup_runs = refl
