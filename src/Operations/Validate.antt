-- ===== src/Operations/Validate.antt =====
-- `validate` of OperationService: what may run with which payload.
use matreshka_panel.Base.{
  ℕ, Bool, true, false, not, ◌&&◌, ◌||◌, Option, none, some, List, [], ◌∷◌, ◌++◌, String,
  if◌then◌else◌, leb, ◌==◌, get, length,
}
use matreshka_panel.Base.Text.{
  codes, same_text, text_eq, is_digit, is_upper, is_lower, listed, all_of, utf16_length,
}
use matreshka_panel.Registry.{
  Registry, revoked, device_status_eq, Engine, hysteria, xray, engine_eq, Result, ok, ◌>>=◌, ◌>>◌,
  require, found,
}
use matreshka_panel.People.Directory.{find_device}
use matreshka_panel.Operations.Actions.{
  Action, revoke_of_device, service_restart, service_start, service_stop, engine_update,
  nginx_reload, update_apply, backup_export, Payload, Passphrase, no_passphrase, passphrase,
  not_a_text,
}

-- A row of `engine_versions`
pub record Version : Type 0 where
  pub engine : Engine
  pub installed : Option String
  pub desired : String
  pub checksum : String

abbrev pub engine_named : String → Option Engine
engine_named s =
    if same_text s "hysteria" then some hysteria else if same_text s "xray" then some xray else none

unfoldable pub is_alnum : ℕ → Bool
unfolding is_digit is_upper is_lower
is_alnum c = is_digit c || is_upper c || is_lower c

-- `/^[0-9][0-9A-Za-z.-]{0,39}$/`
unfoldable pub version_text : List ℕ → Bool
unfolding is_digit is_alnum
version_text [] = false
version_text (c ∷ cs) =
    is_digit c && leb (length cs) 39 && all_of (λ x. is_alnum x || x == b'.' || x == b'-') cs

-- `/[0-9a-f]/`
unfoldable pub is_low_hex : ℕ → Bool
unfolding is_digit
is_low_hex c = is_digit c || (leb b'a' c && leb c b'f')

-- `/^[0-9a-f]{64}$/`
unfoldable pub checksum_text : List ℕ → Bool
unfolding is_low_hex
checksum_text cs = length cs == 64 && all_of is_low_hex cs

-- What follows a prefix of a text
unfoldable pub after : List ℕ → List ℕ → Option (List ℕ)
after [] text = some text
after (p ∷ ps) [] = none
after (p ∷ ps) (c ∷ cs) = if p == c then after ps cs else none

-- `[class]+suffix$` for a suffix: some characters of the class, then exactly the suffix. As in a
-- regular expression, the class may read characters of the suffix too.
unfoldable pub run_then : (ℕ → Bool) → List ℕ → Bool → List ℕ → Bool
run_then p suffix started [] = started && text_eq [] suffix
run_then p suffix started (c ∷ cs) =
    let rest = run_then p suffix true cs in (started && text_eq (c ∷ cs) suffix) || (p c && rest)

-- `/^\/var\/lib\/matreshka\/incoming\/[0-9A-Za-z._-]+\.tar\.gz$/`
unfoldable pub bundle_text : List ℕ → Bool
unfolding after run_then is_alnum
bundle_text cs = elim (after (codes "/var/lib/matreshka/incoming/") cs) [
  | none ↦ false
  | some rest ↦
      run_then (λ c. is_alnum c || c == b'.' || c == b'_' || c == b'-') (codes ".tar.gz") false rest
]

-- `/^\/var\/lib\/matreshka\/backups\/matreshka-[0-9a-f-]+\.(age|tar)$/`
unfoldable pub backup_text : List ℕ → Bool
unfolding after run_then is_low_hex
backup_text cs = elim (after (codes "/var/lib/matreshka/backups/matreshka-") cs) [
  | none ↦ false
  | some rest ↦
      run_then (λ c. is_low_hex c || c == b'-') (codes ".age") false rest
      || run_then (λ c. is_low_hex c || c == b'-') (codes ".tar") false rest
]

abbrev pub valid_passphrase : Passphrase → Bool
valid_passphrase no_passphrase = true
valid_passphrase (passphrase text) =
    leb 12 (utf16_length (codes text)) && leb (utf16_length (codes text)) 200
valid_passphrase not_a_text = false

abbrev pub is_installed : Option String → String → Bool
is_installed none v = false
is_installed (some i) v = same_text i v

-- `validate` for `engine.update`
unfoldable pub validate_update : Payload → List Version → Result (Unit {0})
unfolding version_text checksum_text
validate_update p versions = do
  e ← found (engine_named p.engine) 400
  require (version_text (codes p.version)) 400
  require (checksum_text (codes p.checksum)) 400
  pinned ← found (get (λ v. engine_eq v.engine e) versions) 409
  require (same_text pinned.desired p.version && same_text pinned.checksum p.checksum) 409
  require (not (is_installed pinned.installed p.version)) 409

abbrev pub all_services : List String
all_services = "matreshka" ∷ "nginx" ∷ "hysteria-server" ∷ "xray" ∷ []

abbrev pub engine_services : List String
engine_services = "hysteria-server" ∷ "xray" ∷ []

-- `validate`
unfoldable pub validate : Action → Payload → List Version → Registry → Result (Unit {0})
unfolding validate_update version_text bundle_text backup_text find_device
validate revoke_of_device p versions reg = do
  d ← found (find_device p.device_id reg) 404
  require (not (device_status_eq d.status revoked)) 409
validate service_restart p versions reg = require (listed all_services p.service) 400
validate service_start p versions reg = require (listed engine_services p.service) 400
validate service_stop p versions reg = require (listed engine_services p.service) 400
validate engine_update p versions reg = validate_update p versions
validate nginx_reload p versions reg = ok tt
validate update_apply p versions reg = do
  require (version_text (codes p.version)) 400
  require (bundle_text (codes p.bundle)) 400
  require (text_eq (codes p.signature) (codes p.bundle ++ codes ".minisig")) 400
validate backup_export p versions reg = do
  require (valid_passphrase p.passphrase) 400
  require (backup_text (codes p.output)) 400
