-- ===== src/Tests/Auth.antt =====
-- The sign-in of the owner on concrete tables.
use matreshka_panel.Base.{
  ℕ, ◌+◌, ◌≡◌, ◌≤◌, refl, none, some, [], ◌∷◌, get, count, delete, arith, length,
}
use matreshka_panel.Journal.Record.{empty, word}
use matreshka_panel.Registry.{Result, ok, err}
use matreshka_panel.Auth.Tables.{
  Verification, verified, Owner, Passkey, Session, Kind, Challenge, for_login, Db, owner,
}
use matreshka_panel.Auth.Sessions.{authenticate, end_other_sessions}
use matreshka_panel.Auth.Challenges.{
  challenge_limit, of_kind, store_challenge, prune_challenges, find_challenge,
  finish_authentication, of_owner, revoke_passkey,
}
use matreshka_panel.Auth.Access.{
  challenges_bounded, challenge_used_once, revoke_keeps_one, ended_sessions_refused,
}

abbrev fedor : Owner
fedor = record { id = 1; name = "Fedor"; timezone = "UTC" }

abbrev key_of : ℕ → Passkey
key_of id = record { id = id; owner_id = 1; counter = 0; last_used_at = none }

abbrev session_of : ℕ → Session
session_of token = record {
  id = token;
  owner_id = 1;
  token_hash = 900 + token;
  expires_at = 100000;
  created_at = 0;
  last_seen_at = 0;
}

abbrev asked : Challenge
asked = record {
  id = 70;
  kind = Kind.authentication;
  challenge = 71;
  context = for_login 1;
  expires_at = 50000;
  created_at = 0;
}

abbrev signed_up : Db
signed_up = record {
  owners = fedor ∷ [];
  passkeys = key_of 10 ∷ key_of 11 ∷ [];
  sessions = session_of 20 ∷ session_of 21 ∷ [];
  tokens = [];
  challenges = asked ∷ [];
  bootstrap = none;
  journal = empty;
}

challenges_bounded_example :
    count
      (of_kind Kind.authentication)
      (store_challenge 72 Kind.authentication 73 (for_login 1) 1000 signed_up).0.challenges
    ≤ challenge_limit
unfolding count
challenges_bounded_example =
    challenges_bounded 72 Kind.authentication 73 (for_login 1) 1000 Kind.authentication signed_up
      (omega arith)

abbrev accepts : ℕ → Passkey → Verification ℕ
accepts text p = verified 1

challenge_used_once_example :
    (finish_authentication
      (λ t. 900 + t)
      accepts
      70
      11
      31
      32
      2000
      (finish_authentication (λ t. 900 + t) accepts 70 10 30 22 1000 signed_up).0).1
    ≡ err 400
unfolding finish_authentication prune_challenges find_challenge get delete
challenge_used_once_example =
    challenge_used_once (λ t. 900 + t) accepts accepts 70 10 30 22 22 11 31 32 1000 2000 signed_up
      (finish_authentication (λ t. 900 + t) accepts 70 10 30 22 1000 signed_up).0 refl

abbrev tables_of : Result Db → Db
tables_of (ok db) = db
tables_of (err status) = signed_up

abbrev one_revoked : Db
one_revoked = tables_of (revoke_passkey 10 (word "owner") 1000 signed_up)

revoke_keeps_one_example : 1 ≤ count (of_owner 1) one_revoked.passkeys
unfolding owner get count revoke_passkey
revoke_keeps_one_example =
    revoke_keeps_one 10 (word "owner") 1000 fedor signed_up one_revoked refl (omega arith) refl

ended_sessions_refused_example :
    (db' : Db) × (n : ℕ) × (end_other_sessions
        (λ t. 900 + t)
        (some 20)
        (word "owner")
        1000
        signed_up
      ≡ ok (db', n))
    × (length db'.sessions + n ≡ length signed_up.sessions)
    × ((authenticate (λ t. 900 + t) (some 21) none 2000 db').1 ≡ none)
unfolding owner get
ended_sessions_refused_example =
    ended_sessions_refused (λ t. 900 + t) 20 21 (word "owner") 1000 2000 fedor signed_up refl
      (refl, (refl, tt)) refl
