-- ===== src/Login/Tests.antt =====
-- Runs of the login on a table in memory, and an instance of each theorem.
use access_service.Prelude.{
  ℕ, ◌<◌, String, true, false, ◌≡◌, refl, some, [], ◌∷◌, str_eq, ◌==◌, ok, err, Contains,
}
use access_service.Database.InMemory.{in_memory, by_copy}
use access_service.Login.State.{
  active, locked, invalid_credentials, User, AuthenticationSettings, LoginState, LoginPlatform,
  mfa_challenge_locked, nothing_thrown,
}
use access_service.Login.Lockout.{LockTx}
use access_service.Login.Session.{session_of}
use access_service.Login.Challenge.{without, evaluate_mfa, verify_login_challenge}
use access_service.Login.Password.{
  authenticated, Attempt, verify_user_password, process_login, login_with_password,
}
use access_service.Login.Limits.{attempts, wrong_passwords_lock, issued, one_wrong_code_locks}
use access_service.Login.Admission.{IsAdmitted, process_login-IsAdmitted}

abbrev settings : AuthenticationSettings
settings = record {
  restricted_mfa_enabled = false;
  account_lockout_enabled = true;
  max_failed_retries = 3;
  ip_restriction_enabled = true;
  allowed_ip_cidrs = "10.0.0.0/8" ∷ [];
}

abbrev strict : AuthenticationSettings
strict = record settings { restricted_mfa_enabled = true }

abbrev platform : LoginPlatform
platform = record {
  user_table = in_memory (λ u. u.id) (λ now u. u);
  has_client = true;
  redis_fails = λ s. false;
  settings_of = λ t. some settings;
  tenant_exists = λ t. t == 1;
  in_cidr = λ ip cidr. str_eq ip "10.0.0.1";
  password_hash_of = λ u. some "hash";
  verify_password = λ hash password. str_eq password "secret";
  active_mfa_methods = λ u. 0;
  random_id = λ s. 55;
  signing_fails = false;
  normalize = λ s. s;
  now = 1000;
}

abbrev tx : LockTx
tx = by_copy

abbrev ann : User
ann = record {
  id = 7;
  tenant_code = 1;
  normalized_email = "ann@acme";
  status = active;
  security_version = 1;
  mfa_enrollment_required = false;
  mfa_re_enrollment_required = false;
}

abbrev start : LoginState
start = record {
  users = ann ∷ [];
  failures = λ u. 0;
  ip_failures = λ t u. 0;
  challenges = [];
  sessions = [];
  user_sessions = λ t u. [];
  events = [];
}

abbrev attempt : Attempt
attempt = record {
  email = "ann@acme";
  password = some "secret";
  remember_me = true;
  source_ip = "10.0.0.1";
}

abbrev after : LoginState
after = (process_login platform tx 1 attempt start).1

let_in : process_login platform tx 1 attempt start ≡ (ok (authenticated 55), after)
unfolding process_login
let_in = refl

process_login-IsAdmitted_example :
    (u : User) × (IsAdmitted platform tx 1 attempt start u
      × Contains (session_of u 55 true) after.sessions)
process_login-IsAdmitted_example =
    process_login-IsAdmitted platform tx 1 attempt start after 55 let_in

abbrev guesses : ℕ → String
guesses j = "guess"

abbrev guessed : ℕ → LoginState
guessed j = attempts platform tx (λ s. refl) 1 ann settings refl refl guesses (λ i. refl) j start

wrong_passwords_lock_example :
    ((j : ℕ) → j < 3 → ((guessed j).users ≡ start.users) × ((guessed j).failures 7 ≡ j))
    × ((verify_user_password platform tx 1 ann "guess" (guessed 2)).0 ≡ err invalid_credentials)
    × ((guessed 3).users ≡ record ann { status = locked; security_version = 2 } ∷ [])
    × ((guessed 3).failures 7 ≡ 0)
wrong_passwords_lock_example =
    wrong_passwords_lock platform tx (λ s. refl) 1 ann settings refl refl guesses (λ i. refl) start
      2 refl refl refl refl

one_wrong_code_locks_example :
    (evaluate_mfa platform ann (some strict) false start
      ≡ (ok (some 55), issued platform (λ s. refl) ann (some strict) false start))
    × (verify_login_challenge platform 1 7 55 "000000"
          (issued platform (λ s. refl) ann (some strict) false start)
        ≡ (
          err mfa_challenge_locked,
          without 1 7 55 (issued platform (λ s. refl) ann (some strict) false start),
        ))
one_wrong_code_locks_example =
    one_wrong_code_locks platform (λ s. refl) ann (some strict) false start "000000" refl refl refl

-- An address without a user is answered with no error at all.
unknown_address :
    (login_with_password platform tx (record attempt { email = "eve@acme" }) start).0
    ≡ err nothing_thrown
unfolding login_with_password
unknown_address = refl
