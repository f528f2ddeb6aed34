-- ===== src/Login/Password.antt =====
-- `loginWithPassword` and `processLogin` of src/modules/auth/services/auth.application.service.ts,
-- with `evaluate` of src/modules/ip-restriction/services/ip-restriction.service.ts. The check of a
-- fixed hash against timing attacks changes nothing and is left out.
use access_service.Prelude.{
  ℕ, String, Bool, true, false, Option, none, some, List, [], ◌∷◌, ◌&&◌, ◌||◌, not, any, ◌==◌,
  str_eq, pure, throw, gets, catch, throw_if, when_else, ◌>>=◌, ◌>>◌,
}
use access_service.Login.State.{
  UserStatus, active, suspended, locked, User, AuthenticationSettings, LoginError, ip_restricted,
  invalid_credentials, account_disabled, account_locked, nothing_thrown, FailureReason,
  invalid_credentials_reason, account_disabled_reason, account_locked_reason, ip_restriction_denied,
  login_failed, account_locked_event, LoginPlatform, Login, log_event,
}
use access_service.Login.Lockout.{LockTx, record_ip_failure, reset_failure_count, handle_failure}
use access_service.Login.Session.{open_session}
use access_service.Login.Challenge.{evaluate_mfa}

-- What the code answers: a session or a challenge.
pub data LoginResult : Type 0 where
  authenticated : ℕ → LoginResult
  mfa_needed : ℕ → LoginResult

-- What a client sends; an empty password counts as none.
pub record Attempt : Type 0 where
  pub email : String
  pub password : Option String
  pub remember_me : Bool
  pub source_ip : String

abbrev pub ip_allowed : LoginPlatform → String → Option AuthenticationSettings → Bool
ip_allowed p ip none = true
ip_allowed p ip (some settings) =
    not settings.ip_restriction_enabled || any (p.in_cidr ip) settings.allowed_ip_cidrs

abbrev pub with_email : LoginPlatform → String → User → Bool
with_email p email u = str_eq u.normalized_email (p.normalize email)

abbrev pub note_ip_failure : LoginPlatform → ℕ → Option User → Login (Unit {0})
note_ip_failure p tenant_code none = pure tt
note_ip_failure p tenant_code (some user) = do n ← record_ip_failure p tenant_code user.id; pure tt

abbrev pub id_of : Option User → Option ℕ
id_of none = none
id_of (some user) = some user.id

abbrev pub deny_ip : LoginPlatform → ℕ → Attempt → Login (Unit {0})
deny_ip p tenant_code a = do
  user ← gets (λ s. p.user_table.find_one (with_email p a.email) s.users)
  note_ip_failure p tenant_code user
  log_event (login_failed tenant_code ip_restriction_denied (id_of user))
  throw ip_restricted

unfoldable pub validate_ip_policy : LoginPlatform → ℕ → Attempt → Login (Unit {0})
unfolding record_ip_failure
validate_ip_policy p tenant_code a =
    when_else (ip_allowed p a.source_ip (p.settings_of tenant_code)) (pure tt)
      (deny_ip p tenant_code a)

abbrev pub refuse : {A : Type 0} → ℕ → FailureReason → Option ℕ → LoginError → Login A
refuse tenant_code reason user_id e = do
  log_event (login_failed tenant_code reason user_id)
  throw e

abbrev pub check_status : ℕ → User → UserStatus → Login User
check_status tenant_code user active = pure user
check_status tenant_code user suspended =
    refuse tenant_code account_disabled_reason (some user.id) account_disabled
check_status tenant_code user locked =
    refuse tenant_code account_locked_reason (some user.id) account_locked
check_status tenant_code user _ =
    refuse tenant_code invalid_credentials_reason (some user.id) invalid_credentials

abbrev pub check_found : ℕ → Option User → Login User
check_found tenant_code none =
    refuse tenant_code invalid_credentials_reason none invalid_credentials
check_found tenant_code (some user) = check_status tenant_code user user.status

unfoldable pub fetch_and_validate_user : LoginPlatform → ℕ → String → Login User
fetch_and_validate_user p tenant_code email = do
  found ← gets (λ s.
      p.user_table.find_one (λ u. with_email p email u && u.tenant_code == tenant_code) s.users)
  check_found tenant_code found

abbrev pub matches : LoginPlatform → Option String → String → Bool
matches p none password = false
matches p (some hash) password = p.verify_password hash password

abbrev pub log_if_locked : Bool → ℕ → Login (Unit {0})
log_if_locked b user_id = when_else b (log_event (account_locked_event user_id)) (pure tt)

abbrev pub reject_password : LoginPlatform → LockTx → ℕ → User → Login (Unit {0})
reject_password p tx tenant_code user = do
  was_locked ← handle_failure p tx user.id (p.settings_of tenant_code)
  log_if_locked was_locked user.id
  refuse user.tenant_code invalid_credentials_reason (some user.id) invalid_credentials

unfoldable pub verify_user_password : LoginPlatform → LockTx → ℕ → User → String → Login (Unit {0})
unfolding handle_failure reset_failure_count
verify_user_password p tx tenant_code user password =
    when_else (matches p (p.password_hash_of user.id) password) (reset_failure_count p user.id)
      (reject_password p tx tenant_code user)

-- `if (password)`
abbrev pub verify_if_given : LoginPlatform → LockTx → ℕ → User → Option String → Login (Unit {0})
verify_if_given p tx tenant_code user none = pure tt
verify_if_given p tx tenant_code user (some password) =
    when_else (str_eq password "") (pure tt) (verify_user_password p tx tenant_code user password)

abbrev pub admit : LoginPlatform → User → Bool → Option ℕ → Login LoginResult
admit p user remember_me (some challenge_id) = pure (mfa_needed challenge_id)
admit p user remember_me none = do
  session_id ← open_session p user remember_me
  pure (authenticated session_id)

unfoldable pub process_login : LoginPlatform → LockTx → ℕ → Attempt → Login LoginResult
unfolding validate_ip_policy fetch_and_validate_user verify_user_password evaluate_mfa open_session
process_login p tx tenant_code a = do
  validate_ip_policy p tenant_code a
  throw_if (not (p.tenant_exists tenant_code)) invalid_credentials
  user ← fetch_and_validate_user p tenant_code a.email
  verify_if_given p tx tenant_code user a.password
  challenge ← evaluate_mfa p user (p.settings_of tenant_code) a.remember_me
  admit p user a.remember_me challenge

-- The loop over the tenants of an address, with the last error.
unfoldable pub try_tenants :
    LoginPlatform → LockTx → List ℕ → Attempt → LoginError → Login LoginResult
unfolding process_login
try_tenants p tx [] a last = throw last
try_tenants p tx (t ∷ ts) a last = catch (process_login p tx t a) (λ e. try_tenants p tx ts a e)

abbrev pub tenants_of : List User → List ℕ
tenants_of [] = []
tenants_of (u ∷ us) = u.tenant_code ∷ tenants_of us

unfoldable pub login_with_password : LoginPlatform → LockTx → Attempt → Login LoginResult
unfolding try_tenants
login_with_password p tx a = do
  tenants ← gets (λ s. tenants_of (p.user_table.find (with_email p a.email) s.users))
  try_tenants p tx tenants a nothing_thrown
