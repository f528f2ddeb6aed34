-- ===== src/Login/State.antt =====
-- The state that a login shares: users, the counters and records in Redis, and the security events.
-- Code outside of the repository is a parameter: the table of users, the check of a password's hash,
-- random identifiers, the signing of tokens, and whether Redis answers.
use access_service.Prelude.{
  ℕ, String, Bool, Option, List, ◌∷◌, ◌==◌, if◌then◌else◌, ok, err, Action, modify,
}
use access_service.Database.{Repository}

pub data UserStatus : Type 0 where
  active inactive suspended invited disabled archived locked : UserStatus

pub record User : Type 0 where
  pub id : ℕ
  pub tenant_code : ℕ
  pub normalized_email : String
  pub status : UserStatus
  pub security_version : ℕ
  pub mfa_enrollment_required : Bool
  pub mfa_re_enrollment_required : Bool

pub record AuthenticationSettings : Type 0 where
  pub restricted_mfa_enabled : Bool
  pub account_lockout_enabled : Bool
  pub max_failed_retries : ℕ
  pub ip_restriction_enabled : Bool
  pub allowed_ip_cidrs : List String

pub record MfaChallengeData : Type 0 where
  pub challenge_id : ℕ
  pub tenant_code : ℕ
  pub user_id : ℕ
  pub attempts_left : ℕ
  pub remember_me : Bool

pub record AuthSession : Type 0 where
  pub session_id : ℕ
  pub user_id : ℕ
  pub tenant_code : ℕ
  pub ttl_seconds : ℕ

pub data FailureReason : Type 0 where
  invalid_credentials_reason account_disabled_reason account_locked_reason : FailureReason
  ip_restriction_denied unapproved_ip_spike : FailureReason

pub data SecurityEvent : Type 0 where
  login_succeeded : ℕ → ℕ → SecurityEvent
  login_failed : ℕ → FailureReason → Option ℕ → SecurityEvent
  account_locked_event : ℕ → SecurityEvent

pub data LoginError : Type 0 where
  ip_restricted invalid_credentials account_disabled account_locked : LoginError
  auth_store_unavailable invalid_mfa_code mfa_challenge_locked user_not_found : LoginError
  -- `throw err` with no error caught
  nothing_thrown : LoginError

pub record LoginState : Type 0 where
  pub users : List User
  -- `auth:login-failure`, `auth:ip-failure`: a missing counter is 0
  pub failures : ℕ → ℕ
  -- by tenant and user
  pub ip_failures : ℕ → ℕ → ℕ
  pub challenges : List MfaChallengeData
  pub sessions : List AuthSession
  -- `buildUserSessions`: the sessions of a user of a tenant
  pub user_sessions : ℕ → ℕ → List ℕ
  pub events : List SecurityEvent

pub record LoginPlatform : Type 0 where
  pub user_table : Repository User (λ u. u.id) (λ now u. u)
  -- Whether there is a client for the calls past the cache service.
  pub has_client : Bool
  -- Whether a call of Redis fails in a state.
  pub redis_fails : LoginState → Bool
  pub settings_of : ℕ → Option AuthenticationSettings
  pub tenant_exists : ℕ → Bool
  pub in_cidr : String → String → Bool
  pub password_hash_of : ℕ → Option String
  pub verify_password : String → String → Bool
  pub active_mfa_methods : ℕ → ℕ
  pub random_id : LoginState → ℕ
  pub signing_fails : Bool
  -- `toLowerCase().trim()`
  pub normalize : String → String
  pub now : ℕ

abbrev pub Login : Type 0 → Type 0
Login A = Action LoginState LoginError A

abbrev pub set_at : {A : Type 0} → ℕ → A → (ℕ → A) → ℕ → A
set_at k a f j = if j == k then a else f j

abbrev pub log_event : SecurityEvent → Login (Unit {0})
log_event e = modify (λ s. record s { events = e ∷ s.events })

-- A call of Redis: the change, or the error of the store.
abbrev pub redis_call : LoginPlatform → (LoginState → LoginState) → Login (Unit {0})
redis_call p f s = if p.redis_fails s then (err auth_store_unavailable, s) else (ok tt, f s)
