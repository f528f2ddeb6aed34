-- ===== src/Login/Lockout.antt =====
-- services/lockout.service.ts, adapters/redis-lockout.adapter.ts and scripts/incr-counter.lua of
-- src/modules/lockout. A counter's time to live is left out.
use access_service.Prelude.{
  ℕ, ◌+◌, Bool, true, false, Option, none, some, leb, ◌==◌, if◌then◌else◌, pure, gets, modify,
  when_else, ◌>>=◌, ◌>>◌,
}
use access_service.Database.{Transaction}
use access_service.Login.State.{
  UserStatus, locked, User, AuthenticationSettings, LoginState, LoginError, LoginPlatform, Login,
  login_failed, unapproved_ip_spike, set_at, log_event, redis_call,
}

abbrev pub LockTx : Type 0
LockTx = Transaction LoginState LoginError Bool

unfoldable pub increment_failure_count : LoginPlatform → ℕ → Login ℕ
increment_failure_count p user_id = do
  redis_call p (λ s. record s { failures = set_at user_id (s.failures user_id + 1) s.failures })
  gets (λ s. s.failures user_id)

unfoldable pub reset_failure_count : LoginPlatform → ℕ → Login (Unit {0})
reset_failure_count p user_id =
    redis_call p (λ s. record s { failures = set_at user_id 0 s.failures })

-- From the tenth failure on, each is logged.
unfoldable pub record_ip_failure : LoginPlatform → ℕ → ℕ → Login ℕ
record_ip_failure p tenant_code user_id = do
  redis_call p (λ s. record s {
    ip_failures =
        set_at tenant_code
          (set_at user_id (s.ip_failures tenant_code user_id + 1) (s.ip_failures tenant_code))
          s.ip_failures;
  })
  count ← gets (λ s. s.ip_failures tenant_code user_id)
  when_else (leb 10 count) (log_event (login_failed tenant_code unapproved_ip_spike (some user_id)))
      (pure tt)
  pure count

-- `securityVersion || 1`
abbrev pub version_or_one : ℕ → ℕ
version_or_one v = if v == 0 then 1 else v

abbrev pub lock : User → User
lock u = record u { status = locked; security_version = version_or_one u.security_version + 1 }

abbrev pub is_locked : UserStatus → Bool
is_locked locked = true
is_locked _ = false

unfoldable pub lock_found : LoginPlatform → ℕ → Option User → Login Bool
unfolding reset_failure_count
lock_found p user_id none = pure false
lock_found p user_id (some u) = when_else (is_locked u.status) (pure false) (do
  modify (λ s. record s { users = p.user_table.update p.now u.id lock s.users })
  reset_failure_count p user_id
  pure true)

-- The body of the transaction.
unfoldable pub lock_user : LoginPlatform → ℕ → Login Bool
unfolding lock_found
lock_user p user_id = do
  found ← gets (λ s. p.user_table.find_one (λ u. u.id == user_id) s.users)
  lock_found p user_id found

-- `maxFailedRetries || 5`
abbrev pub threshold : AuthenticationSettings → ℕ
threshold settings = if settings.max_failed_retries == 0 then 5 else settings.max_failed_retries

abbrev pub count_failure : LoginPlatform → LockTx → ℕ → AuthenticationSettings → Login Bool
count_failure p tx user_id settings = do
  count ← increment_failure_count p user_id
  when_else (leb (threshold settings) count) (tx.run (lock_user p user_id)) (pure false)

-- Whether the account was locked by this failure.
unfoldable pub handle_failure :
    LoginPlatform → LockTx → ℕ → Option AuthenticationSettings → Login Bool
unfolding increment_failure_count lock_user
handle_failure p tx user_id none = pure false
handle_failure p tx user_id (some settings) =
    when_else settings.account_lockout_enabled (count_failure p tx user_id settings) (pure false)
