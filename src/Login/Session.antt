-- ===== src/Login/Session.antt =====
-- `generateAuthTokens` and `storeSessionAndLogSuccess` of
-- src/modules/auth/services/auth.application.service.ts. A token is its session's identifier; the
-- employee's fields of a session are left out.
use access_service.Prelude.{
  ℕ, Bool, ◌∷◌, if◌then◌else◌, pure, gets, throw_if, when_else, ◌>>=◌, ◌>>◌,
}
use access_service.Login.State.{
  User, AuthSession, auth_store_unavailable, LoginPlatform, Login, login_succeeded, log_event,
  redis_call, set_at,
}

unfoldable pub generate_auth_tokens : LoginPlatform → User → Login ℕ
generate_auth_tokens p user = do
  session_id ← gets p.random_id
  throw_if p.signing_fails auth_store_unavailable
  pure session_id

abbrev pub session_of : User → ℕ → Bool → AuthSession
session_of user session_id remember_me = record {
  session_id = session_id;
  user_id = user.id;
  tenant_code = user.tenant_code;
  ttl_seconds = if remember_me then 2592000 else 604800;
}

-- `client.sadd`, then `client.expire`, which changes no more than a time to live.
abbrev pub index_session : LoginPlatform → User → ℕ → Login (Unit {0})
index_session p user session_id =
    redis_call p (λ s. record s {
      user_sessions =
          set_at user.tenant_code
            (set_at user.id (session_id ∷ s.user_sessions user.tenant_code user.id)
              (s.user_sessions user.tenant_code))
            s.user_sessions;
    })
    >> redis_call p (λ s. s)

unfoldable pub store_session_and_log_success : LoginPlatform → User → ℕ → Bool → Login (Unit {0})
store_session_and_log_success p user session_id remember_me = do
  redis_call p (λ s. record s { sessions = session_of user session_id remember_me ∷ s.sessions })
  when_else p.has_client (index_session p user session_id) (pure tt)
  log_event (login_succeeded user.id session_id)

-- Both, as a login does them.
unfoldable pub open_session : LoginPlatform → User → Bool → Login ℕ
unfolding generate_auth_tokens store_session_and_log_success
open_session p user remember_me = do
  session_id ← generate_auth_tokens p user
  store_session_and_log_success p user session_id remember_me
  pure session_id
