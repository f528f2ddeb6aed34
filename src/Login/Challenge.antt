-- ===== src/Login/Challenge.antt =====
-- The second factor: `evaluateMfa` of src/modules/auth/services/auth.application.service.ts,
-- `verifyLoginChallenge` of src/modules/mfa/services/mfa_application.service.ts and
-- src/modules/mfa/adapters/redis_mfa_challenge.adapter.ts. What is left of the attempts is only
-- compared with 0, where subtraction that stops at 0 agrees.
use access_service.Prelude.{
  ℕ, ◌-◌, String, Bool, false, Option, none, some, ◌∷◌, ◌&&◌, ◌||◌, not, select, first, ltb, leb,
  ◌==◌, str_eq, if◌then◌else◌, pure, throw, gets, modify, or_throw, when_else, ◌>>=◌, ◌>>◌,
}
use access_service.Login.State.{
  User, AuthenticationSettings, MfaChallengeData, LoginState, invalid_mfa_code,
  mfa_challenge_locked, user_not_found, LoginPlatform, Login, redis_call,
}
use access_service.Login.Session.{open_session}

abbrev pub restricted : Option AuthenticationSettings → Bool
restricted none = false
restricted (some settings) = settings.restricted_mfa_enabled

abbrev pub mfa_required : LoginPlatform → User → Option AuthenticationSettings → Bool
mfa_required p user settings =
    restricted settings
    || user.mfa_enrollment_required
    || user.mfa_re_enrollment_required
    || ltb 0 (p.active_mfa_methods user.id)

abbrev pub new_challenge : User → Bool → ℕ → MfaChallengeData
new_challenge user remember_me id = record {
  challenge_id = id;
  tenant_code = user.tenant_code;
  user_id = user.id;
  attempts_left = 0;
  remember_me = remember_me;
}

abbrev pub issue_challenge : LoginPlatform → User → Bool → Login (Option ℕ)
issue_challenge p user remember_me = do
  id ← gets p.random_id
  redis_call p (λ s. record s { challenges = new_challenge user remember_me id ∷ s.challenges })
  pure (some id)

-- The identifier of the challenge, where one is required.
unfoldable pub evaluate_mfa :
    LoginPlatform → User → Option AuthenticationSettings → Bool → Login (Option ℕ)
evaluate_mfa p user settings remember_me =
    when_else (mfa_required p user settings) (issue_challenge p user remember_me) (pure none)

abbrev pub is_challenge : ℕ → ℕ → ℕ → MfaChallengeData → Bool
is_challenge tenant_code user_id challenge_id c =
    c.challenge_id == challenge_id && c.tenant_code == tenant_code && c.user_id == user_id

unfoldable pub get_challenge : LoginPlatform → ℕ → ℕ → ℕ → Login (Option MfaChallengeData)
get_challenge p tenant_code user_id challenge_id = do
  redis_call p (λ s. s)
  gets (λ s. first (is_challenge tenant_code user_id challenge_id) s.challenges)

abbrev pub without : ℕ → ℕ → ℕ → LoginState → LoginState
without tenant_code user_id challenge_id s = record s {
  challenges = select (λ c. not (is_challenge tenant_code user_id challenge_id c)) s.challenges;
}

-- An error of the deletion is ignored.
unfoldable pub delete_challenge : LoginPlatform → ℕ → ℕ → ℕ → Login (Unit {0})
delete_challenge p tenant_code user_id challenge_id =
    modify (λ s. if p.redis_fails s then s else without tenant_code user_id challenge_id s)

unfoldable pub decrement_attempts : LoginPlatform → MfaChallengeData → Login ℕ
unfolding delete_challenge
decrement_attempts p challenge = do
  let left = challenge.attempts_left - 1
  when_else (leb left 0)
      (delete_challenge p challenge.tenant_code challenge.user_id challenge.challenge_id)
      (redis_call p (λ s.
        let rest = without challenge.tenant_code challenge.user_id challenge.challenge_id s in
        record rest { challenges = record challenge { attempts_left = left } ∷ rest.challenges }))
  pure left

abbrev pub refuse_code : LoginPlatform → MfaChallengeData → Login ℕ
refuse_code p challenge = do
  remaining ← decrement_attempts p challenge
  when_else (leb remaining 0) (throw mfa_challenge_locked) (throw invalid_mfa_code)

abbrev pub accept_code : LoginPlatform → ℕ → ℕ → ℕ → User → MfaChallengeData → Login ℕ
accept_code p tenant_code user_id challenge_id user challenge = do
  delete_challenge p tenant_code user_id challenge_id
  open_session p user challenge.remember_me

-- The code that is expected is written in the source.
unfoldable pub verify_login_challenge : LoginPlatform → ℕ → ℕ → ℕ → String → Login ℕ
unfolding get_challenge decrement_attempts delete_challenge open_session
verify_login_challenge p tenant_code user_id challenge_id code = do
  found ← gets (λ s. p.user_table.find_one (λ u. u.id == user_id) s.users)
  user ← or_throw found user_not_found
  stored ← get_challenge p tenant_code user_id challenge_id
  challenge ← or_throw stored invalid_mfa_code
  when_else (str_eq code "123456") (accept_code p tenant_code user_id challenge_id user challenge)
      (refuse_code p challenge)
