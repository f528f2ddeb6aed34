-- ===== src/Reset/Service.antt =====
-- services/password.service.ts and adapters/redis-password-reset.adapter.ts of src/modules/password.
-- Hashing and random identifiers are parameters; calls of Redis answer, and times to live are left
-- out.
use access_service.Prelude.{
  ℕ, ◌+◌, String, Bool, true, false, Option, none, some, List, ◌∷◌, ◌&&◌, not, map, leb, ◌==◌,
  str_eq, if◌then◌else◌, Action, pure, throw, gets, modify, or_throw, throw_if, when_else, ◌>>=◌,
  ◌>>◌,
}
use access_service.Database.{Transaction}

pub data CredentialStatus : Type 0 where
  active superseded : CredentialStatus

pub record Credential : Type 0 where
  pub user_id : ℕ
  pub password_hash : String
  pub status : CredentialStatus

-- `auth:password-reset:{tenant:user}:challenge`
pub record ResetKey : Type 0 where
  pub challenge_id : ℕ
  pub tenant_code : ℕ
  pub user_id : ℕ

pub record PasswordResetChallengeData : Type 0 where
  pub hashed_code : String
  pub code_verified : Bool
  pub reset_token : Option ℕ
  pub attempts : ℕ

pub data ResetError : Type 0 where
  invalid_reset_challenge max_attempts_exceeded invalid_reset_code user_missing : ResetError

pub record ResetState : Type 0 where
  pub challenges : ResetKey → Option PasswordResetChallengeData
  pub credentials : List Credential
  pub security_version : ℕ → Option ℕ
  pub completed : List ℕ

pub record ResetPlatform : Type 0 where
  pub hash_code : String → String
  pub hash_password : String → String
  pub random_id : ResetState → ℕ

abbrev pub Reset : Type 0 → Type 0
Reset A = Action ResetState ResetError A

abbrev pub ResetTx : Type 0
ResetTx = Transaction ResetState ResetError (Unit {0})

abbrev pub same_key : ResetKey → ResetKey → Bool
same_key a b =
    a.challenge_id == b.challenge_id && (a.tenant_code == b.tenant_code && a.user_id == b.user_id)

abbrev pub store_at : ResetKey → Option PasswordResetChallengeData → ResetState → ResetState
store_at key c s = record s { challenges = λ j. if same_key j key then c else s.challenges j }

-- `saveChallenge`
abbrev pub save_challenge : ResetKey → String → ResetState → ResetState
save_challenge key hashed_code s =
    store_at key
      (some (record {
        hashed_code = hashed_code;
        code_verified = false;
        reset_token = none;
        attempts = 0;
      }))
      s

abbrev pub counted : ResetKey → Option PasswordResetChallengeData → Reset ℕ
counted key none = pure 0
counted key (some c) = do
  modify (store_at key (some (record c { attempts = c.attempts + 1 })))
  pure (c.attempts + 1)

unfoldable pub increment_attempts : ResetKey → Reset ℕ
increment_attempts key = do found ← gets (λ s. s.challenges key); counted key found

abbrev pub verified : ResetKey → ℕ → Option PasswordResetChallengeData → Reset (Unit {0})
verified key token none = pure tt
verified key token (some c) =
    modify (store_at key (some (record c { code_verified = true; reset_token = some token })))

unfoldable pub mark_code_verified : ResetKey → ℕ → Reset (Unit {0})
mark_code_verified key token = do found ← gets (λ s. s.challenges key); verified key token found

abbrev pub accept_code : ResetPlatform → ResetKey → Reset ℕ
accept_code p key = do token ← gets p.random_id; mark_code_verified key token; pure token

abbrev pub refuse_code : ResetKey → Reset ℕ
refuse_code key = do
  attempts ← increment_attempts key
  when_else (leb 3 attempts) (throw max_attempts_exceeded) (throw invalid_reset_code)

-- The reset token.
unfoldable pub verify_reset_code : ResetPlatform → ResetKey → String → Reset ℕ
unfolding increment_attempts mark_code_verified
verify_reset_code p key code = do
  found ← gets (λ s. s.challenges key)
  challenge ← or_throw found invalid_reset_challenge
  throw_if (leb 3 challenge.attempts) max_attempts_exceeded
  when_else (str_eq (p.hash_code code) challenge.hashed_code) (accept_code p key) (refuse_code key)

abbrev pub is_active : CredentialStatus → Bool
is_active active = true
is_active superseded = false

abbrev pub superseded_of : ℕ → Credential → Credential
superseded_of user_id c =
    if c.user_id == user_id && is_active c.status then record c { status = superseded } else c

-- `{ securityVersion: user.securityVersion++ }` is the value before the increment.
abbrev pub change_password : ResetPlatform → ℕ → String → ℕ → ResetState → ResetState
change_password p user_id password version s = record s {
  credentials =
      record { user_id = user_id; password_hash = p.hash_password password; status = active }
      ∷ map (superseded_of user_id) s.credentials;
  security_version = λ u. if u == user_id then some version else s.security_version u;
  completed = user_id ∷ s.completed;
}

-- The body of the transaction. A user has at most one active credential.
unfoldable pub write_password : ResetPlatform → ℕ → String → Reset (Unit {0})
write_password p user_id password = do
  found ← gets (λ s. s.security_version user_id)
  version ← or_throw found user_missing
  modify (change_password p user_id password version)

abbrev pub same_token : Option ℕ → ℕ → Bool
same_token none t = false
same_token (some u) t = u == t

abbrev pub is_open : ℕ → Option PasswordResetChallengeData → Bool
is_open token none = false
is_open token (some c) = c.code_verified && same_token c.reset_token token

-- The revocation of the user's sessions, which may fail without an effect here, is left out.
unfoldable pub confirm_password_reset :
    ResetPlatform → ResetTx → ResetKey → ℕ → String → Reset (Unit {0})
unfolding write_password
confirm_password_reset p tx key token password = do
  found ← gets (λ s. s.challenges key)
  throw_if (not (is_open token found)) invalid_reset_challenge
  tx.run (write_password p key.user_id password)
  modify (store_at key none)
