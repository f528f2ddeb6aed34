-- ===== src/Reset/Tests.antt =====
-- Runs of a password reset, and an instance of each theorem.
use access_service.Prelude.{ℕ, String, true, false, ◌≡◌, refl, none, some, [], ◌∷◌, arith, ok, err}
use access_service.Database.InMemory.{by_copy}
use access_service.Reset.Service.{
  active, ResetKey, PasswordResetChallengeData, invalid_reset_challenge, max_attempts_exceeded,
  ResetState, ResetPlatform, ResetTx, save_challenge, is_open, verify_reset_code,
  confirm_password_reset,
}
use access_service.Reset.SingleUse.{
  after_codes, verify_reset_code_limited, confirm_password_reset-IsOnce,
}

abbrev platform : ResetPlatform
platform = record { hash_code = λ c. c; hash_password = λ w. w; random_id = λ s. 77 }

abbrev tx : ResetTx
tx = by_copy

abbrev key : ResetKey
key = record { challenge_id = 5; tenant_code = 1; user_id = 7 }

abbrev start : ResetState
start = save_challenge key "4321" (record {
  challenges = λ k. none;
  credentials = record { user_id = 7; password_hash = "old"; status = active } ∷ [];
  security_version = λ u. some 3;
  completed = [];
})

abbrev fresh : PasswordResetChallengeData
fresh = record { hashed_code = "4321"; code_verified = false; reset_token = none; attempts = 0 }

verify_reset_code_limited_example :
    (verify_reset_code platform key "4321"
      (after_codes platform key ("1" ∷ "2" ∷ "3" ∷ []) start)).0
    ≡ err max_attempts_exceeded
verify_reset_code_limited_example =
    verify_reset_code_limited platform key fresh ("1" ∷ "2" ∷ "3" ∷ []) start refl refl
      (refl, (refl, (refl, tt))) (omega arith) "4321"

abbrev open_reset : ResetState
open_reset = (verify_reset_code platform key "4321" start).1

abbrev done : ResetState
done = (confirm_password_reset platform tx key 77 "new" open_reset).1

confirmed : confirm_password_reset platform tx key 77 "new" open_reset ≡ (ok tt, done)
unfolding confirm_password_reset verify_reset_code
confirmed = refl

confirm_password_reset-IsOnce_example :
    (is_open 77 (open_reset.challenges key) ≡ true)
    × ((other : ℕ) (again : String)
        → confirm_password_reset platform tx key other again done
          ≡ (err invalid_reset_challenge, done))
    × (done.security_version 7 ≡ open_reset.security_version 7)
confirm_password_reset-IsOnce_example =
    confirm_password_reset-IsOnce platform tx key 77 "new" open_reset done tt confirmed
