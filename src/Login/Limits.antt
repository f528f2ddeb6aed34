-- ===== src/Login/Limits.antt =====
-- How many wrong passwords and codes are taken.
use access_service.Prelude.{
  ℕ, zero, suc, ◌+◌, ◌<◌, String, Bool, true, false, ◌≡◌, refl, ap, ◌∙◌, Option, some, ◌∷◌, leb,
  ◌==◌, ==_refl, str_eq, if◌then◌else◌, ok, err, throw, arith, map,
}
use access_service.Login.State.{
  User, AuthenticationSettings, LoginState, mfa_challenge_locked, LoginPlatform, set_at, locked,
  invalid_credentials, invalid_credentials_reason, login_failed, account_locked_event,
}
use access_service.Login.Lockout.{
  LockTx, lock, is_locked, threshold, lock_found, lock_user, increment_failure_count,
  reset_failure_count, handle_failure,
}
use access_service.Login.Password.{matches, verify_user_password}
use access_service.Login.Challenge.{
  mfa_required, without, new_challenge, evaluate_mfa, get_challenge, delete_challenge,
  decrement_attempts, verify_login_challenge,
}

below_leb : (t k : ℕ) → suc k < t → leb t (k + 1) ≡ false
below_leb t k h = ground arith

reached_leb : (t k : ℕ) → suc k ≡ t → leb t (k + 1) ≡ true
reached_leb t k h = ground arith

module _ (p : LoginPlatform) (tx : LockTx) (reliable : (s : LoginState) → p.redis_fails s ≡ false)
    (user_id : ℕ) (settings : AuthenticationSettings) where
  abbrev counted : LoginState → LoginState
  counted s = record s { failures = set_at user_id (s.failures user_id + 1) s.failures }

  increment_ok :
      (s : LoginState)
      → increment_failure_count p user_id s ≡ (ok (s.failures user_id + 1), counted s)
  unfolding increment_failure_count
  increment_ok s = rw (reliable s, ==_refl user_id) refl

  module _ (enabled : settings.account_lockout_enabled ≡ true) where
    below_threshold :
        (s : LoginState)
        → leb (threshold settings) (s.failures user_id + 1) ≡ false
        → handle_failure p tx user_id (some settings) s ≡ (ok false, counted s)
    unfolding handle_failure increment_failure_count
    below_threshold s h = rw (enabled, reliable s, ==_refl user_id, h) refl

    abbrev after_lock : User → LoginState → LoginState
    after_lock u s = record s {
      users = p.user_table.update p.now u.id lock s.users;
      failures = set_at user_id 0 s.failures;
    }

    lock_ok :
        (u : User) (s : LoginState)
        → p.user_table.find_one (λ v. v.id == user_id) s.users ≡ some u
        → is_locked u.status ≡ false
        → lock_user p user_id s ≡ (ok true, after_lock u s)
    unfolding lock_user lock_found reset_failure_count
    lock_ok u s f n =
        rw (f, n, reliable (record s { users = p.user_table.update p.now u.id lock s.users })) refl

    at_threshold :
        (u : User) (s : LoginState)
        → leb (threshold settings) (s.failures user_id + 1) ≡ true
        → p.user_table.find_one (λ v. v.id == user_id) s.users ≡ some u
        → is_locked u.status ≡ false
        → handle_failure p tx user_id (some settings) s ≡ (ok true, after_lock u (counted s))
    unfolding handle_failure increment_failure_count
    at_threshold u s h f n =
        let locks = lock_ok u (counted s) f n in
        rw (enabled, reliable s, ==_refl user_id, h)
          (tx.commit (lock_user p user_id) (counted s) true (ap (λ r. r.0) locks) ∙ locks)

-- What a lock writes to a row: the locked status, and the next security version, from 1 where it is 0.
abbrev pub locked_row : User → User
locked_row v = record v {
  status = locked;
  security_version = (if v.security_version == 0 then 1 else v.security_version) + 1;
}

module _ (p : LoginPlatform) (tx : LockTx) (reliable : (s : LoginState) → p.redis_fails s ≡ false)
    (tenant_code : ℕ) (u : User) (settings : AuthenticationSettings)
    (known : p.settings_of tenant_code ≡ some settings)
    (enabled : settings.account_lockout_enabled ≡ true) (passwords : ℕ → String)
    (wrong : (j : ℕ) → matches p (p.password_hash_of u.id) (passwords j) ≡ false) where
  abbrev noted : Bool → LoginState → LoginState
  noted true t = record t {
    events =
        login_failed u.tenant_code invalid_credentials_reason (some u.id)
        ∷ account_locked_event u.id
        ∷ t.events;
  }
  noted false t = record t {
    events = login_failed u.tenant_code invalid_credentials_reason (some u.id) ∷ t.events;
  }

  rejects :
      (b : Bool) (j : ℕ) (s t : LoginState)
      → handle_failure p tx u.id (some settings) s ≡ (ok b, t)
      → verify_user_password p tx tenant_code u (passwords j) s
        ≡ (err invalid_credentials, noted b t)
  unfolding verify_user_password
  rejects true j s t e = rw (wrong j, known, e) refl
  rejects false j s t e = rw (wrong j, known, e) refl

  -- The state after a number of wrong passwords in a row.
  abbrev pub attempts : ℕ → LoginState → LoginState
  attempts zero s = s
  attempts (suc k) s = (verify_user_password p tx tenant_code u (passwords k) (attempts k s)).1

  attempts_below :
      (s : LoginState)
      → s.failures u.id ≡ 0
      → (k : ℕ) → k < threshold settings
      → ((attempts k s).users ≡ s.users) × ((attempts k s).failures u.id ≡ k)
  attempts_below s z zero l = (refl, z)
  attempts_below s z (suc k) l =
      let (users, count) = attempts_below s z k (omega (arith, l)) in
      let step = rejects false k (attempts k s) _ (
        below_threshold p tx reliable u.id settings enabled (attempts k s)
          (rw count (below_leb (threshold settings) k l))) in
      (
        ap (λ r. r.1.users) step ∙ users,
        ap (λ r. r.1.failures u.id) step ∙ rw (==_refl u.id) (omega (arith, count)),
      )

  -- While Redis answers, and where the tenant's settings enable the lockout: take a user who is found
  -- by the identifier, is not locked and has no failures counted. Every wrong password before the
  -- threshold leaves the users as they are and is counted; the one that reaches it is refused as
  -- invalid credentials, sets the user's row to locked with the next security version, and starts
  -- the counter again.
  pub wrong_passwords_lock :
      (s : LoginState) (k : ℕ)
      → s.failures u.id ≡ 0
      → p.user_table.find_one (λ v. v.id == u.id) s.users ≡ some u
      → is_locked u.status ≡ false
      → suc k ≡ threshold settings
      → ((j : ℕ)
          → j < threshold settings
          → ((attempts j s).users ≡ s.users) × ((attempts j s).failures u.id ≡ j))
        × ((verify_user_password p tx tenant_code u (passwords k) (attempts k s)).0
            ≡ err invalid_credentials)
        × ((attempts (suc k) s).users ≡ map (λ v. if v.id == u.id then locked_row v else v) s.users)
        × ((attempts (suc k) s).failures u.id ≡ 0)
  wrong_passwords_lock s k z f n t =
      let (users, count) = attempts_below s z k (omega (arith, t)) in
      let step = rejects true k (attempts k s) _ (
        at_threshold p tx reliable u.id settings enabled u (attempts k s)
          (rw count (reached_leb (threshold settings) k t))
          (ap (p.user_table.find_one (λ v. v.id == u.id)) users ∙ f) n) in
      (
        attempts_below s z,
        ap (λ r. r.0) step,
        ap (λ r. r.1.users) step
            ∙ p.user_table.update_lem p.now u.id lock (attempts k s).users
            ∙ ap (map (λ v. if v.id == u.id then locked_row v else v)) users,
        ap (λ r. r.1.failures u.id) step ∙ rw (==_refl u.id) refl,
      )

module _ (p : LoginPlatform) (reliable : (s : LoginState) → p.redis_fails s ≡ false) (user : User)
    (settings : Option AuthenticationSettings) (remember_me : Bool) (s : LoginState) where
  abbrev pub issued : LoginState
  issued = record s { challenges = new_challenge user remember_me (p.random_id s) ∷ s.challenges }

  issue_ok :
      mfa_required p user settings ≡ true
      → evaluate_mfa p user settings remember_me s ≡ (ok (some (p.random_id s)), issued)
  unfolding evaluate_mfa
  issue_ok h = rw (h, reliable s) refl

  removed :
      without user.tenant_code user.id (p.random_id s) issued
      ≡ without user.tenant_code user.id (p.random_id s) s
  removed = rw (==_refl (p.random_id s), ==_refl user.tenant_code, ==_refl user.id) refl

  -- While Redis answers: a login that asks for a second factor stores a challenge, and the first wrong
  -- code for it is answered with the locked challenge and removes it, so no second code is taken.
  pub one_wrong_code_locks :
      (code : String)
      → mfa_required p user settings ≡ true
      → p.user_table.find_one (λ u. u.id == user.id) s.users ≡ some user
      → str_eq code "123456" ≡ false
      → (evaluate_mfa p user settings remember_me s ≡ (ok (some (p.random_id s)), issued))
        × (verify_login_challenge p user.tenant_code user.id (p.random_id s) code issued
            ≡ (err mfa_challenge_locked, without user.tenant_code user.id (p.random_id s) issued))
  unfolding verify_login_challenge get_challenge decrement_attempts delete_challenge
  one_wrong_code_locks code h f w = (
    issue_ok h,
    rw (f, reliable issued, ==_refl (p.random_id s), ==_refl user.tenant_code, ==_refl user.id, w)
        (ap (throw mfa_challenge_locked) (
          ap (λ b. if b then issued else without user.tenant_code user.id (p.random_id s) issued)
            (reliable issued)
          ∙ removed)),
  )
