-- ===== src/Reset/SingleUse.antt =====
-- How often a reset code may be tried and a reset token used.
use access_service.Prelude.{
  ℕ, throw, suc, ◌+◌, ◌≤◌, String, Bool, true, false, ◌≡◌, refl, sym, ap, ◌∙◌, inl, inr, Option,
  none, some, List, [], ◌∷◌, not, leb, ==_refl, str_eq, length, All, ok, err, throw_if, modify,
  when_else, ◌>>◌, bind-inv, Bool-cases, arith,
}
use access_service.Reset.Service.{
  ResetKey, PasswordResetChallengeData, ResetError, invalid_reset_challenge, max_attempts_exceeded,
  invalid_reset_code, user_missing, ResetState, ResetPlatform, ResetTx, same_key, store_at,
  increment_attempts, verify_reset_code, change_password, write_password, is_open,
  confirm_password_reset,
}

same_key_refl : (key : ResetKey) → same_key key key ≡ true
same_key_refl key = rw (==_refl key.challenge_id, ==_refl key.tenant_code, ==_refl key.user_id) refl

either_throws :
    (b : Bool) (e f : ResetError) (s : ResetState)
    → (when_else {A = ℕ} b (throw e) (throw f) s).1 ≡ s
either_throws true e f s = refl
either_throws false e f s = refl

still_enough : (n m : ℕ) → 3 ≤ n + suc m → 3 ≤ (n + 1) + m
still_enough n m h = omega (arith, h)

at_limit : (n m : ℕ) → leb 3 n ≡ true → 3 ≤ n + m
at_limit n m h = ground arith

enough_now : (n : ℕ) → 3 ≤ n + 0 → leb 3 n ≡ true
enough_now n h = ground arith

module _ (p : ResetPlatform) (key : ResetKey) where
  abbrev with_attempts : PasswordResetChallengeData → ℕ → PasswordResetChallengeData
  with_attempts c n = record c { attempts = n }

  locked_out :
      (c : PasswordResetChallengeData) (n : ℕ) (code : String) (s : ResetState)
      → s.challenges key ≡ some (with_attempts c n)
      → leb 3 n ≡ true
      → verify_reset_code p key code s ≡ (err max_attempts_exceeded, s)
  unfolding verify_reset_code
  locked_out c n code s e l = rw (e, l) refl

  wrong_counted :
      (c : PasswordResetChallengeData) (n : ℕ) (code : String) (s : ResetState)
      → s.challenges key ≡ some (with_attempts c n)
      → leb 3 n ≡ false
      → str_eq (p.hash_code code) c.hashed_code ≡ false
      → (verify_reset_code p key code s).1 ≡ store_at key (some (with_attempts c (n + 1))) s
  unfolding verify_reset_code increment_attempts
  wrong_counted c n code s e l w =
      rw (e, l, w, e)
        (either_throws (leb 3 (n + 1)) max_attempts_exceeded invalid_reset_code
          (store_at key (some (with_attempts c (n + 1))) s))

  -- The state after codes are tried one after the other.
  abbrev pub after_codes : List String → ResetState → ResetState
  after_codes [] s = s
  after_codes (code ∷ codes) s = after_codes codes (verify_reset_code p key code s).1

  -- A code that does not have the hash of the challenge.
  abbrev pub IsWrong : PasswordResetChallengeData → String → Type 0
  IsWrong c code = str_eq (p.hash_code code) c.hashed_code ≡ false

  refused_after :
      (c : PasswordResetChallengeData) (codes : List String) (n : ℕ) (s : ResetState)
      → s.challenges key ≡ some (with_attempts c n)
      → All (IsWrong c) codes
      → 3 ≤ n + length codes
      → (code : String)
      → (verify_reset_code p key code (after_codes codes s)).0 ≡ err max_attempts_exceeded
  refused_after c [] n s e w l code = ap (λ r. r.0) (locked_out c n code s e (enough_now n l))
  refused_after c (d ∷ ds) n s e w l code = elim (Bool-cases (leb 3 n)) [
    | inl h ↦
        rw (locked_out c n d s e h) (refused_after c ds n s e w.1 (at_limit n (length ds) h) code)
    | inr h ↦ rw (wrong_counted c n d s e h w.0) (
        refused_after c ds (n + 1) (store_at key (some (with_attempts c (n + 1))) s)
          (rw (same_key_refl key) refl) w.1 (still_enough n (length ds) l) code)
  ]

  -- After three or more wrong codes for a fresh challenge every code is refused as one too many, also
  -- the right one.
  pub verify_reset_code_limited :
      (c : PasswordResetChallengeData) (codes : List String) (s : ResetState)
      → s.challenges key ≡ some c
      → c.attempts ≡ 0
      → All (IsWrong c) codes
      → 3 ≤ length codes
      → (code : String)
      → (verify_reset_code p key code (after_codes codes s)).0 ≡ err max_attempts_exceeded
  verify_reset_code_limited c codes s e z w l code =
      refused_after c codes 0 s (e ∙ fresh c z) w (omega (arith, l)) code
    where
      fresh : (c : PasswordResetChallengeData) → c.attempts ≡ 0 → some c ≡ some (with_attempts c 0)
      fresh c z = λ i. some (record c { attempts = z i })

throw_if-inv :
    (b : Bool) (e : ResetError) (s t : ResetState) (x : Unit {0})
    → throw_if b e s ≡ (ok x, t)
    → (b ≡ false) × (s ≡ t)
throw_if-inv true e s t x h = ground (arith, ap (λ r. r.0) h)
throw_if-inv false e s t x h = (refl, ap (λ r. r.1) h)

true_of_not : (b : Bool) → not b ≡ false → b ≡ true
true_of_not b h = ground arith

module _ (p : ResetPlatform) (tx : ResetTx) (key : ResetKey) where
  written_by :
      (password : String) (s t : ResetState) (x : Unit {0}) (o : Option ℕ)
      → s.security_version key.user_id ≡ o
      → tx.run (write_password p key.user_id password) s ≡ (ok x, t)
      → t.security_version key.user_id ≡ s.security_version key.user_id
  unfolding write_password
  written_by password s t x none e h =
      let m = write_password p key.user_id password in
      let failed : (m s).0 ≡ err user_missing = rw e refl in
      ground (arith, ap (λ r. r.0) (sym (tx.rollback m s user_missing failed) ∙ h))
  written_by password s t x (some v) e h =
      let m = write_password p key.user_id password in
      let done : m s ≡ (ok tt, change_password p key.user_id password v s) = rw e refl in
      let state : change_password p key.user_id password v s ≡ t =
        ap (λ r. r.1) (sym done ∙ sym (tx.commit m s tt (ap (λ r. r.0) done)) ∙ h) in
      ap (λ r. r.security_version key.user_id) (sym state) ∙ rw (==_refl key.user_id) (sym e)

  -- A reset that is confirmed had a verified code and the token of its challenge; it removes the
  -- challenge, so no token confirms a second one; and it leaves the user's security version as it
  -- was.
  pub confirm_password_reset-IsOnce :
      (token : ℕ) (password : String) (s t : ResetState) (x : Unit {0})
      → confirm_password_reset p tx key token password s ≡ (ok x, t)
      → (is_open token (s.challenges key) ≡ true)
        × ((other : ℕ) (again : String)
            → confirm_password_reset p tx key other again t ≡ (err invalid_reset_challenge, t))
        × (t.security_version key.user_id ≡ s.security_version key.user_id)
  unfolding confirm_password_reset
  confirm_password_reset-IsOnce token password s t x h =
      let (y, (s1, (checked, h1))) =
        bind-inv (λ y. tx.run (write_password p key.user_id password) >> modify (store_at key none))
          x t (throw_if (not (is_open token (s.challenges key))) invalid_reset_challenge) s h in
      let (z, (s2, (wrote, h2))) =
        bind-inv (λ z. modify (store_at key none)) x t
          (tx.run (write_password p key.user_id password)) s1 h1 in
      let (opened, same) = throw_if-inv (not (is_open token (s.challenges key))) _ s s1 y checked in
      let gone : store_at key none s2 ≡ t = ap (λ r. r.1) h2 in
      let removed : t.challenges key ≡ none =
        ap (λ r. r.challenges key) (sym gone) ∙ rw (same_key_refl key) refl in
      (
        true_of_not (is_open token (s.challenges key)) opened,
        λ other again. rw removed refl,
        ap (λ r. r.security_version key.user_id) (sym gone)
            ∙ written_by password s1 s2 z (s1.security_version key.user_id) refl wrote
            ∙ ap (λ r. r.security_version key.user_id) (sym same),
      )
