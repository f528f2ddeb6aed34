-- ===== src/Login/Admission.antt =====
-- Who is let in by `processLogin`.
use mathlib.Core.Path.{subst}
use access_service.Prelude.{
  ℕ, true, false, ◌≡◌, sym, ◌∙◌, not, ok, throw_if, ◌>>=◌, ◌>>◌, bind-inv, Contains,
}
use access_service.Login.State.{active, User, LoginState, invalid_credentials, LoginPlatform}
use access_service.Login.Lockout.{LockTx}
use access_service.Login.Session.{session_of}
use access_service.Login.Challenge.{mfa_required, evaluate_mfa}
use access_service.Login.Password.{
  authenticated, Attempt, ip_allowed, with_email, validate_ip_policy, fetch_and_validate_user,
  verify_if_given, admit, process_login,
}
use access_service.Login.Checks.{
  ip-allowed, tenant-exists, user-found, password-matches, PasswordMatches,
}
use access_service.Login.Opened.{no_challenge_of, session-opened}

module _ (p : LoginPlatform) (tx : LockTx) (tenant_code : ℕ) where
  -- A user of the tenant with the address who may have a session.
  abbrev pub IsAdmitted : Attempt → LoginState → User → Type 0
  IsAdmitted a s u =
      Contains u s.users
      × (with_email p a.email u ≡ true)
      × (u.tenant_code ≡ tenant_code)
      × (u.status ≡ active)
      × PasswordMatches p tx tenant_code u a.password
      × (mfa_required p u (p.settings_of tenant_code) ≡ false)
      × (p.tenant_exists tenant_code ≡ true)
      × (ip_allowed p a.source_ip (p.settings_of tenant_code) ≡ true)

  -- A login that is answered with a session is one of an active user of an existing tenant, from an
  -- allowed address, with the right password where one that is not empty is given, and without a second factor to
  -- ask for; and the session is stored.
  pub process_login-IsAdmitted :
      (a : Attempt) (s t : LoginState) (id : ℕ)
      → process_login p tx tenant_code a s ≡ (ok (authenticated id), t)
      → (u : User) × (IsAdmitted a s u × Contains (session_of u id a.remember_me) t.sessions)
  unfolding process_login
  process_login-IsAdmitted a s t id h =
      let r = authenticated id in
      let (x, (s1, (ip, h1))) =
        bind-inv
          (λ x. do
            throw_if (not (p.tenant_exists tenant_code)) invalid_credentials
            user ← fetch_and_validate_user p tenant_code a.email
            verify_if_given p tx tenant_code user a.password
            challenge ← evaluate_mfa p user (p.settings_of tenant_code) a.remember_me
            admit p user a.remember_me challenge)
          r t (validate_ip_policy p tenant_code a) s h in
      let (y, (s2, (exists, h2))) =
        bind-inv
          (λ y. do
            user ← fetch_and_validate_user p tenant_code a.email
            verify_if_given p tx tenant_code user a.password
            challenge ← evaluate_mfa p user (p.settings_of tenant_code) a.remember_me
            admit p user a.remember_me challenge)
          r t (throw_if (not (p.tenant_exists tenant_code)) invalid_credentials) s1 h1 in
      let (u, (s3, (found, h3))) =
        bind-inv
          (λ user. do
            verify_if_given p tx tenant_code user a.password
            challenge ← evaluate_mfa p user (p.settings_of tenant_code) a.remember_me
            admit p user a.remember_me challenge)
          r t (fetch_and_validate_user p tenant_code a.email) s2 h2 in
      let (z, (s4, (verified, h4))) =
        bind-inv
          (λ z. do
            challenge ← evaluate_mfa p u (p.settings_of tenant_code) a.remember_me
            admit p u a.remember_me challenge)
          r t (verify_if_given p tx tenant_code u a.password) s3 h3 in
      let (c, (s5, (asked, h5))) =
        bind-inv (admit p u a.remember_me) r t
          (evaluate_mfa p u (p.settings_of tenant_code) a.remember_me) s4 h4 in
      let (allowed, same1) = ip-allowed p tx tenant_code a s s1 x ip in
      let (there, same2) = tenant-exists p tx tenant_code s1 s2 y exists in
      let (in_users, email, of_tenant, is_active, same3) =
        user-found p tx tenant_code a.email s2 s3 u found in
      let (none_asked, session) = session-opened p tenant_code u a.remember_me c id s5 t h5 in
      (
        u,
        (
          (
            subst (λ w. Contains u w.users) (sym (same1 ∙ same2)) in_users,
            email,
            of_tenant,
            is_active,
            password-matches p tx tenant_code u a.password s3 s4 z verified,
            no_challenge_of p tenant_code u a.remember_me c s4 s5 asked none_asked,
            there,
            allowed,
          ),
          session,
        ),
      )
