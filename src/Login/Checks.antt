-- ===== src/Login/Checks.antt =====
-- What each check of `processLogin` lets through.
use mathlib.Core.Path.{subst}
use access_service.Prelude.{
  ℕ, String, Bool, true, false, ◌≡◌, refl, sym, ap, ◌∙◌, inl, inr, ◌⊎◌, Option, none, some, ◌&&◌,
  not, ◌==◌, ==_iff, str_eq, if◌then◌else◌, ok, err, Result, pure, throw, gets, throw_if, Never,
  throw-Never, bind-Never, when_else-inv, ok_inj, Contains, Bool-cases, and_split, arith,
}
use access_service.Login.State.{
  UserStatus, active, inactive, suspended, invited, disabled, archived, locked, User, LoginState,
  LoginError, ip_restricted, invalid_credentials, FailureReason, ip_restriction_denied,
  login_failed, LoginPlatform, log_event,
}
use access_service.Login.Lockout.{LockTx, reset_failure_count, handle_failure}
use access_service.Login.Password.{
  Attempt, ip_allowed, with_email, refuse, deny_ip, note_ip_failure, id_of, validate_ip_policy,
  check_status, check_found, fetch_and_validate_user, matches, log_if_locked, reject_password,
  verify_user_password, verify_if_given,
}

exists_by : (b : Bool) → b ≡ false → (if not b then err invalid_credentials else ok tt) ≡ ok tt → ⊥
exists_by true e h = ground arith
exists_by false e h = ground arith

user_of : {user u : User} → Path (Result LoginError User) (ok user) (ok u) → user ≡ u
user_of h = ok_inj _ _ h

module _ {A : Type 0} where
  refuse-Never :
      (t : ℕ) (r : FailureReason) (u : Option ℕ) (e : LoginError) → Never (refuse {A = A} t r u e)
  refuse-Never t r u e = bind-Never (log_event _) (λ x. throw e) (λ x. throw-Never e)

module _ (p : LoginPlatform) (tx : LockTx) (tenant_code : ℕ) where
  deny_ip-Never : (a : Attempt) → Never (deny_ip p tenant_code a)
  deny_ip-Never a =
      bind-Never (gets (λ s. p.user_table.find_one (with_email p a.email) s.users)) _ (λ user.
        bind-Never (note_ip_failure p tenant_code user) _ (λ x.
          bind-Never (log_event (login_failed tenant_code ip_restriction_denied (id_of user))) _
            (λ y. throw-Never ip_restricted)))

  pub ip-allowed :
      (a : Attempt) (s s' : LoginState) (x : Unit {0})
      → validate_ip_policy p tenant_code a s ≡ (ok x, s')
      → (ip_allowed p a.source_ip (p.settings_of tenant_code) ≡ true) × (s ≡ s')
  unfolding validate_ip_policy
  ip-allowed a s s' x h =
      elim (when_else-inv (ip_allowed p a.source_ip (p.settings_of tenant_code)) (pure tt)
        (deny_ip p tenant_code a) s (ok x, s') h) [
          | inl (e, g) ↦ (e, ap (λ r. r.1) g)
          | inr (e, g) ↦ absurd (deny_ip-Never a s s' x g)
        ]

  pub tenant-exists :
      (s s' : LoginState) (x : Unit {0})
      → throw_if (not (p.tenant_exists tenant_code)) invalid_credentials s ≡ (ok x, s')
      → (p.tenant_exists tenant_code ≡ true) × (s ≡ s')
  tenant-exists s s' x h = elim (Bool-cases (p.tenant_exists tenant_code)) [
    | inl e ↦ (e, ap (λ r. r.1) h)
    | inr e ↦ absurd (exists_by (p.tenant_exists tenant_code) e (ap (λ r. r.0) h))
  ]

  status-active :
      (s s' : LoginState) (user u : User) (st : UserStatus)
      → check_status tenant_code user st s ≡ (ok u, s')
      → (st ≡ active) × (user ≡ u) × (s ≡ s')
  status-active s s' user u active h = (refl, user_of (ap (λ r. r.0) h), ap (λ r. r.1) h)
  status-active s s' user u inactive h = absurd (refuse-Never _ _ _ _ s s' u h)
  status-active s s' user u suspended h = absurd (refuse-Never _ _ _ _ s s' u h)
  status-active s s' user u invited h = absurd (refuse-Never _ _ _ _ s s' u h)
  status-active s s' user u disabled h = absurd (refuse-Never _ _ _ _ s s' u h)
  status-active s s' user u archived h = absurd (refuse-Never _ _ _ _ s s' u h)
  status-active s s' user u locked h = absurd (refuse-Never _ _ _ _ s s' u h)

  pub user-found :
      (email : String) (s s' : LoginState) (u : User)
      → fetch_and_validate_user p tenant_code email s ≡ (ok u, s')
      → Contains u s.users
        × (with_email p email u ≡ true)
        × (u.tenant_code ≡ tenant_code)
        × (u.status ≡ active)
        × (s ≡ s')
  unfolding fetch_and_validate_user
  user-found email s s' u h =
      found_by
        (p.user_table.find_one (λ u. with_email p email u && u.tenant_code == tenant_code) s.users)
        refl h
    where
      found_by :
          (o : Option User)
          → p.user_table.find_one
              (λ u. with_email p email u && u.tenant_code == tenant_code)
              s.users
            ≡ o
          → check_found tenant_code o s ≡ (ok u, s')
          → Contains u s.users
            × (with_email p email u ≡ true)
            × (u.tenant_code ≡ tenant_code)
            × (u.status ≡ active)
            × (s ≡ s')
      found_by none o g = absurd (refuse-Never _ _ _ _ s s' u g)
      found_by (some v) o g =
          let (st, same, state) = status-active s s' v u v.status g in
          let (c, q) =
            p.user_table.find_one-some (λ u. with_email p email u && u.tenant_code == tenant_code)
              s.users v o in
          let (e, t) = and_split (with_email p email v) (v.tenant_code == tenant_code) q in
          (
            subst (λ x. Contains x s.users) same c,
            ap (with_email p email) (sym same) ∙ e,
            ap (λ x. x.tenant_code) (sym same) ∙ (==_iff v.tenant_code tenant_code).0 t,
            ap (λ x. x.status) (sym same) ∙ st,
            state,
          )

  -- A password that is given and not empty matches the hash of the user.
  abbrev pub PasswordMatches : User → Option String → Type 0
  PasswordMatches u none = Unit
  PasswordMatches u (some password) =
      (str_eq password "" ≡ true) ⊎ (matches p (p.password_hash_of u.id) password ≡ true)

  reject-Never : (u : User) → Never (reject_password p tx tenant_code u)
  reject-Never u =
      bind-Never (handle_failure p tx u.id (p.settings_of tenant_code)) _
        (λ b. bind-Never (log_if_locked b u.id) _ (λ x. refuse-Never _ _ _ _))

  pub password-matches :
      (u : User) (password : Option String) (s s' : LoginState) (x : Unit {0})
      → verify_if_given p tx tenant_code u password s ≡ (ok x, s')
      → PasswordMatches u password
  unfolding verify_user_password
  password-matches u none s s' x h = tt
  password-matches u (some password) s s' x h =
      elim (when_else-inv (str_eq password "") (pure tt)
        (verify_user_password p tx tenant_code u password) s (ok x, s') h) [
          | inl (e, g) ↦ inl e
          | inr (e, g) ↦
              elim (when_else-inv (matches p (p.password_hash_of u.id) password)
                (reset_failure_count p u.id) (reject_password p tx tenant_code u) s (ok x, s') g) [
                  | inl (f, k) ↦ inr f
                  | inr (f, k) ↦ absurd (reject-Never u s s' x k)
                ]
        ]
