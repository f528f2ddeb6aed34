-- ===== src/Login/Opened.antt =====
-- The challenge that `processLogin` asks for, and the session that it opens.
use mathlib.Core.Path.{subst}
use access_service.Prelude.{
  ℕ, Bool, true, false, ◌≡◌, refl, ap, ◌∙◌, inl, inr, Option, none, some, ◌∷◌, if◌then◌else◌, ok,
  err, Result, pure, ◌>>=◌, bind-inv, proceed-inv, when_else-inv, when_else, ok_inj, Contains,
  arith,
}
use access_service.Login.State.{
  User, LoginState, LoginError, login_succeeded, auth_store_unavailable, LoginPlatform, redis_call,
  set_at, log_event,
}
use access_service.Login.Session.{
  generate_auth_tokens, store_session_and_log_success, open_session, session_of, index_session,
}
use access_service.Login.Challenge.{mfa_required, new_challenge, issue_challenge, evaluate_mfa}
use access_service.Login.Password.{LoginResult, authenticated, admit}

session_inj :
    {i j : ℕ}
    → Path (Result LoginError LoginResult) (ok (authenticated i)) (ok (authenticated j))
    → i ≡ j
session_inj h = ground arith

module _ (p : LoginPlatform) (tenant_code : ℕ) where
  no_challenge :
      (u : User) (remember_me : Bool) (s s' : LoginState)
      → evaluate_mfa p u (p.settings_of tenant_code) remember_me s ≡ (ok none, s')
      → mfa_required p u (p.settings_of tenant_code) ≡ false
  unfolding evaluate_mfa
  no_challenge u remember_me s s' h =
      elim (when_else-inv (mfa_required p u (p.settings_of tenant_code))
        (issue_challenge p u remember_me) (pure none) s (ok none, s') h) [
          | inl (e, g) ↦ absurd (issued_some s s' g)
          | inr (e, g) ↦ e
        ]
    where
      issued_some : (s s' : LoginState) → issue_challenge p u remember_me s ≡ (ok none, s') → ⊥
      issued_some s s' g =
          let (x, (s2, (b, g2))) =
            proceed-inv (λ x. pure (some (p.random_id s))) none s'
              (redis_call p
                (λ s1. record s1 {
                  challenges = new_challenge u remember_me (p.random_id s) ∷ s1.challenges;
                })
                s)
              g in
          ground (arith, ap (λ r. r.0) g2)

  pub no_challenge_of :
      (u : User) (remember_me : Bool) (c : Option ℕ) (s s' : LoginState)
      → evaluate_mfa p u (p.settings_of tenant_code) remember_me s ≡ (ok c, s')
      → c ≡ none
      → mfa_required p u (p.settings_of tenant_code) ≡ false
  no_challenge_of u remember_me c s s' h n =
      no_challenge u remember_me s s' (h ∙ ap (λ o. (ok o, s')) n)

  redis_call-ok :
      (f : LoginState → LoginState) (s t : LoginState) (x : Unit {0})
      → redis_call p f s ≡ (ok x, t)
      → f s ≡ t
  redis_call-ok f s t x h = called_by (p.redis_fails s) h
    where
      called_by :
          (b : Bool)
          → Path
              (Result LoginError (Unit {0}) × LoginState)
              (if b then (err auth_store_unavailable, s) else (ok tt, f s))
              (ok x, t)
          → f s ≡ t
      called_by true g = ground (arith, ap (λ r. r.0) g)
      called_by false g = ap (λ r. r.1) g

  session-indexed :
      (u : User) (id : ℕ) (s t : LoginState) (x : Unit {0})
      → when_else p.has_client (index_session p u id) (pure tt) s ≡ (ok x, t)
      → s.sessions ≡ t.sessions
  session-indexed u id s t x h =
      elim (when_else-inv p.has_client (index_session p u id) (pure tt) s (ok x, t) h) [
        | inr (e, g) ↦ ap (λ r. r.1.sessions) g
        | inl (e, g) ↦
            let add : LoginState → LoginState = λ s. record s {
              user_sessions =
                  set_at u.tenant_code
                    (set_at u.id (id ∷ s.user_sessions u.tenant_code u.id)
                      (s.user_sessions u.tenant_code))
                    s.user_sessions;
            } in
            let (y, (m, (added, expired))) =
              bind-inv (λ y. redis_call p (λ s. s)) x t (redis_call p add) s g in
            let first : s.sessions ≡ m.sessions =
              ap (λ r. r.sessions) (redis_call-ok add s m y added) in
            first ∙ ap (λ r. r.sessions) (redis_call-ok (λ s. s) m t x expired)
      ]

  session-stored :
      (u : User) (remember_me : Bool) (id : ℕ) (s t : LoginState) (x : Unit {0})
      → store_session_and_log_success p u id remember_me s ≡ (ok x, t)
      → Contains (session_of u id remember_me) t.sessions
  unfolding store_session_and_log_success
  session-stored u remember_me id s t x h =
      let store : LoginState → LoginState =
        λ s. record s { sessions = session_of u id remember_me ∷ s.sessions } in
      let index = when_else p.has_client (index_session p u id) (pure tt) in
      let log = log_event (login_succeeded u.id id) in
      let (y, (s1, (stored, rest))) =
        bind-inv (λ y. index >>= λ z. log) x t (redis_call p store) s h in
      let (z, (s2, (indexed, logged))) = bind-inv (λ z. log) x t index s1 rest in
      let kept : s2.sessions ≡ t.sessions = ap (λ r. r.1.sessions) logged in
      let written : session_of u id remember_me ∷ s.sessions ≡ s1.sessions =
        ap (λ r. r.sessions) (redis_call-ok store s s1 y stored) in
      subst (Contains (session_of u id remember_me))
        (written ∙ session-indexed u id s1 s2 z indexed ∙ kept) (inl refl)

  session-open :
      (u : User) (remember_me : Bool) (id : ℕ) (s t : LoginState)
      → open_session p u remember_me s ≡ (ok id, t)
      → Contains (session_of u id remember_me) t.sessions
  unfolding open_session
  session-open u remember_me id s t h =
      let (i, (s1, (made, rest))) =
        bind-inv (λ i. store_session_and_log_success p u i remember_me >>= λ y. pure i) id t
          (generate_auth_tokens p u) s h in
      let (y, (s2, (stored, done))) =
        bind-inv (λ y. pure i) id t (store_session_and_log_success p u i remember_me) s1 rest in
      let same : i ≡ id = ok_inj i id (ap (λ r. r.0) done) in
      let state : s2.sessions ≡ t.sessions = ap (λ r. r.1.sessions) done in
      subst (λ j. Contains (session_of u j remember_me) t.sessions) same
        (subst (Contains (session_of u i remember_me)) state
          (session-stored u remember_me i s1 s2 y stored))

  pub session-opened :
      (u : User) (remember_me : Bool) (c : Option ℕ) (id : ℕ) (s s' : LoginState)
      → admit p u remember_me c s ≡ (ok (authenticated id), s')
      → (c ≡ none) × Contains (session_of u id remember_me) s'.sessions
  session-opened u remember_me (some c) id s s' h = ground (arith, ap (λ r. r.0) h)
  session-opened u remember_me none id s s' h =
      let (i, (s1, (opened, done))) =
        bind-inv (λ i. pure (authenticated i)) (authenticated id) s' (open_session p u remember_me)
          s h in
      let same : i ≡ id = session_inj (ap (λ r. r.0) done) in
      let state : s1.sessions ≡ s'.sessions = ap (λ r. r.1.sessions) done in
      (
        refl,
        subst (λ j. Contains (session_of u j remember_me) s'.sessions) same
            (subst (Contains (session_of u i remember_me)) state
              (session-open u remember_me i s s1 opened)),
      )
