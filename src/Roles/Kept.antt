-- ===== src/Roles/Kept.antt =====
-- System roles and protected permissions across the steps of the service.
use mathlib.Core.Path.{subst}
use access_service.Prelude.{
  ◌≡◌, refl, sym, ◌∙◌, Bool, true, false, Result, ok, err, pure, throw_if, when_else, proceed,
  ◌>>=◌, ◌>>◌, Contains,
}
use access_service.Roles.Role.{Role, RolePermission, system, RoleError}
use access_service.Roles.Store.{RoleState, RoleAction, RoleTx}

-- Identifiers are distinct, and protected rows are of system roles.
pub record WellKept (s : RoleState) : Type 0 where
  pub distinct : (a b : Role) → Contains a s.roles → Contains b s.roles → a.id ≡ b.id → a ≡ b
  pub owned :
      (rp : RolePermission)
      → Contains rp s.role_permissions
      → rp.is_protected ≡ true
      → (r : Role) × (Contains r s.roles × ((r.id ≡ rp.role_id) × (r.role_type ≡ system)))

-- The same role, as far as the platform is concerned.
abbrev pub SameSystem : Role → Role → Type 0
SameSystem a b =
    (b.id ≡ a.id) × (b.role_type ≡ a.role_type) × (b.system_role_key ≡ a.system_role_key)

-- Every system role is still there, with its key, and every protected row.
pub record Keeps (s t : RoleState) : Type 0 where
  pub system_roles :
      (r : Role)
      → Contains r s.roles
      → r.role_type ≡ system
      → (r' : Role) × (Contains r' t.roles × SameSystem r r')
  pub protected_rows :
      (rp : RolePermission)
      → Contains rp s.role_permissions
      → rp.is_protected ≡ true
      → Contains rp t.role_permissions

abbrev pub Kept : RoleState → RoleState → Type 0
Kept s t = WellKept t × Keeps s t

Keeps-refl : (s : RoleState) → Keeps s s
Keeps-refl s = record {
  system_roles = λ r c e. (r, (c, (refl, refl, refl)));
  protected_rows = λ rp c e. c;
}

Keeps-trans : (s t u : RoleState) → Keeps s t → Keeps t u → Keeps s u
Keeps-trans s t u h k = record {
  system_roles = λ r c e.
      let (r', (c', (i, ty, key))) = h.system_roles r c e in
      let (r'', (c'', (i', ty', key'))) = k.system_roles r' c' (ty ∙ e) in
      (r'', (c'', (i' ∙ i, ty' ∙ ty, key' ∙ key)));
  protected_rows = λ rp c e. k.protected_rows rp (h.protected_rows rp c e) e;
}

-- What a step does to a state that is well kept.
abbrev pub SafeAt : {A : Type 0} → RoleAction A → RoleState → Type 0
SafeAt m s = WellKept s → Kept s (m s).1

-- A step that changes neither roles nor their permissions.
pub Kept-same :
    (s t : RoleState)
    → s.roles ≡ t.roles
    → s.role_permissions ≡ t.role_permissions
    → WellKept s
    → Kept s t
Kept-same s t e f w = (
  record {
    distinct =
        λ a b c d. w.distinct a b (subst (Contains a) (sym e) c) (subst (Contains b) (sym e) d);
    owned = λ rp c p.
        let (r, (d, q)) = w.owned rp (subst (Contains rp) (sym f) c) p in
        (r, (subst (Contains r) e d, q));
  },
  record {
    system_roles = λ r c p. (r, (subst (Contains r) e c, (refl, refl, refl)));
    protected_rows = λ rp c p. subst (Contains rp) f c;
  },
)

pub Kept-trans : (s t u : RoleState) → Kept s t → (WellKept t → Kept t u) → Kept s u
Kept-trans s t u (w, k) f = let (w', k') = f w in (w', Keeps-trans s t u k k')

module _ {A B : Type 0} where
  pub bind-SafeAt :
      (m : RoleAction A) (f : A → RoleAction B) (s : RoleState)
      → SafeAt m s
      → ((a : A) (t : RoleState) → m s ≡ (ok a, t) → SafeAt (f a) t)
      → SafeAt (m >>= f) s
  bind-SafeAt m f s h k w = go (m s) refl (h w)
    where
      go : (r : Result RoleError A × RoleState) → m s ≡ r → Kept s r.1 → Kept s (proceed f r).1
      go (ok a, t) e q = Kept-trans s t (f a t).1 q (k a t e)
      go (err x, t) e q = q

module _ {A : Type 0} where
  pub pure-SafeAt : (a : A) (s : RoleState) → SafeAt (pure a) s
  pure-SafeAt a s w = (w, Keeps-refl s)

  pub guard-SafeAt :
      (b : Bool) (e : RoleError) (m : RoleAction A) (s : RoleState)
      → SafeAt m s
      → SafeAt (throw_if b e >> m) s
  guard-SafeAt true e m s h w = (w, Keeps-refl s)
  guard-SafeAt false e m s h w = h w

  -- What passes the guard may use that it did.
  pub guard_known-SafeAt :
      (b : Bool) (e : RoleError) (m : RoleAction A) (s : RoleState)
      → (b ≡ false → SafeAt m s)
      → SafeAt (throw_if b e >> m) s
  guard_known-SafeAt true e m s h w = (w, Keeps-refl s)
  guard_known-SafeAt false e m s h w = h refl w

  pub when_else-SafeAt :
      (b : Bool) (m k : RoleAction A) (s : RoleState)
      → SafeAt m s
      → SafeAt k s
      → SafeAt (when_else b m k) s
  when_else-SafeAt true m k s h g w = h w
  when_else-SafeAt false m k s h g w = g w

  pub run-SafeAt :
      (tx : RoleTx A) (m : RoleAction A) (s : RoleState) → SafeAt m s → SafeAt (tx.run m) s
  run-SafeAt tx m s h w = go (m s).0 refl
    where
      go : (r : Result RoleError A) → (m s).0 ≡ r → Kept s (tx.run m s).1
      go (ok a) e =
          subst (λ (x : Result RoleError A × RoleState). Kept s x.1) (sym (tx.commit m s a e)) (h w)
      go (err x) e =
          subst (λ (y : Result RoleError A × RoleState). Kept s y.1) (sym (tx.rollback m s x e))
            (w, Keeps-refl s)
