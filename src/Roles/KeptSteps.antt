-- ===== src/Roles/KeptSteps.antt =====
-- Each step on the tables keeps system roles and protected permissions.
use mathlib.Core.Path.{subst}
use access_service.Prelude.{
  ℕ, ◌≡◌, ◌≢◌, refl, sym, ap, ◌∙◌, Bool, true, false, not, none, List, [], ◌∷◌, ◌++◌, ◌&&◌, map,
  any, ◌==◌, ==_iff, if◌then◌else◌, pure, modify, ◌>>◌, Contains, Contains-append,
  Contains-append_left, Contains-map, Contains-map_from, inl, inr, arith, Bool-cases,
}
use access_service.Database.InMemory.{select_complete, select_sound}
use access_service.Outbox.Event.{OutboxEventEntity}
use access_service.Roles.Role.{
  Role, RolePermission, system, is_system, unique_violation, cache_unavailable,
}
use access_service.Roles.Store.{
  RoleState, RolePlatform, save_role, insert_role, bulk_save, delete_by_role_id, of_role, clashes,
  sync_role, invalidate_role, delete_role, name_taken, record_event,
}
use access_service.Roles.Steps.{at_fresh, saved_in, with_rows, with_cached_role}
use access_service.Roles.Kept.{WellKept, SafeAt, SameSystem, Kept-same, guard-SafeAt}

module _ (p : RolePlatform) where
  pub sync_role-SafeAt : (role : Role) (s : RoleState) → SafeAt (sync_role p role) s
  unfolding sync_role
  sync_role-SafeAt role s =
      guard-SafeAt (p.cache_fails s) cache_unavailable (modify (with_cached_role role)) s
        (Kept-same s (with_cached_role role s) refl refl)

  pub invalidate_role-SafeAt : (id : ℕ) (s : RoleState) → SafeAt (invalidate_role p id) s
  unfolding invalidate_role
  invalidate_role-SafeAt id s =
      let f = λ (t : RoleState). record t { cache = λ i. if i == id then none else t.cache i } in
      guard-SafeAt (p.cache_fails s) cache_unavailable (modify f) s (Kept-same s (f s) refl refl)

  -- The new identifier is not in use.
  pub insert_role-SafeAt :
      ((rows : List Role) (r : Role) → Contains r rows → r.id ≢ p.fresh_id rows)
      → (role : Role) (s : RoleState) → SafeAt (insert_role p role) s
  unfolding insert_role
  insert_role-SafeAt fresh role s =
      guard-SafeAt (any (name_taken row) s.roles) unique_violation
        (modify (λ (t : RoleState). record t { roles = t.roles ++ row ∷ [] }) >> pure row) s
        (λ w. (
          record {
            distinct = distinct_lem w;
            owned = λ rp c e.
                let (r, (d, q)) = w.owned rp c e in
                (r, (Contains-append_left r s.roles (row ∷ []) d, q));
          },
          record {
            system_roles =
                λ r c e. (r, (Contains-append_left r s.roles (row ∷ []) c, (refl, refl, refl)));
            protected_rows = λ rp c e. c;
          },
        ))
    where
      row : Role
      row = at_fresh p role s

      distinct_lem :
          WellKept s
          → (a b : Role) → Contains a (s.roles ++ row ∷ [])
          → Contains b (s.roles ++ row ∷ [])
          → a.id ≡ b.id
          → a ≡ b
      distinct_lem w a b c d e = elim (Contains-append a s.roles (row ∷ []) c) [
        | inl x ↦ elim (Contains-append b s.roles (row ∷ []) d) [
          | inl y ↦ w.distinct a b x y e
          | inr (inl y) ↦ absurd (fresh s.roles a x (e ∙ ap (λ (r : Role). r.id) y))
          | inr (inr y) ↦ absurd y
        ]
        | inr (inr x) ↦ absurd x
        | inr (inl x) ↦ elim (Contains-append b s.roles (row ∷ []) d) [
          | inl y ↦ absurd (fresh s.roles b y (sym e ∙ ap (λ (r : Role). r.id) x))
          | inr (inl y) ↦ x ∙ sym y
          | inr (inr y) ↦ absurd y
        ]
      ]

  -- The saved role replaces one of its identifier, with the same type and key.
  module _ (role base : Role) (s : RoleState) (here : Contains base s.roles)
      (same : SameSystem base role) where
    image : Role → Role
    image r = if r.id == role.id then role else r

    image_same : WellKept s → (r : Role) → Contains r s.roles → SameSystem r (image r)
    unfolding image
    image_same w r c = elim (Bool-cases (r.id == role.id)) [
      | inr e ↦ rw e (refl, refl, refl)
      | inl e ↦
          let is : base ≡ r =
            w.distinct base r here c (sym (same.0) ∙ sym ((==_iff r.id role.id).0 e)) in
          rw e (subst (λ (x : Role). SameSystem x role) is same)
    ]

    saved_rows : (saved_in p role s).roles ≡ map image s.roles
    unfolding image
    saved_rows = p.roles.update_lem p.now role.id (λ r. role) s.roles

    image_inj :
        WellKept s
        → (a b : Role) → Contains a s.roles
        → Contains b s.roles
        → (image a).id ≡ (image b).id
        → image a ≡ image b
    image_inj w a b c d e =
        ap image (w.distinct a b c d (sym ((image_same w a c).0) ∙ e ∙ (image_same w b d).0))

    pub save_role-SafeAt : SafeAt (save_role p role) s
    unfolding save_role
    save_role-SafeAt =
        guard-SafeAt (any (name_taken role) s.roles) unique_violation
          (modify (saved_in p role) >> pure role) s
          (λ w. (
            record {
              distinct = λ a b c d e.
                  let (a', (x, f)) =
                    Contains-map_from image a s.roles (subst (Contains a) saved_rows c) in
                  let (b', (y, g)) =
                    Contains-map_from image b s.roles (subst (Contains b) saved_rows d) in
                  f
                  ∙ image_inj w a' b' x y
                      (ap (λ (r : Role). r.id) (sym f) ∙ e ∙ ap (λ (r : Role). r.id) g)
                  ∙ sym g;
              owned = λ rp c e.
                  let (r, (d, (i, t))) = w.owned rp c e in
                  let q = image_same w r d in
                  (
                    image r,
                    (
                      subst (Contains (image r)) (sym saved_rows) (Contains-map image r s.roles d),
                      (q.0 ∙ i, q.1 ∙ t),
                    ),
                  );
            },
            record {
              system_roles = λ r c e. (
                image r,
                (
                  subst (Contains (image r)) (sym saved_rows) (Contains-map image r s.roles c),
                  image_same w r c,
                ),
              );
              protected_rows = λ rp c e. c;
            },
          ))

pub record_event-SafeAt : (e : OutboxEventEntity) (s : RoleState) → SafeAt (record_event e) s
record_event-SafeAt e s = Kept-same s (record_event e s).1 refl refl

-- New protected rows are of a stored system role.
pub bulk_save-SafeAt :
    (rps : List RolePermission) (s : RoleState)
    → ((rp : RolePermission)
        → Contains rp rps
        → rp.is_protected ≡ true
        → (r : Role) × (Contains r s.roles × ((r.id ≡ rp.role_id) × (r.role_type ≡ system))))
    → SafeAt (bulk_save rps) s
unfolding bulk_save
bulk_save-SafeAt rps s owner =
    guard-SafeAt (clashes s.role_permissions rps) unique_violation (modify (with_rows rps)) s (λ w.
      (
        record {
          distinct = w.distinct;
          owned = λ rp c e. elim (Contains-append rp s.role_permissions rps c) [
            | inl d ↦ w.owned rp d e
            | inr d ↦ owner rp d e
          ];
        },
        record {
          system_roles = λ r c e. (r, (c, (refl, refl, refl)));
          protected_rows = λ rp c e. Contains-append_left rp s.role_permissions rps c;
        },
      ))

pub delete_by_role_id-SafeAt : (id : ℕ) (s : RoleState) → SafeAt (delete_by_role_id id) s
unfolding delete_by_role_id
delete_by_role_id-SafeAt id s w =
    let keep = λ (rp : RolePermission). not (of_role id rp && not rp.is_protected) in
    (
      record {
        distinct = w.distinct;
        owned = λ rp c e. w.owned rp ((select_sound keep s.role_permissions rp c).0) e;
      },
      record {
        system_roles = λ r c e. (r, (c, (refl, refl, refl)));
        protected_rows = λ rp c e. select_complete keep s.role_permissions rp c (ground arith);
      },
    )

-- A role that is deleted is no system role.
pub delete_role-SafeAt :
    (base : Role) (s : RoleState)
    → Contains base s.roles
    → is_system base.role_type ≡ false
    → SafeAt (delete_role base.id) s
unfolding delete_role
delete_role-SafeAt base s here free w = (
  record {
    distinct = λ a b c d.
        w.distinct a b ((select_sound keep s.roles a c).0) ((select_sound keep s.roles b d).0);
    owned = λ rp c e.
        let (r, (d, (i, t))) = w.owned rp ((select_sound keep_row s.role_permissions rp c).0) e in
        (r, (select_complete keep s.roles r d (other r d t), (i, t)));
  },
  record {
    system_roles =
        λ r c e. (r, (select_complete keep s.roles r c (other r c e), (refl, refl, refl)));
    protected_rows = λ rp c e.
        let (r, (d, (i, t))) = w.owned rp c e in
        select_complete keep_row s.role_permissions rp c
          (ap (λ n. not (n == base.id)) (sym i) ∙ other r d t);
  },
)
  where
    keep : Role → Bool
    keep r = not (r.id == base.id)

    keep_row : RolePermission → Bool
    keep_row rp = not (of_role base.id rp)

    other : (r : Role) → Contains r s.roles → r.role_type ≡ system → not (r.id == base.id) ≡ true
    other r c e = elim (Bool-cases (r.id == base.id)) [
      | inr f ↦ rw f refl
      | inl f ↦
          let is : r ≡ base = w.distinct r base c here ((==_iff r.id base.id).0 f) in
          let sys : is_system base.role_type ≡ true =
            ap (λ (x : Role). is_system x.role_type) (sym is) ∙ ap is_system e in
          ground arith
    ]
