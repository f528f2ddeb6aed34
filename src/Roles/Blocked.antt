-- ===== src/Roles/Blocked.antt =====
-- A change of the permissions of a system role whose protected rows are stored.
use mathlib.Core.Path.{subst}
use access_service.UserGroups.Aggregate.{unique}
use access_service.Prelude.{
  length, ℕ, ◌≡◌, ◌≢◌, sym, ap, ◌∙◌, String, true, false, not, Option, none, some, List, [], ◌∷◌,
  ◌&&◌, map, select, ◌==◌, ==_refl, if◌then◌else◌, leb, eq_iff, ok, pure, throw_if, when_else,
  ◌>>=◌, ◌>>◌, bind-inv, guard-inv, when_else-inv, Contains, Contains-map, any_of_Contains, inl,
  inr, arith, Bool-cases,
}
use access_service.Prelude.Keyed.{has, Contains-of_has}
use access_service.Database.InMemory.{select_complete}
use access_service.Database.{committed}
use access_service.Outbox.Event.{OutboxContext}
use access_service.Outbox.RoleEvents.{from_permissions_updated}
use access_service.Permissions.Dependency.{validate_permission_set}
use access_service.Roles.Role.{
  Role, RolePermission, system, SystemRoleKey, RoleView, answered, confirmation_required,
  UpdatePermissionsDto, protected_codes, protected_of, protected_capability_removal,
  dependency_validation_failed, role_version_conflict,
}
use access_service.Roles.Store.{
  RoleState, RolePlatform, RoleTx, find_by_id, require, save_role, bulk_save, delete_by_role_id,
  of_role, same_permission, clashes, sync_role, record_event, event_role,
  count_assigned_user_groups, count_active_user_reach,
}
use access_service.Roles.Service.{
  permission_row, locked, replace_permissions, is_stale, expected, unconfirmed,
  high_impact_threshold, view_of, check_version,
}
use access_service.Roles.Changes.{
  update_permissions, commit_permissions, update_permissions_locked, raised, omitted_protected,
  is_empty,
}
use access_service.Roles.Steps.{require-inv, locked-inv, bulk_save-inv}

some_inj : {A : Type 0} (a b : A) → Path (Option A) (some a) (some b) → a ≡ b
some_inj a b h = ground arith

clashes_of_same :
    (rp x : RolePermission) (rows rps : List RolePermission)
    → Contains rp rows
    → Contains x rps
    → same_permission x rp ≡ true
    → clashes rows rps ≡ true
clashes_of_same rp x rows [] c d e = absurd d
clashes_of_same rp x rows (y ∷ rps) c (inl d) e =
    ground (
      arith,
      any_of_Contains (same_permission y) rp rows c ((λ i. same_permission (sym d i) rp) ∙ e),
    )
clashes_of_same rp x rows (y ∷ rps) c (inr d) e =
    ground (arith, clashes_of_same rp x (y ∷ rows) rps (inr c) d e)

-- No code is missing where the list of omitted ones is empty.
none_omitted :
    (codes protected : List String) (code : String)
    → is_empty (select (λ c. not (has c codes)) protected) ≡ true
    → Contains code protected
    → has code codes ≡ true
none_omitted codes [] code h c = absurd c
none_omitted codes (x ∷ xs) code h c = elim (Bool-cases (has x codes)) [
  | inr e ↦ ground arith
  | inl e ↦ elim c [
    | inl same ↦ ap (λ z. has z codes) same ∙ e
    | inr d ↦ none_omitted codes xs code (ground arith) d
  ]
]

-- The stored row of a protected code.
abbrev pub protected_row : ℕ → String → RolePermission
protected_row id code = record { role_id = id; permission_code = code; is_protected = true }

module _ (p : RolePlatform) (tx : RoleTx Role) (ctx : OutboxContext) where
  replace_permissions_clashes :
      (role r : Role) (codes protected : List String) (code : String) (s t : RoleState)
      → Contains (protected_row role.id code) s.role_permissions
      → has code codes ≡ true
      → replace_permissions p tx ctx role codes protected s ≢ (ok r, t)
  unfolding replace_permissions delete_by_role_id
  replace_permissions_clashes role r codes protected code s t c h e =
      let kept =
        select (λ rp. not (of_role role.id rp && not rp.is_protected)) s.role_permissions in
      let d = record s { role_permissions = kept } in
      let rps = map (permission_row role.id protected) codes in
      let (u, (s1, (e1, h1))) =
        bind-inv
          (λ (_ : Unit {0}). save_role p role >>= λ (saved : Role).
            record_event (from_permissions_updated p.now ctx (event_role saved) codes)
            >> pure saved)
          r t (bulk_save rps) d e in
      let clash =
        clashes_of_same (protected_row role.id code) (permission_row role.id protected code) kept
          rps
          (select_complete (λ rp. not (of_role role.id rp && not rp.is_protected))
            s.role_permissions (protected_row role.id code) c (ground (arith, ==_refl role.id)))
          (Contains-map (permission_row role.id protected) code codes
            (Contains-of_has code codes h))
          (ground (arith, ==_refl role.id, eq_iff code code)) in
      ground (arith, clash, (bulk_save-inv rps d s1 u e1).0)

  locked_clashes :
      (id : ℕ) (dto : UpdatePermissionsDto) (role r : Role) (code : String) (s t : RoleState)
      → find_by_id p id s ≡ some role
      → Contains (protected_row role.id code) s.role_permissions
      → has code dto.permission_codes ≡ true
      → update_permissions_locked p tx ctx id dto s ≢ (ok r, t)
  unfolding update_permissions_locked
  locked_clashes id dto role r code s t f c h e =
      let after = λ (x : Role).
        replace_permissions p tx ctx (raised p tx ctx x) dto.permission_codes
          (protected_of x.role_type x.system_role_key) in
      let (x, (s1, (e1, h1))) = bind-inv after r t (locked p tx ctx id dto.version) s e in
      let (found, same, _) = locked-inv p tx ctx id dto.version s s1 x e1 in
      let is : role ≡ x = some_inj role x (sym f ∙ found) in
      replace_permissions_clashes (raised p tx ctx x) r dto.permission_codes
        (protected_of x.role_type x.system_role_key) code s1 t
        (subst (Contains (protected_row x.id code))
          (ap (λ (y : RoleState). y.role_permissions) same)
          (subst (λ (y : Role). Contains (protected_row y.id code) s.role_permissions) is c))
        h h1

  commit_blocked :
      (id : ℕ) (dto : UpdatePermissionsDto) (n : ℕ) (role : Role) (code : String) (view : RoleView)
      (s t : RoleState)
      → find_by_id p id (p.others s) ≡ some role
      → Contains (protected_row role.id code) (p.others s).role_permissions
      → has code dto.permission_codes ≡ true
      → commit_permissions p tx ctx id dto n s ≢ (ok (answered view), t)
  unfolding commit_permissions
  commit_blocked id dto n role code view s t f c h e =
      let finish = λ (u : Role).
        sync_role p u
        >> (count_assigned_user_groups p u.id >>= λ (groups : ℕ).
            pure (answered (view_of p tx ctx u (groups, n)))) in
      let (u, (s1, (e1, h1))) =
        bind-inv finish (answered view) t (tx.run (update_permissions_locked p tx ctx id dto))
          (p.others s) e in
      locked_clashes id dto role u code (p.others s) s1 f c h
        (committed tx (update_permissions_locked p tx ctx id dto) (p.others s) s1 u e1)

  abbrev reach_of : ℕ → RoleState → ℕ
  reach_of id x =
      if p.counts_fail x
      then 0
      else length (unique (map (λ y. y.1) (select (λ y. y.0 == id) x.user_effective_roles)))

  -- Take a system role with a protected code in its template, whose protected row is stored. Then no
  -- request to update the permissions of this role is answered with the updated role: either the
  -- code is missing and refused, or its row is inserted a second time.
  pub update_permissions_blocked :
      (id : ℕ) (dto : UpdatePermissionsDto) (key : SystemRoleKey) (code : String)
      (role locked_role : Role) (view : RoleView) (s t : RoleState)
      → find_by_id p id s ≡ some role
      → role.role_type ≡ system
      → role.system_role_key ≡ some key
      → Contains code (protected_codes key)
      → find_by_id p id (p.others s) ≡ some locked_role
      → Contains (protected_row locked_role.id code) (p.others s).role_permissions
      → update_permissions p tx ctx id dto s ≢ (ok (answered view), t)
  unfolding update_permissions
  update_permissions_blocked id dto key code role locked_role view s t f is_sys has_key c g row e =
      let codes = dto.permission_codes in
      let decide = λ (n : ℕ).
        when_else (leb high_impact_threshold n && unconfirmed dto.confirmed)
          (pure (confirmation_required none n)) (commit_permissions p tx ctx id dto n) in
      let checked = λ (r : Role).
        throw_if (not (validate_permission_set p.graph codes).is_valid) dependency_validation_failed
        >> (count_active_user_reach p id >>= decide) in
      let guarded = λ (r : Role).
        throw_if (not (is_empty (omitted_protected p tx ctx r codes)))
          (protected_capability_removal (omitted_protected p tx ctx r codes))
        >> checked r in
      let (r, (s1, (e1, h1))) =
        bind-inv (λ (r : Role). check_version dto.version r >> guarded r) (answered view) t
          (require p id) s e in
      let (found, same) = require-inv p id s s1 r e1 in
      let is : role ≡ r = some_inj role r (sym f ∙ found) in
      let (_, h2) =
        guard-inv (is_stale dto.version r) (role_version_conflict (expected dto.version) r.version)
          (guarded r) s1 t (answered view) h1 in
      let (complete, h3) =
        guard-inv (not (is_empty (omitted_protected p tx ctx r codes)))
          (protected_capability_removal (omitted_protected p tx ctx r codes)) (checked r) s1 t
          (answered view) h2 in
      let (_, h4) =
        guard-inv (not (validate_permission_set p.graph codes).is_valid)
          dependency_validation_failed (count_active_user_reach p id >>= decide) s1 t
          (answered view) h3 in
      elim (when_else-inv (leb high_impact_threshold (reach s1) && unconfirmed dto.confirmed)
        (pure (confirmation_required none (reach s1)))
        (commit_permissions p tx ctx id dto (reach s1)) s1 (ok (answered view), t) h4) [
          | inl (_, k) ↦ ground (arith, ap (λ x. x.0) k)
          | inr (_, k) ↦
              commit_blocked id dto (reach s1) locked_role code view s t g row
                (none_omitted codes (protected_codes key) code (complete_of r is complete) c)
                ((λ i. commit_permissions p tx ctx id dto (reach s1) (same i)) ∙ k)
        ]
    where
      reach : RoleState → ℕ
      reach x = reach_of id x

      complete_of :
          (r : Role)
          → role ≡ r
          → not (is_empty (omitted_protected p tx ctx r dto.permission_codes)) ≡ false
          → is_empty (select (λ x. not (has x dto.permission_codes)) (protected_codes key)) ≡ true
      complete_of r is h =
          let h' =
            (λ i. not (is_empty (omitted_protected p tx ctx (is i) dto.permission_codes))) ∙ h in
          let h'' =
            (λ i. not (
              is_empty (
                select (λ x. not (has x dto.permission_codes))
                  (protected_of (sym is_sys i) (sym has_key i)))))
            ∙ h' in
          ground arith
