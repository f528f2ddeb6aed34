-- ===== src/Roles/Permitted.antt =====
-- Changes of a role's permissions, and its deletion, keep what is protected.
use mathlib.Core.Path.{subst}
use access_service.Prelude.{
  ℕ, refl, ap, ◌∙◌, not, none, ◌&&◌, leb, pure, throw_if, when_else, ◌>>=◌, ◌>>◌, Contains,
}
use access_service.Outbox.Event.{OutboxContext}
use access_service.Permissions.Dependency.{validate_permission_set}
use access_service.Roles.Role.{
  Role, is_system, UpdatePermissionsDto, protected_of, role_version_conflict, answered,
  confirmation_required, dependency_validation_failed, cannot_delete_system_role,
  protected_capability_removal,
}
use access_service.Roles.Store.{
  RoleState, RolePlatform, RoleTx, require, delete_by_role_id, sync_role, invalidate_role,
  delete_role, count_assigned_user_groups, count_active_user_reach,
}
use access_service.Roles.Service.{
  is_stale, expected, unconfirmed, high_impact_threshold, replace_permissions, check_version,
  view_of,
}
use access_service.Roles.Changes.{
  update_permissions_locked, commit_permissions, update_permissions, delete_locked, delete, raised,
  omitted_protected, is_empty,
}
use access_service.Roles.Kept.{
  SafeAt, bind-SafeAt, pure-SafeAt, guard-SafeAt, guard_known-SafeAt, when_else-SafeAt, Kept-same,
}
use access_service.Roles.KeptSteps.{
  sync_role-SafeAt, invalidate_role-SafeAt, delete_by_role_id-SafeAt, delete_role-SafeAt,
}
use access_service.Roles.Inviolable.{Respects, protected-system, transaction}
use access_service.Roles.Steps.{require-inv}
use access_service.Roles.Protected.{
  require-SafeAt, found_lem, with_lock, replace_permissions-SafeAt, deleted_roles,
}

module _ (p : RolePlatform) (good : Respects p) (tx : RoleTx Role) (ctx : OutboxContext) where
  update_permissions_locked-SafeAt :
      (id : ℕ) (dto : UpdatePermissionsDto) (s : RoleState)
      → SafeAt (update_permissions_locked p tx ctx id dto) s
  unfolding update_permissions_locked
  update_permissions_locked-SafeAt id dto s =
      with_lock p tx ctx id dto.version
        (λ (r : Role).
          replace_permissions p tx ctx (raised p tx ctx r) dto.permission_codes
            (protected_of r.role_type r.system_role_key))
        s
        (λ r c.
          replace_permissions-SafeAt p tx ctx (raised p tx ctx r) r dto.permission_codes
            (protected_of r.role_type r.system_role_key) s c (refl, refl, refl)
            (protected-system r.role_type r.system_role_key))

  commit_permissions-SafeAt :
      (id : ℕ) (dto : UpdatePermissionsDto) (n : ℕ) (s : RoleState)
      → SafeAt (commit_permissions p tx ctx id dto n) s
  unfolding commit_permissions
  commit_permissions-SafeAt id dto n s =
      let answer = λ (u : Role). count_assigned_user_groups p u.id >>= λ (groups : ℕ).
      pure (answered (view_of p tx ctx u (groups, n))) in
      transaction p good tx (update_permissions_locked p tx ctx id dto)
        (λ (u : Role). sync_role p u >> answer u) s
        (update_permissions_locked-SafeAt id dto (p.others s))
        (λ u x.
          bind-SafeAt (sync_role p u) (λ _. answer u) x (sync_role-SafeAt p u x)
            (λ v y f. Kept-same y y refl refl))

  pub update_permissions-SafeAt :
      (id : ℕ) (dto : UpdatePermissionsDto) (s : RoleState)
      → SafeAt (update_permissions p tx ctx id dto) s
  unfolding update_permissions
  update_permissions-SafeAt id dto s =
      let codes = dto.permission_codes in
      let decide = λ (n : ℕ).
        when_else (leb high_impact_threshold n && unconfirmed dto.confirmed)
          (pure (confirmation_required none n)) (commit_permissions p tx ctx id dto n) in
      let counted = count_active_user_reach p id >>= decide in
      let checked =
        throw_if (not (validate_permission_set p.graph codes).is_valid) dependency_validation_failed
        >> counted in
      let complete = λ (r : Role).
        throw_if (not (is_empty (omitted_protected p tx ctx r codes)))
          (protected_capability_removal (omitted_protected p tx ctx r codes))
        >> checked in
      bind-SafeAt (require p id) (λ (r : Role). check_version dto.version r >> complete r) s
        (require-SafeAt p tx ctx id s)
        (λ r t e.
          guard-SafeAt (is_stale dto.version r)
            (role_version_conflict (expected dto.version) r.version) (complete r) t
            (guard-SafeAt (not (is_empty (omitted_protected p tx ctx r codes)))
              (protected_capability_removal (omitted_protected p tx ctx r codes)) checked t
              (guard-SafeAt (not (validate_permission_set p.graph codes).is_valid)
                dependency_validation_failed counted t
                (bind-SafeAt (count_active_user_reach p id) decide t (Kept-same t t refl refl)
                  (λ n x f.
                    when_else-SafeAt (leb high_impact_threshold n && unconfirmed dto.confirmed)
                      (pure (confirmation_required none n)) (commit_permissions p tx ctx id dto n) x
                      (pure-SafeAt (confirmation_required none n) x)
                      (commit_permissions-SafeAt id dto n x))))))

module _ (p : RolePlatform) (good : Respects p) (any_tx : RoleTx Role) (ctx : OutboxContext)
    (tx : RoleTx (Unit {0})) where
  delete_locked-SafeAt : (id : ℕ) (s : RoleState) → SafeAt (delete_locked p tx id) s
  unfolding delete_locked
  delete_locked-SafeAt id s =
      bind-SafeAt (require p id)
        (λ (r : Role).
          throw_if (is_system r.role_type) (cannot_delete_system_role r.id)
          >> (delete_by_role_id r.id >> delete_role r.id))
        s (require-SafeAt p any_tx ctx id s)
        (λ r t e.
          let (found, same) = require-inv p id s t r e in
          guard_known-SafeAt (is_system r.role_type) (cannot_delete_system_role r.id)
            (delete_by_role_id r.id >> delete_role r.id) t
            (λ free.
              bind-SafeAt (delete_by_role_id r.id) (λ _. delete_role r.id) t
                (delete_by_role_id-SafeAt r.id t)
                (λ u x f.
                  delete_role-SafeAt r x
                    (subst (Contains r)
                      (ap (λ (y : RoleState). y.roles) same ∙ deleted_roles r.id t x u f)
                      (found_lem p any_tx ctx id s r found))
                    free)))

  pub delete-SafeAt : (id : ℕ) (s : RoleState) → SafeAt (delete p tx id) s
  unfolding delete
  delete-SafeAt id s =
      transaction p good tx (delete_locked p tx id) (λ _. invalidate_role p id) s
        (delete_locked-SafeAt id (p.others s)) (λ u t. invalidate_role-SafeAt p id t)
