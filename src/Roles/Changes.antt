-- ===== src/Roles/Changes.antt =====
-- The other changes of services/role.application.service.ts of src/modules/roles: status, name,
-- permissions and deletion.
use access_service.Prelude.{
  ℕ, ◌+◌, String, Bool, true, false, not, Option, none, some, List, [], ◌∷◌, ◌&&◌, select, ltb, leb,
  str_eq, pure, modify, throw_if, when_else, ◌>>=◌, ◌>>◌,
}
use access_service.Prelude.Keyed.{has}
use access_service.Outbox.Event.{OutboxContext}
use access_service.Outbox.RoleEvents.{
  from_role_deactivated, from_role_reactivated, from_rename_role,
}
use access_service.Roles.Role.{
  Role, RoleStatus, RoleView, RoleAnswer, answered, confirmation_required, DeactivateRoleDto,
  RenameRoleDto, UpdatePermissionsDto, is_system, is_administrator, protected_of, active_role,
  inactive_role, cannot_delete_system_role, protected_capability_removal,
  critical_role_deactivation,
}
use access_service.Roles.Store.{
  RolePlatform, RoleAction, RoleTx, event_role, require, save_role, count_active_user_reach,
  count_assigned_user_groups, count_assigned_user_group_and_user, sync_role, invalidate_role,
  delete_by_role_id, delete_role, record_event,
}
use access_service.Roles.Service.{
  check_version, unconfirmed, high_impact_threshold, check_dependencies, validate_role_name,
  view_of, locked, replace_permissions,
}

abbrev pub is_empty : List String → Bool
is_empty [] = true
is_empty (x ∷ xs) = false

module _ (p : RolePlatform) (tx : RoleTx Role) (ctx : OutboxContext) where
  abbrev pub with_status : RoleStatus → Role → Role
  with_status status role = record role {
    status = status;
    version = role.version + 1;
    updated_by = ctx.user_id;
  }

  unfoldable pub deactivate_locked : ℕ → DeactivateRoleDto → ℕ × ℕ → RoleAction Role
  unfolding save_role
  deactivate_locked id dto counts = do
    role ← locked p tx ctx id dto.version
    saved ← save_role p (with_status inactive_role role)
    record_event
        (from_role_deactivated p.now ctx (event_role saved) (some counts.0) (some counts.1))
    pure saved

  unfoldable pub deactivate_role : ℕ → DeactivateRoleDto → RoleAction RoleAnswer
  unfolding deactivate_locked sync_role
  deactivate_role id dto = do
    role ← require p id
    throw_if (is_system role.role_type && is_administrator role.system_role_key)
        critical_role_deactivation
    check_version dto.version role
    counts ← count_assigned_user_group_and_user p role.id
    when_else (ltb 0 counts.0 && unconfirmed dto.confirmed)
        (pure (confirmation_required (some counts.0) counts.1))
        (do
          modify p.others
          updated ← tx.run (deactivate_locked id dto counts)
          sync_role p updated
          pure (answered (view_of p tx ctx updated counts)))

  unfoldable pub reactivate_locked : ℕ → RoleAction Role
  unfolding save_role
  reactivate_locked id = do
    role ← locked p tx ctx id none
    saved ← save_role p (with_status active_role role)
    record_event (from_role_reactivated p.now ctx (event_role saved))
    pure saved

  unfoldable pub reactivate_role : ℕ → RoleAction RoleView
  unfolding reactivate_locked sync_role
  reactivate_role id = do
    role ← require p id
    modify p.others
    updated ← tx.run (reactivate_locked id)
    sync_role p updated
    counts ← count_assigned_user_group_and_user p updated.id
    pure (view_of p tx ctx updated counts)

  abbrev pub new_description : Option String → Option String → Option String
  new_description none old = old
  new_description (some d) old = some d

  abbrev pub renamed : RenameRoleDto → Role → Role
  renamed dto role = record role {
    name = dto.name;
    description = new_description dto.description role.description;
    version = role.version + 1;
    updated_by = ctx.user_id;
  }

  unfoldable pub rename_locked : ℕ → RenameRoleDto → RoleAction Role
  unfolding save_role
  rename_locked id dto = do
    role ← locked p tx ctx id none
    when_else (str_eq role.name dto.name) (pure role) (do
      validate_role_name p tx ctx dto.name
      saved ← save_role p (renamed dto role)
      record_event (from_rename_role p.now ctx (event_role saved) role.name saved.name)
      pure saved)

  unfoldable pub rename : ℕ → RenameRoleDto → RoleAction Role
  unfolding rename_locked sync_role
  rename id dto = do
    modify p.others
    updated ← tx.run (rename_locked id dto)
    sync_role p updated
    pure updated

  abbrev pub omitted_protected : Role → List String → List String
  omitted_protected role codes =
      select (λ code. not (has code codes)) (protected_of role.role_type role.system_role_key)

  abbrev pub raised : Role → Role
  raised role = record role { version = role.version + 1; updated_by = ctx.user_id }

  unfoldable pub update_permissions_locked : ℕ → UpdatePermissionsDto → RoleAction Role
  unfolding replace_permissions
  update_permissions_locked id dto = do
    role ← locked p tx ctx id dto.version
    replace_permissions p tx ctx (raised role) dto.permission_codes
        (protected_of role.role_type role.system_role_key)

  unfoldable pub commit_permissions : ℕ → UpdatePermissionsDto → ℕ → RoleAction RoleAnswer
  unfolding update_permissions_locked sync_role
  commit_permissions id dto affected = do
    modify p.others
    updated ← tx.run (update_permissions_locked id dto)
    sync_role p updated
    groups ← count_assigned_user_groups p updated.id
    pure (answered (view_of p tx ctx updated (groups, affected)))

  unfoldable pub update_permissions : ℕ → UpdatePermissionsDto → RoleAction RoleAnswer
  unfolding commit_permissions
  update_permissions id dto = do
    role ← require p id
    check_version dto.version role
    throw_if (not (is_empty (omitted_protected role dto.permission_codes)))
        (protected_capability_removal (omitted_protected role dto.permission_codes))
    check_dependencies p tx ctx dto.permission_codes
    affected ← count_active_user_reach p id
    when_else (leb high_impact_threshold affected && unconfirmed dto.confirmed)
        (pure (confirmation_required none affected)) (commit_permissions id dto affected)

module _ (p : RolePlatform) (tx : RoleTx (Unit {0})) where
  unfoldable pub delete_locked : ℕ → RoleAction (Unit {0})
  unfolding delete_by_role_id delete_role
  delete_locked role_id = do
    role ← require p role_id
    throw_if (is_system role.role_type) (cannot_delete_system_role role.id)
    delete_by_role_id role.id
    delete_role role.id

  unfoldable pub delete : ℕ → RoleAction (Unit {0})
  unfolding delete_locked invalidate_role
  delete role_id = do modify p.others; tx.run (delete_locked role_id); invalidate_role p role_id
