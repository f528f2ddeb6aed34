-- ===== src/Roles/Commands.antt =====
-- A run of any of the requests to the roles service.
use access_service.Prelude.{ℕ, refl, List, [], ◌∷◌}
use access_service.Outbox.Event.{OutboxContext}
use access_service.Roles.Role.{
  Role, UpdateCustomRoleDto, DeactivateRoleDto, RenameRoleDto, UpdatePermissionsDto,
  CreateCustomRoleDto, CopyRoleDto,
}
use access_service.Roles.Store.{RoleState, RolePlatform, RoleTx}
use access_service.Roles.Service.{update_custom, create_custom, copy}
use access_service.Roles.Changes.{
  deactivate_role, reactivate_role, rename, update_permissions, delete,
}
use access_service.Roles.Kept.{WellKept, Kept, Kept-same, Kept-trans}
use access_service.Roles.Inviolable.{
  Respects, create_custom-SafeAt, copy-SafeAt, update_custom-SafeAt,
}
use access_service.Roles.Renewed.{deactivate_role-SafeAt, reactivate_role-SafeAt, rename-SafeAt}
use access_service.Roles.Permitted.{update_permissions-SafeAt, delete-SafeAt}

-- A request to the service.
pub data RoleCommand : Type 0 where
  create_it : CreateCustomRoleDto → RoleCommand
  copy_it : ℕ → CopyRoleDto → RoleCommand
  update_it : ℕ → UpdateCustomRoleDto → RoleCommand
  deactivate_it : ℕ → DeactivateRoleDto → RoleCommand
  reactivate_it : ℕ → RoleCommand
  rename_it : ℕ → RenameRoleDto → RoleCommand
  permit_it : ℕ → UpdatePermissionsDto → RoleCommand
  delete_it : ℕ → RoleCommand

module _ (p : RolePlatform) (tx : RoleTx Role) (tx' : RoleTx (Unit {0})) (ctx : OutboxContext) where
  -- The state after a request, answered or refused.
  abbrev pub after : RoleCommand → RoleState → RoleState
  after (create_it dto) s = (create_custom p tx ctx dto s).1
  after (copy_it id dto) s = (copy p tx ctx id dto s).1
  after (update_it id dto) s = (update_custom p tx ctx id dto s).1
  after (deactivate_it id dto) s = (deactivate_role p tx ctx id dto s).1
  after (reactivate_it id) s = (reactivate_role p tx ctx id s).1
  after (rename_it id dto) s = (rename p tx ctx id dto s).1
  after (permit_it id dto) s = (update_permissions p tx ctx id dto s).1
  after (delete_it id) s = (delete p tx' id s).1

  abbrev pub after_all : List RoleCommand → RoleState → RoleState
  after_all [] s = s
  after_all (c ∷ cs) s = after_all cs (after c s)

  module _ (good : Respects p) where
    after-Kept : (c : RoleCommand) (s : RoleState) → WellKept s → Kept s (after c s)
    after-Kept (create_it dto) s = create_custom-SafeAt p good tx ctx dto s
    after-Kept (copy_it id dto) s = copy-SafeAt p good tx ctx id dto s
    after-Kept (update_it id dto) s = update_custom-SafeAt p good tx ctx id dto s
    after-Kept (deactivate_it id dto) s = deactivate_role-SafeAt p good tx ctx id dto s
    after-Kept (reactivate_it id) s = reactivate_role-SafeAt p good tx ctx id s
    after-Kept (rename_it id dto) s = rename-SafeAt p good tx ctx id dto s
    after-Kept (permit_it id dto) s = update_permissions-SafeAt p good tx ctx id dto s
    after-Kept (delete_it id) s = delete-SafeAt p good tx ctx tx' id s

    -- If other processes respect this too and new identifiers are not in use: after any requests to
    -- the service, answered or refused, identifiers are distinct, protected permissions are of
    -- system roles, and every system role, with its type and key, and every protected permission is
    -- still there.
    pub after_all-Kept :
        (cs : List RoleCommand) (s : RoleState) → WellKept s → Kept s (after_all cs s)
    after_all-Kept [] s w = Kept-same s s refl refl w
    after_all-Kept (c ∷ cs) s w =
        Kept-trans s (after c s) (after_all cs (after c s)) (after-Kept c s w)
          (after_all-Kept cs (after c s))
