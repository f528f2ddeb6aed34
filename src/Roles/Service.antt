-- ===== src/Roles/Service.antt =====
-- services/role.application.service.ts of src/modules/roles.
use access_service.Prelude.{
  ℕ, ◌+◌, String, Bool, false, not, Option, none, some, List, [], ◌∷◌, ◌&&◌, map, leb, ◌==◌, str_eq,
  get_or_else, is_some, pure, gets, modify, throw_if, when_else, ◌>>=◌, ◌>>◌,
}
use access_service.Prelude.Keyed.{has}
use access_service.Outbox.Event.{OutboxContext}
use access_service.Outbox.RoleEvents.{from_role_created, from_role_copied, from_permissions_updated}
use access_service.Permissions.Dependency.{validate_permission_set}
use access_service.Roles.Role.{
  Role, RolePermission, RoleRequest, RoleView, RoleAnswer, answered, confirmation_required,
  CreateCustomRoleDto, CopyRoleDto, UpdateCustomRoleDto, from_request, is_system,
  duplicate_role_name, cannot_mutate_system_role, role_version_conflict,
  dependency_validation_failed,
}
use access_service.Roles.Store.{
  RolePlatform, RoleAction, RoleTx, event_role, require, with_permissions, find_by_name,
  insert_role, save_role, count_assigned_user_group_and_user, sync_role, bulk_save,
  delete_by_role_id, record_event,
}

abbrev pub high_impact_threshold : ℕ
high_impact_threshold = 100

-- `dto.version !== undefined && role.version !== dto.version`
abbrev pub is_stale : Option ℕ → Role → Bool
is_stale none role = false
is_stale (some v) role = not (role.version == v)

abbrev pub expected : Option ℕ → ℕ
expected v = get_or_else v 0

abbrev pub check_version : Option ℕ → Role → RoleAction (Unit {0})
check_version version role =
    throw_if (is_stale version role) (role_version_conflict (expected version) role.version)

-- `confirmed !== true`
abbrev pub unconfirmed : Option Bool → Bool
unconfirmed confirmed = not (get_or_else confirmed false)

abbrev pub permission_row : ℕ → List String → String → RolePermission
permission_row role_id protected code = record {
  role_id = role_id;
  permission_code = code;
  is_protected = has code protected;
}

abbrev pub unprotected_row : ℕ → String → RolePermission
unprotected_row role_id code = record {
  role_id = role_id;
  permission_code = code;
  is_protected = false;
}

module _ (p : RolePlatform) (tx : RoleTx Role) (ctx : OutboxContext) where
  abbrev pub validate_role_name : String → RoleAction (Unit {0})
  validate_role_name name s =
      throw_if (is_some (find_by_name p name s)) (duplicate_role_name name) s

  abbrev pub check_dependencies : List String → RoleAction (Unit {0})
  check_dependencies codes =
      throw_if (not (validate_permission_set p.graph codes).is_valid) dependency_validation_failed

  unfoldable pub store_new :
      RoleRequest → List String → (Role → RoleAction (Unit {0})) → RoleAction Role
  unfolding from_request insert_role bulk_save
  store_new dto codes announce = do
    saved ← insert_role p (from_request ctx.user_id p.default_user dto)
    bulk_save (map (unprotected_row saved.id) codes)
    announce saved
    pure saved

  abbrev pub named_request : String → Option String → RoleRequest
  named_request name description = record {
    name = some name;
    description = description;
    role_type = none;
    status = none;
    system_role_key = none;
  }

  unfoldable pub create_custom : CreateCustomRoleDto → RoleAction Role
  unfolding store_new sync_role
  create_custom dto = do
    check_dependencies dto.permission_codes
    validate_role_name dto.name
    modify p.others
    created ← tx.run (
        store_new (named_request dto.name dto.description) dto.permission_codes (λ saved.
          record_event (from_role_created p.now ctx (event_role saved) dto.permission_codes)))
    sync_role p created
    pure created

  -- `dto.description ?? sourceRole.description`
  abbrev pub or_source : Option String → Option String → Option String
  or_source none source = source
  or_source (some d) source = some d

  unfoldable pub copy : ℕ → CopyRoleDto → RoleAction Role
  unfolding store_new sync_role
  copy source_role_id dto = do
    source ← require p source_role_id
    loaded ← gets (λ s. with_permissions p s source)
    validate_role_name dto.name
    modify p.others
    cloned ← tx.run (
        store_new (named_request dto.name (or_source dto.description source.description))
          (map (λ rp. rp.permission_code) (get_or_else loaded.permissions []))
          (λ saved. record_event (
            from_role_copied p.now ctx (event_role saved) source_role_id
              (map (λ rp. rp.permission_code) (get_or_else loaded.permissions [])))))
    sync_role p cloned
    pure cloned

  abbrev pub view_of : Role → ℕ × ℕ → RoleView
  view_of role (groups, users) = record {
    role = role;
    assigned_user_group_count = some groups;
    active_user_reach_count = some users;
  }

  -- The rows are those of the page that the query gives, in its order.
  unfoldable pub list_page : List Role → RoleAction (List RoleView)
  list_page [] = pure []
  list_page (role ∷ roles) = do
    counts ← count_assigned_user_group_and_user p role.id
    rest ← list_page roles
    pure (view_of role counts ∷ rest)

  unfoldable pub get_by_id : ℕ → RoleAction RoleView
  get_by_id role_id = do
    role ← require p role_id
    counts ← count_assigned_user_group_and_user p role.id
    pure (view_of role counts)

  unfoldable pub estimate_impact : ℕ → RoleAction (ℕ × ℕ)
  estimate_impact role_id = do
    role ← require p role_id
    count_assigned_user_group_and_user p role.id

  -- The row under lock, checked again.
  abbrev pub locked : ℕ → Option ℕ → RoleAction Role
  locked id version = do role ← require p id; check_version version role; pure role

  -- The rows of a role that may be deleted are replaced; the role is saved and its event recorded.
  unfoldable pub replace_permissions : Role → List String → List String → RoleAction Role
  unfolding bulk_save delete_by_role_id save_role
  replace_permissions role codes protected = do
    delete_by_role_id role.id
    bulk_save (map (permission_row role.id protected) codes)
    saved ← save_role p role
    record_event (from_permissions_updated p.now ctx (event_role saved) codes)
    pure saved

  abbrev pub is_taken_by_other : Role → Option Role → Bool
  is_taken_by_other role none = false
  is_taken_by_other role (some r) = not (r.id == role.id)

  abbrev pub check_new_name : Role → String → RoleAction (Unit {0})
  check_new_name role name s =
      throw_if (not (str_eq role.name name) && is_taken_by_other role (find_by_name p name s))
        (duplicate_role_name name) s

  abbrev pub described : UpdateCustomRoleDto → Role → Role
  described dto role = record role {
    name = dto.name;
    description = dto.description;
    version = role.version + 1;
    updated_by = ctx.user_id;
  }

  unfoldable pub update_locked : ℕ → UpdateCustomRoleDto → RoleAction Role
  unfolding replace_permissions
  update_locked id dto = do
    role ← locked id dto.version
    replace_permissions (described dto role) dto.permission_codes []

  unfoldable pub update_custom : ℕ → UpdateCustomRoleDto → RoleAction RoleAnswer
  unfolding update_locked sync_role
  update_custom id dto = do
    role ← require p id
    throw_if (is_system role.role_type) cannot_mutate_system_role
    check_version dto.version role
    check_new_name role dto.name
    check_dependencies dto.permission_codes
    counts ← count_assigned_user_group_and_user p role.id
    when_else (leb high_impact_threshold counts.1 && unconfirmed dto.confirmed)
        (pure (confirmation_required none counts.1))
        (do
          modify p.others
          updated ← tx.run (update_locked id dto)
          sync_role p updated
          pure (answered (view_of updated counts)))
