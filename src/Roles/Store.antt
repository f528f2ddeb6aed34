-- ===== src/Roles/Store.antt =====
-- What the roles' service shares: its tables (repositories/role.repository.ts,
-- role-permission.repository.ts), the outbox and the cache (services/role-cache.service.ts of
-- src/modules/roles). Rows are those of the request's tenant.
use access_service.Prelude.{
  ℕ, String, Bool, false, not, Option, none, some, List, [], ◌∷◌, ◌++◌, ◌&&◌, ◌||◌, map, select,
  any, length, ◌==◌, if◌then◌else◌, str_eq, get_or_else, Action, pure, gets, modify, or_throw,
  throw_if, ◌>>=◌, ◌>>◌,
}
use access_service.Database.{Repository, Transaction}
use access_service.Outbox.Event.{OutboxEventEntity, save_event}
use access_service.Outbox.RoleEvents.{EventRole}
use access_service.Permissions.Graph.{PermissionDependencyGraph}
use access_service.UserGroups.Aggregate.{unique}
use access_service.Roles.Role.{
  Role, RolePermission, RoleStatus, RoleType, SystemRoleKey, RoleError, role_not_found,
  unique_violation, cache_unavailable, type_text, key_text,
}

pub record CachedRoleData : Type 0 where
  pub role_id : ℕ
  pub name : String
  pub role_type : RoleType
  pub system_role_key : Option SystemRoleKey
  pub status : RoleStatus
  pub version : ℕ
  pub permissions : List (String × Bool)

pub record RoleState : Type 0 where
  pub roles : List Role
  pub role_permissions : List RolePermission
  pub outbox : List OutboxEventEntity
  pub cache : ℕ → Option CachedRoleData
  -- Role and group, role and user.
  pub user_group_roles : List (ℕ × ℕ)
  pub user_effective_roles : List (ℕ × ℕ)

abbrev pub same_row : ℕ → Role → Role
same_row now r = r

abbrev pub role_key : Role → ℕ
role_key r = r.id

-- `others` is what other processes commit before a transaction takes its lock.
pub record RolePlatform : Type 0 where
  pub roles : Repository Role role_key same_row
  pub graph : PermissionDependencyGraph
  pub now : ℕ
  pub default_user : ℕ
  pub fresh_id : List Role → ℕ
  pub others : RoleState → RoleState
  pub counts_fail : RoleState → Bool
  pub cache_fails : RoleState → Bool

abbrev pub RoleAction : Type 0 → Type 0
RoleAction A = Action RoleState RoleError A

abbrev pub RoleTx : Type 0 → Type 0
RoleTx A = Transaction RoleState RoleError A

abbrev map_option : {A B : Type 0} → (A → B) → Option A → Option B
map_option f none = none
map_option f (some a) = some (f a)

-- What the events read of a role.
abbrev pub event_role : Role → EventRole
event_role r = record {
  id = r.id;
  name = r.name;
  role_type = type_text r.role_type;
  system_role_key = map_option key_text r.system_role_key;
  version = r.version;
}

abbrev pub of_role : ℕ → RolePermission → Bool
of_role id rp = rp.role_id == id

abbrev pub same_permission : RolePermission → RolePermission → Bool
same_permission a b = a.role_id == b.role_id && str_eq a.permission_code b.permission_code

-- The unique index on role and code.
abbrev pub clashes : List RolePermission → List RolePermission → Bool
clashes rows [] = false
clashes rows (rp ∷ rps) = any (same_permission rp) rows || clashes (rp ∷ rows) rps

-- The unique index on the tenant's names.
abbrev pub name_taken : Role → Role → Bool
name_taken role r = str_eq r.name role.name && not (r.id == role.id)

module _ (p : RolePlatform) where
  abbrev pub find_by_id : ℕ → RoleState → Option Role
  find_by_id id s = p.roles.find_one (λ r. r.id == id) s.roles

  -- `findById(id, { required: true })`
  abbrev pub require : ℕ → RoleAction Role
  require id s = or_throw (find_by_id id s) (role_not_found id) s

  abbrev pub with_permissions : RoleState → Role → Role
  with_permissions s r = record r { permissions = some (select (of_role r.id) s.role_permissions) }

  abbrev pub find_by_name : String → RoleState → Option Role
  find_by_name name s = p.roles.find_one (λ r. str_eq r.name name) s.roles

  -- `save` of an entity without identifier, and of a stored one.
  unfoldable pub insert_role : Role → RoleAction Role
  insert_role role s =
      let row = record role { id = p.fresh_id s.roles } in
      (throw_if (any (name_taken row) s.roles) unique_violation
          >> (modify (λ t. record t { roles = t.roles ++ row ∷ [] }) >> pure row))
        s

  unfoldable pub save_role : Role → RoleAction Role
  save_role role s =
      (throw_if (any (name_taken role) s.roles) unique_violation
          >> (modify (λ t. record t { roles = p.roles.update p.now role.id (λ r. role) t.roles })
              >> pure role))
        s

  abbrev pub count_active_user_reach : ℕ → RoleAction ℕ
  count_active_user_reach role_id = gets (λ s.
      if p.counts_fail s
      then 0
      else length (unique (map (λ x. x.1) (select (λ x. x.0 == role_id) s.user_effective_roles))))

  abbrev pub count_assigned_user_groups : ℕ → RoleAction ℕ
  count_assigned_user_groups role_id = gets (λ s.
      if p.counts_fail s
      then 0
      else length (unique (map (λ x. x.1) (select (λ x. x.0 == role_id) s.user_group_roles))))

  abbrev pub count_assigned_user_group_and_user : ℕ → RoleAction (ℕ × ℕ)
  count_assigned_user_group_and_user role_id = do
    groups ← count_assigned_user_groups role_id
    users ← count_active_user_reach role_id
    pure (groups, users)

  unfoldable pub sync_role : Role → RoleAction (Unit {0})
  sync_role role s =
      let cached : CachedRoleData = record {
        role_id = role.id;
        name = role.name;
        role_type = role.role_type;
        system_role_key = role.system_role_key;
        status = role.status;
        version = role.version;
        permissions =
            map (λ rp. (rp.permission_code, rp.is_protected)) (get_or_else role.permissions []);
      } in
      (throw_if (p.cache_fails s) cache_unavailable
          >> modify
              (λ t. record t { cache = λ id. if id == role.id then some cached else t.cache id }))
        s

  unfoldable pub get_role : ℕ → RoleAction (Option CachedRoleData)
  get_role role_id s =
      (throw_if (p.cache_fails s) cache_unavailable >> gets (λ t. t.cache role_id)) s

  unfoldable pub invalidate_role : ℕ → RoleAction (Unit {0})
  invalidate_role role_id s =
      (throw_if (p.cache_fails s) cache_unavailable
          >> modify (λ t. record t { cache = λ id. if id == role_id then none else t.cache id }))
        s

-- Every row given is new.
unfoldable pub bulk_save : List RolePermission → RoleAction (Unit {0})
bulk_save rps s =
    (throw_if (clashes s.role_permissions rps) unique_violation
        >> modify (λ t. record t { role_permissions = t.role_permissions ++ rps }))
      s

-- Protected rows stay.
unfoldable pub delete_by_role_id : ℕ → RoleAction (Unit {0})
delete_by_role_id role_id = modify (λ s. record s {
  role_permissions =
      select (λ rp. not (of_role role_id rp && not rp.is_protected)) s.role_permissions;
})

-- The rows of the role's permissions go with it.
unfoldable pub delete_role : ℕ → RoleAction (Unit {0})
delete_role role_id = modify (λ s. record s {
  roles = select (λ r. not (r.id == role_id)) s.roles;
  role_permissions = select (λ rp. not (of_role role_id rp)) s.role_permissions;
})

abbrev pub record_event : OutboxEventEntity → RoleAction (Unit {0})
record_event e = modify (λ s. record s { outbox = save_event e s.outbox })
