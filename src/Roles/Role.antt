-- ===== src/Roles/Role.antt =====
-- Roles: interfaces, entities, templates and errors of src/modules/roles, and the requests of
-- dto/role.dto.ts.
use access_service.Prelude.{
  ℕ, String, Bool, true, false, Option, none, some, List, [], ◌∷◌, map, select, get_or_else,
}

pub data RoleType : Type 0 where
  system custom : RoleType

pub data SystemRoleKey : Type 0 where
  employee manager administrator : SystemRoleKey

pub data RoleStatus : Type 0 where
  active_role inactive_role : RoleStatus

pub record RolePermission : Type 0 where
  pub role_id : ℕ
  pub permission_code : String
  pub is_protected : Bool

-- `permissions` is `none` where the relation was not loaded.
pub record Role : Type 0 where
  pub id : ℕ
  pub name : String
  pub description : Option String
  pub role_type : RoleType
  pub status : RoleStatus
  pub system_role_key : Option SystemRoleKey
  pub version : ℕ
  pub projection_version : ℕ
  pub created_by : Option ℕ
  pub updated_by : Option ℕ
  pub permissions : Option (List RolePermission)

abbrev pub type_text : RoleType → String
type_text system = "SYSTEM"
type_text custom = "CUSTOM"

abbrev pub key_text : SystemRoleKey → String
key_text employee = "EMPLOYEE"
key_text manager = "MANAGER"
key_text administrator = "ADMINISTRATOR"

abbrev pub is_system : RoleType → Bool
is_system system = true
is_system custom = false

abbrev pub is_administrator : Option SystemRoleKey → Bool
is_administrator (some administrator) = true
is_administrator _ = false

-- `Partial<Role>`; the first argument is the user, the second stands in for `DEFAULT_USER.userId`.
pub record RoleRequest : Type 0 where
  pub name : Option String
  pub description : Option String
  pub role_type : Option RoleType
  pub status : Option RoleStatus
  pub system_role_key : Option SystemRoleKey

unfoldable pub from_request : Option ℕ → ℕ → RoleRequest → Role
from_request user_id default_user dto = record {
  id = 0;
  name = get_or_else dto.name "";
  description = dto.description;
  role_type = get_or_else dto.role_type custom;
  status = get_or_else dto.status active_role;
  system_role_key = dto.system_role_key;
  version = 1;
  projection_version = 0;
  created_by = some (get_or_else user_id default_user);
  updated_by = some (get_or_else user_id default_user);
  permissions = none;
}

abbrev pub guarded : String → String × Bool
guarded code = (code, true)

abbrev pub open_to_change : String → String × Bool
open_to_change code = (code, false)

-- `SYSTEM_ROLE_TEMPLATES`: codes, and whether they are protected.
abbrev pub system_role_templates : SystemRoleKey → List (String × Bool)
system_role_templates employee =
    guarded "employee.view"
    ∷ guarded "location.view"
    ∷ guarded "leave.view"
    ∷ open_to_change "leave.request"
    ∷ []
system_role_templates manager =
    guarded "employee.view"
    ∷ guarded "location.view"
    ∷ guarded "leave.view"
    ∷ guarded "leave.approve"
    ∷ open_to_change "leave.request"
    ∷ []
system_role_templates administrator =
    guarded "employee.view"
    ∷ open_to_change "employee.create"
    ∷ open_to_change "employee.update"
    ∷ open_to_change "employee.archive"
    ∷ guarded "location.view"
    ∷ open_to_change "location.create"
    ∷ open_to_change "location.update"
    ∷ open_to_change "location.deactivate"
    ∷ open_to_change "location.delete"
    ∷ guarded "role.view"
    ∷ guarded "role.create"
    ∷ guarded "role.update"
    ∷ guarded "role.delete"
    ∷ guarded "leave.view"
    ∷ open_to_change "leave.approve"
    ∷ open_to_change "leave.request"
    ∷ guarded "payroll.view"
    ∷ open_to_change "payroll.run"
    ∷ []

-- `template.permissions.filter((p) => p.isProtected).map((p) => p.code)`
unfoldable pub protected_codes : SystemRoleKey → List String
protected_codes key = map (λ p. p.0) (select (λ p. p.1) (system_role_templates key))

-- The codes of a system role's template; any other role has none.
abbrev pub protected_of : RoleType → Option SystemRoleKey → List String
protected_of system (some key) = protected_codes key
protected_of _ _ = []

pub record CreateCustomRoleDto : Type 0 where
  pub name : String
  pub description : Option String
  pub permission_codes : List String

pub record CopyRoleDto : Type 0 where
  pub name : String
  pub description : Option String

pub record UpdateCustomRoleDto : Type 0 where
  pub name : String
  pub description : Option String
  pub permission_codes : List String
  pub version : Option ℕ
  pub confirmed : Option Bool

-- Where the request has no body, both are absent.
pub record DeactivateRoleDto : Type 0 where
  pub version : Option ℕ
  pub confirmed : Option Bool

pub record RenameRoleDto : Type 0 where
  pub name : String
  pub description : Option String

pub record UpdatePermissionsDto : Type 0 where
  pub permission_codes : List String
  pub version : Option ℕ
  pub confirmed : Option Bool

pub data RoleError : Type 0 where
  cannot_delete_system_role : ℕ → RoleError
  protected_capability_removal : List String → RoleError
  duplicate_role_name : String → RoleError
  critical_role_deactivation : RoleError
  role_not_found : ℕ → RoleError
  cannot_mutate_system_role : RoleError
  role_version_conflict : ℕ → ℕ → RoleError
  dependency_validation_failed : RoleError
  -- Thrown by the database and by Redis.
  unique_violation : RoleError
  cache_unavailable : RoleError

-- A role with its two counts, or the request to confirm.
pub record RoleView : Type 0 where
  pub role : Role
  pub assigned_user_group_count : Option ℕ
  pub active_user_reach_count : Option ℕ

pub data RoleAnswer : Type 0 where
  answered : RoleView → RoleAnswer
  confirmation_required : Option ℕ → ℕ → RoleAnswer
