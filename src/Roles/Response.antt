-- ===== src/Roles/Response.antt =====
-- What the controller answers: dto/role.dto.ts and controllers/role.controller.ts of
-- src/modules/roles.
use access_service.Prelude.{
  ℕ, ◌≡◌, refl, String, Bool, Option, none, some, List, [], map, ◌==◌, get_or_else,
}
use access_service.Roles.Role.{
  RoleType, RoleStatus, SystemRoleKey, RoleView, RoleAnswer, answered, confirmation_required,
}

-- Fields that are `undefined` where the object is no role are optional; the two dates are left out.
pub record RoleResponse : Type 0 where
  pub id : Option ℕ
  pub name : Option String
  pub description : Option String
  pub role_type : Option RoleType
  pub system_role_key : Option SystemRoleKey
  pub status : Option RoleStatus
  pub version : Option ℕ
  pub permissions : List (String × Bool)
  pub user_count : ℕ
  pub is_unassigned : Option Bool
  pub assigned_user_group_count : ℕ
  pub active_user_reach_count : ℕ

abbrev pub unassigned : Option ℕ → Option Bool
unassigned none = none
unassigned (some n) = some (n == 0)

unfoldable pub from_role : RoleView → RoleResponse
from_role v = record {
  id = some v.role.id;
  name = some v.role.name;
  description = v.role.description;
  role_type = some v.role.role_type;
  system_role_key = v.role.system_role_key;
  status = some v.role.status;
  version = some v.role.version;
  permissions =
      map (λ rp. (rp.permission_code, rp.is_protected)) (get_or_else v.role.permissions []);
  user_count = get_or_else v.active_user_reach_count 0;
  is_unassigned = unassigned v.assigned_user_group_count;
  assigned_user_group_count = get_or_else v.assigned_user_group_count 0;
  active_user_reach_count = get_or_else v.active_user_reach_count 0;
}

-- `fromRole` of an object that has none of a role's fields.
abbrev pub no_role : RoleResponse
no_role = record {
  id = none;
  name = none;
  description = none;
  role_type = none;
  system_role_key = none;
  status = none;
  version = none;
  permissions = [];
  user_count = 0;
  is_unassigned = none;
  assigned_user_group_count = 0;
  active_user_reach_count = 0;
}

-- The request to confirm is an object literal, so it is no instance of the class that the controller
-- tests for, and goes through `fromRole` like a role.
unfoldable pub respond : RoleAnswer → RoleResponse
unfolding from_role
respond (answered v) = from_role v
respond (confirmation_required groups users) = no_role

-- Every request to confirm is answered alike, and without its counts.
confirmation_lost :
    (groups groups' : Option ℕ) (users users' : ℕ)
    → respond (confirmation_required groups users) ≡ respond (confirmation_required groups' users')
unfolding respond
confirmation_lost groups groups' users users' = refl
