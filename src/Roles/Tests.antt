-- ===== src/Roles/Tests.antt =====
-- Runs of the roles' service on tables in memory, and an instance of each theorem about it.
use access_service.Prelude.{
  ℕ, ◌+◌, ◌≡◌, ◌≢◌, ◌<◌, sym, ap, ◌∙◌, refl, String, true, false, none, some, List, [], ◌∷◌, ok,
  Contains, inl, inr, arith,
}
use access_service.Database.InMemory.{in_memory, by_copy}
use access_service.Outbox.Event.{OutboxContext}
use access_service.Permissions.Graph.{PermissionDefinition, PermissionDependencyGraph, build_graph}
use access_service.Permissions.Dependency.{validate_permission_set}
use access_service.Roles.Role.{
  Role, RolePermission, system, custom, employee, active_role, RoleView, answered,
  CreateCustomRoleDto, UpdatePermissionsDto, protected_codes,
}
use access_service.Roles.Store.{RoleState, RolePlatform, RoleTx, role_key, same_row}
use access_service.Roles.Service.{create_custom, unprotected_row}
use access_service.Roles.Changes.{update_permissions}
use access_service.Roles.Bootstrap.{Capabilities, get_bootstrap_capabilities}
use access_service.Roles.Created.{create_custom-gives_nothing}
use access_service.Roles.Blocked.{update_permissions_blocked, protected_row}
use access_service.Roles.Kept.{WellKept, Kept, Kept-same}
use access_service.Roles.Inviolable.{Respects}
use access_service.Roles.Commands.{RoleCommand, create_it, delete_it, after_all, after_all-Kept}

abbrev permission : String → String → String → PermissionDefinition
permission id resource action = record {
  id = id;
  module_name = "core";
  resource = resource;
  action = action;
  requires = none;
  entry = false;
  deprecated = false;
  deprecated_at = none;
  removed_in_version = none;
}

abbrev graph : PermissionDependencyGraph
graph = build_graph (
    permission "leave.view" "leave" "view"
    ∷ permission "employee.view" "employee" "view"
    ∷ permission "location.view" "location" "view"
    ∷ [])

abbrev next_id : List Role → ℕ
next_id [] = 1
next_id (r ∷ rows) = r.id + next_id rows

abbrev platform : RolePlatform
platform = record {
  roles = in_memory role_key same_row;
  graph = graph;
  now = 5;
  default_user = 0;
  fresh_id = next_id;
  others = λ s. s;
  counts_fail = λ s. false;
  cache_fails = λ s. false;
}

abbrev context : OutboxContext
context = record { tenant_code = 1; user_id = some 9 }

abbrev employees : Role
employees = record {
  id = 3;
  name = "Employee";
  description = none;
  role_type = system;
  status = active_role;
  system_role_key = some employee;
  version = 4;
  projection_version = 0;
  created_by = none;
  updated_by = none;
  permissions = none;
}

abbrev start : RoleState
start = record {
  roles = employees ∷ [];
  role_permissions =
      protected_row 3 "employee.view"
      ∷ protected_row 3 "location.view"
      ∷ protected_row 3 "leave.view"
      ∷ [];
  outbox = [];
  cache = λ id. none;
  user_group_roles = [];
  user_effective_roles = [];
}

abbrev tx : {A : Type 0} → RoleTx A
tx = by_copy

abbrev viewers : CreateCustomRoleDto
viewers = record {
  name = "Viewers";
  description = none;
  permission_codes = "leave.view" ∷ "employee.view" ∷ [];
}

abbrev created : Role
created = record {
  id = 4;
  name = "Viewers";
  description = none;
  role_type = custom;
  status = active_role;
  system_role_key = none;
  version = 1;
  projection_version = 0;
  created_by = some 9;
  updated_by = some 9;
  permissions = none;
}

abbrev made : RoleState
made = (create_custom platform tx context viewers start).1

creates : create_custom platform tx context viewers start ≡ (ok created, made)
unfolding create_custom validate_permission_set build_graph
creates = refl

abbrev base_codes : UpdatePermissionsDto
base_codes = record {
  permission_codes = "employee.view" ∷ "location.view" ∷ "leave.view" ∷ [];
  version = some 4;
  confirmed = some true;
}

create_custom-gives_nothing_example :
    ((code : String)
      → Contains code viewers.permission_codes
      → Contains (unprotected_row 4 code) made.role_permissions)
    × ((caps : Capabilities) × ((get_bootstrap_capabilities platform
              (some (record { version = 2; role_ids = 4 ∷ [] }))
              made
            ≡ (ok caps, made))
          × (caps.permissions ≡ [])
          × (caps.modules ≡ [])))
create_custom-gives_nothing_example =
    create_custom-gives_nothing platform tx context viewers 2 start made created creates refl

abbrev some_view : RoleView
some_view = record {
  role = employees;
  assigned_user_group_count = none;
  active_user_reach_count = none;
}

template_code : Contains "employee.view" (protected_codes employee)
unfolding protected_codes
template_code = inl refl

update_permissions_blocked_example :
    update_permissions platform tx context 3 base_codes start ≢ (ok (answered some_view), start)
update_permissions_blocked_example =
    update_permissions_blocked platform tx context 3 base_codes employee "employee.view" employees
      employees some_view start start refl refl refl template_code refl (inl refl)

positive : (rows : List Role) → 0 < next_id rows
positive [] = omega arith
positive (r ∷ rows) = omega (arith, positive rows)

below : (rows : List Role) (r : Role) → Contains r rows → r.id < next_id rows
below [] r c = absurd c
below (x ∷ rows) r (inl e) = omega (arith, ap (λ (y : Role). y.id) e, positive rows)
below (x ∷ rows) r (inr c) = omega (arith, below rows r c)

next_id-fresh : (rows : List Role) (r : Role) → Contains r rows → r.id ≢ next_id rows
next_id-fresh rows r c e = omega (arith, below rows r c)

respects : Respects platform
respects = record { others_keep = λ s w. Kept-same s s refl refl w; fresh = next_id-fresh }

only : (a : Role) → Contains a (employees ∷ []) → a ≡ employees
only a (inl e) = e
only a (inr c) = absurd c

owner : (rp : RolePermission) → Contains rp start.role_permissions → 3 ≡ rp.role_id
owner rp (inl e) = ap (λ (x : RolePermission). x.role_id) (sym e)
owner rp (inr (inl e)) = ap (λ (x : RolePermission). x.role_id) (sym e)
owner rp (inr (inr (inl e))) = ap (λ (x : RolePermission). x.role_id) (sym e)
owner rp (inr (inr (inr c))) = absurd c

start-WellKept : WellKept start
start-WellKept = record {
  distinct = λ a b c d e. only a c ∙ sym (only b d);
  owned = λ rp c e. (employees, (inl refl, (owner rp c, refl)));
}

abbrev requests : List RoleCommand
requests = create_it viewers ∷ delete_it 3 ∷ delete_it 4 ∷ []

after_all-Kept_example : Kept start (after_all platform tx tx context requests start)
after_all-Kept_example =
    after_all-Kept platform tx tx context respects requests start start-WellKept
