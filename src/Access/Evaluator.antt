-- ===== src/Access/Evaluator.antt =====
-- services/cumulative-access-evaluator.service.ts of src/modules/authorization. The folding of a
-- text's case is a parameter.
use access_service.Prelude.{
  String, Bool, true, false, Option, none, some, List, [], ◌∷◌, ◌&&◌, not, any, select, str_eq,
  if◌then◌else◌,
}

-- The roles, scopes and resources that the evaluator reads; a missing text is `none`.
pub record Scope : Type 0 where
  pub type_name : String
  pub ref_id : Option String

pub record EffectiveUserRole : Type 0 where
  pub role_id : String
  pub source_group_id : String
  pub scope : Scope

pub record ResourceContext : Type 0 where
  pub employee_id : Option String
  pub manager_id : Option String
  pub company_id : Option String
  pub location_id : Option String
  pub department_id : Option String

-- `!!a && a === b`
abbrev pub is_named : Option String → String → Bool
is_named none b = false
is_named (some a) b = not (str_eq a "") && str_eq a b

-- `!!ref && !!id && id.toLowerCase() === ref.toLowerCase()`
abbrev pub same_folded : (String → String) → Option String → Option String → Bool
same_folded fold none b = false
same_folded fold (some a) none = false
same_folded fold (some a) (some b) =
    not (str_eq a "") && (not (str_eq b "") && str_eq (fold b) (fold a))

module _ (fold : String → String) where
  unfoldable pub evaluate_scope : Scope → ResourceContext → String → Bool
  evaluate_scope scope target employee_id =
      if any (str_eq scope.type_name) ("TENANT" ∷ "TENANT_WIDE" ∷ [])
      then true
      else if str_eq scope.type_name "SELF"
      then is_named target.employee_id employee_id
      else if str_eq scope.type_name "DIRECT_REPORTEES"
      then is_named target.manager_id employee_id
      else if str_eq scope.type_name "COMPANY"
      then same_folded fold scope.ref_id target.company_id
      else if str_eq scope.type_name "LOCATION"
      then same_folded fold scope.ref_id target.location_id
      else if str_eq scope.type_name "DEPARTMENT"
      then same_folded fold scope.ref_id target.department_id
      else false

  -- `perms ? perms.includes(requiredPermission) : false`
  abbrev pub includes_permission : Option (List String) → String → Bool
  includes_permission none permission = false
  includes_permission (some permissions) permission = any (str_eq permission) permissions

  abbrev pub grants : String → (String → Option (List String)) → EffectiveUserRole → Bool
  grants permission role_permissions r = includes_permission (role_permissions r.role_id) permission

  -- The loop over the granting roles.
  abbrev pub any_in_scope : List EffectiveUserRole → ResourceContext → String → Bool
  any_in_scope [] target employee_id = false
  any_in_scope (r ∷ rs) target employee_id =
      let rest = any_in_scope rs target employee_id in
      if evaluate_scope r.scope target employee_id then true else rest

  abbrev pub among_granting : List EffectiveUserRole → ResourceContext → String → Bool
  among_granting [] target employee_id = false
  among_granting (r ∷ rs) target employee_id = any_in_scope (r ∷ rs) target employee_id

  unfoldable pub evaluate_access :
      String
      → List EffectiveUserRole
      → (String → Option (List String))
      → ResourceContext
      → String
      → Bool
  unfolding evaluate_scope
  evaluate_access permission [] role_permissions target employee_id = false
  evaluate_access permission (r ∷ rs) role_permissions target employee_id =
      among_granting (select (grants permission role_permissions) (r ∷ rs)) target employee_id
