-- ===== src/UserGroups/Tests.antt =====
-- Runs of the user groups' code on a concrete platform, and an instance of each theorem.
use access_service.Prelude.{
  err, ℕ, ◌+◌, ◌≡◌, refl, ap, inl, inr, String, Bool, true, false, none, some, List, [], ◌∷◌, map,
  ◌&&◌, ◌||◌, not, any, ltb, leb, ◌==◌, str_eq, if◌then◌else◌, ok,
}
use access_service.UserGroups.Text.{lower, codes}
use access_service.UserGroups.Rule.{
  Value, undefined, null, bool, num, text, MatchingRuleClause, clause, RawRule, rule, validate_rule,
}
use access_service.UserGroups.Scope.{company, tenant_wide, ScopeConfig, is_anchored}
use access_service.UserGroups.Engine.{Numbers, EmployeeReference, evaluate, expected}
use access_service.UserGroups.Query.{
  SqlOperator, equal, different_or_null, any_of, none_of_or_null, greater, greater_or_equal, less,
  less_or_equal, Parameter, single, several, build_matching_query,
}
use access_service.UserGroups.Sql.{Sql, selects, IsPortable, equality, order, IsRow}
use access_service.UserGroups.Aggregate.{
  deactivate, reactivate, already_inactive, ◌>>=◌, UserGroup, active, contains, is_empty,
  assign_roles, unassign_roles, replace_roles, update_scope, scope_config,
}
use access_service.UserGroups.Numbering.{IsScoped, build_matching_query-IsScoped}
use access_service.UserGroups.Matching.{build_matching_query-selects, equals_reportees_unrestricted}
use access_service.UserGroups.Roles.{replace_roles-IsTarget, assign_roles-IsUnion}
use access_service.UserGroups.Undone.{unassign_roles-assign_roles}
use access_service.UserGroups.Lifecycle.{update_scope-HasReference, HasReference}
use access_service.UserGroups.Accepted.{validate_rule-IsAccepted, IsAccepted}

-- Natural numbers as the numbers of the platform.
abbrev js : Numbers ℕ
js = record {
  show = λ n. if n == 0 then "0" else "1";
  parse = λ s. if str_eq s "" then 0 else 1;
  of_nat = λ n. n;
  nan = 0;
  less = ltb;
  less_eq = leb;
  truthy = λ n. ltb 0 n;
}

abbrev is_text : String → Value ℕ → Bool
is_text s (text t) = str_eq t s
is_text s _ = false

abbrev satisfies : String → SqlOperator → Value ℕ → Parameter ℕ → Bool
satisfies c equal (text s) (single (text t)) = str_eq s t
satisfies c different_or_null null p = true
satisfies c different_or_null (text s) (single (text t)) = not (str_eq s t)
satisfies c any_of (text s) (several vs) = any (is_text s) vs
satisfies c none_of_or_null null p = true
satisfies c none_of_or_null (text s) (several vs) = not (any (is_text s) vs)
satisfies c greater (num m) (single (num n)) = ltb n m
satisfies c greater_or_equal (num m) (single (num n)) = leb n m
satisfies c less (num m) (single (num n)) = ltb m n
satisfies c less_or_equal (num m) (single (num n)) = leb m n
satisfies _ _ _ _ = false

abbrev non_empty : Value ℕ → Bool
non_empty (text s) = not (str_eq s "")
non_empty _ = false

any-texts :
    (s : String) (ts : List String) → any (is_text s) (map text ts) ≡ any (λ t. str_eq t s) ts
any-texts s [] = refl
any-texts s (t ∷ ts) = ap (◌||◌ (str_eq t s)) (any-texts s ts)

abbrev sql : Sql js
sql = record {
  Canonical = λ c s. Unit;
  Fits = λ c n. Unit;
  satisfies = satisfies;
  non_empty = non_empty;
  equal-null = λ c t. refl;
  equal-text = λ c s t h k. refl;
  different-null = λ c t. refl;
  different-text = λ c s t h k. refl;
  any-null = λ c ts. refl;
  any-text = λ c s ts h k. any-texts s ts;
  none-null = λ c ts. refl;
  none-text = λ c s ts h k. ap not (any-texts s ts);
  greater-num = λ c m n h k. refl;
  greater_or_equal-num = λ c m n h k. refl;
  less-num = λ c m n h k. refl;
  less_or_equal-num = λ c m n h k. refl;
  non_empty-null = refl;
  non_empty-text = λ s. refl;
}

abbrev in_sales : MatchingRuleClause ℕ
in_sales = record {
  attribute = "departmentId";
  operator = "EQ";
  value = text "sales";
  values = none;
}

abbrev over_two : MatchingRuleClause ℕ
over_two = record { attribute = "reporteesCount"; operator = "gt"; value = num 2; values = none }

abbrev leads : MatchingRuleClause ℕ
leads = record { attribute = "hasReportees"; operator = "equals"; value = bool true; values = none }

abbrev lead : EmployeeReference ℕ
lead = record {
  employment_status = text "ACTIVE";
  company_id = text "acme";
  location_id = null;
  department_id = text "sales";
  grade_id = null;
  job_title_id = null;
  reportees_count = 3;
  other = λ a. undefined;
}

abbrev lead-IsRow : IsRow js sql lead
lead-IsRow = (
  (
    inr ("ACTIVE", (refl, tt)),
    (inr ("acme", (refl, tt)), (inl refl, (inr ("sales", (refl, tt)), (inl refl, (inl refl, tt))))),
  ),
  tt,
)

in_sales-IsPortable : IsPortable js sql in_sales
unfolding lower
in_sales-IsPortable =
    equality "department_id" "sales" (inr (inr (inr (inl refl)))) (inl refl) refl refl tt

over_two-IsPortable : IsPortable js sql over_two
unfolding lower
over_two-IsPortable = order 2 refl (inl refl) refl tt

build_matching_query-IsScoped_example :
    IsScoped 7 (build_matching_query 7 (in_sales ∷ over_two ∷ []))
build_matching_query-IsScoped_example = build_matching_query-IsScoped 7 (in_sales ∷ over_two ∷ [])

build_matching_query-selects_example :
    selects js sql 7 lead (build_matching_query 7 (in_sales ∷ over_two ∷ []))
    ≡ ((7 == 7) && evaluate js (in_sales ∷ over_two ∷ []) lead)
build_matching_query-selects_example =
    build_matching_query-selects js sql 7 7 lead in_sales (over_two ∷ []) lead-IsRow
      (in_sales-IsPortable, (over_two-IsPortable, tt))

lead_matches : evaluate js (in_sales ∷ over_two ∷ []) lead ≡ true
unfolding evaluate
lead_matches = refl

lead_selected : selects js sql 7 lead (build_matching_query 7 (in_sales ∷ over_two ∷ [])) ≡ true
unfolding build_matching_query
lead_selected = refl

leads_equals : lower leads.operator ≡ codes "equals"
unfolding lower
leads_equals = refl

equals_reportees_unrestricted_example :
    (validate_rule (rule "all" (some (clause leads ∷ []))) ≡ ok ("hasReportees" ∷ []))
    × (evaluate js (leads ∷ []) lead ≡ (
        if expected js leads.value then ltb 0 lead.reportees_count else lead.reportees_count == 0))
    × (build_matching_query 7 (leads ∷ []) ≡ build_matching_query 7 [])
equals_reportees_unrestricted_example =
    equals_reportees_unrestricted js 7 lead leads refl refl leads_equals refl

abbrev sales_rule : RawRule ℕ
sales_rule = rule "all" (some (clause in_sales ∷ clause over_two ∷ clause in_sales ∷ []))

sales_keys : validate_rule sales_rule ≡ ok ("departmentId" ∷ "reporteesCount" ∷ [])
unfolding validate_rule
sales_keys = refl

validate_rule-IsAccepted_example : IsAccepted sales_rule ("departmentId" ∷ "reporteesCount" ∷ [])
validate_rule-IsAccepted_example =
    validate_rule-IsAccepted sales_rule ("departmentId" ∷ "reporteesCount" ∷ []) sales_keys

abbrev sales : UserGroup ℕ
sales = record {
  id = some 1;
  tenant_code = 7;
  name = "Sales";
  description = none;
  status = active;
  scope_type = tenant_wide;
  scope_ref_id = none;
  matching_rule = sales_rule;
  rule_attribute_keys = "departmentId" ∷ "reporteesCount" ∷ [];
  version = 4;
  projection_version = 4;
  assigned_role_ids = 10 ∷ 11 ∷ [];
  created_by = none;
  updated_by = none;
}

replace_roles-IsTarget_example :
    let (h, added, removed) = replace_roles (11 ∷ 12 ∷ 11 ∷ []) (some 2) sales in
    ((id : ℕ)
      → (contains h.assigned_role_ids id ≡ contains (11 ∷ 12 ∷ 11 ∷ []) id)
        × (contains added id
            ≡ (contains (11 ∷ 12 ∷ 11 ∷ []) id && not (contains sales.assigned_role_ids id)))
        × (contains removed id
            ≡ (contains sales.assigned_role_ids id && not (contains (11 ∷ 12 ∷ 11 ∷ []) id))))
    × (h.version ≡ sales.version + 1)
replace_roles-IsTarget_example = replace_roles-IsTarget (11 ∷ 12 ∷ 11 ∷ []) (some 2) sales

assign_roles-IsUnion_example :
    let (h, added) = assign_roles (11 ∷ 12 ∷ []) (some 2) sales in
    ((id : ℕ)
      → (contains h.assigned_role_ids id
          ≡ (contains sales.assigned_role_ids id || contains (11 ∷ 12 ∷ []) id))
        × (contains added id
            ≡ (contains (11 ∷ 12 ∷ []) id && not (contains sales.assigned_role_ids id))))
    × (h.version ≡ (if is_empty added then sales.version else sales.version + 1))
assign_roles-IsUnion_example = assign_roles-IsUnion (11 ∷ 12 ∷ []) (some 2) sales

unassign_roles-assign_roles_example :
    let (h, added) = assign_roles (11 ∷ 12 ∷ []) (some 2) sales in
    let (back, removed) = unassign_roles added (some 3) h in
    (back.assigned_role_ids ≡ sales.assigned_role_ids)
    × (removed ≡ added)
    × (back.version ≡ (if is_empty added then sales.version else sales.version + 2))
unassign_roles-assign_roles_example =
    unassign_roles-assign_roles (11 ∷ 12 ∷ []) (some 2) (some 3) sales

off_and_on :
    (deactivate (some 2) sales >>= reactivate (some 3))
    ≡ ok (record sales { updated_by = some 3; version = sales.version + 1 + 1 })
unfolding deactivate reactivate
off_and_on = refl

off_twice : (deactivate (some 2) sales >>= deactivate (some 3)) ≡ err already_inactive
unfolding deactivate
off_twice = refl

abbrev acme : ScopeConfig
acme = record { scope_type = company; scope_ref_id = some "acme" }

abbrev acme_sales : UserGroup ℕ
acme_sales = record sales {
  scope_type = company;
  scope_ref_id = some "acme";
  updated_by = some 2;
  version = 5;
}

sales_scoped :
    update_scope "COMPANY" (some " acme ") (some 2) sales
    ≡ ok (acme_sales, scope_config sales, acme)
unfolding update_scope
sales_scoped = refl

update_scope-HasReference_example :
    (scope_config acme_sales ≡ acme)
    × (scope_config sales ≡ scope_config sales)
    × (acme_sales.version ≡ sales.version + 1)
    × HasReference (is_anchored acme.scope_type) (some " acme ") acme.scope_ref_id
update_scope-HasReference_example =
    update_scope-HasReference "COMPANY" (some " acme ") (some 2) sales acme_sales
      (scope_config sales) acme sales_scoped
