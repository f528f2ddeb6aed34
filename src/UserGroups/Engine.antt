-- ===== src/UserGroups/Engine.antt =====
-- services/user-group-matching.engine.ts. The numbers of JavaScript are a parameter: their texts,
-- how a text is read, and their orders.
use access_service.Prelude.{
  ℕ, String, Bool, true, false, Option, none, some, List, [], ◌∷◌, ◌&&◌, ◌||◌, not, any, all, ltb,
  ◌==◌, str_eq, if◌then◌else◌, get_or_else,
}
use access_service.UserGroups.Text.{lower}
use access_service.UserGroups.Rule.{
  Value, undefined, null, bool, num, text, MatchingRuleClause, is_op, is_one_of,
}

pub record Numbers (Num : Type 0) : Type 0 where
  -- `String(n)`
  pub show : Num → String
  -- `Number(s)` of a text
  pub parse : String → Num
  pub of_nat : ℕ → Num
  pub nan : Num
  pub less : Num → Num → Bool
  pub less_eq : Num → Num → Bool
  -- `Boolean(n)`
  pub truthy : Num → Bool

-- The columns of employee_references that the engine names; `other` is any other property.
pub record EmployeeReference (Num : Type 0) : Type 0 where
  pub employment_status : Value Num
  pub company_id : Value Num
  pub location_id : Value Num
  pub department_id : Value Num
  pub grade_id : Value Num
  pub job_title_id : Value Num
  pub reportees_count : ℕ
  pub other : String → Value Num

module _ {Num : Type 0} (js : Numbers Num) where
  -- `String(v)`
  abbrev pub to_text : Value Num → String
  to_text undefined = "undefined"
  to_text null = "null"
  to_text (bool true) = "true"
  to_text (bool false) = "false"
  to_text (num n) = js.show n
  to_text (text s) = s

  -- `Number(v)`
  abbrev pub to_number : Value Num → Num
  to_number undefined = js.nan
  to_number null = js.of_nat 0
  to_number (bool true) = js.of_nat 1
  to_number (bool false) = js.of_nat 0
  to_number (num n) = n
  to_number (text s) = js.parse s

  -- `Boolean(v)`
  abbrev pub to_bool : Value Num → Bool
  to_bool undefined = false
  to_bool null = false
  to_bool (bool b) = b
  to_bool (num n) = js.truthy n
  to_bool (text s) = not (str_eq s "")

  abbrev pub is_nullish : Value Num → Bool
  is_nullish undefined = true
  is_nullish null = true
  is_nullish _ = false

  unfoldable pub extract_employee_value : String → EmployeeReference Num → Value Num
  extract_employee_value attribute employee =
      if str_eq attribute "employmentStatus"
      then employee.employment_status
      else if str_eq attribute "companyId"
      then employee.company_id
      else if str_eq attribute "locationId"
      then employee.location_id
      else if str_eq attribute "departmentId"
      then employee.department_id
      else if str_eq attribute "gradeId"
      then employee.grade_id
      else if str_eq attribute "jobTitleId"
      then employee.job_title_id
      else if str_eq attribute "reporteesCount"
      then num (js.of_nat employee.reportees_count)
      else employee.other attribute

  -- `values.includes(String(v))`
  abbrev pub listed : Option (List (Value Num)) → Value Num → Bool
  listed values v = any (λ w. str_eq (to_text w) (to_text v)) (get_or_else values [])

  abbrev pub exists_value : Value Num → Bool
  exists_value (text s) = not (str_eq s "")
  exists_value v = not (is_nullish v)

  -- The `switch` over the operator.
  unfoldable pub compare_value : List ℕ → MatchingRuleClause Num → Value Num → Bool
  compare_value op c v =
      if is_one_of op ("eq" ∷ "equals" ∷ [])
      then str_eq (to_text v) (to_text c.value)
      else if is_one_of op ("neq" ∷ "not_equals" ∷ [])
      then not (str_eq (to_text v) (to_text c.value))
      else if is_op op "in"
      then not (is_nullish v) && listed c.values v
      else if is_op op "not_in"
      then is_nullish v || not (listed c.values v)
      else if is_one_of op ("gt" ∷ "greater_than" ∷ [])
      then js.less (to_number c.value) (to_number v)
      else if is_one_of op ("gte" ∷ "greater_than_or_equal" ∷ [])
      then js.less_eq (to_number c.value) (to_number v)
      else if is_one_of op ("lt" ∷ "less_than" ∷ [])
      then js.less (to_number v) (to_number c.value)
      else if is_one_of op ("lte" ∷ "less_than_or_equal" ∷ [])
      then js.less_eq (to_number v) (to_number c.value)
      else if is_op op "is_true"
      then to_bool v
      else if is_op op "is_false"
      then not (to_bool v)
      else if is_op op "exists"
      then exists_value v
      else false

  -- `clause.value !== undefined ? Boolean(clause.value) : true`
  abbrev pub expected : Value Num → Bool
  expected undefined = true
  expected v = to_bool v

  -- `hasReportees`: any other operator falls through to the `switch`.
  abbrev pub compare_reportees : List ℕ → MatchingRuleClause Num → ℕ → Bool → Bool
  compare_reportees op c count general =
      if is_one_of op ("is_true" ∷ "eq" ∷ "equals" ∷ [])
      then (if expected c.value then ltb 0 count else count == 0)
      else if is_op op "is_false"
      then count == 0
      else general

  unfoldable pub evaluate_clause : MatchingRuleClause Num → EmployeeReference Num → Bool
  unfolding compare_value extract_employee_value lower
  evaluate_clause c employee =
      if str_eq c.attribute ""
      then false
      else let op = lower c.operator in
        let general = compare_value op c (extract_employee_value c.attribute employee) in
        if str_eq c.attribute "hasReportees"
        then compare_reportees op c employee.reportees_count general
        else general

  unfoldable pub evaluate : List (MatchingRuleClause Num) → EmployeeReference Num → Bool
  unfolding evaluate_clause
  evaluate [] employee = false
  evaluate (c ∷ cs) employee = all (λ d. evaluate_clause d employee) (c ∷ cs)

-- The columns that `mapAttributeToColumn` knows.
abbrev pub column_of : String → Option String
column_of attribute =
    if str_eq attribute "employmentStatus"
    then some "employment_status"
    else if str_eq attribute "companyId"
    then some "company_id"
    else if str_eq attribute "locationId"
    then some "location_id"
    else if str_eq attribute "departmentId"
    then some "department_id"
    else if str_eq attribute "gradeId"
    then some "grade_id"
    else if str_eq attribute "jobTitleId"
    then some "job_title_id"
    else if str_eq attribute "reporteesCount"
    then some "reportees_count"
    else none
