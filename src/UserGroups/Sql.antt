-- ===== src/UserGroups/Sql.antt =====
-- What the query of services/user-group-matching.engine.ts selects. The comparisons of the database
-- are an interface with what its documentation says of texts, nulls and numbers.
use access_service.Prelude.{
  ℕ, zero, suc, ◌≡◌, ◌⊎◌, String, Bool, true, false, Option, none, some, List, [], ◌∷◌, map, not,
  any, all, ltb, ◌==◌, str_eq, if◌then◌else◌, Contains, All,
}
use access_service.UserGroups.Text.{lower, codes}
use access_service.UserGroups.Rule.{Value, undefined, null, bool, num, text, MatchingRuleClause}
use access_service.UserGroups.Engine.{Numbers, EmployeeReference, expected}
use access_service.UserGroups.Query.{
  SqlOperator, equal, different_or_null, any_of, none_of_or_null, greater, greater_or_equal, less,
  less_or_equal, Condition, in_tenant, some_reportees, no_reportees, compares, present, Parameter,
  tenant, single, several, Query,
}

-- `satisfies column op v p` is the truth of `v op p` on a value of the column and a parameter. A
-- text is canonical where the column writes it as it reads it: an identifier in lower case. A number
-- fits where it is a value of the column's type: an integer in range for `reportees_count`; others
-- are refused, not compared.
pub record Sql {Num : Type 0} (js : Numbers Num) : Type 1 where
  pub Canonical : String → String → Type 0
  pub Fits : String → Num → Type 0
  pub satisfies : String → SqlOperator → Value Num → Parameter Num → Bool
  pub non_empty : Value Num → Bool
  pub equal-null : (c t : String) → satisfies c equal null (single (text t)) ≡ false
  pub equal-text :
      (c s t : String)
      → Canonical c s
      → Canonical c t
      → satisfies c equal (text s) (single (text t)) ≡ str_eq s t
  pub different-null : (c t : String) → satisfies c different_or_null null (single (text t)) ≡ true
  pub different-text :
      (c s t : String)
      → Canonical c s
      → Canonical c t
      → satisfies c different_or_null (text s) (single (text t)) ≡ not (str_eq s t)
  pub any-null :
      (c : String) (ts : List String) → satisfies c any_of null (several (map text ts)) ≡ false
  pub any-text :
      (c s : String) (ts : List String)
      → Canonical c s
      → All (Canonical c) ts
      → satisfies c any_of (text s) (several (map text ts)) ≡ any (λ t. str_eq t s) ts
  pub none-null :
      (c : String) (ts : List String)
      → satisfies c none_of_or_null null (several (map text ts)) ≡ true
  pub none-text :
      (c s : String) (ts : List String)
      → Canonical c s
      → All (Canonical c) ts
      → satisfies c none_of_or_null (text s) (several (map text ts))
        ≡ not (any (λ t. str_eq t s) ts)
  pub greater-num :
      (c : String) (m n : Num)
      → Fits c m
      → Fits c n
      → satisfies c greater (num m) (single (num n)) ≡ js.less n m
  pub greater_or_equal-num :
      (c : String) (m n : Num)
      → Fits c m
      → Fits c n
      → satisfies c greater_or_equal (num m) (single (num n)) ≡ js.less_eq n m
  pub less-num :
      (c : String) (m n : Num)
      → Fits c m
      → Fits c n
      → satisfies c less (num m) (single (num n)) ≡ js.less m n
  pub less_or_equal-num :
      (c : String) (m n : Num)
      → Fits c m
      → Fits c n
      → satisfies c less_or_equal (num m) (single (num n)) ≡ js.less_eq m n
  pub non_empty-null : non_empty null ≡ false
  pub non_empty-text : (s : String) → non_empty (text s) ≡ not (str_eq s "")

-- The parameter of the placeholder `$(k + 1)`.
abbrev pub parameter : {A : Type 0} → List A → ℕ → Option A
parameter [] k = none
parameter (p ∷ ps) zero = some p
parameter (p ∷ ps) (suc k) = parameter ps k

abbrev pub number_of : {A : Type 0} → List A → ℕ → Option A
number_of ps zero = none
number_of ps (suc k) = parameter ps k

module _ {Num : Type 0} (js : Numbers Num) where
  -- The columns of entities/employee-reference.entity.ts.
  abbrev pub column_value : String → EmployeeReference Num → Value Num
  column_value column e =
      if str_eq column "employment_status"
      then e.employment_status
      else if str_eq column "company_id"
      then e.company_id
      else if str_eq column "location_id"
      then e.location_id
      else if str_eq column "department_id"
      then e.department_id
      else if str_eq column "grade_id"
      then e.grade_id
      else if str_eq column "job_title_id"
      then e.job_title_id
      else if str_eq column "reportees_count"
      then num (js.of_nat e.reportees_count)
      else undefined

  abbrev pub is_tenant : ℕ → Option (Parameter Num) → Bool
  is_tenant t (some (tenant u)) = t == u
  is_tenant t _ = false

  module _ (sql : Sql js) where
    abbrev pub compared : String → SqlOperator → Value Num → Option (Parameter Num) → Bool
    compared column op v none = false
    compared column op v (some p) = sql.satisfies column op v p

    -- The truth of a condition on a row of a tenant.
    abbrev pub holds : List (Parameter Num) → ℕ → EmployeeReference Num → Condition → Bool
    holds ps t e (in_tenant k) = is_tenant t (number_of ps k)
    holds ps t e some_reportees = ltb 0 e.reportees_count
    holds ps t e no_reportees = e.reportees_count == 0
    holds ps t e (compares column op k) =
        compared column op (column_value column e) (number_of ps k)
    holds ps t e (present column) = sql.non_empty (column_value column e)

    abbrev pub selects : ℕ → EmployeeReference Num → Query Num → Bool
    selects t e q = all (holds q.params t e) q.conditions

    -- A column of texts holds null or a canonical text.
    abbrev pub IsTextual : String → Value Num → Type 0
    IsTextual column v = (v ≡ null) ⊎ ((s : String) × ((v ≡ text s) × sql.Canonical column s))

    -- The attributes that stand for columns of texts, with the columns.
    abbrev pub text_columns : List (String × String)
    text_columns =
        ("employmentStatus", "employment_status")
        ∷ ("companyId", "company_id")
        ∷ ("locationId", "location_id")
        ∷ ("departmentId", "department_id")
        ∷ ("gradeId", "grade_id")
        ∷ ("jobTitleId", "job_title_id")
        ∷ []

    -- A row as the table holds it.
    abbrev pub IsRow : EmployeeReference Num → Type 0
    IsRow e =
        All (λ c. IsTextual c.1 (column_value c.1 e)) text_columns
        × sql.Fits "reportees_count" (js.of_nat e.reportees_count)

    abbrev pub HasOperator : MatchingRuleClause Num → List (List ℕ) → Type 0
    HasOperator c ops = Contains (lower c.operator) ops

    -- The clauses that mean the same to the database and to the engine.
    pub data IsPortable (c : MatchingRuleClause Num) : Type 0 where
      equality :
          (column t : String)
          → Contains (c.attribute, column) text_columns
          → HasOperator c (codes "eq" ∷ codes "equals" ∷ codes "neq" ∷ codes "not_equals" ∷ [])
          → c.value ≡ text t
          → str_eq "null" t ≡ false
          → sql.Canonical column t
          → IsPortable c
      membership :
          (column : String) (ts : List String)
          → Contains (c.attribute, column) text_columns
          → HasOperator c (codes "in" ∷ codes "not_in" ∷ [])
          → c.values ≡ some (map text ts)
          → All (sql.Canonical column) ts
          → IsPortable c
      presence : c.attribute ≡ "employmentStatus" → lower c.operator ≡ codes "exists" → IsPortable c
      order :
          (n : Num)
          → c.attribute ≡ "reporteesCount"
          → HasOperator c (
              codes "gt"
              ∷ codes "greater_than"
              ∷ codes "gte"
              ∷ codes "greater_than_or_equal"
              ∷ codes "lt"
              ∷ codes "less_than"
              ∷ codes "lte"
              ∷ codes "less_than_or_equal"
              ∷ [])
          → c.value ≡ num n
          → sql.Fits "reportees_count" n
          → IsPortable c
      no_reportees_asked :
          c.attribute ≡ "hasReportees" → lower c.operator ≡ codes "is_false" → IsPortable c
      reportees_asked :
          (b : Bool)
          → c.attribute ≡ "hasReportees"
          → lower c.operator ≡ codes "eq"
          → c.value ≡ bool b
          → IsPortable c
      reportees_required :
          c.attribute ≡ "hasReportees"
          → lower c.operator ≡ codes "is_true"
          → expected js c.value ≡ true
          → IsPortable c
