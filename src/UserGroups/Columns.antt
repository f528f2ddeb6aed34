-- ===== src/UserGroups/Columns.antt =====
-- How the columns of services/user-group-matching.engine.ts compare in memory and in the query, and
-- what a condition adds to it.
use mathlib.Core.Path.{subst}
use access_service.Prelude.{
  ℕ, suc, ◌≡◌, refl, sym, ap, ◌∙◌, inl, inr, String, Bool, true, false, some, List, [], ◌∷◌, ◌++◌,
  map, ◌&&◌, ◌||◌, not, any, all, str_eq, Contains, All, length, arith,
}
use access_service.UserGroups.Text.{lower}
use access_service.UserGroups.Rule.{Value, text, MatchingRuleClause}
use access_service.UserGroups.Engine.{
  Numbers, EmployeeReference, evaluate_clause, extract_employee_value, column_of, compare_value,
  to_text, listed, is_nullish,
}
use access_service.UserGroups.Query.{
  Condition, Parameter, compares, Query, SqlOperator, add_clause, add_column, bind, require, single,
  several, equal, different_or_null, any_of, none_of_or_null,
}
use access_service.UserGroups.Sql.{
  Sql, parameter, number_of, column_value, holds, compared, text_columns, IsTextual,
}

pub all-append :
    {A : Type 0} (p : A → Bool) (xs ys : List A) → all p (xs ++ ys) ≡ (all p xs && all p ys)
all-append p [] ys = refl
all-append p (x ∷ xs) ys = ground (arith, all-append p xs ys)

-- The placeholder of a parameter finds it, whatever is appended later.
parameter-found :
    {A : Type 0} (ps : List A) (v : A) (rest : List A)
    → parameter ((ps ++ v ∷ []) ++ rest) (length ps) ≡ some v
parameter-found [] v rest = refl
parameter-found (p ∷ ps) v rest = parameter-found ps v rest

abbrev pub Mapped : {Num : Type 0} → Numbers Num → String → String → Type 0
Mapped {Num} js a column =
    (column_of a ≡ some column)
    × (str_eq a "" ≡ false)
    × (str_eq a "hasReportees" ≡ false)
    × ((e : EmployeeReference Num) → extract_employee_value js a e ≡ column_value js column e)

module _ {Num : Type 0} (js : Numbers Num) where
  Mapped-congr :
      (a column : String)
      → Mapped js a column
      → (b : String × String) → b ≡ (a, column)
      → Mapped js b.0 b.1
  Mapped-congr a column m b e = subst (λ c. Mapped js c.0 c.1) (sym e) m

  pub Mapped-text_columns :
      (sql : Sql js) (a column : String)
      → Contains (a, column) (text_columns js sql)
      → Mapped js a column
  unfolding extract_employee_value
  Mapped-text_columns sql a column (inl e) =
      Mapped-congr "employmentStatus" "employment_status" (refl, refl, refl, λ x. refl) (a, column)
        e
  Mapped-text_columns sql a column (inr (inl e)) =
      Mapped-congr "companyId" "company_id" (refl, refl, refl, λ x. refl) (a, column) e
  Mapped-text_columns sql a column (inr (inr (inl e))) =
      Mapped-congr "locationId" "location_id" (refl, refl, refl, λ x. refl) (a, column) e
  Mapped-text_columns sql a column (inr (inr (inr (inl e)))) =
      Mapped-congr "departmentId" "department_id" (refl, refl, refl, λ x. refl) (a, column) e
  Mapped-text_columns sql a column (inr (inr (inr (inr (inl e))))) =
      Mapped-congr "gradeId" "grade_id" (refl, refl, refl, λ x. refl) (a, column) e
  Mapped-text_columns sql a column (inr (inr (inr (inr (inr (inl e)))))) =
      Mapped-congr "jobTitleId" "job_title_id" (refl, refl, refl, λ x. refl) (a, column) e
  Mapped-text_columns sql a column (inr (inr (inr (inr (inr (inr h)))))) = absurd h

  module _ (c : MatchingRuleClause Num) (column : String) (m : Mapped js c.attribute column) where
    pub add_clause-column :
        (q : Query Num) → add_clause c q ≡ add_column (lower c.operator) c column q
    unfolding add_clause
    add_clause-column q = rw (m.0, m.1, m.2) refl

    pub evaluate_clause-column :
        (e : EmployeeReference Num)
        → evaluate_clause js c e ≡ compare_value js (lower c.operator) c (column_value js column e)
    unfolding evaluate_clause
    evaluate_clause-column e = rw (m.1, m.2, m.3 e) refl

and_true : (b : Bool) → (b && true) ≡ b
and_true true = refl
and_true false = refl

module _ {Num : Type 0} (js : Numbers Num) (sql : Sql js) (t : ℕ) (e : EmployeeReference Num) where
  abbrev pub MeansSame : MatchingRuleClause Num → Query Num → Type 0
  MeansSame c q =
      (P rest : List (Parameter Num))
      → P ≡ (add_clause c q).params ++ rest
      → all (holds js sql P t e) (add_clause c q).conditions
        ≡ (all (holds js sql P t e) q.conditions && evaluate_clause js c e)

  module _ (c : MatchingRuleClause Num) (q : Query Num) where
    pub MeansSame-require :
        (k : Condition)
        → add_clause c q ≡ require k q
        → ((P : List (Parameter Num)) → holds js sql P t e k ≡ evaluate_clause js c e)
        → MeansSame c q
    MeansSame-require k r h P rest w =
        rw
          (
            r,
            all-append (holds js sql P t e) q.conditions (k ∷ []),
            h P,
            and_true (evaluate_clause js c e),
          )
          refl

    pub MeansSame-bind :
        (column : String) (op : SqlOperator) (v : Parameter Num)
        → add_clause c q ≡ bind column op v q
        → sql.satisfies column op (column_value js column e) v ≡ evaluate_clause js c e
        → MeansSame c q
    MeansSame-bind column op v r h P rest w =
        let k = compares column op (suc (length q.params)) in
        let params : P ≡ (q.params ++ v ∷ []) ++ rest = w ∙ ap (λ x. x.params ++ rest) r in
        let found : number_of P (suc (length q.params)) ≡ some v =
          ap (λ xs. number_of xs (suc (length q.params))) params
          ∙ parameter-found q.params v rest in
        let true_of : holds js sql P t e k ≡ evaluate_clause js c e =
          ap (compared js sql column op (column_value js column e)) found ∙ h in
        rw
          (
            r,
            all-append (holds js sql P t e) q.conditions (k ∷ []),
            true_of,
            and_true (evaluate_clause js c e),
          )
          refl

module _ {Num : Type 0} (js : Numbers Num) (sql : Sql js) (column : String) where
  any_text :
      (s : String) (ts : List String)
      → any (λ w. str_eq (to_text js w) s) (map text ts) ≡ any (λ t. str_eq t s) ts
  any_text s [] = refl
  any_text s (t ∷ ts) = ap (◌||◌ (str_eq t s)) (any_text s ts)

  module _ (v : Value Num) (t : String) (n : str_eq "null" t ≡ false)
      (k : sql.Canonical column t) where
    pub equal-IsTextual :
        IsTextual js sql column v
        → sql.satisfies column equal v (single (text t)) ≡ str_eq (to_text js v) t
    equal-IsTextual (inl h) = rw (h, sql.equal-null column t, n) refl
    equal-IsTextual (inr (s, (h, c))) = rw (h, sql.equal-text column s t c k) refl

    pub different-IsTextual :
        IsTextual js sql column v
        → sql.satisfies column different_or_null v (single (text t)) ≡ not (str_eq (to_text js v) t)
    different-IsTextual (inl h) = rw (h, sql.different-null column t, n) refl
    different-IsTextual (inr (s, (h, c))) = rw (h, sql.different-text column s t c k) refl

  module _ (v : Value Num) (ts : List String) (k : All (sql.Canonical column) ts) where
    pub any-IsTextual :
        IsTextual js sql column v
        → sql.satisfies column any_of v (several (map text ts))
          ≡ (not (is_nullish js v) && listed js (some (map text ts)) v)
    any-IsTextual (inl h) = rw (h, sql.any-null column ts) refl
    any-IsTextual (inr (s, (h, c))) = rw (h, sql.any-text column s ts c k, any_text s ts) refl

    pub none-IsTextual :
        IsTextual js sql column v
        → sql.satisfies column none_of_or_null v (several (map text ts))
          ≡ (is_nullish js v || not (listed js (some (map text ts)) v))
    none-IsTextual (inl h) = rw (h, sql.none-null column ts) refl
    none-IsTextual (inr (s, (h, c))) = rw (h, sql.none-text column s ts c k, any_text s ts) refl
