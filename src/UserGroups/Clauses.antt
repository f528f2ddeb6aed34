-- ===== src/UserGroups/Clauses.antt =====
-- Clause by clause, the query of services/user-group-matching.engine.ts against its evaluation in
-- memory.
use access_service.Prelude.{
  ℕ, ◌≡◌, refl, sym, ◌∙◌, inl, inr, String, Bool, true, false, some, List, [], ◌∷◌, map, str_eq,
  All, get_or_else,
}
use access_service.UserGroups.Text.{lower, codes}
use access_service.UserGroups.Rule.{bool, num, text, MatchingRuleClause}
use access_service.UserGroups.Engine.{
  Numbers, EmployeeReference, evaluate_clause, extract_employee_value, compare_value, expected,
}
use access_service.UserGroups.Query.{
  Parameter, present, some_reportees, no_reportees, Query, SqlOperator, add_clause, add_column,
  add_reportees, bind, single, several, equal, different_or_null, any_of, none_of_or_null, greater,
  greater_or_equal, less, less_or_equal,
}
use access_service.UserGroups.Sql.{Sql, column_value, IsTextual, HasOperator}
use access_service.UserGroups.Columns.{
  Mapped, MeansSame, MeansSame-require, MeansSame-bind, add_clause-column, evaluate_clause-column,
  equal-IsTextual, different-IsTextual, any-IsTextual, none-IsTextual,
}

module _ {Num : Type 0} (js : Numbers Num) (sql : Sql js) (t : ℕ) (e : EmployeeReference Num)
    (c : MatchingRuleClause Num) (q : Query Num) where
  abbrev pub Same : Type 0
  Same = MeansSame js sql t e c q

  module _ (column : String) (m : Mapped js c.attribute column) where
    Same-bind :
        (op : SqlOperator) (v : Parameter Num)
        → add_column (lower c.operator) c column q ≡ bind column op v q
        → sql.satisfies column op (column_value js column e) v
          ≡ compare_value js (lower c.operator) c (column_value js column e)
        → Same
    Same-bind op v r h =
        MeansSame-bind js sql t e c q column op v (add_clause-column js c column m q ∙ r)
          (h ∙ sym (evaluate_clause-column js c column m e))

    module _ (x : IsTextual js sql column (column_value js column e)) where
      pub Same-equality :
          (u : String)
          → c.value ≡ text u
          → str_eq "null" u ≡ false
          → sql.Canonical column u
          → HasOperator js sql c
              (codes "eq" ∷ codes "equals" ∷ codes "neq" ∷ codes "not_equals" ∷ [])
          → Same
      unfolding add_column compare_value
      Same-equality u cv n k (inl o) =
          Same-bind equal (single c.value) (rw o refl)
            (rw (o, cv) (equal-IsTextual js sql column (column_value js column e) u n k x))
      Same-equality u cv n k (inr (inl o)) =
          Same-bind equal (single c.value) (rw o refl)
            (rw (o, cv) (equal-IsTextual js sql column (column_value js column e) u n k x))
      Same-equality u cv n k (inr (inr (inl o))) =
          Same-bind different_or_null (single c.value) (rw o refl)
            (rw (o, cv) (different-IsTextual js sql column (column_value js column e) u n k x))
      Same-equality u cv n k (inr (inr (inr (inl o)))) =
          Same-bind different_or_null (single c.value) (rw o refl)
            (rw (o, cv) (different-IsTextual js sql column (column_value js column e) u n k x))
      Same-equality u cv n k (inr (inr (inr (inr h)))) = absurd h

      pub Same-membership :
          (us : List String)
          → c.values ≡ some (map text us)
          → All (sql.Canonical column) us
          → HasOperator js sql c (codes "in" ∷ codes "not_in" ∷ [])
          → Same
      unfolding add_column compare_value
      Same-membership us cv k (inl o) =
          Same-bind any_of (several (get_or_else c.values [])) (rw o refl)
            (rw (o, cv) (any-IsTextual js sql column (column_value js column e) us k x))
      Same-membership us cv k (inr (inl o)) =
          Same-bind none_of_or_null (several (get_or_else c.values [])) (rw o refl)
            (rw (o, cv) (none-IsTextual js sql column (column_value js column e) us k x))
      Same-membership us cv k (inr (inr h)) = absurd h

      non_empty-IsTextual :
          lower c.operator ≡ codes "exists"
          → sql.non_empty (column_value js column e)
            ≡ compare_value js (lower c.operator) c (column_value js column e)
      unfolding compare_value
      non_empty-IsTextual o = elim x [
        | inl h ↦ rw (o, h, sql.non_empty-null) refl
        | inr (s, (h, k)) ↦ rw (o, h, sql.non_empty-text s) refl
      ]

      pub Same-presence : lower c.operator ≡ codes "exists" → Same
      unfolding add_column
      Same-presence o =
          MeansSame-require js sql t e c q (present column)
            (add_clause-column js c column m q ∙ rw o refl)
            (λ P. non_empty-IsTextual o ∙ sym (evaluate_clause-column js c column m e))

  module _ (n : Num) (a : c.attribute ≡ "reporteesCount") (cv : c.value ≡ num n)
      (fits : sql.Fits "reportees_count" n)
      (fits_row : sql.Fits "reportees_count" (js.of_nat e.reportees_count)) where
    count_column : Mapped js c.attribute "reportees_count"
    unfolding extract_employee_value
    count_column = rw a (refl, refl, refl, λ x. refl)

    pub Same-order :
        HasOperator js sql c (
          codes "gt"
          ∷ codes "greater_than"
          ∷ codes "gte"
          ∷ codes "greater_than_or_equal"
          ∷ codes "lt"
          ∷ codes "less_than"
          ∷ codes "lte"
          ∷ codes "less_than_or_equal"
          ∷ [])
        → Same
    unfolding add_column compare_value
    Same-order (inl o) =
        Same-bind "reportees_count" count_column greater (single c.value) (rw o refl) (
          rw (o, cv)
            (sql.greater-num "reportees_count" (js.of_nat e.reportees_count) n fits_row fits))
    Same-order (inr (inl o)) =
        Same-bind "reportees_count" count_column greater (single c.value) (rw o refl) (
          rw (o, cv)
            (sql.greater-num "reportees_count" (js.of_nat e.reportees_count) n fits_row fits))
    Same-order (inr (inr (inl o))) =
        Same-bind "reportees_count" count_column greater_or_equal (single c.value) (rw o refl) (
          rw (o, cv)
            (sql.greater_or_equal-num "reportees_count" (js.of_nat e.reportees_count) n fits_row
              fits))
    Same-order (inr (inr (inr (inl o)))) =
        Same-bind "reportees_count" count_column greater_or_equal (single c.value) (rw o refl) (
          rw (o, cv)
            (sql.greater_or_equal-num "reportees_count" (js.of_nat e.reportees_count) n fits_row
              fits))
    Same-order (inr (inr (inr (inr (inl o))))) =
        Same-bind "reportees_count" count_column less (single c.value) (rw o refl) (
          rw (o, cv) (sql.less-num "reportees_count" (js.of_nat e.reportees_count) n fits_row fits))
    Same-order (inr (inr (inr (inr (inr (inl o)))))) =
        Same-bind "reportees_count" count_column less (single c.value) (rw o refl) (
          rw (o, cv) (sql.less-num "reportees_count" (js.of_nat e.reportees_count) n fits_row fits))
    Same-order (inr (inr (inr (inr (inr (inr (inl o))))))) =
        Same-bind "reportees_count" count_column less_or_equal (single c.value) (rw o refl) (
          rw (o, cv)
            (sql.less_or_equal-num "reportees_count" (js.of_nat e.reportees_count) n fits_row fits))
    Same-order (inr (inr (inr (inr (inr (inr (inr (inl o)))))))) =
        Same-bind "reportees_count" count_column less_or_equal (single c.value) (rw o refl) (
          rw (o, cv)
            (sql.less_or_equal-num "reportees_count" (js.of_nat e.reportees_count) n fits_row fits))
    Same-order (inr (inr (inr (inr (inr (inr (inr (inr h)))))))) = absurd h

  module _ (a : c.attribute ≡ "hasReportees") where
    pub Same-required : lower c.operator ≡ codes "is_true" → expected js c.value ≡ true → Same
    unfolding add_clause add_reportees evaluate_clause
    Same-required o x =
        MeansSame-require js sql t e c q some_reportees (rw (a, o) refl) (λ P. rw (a, o, x) refl)

    pub Same-absent : lower c.operator ≡ codes "is_false" → Same
    unfolding add_clause add_reportees evaluate_clause
    Same-absent o =
        MeansSame-require js sql t e c q no_reportees (rw (a, o) refl) (λ P. rw (a, o) refl)

    pub Same-asked : (b : Bool) → lower c.operator ≡ codes "eq" → c.value ≡ bool b → Same
    unfolding add_clause add_reportees evaluate_clause
    Same-asked true o cv =
        MeansSame-require js sql t e c q some_reportees (rw (a, o, cv) refl)
          (λ P. rw (a, o, cv) refl)
    Same-asked false o cv =
        MeansSame-require js sql t e c q no_reportees (rw (a, o, cv) refl) (λ P. rw (a, o, cv) refl)
