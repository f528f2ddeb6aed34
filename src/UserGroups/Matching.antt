-- ===== src/UserGroups/Matching.antt =====
-- The query of services/user-group-matching.engine.ts against its evaluation in memory.
use access_service.Prelude.{
  ℕ, ok, some, str_eq, String, Contains, inl, ◌==◌, ◌≡◌, refl, ap, ◌∙◌, Bool, true, false, List, [],
  ◌∷◌, ◌&&◌, all, All, All-Contains, arith, if◌then◌else◌, ltb,
}
use access_service.UserGroups.Text.{lower, codes}
use access_service.UserGroups.Rule.{
  MatchingRuleClause, clause, rule, is_missing, validate_rule, validate_clauses, validate_clause,
}
use access_service.UserGroups.Engine.{
  Numbers, EmployeeReference, evaluate_clause, evaluate, expected,
}
use access_service.UserGroups.Query.{
  Parameter, Query, add_clause, add_clauses, build_matching_query, in_tenant, tenant, add_reportees,
}
use access_service.UserGroups.Sql.{
  Sql, is_tenant, number_of, selects, holds, column_value, text_columns, IsTextual, IsRow,
  IsPortable, equality, membership, presence, order, no_reportees_asked, reportees_asked,
  reportees_required,
}
use access_service.UserGroups.Columns.{Mapped-text_columns, MeansSame}
use access_service.UserGroups.Clauses.{
  Same-equality, Same-membership, Same-presence, Same-order, Same-required, Same-absent, Same-asked,
}
use access_service.UserGroups.Numbering.{add_clauses-Extends}

and_assoc : (a b c : Bool) → ((a && b) && c) ≡ (a && (b && c))
and_assoc true b c = refl
and_assoc false b c = refl

and_true : (b : Bool) → (b && true) ≡ b
and_true true = refl
and_true false = refl

module _ {Num : Type 0} (js : Numbers Num) (sql : Sql js) (t : ℕ) (e : EmployeeReference Num)
    (x : IsRow js sql e) where
  textual :
      (a column : String)
      → Contains (a, column) (text_columns js sql)
      → IsTextual js sql column (column_value js column e)
  textual a column h =
      All-Contains (λ c. IsTextual js sql c.1 (column_value js c.1 e)) (a, column)
        (text_columns js sql) x.0 h

  MeansSame-IsPortable :
      (c : MatchingRuleClause Num) (q : Query Num) → IsPortable js sql c → MeansSame js sql t e c q
  MeansSame-IsPortable c q (equality column u h o cv n k) =
      Same-equality js sql t e c q column (Mapped-text_columns js sql c.attribute column h)
        (textual c.attribute column h) u cv n k o
  MeansSame-IsPortable c q (membership column us h o cv k) =
      Same-membership js sql t e c q column (Mapped-text_columns js sql c.attribute column h)
        (textual c.attribute column h) us cv k o
  MeansSame-IsPortable c q (presence a o) =
      let h = inl (ap (λ y. (y, "employment_status")) a) in
      Same-presence js sql t e c q "employment_status"
        (Mapped-text_columns js sql c.attribute "employment_status" h)
        (textual c.attribute "employment_status" h) o
  MeansSame-IsPortable c q (order n a o cv k) = Same-order js sql t e c q n a cv k x.1 o
  MeansSame-IsPortable c q (no_reportees_asked a o) = Same-absent js sql t e c q a o
  MeansSame-IsPortable c q (reportees_asked b a o cv) = Same-asked js sql t e c q a b o cv
  MeansSame-IsPortable c q (reportees_required a o v) = Same-required js sql t e c q a o v

  holds-add_clauses :
      (P : List (Parameter Num)) (cs : List (MatchingRuleClause Num)) (q : Query Num)
      → P ≡ (add_clauses cs q).params
      → All (IsPortable js sql) cs
      → all (holds js sql P t e) (add_clauses cs q).conditions
        ≡ (all (holds js sql P t e) q.conditions && all (λ c. evaluate_clause js c e) cs)
  unfolding add_clauses
  holds-add_clauses P [] q w h = ground arith
  holds-add_clauses P (c ∷ cs) q w (h, hs) =
      let (rest, r) = add_clauses-Extends cs (add_clause c q) in
      rw (holds-add_clauses P cs (add_clause c q) w hs, MeansSame-IsPortable c q h P rest (w ∙ r))
        (and_assoc (all (holds js sql P t e) q.conditions) (evaluate_clause js c e)
          (all (λ d. evaluate_clause js d e) cs))

-- For a rule whose clauses are portable, the query selects an employee's row exactly where the row
-- is the tenant's and the evaluation in memory matches the employee. Portable are comparisons of
-- texts (the null text aside), of reporteesCount by order, the existence of employmentStatus, and
-- hasReportees with is_true, is_false or a Boolean under eq. The columns hold null or canonical
-- texts, and the counts in the row and in the rule are values of the column's type.
pub build_matching_query-selects :
    {Num : Type 0} (js : Numbers Num) (sql : Sql js) (tenant_code row_tenant : ℕ)
    (employee : EmployeeReference Num) (c : MatchingRuleClause Num)
    (cs : List (MatchingRuleClause Num))
    → IsRow js sql employee
    → All (IsPortable js sql) (c ∷ cs)
    → selects js sql row_tenant employee (build_matching_query tenant_code (c ∷ cs))
      ≡ ((row_tenant == tenant_code) && evaluate js (c ∷ cs) employee)
unfolding build_matching_query evaluate
build_matching_query-selects js sql tenant_code row_tenant employee c cs x h =
    let q : Query _ = record { conditions = in_tenant 1 ∷ []; params = tenant tenant_code ∷ [] } in
    let (ps, r) = add_clauses-Extends (c ∷ cs) q in
    holds-add_clauses js sql row_tenant employee x (add_clauses (c ∷ cs) q).params (c ∷ cs) q refl h
    ∙ ap
        (λ ps.
          ((is_tenant js row_tenant (number_of ps 1)) && true) && evaluate js (c ∷ cs) employee)
        r
    ∙ ap (λ b. b && evaluate js (c ∷ cs) employee) (and_true (row_tenant == tenant_code))

-- A rule of one clause `hasReportees equals v`, with a value, is accepted, and the evaluation in
-- memory matches it by the number of reportees; but its query has no condition for it and is the
-- query of every employee of the tenant.
pub equals_reportees_unrestricted :
    {Num : Type 0} (js : Numbers Num) (tenant_code : ℕ) (employee : EmployeeReference Num)
    (c : MatchingRuleClause Num)
    → c.attribute ≡ "hasReportees"
    → str_eq c.operator "" ≡ false
    → lower c.operator ≡ codes "equals"
    → is_missing c.value ≡ false
    → (validate_rule (rule "all" (some (clause c ∷ []))) ≡ ok ("hasReportees" ∷ []))
      × (evaluate js (c ∷ []) employee ≡ (
          if expected js c.value
          then ltb 0 employee.reportees_count
          else employee.reportees_count == 0))
      × (build_matching_query tenant_code (c ∷ []) ≡ build_matching_query tenant_code [])
unfolding build_matching_query add_clauses add_clause add_reportees evaluate evaluate_clause
    validate_rule validate_clauses validate_clause lower
equals_reportees_unrestricted js tenant_code employee c a n o v = (
  rw (a, n, o, v) refl,
  rw
      (
        a,
        o,
        and_true (
            if expected js c.value
            then ltb 0 employee.reportees_count
            else employee.reportees_count == 0),
      )
      refl,
  rw (a, o) refl,
)
