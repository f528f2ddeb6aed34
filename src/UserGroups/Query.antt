-- ===== src/UserGroups/Query.antt =====
-- `buildMatchingQuery` of services/user-group-matching.engine.ts: the conditions that are joined by
-- AND, each for the text of its template, and the parameters that their placeholders name.
use access_service.Prelude.{
  ℕ, suc, String, Bool, true, false, Option, none, some, List, [], ◌∷◌, ◌++◌, ◌&&◌, ◌||◌, str_eq,
  if◌then◌else◌, get_or_else, length,
}
use access_service.UserGroups.Text.{lower}
use access_service.UserGroups.Rule.{Value, bool, MatchingRuleClause, is_op, is_one_of}
use access_service.UserGroups.Engine.{column_of}

pub data SqlOperator : Type 0 where
  equal different_or_null any_of none_of_or_null greater greater_or_equal less less_or_equal :
      SqlOperator

-- A placeholder `$k` is its number; parameters count from 1.
pub data Condition : Type 0 where
  in_tenant : ℕ → Condition
  some_reportees no_reportees : Condition
  compares : String → SqlOperator → ℕ → Condition
  present : String → Condition

pub data Parameter (Num : Type 0) : Type 0 where
  tenant : ℕ → Parameter Num
  single : Value Num → Parameter Num
  several : List (Value Num) → Parameter Num

pub record Query (Num : Type 0) : Type 0 where
  pub conditions : List Condition
  pub params : List (Parameter Num)

abbrev pub is_literal : {Num : Type 0} → Bool → Value Num → Bool
is_literal true (bool true) = true
is_literal false (bool false) = true
is_literal _ _ = false

module _ {Num : Type 0} where
  abbrev pub require : Condition → Query Num → Query Num
  require c q = record q { conditions = q.conditions ++ c ∷ [] }

  -- `params.push(v)`, and the condition with the new placeholder
  abbrev pub bind : String → SqlOperator → Parameter Num → Query Num → Query Num
  bind column op v q = record {
    conditions = q.conditions ++ compares column op (suc (length q.params)) ∷ [];
    params = q.params ++ v ∷ [];
  }

  unfoldable pub add_reportees : List ℕ → MatchingRuleClause Num → Query Num → Query Num
  add_reportees op c q =
      if is_op op "is_true" || (is_op op "eq" && is_literal true c.value)
      then require some_reportees q
      else if is_op op "is_false" || (is_op op "eq" && is_literal false c.value)
      then require no_reportees q
      else q

  unfoldable pub add_column : List ℕ → MatchingRuleClause Num → String → Query Num → Query Num
  add_column op c column q =
      if is_one_of op ("eq" ∷ "equals" ∷ [])
      then bind column equal (single c.value) q
      else if is_one_of op ("neq" ∷ "not_equals" ∷ [])
      then bind column different_or_null (single c.value) q
      else if is_op op "in"
      then bind column any_of (several (get_or_else c.values [])) q
      else if is_op op "not_in"
      then bind column none_of_or_null (several (get_or_else c.values [])) q
      else if is_one_of op ("gt" ∷ "greater_than" ∷ [])
      then bind column greater (single c.value) q
      else if is_one_of op ("gte" ∷ "greater_than_or_equal" ∷ [])
      then bind column greater_or_equal (single c.value) q
      else if is_one_of op ("lt" ∷ "less_than" ∷ [])
      then bind column less (single c.value) q
      else if is_one_of op ("lte" ∷ "less_than_or_equal" ∷ [])
      then bind column less_or_equal (single c.value) q
      else if is_op op "exists"
      then require (present column) q
      else q

  abbrev pub add_known : List ℕ → MatchingRuleClause Num → Option String → Query Num → Query Num
  add_known op c none q = q
  add_known op c (some column) q = add_column op c column q

  -- One round of the loop.
  unfoldable pub add_clause : MatchingRuleClause Num → Query Num → Query Num
  unfolding add_reportees add_column lower
  add_clause c q =
      if str_eq c.attribute ""
      then q
      else if str_eq c.attribute "hasReportees"
      then add_reportees (lower c.operator) c q
      else add_known (lower c.operator) c (column_of c.attribute) q

  unfoldable pub add_clauses : List (MatchingRuleClause Num) → Query Num → Query Num
  unfolding add_clause
  add_clauses [] q = q
  add_clauses (c ∷ cs) q = add_clauses cs (add_clause c q)

  unfoldable pub build_matching_query : ℕ → List (MatchingRuleClause Num) → Query Num
  unfolding add_clauses
  build_matching_query tenant_code clauses =
      add_clauses clauses
        (record { conditions = in_tenant 1 ∷ []; params = tenant tenant_code ∷ [] })
