-- ===== src/UserGroups/Rule.antt =====
-- domain/value-objects/matching-rule.vo.ts and domain/validators/matching-rule.validator.ts
use access_service.Prelude.{
  ℕ, suc, String, Bool, true, false, Option, none, some, List, [], ◌∷◌, ◌++◌, ◌&&◌, not, any,
  str_eq, if◌then◌else◌, Result, ok, err,
}
use access_service.UserGroups.Text.{lower, codes, same_codes}

-- A value of JavaScript, over the platform's numbers.
pub data Value (Num : Type 0) : Type 0 where
  undefined null : Value Num
  bool : Bool → Value Num
  num : Num → Value Num
  text : String → Value Num

-- The fields have the types that the interface gives them. A missing attribute is the empty text,
-- which the validator and the engine treat alike. To the validator so is a missing operator; a
-- clause without one passes no validation, and a stored one, on which the engine's `toLowerCase`
-- throws, is no clause here.
pub record MatchingRuleClause (Num : Type 0) : Type 0 where
  pub attribute : String
  pub operator : String
  pub value : Value Num
  pub values : Option (List (Value Num))

-- What a client may send where a clause is expected.
pub data RawClause (Num : Type 0) : Type 0 where
  not_an_object : RawClause Num
  clause : MatchingRuleClause Num → RawClause Num

-- `clauses` is `none` where it is no array; a missing combinator is the empty text.
pub data RawRule (Num : Type 0) : Type 0 where
  not_a_rule : RawRule Num
  rule : String → Option (List (RawClause Num)) → RawRule Num

-- The reasons of `InvalidMatchingRuleError`, with the index of the clause.
pub data RuleError : Type 0 where
  rule_not_an_object unsupported_combinator clauses_not_an_array no_clauses : RuleError
  clause_not_an_object missing_attribute attribute_not_allowed : ℕ → RuleError
  missing_operator operator_not_supported missing_values missing_value : ℕ → RuleError

abbrev pub includes : List String → String → Bool
includes xs s = any (str_eq s) xs

abbrev pub allowed_attributes : List String
allowed_attributes =
    "employmentStatus" ∷ "companyId" ∷ "locationId" ∷ "departmentId" ∷ "gradeId" ∷ "jobTitleId"
    ∷ "reporteesCount" ∷ "hasReportees" ∷ []

abbrev pub allowed_operators : List String
allowed_operators =
    "equals" ∷ "not_equals" ∷ "in" ∷ "not_in" ∷ "greater_than" ∷ "greater_than_or_equal"
    ∷ "less_than" ∷ "less_than_or_equal" ∷ "is_true" ∷ "is_false" ∷ "exists" ∷ "eq" ∷ "neq" ∷ "gt"
    ∷ "gte" ∷ "lt" ∷ "lte" ∷ []

-- `op === name`, for a lower-cased operator
abbrev pub is_op : List ℕ → String → Bool
is_op op name = same_codes op (codes name)

abbrev pub is_one_of : List ℕ → List String → Bool
is_one_of op names = any (is_op op) names

-- `!Array.isArray(values) || values.length === 0`
abbrev pub has_no_values : {Num : Type 0} → Option (List (Value Num)) → Bool
has_no_values none = true
has_no_values (some []) = true
has_no_values (some (v ∷ vs)) = false

-- `value === undefined || value === null || value === ''`
abbrev pub is_missing : {Num : Type 0} → Value Num → Bool
is_missing undefined = true
is_missing null = true
is_missing (text s) = str_eq s ""
is_missing (bool b) = false
is_missing (num n) = false

-- The payload that the operator asks for.
abbrev pub payload_error : {Num : Type 0} → List ℕ → MatchingRuleClause Num → ℕ → Option RuleError
payload_error op c index =
    if is_one_of op ("in" ∷ "not_in" ∷ [])
    then (if has_no_values c.values then some (missing_values index) else none)
    else if is_one_of op ("is_true" ∷ "is_false" ∷ "exists" ∷ [])
    then none
    else if is_missing c.value
    then some (missing_value index)
    else none

abbrev pub clause_error : {Num : Type 0} → MatchingRuleClause Num → ℕ → Option RuleError
clause_error c index =
    if str_eq c.attribute ""
    then some (missing_attribute index)
    else if not (includes allowed_attributes c.attribute)
    then some (attribute_not_allowed index)
    else if str_eq c.operator ""
    then some (missing_operator index)
    else if not (is_one_of (lower c.operator) allowed_operators)
    then some (operator_not_supported index)
    else payload_error (lower c.operator) c index

abbrev pub fail_with : {A : Type 0} → Option RuleError → A → Result RuleError A
fail_with none a = ok a
fail_with (some e) a = err e

unfoldable pub validate_clause : {Num : Type 0} → RawClause Num → ℕ → Result RuleError String
validate_clause not_an_object index = err (clause_not_an_object index)
validate_clause (clause c) index = fail_with (clause_error c index) c.attribute

-- `Set.add`, in order of first insertion
abbrev pub add : List String → String → List String
add keys key = if includes keys key then keys else keys ++ key ∷ []

abbrev pub continue_with :
    Result RuleError String
    → (String → Result RuleError (List String))
    → Result RuleError (List String)
continue_with (ok a) k = k a
continue_with (err e) k = err e

-- The loop over the clauses from an index on, with the keys so far.
unfoldable pub validate_clauses :
    {Num : Type 0} → List (RawClause Num) → ℕ → List String → Result RuleError (List String)
unfolding validate_clause
validate_clauses [] index keys = ok keys
validate_clauses (c ∷ cs) index keys =
    continue_with (validate_clause c index) (λ key. validate_clauses cs (suc index) (add keys key))

abbrev pub bad_combinator : String → Bool
bad_combinator combinator = not (str_eq combinator "") && not (is_op (lower combinator) "all")

abbrev pub validate_list :
    {Num : Type 0} → Option (List (RawClause Num)) → Result RuleError (List String)
validate_list none = err clauses_not_an_array
validate_list (some []) = err no_clauses
validate_list (some (c ∷ cs)) = validate_clauses (c ∷ cs) 0 []

-- The attribute keys of an accepted rule.
unfoldable pub validate_rule : {Num : Type 0} → RawRule Num → Result RuleError (List String)
unfolding validate_clauses lower
validate_rule not_a_rule = err rule_not_an_object
validate_rule (rule combinator clauses) =
    if bad_combinator combinator then err unsupported_combinator else validate_list clauses
