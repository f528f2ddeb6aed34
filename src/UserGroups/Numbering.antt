-- ===== src/UserGroups/Numbering.antt =====
-- The placeholders and the tenant of the queries of services/user-group-matching.engine.ts.
use access_service.Prelude.{
  append_assoc, append_nil, ℕ, zero, suc, ◌≡◌, refl, sym, ap, ◌∙◌, String, Bool, true, false,
  Option, none, some, List, [], ◌∷◌, ◌++◌, ◌&&◌, ◌||◌, str_eq, if◌then◌else◌, length, length-append,
  arith, get_or_else,
}
use access_service.UserGroups.Text.{lower}
use access_service.UserGroups.Rule.{MatchingRuleClause, is_op, is_one_of}
use access_service.UserGroups.Engine.{column_of}
use access_service.UserGroups.Query.{
  Condition, in_tenant, some_reportees, no_reportees, compares, present, Parameter, tenant, single,
  several, SqlOperator, equal, different_or_null, any_of, none_of_or_null, greater,
  greater_or_equal, less, less_or_equal, is_literal, Query, require, bind, add_known, add_clause,
  add_clauses, add_column, add_reportees, build_matching_query,
}

-- The placeholders of the query's text, from left to right.
abbrev pub placeholder : Condition → List ℕ
placeholder (in_tenant k) = k ∷ []
placeholder (compares column op k) = k ∷ []
placeholder some_reportees = []
placeholder no_reportees = []
placeholder (present column) = []

abbrev pub placeholders : List Condition → List ℕ
placeholders [] = []
placeholders (c ∷ cs) = placeholder c ++ placeholders cs

abbrev pub up_to : ℕ → List ℕ
up_to zero = []
up_to (suc n) = up_to n ++ suc n ∷ []

-- The first condition asks for the tenant's rows, and the placeholders are the parameters in order.
abbrev pub IsScoped : {Num : Type 0} → ℕ → Query Num → Type 0
IsScoped {Num} t q =
    (placeholders q.conditions ≡ up_to (length q.params))
    × ((cs : List Condition) × (q.conditions ≡ in_tenant 1 ∷ cs))
    × ((ps : List (Parameter Num)) × (q.params ≡ tenant t ∷ ps))

placeholders-append :
    (cs ds : List Condition) → placeholders (cs ++ ds) ≡ placeholders cs ++ placeholders ds
placeholders-append [] ds = refl
placeholders-append (c ∷ cs) ds =
    ap (◌++◌ (placeholder c)) (placeholders-append cs ds)
    ∙ sym (append_assoc (placeholder c) (placeholders cs) (placeholders ds))

either : {A : Type 0} (P : A → Type 0) (b : Bool) (x y : A) → P x → P y → P (if b then x else y)
either P true x y h k = h
either P false x y h k = k

module _ {Num : Type 0} where
  -- What a clause may do to a query.
  data Step (q : Query Num) : Query Num → Type 0 where
    stays : Step q q
    requires : (k : Condition) → placeholder k ≡ [] → Step q (require k q)
    binds : (column : String) (op : SqlOperator) (v : Parameter Num) → Step q (bind column op v q)

  add_column-Step :
      (op : List ℕ) (c : MatchingRuleClause Num) (column : String) (q : Query Num)
      → Step q (add_column op c column q)
  unfolding add_column
  add_column-Step op c column q =
      either (Step q) (is_one_of op ("eq" ∷ "equals" ∷ [])) _ _
        (binds column equal (single c.value))
        (either (Step q) (is_one_of op ("neq" ∷ "not_equals" ∷ [])) _ _
          (binds column different_or_null (single c.value))
          (either (Step q) (is_op op "in") _ _
            (binds column any_of (several (get_or_else c.values [])))
            (either (Step q) (is_op op "not_in") _ _
              (binds column none_of_or_null (several (get_or_else c.values [])))
              (either (Step q) (is_one_of op ("gt" ∷ "greater_than" ∷ [])) _ _
                (binds column greater (single c.value))
                (either (Step q) (is_one_of op ("gte" ∷ "greater_than_or_equal" ∷ [])) _ _
                  (binds column greater_or_equal (single c.value))
                  (either (Step q) (is_one_of op ("lt" ∷ "less_than" ∷ [])) _ _
                    (binds column less (single c.value))
                    (either (Step q) (is_one_of op ("lte" ∷ "less_than_or_equal" ∷ [])) _ _
                      (binds column less_or_equal (single c.value))
                      (either (Step q) (is_op op "exists") _ _ (requires (present column) refl)
                        stays))))))))

  add_known-Step :
      (op : List ℕ) (c : MatchingRuleClause Num) (column : Option String) (q : Query Num)
      → Step q (add_known op c column q)
  add_known-Step op c none q = stays
  add_known-Step op c (some column) q = add_column-Step op c column q

  add_reportees-Step :
      (op : List ℕ) (c : MatchingRuleClause Num) (q : Query Num) → Step q (add_reportees op c q)
  unfolding add_reportees
  add_reportees-Step op c q =
      either (Step q) (is_op op "is_true" || (is_op op "eq" && is_literal true c.value)) _ _
        (requires some_reportees refl)
        (either (Step q) (is_op op "is_false" || (is_op op "eq" && is_literal false c.value)) _ _
          (requires no_reportees refl) stays)

  add_clause-Step : (c : MatchingRuleClause Num) (q : Query Num) → Step q (add_clause c q)
  unfolding add_clause
  add_clause-Step c q = either (Step q) (str_eq c.attribute "") _ _ stays (
      either (Step q) (str_eq c.attribute "hasReportees") _ _
        (add_reportees-Step (lower c.operator) c q)
        (add_known-Step (lower c.operator) c (column_of c.attribute) q))

  abbrev pub Extends : Query Num → Query Num → Type 0
  Extends q r = (ps : List (Parameter Num)) × (r.params ≡ q.params ++ ps)

  Extends-Step : (q r : Query Num) → Step q r → Extends q r
  Extends-Step q _ stays = ([], append_nil q.params)
  Extends-Step q _ (requires k h) = ([], append_nil q.params)
  Extends-Step q _ (binds column op v) = (v ∷ [], refl)

  pub add_clauses-Extends :
      (cs : List (MatchingRuleClause Num)) (q : Query Num) → Extends q (add_clauses cs q)
  unfolding add_clauses
  add_clauses-Extends [] q = ([], append_nil q.params)
  add_clauses-Extends (c ∷ cs) q =
      let (ps, h) = Extends-Step q (add_clause c q) (add_clause-Step c q) in
      let (ps', h') = add_clauses-Extends cs (add_clause c q) in
      (ps ++ ps', h' ∙ ap (λ xs. xs ++ ps') h ∙ append_assoc q.params ps ps')

  IsScoped-Step : (t : ℕ) (q r : Query Num) → Step q r → IsScoped t q → IsScoped t r
  IsScoped-Step t q _ stays h = h
  IsScoped-Step t q _ (requires k e) (n, (cs, c), p) = (
    placeholders-append q.conditions (k ∷ [])
        ∙ rw e (sym (append_nil (placeholders q.conditions)) ∙ n),
    (cs ++ k ∷ [], ap (λ xs. xs ++ k ∷ []) c),
    p,
  )
  IsScoped-Step t q _ (binds column op v) (n, (cs, c), (ps, p)) =
      let k = compares column op (suc (length q.params)) in
      let counted : length (q.params ++ v ∷ []) ≡ suc (length q.params) =
        omega (arith, length-append q.params (v ∷ [])) in
      (
        placeholders-append q.conditions (k ∷ [])
            ∙ ap (λ xs. xs ++ suc (length q.params) ∷ []) n
            ∙ sym (ap up_to counted),
        (cs ++ k ∷ [], ap (λ xs. xs ++ k ∷ []) c),
        (ps ++ v ∷ [], ap (λ xs. xs ++ v ∷ []) p),
      )

  add_clauses-IsScoped :
      (t : ℕ) (cs : List (MatchingRuleClause Num)) (q : Query Num)
      → IsScoped t q
      → IsScoped t (add_clauses cs q)
  unfolding add_clauses
  add_clauses-IsScoped t [] q h = h
  add_clauses-IsScoped t (c ∷ cs) q h =
      add_clauses-IsScoped t cs (add_clause c q)
        (IsScoped-Step t q (add_clause c q) (add_clause-Step c q) h)

  -- Whatever the rule, accepted or not: the query's first condition asks for the rows of the tenant,
  -- which is its first parameter, and its placeholders are $1, $2, ... up to the number of
  -- parameters, each once and in order.
  pub build_matching_query-IsScoped :
      (tenant_code : ℕ) (clauses : List (MatchingRuleClause Num))
      → IsScoped tenant_code (build_matching_query tenant_code clauses)
  unfolding build_matching_query
  build_matching_query-IsScoped tenant_code clauses =
      add_clauses-IsScoped tenant_code clauses
        (record { conditions = in_tenant 1 ∷ []; params = tenant tenant_code ∷ [] })
        (refl, ([], refl), ([], refl))
