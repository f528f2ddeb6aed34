-- ===== src/UserGroups/Accepted.antt =====
-- What domain/validators/matching-rule.validator.ts accepts.
use access_service.Prelude.{
  or_false_split, str_eq_sym, ℕ, suc, ◌≡◌, refl, sym, ap, ◌∙◌, inl, inr, String, Bool, true, false,
  Option, none, some, List, [], ◌∷◌, ◌++◌, ◌||◌, not, str_eq, eq_iff, if◌then◌else◌, otherwise,
  Result, ok, err, All, arith, Bool-cases,
}
use access_service.UserGroups.Text.{lower}
use access_service.UserGroups.Rule.{
  MatchingRuleClause, RawClause, not_an_object, clause, RawRule, not_a_rule, rule, RuleError,
  includes, allowed_attributes, allowed_operators, is_one_of, payload_error, clause_error,
  fail_with, validate_clause, add, continue_with, validate_clauses, bad_combinator, validate_list,
  validate_rule,
}

abbrev pub AreDistinct : List String → Type 0
AreDistinct [] = Unit
AreDistinct (k ∷ ks) = (includes ks k ≡ false) × AreDistinct ks

includes-append :
    (ks ls : List String) (s : String) → includes (ks ++ ls) s ≡ (includes ks s || includes ls s)
includes-append [] ls s = refl
includes-append (k ∷ ks) ls s = ground (arith, includes-append ks ls s)

str_eq_refl : (s : String) → str_eq s s ≡ true
str_eq_refl s = (eq_iff s s).1 refl

payload_error_index :
    {Num : Type 0} (op : List ℕ) (c : MatchingRuleClause Num) (i : ℕ)
    → payload_error op c i ≡ none
    → payload_error op c 0 ≡ none
payload_error_index op c i h = ground arith

all_passed :
    (a b c d : Bool) (o : Option RuleError) (w x y z : RuleError)
    → (if a
        then some w
        else if not b
        then some x
        else if c
        then some y
        else if not d
        then some z
        else o)
      ≡ none
    → (b ≡ true) × (d ≡ true) × (o ≡ none)
all_passed false true false true o w x y z h = (refl, refl, h)
all_passed true b c d o w x y z h = ground arith
all_passed false false c d o w x y z h = ground arith
all_passed false true true d o w x y z h = ground arith
all_passed false true false false o w x y z h = ground arith

clause_error-none :
    {Num : Type 0} (c : MatchingRuleClause Num) (i : ℕ)
    → clause_error c i ≡ none
    → (includes allowed_attributes c.attribute ≡ true)
      × (is_one_of (lower c.operator) allowed_operators ≡ true)
      × (payload_error (lower c.operator) c i ≡ none)
clause_error-none c i h =
    all_passed (str_eq c.attribute "") (includes allowed_attributes c.attribute)
      (str_eq c.operator "") (is_one_of (lower c.operator) allowed_operators)
      (payload_error (lower c.operator) c i) _ _ _ _ h

module _ {Num : Type 0} where
  -- The clause's attribute is among the keys, and it passed every test.
  abbrev pub IsAllowed : List String → RawClause Num → Type 0
  IsAllowed keys not_an_object = ⊥
  IsAllowed keys (clause c) =
      (includes keys c.attribute ≡ true)
      × (includes allowed_attributes c.attribute ≡ true)
      × (is_one_of (lower c.operator) allowed_operators ≡ true)
      × (payload_error (lower c.operator) c 0 ≡ none)

  abbrev pub IsAccepted : RawRule Num → List String → Type 0
  IsAccepted not_a_rule keys = ⊥
  IsAccepted (rule combinator none) keys = ⊥
  IsAccepted (rule combinator (some [])) keys = ⊥
  IsAccepted (rule combinator (some (c ∷ cs))) keys =
      All (IsAllowed keys) (c ∷ cs)
      × All (λ k. includes allowed_attributes k ≡ true) keys
      × AreDistinct keys

-- What `add` keeps.
includes-add :
    (keys : List String) (k s : String) → includes keys s ≡ true → includes (add keys k) s ≡ true
includes-add keys k s h = elim (Bool-cases (includes keys k)) [
  | inl e ↦ rw e h
  | inr e ↦ rw (e, includes-append keys (k ∷ []) s, h) refl
]

includes-added : (keys : List String) (k : String) → includes (add keys k) k ≡ true
includes-added keys k = elim (Bool-cases (includes keys k)) [
  | inl e ↦ rw (e, e) refl
  | inr e ↦ rw (e, includes-append keys (k ∷ []) k, e, str_eq_refl k) refl
]

All-append :
    {A : Type 0} (P : A → Type 0) (xs : List A) (x : A) → All P xs → P x → All P (xs ++ x ∷ [])
All-append P [] x h p = (p, tt)
All-append P (y ∷ ys) x h p = (h.0, All-append P ys x h.1 p)

All-add :
    (P : String → Type 0) (keys : List String) (k : String) → All P keys → P k → All P (add keys k)
All-add P keys k h p = elim (Bool-cases (includes keys k)) [
  | inl e ↦ rw e h
  | inr e ↦ rw e (All-append P keys k h p)
]

distinct_append :
    (keys : List String) (k : String)
    → AreDistinct keys
    → includes keys k ≡ false
    → AreDistinct (keys ++ k ∷ [])
distinct_append [] k h n = (refl, tt)
distinct_append (x ∷ xs) k h n = (
  includes-append xs (k ∷ []) x
      ∙ rw (h.0, str_eq_sym k x (or_false_split (str_eq k x) (includes xs k) n).0) refl,
  distinct_append xs k h.1 (or_false_split (str_eq k x) (includes xs k) n).1,
)

AreDistinct-add : (keys : List String) (k : String) → AreDistinct keys → AreDistinct (add keys k)
AreDistinct-add keys k h = elim (Bool-cases (includes keys k)) [
  | inl e ↦ rw e h
  | inr e ↦ rw e (distinct_append keys k h e)
]

fail_with-ok :
    {A : Type 0} (o : Option RuleError) (a b : A) → fail_with o a ≡ ok b → (o ≡ none) × (a ≡ b)
fail_with-ok none a b h = ground arith
fail_with-ok (some e) a b h = ground arith

continue_with-ok :
    (r : Result RuleError String) (k : String → Result RuleError (List String)) (out : List String)
    → continue_with r k ≡ ok out
    → (a : String) × ((r ≡ ok a) × (k a ≡ ok out))
continue_with-ok (ok a) k out h = (a, (refl, h))
continue_with-ok (err e) k out h = ground arith

module _ {Num : Type 0} where
  validate_clause-allowed :
      (c : RawClause Num) (i : ℕ) (a : String)
      → validate_clause c i ≡ ok a
      → includes allowed_attributes a ≡ true
  unfolding validate_clause
  validate_clause-allowed not_an_object i a h = ground arith
  validate_clause-allowed (clause c) i a h =
      let (n, e) = fail_with-ok (clause_error c i) c.attribute a h in
      ap (includes allowed_attributes) (sym e) ∙ (clause_error-none c i n).0

  validate_clause-IsAllowed :
      (c : RawClause Num) (i : ℕ) (a : String) (out : List String)
      → validate_clause c i ≡ ok a
      → includes out a ≡ true
      → IsAllowed out c
  unfolding validate_clause
  validate_clause-IsAllowed not_an_object i a out h o = ground arith
  validate_clause-IsAllowed (clause c) i a out h o =
      let (n, e) = fail_with-ok (clause_error c i) c.attribute a h in
      let (x, y, z) = clause_error-none c i n in
      (ap (includes out) e ∙ o, x, y, payload_error_index (lower c.operator) c i z)

  abbrev Outcome : List String → List (RawClause Num) → List String → Type 0
  Outcome keys cs out =
      All (IsAllowed out) cs
      × All (λ k. includes allowed_attributes k ≡ true) out
      × AreDistinct out
      × ((s : String) → includes keys s ≡ true → includes out s ≡ true)

  validate_clauses-Outcome :
      (cs : List (RawClause Num)) (i : ℕ) (keys out : List String)
      → All (λ k. includes allowed_attributes k ≡ true) keys
      → AreDistinct keys
      → validate_clauses cs i keys ≡ ok out
      → Outcome keys cs out
  unfolding validate_clauses
  validate_clauses-Outcome [] i keys out h d e =
      let same : keys ≡ out = ground arith in rw (← same) (tt, h, d, λ s x. x)
  validate_clauses-Outcome (c ∷ cs) i keys out h d e =
      let (a, (v, rest)) =
        continue_with-ok (validate_clause c i) (λ key. validate_clauses cs (suc i) (add keys key))
          out e in
      let allowed = validate_clause-allowed c i a v in
      let (those, of_out, distinct, kept) =
        validate_clauses-Outcome cs (suc i) (add keys a) out
          (All-add (λ k. includes allowed_attributes k ≡ true) keys a h allowed)
          (AreDistinct-add keys a d) rest in
      (
        (validate_clause-IsAllowed c i a out v (kept a (includes-added keys a)), those),
        of_out,
        distinct,
        λ s x. kept s (includes-add keys a s x),
      )

  validate_list-IsAccepted :
      (combinator : String) (clauses : Option (List (RawClause Num))) (keys : List String)
      → validate_list clauses ≡ ok keys
      → IsAccepted (rule combinator clauses) keys
  unfolding validate_clauses
  validate_list-IsAccepted combinator none keys h = ground arith
  validate_list-IsAccepted combinator (some []) keys h = ground arith
  validate_list-IsAccepted combinator (some (c ∷ cs)) keys h =
      let (those, of_keys, distinct, kept) = validate_clauses-Outcome (c ∷ cs) 0 [] keys tt tt h in
      (those, of_keys, distinct)

  -- A rule that validate accepts has at least one clause; every clause is an object with an
  -- attribute among the keys that validate returns, an allowed operator and the payload that the
  -- operator asks for; and the keys are distinct and allowed.
  pub validate_rule-IsAccepted :
      (r : RawRule Num) (keys : List String) → validate_rule r ≡ ok keys → IsAccepted r keys
  unfolding validate_rule
  validate_rule-IsAccepted not_a_rule keys h = ground arith
  validate_rule-IsAccepted (rule combinator clauses) keys h =
      validate_list-IsAccepted combinator clauses keys
        (otherwise (bad_combinator combinator) (validate_list clauses) _ keys h).1
