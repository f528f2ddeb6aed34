-- ===== src/Permissions/Closure.antt =====
-- When a set of permissions is valid, and that a valid set holds all that its codes need.
use access_service.Prelude.{
  String, ◌≡◌, refl, sym, ap, ◌∙◌, Bool, true, false, ◌&&◌, Option, none, some, List, [], ◌∷◌, ◌++◌,
  All, All-Contains, if◌then◌else◌, ◌↔◌, and_split, Bool-cases, arith, inl, inr, str_eq, eq_iff,
}
use access_service.Prelude.Keyed.{has, set_of, lookup, has-set_of, Contains-of_has}
use access_service.Permissions.Graph.{
  PermissionDefinition, DependencyNode, PermissionDependencyGraph, build_graph, build_lists,
  neighbours,
}
use access_service.Permissions.Naming.{is_ill_formed}
use access_service.Permissions.Reach.{Reach, edge, further}
use access_service.Permissions.Nodes.{node-Made}
use access_service.Permissions.Dependency.{
  DependencyViolation, validate_permission_set, is_empty, code_faults, all_code_faults, node_faults,
  missing, all_missing, prerequisites_of, of_node, fault, invalid_format,
}

-- What the code asks of one of the codes: form, a node that is not deprecated, and every
-- prerequisite among the codes.
abbrev pub Assignable : PermissionDependencyGraph → List String → String → Type 0
Assignable g codes code =
    (is_ill_formed code ≡ false)
    × ((n : DependencyNode) × ((lookup code g.nodes ≡ some n)
          × ((n.definition.deprecated ≡ false)
              × ((p : String) → has p n.prerequisites ≡ true → has p codes ≡ true))))

is_empty-append :
    (xs ys : List DependencyViolation) → is_empty (xs ++ ys) ≡ (is_empty xs && is_empty ys)
is_empty-append [] ys = refl
is_empty-append (x ∷ xs) ys = refl

-- One code.
abbrev Usable : PermissionDependencyGraph → String → Type 0
Usable g code =
    (is_ill_formed code ≡ false)
    × ((n : DependencyNode) × ((lookup code g.nodes ≡ some n) × (n.definition.deprecated ≡ false)))

Usable-of_faults :
    (g : PermissionDependencyGraph) (code : String)
    → is_empty (code_faults g code) ≡ true
    → Usable g code
Usable-of_faults g code h = go (is_ill_formed code) (lookup code g.nodes) refl refl h
  where
    go :
        (b : Bool) (o : Option DependencyNode)
        → b ≡ is_ill_formed code
        → o ≡ lookup code g.nodes
        → is_empty (if b then fault code invalid_format else node_faults code o) ≡ true
        → Usable g code
    go true o e f h = ground arith
    go false none e f h = ground arith
    go false (some n) e f h = (sym e, (n, (sym f, ground arith)))

faults-of_Usable :
    (g : PermissionDependencyGraph) (code : String)
    → Usable g code
    → is_empty (code_faults g code) ≡ true
faults-of_Usable g code (w, (n, (e, d))) = rw (w, e, d) refl

missing-empty :
    (requested : List String) (code : String) (ps : List String)
    → is_empty (missing requested code ps) ≡ true
    → (p : String) → has p ps ≡ true
    → has p requested ≡ true
missing-empty requested code [] h p e = ground arith
missing-empty requested code (q ∷ ps) h p e = elim (Bool-cases (has q requested)) [
  | inr f ↦ ground arith
  | inl t ↦
      let rest : is_empty (missing requested code ps) ≡ true = ground arith in
      elim (Bool-cases (str_eq p q)) [
        | inl x ↦ (λ i. has ((eq_iff p q).0 x i) requested) ∙ t
        | inr x ↦ missing-empty requested code ps rest p (ground arith)
      ]
]

empty-missing :
    (requested : List String) (code : String) (ps : List String)
    → ((p : String) → has p ps ≡ true → has p requested ≡ true)
    → is_empty (missing requested code ps) ≡ true
empty-missing requested code [] h = refl
empty-missing requested code (q ∷ ps) h =
    rw (h q (ground (arith, eq_iff q q)))
      (empty-missing requested code ps (λ p e. h p (ground arith)))

-- Both passes over the codes, the second against the requested set.
module _ (g : PermissionDependencyGraph) (requested : List String) where
  Passes : List String → Type 0
  Passes codes =
      (is_empty (all_code_faults g codes) ≡ true)
      × (is_empty (all_missing g requested codes) ≡ true)

  All-of_Passes : (codes : List String) → Passes codes → All (Assignable g requested) codes
  unfolding Passes
  All-of_Passes [] h = tt
  All-of_Passes (c ∷ cs) (h, k) =
      let (a, b) =
        and_split _ _ (sym (is_empty-append (code_faults g c) (all_code_faults g cs)) ∙ h) in
      let (x, y) = and_split _ _ (
        sym (
          is_empty-append (missing requested c (prerequisites_of g c)) (all_missing g requested cs))
        ∙ k) in
      let (w, (n, (e, d))) = Usable-of_faults g c a in
      (
        (
          w,
          (
            n,
            (
              e,
              (
                d,
                λ p q.
                    missing-empty requested c (prerequisites_of g c) x p
                      (ap (λ o. has p (of_node o)) e ∙ q),
              ),
            ),
          ),
        ),
        All-of_Passes cs (b, y),
      )

  Passes-of_All : (codes : List String) → All (Assignable g requested) codes → Passes codes
  unfolding Passes
  Passes-of_All [] h = (refl, refl)
  Passes-of_All (c ∷ cs) ((w, (n, (e, (d, f)))), r) =
      let (x, y) = Passes-of_All cs r in
      (
        is_empty-append (code_faults g c) (all_code_faults g cs)
            ∙ rw (faults-of_Usable g c (w, (n, (e, d))), x) refl,
        is_empty-append (missing requested c (prerequisites_of g c)) (all_missing g requested cs)
            ∙ rw
                (
                  empty-missing requested c (prerequisites_of g c)
                      (λ p q. f p (ap (λ o. has p (of_node o)) (sym e) ∙ q)),
                  y,
                )
                refl,
      )

is_valid-Passes :
    (g : PermissionDependencyGraph) (codes : List String)
    → ((validate_permission_set g codes).is_valid ≡ true) ↔ Passes g (set_of codes) codes
unfolding validate_permission_set Passes
is_valid-Passes g codes = elim (Bool-cases (is_empty (all_code_faults g codes))) [
  | inl e ↦ rw e (λ h. (refl, h), λ h. h.1)
  | inr e ↦ rw e (λ h. ground arith, λ h. ground (arith, h.0))
]

All-Assignable :
    (g : PermissionDependencyGraph) (xs ys cs : List String)
    → ((p : String) → has p xs ≡ has p ys)
    → All (Assignable g xs) cs
    → All (Assignable g ys) cs
All-Assignable g xs ys [] e h = tt
All-Assignable g xs ys (c ∷ cs) e ((w, (n, (l, (d, f)))), r) =
    ((w, (n, (l, (d, λ p q. sym (e p) ∙ f p q)))), All-Assignable g xs ys cs e r)

errors-validate_permission_set :
    (g : PermissionDependencyGraph) (codes : List String)
    → (validate_permission_set g codes).is_valid ≡ is_empty (validate_permission_set g codes).errors
unfolding validate_permission_set
errors-validate_permission_set g codes = elim (Bool-cases (is_empty (all_code_faults g codes))) [
  | inl e ↦ rw e refl
  | inr e ↦ rw e (sym e)
]

adjacency_lem :
    (ds : List PermissionDefinition) (a b : String)
    → has b (neighbours a (build_lists ds).out)
      ≡ has b (neighbours a (build_graph ds).adjacency_list)
unfolding build_graph
adjacency_lem ds a b = refl

-- A set of permissions is valid exactly when each of its codes is well formed and has a node in the
-- graph that is not deprecated and whose prerequisites are all in the set; and it is valid exactly
-- when no error is reported.
pub validate_permission_set_iff :
    (g : PermissionDependencyGraph) (codes : List String)
    → (((validate_permission_set g codes).is_valid ≡ true) ↔ All (Assignable g codes) codes)
      × ((validate_permission_set g codes).is_valid
          ≡ is_empty (validate_permission_set g codes).errors)
validate_permission_set_iff g codes =
    let (f, b) = is_valid-Passes g codes in
    (
      (
        λ h.
            All-Assignable g (set_of codes) codes codes (λ p. has-set_of p codes)
              (All-of_Passes g (set_of codes) codes (f h)),
        λ h. b (
            Passes-of_All g (set_of codes) codes
              (All-Assignable g codes (set_of codes) codes (λ p. sym (has-set_of p codes)) h)),
      ),
      errors-validate_permission_set g codes,
    )

-- What a valid set holds it holds with all that is reached from it.
module _ (ds : List PermissionDefinition) (codes : List String)
    (valid : (validate_permission_set (build_graph ds) codes).is_valid ≡ true) where
  holds_next :
      (a b : String)
      → has a codes ≡ true
      → has b (neighbours a (build_graph ds).adjacency_list) ≡ true
      → has b codes ≡ true
  holds_next a b h e =
      let (w, (n, (l, (d, f)))) =
        All-Contains (Assignable (build_graph ds) codes) a codes
          ((validate_permission_set_iff (build_graph ds) codes).0.0 valid)
          (Contains-of_has a codes h) in
      f b (ap (has b) ((node-Made a ds n l).0) ∙ adjacency_lem ds a b ∙ e)

  -- Against the graph of any definitions: a valid set that holds a code holds every code that it
  -- requires, directly or through others.
  pub validate_permission_set-closed :
      (a b : String)
      → has a codes ≡ true
      → Reach (build_graph ds).adjacency_list a b
      → has b codes ≡ true
  validate_permission_set-closed a b h (edge e) = holds_next a b h e
  validate_permission_set-closed a b h (further {m = k} r e) =
      holds_next k b (validate_permission_set-closed a k h r) e
