-- ===== src/Permissions/Integrity.antt =====
-- What the checks of references and of cycles, passed together, say of the definitions.
use mathlib.Core.Path.{subst}
use access_service.Prelude.{
  String, ◌≡◌, refl, sym, ap, ◌∙◌, Bool, true, false, ◌||◌, Option, none, some, List, [], ◌∷◌, map,
  any, any-map, All, if◌then◌else◌, str_eq, eq_iff, is_some, ok, err, arith, inl, inr, Bool-cases,
}
use access_service.Prelude.Keyed.{
  has, set_of, keys, lookup, insert, has-set_of, has-keys-insert, is_some-lookup,
}
use access_service.Permissions.Graph.{
  PermissionDefinition, DependencyNode, PermissionDependencyGraph, Lists, required, neighbours,
  build_lists, build_graph, index, node_of,
}
use access_service.Permissions.Validator.{
  Checked, validate, validate_referential_integrity, detect_cycles, check_requirement,
  check_requirements, check_definitions, and_then, is_deprecated, dangling_permission_prerequisite,
  after_integrity,
}
use access_service.Permissions.Edges.{asks, edge_bits-build_lists}
use access_service.Permissions.Reach.{Reach, edge, further}
use access_service.Permissions.Search.{detect_cycles-Acyclic}

keys-index :
    (l : Lists) (k : String) (ds : List PermissionDefinition)
    (nodes : List (String × DependencyNode))
    → has k (keys (index l ds nodes)) ≡ (any (λ d. str_eq k d.id) ds || has k (keys nodes))
unfolding index
keys-index l k [] nodes = refl
keys-index l k (d ∷ ds) nodes =
    keys-index l k ds (insert d.id (node_of l d) nodes)
    ∙ ground (arith, has-keys-insert k d.id (node_of l d) nodes)

pub keys-nodes :
    (k : String) (ds : List PermissionDefinition)
    → has k (keys (build_graph ds).nodes) ≡ any (λ d. str_eq k d.id) ds
unfolding build_graph
keys-nodes k ds = keys-index (build_lists ds) k ds [] ∙ ground arith

-- A code that needs another has a definition, so a node.
any-asks :
    (a b : String) (ds : List PermissionDefinition)
    → any (asks a b) ds ≡ true
    → any (λ d. str_eq a d.id) ds ≡ true
any-asks a b [] h = ground arith
any-asks a b (d ∷ ds) h = ground (arith, any-asks a b ds)

needs_node :
    (ds : List PermissionDefinition) (a b : String)
    → has b (neighbours a (build_graph ds).adjacency_list) ≡ true
    → has a (keys (build_graph ds).nodes) ≡ true
unfolding build_graph
needs_node ds a b h =
    keys-nodes a ds ∙ any-asks a b ds (sym (ap (λ x. x.0) (edge_bits-build_lists a b ds)) ∙ h)

Reach-node :
    (ds : List PermissionDefinition) (a b : String)
    → Reach (build_graph ds).adjacency_list a b
    → has a (keys (build_graph ds).nodes) ≡ true
Reach-node ds a b (edge {m} e) = needs_node ds a m e
Reach-node ds a b (further {m} r e) = Reach-node ds a m r

pub build_graph-Acyclic :
    (ds : List PermissionDefinition)
    → detect_cycles (build_graph ds) ≡ some (ok tt)
    → (n : String) → ¬ Reach (build_graph ds).adjacency_list n n
build_graph-Acyclic ds h n r = detect_cycles-Acyclic (build_graph ds) h n (Reach-node ds n n r) r

-- A requirement that is met: its code has a node that is not deprecated.
abbrev pub Met : PermissionDependencyGraph → String → Type 0
Met g req =
    (n : DependencyNode) × ((lookup req g.nodes ≡ some n) × (n.definition.deprecated ≡ false))

abbrev pub IsReferred : PermissionDependencyGraph → PermissionDefinition → Type 0
IsReferred g d = (req : String) → has req (required d) ≡ true → Met g req

and_then-ok : (a b : Checked) → and_then a b ≡ ok tt → (a ≡ ok tt) × (b ≡ ok tt)
and_then-ok (ok u) b h = (refl, h)
and_then-ok (err e) b h = ground arith

module _ (ds : List PermissionDefinition) where
  abbrev graph : PermissionDependencyGraph
  graph = build_graph ds

  abbrev ids : List String
  ids = set_of (map (λ d. d.id) ds)

  node_of_id :
      (req : String) → has req ids ≡ true → is_some (lookup req (build_graph ds).nodes) ≡ true
  node_of_id req h =
      is_some-lookup req (build_graph ds).nodes
      ∙ keys-nodes req ds
      ∙ sym (any-map (str_eq req) (λ d. d.id) ds)
      ∙ sym (has-set_of req (map (λ d. d.id) ds))
      ∙ h

  met_lem :
      (id req : String)
      → check_requirement ids (build_graph ds) id req ≡ ok tt
      → Met (build_graph ds) req
  met_lem id req h = go (has req ids) (lookup req (build_graph ds).nodes) refl refl h
    where
      go :
          (b : Bool) (o : Option DependencyNode)
          → has req ids ≡ b
          → lookup req (build_graph ds).nodes ≡ o
          → (if b
              then if is_deprecated o
                then err (dangling_permission_prerequisite id req true)
                else ok tt
              else err (dangling_permission_prerequisite id req false))
            ≡ ok tt
          → Met (build_graph ds) req
      go false o e f k = ground arith
      go true none e f k = ground (arith, node_of_id req e)
      go true (some n) e f k = (n, (f, ground arith))

  requirements_lem :
      (id : String) (reqs : List String)
      → check_requirements ids (build_graph ds) id reqs ≡ ok tt
      → (req : String) → has req reqs ≡ true
      → Met (build_graph ds) req
  requirements_lem id [] h req e = ground arith
  requirements_lem id (r ∷ reqs) h req e =
      let (a, b) = and_then-ok (check_requirement ids (build_graph ds) id r) _ h in
      elim (Bool-cases (str_eq req r)) [
        | inl x ↦ subst (Met (build_graph ds)) (sym ((eq_iff req r).0 x)) (met_lem id r a)
        | inr x ↦ requirements_lem id reqs b req (ground arith)
      ]

  definitions_lem :
      (es : List PermissionDefinition)
      → check_definitions ids (build_graph ds) es ≡ ok tt
      → All (IsReferred (build_graph ds)) es
  definitions_lem [] h = tt
  definitions_lem (d ∷ es) h =
      let (a, b) = and_then-ok (check_requirements ids (build_graph ds) d.id (required d)) _ h in
      (requirements_lem d.id (required d) a, definitions_lem es b)

  pub validate-ok :
      validate ds (build_graph ds) ≡ some (ok tt)
      → All (IsReferred (build_graph ds)) ds
        × ((n : String) → ¬ Reach (build_graph ds).adjacency_list n n)
  unfolding validate validate_referential_integrity
  validate-ok h = go (validate_referential_integrity ds (build_graph ds)) refl h
    where
      go :
          (r : Checked)
          → r ≡ validate_referential_integrity ds (build_graph ds)
          → after_integrity r (detect_cycles (build_graph ds)) ≡ some (ok tt)
          → All (IsReferred (build_graph ds)) ds
            × ((n : String) → ¬ Reach (build_graph ds).adjacency_list n n)
      go (ok u) e k = (definitions_lem ds (sym e), build_graph-Acyclic ds k)
      go (err x) e k = ground arith
