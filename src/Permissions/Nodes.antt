-- ===== src/Permissions/Nodes.antt =====
-- The nodes of the built graph, and that dependents are the converse of prerequisites.
use access_service.Prelude.{
  String, ◌≡◌, refl, sym, ap, ◌∙◌, true, false, Option, some, List, [], ◌∷◌, any, if◌then◌else◌,
  str_eq, eq_iff, arith, ◌⊎◌, inl, inr, Bool-cases, Contains,
}
use access_service.Prelude.Keyed.{has, lookup, insert, lookup-insert}
use access_service.Permissions.Graph.{
  PermissionDefinition, DependencyNode, Lists, neighbours, build_lists, build_graph, node_of, index,
}
use access_service.Permissions.Edges.{asks, edge_bits-build_lists}

-- The node that the search for `a` finds is made of a definition of `a`, or stood there before.
abbrev Made :
    Lists → String → List PermissionDefinition → Option DependencyNode → DependencyNode → Type 0
Made l a ds o n =
    ((d : PermissionDefinition) × ((n ≡ node_of l d) × ((d.id ≡ a) × Contains d ds))) ⊎ (o ≡ some n)

index-Made :
    (l : Lists) (a : String) (ds : List PermissionDefinition)
    (nodes : List (String × DependencyNode)) (n : DependencyNode)
    → lookup a (index l ds nodes) ≡ some n
    → Made l a ds (lookup a nodes) n
unfolding index
index-Made l a [] nodes n h = inr h
index-Made l a (d ∷ ds) nodes n h = elim (index-Made l a ds (insert d.id (node_of l d) nodes) n h) [
  | inl (e, (m, (i, c))) ↦ inl (e, (m, (i, inr c)))
  | inr e ↦ put (Bool-cases (str_eq a d.id)) (sym (lookup-insert a d.id (node_of l d) nodes) ∙ e)
]
  where
    put :
        (str_eq a d.id ≡ true) ⊎ (str_eq a d.id ≡ false)
        → (if str_eq a d.id then some (node_of l d) else lookup a nodes) ≡ some n
        → Made l a (d ∷ ds) (lookup a nodes) n
    put (inl t) e =
        let f = (λ i. if sym t i then some (node_of l d) else lookup a nodes) ∙ e in
        inl (d, (ground arith, (sym ((eq_iff a d.id).0 t), inl refl)))
    put (inr t) e = inr ((λ i. if sym t i then some (node_of l d) else lookup a nodes) ∙ e)

pub node-Made :
    (a : String) (ds : List PermissionDefinition) (n : DependencyNode)
    → lookup a (build_graph ds).nodes ≡ some n
    → (n.prerequisites ≡ neighbours a (build_lists ds).out)
      × ((n.dependents ≡ neighbours a (build_lists ds).back)
          × ((n.definition.id ≡ a) × Contains n.definition ds))
unfolding build_graph
node-Made a ds n h = elim (index-Made (build_lists ds) a ds [] n h) [
  | inl (d, (m, (i, c))) ↦ rw m (
    ap (λ k. neighbours k (build_lists ds).out) i,
    (ap (λ k. neighbours k (build_lists ds).back) i, (i, c)),
  )
  | inr e ↦ ground arith
]

-- In the graph of any list of definitions, take the nodes found under two codes. The first requires
-- the second exactly when a definition of the first code lists the second, and exactly then the
-- first is a dependent of the second; the definition of a node carries its code and is one of the
-- list.
pub build_graph-converse :
    (ds : List PermissionDefinition) (a b : String) (n m : DependencyNode)
    → lookup a (build_graph ds).nodes ≡ some n
    → lookup b (build_graph ds).nodes ≡ some m
    → (has b n.prerequisites ≡ any (asks a b) ds)
      × (has a m.dependents ≡ any (asks a b) ds)
      × (n.definition.id ≡ a)
      × Contains n.definition ds
build_graph-converse ds a b n m h k =
    let (p, (q, (i, c))) = node-Made a ds n h in
    let (p', (q', r')) = node-Made b ds m k in
    let e = edge_bits-build_lists a b ds in
    (ap (has b) p ∙ ap (λ x. x.0) e, ap (has a) q' ∙ ap (λ x. x.1) e, i, c)
