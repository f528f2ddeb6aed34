-- ===== src/Permissions/Search.antt =====
-- The depth first search as a whole, and what its verdict says of the graph.
use mathlib.Core.Path.{subst}
use access_service.Prelude.{
  ℕ, zero, suc, String, ◌≡◌, refl, sym, ap, ◌∙◌, true, false, not, some, List, [], ◌∷◌, ◌++◌,
  select, if◌then◌else◌, str_eq, eq_iff, arith, inl, inr, Bool-cases, any-append, or_false_split,
  length, ok, err,
}
use access_service.Prelude.Keyed.{has, keys, has-add}
use access_service.Permissions.Graph.{PermissionDependencyGraph, Adjacency, neighbours}
use access_service.Permissions.Validator.{
  Walk, Search, walked, cycle, spent, entered, left_node, visit_each, dfs, search_from, popped,
  verdict, detect_cycles, CatalogError, cyclic_permission_dependency, universe,
}
use access_service.Permissions.Reach.{
  Needs, Reach, Chain, Closed, Sorted, Sorted-acyclic, Reach-of_Chain,
}
use access_service.Permissions.Cycles.{
  Sound, Done, Done-go_on, Done-more, visit_each-Done, popped-snoc, deleted-snoc,
}

module _ (adj : Adjacency) (p : List String) (n : String) where
  -- A code enters the path.
  Sound-entered :
      (o : List String) (w : Walk)
      → Sound adj o w
      → w.current_path ≡ p
      → has n w.visited ≡ false
      → Sound adj o (entered n w)
  Sound-entered o w s e h =
      let (a, b) = or_false_split (has n w.current_path) (has n o) (sym (s.split n) ∙ h) in
      record {
        same = rw (s.same, a) refl;
        split = λ k.
            has-add k n w.visited
            ∙ rw (any-append (str_eq k) w.current_path (n ∷ []), s.split k) (ground arith);
        apart = λ k t. elim (Bool-cases (has k w.current_path)) [
          | inl f ↦ s.apart k f
          | inr f ↦
              let eq : str_eq k n ≡ true =
                ground (arith, any-append (str_eq k) w.current_path (n ∷ [])) in
              (λ i. has ((eq_iff k n).0 eq i) o) ∙ b
        ];
        sorted = s.sorted;
      }

  -- A code leaves the path when all that it needs is finished.
  Sound-left :
      (o : List String) (v : Walk)
      → Sound adj o v
      → v.current_path ≡ p ++ n ∷ []
      → has n p ≡ false
      → ((m : String) → Needs adj n m → has m o ≡ true)
      → Sound adj (n ∷ o) (left_node n v) × (popped v.current_path ≡ p)
  Sound-left o v s e h g =
      let path : popped v.current_path ≡ p = ap popped e ∙ popped-snoc n p in
      let on_path = λ (k : String). ap (has k) e ∙ any-append (str_eq k) p (n ∷ []) in
      (
        record {
          same = ap (select (λ k. not (str_eq n k))) (s.same ∙ e) ∙ deleted-snoc n p h ∙ sym path;
          split = λ k. rw (path, s.split k, on_path k) (ground arith);
          apart = λ k t.
              let inp : has k p ≡ true = ap (has k) (sym path) ∙ t in
              let o_free = s.apart k (on_path k ∙ ground arith) in
              elim (Bool-cases (str_eq k n)) [
                | inl x ↦
                    let y : has k p ≡ has n p = λ i. has ((eq_iff k n).0 x i) p in ground arith
                | inr x ↦ rw (x, o_free) refl
              ];
          sorted = (g, s.apart n (on_path n ∙ ground (arith, eq_iff n n)), s.sorted);
        },
        path,
      )

module _ (adj : Adjacency) where
  dfs-Done :
      (fuel : ℕ) (p : List String) (n : String) (w : Walk) (o : List String)
      → Sound adj o w
      → w.current_path ≡ p
      → Chain adj (p ++ n ∷ [])
      → has n w.visited ≡ false
      → Done adj p o (n ∷ []) (dfs adj fuel n w)
  unfolding dfs
  dfs-Done zero p n w o s e c h = tt
  dfs-Done (suc fuel) p n w o s e c h =
      let (a, b) = or_false_split (has n w.current_path) (has n o) (sym (s.split n) ∙ h) in
      Done-go_on adj (p ++ n ∷ []) p o (neighbours n adj) (n ∷ []) (λ v. walked (left_node n v))
        (visit_each (dfs adj fuel) (neighbours n adj) (entered n w))
        (visit_each-Done adj p n (dfs adj fuel)
          (λ m v o' t x d f. dfs-Done fuel (p ++ n ∷ []) m v o' t x d f) c (neighbours n adj)
          (entered n w) o (Sound-entered adj p n o w s e h) (ap (λ z. z ++ n ∷ []) e) (λ m z. z))
        (λ v o' t x i g.
          let (t', path) = Sound-left adj p n o' v t x (ap (has n) (sym e) ∙ a) g in
          (n ∷ o', (t', (path, (λ k z. ground arith, λ k z. ground arith)))))

  search_from-Done :
      (fuel : ℕ) (ns : List String) (w : Walk) (o : List String)
      → Sound adj o w
      → w.current_path ≡ []
      → Done adj [] o ns (search_from adj fuel ns w)
  unfolding search_from
  search_from-Done fuel [] w o s e = (o, (s, (e, (λ k z. z, λ k z. ground arith))))
  search_from-Done fuel (n ∷ ns) w o s e =
      Done-go_on adj [] [] o (n ∷ []) (n ∷ ns) (search_from adj fuel ns)
        (if has n w.visited then walked w else dfs adj fuel n w)
        (elim (Bool-cases (has n w.visited)) [
          | inl t ↦ rw t (
            o,
            (
              s,
              (
                e,
                (
                  λ k z. z,
                  λ k z.
                      (λ i. has ((eq_iff k n).0 (ground arith) i) o)
                      ∙ ground (arith, s.split n, ap (has n) e),
                ),
              ),
            ),
          )
          | inr f ↦ rw f (dfs-Done fuel [] n w o s e tt f)
        ])
        (λ v o' s' e' i g.
          Done-more adj [] o' ns n (search_from adj fuel ns v) (g n (ground (arith, eq_iff n n)))
            (search_from-Done fuel ns v o' s' e'))

-- The cycle, if any, that a search threw.
verdict-err :
    (adj : Adjacency) (p o want : List String) (r : Search) (e : CatalogError)
    → Done adj p o want r
    → verdict r ≡ some (err e)
    → (c : List String) × ((e ≡ cyclic_permission_dependency c) × Closed adj c)
verdict-err adj p o want (walked w) e d h = ground arith
verdict-err adj p o want (cycle c) e d h = (c, (ground arith, d))
verdict-err adj p o want spent e d h = ground arith

verdict-ok :
    (adj : Adjacency) (p o want : List String) (r : Search)
    → Done adj p o want r
    → verdict r ≡ some (ok tt)
    → (o' : List String) × (Sorted adj o' × ((k : String) → has k want ≡ true → has k o' ≡ true))
verdict-ok adj p o want (walked w) (o', (s, (e, (i, g)))) h = (o', (s.sorted, g))
verdict-ok adj p o want (cycle c) d h = ground arith
verdict-ok adj p o want spent d h = ground arith

abbrev at_start : Walk
at_start = record { visited = []; recursion_stack = []; current_path = [] }

Sound-at_start : (adj : Adjacency) → Sound adj [] at_start
Sound-at_start adj = record {
  same = refl;
  split = λ k. refl;
  apart = λ k t. ground arith;
  sorted = tt;
}

-- An error of the search for cycles names a cycle of the graph: a chain of codes, each of which
-- requires the next, that ends with the code that it begins with; so this code reaches itself.
pub detect_cycles-Closed :
    (g : PermissionDependencyGraph) (e : CatalogError)
    → detect_cycles g ≡ some (err e)
    → (c : List String) × ((e ≡ cyclic_permission_dependency c)
        × ((a : String) × ((r : List String) × ((c ≡ a ∷ (r ++ a ∷ []))
                × (Chain g.adjacency_list c × Reach g.adjacency_list a a)))))
unfolding detect_cycles
detect_cycles-Closed g e h =
    let adj = g.adjacency_list in
    let (c, (x, (a, (r, (y, z))))) =
      verdict-err adj [] [] (keys g.nodes) _ e
        (search_from-Done adj (length (universe g)) (keys g.nodes) at_start [] (Sound-at_start adj)
          refl)
        h in
    (c, (x, (a, (r, (y, (z, Reach-of_Chain adj a a r (moved c (a ∷ (r ++ a ∷ [])) y z)))))))
  where
    moved : (c d : List String) → c ≡ d → Chain g.adjacency_list c → Chain g.adjacency_list d
    moved c d y z = subst (Chain g.adjacency_list) y z

-- Where the search for cycles returns, no code with a node reaches itself along one requirement or
-- more.
pub detect_cycles-Acyclic :
    (g : PermissionDependencyGraph)
    → detect_cycles g ≡ some (ok tt)
    → (n : String) → has n (keys g.nodes) ≡ true
    → ¬ Reach g.adjacency_list n n
unfolding detect_cycles
detect_cycles-Acyclic g h n k =
    let adj = g.adjacency_list in
    let (o, (s, f)) =
      verdict-ok adj [] [] (keys g.nodes) _
        (search_from-Done adj (length (universe g)) (keys g.nodes) at_start [] (Sound-at_start adj)
          refl)
        h in
    Sorted-acyclic adj n o s (f n k)
