-- ===== src/Permissions/Termination.antt =====
-- The search for cycles ends: as many calls deep as there are codes is enough fuel.
use access_service.Prelude.{
  ℕ, zero, suc, ◌≤◌, String, ◌≡◌, sym, ◌∙◌, Bool, true, false, not, ◌≢◌, none, some, List, [], ◌∷◌,
  ◌++◌, length, select, if◌then◌else◌, str_eq, eq_iff, get_or_else, arith, inl, inr, Bool-cases,
  any-append,
}
use access_service.Prelude.Keyed.{has, add, lookup, keys, has-add}
use access_service.Permissions.Graph.{PermissionDependencyGraph, Adjacency, neighbours}
use access_service.Permissions.Validator.{
  Walk, Search, walked, cycle, spent, go_on, entered, left_node, visit, visit_each, dfs,
  search_from, targets, universe, verdict, detect_cycles, slice_from,
}

-- How many of the codes `us` are not in `vs`.
abbrev unvisited : List String → List String → ℕ
unvisited us vs = length (select (λ u. not (has u vs)) us)

abbrev Extends : List String → List String → Type 0
Extends vs ws = (k : String) → has k vs ≡ true → has k ws ≡ true

unvisited_mono : (us vs ws : List String) → Extends vs ws → unvisited us ws ≤ unvisited us vs
unvisited_mono [] vs ws h = omega arith
unvisited_mono (u ∷ us) vs ws h = ground (arith, unvisited_mono us vs ws h, h u)

Extends-add : (n : String) (vs : List String) → Extends vs (add n vs)
Extends-add n vs k h = has-add k n vs ∙ ground arith

unvisited-add :
    (us vs : List String) (n : String)
    → has n us ≡ true
    → has n vs ≡ false
    → suc (unvisited us (add n vs)) ≤ unvisited us vs
unvisited-add [] vs n h e = ground arith
unvisited-add (u ∷ us) vs n h e = elim (Bool-cases (str_eq n u)) [
  | inl t ↦
      let now : has u (add n vs) ≡ true = has-add u n vs ∙ ground (arith, eq_iff u n, eq_iff n u) in
      let before : has u vs ≡ false = (λ i. has (sym ((eq_iff n u).0 t) i) vs) ∙ e in
      rw (now, before) (ground (arith, unvisited_mono us vs (add n vs) (Extends-add n vs)))
  | inr f ↦
      ground (arith, unvisited-add us vs n (ground arith) e, has-add u n vs, eq_iff u n, eq_iff n u)
]

-- A search that does not run out, and forgets no visit.
abbrev Goes : List String → Search → Type 0
Goes vs (walked w) = Extends vs w.visited
Goes vs (cycle c) = Unit {0}
Goes vs spent = ⊥

Goes-go_on :
    (vs : List String) (f : Walk → Search) (r : Search)
    → Goes vs r
    → ((w : Walk) → Extends vs w.visited → Goes w.visited (f w))
    → Goes vs (go_on f r)
Goes-go_on vs f (walked w) h k = weaken (f w) (k w h)
  where
    weaken : (r : Search) → Goes w.visited r → Goes vs r
    weaken (walked v) g = λ a b. g a (h a b)
    weaken (cycle c) g = tt
    weaken spent g = g
Goes-go_on vs f (cycle c) h k = tt
Goes-go_on vs f spent h k = h

module _ (us : List String) (fuel : ℕ) (step : String → Walk → Search) where
  abbrev StepGoes : Type 0
  StepGoes =
      (m : String) (w : Walk)
      → has m us ≡ true
      → has m w.visited ≡ false
      → unvisited us w.visited ≤ fuel
      → Goes w.visited (step m w)

  visit-Goes :
      StepGoes
      → (m : String) (w : Walk) → has m us ≡ true
      → unvisited us w.visited ≤ fuel
      → Goes w.visited (visit step m w)
  visit-Goes s m w h b = elim (Bool-cases (has m w.visited)) [
    | inl e ↦ rw e (seen (has m w.recursion_stack))
    | inr e ↦ rw e (s m w h e b)
  ]
    where
      seen :
          (t : Bool)
          → Goes w.visited (if t then cycle (slice_from m w.current_path ++ m ∷ []) else walked w)
      seen true = tt
      seen false = λ k g. g

  visit_each-Goes :
      StepGoes
      → (ms : List String) (w : Walk) → ((m : String) → has m ms ≡ true → has m us ≡ true)
      → unvisited us w.visited ≤ fuel
      → Goes w.visited (visit_each step ms w)
  unfolding visit_each
  visit_each-Goes s [] w h b = λ k g. g
  visit_each-Goes s (m ∷ ms) w h b =
      Goes-go_on w.visited (visit_each step ms) (visit step m w)
        (visit-Goes s m w (h m (ground (arith, eq_iff m m))) b)
        (λ v e.
          visit_each-Goes s ms v (λ k g. h k (ground arith))
            (omega (arith, unvisited_mono us w.visited v.visited e, b)))

module _ (us : List String) (adj : Adjacency)
    (closed : (k m : String) → has m (neighbours k adj) ≡ true → has m us ≡ true) where
  dfs-Goes :
      (fuel : ℕ) (n : String) (w : Walk)
      → has n us ≡ true
      → has n w.visited ≡ false
      → unvisited us w.visited ≤ fuel
      → Goes w.visited (dfs adj fuel n w)
  unfolding dfs
  dfs-Goes zero n w h e b = absurd (omega (arith, unvisited-add us w.visited n h e, b))
  dfs-Goes (suc fuel) n w h e b =
      let inner =
        visit_each-Goes us fuel (dfs adj fuel) (dfs-Goes fuel) (neighbours n adj) (entered n w)
          (closed n) (omega (arith, unvisited-add us w.visited n h e, b)) in
      Goes-go_on w.visited (λ v. walked (left_node n v))
        (visit_each (dfs adj fuel) (neighbours n adj) (entered n w))
        (weaken (visit_each (dfs adj fuel) (neighbours n adj) (entered n w)) inner) (λ v g k t. t)
    where
      weaken : (r : Search) → Goes (add n w.visited) r → Goes w.visited r
      weaken (walked v) g = λ a t. g a (Extends-add n w.visited a t)
      weaken (cycle c) g = tt
      weaken spent g = g

  search_from-Goes :
      (fuel : ℕ) (ns : List String) (w : Walk)
      → ((m : String) → has m ns ≡ true → has m us ≡ true)
      → unvisited us w.visited ≤ fuel
      → Goes w.visited (search_from adj fuel ns w)
  unfolding search_from
  search_from-Goes fuel [] w h b = λ k g. g
  search_from-Goes fuel (n ∷ ns) w h b =
      Goes-go_on w.visited (search_from adj fuel ns)
        (if has n w.visited then walked w else dfs adj fuel n w)
        (elim (Bool-cases (has n w.visited)) [
          | inl e ↦ rw e (λ k g. g)
          | inr e ↦ rw e (dfs-Goes fuel n w (h n (ground (arith, eq_iff n n))) e b)
        ])
        (λ v e.
          search_from-Goes fuel ns v (λ k g. h k (ground arith))
            (omega (arith, unvisited_mono us w.visited v.visited e, b)))

neighbours-targets :
    (k m : String) (adj : Adjacency) → has m (neighbours k adj) ≡ true → has m (targets adj) ≡ true
neighbours-targets k m [] h = ground arith
neighbours-targets k m ((j, ms) ∷ rest) h = elim (Bool-cases (str_eq k j)) [
  | inl e ↦
      any-append (str_eq m) ms (targets rest)
      ∙ ground
          (arith, (λ i. has m (get_or_else (if sym e i then some ms else lookup k rest) [])) ∙ h)
  | inr e ↦ any-append (str_eq m) ms (targets rest) ∙ ground (arith, neighbours-targets k m rest)
]

unvisited-le : (us vs : List String) → unvisited us vs ≤ length us
unvisited-le [] vs = omega arith
unvisited-le (u ∷ us) vs = ground (arith, unvisited-le us vs)

verdict-Goes : (vs : List String) (r : Search) → Goes vs r → verdict r ≢ none
verdict-Goes vs (walked w) g e = ground arith
verdict-Goes vs (cycle c) g e = ground arith
verdict-Goes vs spent g e = g

-- The search for cycles ends on every graph: with as much fuel as there are codes in the graph, it
-- returns or throws.
pub detect_cycles-Ends : (g : PermissionDependencyGraph) → detect_cycles g ≢ none
unfolding detect_cycles
detect_cycles-Ends g =
    let start : Walk = record { visited = []; recursion_stack = []; current_path = [] } in
    let us = universe g in
    let keys_in = λ (m : String) (h : has m (keys g.nodes) ≡ true).
      any-append (str_eq m) (keys g.nodes) (targets g.adjacency_list) ∙ ground arith in
    let closed = λ (k m : String) (h : has m (neighbours k g.adjacency_list) ≡ true).
      any-append (str_eq m) (keys g.nodes) (targets g.adjacency_list)
      ∙ ground (arith, neighbours-targets k m g.adjacency_list h) in
    verdict-Goes [] _ (
      search_from-Goes us g.adjacency_list closed (length us) (keys g.nodes) start keys_in
        (unvisited-le us []))
