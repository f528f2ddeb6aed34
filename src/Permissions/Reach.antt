-- ===== src/Permissions/Reach.antt =====
-- Paths in the dependency graph, chains of edges, and orders in which every code stands before the
-- codes that it needs.
use access_service.Prelude.{
  ℕ, suc, ◌≤◌, ◌<◌, String, ◌≡◌, sym, ap, ◌∙◌, true, false, List, [], ◌∷◌, ◌++◌, length,
  if◌then◌else◌, str_eq, eq_iff, arith, inl, inr, Bool-cases,
}
use access_service.Prelude.Keyed.{has}
use access_service.Permissions.Graph.{Adjacency, neighbours}
use access_service.Permissions.Validator.{slice_from}

abbrev pub Needs : Adjacency → String → String → Type 0
Needs adj n m = has m (neighbours n adj) ≡ true

-- One edge or more.
pub data Reach (adj : Adjacency) (n : String) : String → Type 0 where
  edge : {m : String} → Needs adj n m → Reach adj n m
  further : {m k : String} → Reach adj n m → Needs adj m k → Reach adj n k

module _ (adj : Adjacency) where
  -- Each code needs the next.
  abbrev pub Chain : List String → Type 0
  Chain [] = Unit {0}
  Chain (x ∷ []) = Unit {0}
  Chain (x ∷ (y ∷ r)) = Needs adj x y × Chain (y ∷ r)

  -- A cycle as the code reports it: a chain that ends where it begins.
  abbrev pub Closed : List String → Type 0
  Closed c = (a : String) × ((r : List String) × ((c ≡ a ∷ (r ++ a ∷ [])) × Chain c))

  pub Chain-snoc :
      (p : List String) (n m : String)
      → Chain (p ++ n ∷ [])
      → Needs adj n m
      → Chain ((p ++ n ∷ []) ++ m ∷ [])
  Chain-snoc [] n m c h = (h, tt)
  Chain-snoc (x ∷ []) n m c h = (c.0, (h, tt))
  Chain-snoc (x ∷ (y ∷ r)) n m c h = (c.0, Chain-snoc (y ∷ r) n m c.1 h)

  pub Chain-popped : (p : List String) (n : String) → Chain (p ++ n ∷ []) → Chain p
  Chain-popped [] n c = tt
  Chain-popped (x ∷ []) n c = tt
  Chain-popped (x ∷ (y ∷ r)) n c = (c.0, Chain-popped (y ∷ r) n c.1)

  -- The part of a chain from a code that stands in it.
  pub slice_from-Chain :
      (k m : String) (p : List String)
      → Chain (p ++ m ∷ [])
      → has k p ≡ true
      → (r : List String) × ((slice_from k p ≡ k ∷ r) × Chain (slice_from k p ++ m ∷ []))
  slice_from-Chain k m [] c h = ground arith
  slice_from-Chain k m (x ∷ []) c h = ([], (ground (arith, eq_iff k x), c))
  slice_from-Chain k m (x ∷ (y ∷ r)) c h = elim (Bool-cases (str_eq k x)) [
    | inl e ↦ rw e (y ∷ r, (ap (λ z. z ∷ (y ∷ r)) (sym ((eq_iff k x).0 e)), c))
    | inr e ↦ rw e (slice_from-Chain k m (y ∷ r) c.1 (ground arith))
  ]

  Reach-ahead : (a b d : String) → Needs adj a b → Reach adj b d → Reach adj a d
  Reach-ahead a b d h (edge e) = further (edge h) e
  Reach-ahead a b d h (further r e) = further (Reach-ahead a b _ h r) e

  pub Reach-of_Chain : (a b : String) (r : List String) → Chain (a ∷ (r ++ b ∷ [])) → Reach adj a b
  Reach-of_Chain a b [] c = edge c.0
  Reach-of_Chain a b (x ∷ r) c = Reach-ahead a x b c.0 (Reach-of_Chain x b r c.1)

  -- Every code of the list needs only codes after it, and stands there once.
  abbrev pub Sorted : List String → Type 0
  Sorted [] = Unit {0}
  Sorted (x ∷ xs) =
      ((m : String) → Needs adj x m → has m xs ≡ true) × (has x xs ≡ false) × Sorted xs

  rank : String → List String → ℕ
  rank k [] = 0
  rank k (x ∷ xs) = if str_eq k x then suc (length xs) else rank k xs

  rank-le : (k : String) (xs : List String) → rank k xs ≤ length xs
  unfolding rank
  rank-le k [] = omega arith
  rank-le k (x ∷ xs) = ground (arith, rank-le k xs)

  differs :
      (m x : String) (xs : List String) → has m xs ≡ true → has x xs ≡ false → str_eq m x ≡ false
  differs m x xs h e = elim (Bool-cases (str_eq m x)) [
    | inl t ↦ let p : has m xs ≡ has x xs = λ i. has ((eq_iff m x).0 t i) xs in ground (arith, p)
    | inr f ↦ f
  ]

  rank-lt :
      (n m : String) (xs : List String)
      → Sorted xs
      → has n xs ≡ true
      → Needs adj n m
      → (has m xs ≡ true) × (rank m xs < rank n xs)
  unfolding rank
  rank-lt n m [] s h e = ground arith
  rank-lt n m (x ∷ xs) s h e = elim (Bool-cases (str_eq n x)) [
    | inl t ↦
        let moved : has m (neighbours x adj) ≡ has m (neighbours n adj) =
          λ i. has m (neighbours (sym ((eq_iff n x).0 t) i) adj) in
        let in_rest = s.0 m (moved ∙ e) in
        rw (t, differs m x xs in_rest s.1) (ground arith, omega (arith, rank-le m xs))
    | inr f ↦
        let (k, l) = rank-lt n m xs s.2 (ground arith) e in
        rw (f, differs m x xs k s.1) (ground arith, l)
  ]

  Reach-rank :
      (n m : String) (xs : List String)
      → Sorted xs
      → has n xs ≡ true
      → Reach adj n m
      → (has m xs ≡ true) × (rank m xs < rank n xs)
  Reach-rank n m xs s h (edge e) = rank-lt n m xs s h e
  Reach-rank n m xs s h (further {m = k} r e) =
      let (p, q) = Reach-rank n k xs s h r in
      let (p', q') = rank-lt k m xs s p e in (p', omega (arith, q, q'))

  -- No code of such a list reaches itself.
  pub Sorted-acyclic :
      (n : String) (xs : List String) → Sorted xs → has n xs ≡ true → ¬ Reach adj n n
  Sorted-acyclic n xs s h r = let (p, q) = Reach-rank n n xs s h r in omega (arith, q)
