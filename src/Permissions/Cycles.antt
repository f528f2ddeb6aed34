-- ===== src/Permissions/Cycles.antt =====
-- What the search for cycles finds: a reported cycle is one, and where it returns there is none.
use access_service.Prelude.{
  String, ◌≡◌, refl, sym, ap, ◌∙◌, Bool, true, false, not, ◌||◌, List, [], ◌∷◌, ◌++◌, select,
  if◌then◌else◌, str_eq, eq_iff, arith, inl, inr, Bool-cases, or_false_split,
}
use access_service.Prelude.Keyed.{has}
use access_service.Permissions.Graph.{Adjacency}
use access_service.Permissions.Validator.{
  Walk, Search, walked, cycle, spent, go_on, visit, visit_each, popped, slice_from,
}
use access_service.Permissions.Reach.{Needs, Chain, Closed, Sorted, Chain-snoc, slice_from-Chain}

pub popped-snoc : (n : String) (p : List String) → popped (p ++ n ∷ []) ≡ p
popped-snoc n [] = refl
popped-snoc n (x ∷ []) = refl
popped-snoc n (x ∷ (y ∷ r)) = ap (◌∷◌ x) (popped-snoc n (y ∷ r))

pub deleted-snoc :
    (n : String) (p : List String)
    → has n p ≡ false
    → select (λ k. not (str_eq n k)) (p ++ n ∷ []) ≡ p
deleted-snoc n [] h = rw ((eq_iff n n).1 refl) refl
deleted-snoc n (x ∷ p) h =
    let (e, r) = or_false_split (str_eq n x) (has n p) h in rw (e, deleted-snoc n p r) refl

-- The path and the stack agree, what is visited is on the stack or finished, and the finished codes
-- `o`, the last one first, are in order.
pub record Sound (adj : Adjacency) (o : List String) (w : Walk) : Type 0 where
  pub same : w.recursion_stack ≡ w.current_path
  pub split : (k : String) → has k w.visited ≡ (has k w.current_path || has k o)
  pub apart : (k : String) → has k w.current_path ≡ true → has k o ≡ false
  pub sorted : Sorted adj o

abbrev pub Within : List String → List String → Type 0
Within o o' = (k : String) → has k o ≡ true → has k o' ≡ true

-- What a search says: the path is as it was, more is finished, the wanted codes among it.
abbrev pub Done : Adjacency → List String → List String → List String → Search → Type 0
Done adj p o want (walked w) =
    (o' : List String) × (Sound adj o' w
      × ((w.current_path ≡ p)
          × (Within o o' × ((k : String) → has k want ≡ true → has k o' ≡ true))))
Done adj p o want (cycle c) = Closed adj c
Done adj p o want spent = Unit {0}

pub Done-go_on :
    (adj : Adjacency) (p q o want wish : List String) (f : Walk → Search) (r : Search)
    → Done adj p o want r
    → ((w : Walk) (o' : List String)
        → Sound adj o' w
        → w.current_path ≡ p
        → Within o o'
        → ((k : String) → has k want ≡ true → has k o' ≡ true)
        → Done adj q o' wish (f w))
    → Done adj q o wish (go_on f r)
Done-go_on adj p q o want wish f (walked w) (o', (s, (e, (i, h)))) k = widen (f w) (k w o' s e i h)
  where
    widen : (r : Search) → Done adj q o' wish r → Done adj q o wish r
    widen (walked v) (o'', (t, (e', (i', h')))) = (o'', (t, (e', (λ a b. i' a (i a b), h'))))
    widen (cycle c) d = d
    widen spent d = d
Done-go_on adj p q o want wish f (cycle c) d k = d
Done-go_on adj p q o want wish f spent d k = d

pub Done-more :
    (adj : Adjacency) (p o ms : List String) (m : String) (r : Search)
    → has m o ≡ true
    → Done adj p o ms r
    → Done adj p o (m ∷ ms) r
Done-more adj p o ms m (walked w) h (o', (s, (e, (i, g)))) = (
  o',
  (
    s,
    (
      e,
      (
        i,
        λ k t. elim (Bool-cases (str_eq k m)) [
          | inl x ↦ i k ((λ j. has ((eq_iff k m).0 x j) o) ∙ h)
          | inr x ↦ g k (ground arith)
        ],
      ),
    ),
  ),
)
Done-more adj p o ms m (cycle c) h d = d
Done-more adj p o ms m spent h d = d

-- One neighbour `m` of the last code of the path.
module _ (adj : Adjacency) (q : List String) (n : String) (step : String → Walk → Search) where
  abbrev pub at_last : List String
  at_last = q ++ n ∷ []

  abbrev pub StepDone : Type 0
  StepDone =
      (m : String) (w : Walk) (o : List String)
      → Sound adj o w
      → w.current_path ≡ at_last
      → Chain adj (at_last ++ m ∷ [])
      → has m w.visited ≡ false
      → Done adj at_last o (m ∷ []) (step m w)

  finished_of_visited :
      (m : String) (w : Walk) (o : List String)
      → Sound adj o w
      → has m w.visited ≡ true
      → has m w.current_path ≡ false
      → has m o ≡ true
  finished_of_visited m w o s h e = ground (arith, s.split m)

  alone : (k m : String) (o : List String) → has k (m ∷ []) ≡ true → has m o ≡ true → has k o ≡ true
  alone k m o h g = (λ i. has ((eq_iff k m).0 (ground arith) i) o) ∙ g

  visit-Done :
      StepDone
      → Chain adj at_last
      → (m : String) (w : Walk) (o : List String) → Sound adj o w
      → w.current_path ≡ at_last
      → Needs adj n m
      → Done adj at_last o (m ∷ []) (visit step m w)
  visit-Done st c m w o s e h =
      let c' = Chain-snoc adj q n m c h in
      elim (Bool-cases (has m w.visited)) [
        | inr f ↦ rw f (st m w o s e c' f)
        | inl t ↦ rw t (seen (has m w.recursion_stack) (ap (has m) (s.same ∙ e)) c' t)
      ]
    where
      seen :
          (b : Bool)
          → b ≡ has m at_last
          → Chain adj (at_last ++ m ∷ [])
          → has m w.visited ≡ true
          → Done adj at_last o
              (m ∷ [])
              (if b then cycle (slice_from m w.current_path ++ m ∷ []) else walked w)
      seen true g d t =
          let (r, (x, y)) = slice_from-Chain adj m m at_last d (sym g) in
          rw e (m, (r, (ap (λ z. z ++ m ∷ []) x, y)))
      seen false g d t = (
        o,
        (
          s,
          (
            e,
            (λ k z. z, λ k z. alone k m o z (finished_of_visited m w o s t (ap (has m) e ∙ sym g))),
          ),
        ),
      )

  pub visit_each-Done :
      StepDone
      → Chain adj at_last
      → (ms : List String) (w : Walk) (o : List String) → Sound adj o w
      → w.current_path ≡ at_last
      → ((m : String) → has m ms ≡ true → Needs adj n m)
      → Done adj at_last o ms (visit_each step ms w)
  unfolding visit_each
  visit_each-Done st c [] w o s e h = (o, (s, (e, (λ k z. z, λ k z. ground arith))))
  visit_each-Done st c (m ∷ ms) w o s e h =
      Done-go_on adj at_last at_last o (m ∷ []) (m ∷ ms) (visit_each step ms) (visit step m w)
        (visit-Done st c m w o s e (h m (ground (arith, eq_iff m m))))
        (λ v o' s' e' i g.
          Done-more adj at_last o' ms m (visit_each step ms v) (g m (ground (arith, eq_iff m m)))
            (visit_each-Done st c ms v o' s' e' (λ k z. h k (ground arith))))
