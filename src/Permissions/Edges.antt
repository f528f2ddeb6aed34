-- ===== src/Permissions/Edges.antt =====
-- What the built graph holds: one edge for each requirement of a definition, in both lists.
use access_service.Prelude.{
  String, ◌≡◌, refl, ap, ◌∙◌, Bool, true, ◌&&◌, ◌||◌, Option, none, some, List, [], ◌∷◌, any,
  str_eq, eq_iff, get_or_else, is_some, arith, inl, inr, Bool-cases, Contains, any_of_Contains,
}
use access_service.Prelude.Keyed.{
  has, add, set_of, lookup, insert, adjust, lookup-insert, lookup-adjust, has-add, has-set_of,
  map_value,
}
use access_service.Permissions.Graph.{
  PermissionDefinition, Adjacency, Lists, required, neighbours, seed, ensure, link, link_each,
  link_all, build_lists,
}

has-adjust :
    (a n b r : String) (m : Adjacency)
    → is_some (lookup n m) ≡ true
    → has b (neighbours a (adjust n (add r) m))
      ≡ ((str_eq a n && str_eq b r) || has b (neighbours a m))
has-adjust a n b r m h = elim (Bool-cases (str_eq a n)) [
  | inl e ↦
      rw (lookup-adjust a n (add r) m, e)
        (at_key (lookup a m) (λ i. is_some (lookup ((eq_iff a n).0 e i) m)))
  | inr e ↦ rw (lookup-adjust a n (add r) m, e) refl
]
  where
    at_key :
        (o : Option (List String))
        → is_some o ≡ is_some (lookup n m)
        → has b (get_or_else (map_value (add r) o) []) ≡ (str_eq b r || has b (get_or_else o []))
    at_key none e = ground arith
    at_key (some xs) e = has-add b r xs

neighbours-ensure : (a k : String) (m : Adjacency) → neighbours a (ensure k m) ≡ neighbours a m
neighbours-ensure a k m = ground (arith, lookup-insert a k [] m, eq_iff a k)

is_some-ensure : (k : String) (m : Adjacency) → is_some (lookup k (ensure k m)) ≡ true
is_some-ensure k m = ground (arith, lookup-insert k k [] m, eq_iff k k)

is_some-adjust :
    (k n : String) (f : List String → List String) (m : Adjacency)
    → is_some (lookup k (adjust n f m)) ≡ is_some (lookup k m)
is_some-adjust k n f m = rw (lookup-adjust k n f m) (ground (arith, cases (lookup k m)))
  where
    cases : (o : Option (List String)) → is_some (map_value f o) ≡ is_some o
    cases none = refl
    cases (some xs) = refl

-- One edge in both lists, by what each held before.
abbrev edge_bits : Lists → String → String → Bool × Bool
edge_bits l a b = (has b (neighbours a l.out), has a (neighbours b l.back))

abbrev both : Bool → Bool × Bool → Bool × Bool
both e (x, y) = (e || x, e || y)

both-both : (d e : Bool) (p : Bool × Bool) → both d (both e p) ≡ both (e || d) p
both-both d e (x, y) = ground arith

edge_bits-link :
    (a b n r : String) (l : Lists)
    → is_some (lookup n l.out) ≡ true
    → edge_bits (link n r l) a b ≡ both (str_eq a n && str_eq b r) (edge_bits l a b)
edge_bits-link a b n r l h =
    rw
      (
        has-adjust a n b r l.out h,
        has-adjust b r a n (ensure r l.back) (is_some-ensure r l.back),
        neighbours-ensure b r l.back,
      )
      (ground arith)

edge_bits-link_each :
    (a b n : String) (rs : List String) (l : Lists)
    → is_some (lookup n l.out) ≡ true
    → edge_bits (link_each n rs l) a b ≡ both (str_eq a n && has b rs) (edge_bits l a b)
unfolding link_each
edge_bits-link_each a b n [] l h = ground arith
edge_bits-link_each a b n (r ∷ rs) l h =
    edge_bits-link_each a b n rs (link n r l) (is_some-adjust n n (add r) l.out ∙ h)
    ∙ ap (both (str_eq a n && has b rs)) (edge_bits-link a b n r l h)
    ∙ both-both (str_eq a n && has b rs) (str_eq a n && str_eq b r) (edge_bits l a b)
    ∙ ap (λ e. both e (edge_bits l a b)) (ground arith)

is_some-link_each :
    (k n : String) (rs : List String) (l : Lists)
    → is_some (lookup k (link_each n rs l).out) ≡ is_some (lookup k l.out)
unfolding link_each
is_some-link_each k n [] l = refl
is_some-link_each k n (r ∷ rs) l =
    is_some-link_each k n rs (link n r l) ∙ is_some-adjust k n (add r) l.out

-- A definition of `a` that requires `b`.
abbrev pub asks : String → String → PermissionDefinition → Bool
asks a b d = str_eq a d.id && has b (required d)

abbrev Known : Lists → List PermissionDefinition → Type 0
Known l [] = Unit {0}
Known l (d ∷ ds) = (is_some (lookup d.id l.out) ≡ true) × Known l ds

Known-link_each :
    (n : String) (rs : List String) (l : Lists) (ds : List PermissionDefinition)
    → Known l ds
    → Known (link_each n rs l) ds
Known-link_each n rs l [] h = tt
Known-link_each n rs l (d ∷ ds) h =
    (is_some-link_each d.id n rs l ∙ h.0, Known-link_each n rs l ds h.1)

edge_bits-link_all :
    (a b : String) (ds : List PermissionDefinition) (l : Lists)
    → Known l ds
    → edge_bits (link_all ds l) a b ≡ both (any (asks a b) ds) (edge_bits l a b)
unfolding link_all
edge_bits-link_all a b [] l h = ground arith
edge_bits-link_all a b (d ∷ ds) l h =
    let rs = set_of (required d) in
    edge_bits-link_all a b ds (link_each d.id rs l) (Known-link_each d.id rs l ds h.1)
    ∙ ap (both (any (asks a b) ds)) (edge_bits-link_each a b d.id rs l h.0)
    ∙ both-both (any (asks a b) ds) (str_eq a d.id && has b rs) (edge_bits l a b)
    ∙ ap (λ (e : Bool). both (str_eq a d.id && e || any (asks a b) ds) (edge_bits l a b))
        (has-set_of b (required d))

neighbours-seed :
    (a : String) (ds : List PermissionDefinition) (l : Lists)
    → neighbours a l.out ≡ []
    → neighbours a l.back ≡ []
    → (neighbours a (seed ds l).out ≡ []) × (neighbours a (seed ds l).back ≡ [])
unfolding seed
neighbours-seed a [] l h k = (h, k)
neighbours-seed a (d ∷ ds) l h k =
    neighbours-seed a ds (record { out = insert d.id [] l.out; back = insert d.id [] l.back })
      (fresh l.out h) (fresh l.back k)
  where
    fresh : (m : Adjacency) → neighbours a m ≡ [] → neighbours a (insert d.id [] m) ≡ []
    fresh m e = ground (arith, lookup-insert a d.id [] m)

is_some-seed :
    (a : String) (ds : List PermissionDefinition) (l : Lists)
    → is_some (lookup a (seed ds l).out) ≡ (any (λ d. str_eq a d.id) ds || is_some (lookup a l.out))
unfolding seed
is_some-seed a [] l = refl
is_some-seed a (d ∷ ds) l =
    is_some-seed a ds (record { out = insert d.id [] l.out; back = insert d.id [] l.back })
    ∙ ground (arith, lookup-insert a d.id [] l.out)

Known-seed :
    (ds es : List PermissionDefinition) (l : Lists)
    → ((d : PermissionDefinition) → Contains d es → Contains d ds)
    → Known (seed ds l) es
Known-seed ds [] l h = tt
Known-seed ds (d ∷ es) l h = (
  is_some-seed d.id ds l
      ∙ ap (λ e. e || is_some (lookup d.id l.out))
          (any_of_Contains (λ e. str_eq d.id e.id) d ds (h d (inl refl))
            ((eq_iff d.id d.id).1 refl)),
  Known-seed ds es l (λ e c. h e (inr c)),
)

pub edge_bits-build_lists :
    (a b : String) (ds : List PermissionDefinition)
    → edge_bits (build_lists ds) a b ≡ (any (asks a b) ds, any (asks a b) ds)
unfolding build_lists
edge_bits-build_lists a b ds =
    let start : Lists = record { out = []; back = [] } in
    let p = neighbours-seed a ds start refl refl in
    let q = neighbours-seed b ds start refl refl in
    edge_bits-link_all a b ds (seed ds start) (Known-seed ds ds start (λ d c. c))
    ∙ rw (p.0, q.1) (ground arith)
