-- ===== src/Access/Diff.antt =====
-- The `Map`s by key that the projections compare: `new Map(xs.map(x => [key(x), x]))`, in order of
-- first insertion, where a later value replaces an earlier one of the same key.
use access_service.Prelude.{
  String, append_assoc, append_nil, or_false_split, str_eq_sym, inl, inr, Bool, true, false, ◌≡◌,
  refl, sym, ap, ◌∙◌, List, [], ◌∷◌, ◌++◌, ◌||◌, ◌&&◌, any, str_eq, eq_iff, if◌then◌else◌, select,
  All, arith, Bool-cases,
}

abbrev pub Entries : Type 0 → Type 0
Entries A = List (String × A)

or_again : (a b : Bool) → (a || b) ≡ ((a || b) || a)
or_again true b = refl
or_again false true = refl
or_again false false = refl

or_assoc : (a b c : Bool) → (a || (b || c)) ≡ ((a || b) || c)
or_assoc true b c = refl
or_assoc false b c = refl

or_false : (a : Bool) → a ≡ (a || false)
or_false true = refl
or_false false = refl

and_false : (a : Bool) → (a && false) ≡ false
and_false true = refl
and_false false = refl

module _ {A : Type 0} where
  abbrev pub has : Entries A → String → Bool
  has m k = any (λ e. str_eq e.0 k) m

  abbrev pub put : Entries A → String → A → Entries A
  put [] k v = (k, v) ∷ []
  put (e ∷ m) k v = let rest = put m k v in if str_eq e.0 k then (k, v) ∷ m else e ∷ rest

  unfoldable pub put_all : (A → String) → List A → Entries A → Entries A
  put_all key [] m = m
  put_all key (x ∷ xs) m = put_all key xs (put m (key x) x)

  -- The values whose keys pass a test, in order.
  abbrev pub values_where : (String → Bool) → Entries A → List A
  values_where p [] = []
  values_where p (e ∷ m) = let rest = values_where p m in if p e.0 then e.1 ∷ rest else rest

  -- Some element has the key.
  abbrev pub has_key : (A → String) → List A → String → Bool
  has_key key xs k = any (λ x. str_eq (key x) k) xs

  abbrev pub AreDistinctKeys : (A → String) → List A → Type 0
  AreDistinctKeys key [] = Unit
  AreDistinctKeys key (x ∷ xs) = (has_key key xs (key x) ≡ false) × AreDistinctKeys key xs

  has-put :
      (m : Entries A) (k : String) (v : A) (j : String)
      → has (put m k v) j ≡ (has m j || str_eq k j)
  has-put [] k v j = ground arith
  has-put (e ∷ m) k v j = elim (Bool-cases (str_eq e.0 k)) [
    | inl h ↦ rw (h, (eq_iff e.0 k).0 h) (or_again (str_eq k j) (has m j))
    | inr h ↦ rw (h, has-put m k v j) (or_assoc (str_eq e.0 j) (has m j) (str_eq k j))
  ]

  pub has-put_all :
      (key : A → String) (xs : List A) (m : Entries A) (j : String)
      → has (put_all key xs m) j ≡ (has m j || has_key key xs j)
  unfolding put_all
  has-put_all key [] m j = or_false (has m j)
  has-put_all key (x ∷ xs) m j =
      has-put_all key xs (put m (key x) x) j
      ∙ rw (has-put m (key x) x j) (sym (or_assoc (has m j) (str_eq (key x) j) (has_key key xs j)))

  -- An entry's key is its value's.
  abbrev pub IsKeyed : (A → String) → Entries A → Type 0
  IsKeyed key m = All (λ e. e.0 ≡ key e.1) m

  put-IsKeyed :
      (key : A → String) (m : Entries A) (x : A) → IsKeyed key m → IsKeyed key (put m (key x) x)
  put-IsKeyed key [] x h = (refl, tt)
  put-IsKeyed key (e ∷ m) x h = elim (Bool-cases (str_eq e.0 (key x))) [
    | inl g ↦ rw g (refl, h.1)
    | inr g ↦ rw g (h.0, put-IsKeyed key m x h.1)
  ]

  pub put_all-IsKeyed :
      (key : A → String) (xs : List A) (m : Entries A)
      → IsKeyed key m
      → IsKeyed key (put_all key xs m)
  unfolding put_all
  put_all-IsKeyed key [] m h = h
  put_all-IsKeyed key (x ∷ xs) m h =
      put_all-IsKeyed key xs (put m (key x) x) (put-IsKeyed key m x h)

  pub has_key-values_where :
      (key : A → String) (p : String → Bool) (m : Entries A) (k : String)
      → IsKeyed key m
      → has_key key (values_where p m) k ≡ (has m k && p k)
  has_key-values_where key p [] k h = refl
  has_key-values_where key p (e ∷ m) k h =
      let rest = has_key-values_where key p m k h.1 in
      let same : str_eq e.0 k ≡ true → p k ≡ p e.0 = λ f. sym (ap p ((eq_iff e.0 k).0 f)) in
      elim (Bool-cases (p e.0)) [
        | inl g ↦ elim (Bool-cases (str_eq e.0 k)) [
          | inl f ↦ rw (g, ← h.0, f) (sym (same f ∙ g))
          | inr f ↦ rw (g, ← h.0, f) rest
        ]
        | inr g ↦ elim (Bool-cases (str_eq e.0 k)) [
          | inl f ↦ rw (g, rest, f, same f ∙ g) (and_false (has m k))
          | inr f ↦ rw (g, f) rest
        ]
      ]

  put-new : (m : Entries A) (k : String) (v : A) → has m k ≡ false → put m k v ≡ m ++ (k, v) ∷ []
  put-new [] k v h = refl
  put-new (e ∷ m) k v h =
      rw ((or_false_split (str_eq e.0 k) (has m k) h).0)
        (ap (◌∷◌ e) (put-new m k v (or_false_split (str_eq e.0 k) (has m k) h).1))

  -- No key of the list is in the map.
  abbrev AreNew : (A → String) → List A → Entries A → Type 0
  AreNew key xs m = All (λ x. has m (key x) ≡ false) xs

  AreNew-put :
      (key : A → String) (xs : List A) (m : Entries A) (x : A)
      → has_key key xs (key x) ≡ false
      → AreNew key xs m
      → AreNew key xs (put m (key x) x)
  AreNew-put key [] m x d h = tt
  AreNew-put key (y ∷ ys) m x d h =
      let (other, others) = or_false_split (str_eq (key y) (key x)) (has_key key ys (key x)) d in
      (
        has-put m (key x) x (key y) ∙ rw (h.0, str_eq_sym (key y) (key x) other) refl,
        AreNew-put key ys m x others h.1,
      )

  values_where-append :
      (p : String → Bool) (m n : Entries A)
      → values_where p (m ++ n) ≡ values_where p m ++ values_where p n
  values_where-append p [] n = refl
  values_where-append p (e ∷ m) n = elim (Bool-cases (p e.0)) [
    | inl g ↦ rw g (ap (◌∷◌ e.1) (values_where-append p m n))
    | inr g ↦ rw g (values_where-append p m n)
  ]

  values_by_put :
      (p : String → Bool) (m : Entries A) (k : String) (v : A)
      → has m k ≡ false
      → values_where p (put m k v) ≡ values_where p m ++ (if p k then v ∷ [] else [])
  values_by_put p m k v h =
      ap (values_where p) (put-new m k v h) ∙ values_where-append p m ((k, v) ∷ [])

  -- Distinct keys make a map of the elements in order.
  pub values_where-put_all :
      (key : A → String) (p : String → Bool) (xs : List A) (m : Entries A)
      → AreDistinctKeys key xs
      → AreNew key xs m
      → values_where p (put_all key xs m) ≡ values_where p m ++ select (λ x. p (key x)) xs
  unfolding put_all
  values_where-put_all key p [] m d h = append_nil (values_where p m)
  values_where-put_all key p (x ∷ xs) m d h =
      values_where-put_all key p xs (put m (key x) x) d.1 (AreNew-put key xs m x d.0 h.1)
      ∙ ap (λ vs. vs ++ select (λ y. p (key y)) xs) (values_by_put p m (key x) x h.0)
      ∙ append_assoc (values_where p m) (if p (key x) then x ∷ [] else [])
          (select (λ y. p (key y)) xs)
      ∙ elim (Bool-cases (p (key x))) [ inl g ↦ rw g refl | inr g ↦ rw g refl ]

  -- Every key of an empty map is new.
  AreNew-empty : (key : A → String) (xs : List A) → AreNew key xs []
  AreNew-empty key [] = tt
  AreNew-empty key (x ∷ xs) = (refl, AreNew-empty key xs)

  pub values_where-distinct :
      (key : A → String) (p : String → Bool) (xs : List A)
      → AreDistinctKeys key xs
      → values_where p (put_all key xs []) ≡ select (λ x. p (key x)) xs
  values_where-distinct key p xs d = values_where-put_all key p xs [] d (AreNew-empty key xs)
