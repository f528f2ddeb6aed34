-- ===== src/Prelude/Lists.antt =====
-- Lists measured by native numbers, Boolean searches, and predicates on every element.
use Prim.Native.Nat.{ℕ, suc, ◌+◌}
use mathlib.Core.Path.{◌≡◌, refl, ap, ◌∙◌}
use mathlib.Core.Bool.{Bool, true, false, ◌&&◌, ◌||◌}
use mathlib.Core.Logic.{◌⊎◌, inl, inr}
use mathlib.Core.Option.{Option, none, some}
use mathlib.Core.List.{List, [], ◌∷◌, ◌++◌, map}
use native.Mathlib.Omega.{arith}
use access_service.Prelude.Tests.{if◌then◌else◌, Bool-cases, from_rest}

module _ {ℓ} {A : Type ℓ} where
  abbrev pub length : List A → ℕ
  length [] = 0
  length (x ∷ xs) = suc (length xs)

  pub length-append : (xs ys : List A) → length (xs ++ ys) ≡ length xs + length ys
  length-append [] ys = omega arith
  length-append (x ∷ xs) ys = omega (arith, length-append xs ys)

  -- `Array.prototype.some`
  abbrev pub any : (A → Bool) → List A → Bool
  any p [] = false
  any p (x ∷ xs) = p x || any p xs

  -- `Array.prototype.every`
  abbrev pub all : (A → Bool) → List A → Bool
  all p [] = true
  all p (x ∷ xs) = p x && all p xs

  -- `Array.prototype.filter`
  abbrev pub select : (A → Bool) → List A → List A
  select p [] = []
  select p (x ∷ xs) = let rest = select p xs in if p x then x ∷ rest else rest

  -- `Array.prototype.find`
  abbrev pub first : (A → Bool) → List A → Option A
  first p [] = none
  first p (x ∷ xs) = let rest = first p xs in if p x then some x else rest

  abbrev pub All {κ} : (A → Type κ) → List A → Type κ
  All P [] = Unit
  All P (x ∷ xs) = P x × All P xs

-- Membership that the tactics read.
abbrev pub Contains : {A : Type 0} → A → List A → Type 0
Contains a [] = ⊥
Contains a (x ∷ xs) = (a ≡ x) ⊎ Contains a xs

module _ {A : Type 0} where
  pub any_of_Contains :
      (p : A → Bool) (a : A) (xs : List A) → Contains a xs → p a ≡ true → any p xs ≡ true
  any_of_Contains p a [] h e = absurd h
  any_of_Contains p a (x ∷ xs) (inl h) e = rw (← h, e) refl
  any_of_Contains p a (x ∷ xs) (inr h) e = ground (arith, any_of_Contains p a xs h e)

  pub All-Contains : (P : A → Type 0) (a : A) (xs : List A) → All P xs → Contains a xs → P a
  All-Contains P a [] h c = absurd c
  All-Contains P a (x ∷ xs) h (inl e) = rw e h.0
  All-Contains P a (x ∷ xs) h (inr c) = All-Contains P a xs h.1 c

  pub All-of_Contains : (P : A → Type 0) (xs : List A) → ((a : A) → Contains a xs → P a) → All P xs
  All-of_Contains P [] f = tt
  All-of_Contains P (x ∷ xs) f = (f x (inl refl), All-of_Contains P xs (λ a c. f a (inr c)))

  pub not_any_of_All : (p : A → Bool) (xs : List A) → All (λ x. p x ≡ false) xs → any p xs ≡ false
  not_any_of_All p [] h = refl
  not_any_of_All p (x ∷ xs) h = ground (arith, not_any_of_All p xs h.1)

pub map_self {ℓ} : {A : Type ℓ} (xs : List A) → map (λ x. x) xs ≡ xs
map_self [] = refl
map_self (x ∷ xs) = ap (◌∷◌ x) (map_self xs)

module _ {A B C : Type 0} where
  pub map-map : (f : B → C) (g : A → B) (xs : List A) → map f (map g xs) ≡ map (λ x. f (g x)) xs
  map-map f g [] = refl
  map-map f g (x ∷ xs) = ap (◌∷◌ (f (g x))) (map-map f g xs)

module _ {A B : Type 0} where
  pub map-congr :
      (f g : A → B) (xs : List A) → ((x : A) → Contains x xs → f x ≡ g x) → map f xs ≡ map g xs
  map-congr f g [] h = refl
  map-congr f g (x ∷ xs) h = cc (h x (inl refl), map-congr f g xs (λ a c. h a (inr c)))

  pub All-map :
      (P : A → Type 0) (Q : B → Type 0) (f : A → B) (xs : List A)
      → ((x : A) → P x → Q (f x))
      → All P xs
      → All Q (map f xs)
  All-map P Q f [] h a = tt
  All-map P Q f (x ∷ xs) h a = (h x a.0, All-map P Q f xs h a.1)

  pub length-map : (f : A → B) (xs : List A) → length (map f xs) ≡ length xs
  length-map f [] = refl
  length-map f (x ∷ xs) = ap suc (length-map f xs)

module _ {A : Type 0} where
  pub append_assoc : (xs ys zs : List A) → (xs ++ ys) ++ zs ≡ xs ++ (ys ++ zs)
  append_assoc [] ys zs = refl
  append_assoc (x ∷ xs) ys zs = ap (◌∷◌ x) (append_assoc xs ys zs)

  pub append_nil : (xs : List A) → xs ≡ xs ++ []
  append_nil [] = refl
  append_nil (x ∷ xs) = ap (◌∷◌ x) (append_nil xs)

  -- Searches through a filter, a witness of a search, and filters that agree.
  pub any-select : (p q : A → Bool) (xs : List A) → any q (select p xs) ≡ any (λ x. p x && q x) xs
  any-select p q [] = refl
  any-select p q (x ∷ xs) = elim (Bool-cases (p x)) [
    | inl e ↦ rw e (ap (◌||◌ (q x)) (any-select p q xs))
    | inr e ↦ rw e (any-select p q xs)
  ]

  pub any-witness :
      (p : A → Bool) (xs : List A) → any p xs ≡ true → (x : A) × (Contains x xs × (p x ≡ true))
  any-witness p [] h = ground arith
  any-witness p (x ∷ xs) h = elim (Bool-cases (p x)) [
    | inl e ↦ (x, (inl refl, e))
    | inr e ↦ let (y, (c, f)) = any-witness p xs (from_rest (p x) (any p xs) e h) in (y, (inr c, f))
  ]

  pub any-congr :
      (p q : A → Bool) (xs : List A) → ((x : A) → Contains x xs → p x ≡ q x) → any p xs ≡ any q xs
  any-congr p q [] h = refl
  any-congr p q (x ∷ xs) h =
      rw (h x (inl refl)) (ap (◌||◌ (q x)) (any-congr p q xs (λ y c. h y (inr c))))

  pub select-congr :
      (p q : A → Bool) (xs : List A)
      → ((x : A) → Contains x xs → p x ≡ q x)
      → select p xs ≡ select q xs
  select-congr p q [] h = refl
  select-congr p q (x ∷ xs) h = rw (h x (inl refl), select-congr p q xs (λ y c. h y (inr c))) refl

  pub any-append : (p : A → Bool) (xs ys : List A) → any p (xs ++ ys) ≡ (any p xs || any p ys)
  any-append p [] ys = refl
  any-append p (x ∷ xs) ys = ground (arith, any-append p xs ys)

  pub select-append :
      (p : A → Bool) (xs ys : List A) → select p (xs ++ ys) ≡ select p xs ++ select p ys
  select-append p [] ys = refl
  select-append p (x ∷ xs) ys = elim (Bool-cases (p x)) [
    | inl e ↦ rw e (ap (◌∷◌ x) (select-append p xs ys))
    | inr e ↦ rw e (select-append p xs ys)
  ]

  pub select-select :
      (p q : A → Bool) (xs : List A) → select p (select q xs) ≡ select (λ x. q x && p x) xs
  select-select p q [] = refl
  select-select p q (x ∷ xs) = elim (Bool-cases (q x)) [
    | inl e ↦ rw (e, select-select p q xs) refl
    | inr e ↦ rw e (select-select p q xs)
  ]

  pub any-and_const :
      (p : A → Bool) (b : Bool) (xs : List A) → any (λ x. p x && b) xs ≡ (any p xs && b)
  any-and_const p b [] = refl
  any-and_const p true xs = any-congr (λ x. p x && true) p xs (λ x c. ground arith) ∙ ground arith
  any-and_const p false xs =
      not_any_of_All (λ x. p x && false) xs (All-of_Contains _ xs (λ x c. ground arith))
      ∙ ground arith

pub any-map :
    {A B : Type 0} (p : B → Bool) (f : A → B) (xs : List A)
    → any p (map f xs) ≡ any (λ x. p (f x)) xs
any-map p f [] = refl
any-map p f (x ∷ xs) = ap (◌||◌ (p (f x))) (any-map p f xs)

module _ {A : Type 0} where
  pub Contains-append :
      (a : A) (xs ys : List A) → Contains a (xs ++ ys) → Contains a xs ⊎ Contains a ys
  Contains-append a [] ys c = inr c
  Contains-append a (x ∷ xs) ys (inl e) = inl (inl e)
  Contains-append a (x ∷ xs) ys (inr c) = elim (Contains-append a xs ys c) [
    | inl d ↦ inl (inr d)
    | inr d ↦ inr d
  ]

  pub Contains-append_left : (a : A) (xs ys : List A) → Contains a xs → Contains a (xs ++ ys)
  Contains-append_left a [] ys c = absurd c
  Contains-append_left a (x ∷ xs) ys (inl e) = inl e
  Contains-append_left a (x ∷ xs) ys (inr c) = inr (Contains-append_left a xs ys c)

  pub Contains-append_right : (a : A) (xs ys : List A) → Contains a ys → Contains a (xs ++ ys)
  Contains-append_right a [] ys c = c
  Contains-append_right a (x ∷ xs) ys c = inr (Contains-append_right a xs ys c)

module _ {A B : Type 0} where
  pub Contains-map : (f : A → B) (a : A) (xs : List A) → Contains a xs → Contains (f a) (map f xs)
  Contains-map f a [] c = absurd c
  Contains-map f a (x ∷ xs) (inl e) = inl (ap f e)
  Contains-map f a (x ∷ xs) (inr c) = inr (Contains-map f a xs c)

  pub Contains-map_from :
      (f : A → B) (b : B) (xs : List A)
      → Contains b (map f xs)
      → (a : A) × (Contains a xs × (b ≡ f a))
  Contains-map_from f b [] c = absurd c
  Contains-map_from f b (x ∷ xs) (inl e) = (x, (inl refl, e))
  Contains-map_from f b (x ∷ xs) (inr c) =
      let (a, (d, e)) = Contains-map_from f b xs c in (a, (inr d, e))
