-- ===== src/Prelude/Keyed.antt =====
-- The `Map` and `Set` of JavaScript with texts as keys: lists in the order of insertion, where a
-- second write of a key keeps its place.
use Prim.Native.String.{String}
use mathlib.Core.Path.{◌≡◌, refl, sym, ◌∙◌}
use mathlib.Core.Bool.{Bool, true, ◌||◌}
use mathlib.Core.Logic.{inl, inr}
use mathlib.Core.Option.{Option, none, some}
use mathlib.Core.List.{List, [], ◌∷◌, ◌++◌}
use native.Mathlib.Omega.{arith}
use text.Mathlib.Text.{◌==◌ as str_eq}
use text.Mathlib.TextEquality.{eq_iff}
use access_service.Prelude.Tests.{if◌then◌else◌, Bool-cases, is_some}
use access_service.Prelude.Lists.{any, Contains, any_of_Contains, any-append}

-- `set.has(k)`, and `list.includes(k)`
abbrev pub has : String → List String → Bool
has k xs = any (str_eq k) xs

-- `set.add(k)`
abbrev pub add : String → List String → List String
add k xs = if has k xs then xs else xs ++ k ∷ []

-- `new Set(list)`
abbrev pub add_all : List String → List String → List String
add_all [] xs = xs
add_all (k ∷ ks) xs = add_all ks (add k xs)

abbrev pub set_of : List String → List String
set_of ks = add_all ks []

has-congr_key : (k j : String) (xs : List String) → str_eq k j ≡ true → has j xs ≡ has k xs
has-congr_key k j xs h = λ i. has (sym ((eq_iff k j).0 h) i) xs

pub has-add : (k j : String) (xs : List String) → has k (add j xs) ≡ (str_eq k j || has k xs)
has-add k j xs = elim (Bool-cases (has j xs)) [
  | inl e ↦ rw e (elim (Bool-cases (str_eq k j)) [
    | inl h ↦ rw h (sym (has-congr_key k j xs h) ∙ e)
    | inr h ↦ rw h refl
  ])
  | inr e ↦ rw e (any-append (str_eq k) xs (j ∷ []) ∙ ground arith)
]

pub has-add_all :
    (k : String) (ks xs : List String) → has k (add_all ks xs) ≡ (has k ks || has k xs)
has-add_all k [] xs = refl
has-add_all k (j ∷ ks) xs = ground (arith, has-add_all k ks (add j xs), has-add k j xs)

pub has-set_of : (k : String) (ks : List String) → has k (set_of ks) ≡ has k ks
has-set_of k ks = ground (arith, has-add_all k ks [])

pub has_of_Contains : (k : String) (xs : List String) → Contains k xs → has k xs ≡ true
has_of_Contains k xs c = any_of_Contains (str_eq k) k xs c ((eq_iff k k).1 refl)

pub Contains-of_has : (k : String) (xs : List String) → has k xs ≡ true → Contains k xs
Contains-of_has k [] h = ground arith
Contains-of_has k (x ∷ xs) h = elim (Bool-cases (str_eq k x)) [
  | inl e ↦ inl ((eq_iff k x).0 e)
  | inr e ↦ inr (Contains-of_has k xs (ground arith))
]

abbrev pub map_value : {V : Type 0} → (V → V) → Option V → Option V
map_value f none = none
map_value f (some v) = some (f v)

module _ {V : Type 0} where
  -- `map.get(k)`
  abbrev pub lookup : String → List (String × V) → Option V
  lookup k [] = none
  lookup k ((j, v) ∷ m) = if str_eq k j then some v else lookup k m

  -- `map.set(k, v)`
  abbrev pub insert : String → V → List (String × V) → List (String × V)
  insert k v [] = (k, v) ∷ []
  insert k v ((j, w) ∷ m) = if str_eq k j then (k, v) ∷ m else (j, w) ∷ insert k v m

  abbrev pub keys : List (String × V) → List String
  keys [] = []
  keys ((k, v) ∷ m) = k ∷ keys m

  pub lookup-insert :
      (k j : String) (v : V) (m : List (String × V))
      → lookup k (insert j v m) ≡ (if str_eq k j then some v else lookup k m)
  lookup-insert k j v [] = refl
  lookup-insert k j v ((i, w) ∷ m) =
      ground (arith, eq_iff k j, eq_iff j i, eq_iff k i, lookup-insert k j v m)

  pub has-keys-insert :
      (k j : String) (v : V) (m : List (String × V))
      → has k (keys (insert j v m)) ≡ (str_eq k j || has k (keys m))
  has-keys-insert k j v [] = ground arith
  has-keys-insert k j v ((i, w) ∷ m) =
      ground (arith, eq_iff k j, eq_iff j i, eq_iff k i, has-keys-insert k j v m)

  -- `map.get(k)?.…`, on the value that stands at the key.
  abbrev pub adjust : String → (V → V) → List (String × V) → List (String × V)
  adjust k f [] = []
  adjust k f ((j, v) ∷ m) = if str_eq k j then (j, f v) ∷ m else (j, v) ∷ adjust k f m

  pub lookup-adjust :
      (k j : String) (f : V → V) (m : List (String × V))
      → lookup k (adjust j f m) ≡ (if str_eq k j then map_value f (lookup k m) else lookup k m)
  lookup-adjust k j f [] = ground arith
  lookup-adjust k j f ((i, w) ∷ m) =
      ground (arith, eq_iff k j, eq_iff j i, eq_iff k i, lookup-adjust k j f m)

  pub keys-adjust : (k : String) (f : V → V) (m : List (String × V)) → keys (adjust k f m) ≡ keys m
  keys-adjust k f [] = refl
  keys-adjust k f ((i, w) ∷ m) = ground (arith, keys-adjust k f m)

  pub is_some-lookup : (k : String) (m : List (String × V)) → is_some (lookup k m) ≡ has k (keys m)
  is_some-lookup k [] = refl
  is_some-lookup k ((i, w) ∷ m) = ground (arith, is_some-lookup k m)
