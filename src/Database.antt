-- ===== src/Database.antt =====
-- What the services rely on of the shared SQL library (`BaseRepository`, `TransactionService`,
-- TypeORM's repositories), which is not part of the repository: interfaces, each with a value that
-- shows that it can be met.
pub mod InMemory
use access_service.Prelude.{
  ℕ, ◌≡◌, Bool, true, false, Option, none, some, List, map, ◌==◌, if◌then◌else◌, All, Contains, ok,
  err, Action, Result, sym, ap, ◌∙◌, refl, arith,
}

-- An `ORDER BY` clause.
pub record IsOrder {Row : Type 0} (le : Row → Row → Bool) : Type 0 where
  pub reflexive : (a : Row) → le a a ≡ true
  pub transitive : (a b c : Row) → le a b ≡ true → le b c ≡ true → le a c ≡ true
  pub total : (a b : Row) → le a b ≡ false → le b a ≡ true

-- A table whose rows are read by a `where` clause and changed by key. `touch` is the
-- update-timestamp column that an update sets.
pub record Repository (Row : Type 0) (key : Row → ℕ) (touch : ℕ → Row → Row) : Type 0 where
  -- `findOne(where)`
  pub find_one : (Row → Bool) → List Row → Option Row
  pub find_one-some :
      (p : Row → Bool) (rows : List Row) (r : Row)
      → find_one p rows ≡ some r
      → Contains r rows × (p r ≡ true)
  pub find_one-none :
      (p : Row → Bool) (rows : List Row) → find_one p rows ≡ none → All (λ r. p r ≡ false) rows
  -- `find(where)`, in some order
  pub find : (Row → Bool) → List Row → List Row
  pub find_sound :
      (p : Row → Bool) (rows : List Row) (r : Row)
      → Contains r (find p rows)
      → Contains r rows × (p r ≡ true)
  pub find_complete :
      (p : Row → Bool) (rows : List Row) (r : Row)
      → Contains r rows
      → p r ≡ true
      → Contains r (find p rows)
  -- `findOne` with an `order`
  pub find_first : (Row → Row → Bool) → (Row → Bool) → List Row → Option Row
  pub find_first-some :
      (le : Row → Row → Bool) (p : Row → Bool) (rows : List Row) (r : Row)
      → IsOrder le
      → find_first le p rows ≡ some r
      → Contains r rows × (p r ≡ true) × All (λ x. p x ≡ true → le r x ≡ true) rows
  pub find_first-none :
      (le : Row → Row → Bool) (p : Row → Bool) (rows : List Row)
      → find_first le p rows ≡ none
      → All (λ r. p r ≡ false) rows
  -- `update(id, patch)` at a moment
  pub update : ℕ → ℕ → (Row → Row) → List Row → List Row
  pub update_lem :
      (now id : ℕ) (patch : Row → Row) (rows : List Row)
      → update now id patch rows ≡ map (λ r. if key r == id then touch now (patch r) else r) rows

-- `runInTransaction`: what throws is rolled back.
pub record Transaction (S E A : Type 0) : Type 0 where
  pub run : Action S E A → Action S E A
  pub commit : (m : Action S E A) (s : S) (a : A) → (m s).0 ≡ ok a → run m s ≡ m s
  pub rollback : (m : Action S E A) (s : S) (e : E) → (m s).0 ≡ err e → run m s ≡ (err e, s)

-- What a transaction answers, its body answered.
pub committed :
    {S E A : Type 0} (tx : Transaction S E A) (m : Action S E A) (s t : S) (a : A)
    → tx.run m s ≡ (ok a, t)
    → m s ≡ (ok a, t)
committed {E = E} {A = A} tx m s t a h = go (m s).0 refl
  where
    go : (r : Result E A) → (m s).0 ≡ r → m s ≡ (ok a, t)
    go (ok b) e = sym (tx.commit m s b e) ∙ h
    go (err x) e = ground (arith, ap (λ r. r.0) (sym (tx.rollback m s x e) ∙ h))
