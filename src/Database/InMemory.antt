-- ===== src/Database/InMemory.antt =====
-- A table in memory and a transaction by copying: the interfaces can be met.
use access_service.Prelude.{
  ℕ, ◌≡◌, refl, Bool, true, false, Option, none, some, List, [], ◌∷◌, map, arith, ◌==◌,
  if◌then◌else◌, first, select, All, Contains, inl, inr, Result, ok, err, Bool-cases, sym, ap,
}
use mathlib.Core.Path.{subst}
use access_service.Database.{IsOrder, Repository, Transaction}

module _ {Row : Type 0} where
  pub first-some :
      (p : Row → Bool) (rows : List Row) (r : Row)
      → first p rows ≡ some r
      → Contains r rows × (p r ≡ true)
  first-some p [] r h = cc
  first-some p (x ∷ rows) r h = elim (Bool-cases (p x)) [
    | inl yes_p ↦ ground arith
    | inr no_p ↦ let ih = first-some p rows r (ground arith) in (inr ih.0, ih.1)
  ]

  pub first-none :
      (p : Row → Bool) (rows : List Row) → first p rows ≡ none → All (λ r. p r ≡ false) rows
  first-none p [] h = tt
  first-none p (x ∷ rows) h = elim (Bool-cases (p x)) [
    | inl yes_p ↦ absurd (ground arith)
    | inr no_p ↦ (no_p, first-none p rows (ground arith))
  ]

  pub select_sound :
      (p : Row → Bool) (rows : List Row) (r : Row)
      → Contains r (select p rows)
      → Contains r rows × (p r ≡ true)
  select_sound p [] r h = absurd h
  select_sound p (x ∷ rows) r h = elim (Bool-cases (p x)) [
    | inl yes_p ↦ elim (rw yes_p at h) [
      | inl e ↦ (inl e, rw e yes_p)
      | inr c ↦ let ih = select_sound p rows r c in (inr ih.0, ih.1)
    ]
    | inr no_p ↦ let ih = select_sound p rows r (rw no_p at h) in (inr ih.0, ih.1)
  ]

  pub select_complete :
      (p : Row → Bool) (rows : List Row) (r : Row)
      → Contains r rows
      → p r ≡ true
      → Contains r (select p rows)
  select_complete p [] r h e = absurd h
  select_complete p (x ∷ rows) r (inl same) e = rw (← same, e) (inl refl)
  select_complete p (x ∷ rows) r (inr c) e = elim (Bool-cases (p x)) [
    | inl yes_p ↦ rw yes_p (inr (select_complete p rows r c e))
    | inr no_p ↦ rw no_p (select_complete p rows r c e)
  ]

  -- The least of two candidates, the earlier row first.
  abbrev better : (Row → Row → Bool) → Row → Option Row → Row
  better le x none = x
  better le x (some y) = if le x y then x else y

  abbrev least : (Row → Row → Bool) → (Row → Bool) → List Row → Option Row
  least le p [] = none
  least le p (x ∷ rows) =
      let rest = least le p rows in if p x then some (better le x rest) else rest

  pub least-none :
      (le : Row → Row → Bool) (p : Row → Bool) (rows : List Row)
      → least le p rows ≡ none
      → All (λ r. p r ≡ false) rows
  least-none le p [] h = tt
  least-none le p (x ∷ rows) h = elim (Bool-cases (p x)) [
    | inl yes_p ↦ absurd (ground arith)
    | inr no_p ↦ (no_p, least-none le p rows (ground arith))
  ]

  All-mono :
      {P Q : Row → Type 0} (rows : List Row) → ((r : Row) → P r → Q r) → All P rows → All Q rows
  All-mono [] f h = tt
  All-mono (x ∷ rows) f h = (f x h.0, All-mono rows f h.1)

  module _ (le : Row → Row → Bool) (p : Row → Bool) (order : IsOrder le) where
    abbrev IsLeast : Row → List Row → Type 0
    IsLeast r rows = Contains r rows × (p r ≡ true) × All (λ x. p x ≡ true → le r x ≡ true) rows

    IsLeast-cons :
        (x : Row) (rows : List Row) (o : Option Row)
        → p x ≡ true
        → least le p rows ≡ o
        → ((r : Row) → o ≡ some r → IsLeast r rows)
        → IsLeast (better le x o) (x ∷ rows)
    IsLeast-cons x rows none px e ih = (
      inl refl,
      px,
      ((λ _. order.reflexive x), All-mono rows (λ r no_r h. cc) (least-none le p rows e)),
    )
    IsLeast-cons x rows (some y) px e ih =
        let (c, py, below) = ih y refl in
        elim (Bool-cases (le x y)) [
          | inl xy ↦
              subst (λ m. IsLeast m (x ∷ rows)) (ap (λ b. if b then x else y) (sym xy))
                (
                  inl refl,
                  px,
                  (
                    (λ _. order.reflexive x),
                    All-mono rows (λ r yr h. order.transitive x y r xy (yr h)) below,
                  ),
                )
          | inr yx ↦
              subst (λ m. IsLeast m (x ∷ rows)) (ap (λ b. if b then x else y) (sym yx))
                (inr c, py, ((λ _. order.total x y yx), below))
        ]

    pub least-some : (rows : List Row) (r : Row) → least le p rows ≡ some r → IsLeast r rows
    least-some [] r h = cc
    least-some (x ∷ rows) r h = elim (Bool-cases (p x)) [
      | inl px ↦
          let e : some (better le x (least le p rows)) ≡ some r = rw px at h in
          let same : better le x (least le p rows) ≡ r = cc in
          subst (λ m. IsLeast m (x ∷ rows)) same
            (IsLeast-cons x rows (least le p rows) px refl (least-some rows))
      | inr no_p ↦
          let (c, pr, below) = least-some rows r (rw no_p at h) in (inr c, pr, ((λ px. cc), below))
    ]

  abbrev pub in_memory : (key : Row → ℕ) (touch : ℕ → Row → Row) → Repository Row key touch
  in_memory key touch = record {
    find_one = first;
    find_one-some = first-some;
    find_one-none = first-none;
    find = select;
    find_sound = select_sound;
    find_complete = select_complete;
    find_first = least;
    find_first-some = λ le p rows r order h. least-some le p order rows r h;
    find_first-none = least-none;
    update = λ now id patch rows. map (λ r. if key r == id then touch now (patch r) else r) rows;
    update_lem = λ now id patch rows. refl;
  }

-- The state before is kept by the caller, and put back.
abbrev undo : {S E A : Type 0} → S → Result E A × S → Result E A × S
undo s (ok a, s') = (ok a, s')
undo s (err e, s') = (err e, s)

pub undo-ok : {S E A : Type 0} (s : S) (r : Result E A × S) (a : A) → r.0 ≡ ok a → undo s r ≡ r
undo-ok s (ok b, s') a h = refl
undo-ok s (err e, s') a h = cc

pub undo-err :
    {S E A : Type 0} (s : S) (r : Result E A × S) (e : E) → r.0 ≡ err e → undo s r ≡ (err e, s)
undo-err s (ok b, s') e h = cc
undo-err s (err x, s') e h = cc

abbrev pub by_copy : {S E A : Type 0} → Transaction S E A
by_copy = record {
  run = λ m s. undo s (m s);
  commit = λ m s a h. undo-ok s (m s) a h;
  rollback = λ m s e h. undo-err s (m s) e h;
}
