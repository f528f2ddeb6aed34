-- ===== src/UserGroups/Roles.antt =====
-- The roles and versions of domain/aggregates/user-group.aggregate.ts.
use access_service.Prelude.{
  ℕ, ◌+◌, ◌≡◌, refl, sym, ap, ◌∙◌, inl, inr, Bool, true, false, Option, List, [], ◌∷◌, ◌++◌, ◌&&◌,
  ◌||◌, not, ◌==◌, ==_iff, ==_refl, if◌then◌else◌, select, arith, Bool-cases,
}
use access_service.UserGroups.Aggregate.{
  UserGroup, with_roles, contains, unique, is_empty, assign_roles, unassign_roles, replace_roles,
}

contains-append :
    (xs ys : List ℕ) (x : ℕ) → contains (xs ++ ys) x ≡ (contains xs x || contains ys x)
contains-append [] ys x = refl
contains-append (y ∷ xs) ys x = ground (arith, contains-append xs ys x)

pub contains-select :
    (p : ℕ → Bool) (xs : List ℕ) (x : ℕ) → contains (select p xs) x ≡ (contains xs x && p x)
contains-select p [] x = refl
contains-select p (y ∷ xs) x = elim (Bool-cases (y == x)) [
  | inl e ↦
      let same : y ≡ x = ground (arith, ==_iff y x) in
      rw (same, ==_refl x)
        (elim (Bool-cases (p x)) [
          | inl h ↦ rw (h, ==_refl x) refl
          | inr h ↦ rw (h, contains-select p xs x) ground (arith, h)
        ])
  | inr e ↦ elim (Bool-cases (p y)) [
    | inl h ↦ rw (h, e) (contains-select p xs x)
    | inr h ↦ rw (h, e) (contains-select p xs x)
  ]
]

contains-unique : (xs : List ℕ) (x : ℕ) → contains (unique xs) x ≡ contains xs x
unfolding unique
contains-unique [] x = refl
contains-unique (y ∷ xs) x = elim (Bool-cases (y == x)) [
  | inl e ↦ rw e refl
  | inr e ↦
      rw (e, contains-select (λ z. not (z == y)) (unique xs) x, contains-unique xs x) (ground arith)
]

contains-is_empty : (xs : List ℕ) (x : ℕ) → is_empty xs ≡ true → contains xs x ≡ false
contains-is_empty [] x h = refl
contains-is_empty (y ∷ ys) x h = ground arith

or_false : (a : Bool) → (a || false) ≡ a
or_false true = refl
or_false false = refl

or_and_not : (a b : Bool) → (a || (b && not a)) ≡ (a || b)
or_and_not true b = refl
or_and_not false true = refl
or_and_not false false = refl

and_not : (a b : Bool) → (a && b) ≡ false → (a && not b) ≡ a
and_not false b h = refl
and_not true true h = sym h
and_not true false h = refl

module _ {Num : Type 0} where
  with_roles-changed :
      (b : Bool) (changed ids : List ℕ) (updated_by : Option ℕ) (g : UserGroup Num)
      → (with_roles b changed ids updated_by g).1 ≡ changed
  with_roles-changed true changed ids updated_by g = refl
  with_roles-changed false changed ids updated_by g = refl

  abbrev WithRoles : List ℕ → UserGroup Num → List ℕ → UserGroup Num × List ℕ → Type 0
  WithRoles ids g changed (h, reported) =
      ((id : ℕ) → contains h.assigned_role_ids id ≡ contains ids id)
      × (h.version ≡ (if is_empty reported then g.version else g.version + 1))

  with_roles_by :
      (b : Bool) (changed ids : List ℕ) (updated_by : Option ℕ) (g : UserGroup Num)
      → is_empty changed ≡ b
      → ((id : ℕ) → b ≡ true → contains ids id ≡ contains g.assigned_role_ids id)
      → WithRoles ids g changed (with_roles b changed ids updated_by g)
  with_roles_by true changed ids updated_by g e h = (λ id. sym (h id refl), rw e refl)
  with_roles_by false changed ids updated_by g e h = (λ id. refl, rw e refl)

  -- Where nothing is reported, the roles stay as they are.
  with_roles-law :
      (changed ids : List ℕ) (updated_by : Option ℕ) (g : UserGroup Num)
      → ((id : ℕ) → is_empty changed ≡ true → contains ids id ≡ contains g.assigned_role_ids id)
      → WithRoles ids g changed (with_roles (is_empty changed) changed ids updated_by g)
  with_roles-law changed ids updated_by g h =
      with_roles_by (is_empty changed) changed ids updated_by g refl h

module _ {Num : Type 0} (role_ids : List ℕ) (updated_by : Option ℕ) (g : UserGroup Num) where
  -- After replaceRoles the group has exactly the roles asked for; those reported as added are the
  -- ones asked for that it did not have, those reported as removed the ones it had that are not asked
  -- for; and the version is one higher.
  pub replace_roles-IsTarget :
      let (h, added, removed) = replace_roles role_ids updated_by g in
      ((id : ℕ)
        → (contains h.assigned_role_ids id ≡ contains role_ids id)
          × (contains added id ≡ (contains role_ids id && not (contains g.assigned_role_ids id)))
          × (contains removed id ≡ (contains g.assigned_role_ids id && not (contains role_ids id))))
      × (h.version ≡ g.version + 1)
  unfolding replace_roles
  replace_roles-IsTarget = (
    λ id. (
      contains-unique role_ids id,
      contains-select (λ i. not (contains g.assigned_role_ids i)) (unique role_ids) id
          ∙ rw (contains-unique role_ids id) refl,
      contains-select (λ i. not (contains (unique role_ids) i)) g.assigned_role_ids id
          ∙ rw (contains-unique role_ids id) refl,
    ),
    refl,
  )

  -- After assignRoles the group has its roles and those asked for, and no others; those reported as
  -- added are the ones asked for that it did not have; and the version is one higher exactly where
  -- any is reported.
  pub assign_roles-IsUnion :
      let (h, added) = assign_roles role_ids updated_by g in
      ((id : ℕ)
        → (contains h.assigned_role_ids id
            ≡ (contains g.assigned_role_ids id || contains role_ids id))
          × (contains added id ≡ (contains role_ids id && not (contains g.assigned_role_ids id))))
      × (h.version ≡ (if is_empty added then g.version else g.version + 1))
  unfolding assign_roles
  assign_roles-IsUnion =
      let has = contains g.assigned_role_ids in
      let added = select (λ i. not (has i)) (unique role_ids) in
      let new : (id : ℕ) → contains added id ≡ (contains role_ids id && not (has id)) = λ id.
        contains-select (λ i. not (has i)) (unique role_ids) id
        ∙ rw (contains-unique role_ids id) refl in
      let asked : (id : ℕ)
          → contains (g.assigned_role_ids ++ added) id ≡ (has id || contains role_ids id) =
        λ id.
          rw (contains-append g.assigned_role_ids added id, new id)
            (or_and_not (has id) (contains role_ids id)) in
      let (ids, version) = with_roles-law added (g.assigned_role_ids ++ added) updated_by g (λ id e.
        contains-append g.assigned_role_ids added id
        ∙ rw (contains-is_empty added id e) (or_false (has id))) in
      (
        λ id. (
          ids id ∙ asked id,
          ap (λ xs. contains xs id)
                (with_roles-changed (is_empty added) added (g.assigned_role_ids ++ added) updated_by
                  g)
              ∙ new id,
        ),
        version,
      )

  -- After unassignRoles the group has its roles but those given; those reported as removed are the
  -- given ones that it had; and the version is one higher exactly where any is reported.
  pub unassign_roles-IsDifference :
      let (h, removed) = unassign_roles role_ids updated_by g in
      ((id : ℕ)
        → (contains h.assigned_role_ids id
            ≡ (contains g.assigned_role_ids id && not (contains role_ids id)))
          × (contains removed id ≡ (contains g.assigned_role_ids id && contains role_ids id)))
      × (h.version ≡ (if is_empty removed then g.version else g.version + 1))
  unfolding unassign_roles
  unassign_roles-IsDifference =
      let has = contains g.assigned_role_ids in
      let removed = select (contains role_ids) g.assigned_role_ids in
      let ids = select (λ i. not (contains role_ids i)) g.assigned_role_ids in
      let kept : (id : ℕ) → contains ids id ≡ (has id && not (contains role_ids id)) =
        λ id. contains-select (λ i. not (contains role_ids i)) g.assigned_role_ids id in
      let gone : (id : ℕ) → contains removed id ≡ (has id && contains role_ids id) =
        λ id. contains-select (contains role_ids) g.assigned_role_ids id in
      let (same, version) = with_roles-law removed ids updated_by g (λ id e.
        kept id
        ∙ and_not (has id) (contains role_ids id)
            (sym (gone id) ∙ contains-is_empty removed id e)) in
      (
        λ id. (
          same id ∙ kept id,
          ap (λ xs. contains xs id) (with_roles-changed (is_empty removed) removed ids updated_by g)
              ∙ gone id,
        ),
        version,
      )
