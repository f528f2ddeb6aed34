-- ===== src/UserGroups/Undone.antt =====
-- Roles that are assigned and unassigned again (domain/aggregates/user-group.aggregate.ts).
use access_service.Prelude.{
  ℕ, ◌+◌, ◌≡◌, refl, sym, ap, ◌∙◌, Bool, true, false, Option, List, [], ◌∷◌, ◌++◌, not, ==_refl,
  if◌then◌else◌, select, select-append, append_nil, All, arith, Bool-cases, inl, inr,
}
use access_service.UserGroups.Aggregate.{
  UserGroup, with_roles, contains, unique, is_empty, assign_roles, unassign_roles,
}
use access_service.UserGroups.Roles.{contains-select}

select_kept : (p : ℕ → Bool) (xs : List ℕ) → All (λ x. p x ≡ true) xs → select p xs ≡ xs
select_kept p [] h = refl
select_kept p (x ∷ xs) h = rw (h.0, select_kept p xs h.1) refl

select_dropped : (p : ℕ → Bool) (xs : List ℕ) → All (λ x. p x ≡ false) xs → select p xs ≡ []
select_dropped p [] h = refl
select_dropped p (x ∷ xs) h = rw h.0 (select_dropped p xs h.1)

-- Every member passes a test that members pass.
All-contained :
    (p : ℕ → Bool) (b : Bool) (ys xs : List ℕ)
    → ((x : ℕ) → contains ys x ≡ true → p x ≡ b)
    → ((x : ℕ) → contains xs x ≡ true → contains ys x ≡ true)
    → All (λ x. p x ≡ b) xs
All-contained p b ys [] h k = tt
All-contained p b ys (x ∷ xs) h k =
    (h x (k x (ground (arith, ==_refl x))), All-contained p b ys xs h (λ z e. k z (ground arith)))

module _ {Num : Type 0} (role_ids : List ℕ) (first second : Option ℕ) (g : UserGroup Num) where
  abbrev fresh : List ℕ
  fresh = select (λ id. not (contains g.assigned_role_ids id)) (unique role_ids)

  not_had : (x : ℕ) → contains fresh x ≡ true → contains g.assigned_role_ids x ≡ false
  not_had x h =
      ground
        (arith, contains-select (λ id. not (contains g.assigned_role_ids id)) (unique role_ids) x)

  not_fresh : (x : ℕ) → contains g.assigned_role_ids x ≡ true → contains fresh x ≡ false
  not_fresh x h = elim (Bool-cases (contains fresh x)) [
    | inl e ↦ ground (arith, not_had x e)
    | inr e ↦ e
  ]

  kept : select (λ id. not (contains fresh id)) (g.assigned_role_ids ++ fresh) ≡ g.assigned_role_ids
  kept =
      let p = λ (id : ℕ). not (contains fresh id) in
      select-append p g.assigned_role_ids fresh
      ∙ rw
          (
            select_kept p g.assigned_role_ids (
                All-contained p true g.assigned_role_ids g.assigned_role_ids
                  (λ x h. ap not (not_fresh x h)) (λ x h. h)),
            select_dropped p fresh (All-contained p false fresh fresh (λ x h. ap not h) (λ x h. h)),
          )
          (sym (append_nil g.assigned_role_ids))

  gone : select (λ id. contains fresh id) (g.assigned_role_ids ++ fresh) ≡ fresh
  gone =
      let p = λ (id : ℕ). contains fresh id in
      select-append p g.assigned_role_ids fresh
      ∙ rw
          (
            select_dropped p g.assigned_role_ids (
                All-contained p false g.assigned_role_ids g.assigned_role_ids not_fresh (λ x h. h)),
            select_kept p fresh (All-contained p true fresh fresh (λ x h. h) (λ x h. h)),
          )
          refl

  -- Unassigning what assignRoles reports as added gives back the list of roles that the group had,
  -- in its order, and reports the same roles as removed; the version is two higher, or as it was
  -- where nothing was added.
  pub unassign_roles-assign_roles :
      let (h, added) = assign_roles role_ids first g in
      let (back, removed) = unassign_roles added second h in
      (back.assigned_role_ids ≡ g.assigned_role_ids)
      × (removed ≡ added)
      × (back.version ≡ (if is_empty added then g.version else g.version + 2))
  unfolding assign_roles unassign_roles
  unassign_roles-assign_roles = go fresh refl kept gone (not_had)
    where
      go :
          (f : List ℕ)
          → f ≡ fresh
          → select (λ id. not (contains f id)) (g.assigned_role_ids ++ f) ≡ g.assigned_role_ids
          → select (λ id. contains f id) (g.assigned_role_ids ++ f) ≡ f
          → ((x : ℕ) → contains f x ≡ true → contains g.assigned_role_ids x ≡ false)
          → let (h, added) = with_roles (is_empty f) f (g.assigned_role_ids ++ f) first g in
            let (back, removed) = unassign_roles added second h in
            (back.assigned_role_ids ≡ g.assigned_role_ids)
            × (removed ≡ added)
            × (back.version ≡ (if is_empty added then g.version else g.version + 2))
      go [] e k r n =
          let none_gone : select (λ id. contains [] id) g.assigned_role_ids ≡ [] =
            select_dropped (λ id. contains [] id) g.assigned_role_ids
              (All-contained (λ id. contains [] id) false g.assigned_role_ids g.assigned_role_ids
                (λ x h. refl) (λ x h. h)) in
          rw none_gone (refl, refl, refl)
      go (x ∷ f) e k r n = rw (r, k) (refl, refl, omega arith)
