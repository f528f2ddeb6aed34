-- ===== src/Access/Targets.antt =====
-- Whose roles the entries are that a recomputation and a reconciliation ask for.
use mathlib.Core.Path.{subst}
use access_service.Prelude.{
  String, true, ◌≡◌, refl, sym, ap, ◌∙◌, ◌↔◌, ◌⊎◌, inl, inr, Option, none, some, List, [], ◌∷◌,
  ◌++◌, map, str_eq, Contains,
}
use access_service.UserGroups.Aggregate.{UserGroupStatus, active, inactive}
use access_service.Access.Diff.{has_key}
use access_service.Access.Grants.{UserEffectiveRoleEntry, or_null, effective_role_key}
use access_service.Access.Projection.{
  Group, Groups, entry_of, entries_of, entries_by_status, target_entries,
}
use access_service.Prelude.{any-witness, any_of_Contains, eq_iff}
use access_service.Access.Reconciler.{role_entry, role_entries, group_entries, target_roles}

module _ {A : Type 0} where
  pub in_append : (a : A) (xs ys : List A) → Contains a (xs ++ ys) → Contains a xs ⊎ Contains a ys
  in_append a [] ys h = inr h
  in_append a (x ∷ xs) ys (inl e) = inl (inl e)
  in_append a (x ∷ xs) ys (inr h) = elim (in_append a xs ys h) [
    | inl c ↦ inl (inr c)
    | inr c ↦ inr c
  ]

  pub in_left : (a : A) (xs ys : List A) → Contains a xs → Contains a (xs ++ ys)
  in_left a [] ys h = absurd h
  in_left a (x ∷ xs) ys (inl e) = inl e
  in_left a (x ∷ xs) ys (inr h) = inr (in_left a xs ys h)

  pub in_right : (a : A) (xs ys : List A) → Contains a ys → Contains a (xs ++ ys)
  in_right a [] ys h = h
  in_right a (x ∷ xs) ys h = inr (in_right a xs ys h)

module _ {A B : Type 0} (f : A → B) where
  pub in_map : (b : B) (xs : List A) → Contains b (map f xs) → (a : A) × (Contains a xs × (b ≡ f a))
  in_map b [] h = absurd h
  in_map b (x ∷ xs) (inl e) = (x, (inl refl, e))
  in_map b (x ∷ xs) (inr h) = let (a, (c, e)) = in_map b xs h in (a, (inr c, e))

  pub to_map : (a : A) (xs : List A) → Contains a xs → Contains (f a) (map f xs)
  to_map a [] h = absurd h
  to_map a (x ∷ xs) (inl e) = inl (ap f e)
  to_map a (x ∷ xs) (inr h) = inr (to_map a xs h)

module _ (groups : Groups) where
  -- An active group with a role of it.
  abbrev pub HasRole : String → Group → String → Type 0
  HasRole id g role_id =
      (groups.find_by_id id ≡ some g) × (g.status ≡ active) × Contains role_id (groups.roles_of id)

  entry-HasRole :
      (e : UserEffectiveRoleEntry) (id : String) (found : Option Group)
      → groups.find_by_id id ≡ found
      → Contains e (entries_of found (groups.roles_of id))
      → (g : Group) × ((role_id : String) × (HasRole id g role_id × (e ≡ entry_of g role_id)))
  entry-HasRole e id none f h = absurd h
  entry-HasRole e id (some g) f h = by_status g.status refl h
    where
      by_status :
          (s : UserGroupStatus)
          → g.status ≡ s
          → Contains e (entries_by_status s g (groups.roles_of id))
          → (g : Group) × ((role_id : String) × (HasRole id g role_id × (e ≡ entry_of g role_id)))
      by_status inactive w c = absurd c
      by_status active w c =
          let (role_id, (d, q)) = in_map (entry_of g) e (groups.roles_of id) c in
          (g, (role_id, ((f, w, d), q)))

  pub target-HasRole :
      (e : UserEffectiveRoleEntry) (ids : List String)
      → Contains e (target_entries groups ids)
      → (id : String) × (Contains id ids
          × ((g : Group) × ((role_id : String) × (HasRole id g role_id
                  × (e ≡ entry_of g role_id)))))
  target-HasRole e [] h = absurd h
  target-HasRole e (id ∷ ids) h =
      elim (in_append e (entries_of (groups.find_by_id id) (groups.roles_of id))
        (target_entries groups ids) h) [
          | inl c ↦ (id, (inl refl, entry-HasRole e id (groups.find_by_id id) refl c))
          | inr c ↦ let (id', (d, r)) = target-HasRole e ids c in (id', (inr d, r))
        ]

  HasRole-entry :
      (id : String) (g : Group) (role_id : String)
      → HasRole id g role_id
      → Contains (entry_of g role_id) (entries_of (groups.find_by_id id) (groups.roles_of id))
  HasRole-entry id g role_id (f, w, d) =
      rw (f, w) (to_map (entry_of g) role_id (groups.roles_of id) d)

  pub HasRole-target :
      (id : String) (g : Group) (role_id : String) (ids : List String)
      → Contains id ids
      → HasRole id g role_id
      → Contains (entry_of g role_id) (target_entries groups ids)
  HasRole-target id g role_id [] c h = absurd c
  HasRole-target id g role_id (x ∷ xs) (inl e) h =
      in_left (entry_of g role_id) (entries_of (groups.find_by_id x) (groups.roles_of x))
        (target_entries groups xs) (rw (← e) (HasRole-entry id g role_id h))
  HasRole-target id g role_id (x ∷ xs) (inr c) h =
      in_right (entry_of g role_id) (entries_of (groups.find_by_id x) (groups.roles_of x))
        (target_entries groups xs) (HasRole-target id g role_id xs c h)

  -- The reconciliation's entry of a role, by the group's identifier in the membership.
  grant-HasRole :
      (e : UserEffectiveRoleEntry) (id : String) (found : Option Group)
      → groups.find_by_id id ≡ found
      → Contains e (group_entries found id (groups.roles_of id))
      → (g : Group) × ((role_id : String) × (HasRole id g role_id × (e ≡ role_entry id g role_id)))
  grant-HasRole e id none f h = absurd h
  grant-HasRole e id (some g) f h = by_status g.status refl h
    where
      by_status :
          (s : UserGroupStatus)
          → g.status ≡ s
          → Contains e (role_entries s id g (groups.roles_of id))
          → (g : Group) × ((role_id : String) × (HasRole id g role_id
                × (e ≡ role_entry id g role_id)))
      by_status inactive w c = absurd c
      by_status active w c =
          let (role_id, (d, q)) = in_map (role_entry id g) e (groups.roles_of id) c in
          (g, (role_id, ((f, w, d), q)))

  grants-HasRole :
      (e : UserEffectiveRoleEntry) (ids : List String)
      → Contains e (target_roles groups ids)
      → (id : String) × (Contains id ids
          × ((g : Group) × ((role_id : String) × (HasRole id g role_id
                  × (e ≡ role_entry id g role_id)))))
  grants-HasRole e [] h = absurd h
  grants-HasRole e (id ∷ ids) h =
      elim (in_append e (group_entries (groups.find_by_id id) id (groups.roles_of id))
        (target_roles groups ids) h) [
          | inl c ↦ (id, (inl refl, grant-HasRole e id (groups.find_by_id id) refl c))
          | inr c ↦ let (id', (d, r)) = grants-HasRole e ids c in (id', (inr d, r))
        ]

  HasRole-grant :
      (id : String) (g : Group) (role_id : String)
      → HasRole id g role_id
      → Contains
          (role_entry id g role_id)
          (group_entries (groups.find_by_id id) id (groups.roles_of id))
  HasRole-grant id g role_id (f, w, d) =
      rw (f, w) (to_map (role_entry id g) role_id (groups.roles_of id) d)

  HasRole-grants :
      (id : String) (g : Group) (role_id : String) (ids : List String)
      → Contains id ids
      → HasRole id g role_id
      → Contains (role_entry id g role_id) (target_roles groups ids)
  HasRole-grants id g role_id [] c h = absurd c
  HasRole-grants id g role_id (x ∷ xs) (inl e) h =
      in_left (role_entry id g role_id) (group_entries (groups.find_by_id x) x (groups.roles_of x))
        (target_roles groups xs)
        (subst
          (λ y.
            Contains (role_entry id g role_id)
              (group_entries (groups.find_by_id y) y (groups.roles_of y)))
          e (HasRole-grant id g role_id h))
  HasRole-grants id g role_id (x ∷ xs) (inr c) h =
      in_right (role_entry id g role_id) (group_entries (groups.find_by_id x) x (groups.roles_of x))
        (target_roles groups xs) (HasRole-grants id g role_id xs c h)

  -- The key of a role that an active group of the list gives, with the group's scope.
  abbrev pub IsGranted : (String → Group → String) → List String → String → Type 0
  IsGranted source ids k =
      (id : String) × (Contains id ids
        × ((g : Group) × ((role_id : String) × (HasRole id g role_id
                × (effective_role_key (record {
                  role_id = role_id;
                  source_group_id = source id g;
                  scope_type = g.scope_type;
                  scope_entity_id = or_null g.scope_ref_id;
                })
                    ≡ k)))))

  pub has_key-target_entries :
      (ids : List String) (k : String)
      → (has_key effective_role_key (target_entries groups ids) k ≡ true)
        ↔ IsGranted (λ id g. g.id) ids k
  has_key-target_entries ids k = (
    λ h.
        let (e, (c, same)) =
          any-witness (λ x. str_eq (effective_role_key x) k) (target_entries groups ids) h in
        let (id, (i, (g, (role_id, (has, entry))))) = target-HasRole e ids c in
        (
          id,
          (
            i,
            (
              g,
              (
                role_id,
                (has, ap effective_role_key (sym entry) ∙ (eq_iff (effective_role_key e) k).0 same),
              ),
            ),
          ),
        ),
    λ (id, (i, (g, (role_id, (has, same))))).
        any_of_Contains (λ x. str_eq (effective_role_key x) k) (entry_of g role_id)
          (target_entries groups ids) (HasRole-target id g role_id ids i has)
          ((eq_iff (effective_role_key (entry_of g role_id)) k).1 same),
  )

  pub has_key-target_roles :
      (ids : List String) (k : String)
      → (has_key effective_role_key (target_roles groups ids) k ≡ true)
        ↔ IsGranted (λ id g. id) ids k
  has_key-target_roles ids k = (
    λ h.
        let (e, (c, same)) =
          any-witness (λ x. str_eq (effective_role_key x) k) (target_roles groups ids) h in
        let (id, (i, (g, (role_id, (has, entry))))) = grants-HasRole e ids c in
        (
          id,
          (
            i,
            (
              g,
              (
                role_id,
                (has, ap effective_role_key (sym entry) ∙ (eq_iff (effective_role_key e) k).0 same),
              ),
            ),
          ),
        ),
    λ (id, (i, (g, (role_id, (has, same))))).
        any_of_Contains (λ x. str_eq (effective_role_key x) k) (role_entry id g role_id)
          (target_roles groups ids) (HasRole-grants id g role_id ids i has)
          ((eq_iff (effective_role_key (role_entry id g role_id)) k).1 same),
  )
