-- ===== src/Access/Outcome.antt =====
-- What a recomputation leaves in the table and in the cache, and what access is then given.
use mathlib.Core.Path.{subst}
use access_service.Prelude.{
  ℕ, String, Bool, true, false, ◌≡◌, refl, sym, ap, ◌∙◌, ◌↔◌, Option, List, [], ◌∷◌, ◌&&◌, not, any,
  map, ◌==◌, ==_refl, str_eq, Contains, any-select, any-congr, arith,
}
use access_service.Access.Evaluator.{ResourceContext, evaluate_access}
use access_service.Access.Decision.{Gives, evaluate_access_iff}
use access_service.Access.Diff.{has_key, AreDistinctKeys}
use access_service.Access.Grants.{
  UserEffectiveRole, UserEffectiveRoleEntry, Table, of_user, effective_role_key, row_key,
  delete_by_user_id,
}
use access_service.Access.Inserted.{holds_key, AreUnique}
use access_service.Access.Synchronized.{sync_effective_roles-holds_key}
use access_service.Access.Projection.{
  Group, Groups, UserAuthorizationProfile, Redis, Projected, set_at, entry_of, target_entries,
  memory_role, sync_user_cache, get_user_authorization_profile, apply_targets,
  recompute_user_effective_roles,
}
use access_service.Access.Targets.{
  in_map, to_map, HasRole, target-HasRole, HasRole-target, IsGranted, has_key-target_entries,
}

never : (u b : Bool) → (not u && (u && b)) ≡ false
never u b = ground arith

any-false : {A : Type 0} (xs : List A) → any (λ x. false) xs ≡ false
any-false [] = refl
any-false (x ∷ xs) = any-false xs

abbrev pub works : Redis
works = record {
  has_client = true;
  incr_fails = false;
  set_fails = false;
  get_fails = false;
  del_fails = false;
}

module _ (table : Table) (fresh : List UserEffectiveRole → ℕ) (groups : Groups) (user_id : ℕ)
    (s : Projected) where
  -- The profile that is read after a recomputation.
  abbrev pub profile_after : Redis → UserAuthorizationProfile
  profile_after redis =
      let after = (recompute_user_effective_roles table fresh redis groups user_id s).1 in
      (get_user_authorization_profile table fresh redis user_id after).0

  profile-roles :
      (profile_after works).roles
      ≡ map memory_role (target_entries groups (groups.groups_of user_id))
  unfolding recompute_user_effective_roles get_user_authorization_profile sync_user_cache
  profile-roles = rw (==_refl user_id, profile_after, set_at) refl

  -- With a working cache, the access that is decided with the profile read after a recomputation is
  -- given exactly where an active group of the user has a role that grants the permission and the
  -- group's scope covers the resource.
  pub access_after_recompute_iff :
      (fold : String → String) (permission : String)
      (role_permissions : String → Option (List String)) (target : ResourceContext)
      (employee_id : String)
      → (evaluate_access fold permission
            (profile_after works).roles
            role_permissions
            target
            employee_id
          ≡ true)
        ↔ ((id : String) × (Contains id (groups.groups_of user_id)
              × ((g : Group) × ((role_id : String) × (HasRole groups id g role_id
                      × Gives fold permission role_permissions target employee_id
                          (memory_role (entry_of g role_id)))))))
  access_after_recompute_iff fold permission role_permissions target employee_id =
      rw profile-roles (
        λ h.
            let (r, (c, given)) =
              (evaluate_access_iff fold permission role_permissions target employee_id
                  (map memory_role (target_entries groups (groups.groups_of user_id)))).0
                h in
            let (e, (d, same)) =
              in_map memory_role r (target_entries groups (groups.groups_of user_id)) c in
            let (id, (i, (g, (role_id, (has, entry))))) =
              target-HasRole groups e (groups.groups_of user_id) d in
            (
              id,
              (
                i,
                (
                  g,
                  (
                    role_id,
                    (
                      has,
                      subst (Gives fold permission role_permissions target employee_id)
                          (same ∙ ap memory_role entry) given,
                    ),
                  ),
                ),
              ),
            ),
        λ (id, (i, (g, (role_id, (has, given))))).
            (evaluate_access_iff fold permission role_permissions target employee_id
                (map memory_role (target_entries groups (groups.groups_of user_id)))).1
              (
                memory_role (entry_of g role_id),
                (
                  to_map memory_role (entry_of g role_id)
                      (target_entries groups (groups.groups_of user_id))
                      (HasRole-target groups id g role_id (groups.groups_of user_id) i has),
                  given,
                ),
              ),
      )

  abbrev targets_now : List UserEffectiveRoleEntry
  targets_now = target_entries groups (groups.groups_of user_id)

  deleted-holds_key :
      (redis : Redis) (k : String)
      → holds_key user_id k (delete_by_user_id table fresh user_id s.rows).1 ≡ false
  deleted-holds_key redis k =
      any-select (λ r. not (of_user table fresh user_id r))
        (λ r. r.user_id == user_id && str_eq (row_key r) k) s.rows
      ∙ any-congr _ (λ r. false) s.rows (λ r c. never (r.user_id == user_id) (str_eq (row_key r) k))
      ∙ any-false s.rows

  apply_targets-holds_key :
      (redis : Redis) (targets : List UserEffectiveRoleEntry)
      → AreUnique s.rows
      → AreDistinctKeys row_key (table.find (of_user table fresh user_id) s.rows)
      → (k : String)
      → holds_key user_id k (apply_targets table fresh redis user_id targets s.rows).1
        ≡ has_key effective_role_key targets k
  unfolding apply_targets
  apply_targets-holds_key redis [] u d k = deleted-holds_key redis k
  apply_targets-holds_key redis (e ∷ es) u d k =
      (sync_effective_roles-holds_key table fresh user_id (e ∷ es) s.rows u d).0 k

  -- In a table with distinct identifiers, where the rows found for the user have distinct keys, and
  -- whatever Redis does: after a recomputation the user holds a key exactly where one of the user's
  -- groups is active and gives the role of the key, with the group's scope.
  pub recompute-holds_key :
      (redis : Redis)
      → AreUnique s.rows
      → AreDistinctKeys row_key (table.find (of_user table fresh user_id) s.rows)
      → (k : String)
      → (holds_key user_id k
            (recompute_user_effective_roles table fresh redis groups user_id s).1.rows
          ≡ true)
        ↔ IsGranted groups (λ id g. g.id) (groups.groups_of user_id) k
  unfolding recompute_user_effective_roles sync_user_cache
  recompute-holds_key redis u d k =
      let (there, back) = has_key-target_entries groups (groups.groups_of user_id) k in
      let same = apply_targets-holds_key redis targets_now u d k in
      (λ h. there (sym same ∙ h), λ g. same ∙ back g)
