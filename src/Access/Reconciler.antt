-- ===== src/Access/Reconciler.antt =====
-- `reconcileSingleUser` of src/modules/user-groups/services/membership-reconciler.service.ts, with
-- repositories/user-group-membership.repository.ts.
use access_service.Prelude.{
  ℕ, String, Bool, true, false, Option, none, some, List, [], ◌∷◌, ◌++◌, ◌&&◌, ◌||◌, not, any, map,
  select, ltb, str_eq, ◌==◌, if◌then◌else◌,
}
use access_service.UserGroups.Aggregate.{UserGroupStatus, active, inactive}
use access_service.Access.Grants.{
  UserEffectiveRole, UserEffectiveRoleEntry, Table, or_null, sync_effective_roles_for_user,
}
use access_service.Access.Projection.{Group, Groups}

pub record UserGroupMembership : Type 0 where
  pub user_id : ℕ
  pub group_id : String

pub record MembershipReconciled : Type 0 where
  pub user_id : ℕ
  pub added_group_ids : List String
  pub removed_group_ids : List String
  pub effective_roles_inserted : ℕ
  pub effective_roles_deleted : ℕ

pub record Memberships : Type 0 where
  pub memberships : List UserGroupMembership
  pub rows : List UserEffectiveRole
  pub outbox : List MembershipReconciled

pub record SingleUserReconciliationResult : Type 0 where
  pub user_id : ℕ
  pub added_group_ids : List String
  pub removed_group_ids : List String
  pub effective_roles_changed : Bool

abbrev pub includes_text : List String → String → Bool
includes_text xs s = any (λ x. str_eq x s) xs

-- `new Set(xs)`
unfoldable pub text_set : List String → List String
text_set [] = []
text_set (x ∷ xs) = x ∷ select (λ y. not (str_eq y x)) (text_set xs)

abbrev pub groups_of_user : ℕ → List UserGroupMembership → List String
groups_of_user user_id [] = []
groups_of_user user_id (m ∷ ms) =
    let rest = groups_of_user user_id ms in if m.user_id == user_id then m.group_id ∷ rest else rest

abbrev pub insert_memberships :
    ℕ → List String → List UserGroupMembership → List UserGroupMembership
insert_memberships user_id [] ms = ms
insert_memberships user_id (g ∷ gs) ms =
    insert_memberships user_id gs (ms ++ record { user_id = user_id; group_id = g } ∷ [])

abbrev pub delete_memberships :
    ℕ → List String → List UserGroupMembership → List UserGroupMembership
delete_memberships user_id [] ms = ms
delete_memberships user_id (g ∷ gs) ms =
    delete_memberships user_id gs
      (select (λ m. not (m.user_id == user_id && str_eq m.group_id g)) ms)

abbrev pub role_entry : String → Group → String → UserEffectiveRoleEntry
role_entry group_id g role_id = record {
  role_id = role_id;
  source_group_id = group_id;
  scope_type = g.scope_type;
  scope_entity_id = or_null g.scope_ref_id;
}

abbrev pub role_entries :
    UserGroupStatus → String → Group → List String → List UserEffectiveRoleEntry
role_entries active group_id g role_ids = map (role_entry group_id g) role_ids
role_entries inactive group_id g role_ids = []

abbrev pub group_entries : Option Group → String → List String → List UserEffectiveRoleEntry
group_entries none group_id role_ids = []
group_entries (some g) group_id role_ids = role_entries g.status group_id g role_ids

abbrev pub target_roles : Groups → List String → List UserEffectiveRoleEntry
target_roles groups [] = []
target_roles groups (id ∷ ids) =
    group_entries (groups.find_by_id id) id (groups.roles_of id) ++ target_roles groups ids

abbrev pub both_empty : List String → List String → Bool
both_empty [] [] = true
both_empty _ _ = false

module _ (table : Table) (fresh : List UserEffectiveRole → ℕ) (groups : Groups) where
  -- Where no membership changes, nothing is written.
  abbrev pub apply_memberships :
      Bool
      → ℕ
      → List String
      → List String
      → List String
      → Memberships
      → SingleUserReconciliationResult × Memberships
  apply_memberships true user_id targets added removed w = (
    record {
      user_id = user_id;
      added_group_ids = [];
      removed_group_ids = [];
      effective_roles_changed = false;
    },
    w,
  )
  apply_memberships false user_id targets added removed w =
      let (diff, rows) =
        sync_effective_roles_for_user table fresh user_id (target_roles groups targets) w.rows in
      (
        record {
          user_id = user_id;
          added_group_ids = added;
          removed_group_ids = removed;
          effective_roles_changed = ltb 0 diff.inserted || ltb 0 diff.deleted;
        },
        record {
          memberships =
              delete_memberships user_id removed (insert_memberships user_id added w.memberships);
          rows = rows;
          outbox =
              record {
                user_id = user_id;
                added_group_ids = added;
                removed_group_ids = removed;
                effective_roles_inserted = diff.inserted;
                effective_roles_deleted = diff.deleted;
              }
              ∷ w.outbox;
        },
      )

  unfoldable pub reconcile_single_user :
      ℕ → List String → Memberships → SingleUserReconciliationResult × Memberships
  unfolding text_set sync_effective_roles_for_user
  reconcile_single_user user_id targets w =
      let current = text_set (groups_of_user user_id w.memberships) in
      let target = text_set targets in
      let added = select (λ g. not (includes_text current g)) target in
      let removed = select (λ g. not (includes_text target g)) current in
      apply_memberships (both_empty added removed) user_id targets added removed w
