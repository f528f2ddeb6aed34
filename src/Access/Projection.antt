-- ===== src/Access/Projection.antt =====
-- services/effective-role-projection.service.ts and services/user-authorization-cache.service.ts of
-- src/modules/authorization. The reads of groups, their roles and memberships are parameters.
use access_service.Prelude.{
  ℕ, ◌+◌, String, Bool, Option, none, some, List, [], ◌∷◌, ◌++◌, ◌&&◌, not, map, length, ◌==◌,
  if◌then◌else◌,
}
use access_service.UserGroups.Aggregate.{UserGroupStatus, active, inactive}
use access_service.Access.Evaluator.{EffectiveUserRole}
use access_service.Access.Grants.{
  UserEffectiveRole, UserEffectiveRoleEntry, Table, Counts, or_null, of_user, delete_by_user_id,
  sync_effective_roles_for_user,
}

-- What the projection reads of a group.
pub record Group : Type 0 where
  pub id : String
  pub status : UserGroupStatus
  pub scope_type : String
  pub scope_ref_id : Option String

-- `findById`, `findByGroup` with the roles' identifiers, and `findByUserId` with the groups'.
pub record Groups : Type 0 where
  pub find_by_id : String → Option Group
  pub roles_of : String → List String
  pub groups_of : ℕ → List String

pub record UserAuthorizationProfile : Type 0 where
  pub version : ℕ
  pub roles : List EffectiveUserRole

-- Whether a client is there, and which of its calls fail.
pub record Redis : Type 0 where
  pub has_client : Bool
  pub incr_fails : Bool
  pub set_fails : Bool
  pub get_fails : Bool
  pub del_fails : Bool

-- The rows of effective roles, and each user's version counter and cached profile.
pub record Projected : Type 0 where
  pub rows : List UserEffectiveRole
  pub versions : ℕ → ℕ
  pub cache : ℕ → Option UserAuthorizationProfile

pub record RecomputeResult : Type 0 where
  pub inserted : ℕ
  pub deleted : ℕ
  pub active_roles_count : ℕ

abbrev pub set_at : {A : Type 0} → ℕ → A → (ℕ → A) → ℕ → A
set_at k a f j = if j == k then a else f j

abbrev pub entry_of : Group → String → UserEffectiveRoleEntry
entry_of g role_id = record {
  role_id = role_id;
  source_group_id = g.id;
  scope_type = g.scope_type;
  scope_entity_id = or_null g.scope_ref_id;
}

abbrev pub entries_by_status : UserGroupStatus → Group → List String → List UserEffectiveRoleEntry
entries_by_status active g role_ids = map (entry_of g) role_ids
entries_by_status inactive g role_ids = []

-- `!group || group.status !== ACTIVE` skips the membership.
abbrev pub entries_of : Option Group → List String → List UserEffectiveRoleEntry
entries_of none role_ids = []
entries_of (some g) role_ids = entries_by_status g.status g role_ids

abbrev pub target_entries : Groups → List String → List UserEffectiveRoleEntry
target_entries groups [] = []
target_entries groups (id ∷ ids) =
    entries_of (groups.find_by_id id) (groups.roles_of id) ++ target_entries groups ids

abbrev pub memory_role : UserEffectiveRoleEntry → EffectiveUserRole
memory_role e = record {
  role_id = e.role_id;
  source_group_id = e.source_group_id;
  scope = record { type_name = e.scope_type; ref_id = or_null e.scope_entity_id };
}

module _ (table : Table) (fresh : List UserEffectiveRole → ℕ) (redis : Redis) where
  -- The roles given, or those of the table.
  abbrev pub roles_or_rows :
      Option (List EffectiveUserRole) → ℕ → List UserEffectiveRole → List EffectiveUserRole
  roles_or_rows (some roles) user_id rows = roles
  roles_or_rows none user_id rows =
      map (λ r. memory_role r.entry) (table.find (of_user table fresh user_id) rows)

  abbrev pub counted : Bool
  counted = redis.has_client && not redis.incr_fails

  unfoldable pub sync_user_cache :
      ℕ → Option (List EffectiveUserRole) → Projected → UserAuthorizationProfile × Projected
  sync_user_cache user_id explicit_roles s =
      let profile : UserAuthorizationProfile = record {
        version = if counted then s.versions user_id + 1 else 1;
        roles = roles_or_rows explicit_roles user_id s.rows;
      } in
      (
        profile,
        record s {
          versions =
              if counted then set_at user_id (s.versions user_id + 1) s.versions else s.versions;
          cache = if redis.set_fails then s.cache else set_at user_id (some profile) s.cache;
        },
      )

  abbrev pub cached_or :
      Option UserAuthorizationProfile
      → UserAuthorizationProfile × Projected
      → Projected
      → UserAuthorizationProfile × Projected
  cached_or none recovered s = recovered
  cached_or (some profile) recovered s = (profile, s)

  unfoldable pub get_user_authorization_profile :
      ℕ → Projected → UserAuthorizationProfile × Projected
  unfolding sync_user_cache
  get_user_authorization_profile user_id s =
      cached_or (if redis.get_fails then none else s.cache user_id) (sync_user_cache user_id none s)
        s

  unfoldable pub invalidate_user_cache : ℕ → Projected → Projected
  invalidate_user_cache user_id s = record s {
    cache = if redis.del_fails then s.cache else set_at user_id none s.cache;
  }

  -- No target deletes all rows of the user.
  unfoldable pub apply_targets :
      ℕ → List UserEffectiveRoleEntry → List UserEffectiveRole → Counts × List UserEffectiveRole
  unfolding sync_effective_roles_for_user
  apply_targets user_id [] rows =
      let (n, kept) = delete_by_user_id table fresh user_id rows in
      (record { inserted = 0; deleted = n }, kept)
  apply_targets user_id (e ∷ es) rows =
      sync_effective_roles_for_user table fresh user_id (e ∷ es) rows

  unfoldable pub recompute_user_effective_roles :
      Groups → ℕ → Projected → RecomputeResult × Projected
  unfolding apply_targets sync_user_cache
  recompute_user_effective_roles groups user_id s =
      let targets = target_entries groups (groups.groups_of user_id) in
      let (diff, rows) = apply_targets user_id targets s.rows in
      let (profile, after) =
        sync_user_cache user_id (some (map memory_role targets)) (record s { rows = rows }) in
      (
        record {
          inserted = diff.inserted;
          deleted = diff.deleted;
          active_roles_count = length (map memory_role targets);
        },
        after,
      )
