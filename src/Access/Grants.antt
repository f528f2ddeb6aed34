-- ===== src/Access/Grants.antt =====
-- repositories/user-effective-role.repository.ts of src/modules/authorization and of
-- src/modules/user-groups, which keep the rows of a user's effective roles. Rows are those of the
-- request's tenant. The table's searches are the interface of Database; identifiers that take part
-- in a key are texts.
use Prim.Native.String.{◌++◌ as str_append}
use access_service.Prelude.{
  ℕ, String, Bool, false, Option, none, some, List, [], ◌∷◌, ◌++◌, ◌&&◌, not, any, map, select,
  length, str_eq, ◌==◌, if◌then◌else◌,
}
use access_service.Database.{Repository}
use access_service.Access.Diff.{has, put_all, values_where}

pub record UserEffectiveRoleEntry : Type 0 where
  pub role_id : String
  pub source_group_id : String
  pub scope_type : String
  pub scope_entity_id : Option String

pub record UserEffectiveRole : Type 0 where
  pub id : ℕ
  pub user_id : ℕ
  pub entry : UserEffectiveRoleEntry

-- `scopeEntityId || 'null'`
abbrev pub entity_text : Option String → String
entity_text none = "null"
entity_text (some s) = if str_eq s "" then "null" else s

-- `GenerateUserEffectiveRoleKey`
unfoldable pub effective_role_key : UserEffectiveRoleEntry → String
effective_role_key e = str_append e.role_id (
    str_append ":" (
      str_append e.source_group_id (
        str_append ":" (str_append e.scope_type (str_append ":" (entity_text e.scope_entity_id))))))

abbrev pub row_key : UserEffectiveRole → String
row_key r = effective_role_key r.entry

-- `scopeEntityId || null`
abbrev pub or_null : Option String → Option String
or_null none = none
or_null (some s) = if str_eq s "" then none else some s

abbrev pub stored : UserEffectiveRoleEntry → UserEffectiveRoleEntry
stored e = record e { scope_entity_id = or_null e.scope_entity_id }

-- In a unique index a null differs from every null.
abbrev pub same_entity : Option String → Option String → Bool
same_entity (some a) (some b) = str_eq a b
same_entity _ _ = false

-- `uq_user_effective_roles_grant`
abbrev pub same_grant : UserEffectiveRole → UserEffectiveRole → Bool
same_grant a b =
    a.user_id == b.user_id
    && (str_eq a.entry.role_id b.entry.role_id
        && (str_eq a.entry.source_group_id b.entry.source_group_id
            && (str_eq a.entry.scope_type b.entry.scope_type
                && same_entity a.entry.scope_entity_id b.entry.scope_entity_id)))

abbrev pub Table : Type 0
Table = Repository UserEffectiveRole (λ r. r.id) (λ now r. r)

-- How many rows a synchronization inserts and deletes.
pub record Counts : Type 0 where
  pub inserted : ℕ
  pub deleted : ℕ

-- A table's next identifier.
module _ (table : Table) (fresh : List UserEffectiveRole → ℕ) where
  abbrev pub of_user : ℕ → UserEffectiveRole → Bool
  of_user user_id r = r.user_id == user_id

  -- `INSERT ... ON CONFLICT DO NOTHING`
  abbrev pub insert_or_ignore :
      ℕ → List UserEffectiveRoleEntry → List UserEffectiveRole → List UserEffectiveRole
  insert_or_ignore user_id [] rows = rows
  insert_or_ignore user_id (e ∷ es) rows =
      let row : UserEffectiveRole = record {
        id = fresh rows;
        user_id = user_id;
        entry = stored e;
      } in
      insert_or_ignore user_id es (if any (same_grant row) rows then rows else rows ++ row ∷ [])

  abbrev pub delete_by_ids : List ℕ → List UserEffectiveRole → List UserEffectiveRole
  delete_by_ids ids rows = select (λ r. not (any (λ id. id == r.id) ids)) rows

  -- `syncEffectiveRolesForUser`, and `syncUserEffectiveRoles` but for the shape of an entry.
  unfoldable pub sync_effective_roles_for_user :
      ℕ → List UserEffectiveRoleEntry → List UserEffectiveRole → Counts × List UserEffectiveRole
  unfolding put_all
  sync_effective_roles_for_user user_id targets rows =
      let current = put_all row_key (table.find (of_user user_id) rows) [] in
      let target = put_all effective_role_key targets [] in
      let to_delete = map (λ r. r.id) (values_where (λ k. not (has target k)) current) in
      let to_insert = values_where (λ k. not (has current k)) target in
      (
        record { inserted = length to_insert; deleted = length to_delete },
        insert_or_ignore user_id to_insert (delete_by_ids to_delete rows),
      )

  -- `deleteByUserId`
  abbrev pub delete_by_user_id : ℕ → List UserEffectiveRole → ℕ × List UserEffectiveRole
  delete_by_user_id user_id rows =
      (length (select (of_user user_id) rows), select (λ r. not (of_user user_id r)) rows)
