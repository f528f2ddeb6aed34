-- ===== src/UserGroups/Aggregate.antt =====
-- domain/aggregates/user-group.aggregate.ts. A method returns the aggregate after it, and throws
-- before it writes.
use access_service.Prelude.{
  ℕ, ◌+◌, String, Bool, true, false, Option, none, some, List, [], ◌∷◌, ◌++◌, not, any, ltb, ◌==◌,
  if◌then◌else◌, get_or_else, Result, ok, err, select, length,
}
use access_service.UserGroups.Text.{is_blank}
use access_service.UserGroups.Rule.{RawRule, RuleError, validate_rule}
use access_service.UserGroups.Scope.{
  ScopeType, ScopeError, name_empty, invalid_scope_type, ScopeConfig, validate_scope,
}

pub data UserGroupStatus : Type 0 where
  active inactive : UserGroupStatus

pub data GroupError : Type 0 where
  scope_error : ScopeError → GroupError
  rule_error : RuleError → GroupError
  already_inactive already_active : GroupError

pub record UserGroup (Num : Type 0) : Type 0 where
  pub id : Option ℕ
  pub tenant_code : ℕ
  pub name : String
  pub description : Option String
  pub status : UserGroupStatus
  pub scope_type : ScopeType
  pub scope_ref_id : Option String
  pub matching_rule : RawRule Num
  pub rule_attribute_keys : List String
  pub version : ℕ
  pub projection_version : ℕ
  pub assigned_role_ids : List ℕ
  pub created_by : Option ℕ
  pub updated_by : Option ℕ

-- The arguments of `create`; a scope type that is no member of the enumeration is `none`.
pub record CreateProps (Num : Type 0) : Type 0 where
  pub id : Option ℕ
  pub tenant_code : ℕ
  pub name : String
  pub description : Option String
  pub status : Option UserGroupStatus
  pub scope_type : Option ScopeType
  pub scope_ref_id : Option String
  pub matching_rule : RawRule Num
  pub assigned_role_ids : Option (List ℕ)
  pub created_by : Option ℕ
  pub updated_by : Option ℕ

infixl 5 ◌>>=◌
abbrev pub ◌>>=◌ : {E A B : Type 0} → Result E A → (A → Result E B) → Result E B
ok a >>= f = f a
err e >>= f = err e

abbrev pub check_name : String → Result GroupError (Unit {0})
check_name name = if is_blank name then err (scope_error name_empty) else ok tt

abbrev pub check_scope_type : Option ScopeType → Result GroupError ScopeType
check_scope_type none = err (scope_error invalid_scope_type)
check_scope_type (some t) = ok t

abbrev pub as_rule_error : {A : Type 0} → Result RuleError A → Result GroupError A
as_rule_error (ok a) = ok a
as_rule_error (err e) = err (rule_error e)

abbrev pub as_scope_error : {A : Type 0} → Result ScopeError A → Result GroupError A
as_scope_error (ok a) = ok a
as_scope_error (err e) = err (scope_error e)

abbrev pub contains : List ℕ → ℕ → Bool
contains xs x = any (λ y. y == x) xs

-- `Array.from(new Set(xs))`
unfoldable pub unique : List ℕ → List ℕ
unique [] = []
unique (x ∷ xs) = x ∷ select (λ y. not (y == x)) (unique xs)

abbrev pub is_empty : List ℕ → Bool
is_empty [] = true
is_empty (x ∷ xs) = false

module _ {Num : Type 0} where
  unfoldable pub create : CreateProps Num → Result GroupError (UserGroup Num)
  unfolding validate_rule
  create props = do
    checked ← check_name props.name
    scope_type ← check_scope_type props.scope_type
    keys ← as_rule_error (validate_rule props.matching_rule)
    ok (record {
      id = props.id;
      tenant_code = props.tenant_code;
      name = props.name;
      description = props.description;
      status = get_or_else props.status active;
      scope_type = scope_type;
      scope_ref_id = props.scope_ref_id;
      matching_rule = props.matching_rule;
      rule_attribute_keys = keys;
      version = 1;
      projection_version = 0;
      assigned_role_ids = get_or_else props.assigned_role_ids [];
      created_by = props.created_by;
      updated_by = props.updated_by;
    })

  -- The test of the expected version has an empty body.
  unfoldable pub update_configuration :
      CreateProps Num → ℕ → UserGroup Num → Result GroupError (UserGroup Num)
  unfolding validate_rule
  update_configuration props expected_version g = do
    checked ← check_name props.name
    scope_type ← check_scope_type props.scope_type
    keys ← as_rule_error (validate_rule props.matching_rule)
    ok (record g {
      name = props.name;
      description = props.description;
      scope_type = scope_type;
      scope_ref_id = props.scope_ref_id;
      matching_rule = props.matching_rule;
      rule_attribute_keys = keys;
      assigned_role_ids = get_or_else props.assigned_role_ids g.assigned_role_ids;
      updated_by = props.updated_by;
      version = g.version + 1;
    })

  -- The group with new roles, where there are any.
  abbrev pub with_roles : Bool → List ℕ → List ℕ → Option ℕ → UserGroup Num → UserGroup Num × List ℕ
  with_roles true changed ids updated_by g = (g, changed)
  with_roles false changed ids updated_by g = (
    record g { assigned_role_ids = ids; updated_by = updated_by; version = g.version + 1 },
    changed,
  )

  -- The group after, and the roles of `roleIds` that are new.
  unfoldable pub assign_roles : List ℕ → Option ℕ → UserGroup Num → UserGroup Num × List ℕ
  unfolding unique
  assign_roles role_ids updated_by g =
      let added = select (λ id. not (contains g.assigned_role_ids id)) (unique role_ids) in
      with_roles (is_empty added) added (g.assigned_role_ids ++ added) updated_by g

  unfoldable pub unassign_roles : List ℕ → Option ℕ → UserGroup Num → UserGroup Num × List ℕ
  unassign_roles role_ids updated_by g =
      let removed = select (λ id. contains role_ids id) g.assigned_role_ids in
      with_roles (is_empty removed) removed
        (select (λ id. not (contains role_ids id)) g.assigned_role_ids) updated_by g

  -- The group, the roles added and the roles removed.
  unfoldable pub replace_roles : List ℕ → Option ℕ → UserGroup Num → UserGroup Num × List ℕ × List ℕ
  unfolding unique
  replace_roles target_role_ids updated_by g =
      let target = unique target_role_ids in
      (
        record g { assigned_role_ids = target; updated_by = updated_by; version = g.version + 1 },
        select (λ id. not (contains g.assigned_role_ids id)) target,
        select (λ id. not (contains target id)) g.assigned_role_ids,
      )

  abbrev pub scope_config : UserGroup Num → ScopeConfig
  scope_config g = record { scope_type = g.scope_type; scope_ref_id = g.scope_ref_id }

  -- The group, its scope before and its scope after.
  unfoldable pub update_scope :
      String
      → Option String
      → Option ℕ
      → UserGroup Num
      → Result GroupError (UserGroup Num × ScopeConfig × ScopeConfig)
  unfolding validate_scope
  update_scope scope_type scope_ref_id updated_by g = do
    v ← as_scope_error (validate_scope scope_type scope_ref_id)
    ok (
      record g {
        scope_type = v.scope_type;
        scope_ref_id = v.scope_ref_id;
        updated_by = updated_by;
        version = g.version + 1;
      },
      scope_config g,
      v,
    )

  abbrev pub when_active : UserGroupStatus → UserGroup Num → Result GroupError (UserGroup Num)
  when_active active g = ok g
  when_active inactive g = err already_inactive

  unfoldable pub deactivate : Option ℕ → UserGroup Num → Result GroupError (UserGroup Num)
  deactivate updated_by g = do
    h ← when_active g.status g
    ok (record h { status = inactive; updated_by = updated_by; version = h.version + 1 })

  abbrev pub when_inactive : UserGroupStatus → UserGroup Num → Result GroupError (UserGroup Num)
  when_inactive inactive g = ok g
  when_inactive active g = err already_active

  unfoldable pub reactivate : Option ℕ → UserGroup Num → Result GroupError (UserGroup Num)
  reactivate updated_by g = do
    h ← when_inactive g.status g
    ok (record h { status = active; updated_by = updated_by; version = h.version + 1 })

  abbrev pub is_pending_sync : UserGroup Num → Bool
  is_pending_sync g = ltb g.projection_version g.version

  abbrev pub has_no_assigned_roles : UserGroup Num → Bool
  has_no_assigned_roles g = length g.assigned_role_ids == 0
