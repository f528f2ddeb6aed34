-- ===== src/UserGroups/Scope.antt =====
-- domain/enums/scope-type.enum.ts and domain/validators/user-group-scope.validator.ts
use access_service.Prelude.{
  String, Bool, true, false, Option, none, some, str_eq, if◌then◌else◌, Result, ok, err,
}
use access_service.UserGroups.Text.{trim, is_blank}

pub data ScopeType : Type 0 where
  self direct_reportees company location department tenant_wide : ScopeType

-- The reasons of `InvalidScopeError`.
pub data ScopeError : Type 0 where
  name_empty scope_type_required invalid_scope_type scope_ref_required : ScopeError

-- `Object.values(ScopeType).includes(s)`, with the member that `s` spells
abbrev pub scope_of : String → Option ScopeType
scope_of s =
    if str_eq s "SELF"
    then some self
    else if str_eq s "DIRECT_REPORTEES"
    then some direct_reportees
    else if str_eq s "COMPANY"
    then some company
    else if str_eq s "LOCATION"
    then some location
    else if str_eq s "DEPARTMENT"
    then some department
    else if str_eq s "TENANT_WIDE"
    then some tenant_wide
    else none

abbrev pub is_anchored : ScopeType → Bool
is_anchored company = true
is_anchored location = true
is_anchored department = true
is_anchored _ = false

pub record ScopeConfig : Type 0 where
  pub scope_type : ScopeType
  pub scope_ref_id : Option String

abbrev pub anchor : ScopeType → Option String → Result ScopeError ScopeConfig
anchor t none = err scope_ref_required
anchor t (some ref) =
    if is_blank ref
    then err scope_ref_required
    else ok (record { scope_type = t; scope_ref_id = some (trim ref) })

abbrev pub validate_known : Option ScopeType → Option String → Result ScopeError ScopeConfig
validate_known none ref = err invalid_scope_type
validate_known (some t) ref =
    if is_anchored t then anchor t ref else ok (record { scope_type = t; scope_ref_id = none })

unfoldable pub validate_scope : String → Option String → Result ScopeError ScopeConfig
unfolding trim
validate_scope scope_type scope_ref_id =
    if str_eq scope_type ""
    then err scope_type_required
    else validate_known
        (scope_of (if str_eq scope_type "TENANT" then "TENANT_WIDE" else scope_type)) scope_ref_id
