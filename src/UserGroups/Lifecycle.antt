-- ===== src/UserGroups/Lifecycle.antt =====
-- The scopes of domain/aggregates/user-group.aggregate.ts.
use mathlib.Core.Path.{subst}
use access_service.Prelude.{
  ℕ, otherwise, ok_inj, ◌+◌, ◌≡◌, refl, sym, ap, ◌∙◌, String, Bool, true, false, Option, none, some,
  Result, ok, err, arith, if◌then◌else◌, str_eq,
}
use access_service.UserGroups.Text.{is_blank, trim}
use access_service.UserGroups.Scope.{
  ScopeType, ScopeError, ScopeConfig, scope_ref_required, anchor, is_anchored, validate_known,
  scope_of, validate_scope,
}
use access_service.UserGroups.Aggregate.{
  UserGroup, update_scope, as_scope_error, scope_config, ◌>>=◌,
}

-- An anchored scope has the trimmed text of a reference that is not blank, any other has none.
abbrev pub HasReference : Bool → Option String → Option String → Type 0
HasReference true given kept =
    (r : String) × ((given ≡ some r) × (kept ≡ some (trim r)) × (is_blank r ≡ false))
HasReference false given kept = kept ≡ none

abbrev record_of : ScopeType → String → ScopeConfig
record_of t r = record { scope_type = t; scope_ref_id = some (trim r) }

abbrev record_none : ScopeType → ScopeConfig
record_none t = record { scope_type = t; scope_ref_id = none }

module _ (v : ScopeConfig) where
  anchor-HasReference :
      (t : ScopeType) (ref : Option String)
      → anchor t ref ≡ ok v
      → (v.scope_type ≡ t) × HasReference true ref v.scope_ref_id
  anchor-HasReference t none h = ground arith
  anchor-HasReference t (some r) h =
      let (blank, same) = otherwise (is_blank r) _ scope_ref_required v h in
      let w : record_of t r ≡ v = ok_inj (record_of t r) v same in
      (ap (λ x. x.scope_type) (sym w), (r, (refl, ap (λ x. x.scope_ref_id) (sym w), blank)))

  known-HasReference :
      (t : ScopeType) (ref : Option String) (b : Bool)
      → is_anchored t ≡ b
      → (if b then anchor t ref else ok (record { scope_type = t; scope_ref_id = none })) ≡ ok v
      → HasReference (is_anchored v.scope_type) ref v.scope_ref_id
  known-HasReference t ref true e h =
      let (same, r) = anchor-HasReference t ref h in rw (ap is_anchored same ∙ e) r
  known-HasReference t ref false e h =
      let w : record_none t ≡ v = ok_inj (record_none t) v h in
      rw (ap (λ x. is_anchored x.scope_type) (sym w) ∙ e) (ap (λ x. x.scope_ref_id) (sym w))

  maybe-HasReference :
      (t : Option ScopeType) (ref : Option String)
      → validate_known t ref ≡ ok v
      → HasReference (is_anchored v.scope_type) ref v.scope_ref_id
  maybe-HasReference none ref h = ground arith
  maybe-HasReference (some t) ref h = known-HasReference t ref (is_anchored t) refl h

  validate_scope-HasReference :
      (s : String) (ref : Option String)
      → validate_scope s ref ≡ ok v
      → HasReference (is_anchored v.scope_type) ref v.scope_ref_id
  unfolding validate_scope
  validate_scope-HasReference s ref h =
      maybe-HasReference (scope_of (if str_eq s "TENANT" then "TENANT_WIDE" else s)) ref
        (otherwise (str_eq s "") _ _ v h).1

module _ {Num : Type 0} where
  applied :
      (r : Result ScopeError ScopeConfig)
      (f : ScopeConfig → UserGroup Num × ScopeConfig × ScopeConfig)
      (out : UserGroup Num × ScopeConfig × ScopeConfig)
      → (as_scope_error r >>= λ v. ok (f v)) ≡ ok out
      → (v : ScopeConfig) × ((r ≡ ok v) × (f v ≡ out))
  applied (ok v) f out h = (v, (refl, ok_inj (f v) out h))
  applied (err e) f out h = ground arith

  -- A scope that updateScope accepts is reported after the old one and is the group's, one version
  -- higher: an anchored scope with the trimmed reference given, which is not blank, and any other
  -- without a reference.
  pub update_scope-HasReference :
      (scope_type : String) (ref : Option String) (u : Option ℕ) (g h : UserGroup Num)
      (before after : ScopeConfig)
      → update_scope scope_type ref u g ≡ ok (h, before, after)
      → (scope_config h ≡ after)
        × (before ≡ scope_config g)
        × (h.version ≡ g.version + 1)
        × HasReference (is_anchored after.scope_type) ref after.scope_ref_id
  unfolding update_scope
  update_scope-HasReference scope_type ref u g h before after e =
      let (v, (valid, same)) = applied (validate_scope scope_type ref) _ (h, before, after) e in
      let kept : v ≡ after = ap (λ x. x.2) same in
      (
        ap (λ x. scope_config x.0) (sym same) ∙ kept,
        ap (λ x. x.1) (sym same),
        ap (λ x. x.0.version) (sym same),
        subst (λ x. HasReference (is_anchored x.scope_type) ref x.scope_ref_id) kept
            (validate_scope-HasReference v scope_type ref valid),
      )
