-- ===== src/Access/Decision.antt =====
-- What services/cumulative-access-evaluator.service.ts decides.
use access_service.Prelude.{
  any-select, any-witness, and_split, String, Bool, true, ◌≡◌, refl, sym, ◌∙◌, ◌↔◌, inl, inr,
  Option, List, [], ◌∷◌, ◌&&◌, any, select, Contains, any_of_Contains, Bool-cases,
}
use access_service.Access.Evaluator.{
  EffectiveUserRole, ResourceContext, evaluate_scope, grants, any_in_scope, among_granting,
  evaluate_access,
}

module _ (fold : String → String) (permission : String)
    (role_permissions : String → Option (List String)) (target : ResourceContext)
    (employee_id : String) where
  abbrev in_scope : EffectiveUserRole → Bool
  in_scope r = evaluate_scope fold r.scope target employee_id

  abbrev pub Gives : EffectiveUserRole → Type 0
  Gives r =
      (grants fold permission role_permissions r ≡ true)
      × (evaluate_scope fold r.scope target employee_id ≡ true)

  any_in_scope-any :
      (rs : List EffectiveUserRole) → any_in_scope fold rs target employee_id ≡ any in_scope rs
  any_in_scope-any [] = refl
  any_in_scope-any (r ∷ rs) = elim (Bool-cases (in_scope r)) [
    | inl e ↦ rw e refl
    | inr e ↦ rw e (any_in_scope-any rs)
  ]

  among_granting-any :
      (rs : List EffectiveUserRole) → among_granting fold rs target employee_id ≡ any in_scope rs
  among_granting-any [] = refl
  among_granting-any (r ∷ rs) = any_in_scope-any (r ∷ rs)

  evaluate_access-any :
      (rs : List EffectiveUserRole)
      → evaluate_access fold permission rs role_permissions target employee_id
        ≡ any (λ r. grants fold permission role_permissions r && in_scope r) rs
  unfolding evaluate_access
  evaluate_access-any [] = refl
  evaluate_access-any (r ∷ rs) =
      among_granting-any (select (grants fold permission role_permissions) (r ∷ rs))
      ∙ any-select (grants fold permission role_permissions) in_scope (r ∷ rs)

  -- Access is given exactly where one role of the user both grants the permission and has a scope
  -- that covers the resource.
  pub evaluate_access_iff :
      (rs : List EffectiveUserRole)
      → (evaluate_access fold permission rs role_permissions target employee_id ≡ true)
        ↔ ((r : EffectiveUserRole) × (Contains r rs × Gives r))
  evaluate_access_iff rs = (
    λ h.
        let (r, (c, e)) =
          any-witness (λ r. grants fold permission role_permissions r && in_scope r) rs
            (sym (evaluate_access-any rs) ∙ h) in
        (r, (c, and_split _ _ e)),
    λ (r, (c, (g, e))).
        evaluate_access-any rs
        ∙ any_of_Contains (λ r. grants fold permission role_permissions r && in_scope r) r rs c
            (rw (g, e) refl),
  )

  -- Neither the order nor the repetition of roles matters, and more roles never take an access away.
  pub evaluate_access_monotone :
      (rs more : List EffectiveUserRole)
      → ((r : EffectiveUserRole) → Contains r rs → Contains r more)
      → evaluate_access fold permission rs role_permissions target employee_id ≡ true
      → evaluate_access fold permission more role_permissions target employee_id ≡ true
  evaluate_access_monotone rs more h e =
      let (r, (c, g)) = (evaluate_access_iff rs).0 e in (evaluate_access_iff more).1 (r, (h r c, g))
