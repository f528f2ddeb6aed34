-- ===== src/Roles/Created.antt =====
-- What a role that was just made gives: its cache entry and the capabilities read from it.
use mathlib.Core.Path.{subst}
use access_service.Prelude.{
  ℕ, ◌≡◌, refl, sym, ap, ◌∙◌, String, false, not, Option, none, some, List, [], ◌∷◌, ◌++◌, map,
  ==_refl, get_or_else, ok, pure, throw_if, ◌>>=◌, ◌>>◌, bind-inv, guard-inv, unit-inv, Contains,
  Contains-map, Contains-append_right, is_some,
}
use access_service.Database.{committed}
use access_service.Outbox.Event.{OutboxContext}
use access_service.Outbox.RoleEvents.{from_role_created}
use access_service.Permissions.Dependency.{validate_permission_set}
use access_service.Roles.Role.{
  Role, RolePermission, RoleRequest, CreateCustomRoleDto, from_request,
  dependency_validation_failed, duplicate_role_name,
}
use access_service.Roles.Store.{
  RoleState, RolePlatform, RoleAction, RoleTx, CachedRoleData, insert_role, bulk_save, sync_role,
  find_by_name, record_event, event_role, get_role,
}
use access_service.Roles.Service.{create_custom, named_request, store_new, unprotected_row}
use access_service.Roles.Steps.{
  insert_role-inv, bulk_save-inv, sync_role-inv, with_cached_role, cached_of,
}
use access_service.Roles.Bootstrap.{
  Profile, Capabilities, get_bootstrap_capabilities, gather, capabilities_of, with_cached,
  derive_modules,
}

module _ (p : RolePlatform) (tx : RoleTx Role) (ctx : OutboxContext) where
  -- The new role's relation is not loaded, and its rows are stored.
  abbrev Stored : List String → Role → RoleState → Type 0
  Stored codes role t =
      (role.permissions ≡ none)
      × ((code : String)
          → Contains code codes
          → Contains (unprotected_row role.id code) t.role_permissions)

  store_new-Stored :
      (dto : RoleRequest) (codes : List String) (announce : Role → RoleAction (Unit {0}))
      (s t : RoleState) (role : Role)
      → ((r : Role) (a b : RoleState)
          → announce r a ≡ (ok tt, b)
          → b.role_permissions ≡ a.role_permissions)
      → store_new p tx ctx dto codes announce s ≡ (ok role, t)
      → Stored codes role t
  unfolding store_new insert_role bulk_save from_request
  store_new-Stored dto codes announce s t role quiet h =
      let o = s in
      let (saved, (s1, (e1, h1))) =
        bind-inv
          (λ (saved : Role).
            bulk_save (map (unprotected_row saved.id) codes) >> (announce saved >> pure saved))
          role t (insert_role p (from_request ctx.user_id p.default_user dto)) o h in
      let (u, (s2, (e2, h2))) =
        bind-inv (λ (_ : Unit {0}). announce saved >> pure saved) role t
          (bulk_save (map (unprotected_row saved.id) codes)) s1 h1 in
      let (v, (s3, (e3, h3))) =
        bind-inv (λ (_ : Unit {0}). pure saved) role t (announce saved) s2 h2 in
      let (same, end) = unit-inv saved role s3 t h3 in
      let row = (insert_role-inv p (from_request ctx.user_id p.default_user dto) saved o s1 e1).0 in
      let rows = sym (
        ap (λ (x : RoleState). x.role_permissions)
          (bulk_save-inv (map (unprotected_row saved.id) codes) s1 s2 u e2).1) in
      let kept : t.role_permissions ≡ s1.role_permissions ++ map (unprotected_row role.id) codes =
        ap (λ (x : RoleState). x.role_permissions) (sym end)
        ∙ quiet saved s2 s3 e3
        ∙ rows
        ∙ ap (λ (r : Role). s1.role_permissions ++ map (unprotected_row r.id) codes) same in
      (
        sym (ap (λ (r : Role). r.permissions) (row ∙ same)),
        λ code c. subst (Contains (unprotected_row role.id code)) (sym kept) (
            Contains-append_right (unprotected_row role.id code) s1.role_permissions _
              (Contains-map (unprotected_row role.id) code codes c)),
      )

  create_custom-inv :
      (dto : CreateCustomRoleDto) (s t : RoleState) (role : Role)
      → create_custom p tx ctx dto s ≡ (ok role, t)
      → (s' : RoleState) × (Stored dto.permission_codes role s' × (with_cached_role role s' ≡ t))
  unfolding create_custom
  create_custom-inv dto s t role h =
      let announce = λ (saved : Role).
        record_event (from_role_created p.now ctx (event_role saved) dto.permission_codes) in
      let last = λ (created : Role). sync_role p created >> pure created in
      let run = tx.run (
        store_new p tx ctx (named_request p tx ctx dto.name dto.description) dto.permission_codes
          announce) in
      let named =
        guard-inv (not (validate_permission_set p.graph dto.permission_codes).is_valid)
          dependency_validation_failed
          (λ (x : RoleState).
            (throw_if (is_some (find_by_name p dto.name x)) (duplicate_role_name dto.name)
                >> (λ (y : RoleState). (run >>= last) (p.others y)))
              x)
          s t role h in
      let ran =
        guard-inv (is_some (find_by_name p dto.name s)) (duplicate_role_name dto.name)
          (λ (x : RoleState). (run >>= last) (p.others x)) s t role named.1 in
      let (created, (s1, (e1, h1))) = bind-inv last role t run (p.others s) ran.1 in
      let (u, (s2, (e2, h2))) =
        bind-inv (λ (_ : Unit {0}). pure created) role t (sync_role p created) s1 h1 in
      let (same, end) = unit-inv created role s2 t h2 in
      let stored =
        store_new-Stored (named_request p tx ctx dto.name dto.description) dto.permission_codes
          announce (p.others s) s1 created
          (λ r a b k. ap (λ (x : RoleState). x.role_permissions) (sym (ap (λ x. x.1) k)))
          (committed tx
            (store_new p tx ctx (named_request p tx ctx dto.name dto.description)
              dto.permission_codes announce)
            (p.others s) s1 created e1) in
      (
        s1,
        (
          subst (λ r. Stored dto.permission_codes r s1) same stored,
          ap (λ r. with_cached_role r s1) (sym same) ∙ sync_role-inv p created s1 s2 u e2 ∙ end,
        ),
      )

  -- A user of one role whose entry has no permission is told of none.
  abbrev only : ℕ → ℕ → Option Profile
  only version id = some (record { version = version; role_ids = id ∷ [] })

  bare_entry :
      (version id : ℕ) (c : CachedRoleData) (t : RoleState)
      → p.cache_fails t ≡ false
      → t.cache id ≡ some c
      → c.permissions ≡ []
      → (caps : Capabilities) × ((get_bootstrap_capabilities p (only version id) t ≡ (ok caps, t))
          × (caps.permissions ≡ [])
          × (caps.modules ≡ []))
  unfolding get_bootstrap_capabilities gather get_role derive_modules
  bare_entry version id c t ready e f = (
    capabilities_of p version (with_cached c (record { permission_set = []; role_names = [] })),
    (rw (ready, e) refl, rw f refl, rw f refl),
  )

  -- A role that createCustom answers has a stored row for every code that was asked for; its cache
  -- entry has no permission. So while the cache is there, a user whose profile has just this role is
  -- told of no permission and no module.
  pub create_custom-gives_nothing :
      (dto : CreateCustomRoleDto) (version : ℕ) (s t : RoleState) (role : Role)
      → create_custom p tx ctx dto s ≡ (ok role, t)
      → p.cache_fails t ≡ false
      → ((code : String)
          → Contains code dto.permission_codes
          → Contains (unprotected_row role.id code) t.role_permissions)
        × ((caps : Capabilities) × ((get_bootstrap_capabilities p (only version role.id) t
                ≡ (ok caps, t))
              × (caps.permissions ≡ [])
              × (caps.modules ≡ [])))
  create_custom-gives_nothing dto version s t role h ready =
      let (s', (stored, end)) = create_custom-inv dto s t role h in
      let entry : t.cache role.id ≡ some (cached_of role) =
        ap (λ (x : RoleState). x.cache role.id) (sym end) ∙ rw (==_refl role.id) refl in
      (
        λ code c.
            subst (Contains (unprotected_row role.id code))
              (ap (λ (x : RoleState). x.role_permissions) end) (stored.1 code c),
        bare_entry version role.id (cached_of role) t ready entry (
            ap
              (λ (o : Option (List RolePermission)).
                map (λ rp. (rp.permission_code, rp.is_protected)) (get_or_else o []))
              stored.0),
      )
