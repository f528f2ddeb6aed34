-- ===== src/Roles/Inviolable.antt =====
-- The operations of the service, and a whole run of them.
use access_service.Prelude.{
  ℕ, ◌≡◌, ◌≢◌, refl, ap, String, true, false, not, Option, none, List, [], ◌&&◌, map, leb, str_eq,
  pure, modify, throw_if, when_else, ◌>>=◌, ◌>>◌, Contains, Contains-map_from, arith, is_some,
  get_or_else,
}
use access_service.Prelude.Keyed.{has}
use access_service.Outbox.Event.{OutboxContext}
use access_service.Outbox.RoleEvents.{from_role_created, from_role_copied}
use access_service.Permissions.Dependency.{validate_permission_set}
use access_service.Roles.Role.{
  Role, RolePermission, RoleType, system, custom, is_system, SystemRoleKey, RoleRequest,
  UpdateCustomRoleDto, CreateCustomRoleDto, CopyRoleDto, protected_of, from_request,
  role_version_conflict, answered, confirmation_required, dependency_validation_failed,
  duplicate_role_name, cannot_mutate_system_role,
}
use access_service.Roles.Store.{
  RoleState, RolePlatform, RoleAction, RoleTx, find_by_name, require, with_permissions, insert_role,
  bulk_save, sync_role, record_event, event_role, count_assigned_user_group_and_user,
}
use access_service.Roles.Service.{
  is_stale, expected, unconfirmed, high_impact_threshold, replace_permissions, unprotected_row,
  store_new, update_locked, update_custom, create_custom, named_request, copy, or_source, described,
  is_taken_by_other, view_of,
}
use access_service.Roles.Kept.{
  WellKept, Kept, SafeAt, bind-SafeAt, pure-SafeAt, guard-SafeAt, when_else-SafeAt, run-SafeAt,
  Kept-same, Kept-trans,
}
use access_service.Roles.KeptSteps.{
  sync_role-SafeAt, insert_role-SafeAt, record_event-SafeAt, bulk_save-SafeAt,
}
use access_service.Roles.Protected.{require-SafeAt, with_lock, replace_permissions-SafeAt}

-- What other processes and the choice of identifiers must respect.
pub record Respects (p : RolePlatform) : Type 0 where
  pub others_keep : (s : RoleState) → WellKept s → Kept s (p.others s)
  pub fresh : (rows : List Role) (r : Role) → Contains r rows → r.id ≢ p.fresh_id rows

pub protected-system :
    (ty : RoleType) (key : Option SystemRoleKey) (code : String)
    → has code (protected_of ty key) ≡ true
    → ty ≡ system
protected-system system key code h = refl
protected-system custom key code h = ground arith

module _ (p : RolePlatform) (good : Respects p) where
  pub after_others :
      {A : Type 0} (m : RoleAction A) (s : RoleState)
      → SafeAt m (p.others s)
      → SafeAt (modify p.others >> m) s
  after_others m s h w = Kept-trans s (p.others s) (m (p.others s)).1 (good.others_keep s w) h

  -- A transaction after what others commit, and what follows it.
  pub transaction :
      {A B : Type 0} (tx : RoleTx A) (m : RoleAction A) (f : A → RoleAction B) (s : RoleState)
      → SafeAt m (p.others s)
      → ((a : A) (t : RoleState) → SafeAt (f a) t)
      → SafeAt (modify p.others >> (tx.run m >>= f)) s
  transaction tx m f s h g =
      after_others (tx.run m >>= f) s
        (bind-SafeAt (tx.run m) f (p.others s) (run-SafeAt tx m (p.others s) h) (λ a t e. g a t))

  module _ (tx : RoleTx Role) (ctx : OutboxContext) where
    pub synced :
        {B : Type 0} (b : Role → B) (r : Role) (t : RoleState)
        → SafeAt (sync_role p r >> pure (b r)) t
    synced b r t =
        bind-SafeAt (sync_role p r) (λ _. pure (b r)) t (sync_role-SafeAt p r t)
          (λ u t' e. pure-SafeAt (b r) t')

    store_new-SafeAt :
        (dto : RoleRequest) (codes : List String) (announce : Role → RoleAction (Unit {0}))
        (s : RoleState)
        → ((r : Role) (t : RoleState) → SafeAt (announce r) t)
        → SafeAt (store_new p tx ctx dto codes announce) s
    unfolding store_new
    store_new-SafeAt dto codes announce s quiet =
        let row = from_request ctx.user_id p.default_user dto in
        let rest = λ (saved : Role).
          bulk_save (map (unprotected_row saved.id) codes) >> (announce saved >> pure saved) in
        bind-SafeAt (insert_role p row) rest s (insert_role-SafeAt p good.fresh row s) (λ saved t e.
          bind-SafeAt (bulk_save (map (unprotected_row saved.id) codes))
            (λ _. announce saved >> pure saved) t
            (bulk_save-SafeAt (map (unprotected_row saved.id) codes) t (λ rp c q.
              let (code, (_, f)) = Contains-map_from (unprotected_row saved.id) rp codes c in
              let g : rp.is_protected ≡ false = ap (λ (x : RolePermission). x.is_protected) f in
              absurd (ground arith)))
            (λ u t' e'.
              bind-SafeAt (announce saved) (λ _. pure saved) t' (quiet saved t')
                (λ v t'' e''. pure-SafeAt saved t'')))

    pub create_custom-SafeAt :
        (dto : CreateCustomRoleDto) (s : RoleState) → SafeAt (create_custom p tx ctx dto) s
    unfolding create_custom
    create_custom-SafeAt dto s =
        let announce = λ (saved : Role).
          record_event (from_role_created p.now ctx (event_role saved) dto.permission_codes) in
        let m =
          store_new p tx ctx (named_request p tx ctx dto.name dto.description) dto.permission_codes
            announce in
        let body = modify p.others >> (tx.run m >>= λ (r : Role). sync_role p r >> pure r) in
        guard-SafeAt (not (validate_permission_set p.graph dto.permission_codes).is_valid)
          dependency_validation_failed
          (λ (x : RoleState).
            (throw_if (is_some (find_by_name p dto.name x)) (duplicate_role_name dto.name) >> body)
              x)
          s
          (guard-SafeAt (is_some (find_by_name p dto.name s)) (duplicate_role_name dto.name) body s
            (transaction tx m (λ (r : Role). sync_role p r >> pure r) s
              (store_new-SafeAt (named_request p tx ctx dto.name dto.description)
                dto.permission_codes announce (p.others s) (λ r t. record_event-SafeAt _ t))
              (synced (λ r. r))))

    pub copy-SafeAt : (id : ℕ) (dto : CopyRoleDto) (s : RoleState) → SafeAt (copy p tx ctx id dto) s
    unfolding copy
    copy-SafeAt id dto s =
        let codes = λ (source : Role) (x : RoleState).
          map (λ (rp : RolePermission). rp.permission_code)
            (get_or_else (with_permissions p x source).permissions []) in
        let announce = λ (source : Role) (x : RoleState) (saved : Role).
          record_event (from_role_copied p.now ctx (event_role saved) id (codes source x)) in
        let request = λ (source : Role).
          named_request p tx ctx dto.name (or_source p tx ctx dto.description source.description) in
        let m = λ (source : Role) (x : RoleState).
          store_new p tx ctx (request source) (codes source x) (announce source x) in
        let body = λ (source : Role) (x : RoleState).
          modify p.others >> (tx.run (m source x) >>= λ (r : Role). sync_role p r >> pure r) in
        bind-SafeAt (require p id)
          (λ (source : Role). λ (x : RoleState).
            (throw_if (is_some (find_by_name p dto.name x)) (duplicate_role_name dto.name)
                >> body source x)
              x)
          s (require-SafeAt p tx ctx id s)
          (λ source t e.
            guard-SafeAt (is_some (find_by_name p dto.name t)) (duplicate_role_name dto.name)
              (body source t) t
              (transaction tx (m source t) (λ (r : Role). sync_role p r >> pure r) t
                (store_new-SafeAt (request source) (codes source t) (announce source t) (p.others t)
                  (λ r x. record_event-SafeAt _ x))
                (synced (λ r. r))))

    update_locked-SafeAt :
        (id : ℕ) (dto : UpdateCustomRoleDto) (s : RoleState)
        → SafeAt (update_locked p tx ctx id dto) s
    unfolding update_locked
    update_locked-SafeAt id dto s =
        with_lock p tx ctx id dto.version
          (λ (r : Role).
            replace_permissions p tx ctx (described p tx ctx dto r) dto.permission_codes [])
          s
          (λ r c.
            replace_permissions-SafeAt p tx ctx (described p tx ctx dto r) r dto.permission_codes []
              s c (refl, refl, refl) (λ code h. ground arith))

    pub update_custom-SafeAt :
        (id : ℕ) (dto : UpdateCustomRoleDto) (s : RoleState)
        → SafeAt (update_custom p tx ctx id dto) s
    unfolding update_custom
    update_custom-SafeAt id dto s =
        let commit = λ (counts : ℕ × ℕ).
          modify p.others
          >> (tx.run (update_locked p tx ctx id dto) >>= λ (r : Role).
              sync_role p r >> pure (answered (view_of p tx ctx r counts))) in
        let decide = λ (counts : ℕ × ℕ).
          when_else (leb high_impact_threshold counts.1 && unconfirmed dto.confirmed)
            (pure (confirmation_required none counts.1)) (commit counts) in
        let counted = λ (r : Role). count_assigned_user_group_and_user p r.id >>= decide in
        let checked = λ (r : Role).
          throw_if (not (validate_permission_set p.graph dto.permission_codes).is_valid)
            dependency_validation_failed
          >> counted r in
        let named = λ (r : Role). (λ (x : RoleState).
          (throw_if
                (not (str_eq r.name dto.name)
                  && is_taken_by_other p tx ctx r (find_by_name p dto.name x))
                (duplicate_role_name dto.name)
              >> checked r)
            x) in
        let versioned = λ (r : Role).
          throw_if (is_stale dto.version r) (role_version_conflict (expected dto.version) r.version)
          >> named r in
        bind-SafeAt (require p id)
          (λ (r : Role). throw_if (is_system r.role_type) cannot_mutate_system_role >> versioned r)
          s (require-SafeAt p tx ctx id s)
          (λ r t e. guard-SafeAt (is_system r.role_type) cannot_mutate_system_role (versioned r) t (
            guard-SafeAt (is_stale dto.version r)
              (role_version_conflict (expected dto.version) r.version) (named r) t
              (guard-SafeAt
                (not (str_eq r.name dto.name)
                  && is_taken_by_other p tx ctx r (find_by_name p dto.name t))
                (duplicate_role_name dto.name) (checked r) t
                (guard-SafeAt (not (validate_permission_set p.graph dto.permission_codes).is_valid)
                  dependency_validation_failed (counted r) t
                  (bind-SafeAt (count_assigned_user_group_and_user p r.id) decide t
                    (Kept-same t t refl refl)
                    (λ counts x f.
                      when_else-SafeAt
                        (leb high_impact_threshold counts.1 && unconfirmed dto.confirmed)
                        (pure (confirmation_required none counts.1)) (commit counts) x
                        (pure-SafeAt (confirmation_required none counts.1) x)
                        (transaction tx (update_locked p tx ctx id dto)
                          (λ (u : Role).
                            sync_role p u >> pure (answered (view_of p tx ctx u counts)))
                          x (update_locked-SafeAt id dto (p.others x))
                          (synced (λ u. answered (view_of p tx ctx u counts))))))))))
