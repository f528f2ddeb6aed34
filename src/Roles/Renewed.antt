-- ===== src/Roles/Renewed.antt =====
-- Changes of a role's status and name keep what is protected.
use access_service.Prelude.{
  ℕ, refl, none, some, ◌&&◌, ltb, str_eq, pure, modify, throw_if, when_else, ◌>>=◌, ◌>>◌, is_some,
}
use access_service.Outbox.Event.{OutboxContext}
use access_service.Outbox.RoleEvents.{
  from_role_deactivated, from_role_reactivated, from_rename_role,
}
use access_service.Roles.Role.{
  Role, is_system, is_administrator, active_role, inactive_role, DeactivateRoleDto, RenameRoleDto,
  role_version_conflict, answered, confirmation_required, duplicate_role_name,
  critical_role_deactivation,
}
use access_service.Roles.Store.{
  RoleState, RolePlatform, RoleTx, find_by_name, require, save_role, sync_role, record_event,
  event_role, count_assigned_user_group_and_user,
}
use access_service.Roles.Service.{is_stale, expected, unconfirmed, view_of}
use access_service.Roles.Changes.{
  deactivate_locked, deactivate_role, reactivate_locked, reactivate_role, rename_locked, rename,
  with_status, renamed,
}
use access_service.Roles.Kept.{
  SafeAt, bind-SafeAt, pure-SafeAt, guard-SafeAt, when_else-SafeAt, Kept-same,
}
use access_service.Roles.KeptSteps.{sync_role-SafeAt, record_event-SafeAt}
use access_service.Roles.Inviolable.{Respects, transaction, synced}
use access_service.Roles.Protected.{require-SafeAt, with_lock, save_last}

module _ (p : RolePlatform) (good : Respects p) (tx : RoleTx Role) (ctx : OutboxContext) where
  deactivate_locked-SafeAt :
      (id : ℕ) (dto : DeactivateRoleDto) (counts : ℕ × ℕ) (s : RoleState)
      → SafeAt (deactivate_locked p tx ctx id dto counts) s
  unfolding deactivate_locked
  deactivate_locked-SafeAt id dto counts s =
      let announce = λ (saved : Role).
        record_event
          (from_role_deactivated p.now ctx (event_role saved) (some counts.0) (some counts.1)) in
      with_lock p tx ctx id dto.version
        (λ (r : Role). save_role p (with_status p tx ctx inactive_role r) >>= λ (saved : Role).
          announce saved >> pure saved)
        s
        (λ r c.
          save_last p tx ctx announce (with_status p tx ctx inactive_role r) r s c
            (refl, refl, refl) (λ x t. record_event-SafeAt _ t))

  pub deactivate_role-SafeAt :
      (id : ℕ) (dto : DeactivateRoleDto) (s : RoleState)
      → SafeAt (deactivate_role p tx ctx id dto) s
  unfolding deactivate_role
  deactivate_role-SafeAt id dto s =
      let commit = λ (counts : ℕ × ℕ).
        modify p.others
        >> (tx.run (deactivate_locked p tx ctx id dto counts) >>= λ (r : Role).
            sync_role p r >> pure (answered (view_of p tx ctx r counts))) in
      let decide = λ (counts : ℕ × ℕ).
        when_else (ltb 0 counts.0 && unconfirmed dto.confirmed)
          (pure (confirmation_required (some counts.0) counts.1)) (commit counts) in
      let counted = λ (r : Role). count_assigned_user_group_and_user p r.id >>= decide in
      let versioned = λ (r : Role).
        throw_if (is_stale dto.version r) (role_version_conflict (expected dto.version) r.version)
        >> counted r in
      bind-SafeAt (require p id)
        (λ (r : Role).
          throw_if (is_system r.role_type && is_administrator r.system_role_key)
            critical_role_deactivation
          >> versioned r)
        s (require-SafeAt p tx ctx id s)
        (λ r t e.
          guard-SafeAt (is_system r.role_type && is_administrator r.system_role_key)
            critical_role_deactivation (versioned r) t
            (guard-SafeAt (is_stale dto.version r)
              (role_version_conflict (expected dto.version) r.version) (counted r) t
              (bind-SafeAt (count_assigned_user_group_and_user p r.id) decide t
                (Kept-same t t refl refl)
                (λ counts x f.
                  when_else-SafeAt (ltb 0 counts.0 && unconfirmed dto.confirmed)
                    (pure (confirmation_required (some counts.0) counts.1)) (commit counts) x
                    (pure-SafeAt (confirmation_required (some counts.0) counts.1) x)
                    (transaction p good tx (deactivate_locked p tx ctx id dto counts)
                      (λ (u : Role). sync_role p u >> pure (answered (view_of p tx ctx u counts))) x
                      (deactivate_locked-SafeAt id dto counts (p.others x))
                      (synced p good tx ctx (λ u. answered (view_of p tx ctx u counts))))))))

  reactivate_locked-SafeAt : (id : ℕ) (s : RoleState) → SafeAt (reactivate_locked p tx ctx id) s
  unfolding reactivate_locked
  reactivate_locked-SafeAt id s =
      let announce =
        λ (saved : Role). record_event (from_role_reactivated p.now ctx (event_role saved)) in
      with_lock p tx ctx id none
        (λ (r : Role). save_role p (with_status p tx ctx active_role r) >>= λ (saved : Role).
          announce saved >> pure saved)
        s
        (λ r c.
          save_last p tx ctx announce (with_status p tx ctx active_role r) r s c (refl, refl, refl)
            (λ x t. record_event-SafeAt _ t))

  pub reactivate_role-SafeAt : (id : ℕ) (s : RoleState) → SafeAt (reactivate_role p tx ctx id) s
  unfolding reactivate_role
  reactivate_role-SafeAt id s =
      let answer = λ (u : Role). count_assigned_user_group_and_user p u.id >>= λ (counts : ℕ × ℕ).
      pure (view_of p tx ctx u counts) in
      let finish = λ (u : Role). sync_role p u >> answer u in
      bind-SafeAt (require p id)
        (λ (r : Role). modify p.others >> (tx.run (reactivate_locked p tx ctx id) >>= finish)) s
        (require-SafeAt p tx ctx id s)
        (λ r t e.
          transaction p good tx (reactivate_locked p tx ctx id) finish t
            (reactivate_locked-SafeAt id (p.others t))
            (λ u x.
              bind-SafeAt (sync_role p u) (λ _. answer u) x (sync_role-SafeAt p u x)
                (λ v y f. Kept-same y y refl refl)))

  rename_locked-SafeAt :
      (id : ℕ) (dto : RenameRoleDto) (s : RoleState) → SafeAt (rename_locked p tx ctx id dto) s
  unfolding rename_locked
  rename_locked-SafeAt id dto s =
      let announce = λ (r saved : Role).
        record_event (from_rename_role p.now ctx (event_role saved) r.name saved.name) in
      let change = λ (r : Role).
        save_role p (renamed p tx ctx dto r) >>= λ (saved : Role). announce r saved >> pure saved in
      let named = λ (r : Role). (λ (x : RoleState).
        (throw_if (is_some (find_by_name p dto.name x)) (duplicate_role_name dto.name) >> change r)
          x) in
      with_lock p tx ctx id none
        (λ (r : Role). when_else (str_eq r.name dto.name) (pure r) (named r)) s
        (λ r c. when_else-SafeAt (str_eq r.name dto.name) (pure r) (named r) s (pure-SafeAt r s) (
          guard-SafeAt (is_some (find_by_name p dto.name s)) (duplicate_role_name dto.name)
            (change r) s
            (save_last p tx ctx (announce r) (renamed p tx ctx dto r) r s c (refl, refl, refl)
              (λ x t. record_event-SafeAt _ t))))

  pub rename-SafeAt :
      (id : ℕ) (dto : RenameRoleDto) (s : RoleState) → SafeAt (rename p tx ctx id dto) s
  unfolding rename
  rename-SafeAt id dto s =
      transaction p good tx (rename_locked p tx ctx id dto) (λ (r : Role). sync_role p r >> pure r)
        s (rename_locked-SafeAt id dto (p.others s)) (synced p good tx ctx (λ r. r))
