-- ===== src/Roles/Protected.antt =====
-- Whatever the service is asked to do, system roles and protected permissions stay.
use mathlib.Core.Path.{subst}
use access_service.Prelude.{
  ℕ, ◌≡◌, refl, sym, ap, ◌∙◌, String, true, Option, none, some, List, map, ◌==◌, ok, pure, or_throw,
  ◌>>=◌, ◌>>◌, Contains, Contains-map_from,
}
use access_service.Prelude.Keyed.{has}
use access_service.Outbox.Event.{OutboxContext}
use access_service.Outbox.RoleEvents.{from_permissions_updated}
use access_service.Roles.Role.{Role, RolePermission, system, role_not_found, role_version_conflict}
use access_service.Roles.Store.{
  RoleState, RolePlatform, RoleAction, RoleTx, find_by_id, require, save_role, bulk_save,
  delete_by_role_id, record_event, event_role,
}
use access_service.Roles.Service.{
  locked, is_stale, expected, replace_permissions, permission_row, check_version,
}
use access_service.Roles.Steps.{locked-inv, bulk_save-inv}
use access_service.Roles.Kept.{
  WellKept, Kept, SafeAt, SameSystem, bind-SafeAt, pure-SafeAt, guard-SafeAt, Kept-same,
}
use access_service.Roles.KeptSteps.{
  save_role-SafeAt, record_event-SafeAt, bulk_save-SafeAt, delete_by_role_id-SafeAt,
}

pub deleted_roles :
    (id : ℕ) (s t : RoleState) (u : Unit {0})
    → delete_by_role_id id s ≡ (ok u, t)
    → s.roles ≡ t.roles
unfolding delete_by_role_id
deleted_roles id s t u e = ap (λ x. x.1.roles) e

module _ (p : RolePlatform) (tx : RoleTx Role) (ctx : OutboxContext) where
  pub require-SafeAt : (id : ℕ) (s : RoleState) → SafeAt (require p id) s
  require-SafeAt id s w = go (find_by_id p id s) w
    where
      go : (o : Option Role) → WellKept s → Kept s (or_throw o (role_not_found id) s).1
      go none w = Kept-same s s refl refl w
      go (some r) w = Kept-same s s refl refl w

  pub found_lem :
      (id : ℕ) (s : RoleState) (r : Role) → find_by_id p id s ≡ some r → Contains r s.roles
  found_lem id s r e = (p.roles.find_one-some (λ (x : Role). x.id == id) s.roles r e).0

  locked-SafeAt :
      (id : ℕ) (version : Option ℕ) (s : RoleState) → SafeAt (locked p tx ctx id version) s
  locked-SafeAt id version s =
      bind-SafeAt (require p id) (λ (z : Role). check_version version z >> pure z) s
        (require-SafeAt id s)
        (λ z t e.
          guard-SafeAt (is_stale version z) (role_version_conflict (expected version) z.version)
            (pure z) t (pure-SafeAt z t))

  -- A step on the locked row.
  pub with_lock :
      {A : Type 0} (id : ℕ) (version : Option ℕ) (k : Role → RoleAction A) (s : RoleState)
      → ((r : Role) → Contains r s.roles → SafeAt (k r) s)
      → SafeAt (locked p tx ctx id version >>= k) s
  with_lock id version k s h =
      bind-SafeAt (locked p tx ctx id version) k s (locked-SafeAt id version s) (λ r t e.
        let (found, same, _) = locked-inv p tx ctx id version s t r e in
        subst (SafeAt (k r)) same (h r (found_lem id s r found)))

  -- Save, announce, answer.
  pub save_last :
      (k : Role → RoleAction (Unit {0})) (role base : Role) (s : RoleState)
      → Contains base s.roles
      → SameSystem base role
      → ((r : Role) (t : RoleState) → SafeAt (k r) t)
      → SafeAt (save_role p role >>= λ (saved : Role). k saved >> pure saved) s
  save_last k role base s c same h =
      bind-SafeAt (save_role p role) (λ (saved : Role). k saved >> pure saved) s
        (save_role-SafeAt p role base s c same)
        (λ saved t e.
          bind-SafeAt (k saved) (λ _. pure saved) t (h saved t) (λ u t' e'. pure-SafeAt saved t'))

  pub replace_permissions-SafeAt :
      (role base : Role) (codes protected : List String) (s : RoleState)
      → Contains base s.roles
      → SameSystem base role
      → ((code : String) → has code protected ≡ true → base.role_type ≡ system)
      → SafeAt (replace_permissions p tx ctx role codes protected) s
  unfolding replace_permissions
  replace_permissions-SafeAt role base codes protected s c same sys =
      let rps = map (permission_row role.id protected) codes in
      let last = λ (_ : Unit {0}). save_role p role >>= λ (saved : Role).
      record_event (from_permissions_updated p.now ctx (event_role saved) codes) >> pure saved in
      bind-SafeAt (delete_by_role_id role.id) (λ _. bulk_save rps >>= last) s
        (delete_by_role_id-SafeAt role.id s)
        (λ u t e.
          let here = subst (Contains base) (deleted_roles role.id s t u e) c in
          bind-SafeAt (bulk_save rps) last t
            (bulk_save-SafeAt rps t (λ rp d q.
              let (code, (_, f)) =
                Contains-map_from (permission_row role.id protected) rp codes d in
              (
                base,
                (
                  here,
                  (
                    sym same.0 ∙ ap (λ (x : RolePermission). x.role_id) (sym f),
                    sys code (ap (λ (x : RolePermission). x.is_protected) (sym f) ∙ q),
                  ),
                ),
              )))
            (λ v t' e'.
              save_last
                (λ (saved : Role).
                  record_event (from_permissions_updated p.now ctx (event_role saved) codes))
                role base t'
                (subst (Contains base)
                  (ap (λ (x : RoleState). x.roles) ((bulk_save-inv rps t t' v e').1)) here)
                same (λ r x. record_event-SafeAt _ x)))
