-- ===== src/Roles/Steps.antt =====
-- What the answers of the steps on the tables and the cache say of the state after.
use access_service.Prelude.{
  ℕ, ◌≡◌, refl, sym, ap, ◌∙◌, false, Option, none, some, List, [], ◌∷◌, ◌++◌, map, any, ◌==◌,
  if◌then◌else◌, get_or_else, ok, pure, modify, or_throw, ◌>>◌, guard-inv, unit-inv, bind-inv,
  arith,
}
use access_service.Roles.Role.{
  Role, RolePermission, unique_violation, cache_unavailable, role_not_found, role_version_conflict,
}
use access_service.Roles.Store.{
  RoleState, RolePlatform, CachedRoleData, insert_role, save_role, bulk_save, sync_role, name_taken,
  clashes, find_by_id, require, RoleTx,
}
use access_service.Outbox.Event.{OutboxContext}
use access_service.Roles.Service.{locked, check_version, is_stale, expected}

abbrev pub at_fresh : RolePlatform → Role → RoleState → Role
at_fresh p role s = record role { id = p.fresh_id s.roles }

abbrev pub cached_of : Role → CachedRoleData
cached_of role = record {
  role_id = role.id;
  name = role.name;
  role_type = role.role_type;
  system_role_key = role.system_role_key;
  status = role.status;
  version = role.version;
  permissions = map (λ rp. (rp.permission_code, rp.is_protected)) (get_or_else role.permissions []);
}

abbrev pub with_cached_role : Role → RoleState → RoleState
with_cached_role role t = record t {
  cache = λ id. if id == role.id then some (cached_of role) else t.cache id;
}

module _ (p : RolePlatform) where
  pub insert_role-inv :
      (role r : Role) (s t : RoleState)
      → insert_role p role s ≡ (ok r, t)
      → (at_fresh p role s ≡ r) × (record s { roles = s.roles ++ at_fresh p role s ∷ [] } ≡ t)
  unfolding insert_role
  insert_role-inv role r s t h =
      let row = at_fresh p role s in
      unit-inv row r (record s { roles = s.roles ++ row ∷ [] }) t
        ((guard-inv (any (name_taken row) s.roles) unique_violation
          (modify (λ (t : RoleState). record t { roles = t.roles ++ row ∷ [] }) >> pure row) s t r
          h).1)

  abbrev pub saved_in : Role → RoleState → RoleState
  saved_in role t = record t { roles = p.roles.update p.now role.id (λ r. role) t.roles }

  pub save_role-inv :
      (role r : Role) (s t : RoleState)
      → save_role p role s ≡ (ok r, t)
      → (role ≡ r) × (saved_in role s ≡ t)
  unfolding save_role
  save_role-inv role r s t h = unit-inv role r (saved_in role s) t (
      (guard-inv (any (name_taken role) s.roles) unique_violation
        (modify (saved_in role) >> pure role) s t r h).1)

  pub sync_role-inv :
      (role : Role) (s t : RoleState) (u : Unit {0})
      → sync_role p role s ≡ (ok u, t)
      → with_cached_role role s ≡ t
  unfolding sync_role
  sync_role-inv role s t u h =
      (unit-inv tt u (with_cached_role role s) t (
        (guard-inv (p.cache_fails s) cache_unavailable (modify (with_cached_role role)) s t u
          h).1)).1

  pub require-inv :
      (id : ℕ) (s t : RoleState) (r : Role)
      → require p id s ≡ (ok r, t)
      → (find_by_id p id s ≡ some r) × (s ≡ t)
  require-inv id s t r h = go (find_by_id p id s) refl h
    where
      go :
          (o : Option Role)
          → find_by_id p id s ≡ o
          → or_throw o (role_not_found id) s ≡ (ok r, t)
          → (find_by_id p id s ≡ some r) × (s ≡ t)
      go none e k = ground (arith, ap (λ x. x.0) k)
      go (some x) e k = let (a, b) = unit-inv x r s t k in (e ∙ ap some a, b)

abbrev pub with_rows : List RolePermission → RoleState → RoleState
with_rows rps t = record t { role_permissions = t.role_permissions ++ rps }

pub bulk_save-inv :
    (rps : List RolePermission) (s t : RoleState) (u : Unit {0})
    → bulk_save rps s ≡ (ok u, t)
    → (clashes s.role_permissions rps ≡ false) × (with_rows rps s ≡ t)
unfolding bulk_save
bulk_save-inv rps s t u h =
    let (a, b) =
      guard-inv (clashes s.role_permissions rps) unique_violation (modify (with_rows rps)) s t u
        h in
    (a, (unit-inv tt u (with_rows rps s) t b).1)

-- The row under lock is the one that stood there when the lock was taken, at the expected version.
pub locked-inv :
    (p : RolePlatform) (tx : RoleTx Role) (ctx : OutboxContext) (id : ℕ) (version : Option ℕ)
    (s t : RoleState) (r : Role)
    → locked p tx ctx id version s ≡ (ok r, t)
    → (find_by_id p id s ≡ some r) × (s ≡ t) × (is_stale version r ≡ false)
locked-inv p tx ctx id version s t r h =
    let (z, (s2, (e2, h2))) =
      bind-inv (λ (z : Role). check_version version z >> pure z) r t (require p id) s h in
    let (found, same) = require-inv p id s s2 z e2 in
    let (fresh, last) =
      guard-inv (is_stale version z) (role_version_conflict (expected version) z.version) (pure z)
        s2 t r h2 in
    let (zr, s2t) = unit-inv z r s2 t last in
    (found ∙ ap some zr, same ∙ s2t, ap (is_stale version) (sym zr) ∙ fresh)
