-- ===== src/Roles/Bootstrap.antt =====
-- What a client is told that its user may do:
-- src/modules/authorization/services/bootstrap-authorization.service.ts.
use Prim.Native.Char.{code}
use access_service.Prelude.{
  ℕ, String, Bool, Option, none, some, List, [], ◌∷◌, map, ◌==◌, if◌then◌else◌, str_eq, get_or_else,
  pure, gets, catch, ◌>>=◌,
}
use access_service.Prelude.Keyed.{add, add_all}
use access_service.Roles.Role.{Role}
use access_service.Roles.Store.{
  CachedRoleData, RolePlatform, RoleAction, find_by_id, with_permissions, get_role,
}

-- The profile as the service reads it: its version and the roles' identifiers.
pub record Profile : Type 0 where
  pub version : ℕ
  pub role_ids : List ℕ

pub record Capabilities : Type 0 where
  pub authorization_version : ℕ
  pub permissions : List String
  pub modules : List String
  pub roles : List String

-- The two sets that the loop fills.
pub record Gathered : Type 0 where
  pub permission_set : List String
  pub role_names : List String

-- `if (text) set.add(text)`
abbrev pub add_text : String → List String → List String
add_text t set = if str_eq t "" then set else add t set

abbrev pub add_codes : List (String × Bool) → List String → List String
add_codes [] set = set
add_codes (p ∷ ps) set = add_codes ps (add_text p.0 set)

abbrev pub with_cached : CachedRoleData → Gathered → Gathered
with_cached c g = record {
  permission_set = add_codes c.permissions g.permission_set;
  role_names = add_text c.name g.role_names;
}

abbrev pub with_row : Option Role → Gathered → Gathered
with_row none g = g
with_row (some r) g = record {
  permission_set =
      add_all (map (λ rp. rp.permission_code) (get_or_else r.permissions [])) g.permission_set;
  role_names = add r.name g.role_names;
}

abbrev map_option : {A B : Type 0} → (A → B) → Option A → Option B
map_option f none = none
map_option f (some a) = some (f a)

-- `perm.split('.')[0]`
abbrev pub module_part : String → String
module_part String.[] = String.[]
module_part (String.◌∷◌ c s) = if code c == b'.' then String.[] else String.◌∷◌ c (module_part s)

unfoldable pub derive_modules : List String → List String → List String
derive_modules [] set = set
derive_modules (perm ∷ perms) set = derive_modules perms (add_text (module_part perm) set)

module _ (p : RolePlatform) where
  abbrev pub from_cache_or_row : ℕ → Gathered → Option CachedRoleData → RoleAction Gathered
  from_cache_or_row role_id g (some c) = pure (with_cached c g)
  from_cache_or_row role_id g none =
      gets (λ s. with_row (map_option (with_permissions p s) (find_by_id p role_id s)) g)

  -- A failed read of the cache is logged and counts as a miss.
  unfoldable pub gather : List ℕ → Gathered → RoleAction Gathered
  unfolding get_role
  gather [] g = pure g
  gather (id ∷ ids) g = do
    cached ← catch (get_role p id) (λ e. pure none)
    g' ← from_cache_or_row id g cached
    gather ids g'

  abbrev pub capabilities_of : ℕ → Gathered → Capabilities
  capabilities_of version g = record {
    authorization_version = version;
    permissions = g.permission_set;
    modules = derive_modules g.permission_set [];
    roles = g.role_names;
  }

  abbrev pub nothing_for : ℕ → Capabilities
  nothing_for version = record {
    authorization_version = version;
    permissions = [];
    modules = [];
    roles = [];
  }

  -- `version || 1`
  abbrev pub or_one : ℕ → ℕ
  or_one v = if v == 0 then 1 else v

  abbrev pub for_roles : ℕ → List ℕ → RoleAction Capabilities
  for_roles version [] = pure (nothing_for (or_one version))
  for_roles version (id ∷ ids) = do
    g ← gather (id ∷ ids) (record { permission_set = []; role_names = [] })
    pure (capabilities_of version g)

  unfoldable pub get_bootstrap_capabilities : Option Profile → RoleAction Capabilities
  unfolding gather derive_modules
  get_bootstrap_capabilities none = pure (nothing_for 1)
  get_bootstrap_capabilities (some profile) = for_roles profile.version profile.role_ids
