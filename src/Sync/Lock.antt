-- ===== src/Sync/Lock.antt =====
-- distributed-lock.adapter.ts: advisory locks that the session holds, by a hash of their key. A key
-- is the list of its code units.
use Prim.Native.Char.{code}
use access_service.Prelude.{
  ℕ, String, ◌+◌, ◌-◌, ◌*◌, ◌%◌, Bool, true, false, Option, List, [], ◌∷◌, ◌++◌, ◌==◌, ltb,
  if◌then◌else◌, get_or_else,
}

-- The code units of a text without astral characters.
unfoldable code_units : String → List ℕ
code_units String.[] = []
code_units (String.◌∷◌ c s) = code c ∷ code_units s

-- The argument is the tenant code.
unfoldable pub generate_authz_worker_lock_key : List ℕ → List ℕ
unfolding code_units
generate_authz_worker_lock_key tenant = code_units "authz:reconciliation-worker:lock:" ++ tenant

-- A signed 32-bit integer, by its remainder.
abbrev pub int32 : ℕ
int32 = 4_294_967_296

-- `(hash << 5) - hash + char`, then `hash & hash`
abbrev pub next_hash : ℕ → ℕ → ℕ
next_hash hash char = ((hash * 32) % int32 + (int32 - hash) + char) % int32

unfoldable pub hash_from : ℕ → List ℕ → ℕ
hash_from hash [] = hash
hash_from hash (char ∷ key) = hash_from (next_hash hash char) key

-- `Math.abs`
abbrev pub abs_int32 : ℕ → ℕ
abs_int32 hash = if ltb hash 2_147_483_648 then hash else int32 - hash

unfoldable pub hash_key_to_int64 : List ℕ → ℕ
unfolding hash_from
hash_key_to_int64 key = abs_int32 (hash_from 0 key)

-- PostgreSQL, as this session sees it at one moment.
pub record Locks : Type 0 where
  -- `pg_try_advisory_lock`; nothing where the query fails
  pub try_lock : ℕ → Option Bool
  -- whether the query with `pg_advisory_unlock` comes through
  pub reachable : Bool

-- The locks that the session holds; one that it takes twice stands there twice.
abbrev pub taken : Bool → ℕ → List ℕ → List ℕ
taken true id held = id ∷ held
taken false id held = held

-- What the adapter answers, and the locks after.
unfoldable pub acquire_lock : Locks → List ℕ → List ℕ → Bool × List ℕ
unfolding hash_key_to_int64
acquire_lock locks key held =
    let id = hash_key_to_int64 key in
    let acquired = get_or_else (locks.try_lock id) false in (acquired, taken acquired id held)

-- `pg_advisory_unlock`: whether the lock was held, and the locks after.
abbrev pub found_at : Bool → ℕ → List ℕ → Bool × List ℕ → Bool × List ℕ
found_at true x held rest = (true, held)
found_at false x held (found, left) = (found, x ∷ left)

unfoldable pub unlock : ℕ → List ℕ → Bool × List ℕ
unlock id [] = (false, [])
unlock id (x ∷ held) = found_at (x == id) x held (unlock id held)

unfoldable pub release_lock : Locks → List ℕ → List ℕ → Bool × List ℕ
unfolding hash_key_to_int64 unlock
release_lock locks key held =
    if locks.reachable then unlock (hash_key_to_int64 key) held else (false, held)
