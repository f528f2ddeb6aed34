-- ===== src/Sync/Cycle.antt =====
-- Cycles of the worker: the lock, the claim and the end of the claimed job.
use access_service.Prelude.{
  ◌⊎◌, err, ℕ, ◌≡◌, Bool, true, false, Option, some, List, ◌∷◌, Result, ok,
}
use access_service.Database.{Transaction}
use access_service.Sync.Job.{AuthorizationSyncJob}
use access_service.Sync.Store.{Platform, update_job, start}
use access_service.Sync.Claim.{processing_row}
use access_service.Sync.Lock.{Locks, generate_authz_worker_lock_key, hash_key_to_int64}
use access_service.Sync.Worker.{Machine, Thrown, Work}
use access_service.Sync.Settled.{IsSettled, IsStranded}

module _ {W Num : Type 0} (p : Platform) (w : Work W Num) where
  -- What a cycle comes to, for the answer of the lock, whether the claim's statement fails, and the
  -- job that comes first.
  abbrev pub IsCycle :
      Option Bool
      → Bool
      → Option AuthorizationSyncJob
      → Machine W
      → Result Thrown Bool × Machine W
      → Type 0
  IsCycle (some true) true j s r = (e : Thrown) × (r ≡ (err e, s))
  IsCycle (some true) false (some j) s r =
      let job = processing_row s.store.now j in
      ((t : Machine W) × ((r ≡ (ok true, t)) × IsSettled job s t))
      ⊎ ((e : Thrown) × ((t : Machine W) × ((r ≡ (err e, t)) × IsStranded job s t p w)))
  IsCycle _ _ _ s r = r ≡ (ok false, s)

module _ {W Num : Type 0} (p : Platform) (w : Work W Num)
    (tx : Transaction (Machine W) Thrown (Unit {0})) (locks : Locks) (units : List ℕ) (tenant : ℕ)
    (s : Machine W) (up : locks.reachable ≡ true) where
  abbrev key : List ℕ
  key = generate_authz_worker_lock_key units

  -- The machine of a claimed job, with the lock.
  abbrev claimed : AuthorizationSyncJob → Machine W
  claimed j = record s {
    store = update_job p j.id (start s.store.now) s.store;
    held = hash_key_to_int64 key ∷ s.held;
  }

  abbrev Finished : AuthorizationSyncJob → Result Thrown Bool × Machine W → Type 0
  Finished j r = IsCycle p w (some true) false (some j) s r
