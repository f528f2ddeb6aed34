-- ===== src/Sync/Batches.antt =====
-- The worker's loop over the users of a tenant.
use access_service.Prelude.{
  ℕ, ◌+◌, zero, suc, ◌≤◌, ◌≡◌, refl, ◌∙◌, false, some, List, [], ◌∷◌, ltb, length, arith, when_else,
  pure, ◌>>=◌, ◌>>◌,
}
use access_service.Sync.Job.{AuthorizationSyncJob}
use access_service.Sync.Store.{Platform, update_progress}
use access_service.Sync.Worker.{
  Work, Task, query, progressing, on_work, batch_size, recompute_users, process_batch,
  process_batches,
}

module _ {W Num : Type 0} (p : Platform) (w : Work W Num) (job : AuthorizationSyncJob)
    (total : ℕ) where
  process_batch-same :
      (f g : ℕ → Task W ℕ) (processed : ℕ) (users : List ℕ)
      → ((k : ℕ) → processed + 1 ≤ k → f k ≡ g k)
      → process_batch p w job total f processed users
        ≡ process_batch p w job total g processed users
  process_batch-same f g processed [] same = refl
  process_batch-same f g processed (user ∷ users) same = λ i.
      recompute_users p w job.tenant_code (user ∷ users)
      >> (query w progressing
            (update_progress p job.id (processed + length (user ∷ users)) (some total))
          >> same (processed + length (user ∷ users)) (omega arith) i)

  one_more :
      (n processed : ℕ)
      → total ≤ processed + n
      → process_batches p w job total (suc n) processed ≡ process_batches p w job total n processed
  unfolding process_batches
  one_more zero processed h = let over : ltb processed total ≡ false = ground arith in rw over refl
  one_more (suc n) processed h = λ i.
      when_else (ltb processed total)
        (on_work (w.find_batch_with_employee processed batch_size) >>= λ users.
          process_batch-same _ _ processed users (λ k past. one_more n k (omega arith)) i)
        (pure processed)

  -- As many rounds as there are users left are enough: whatever more is allowed, the loop does the
  -- same, so that it ends by its own tests.
  pub process_batches_enough :
      (more processed : ℕ)
      → process_batches p w job total (more + total) processed
        ≡ process_batches p w job total total processed
  process_batches_enough zero processed = let e : 0 + total ≡ total = omega arith in rw e refl
  process_batches_enough (suc more) processed =
      let e : suc more + total ≡ suc (more + total) = omega arith in
      rw e (one_more (more + total) processed (omega arith)) ∙ process_batches_enough more processed
