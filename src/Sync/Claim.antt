-- ===== src/Sync/Claim.antt =====
-- The claim of the next job: urgent before standard, then the oldest.
use access_service.Prelude.{
  ℕ, ◌≡◌, refl, inl, inr, true, false, Option, none, some, map, arith, Contains, All, ok, ◌==◌,
  ==_refl, ◌⊎◌, ◌≤◌, leb, ltb, All-of_Contains, All-Contains, if◌then◌else◌, Option-cases,
}
use access_service.Database.{IsOrder}
use access_service.Sync.Job.{
  AuthorizationSyncJob, SyncJobPriority, urgent, standard, pending, processing, same_status_sound,
}
use access_service.Sync.Store.{
  Store, Platform, update_job, start, claim_order, is_pending_of, claim_next_pending_job,
  priority_rank, newest_first,
}

claim_order-IsOrder : IsOrder claim_order
claim_order-IsOrder = record {
  reflexive = λ a. ground arith;
  transitive = λ a b c h k. ground arith;
  total = λ a b h. ground arith;
}

pub newest_first-IsOrder : IsOrder newest_first
newest_first-IsOrder = record {
  reflexive = λ a. ground arith;
  transitive = λ a b c h k. ground arith;
  total = λ a b h. ground arith;
}

-- A pending job of the tenant.
abbrev pub IsWaiting : ℕ → AuthorizationSyncJob → Type 0
IsWaiting tenant j = (j.tenant_code ≡ tenant) × (j.status ≡ pending)

-- Urgent before standard, and the older before the younger.
abbrev PrecedesBy : SyncJobPriority → SyncJobPriority → ℕ → ℕ → Type 0
PrecedesBy a b m n = ((a ≡ urgent) × (b ≡ standard)) ⊎ ((a ≡ b) × (m ≤ n))

abbrev pub Precedes : AuthorizationSyncJob → AuthorizationSyncJob → Type 0
Precedes j k = PrecedesBy j.priority k.priority j.created_at k.created_at

claim_order-PrecedesBy :
    (a b : SyncJobPriority) (m n : ℕ)
    → (if priority_rank a == priority_rank b
        then leb m n
        else ltb (priority_rank a) (priority_rank b))
      ≡ true
    → PrecedesBy a b m n
claim_order-PrecedesBy urgent urgent m n h = inr (refl, ground arith)
claim_order-PrecedesBy urgent standard m n h = inl (refl, refl)
claim_order-PrecedesBy standard urgent m n h = ground arith
claim_order-PrecedesBy standard standard m n h = inr (refl, ground arith)

waiting :
    (tenant : ℕ) (j : AuthorizationSyncJob) → is_pending_of tenant j ≡ true → IsWaiting tenant j
waiting tenant j h = (ground arith, same_status_sound j.status pending (ground arith))

-- What the claim writes to a row.
abbrev pub processing_row : ℕ → AuthorizationSyncJob → AuthorizationSyncJob
processing_row now j = record j { status = processing; started_at = some now }

-- The job that is claimed, and the table after.
abbrev pub IsClaim : ℕ → Store → Option AuthorizationSyncJob × Store → Type 0
IsClaim tenant s (none, s') =
    (s' ≡ s) × All (λ j. j.tenant_code ≡ tenant → j.status ≡ pending → ⊥) s.jobs
IsClaim tenant s (some job, s') =
    (j : AuthorizationSyncJob) × Contains j s.jobs
    × IsWaiting tenant j
    × All (λ k. IsWaiting tenant k → Precedes j k) s.jobs
    × (job ≡ processing_row s.now j)
    × (s' ≡ record s {
      jobs =
          map
            (λ r.
              if r.id == j.id then record (processing_row s.now r) { updated_at = s.now } else r)
            s.jobs;
    })

pending_of :
    (tenant : ℕ) (j : AuthorizationSyncJob) → IsWaiting tenant j → is_pending_of tenant j ≡ true
pending_of tenant j (a, b) = rw (a, b, ==_refl tenant) refl

-- A claim takes a pending job of the tenant, urgent before standard and then the oldest, and sets it
-- and no other row to processing, started now; it returns nothing, and changes nothing, exactly where
-- the tenant has no pending job.
pub claim_next_pending_job-IsClaim :
    (p : Platform) (tenant : ℕ) (s : Store)
    → (res : Option AuthorizationSyncJob × Store) × (claim_next_pending_job p tenant s
        ≡ (ok res.0, res.1))
      × IsClaim tenant s res
unfolding claim_next_pending_job update_job
claim_next_pending_job-IsClaim p tenant s =
    elim (Option-cases (p.job_table.find_first claim_order (is_pending_of tenant) s.jobs)) [
      | inl nothing ↦
          let unfit =
            p.job_table.find_first-none claim_order (is_pending_of tenant) s.jobs nothing in
          (
            (none, s),
            rw nothing,
            (
              refl,
              All-of_Contains (λ j. j.tenant_code ≡ tenant → j.status ≡ pending → ⊥) s.jobs
                  (λ j c a b.
                    let no = All-Contains (λ j. is_pending_of tenant j ≡ false) j s.jobs unfit c in
                    cc (no, pending_of tenant j (a, b))),
            ),
          )
      | inr (j, found) ↦
          let (c, fits, least) =
            p.job_table.find_first-some claim_order (is_pending_of tenant) s.jobs j
              claim_order-IsOrder found in
          (
            (some (start s.now j), update_job p j.id (start s.now) s),
            rw found,
            (
              j,
              c,
              waiting tenant j fits,
              All-of_Contains (λ k. IsWaiting tenant k → Precedes j k) s.jobs
                  (λ k d w. claim_order-PrecedesBy j.priority k.priority j.created_at k.created_at (
                    All-Contains (λ k. is_pending_of tenant k ≡ true → claim_order j k ≡ true) k
                      s.jobs least d (pending_of tenant k w))),
              refl,
              λ i. record s { jobs = p.job_table.update_lem s.now j.id (start s.now) s.jobs i },
            ),
          )
    ]
