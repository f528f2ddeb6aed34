-- ===== src/Sync/Queueing.antt =====
-- What `enqueueSyncJob` guarantees, also where another process wins the race on the unique index.
use access_service.Prelude.{
  ℕ, String, ◌≡◌, refl, ◌⊎◌, inl, inr, true, false, some, ◌∷◌, arith, Contains, Result, ok, err,
  get_or_else,
}
use access_service.Sync.Job.{
  pending, AuthorizationSyncJob, SyncJobResponse, from_entity, completed_value, is_in_flight,
  same_source_type_sound,
}
use access_service.Sync.Outbox.{from_sync_requested}
use access_service.Sync.Store.{Store, SyncError, in_flight_conflict, Platform, in_flight_of}
use access_service.Sync.Service.{
  Tx, EnqueueParams, subject_of, queued_message, existing_message, queue_version, enqueue_sync_job,
}
use access_service.Sync.InFlight.{wanted, interrupted, finally, IsOver, queue_cases, enqueue_rule}

abbrev pub Outcome : Type 0
Outcome = Result SyncError SyncJobResponse × Store

-- The answer names a job in flight for the version that the answer gives of the requested source.
abbrev pub Names : EnqueueParams → SyncJobResponse → Store → Type 0
Names r a s =
    (job : AuthorizationSyncJob) × Contains job s.jobs
    × (is_in_flight job.status ≡ true)
    × (a.job_id ≡ some job.id)
    × (job.source_type ≡ r.source_type)
    × (job.source_id ≡ r.source_id)
    × (job.source_version ≡ a.source_version)

-- Either nothing is announced and no job is added, or a new pending job and its announcement are
-- written together.
abbrev pub IsAtomic : Platform → EnqueueParams → Store → Outcome → Type 0
IsAtomic p r s (res, s') =
    ((s'.outbox ≡ s.outbox)
      × ((s'.jobs ≡ s.jobs)
          ⊎ (s'.jobs ≡ p.others s.jobs)
          ⊎ (s'.jobs ≡ p.others_after (p.others s.jobs))))
    ⊎ ((job : AuthorizationSyncJob) × (job.status ≡ pending)
        × (res ≡ ok (from_entity job false queued_message))
        × (s'.jobs ≡ job ∷ p.others s.jobs)
        × (s'.outbox
            ≡ from_sync_requested r.tenant_code (get_or_else r.created_by (some "SYSTEM"))
                (subject_of job)
              ∷ s.outbox))

abbrev pub IsAnswered : EnqueueParams → Outcome → Type 0
IsAnswered r (ok a, s) = a.is_no_op ≡ false → Names r a s
IsAnswered r (err e, s) = Unit

module _ (p : Platform) (tx : Tx) (r : EnqueueParams) where
  -- The conflict came from a job in flight for the version, and none is left.
  abbrev pub IsFinished : Store → Type 0
  IsFinished s = (version : ℕ) × IsOver p tx r version s

  abbrev Excused : Store → Outcome → Type 0
  Excused s res = res.0 ≡ err in_flight_conflict → IsFinished s

  queue-Excused : (version : ℕ) (s : Store) → Excused s (queue_version p tx r version s)
  queue-Excused version s = elim (queue_cases p tx r version s) [
    | inl (j, found, e) ↦ rw e (λ h. cc)
    | inr (inl (j, found, e)) ↦ rw e (λ h. cc)
    | inr (inr (inl (over, e))) ↦ (λ h. (version, over))
    | inr (inr (inr (inl (down, e)))) ↦ rw e (λ h. cc)
    | inr (inr (inr (inr (free, e)))) ↦ rw e (λ h. cc)
  ]

  queue_version-IsAtomic :
      (version : ℕ) (s : Store) → IsAtomic p r s (queue_version p tx r version s)
  queue_version-IsAtomic version s = elim (queue_cases p tx r version s) [
    | inl (j, found, e) ↦ rw e (inl (refl, inl refl))
    | inr (inl (j, found, e)) ↦ rw e (inl (refl, inr (inr refl)))
    | inr (inr (inl (over, e))) ↦ rw e (inl (refl, inr (inr refl)))
    | inr (inr (inr (inl (down, e)))) ↦ rw e (inl (refl, inr (inl refl)))
    | inr (inr (inr (inr (free, e)))) ↦
        rw e (inr (wanted p tx r version (interrupted p tx r version s), refl, refl, refl, refl))
  ]

  -- A row that the search for a job in flight returns.
  Names-found :
      (version : ℕ) (s : Store) (j : AuthorizationSyncJob) (message : String)
      → p.job_table.find_one (in_flight_of r.source_type r.source_id version) s.jobs ≡ some j
      → Names r (from_entity j false message) s
  unfolding from_entity
  Names-found version s j message found =
      let (c, fits) = p.job_table.find_one-some _ s.jobs j found in
      (
        j,
        c,
        ground arith,
        refl,
        ground (arith, same_source_type_sound j.source_type r.source_type),
        ground arith,
        refl,
      )

  queue_answers : (version : ℕ) (s : Store) → IsAnswered r (queue_version p tx r version s)
  unfolding from_entity
  queue_answers version s = elim (queue_cases p tx r version s) [
    | inl (j, found, e) ↦ rw e (λ _. Names-found version s j existing_message found)
    | inr (inl (j, found, e)) ↦
        rw e (λ _. Names-found version (finally p tx r version s) j existing_message found)
    | inr (inr (inl (over, e))) ↦ rw e tt
    | inr (inr (inr (inl (down, e)))) ↦ rw e tt
    | inr (inr (inr (inr (free, e)))) ↦ rw e (λ _. (
      wanted p tx r version (interrupted p tx r version s),
      inl refl,
      refl,
      refl,
      refl,
      refl,
      refl,
    ))
  ]

-- The conflict on the unique index reaches the caller only if another process put a job in flight for
-- the version before the transaction, and no job in flight for it was left at the second search.
pub enqueue_conflict-IsFinished :
    (p : Platform) (tx : Tx) (r : EnqueueParams) (s : Store)
    → (enqueue_sync_job p tx r s).0 ≡ err in_flight_conflict
    → IsFinished p tx r s
enqueue_conflict-IsFinished p tx r s =
    enqueue_rule p tx r s (Excused p tx r s) (λ version. queue-Excused p tx r version s) (λ h. cc)
      (λ version h. cc)

-- An answer of `enqueueSyncJob` that is not a no-op names a job in flight of the requested source,
-- at the version that the answer gives.
pub enqueue_answers_in_flight :
    (p : Platform) (tx : Tx) (r : EnqueueParams) (s : Store)
    → IsAnswered r (enqueue_sync_job p tx r s)
unfolding completed_value
enqueue_answers_in_flight p tx r s =
    enqueue_rule p tx r s (IsAnswered r) (λ version. queue_answers p tx r version s) tt
      (λ version h. cc)

-- Job and outbox event are written together or not at all, on every branch of `enqueueSyncJob`: an
-- error, of the insert into the outbox too, a no-op and an answer with an existing job announce nothing.
pub enqueue_sync_job-IsAtomic :
    (p : Platform) (tx : Tx) (r : EnqueueParams) (s : Store)
    → IsAtomic p r s (enqueue_sync_job p tx r s)
enqueue_sync_job-IsAtomic p tx r s =
    enqueue_rule p tx r s (IsAtomic p r s) (λ version. queue_version-IsAtomic p tx r version s)
      (inl (refl, inl refl)) (λ version. inl (refl, inl refl))
