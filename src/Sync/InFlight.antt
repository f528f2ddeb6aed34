-- ===== src/Sync/InFlight.antt =====
-- Queuing a job: the unique index, the race that it decides, and the outbox.
use access_service.Prelude.{
  Bool, catch, catch-ok, catch-err, ℕ, ◌≡◌, refl, ap, ◌∙◌, ◌⊎◌, inl, inr, leb, true, false, Option,
  none, some, List, ◌∷◌, ◌&&◌, ◌==◌, arith, All, Result, ok, err, Bool-cases, Option-cases,
  and_split, any-witness, Contains, ◌||◌, get_or_else,
}
use access_service.Sync.Job.{
  scheduled, standard, AuthorizationSyncJob, SyncJobResponse, from_entity, completed_value,
  is_in_flight,
}
use access_service.Sync.Outbox.{OutboxEvent, from_sync_requested}
use access_service.Sync.Store.{
  Store, SyncError, in_flight_conflict, database_down, not_found, Platform, Sync, same_source,
  violates_index, in_flight_of, insert_job, find_in_flight_job,
}
use access_service.Sync.Service.{
  Tx, EnqueueParams, new_job, subject_of, queued_message, existing_message, create_sync_job,
  create_sync_job_transactional, queue_version, enqueue_sync_job,
  validate_and_resolve_source_versions, handle_in_flight_conflict, sources,
}

or_split : (a b : Bool) → (a || b) ≡ false → (a ≡ false) × (b ≡ false)
or_split a b h = (ground arith, ground arith)

-- How a run of the transaction's body ends.
module _ (p : Platform) (tx : Tx) (r : EnqueueParams) (version : ℕ) where
  -- The row that the request asks for.
  abbrev pub wanted : Store → AuthorizationSyncJob
  wanted s =
      new_job (p.fresh_id s.jobs) s.now r.tenant_code (get_or_else r.created_by (some "SYSTEM"))
        r.source_type r.source_id version (get_or_else r.trigger_type scheduled)
        (get_or_else r.priority standard)

  abbrev pub requested : Store → OutboxEvent
  requested s =
      from_sync_requested r.tenant_code (get_or_else r.created_by (some "SYSTEM"))
        (subject_of (wanted s))

  abbrev body : Sync SyncJobResponse
  body =
      create_sync_job p r.tenant_code (get_or_else r.created_by (some "SYSTEM")) r.source_type
        r.source_id version (get_or_else r.trigger_type scheduled) (get_or_else r.priority standard)

  abbrev Fails : SyncError → Store → Type 0
  Fails e s = tx.run body s ≡ (err e, s)

  abbrev added : Store → Result SyncError SyncJobResponse × Store
  added s = (
    ok (from_entity (wanted s) false queued_message),
    record s { jobs = wanted s ∷ s.jobs; outbox = requested s ∷ s.outbox },
  )

  abbrev Adds : Store → Type 0
  Adds s = tx.run body s ≡ added s

  throws : (s : Store) (e : SyncError) → (body s).0 ≡ err e → Fails e s
  throws s e h = tx.rollback body s e h

  adds : (s : Store) → body s ≡ added s → tx.run body s ≡ added s
  adds s h = tx.commit body s _ (ap (λ r. r.0) h) ∙ h

  body-clash :
      (s : Store) → violates_index (wanted s) s.jobs ≡ true → (body s).0 ≡ err in_flight_conflict
  unfolding create_sync_job insert_job
  body-clash s clash = rw clash

  body-down :
      (s : Store)
      → violates_index (wanted s) s.jobs ≡ false
      → (p.insert_fails s.jobs || p.event_fails s.outbox) ≡ true
      → (body s).0 ≡ err database_down
  unfolding create_sync_job insert_job
  body-down s free down = elim (Bool-cases (p.insert_fails s.jobs)) [
    | inl broken ↦ rw (free, broken)
    | inr up ↦ let lost : p.event_fails s.outbox ≡ true = rw up at down in rw (free, up, lost)
  ]

  body-adds :
      (s : Store)
      → violates_index (wanted s) s.jobs ≡ false
      → p.insert_fails s.jobs ≡ false
      → p.event_fails s.outbox ≡ false
      → body s ≡ added s
  unfolding create_sync_job insert_job
  body-adds s free up kept = rw (free, up, kept)

  run_cases :
      (s : Store)
      → ((violates_index (wanted s) s.jobs ≡ true) × Fails in_flight_conflict s)
        ⊎ (((p.insert_fails s.jobs || p.event_fails s.outbox) ≡ true) × Fails database_down s)
        ⊎ ((violates_index (wanted s) s.jobs ≡ false) × Adds s)
  run_cases s = elim (Bool-cases (violates_index (wanted s) s.jobs)) [
    | inl clash ↦ inl (clash, throws s in_flight_conflict (body-clash s clash))
    | inr free ↦ elim (Bool-cases (p.insert_fails s.jobs || p.event_fails s.outbox)) [
      | inl down ↦ inr (inl (down, throws s database_down (body-down s free down)))
      | inr up ↦
          let (a, b) = or_split (p.insert_fails s.jobs) (p.event_fails s.outbox) up in
          inr (inr (free, adds s (body-adds s free a b)))
    ]
  ]

  abbrev lookup : List AuthorizationSyncJob → Option AuthorizationSyncJob
  lookup jobs = p.job_table.find_one (in_flight_of r.source_type r.source_id version) jobs

  -- The table after the other processes' commits.
  abbrev pub interrupted : Store → Store
  interrupted s = record s { jobs = p.others s.jobs }

  abbrev answers : AuthorizationSyncJob → Store → Result SyncError SyncJobResponse × Store
  answers j s = (ok (from_entity j false existing_message), s)

  -- The table at the second search.
  abbrev pub finally : Store → Store
  finally s = record s { jobs = p.others_after (p.others s.jobs) }

  -- The row that the index found is a job in flight for the version.
  clash-in_flight :
      (w : AuthorizationSyncJob) (jobs : List AuthorizationSyncJob)
      → w.source_type ≡ r.source_type
      → w.source_id ≡ r.source_id
      → w.source_version ≡ version
      → violates_index w jobs ≡ true
      → (k : AuthorizationSyncJob) × (Contains k jobs
          × (in_flight_of r.source_type r.source_id version k ≡ true))
  clash-in_flight w jobs a b c h =
      let (free, found) = and_split (is_in_flight w.status) _ h in
      let (k, (held, fits)) =
        any-witness (λ k. is_in_flight k.status && same_source k w) jobs found in
      (k, (held, ground (arith, fits, a, b, c)))

  handler : SyncError → Sync SyncJobResponse
  handler = handle_in_flight_conflict p r.source_type r.source_id version

  queue-missed :
      (s : Store)
      → lookup s.jobs ≡ none
      → queue_version p tx r version s ≡ catch (tx.run body) handler (interrupted s)
  unfolding queue_version find_in_flight_job create_sync_job_transactional handler
  queue-missed s missed = rw missed

  handler-found :
      (s : Store) (j : AuthorizationSyncJob)
      → lookup (p.others_after s.jobs) ≡ some j
      → handler in_flight_conflict s ≡ answers j (record s { jobs = p.others_after s.jobs })
  unfolding handler handle_in_flight_conflict find_in_flight_job
  handler-found s j found = rw found

  handler-lost :
      (s : Store)
      → lookup (p.others_after s.jobs) ≡ none
      → handler in_flight_conflict s
        ≡ (err in_flight_conflict, record s { jobs = p.others_after s.jobs })
  unfolding handler handle_in_flight_conflict find_in_flight_job
  handler-lost s gone = rw gone

  -- The job that won the race, and that none is left for the second search.
  abbrev pub IsOver : Store → Type 0
  IsOver s =
      (w : AuthorizationSyncJob) × (Contains w (p.others s.jobs)
        × (in_flight_of r.source_type r.source_id version w ≡ true)
        × All (λ j. in_flight_of r.source_type r.source_id version j ≡ false)
            (p.others_after (p.others s.jobs)))

  -- The five ways in which queuing a version ends.
  pub queue_cases :
      (s : Store)
      → ((j : AuthorizationSyncJob) × (lookup s.jobs ≡ some j)
          × (queue_version p tx r version s ≡ answers j s))
        ⊎ ((j : AuthorizationSyncJob) × (lookup (p.others_after (p.others s.jobs)) ≡ some j)
            × (queue_version p tx r version s ≡ answers j (finally s)))
        ⊎ (IsOver s × (queue_version p tx r version s ≡ (err in_flight_conflict, finally s)))
        ⊎ (((p.insert_fails (p.others s.jobs) || p.event_fails s.outbox) ≡ true)
            × (queue_version p tx r version s ≡ (err database_down, interrupted s)))
        ⊎ ((violates_index (wanted (interrupted s)) (p.others s.jobs) ≡ false)
            × (queue_version p tx r version s ≡ added (interrupted s)))
  unfolding queue_version find_in_flight_job handler handle_in_flight_conflict
  queue_cases s = elim (Option-cases (lookup s.jobs)) [
    | inr (j, found) ↦ inl (j, found, rw found)
    | inl missed ↦ elim (run_cases (interrupted s)) [
      | inl (clash, ends) ↦
          let rethrown =
            queue-missed s missed ∙ catch-err (tx.run body) handler _ _ in_flight_conflict ends in
          elim (Option-cases (lookup (p.others_after (p.others s.jobs)))) [
            | inr (j, found) ↦
                inr (inl (j, found, rethrown ∙ handler-found (interrupted s) j found))
            | inl gone ↦
                let (w, (held, flies)) =
                  clash-in_flight (wanted (interrupted s)) (p.others s.jobs) refl refl refl clash in
                inr (
                  inr (
                    inl (
                      (w, (held, flies, p.job_table.find_one-none _ _ gone)),
                      rethrown ∙ handler-lost (interrupted s) gone,
                    )))
          ]
      | inr (inl (down, ends)) ↦ inr (
          inr (
            inr (
              inl (
                down,
                queue-missed s missed ∙ catch-err (tx.run body) handler _ _ database_down ends,
              ))))
      | inr (inr (free, ends)) ↦ inr (
          inr (inr (inr (free, queue-missed s missed ∙ catch-ok (tx.run body) handler _ _ _ ends))))
    ]
  ]

-- `enqueueSyncJob` refuses an unknown source, answers that there is nothing to do, or queues a
-- version of the source.
pub enqueue_rule :
    (p : Platform) (tx : Tx) (r : EnqueueParams) (s : Store)
    (P : Result SyncError SyncJobResponse × Store → Type 0)
    → ((version : ℕ) → P (queue_version p tx r version s))
    → P (err not_found, s)
    → ((version : ℕ)
        → P (
          ok (
              completed_value r.tenant_code r.source_type r.source_id version
                (get_or_else r.trigger_type scheduled)),
          s,
        ))
    → P (enqueue_sync_job p tx r s)
unfolding enqueue_sync_job validate_and_resolve_source_versions
enqueue_rule p tx r s P queues unknown done = elim (Bool-cases r.ignore_validate_source) [
  | inl trusted ↦ rw trusted (queues _)
  | inr checked ↦
      elim (Option-cases
        (p.source_table.find_one (λ g. g.id == r.source_id) (sources r.source_type s))) [
          | inl missing ↦ rw (checked, missing) unknown
          | inr (g, found) ↦
              elim (Bool-cases (leb g.version (get_or_else g.projection_version 0))) [
                | inl synced ↦ rw (checked, found, synced) (done _)
                | inr dirty ↦ rw (checked, found, dirty) (queues _)
              ]
        ]
]
