-- ===== src/Sync/Settled.antt =====
-- How a cycle of the worker ends.
use access_service.Prelude.{
  true, modify, ◌>>◌, ℕ, ◌≡◌, refl, ap, ◌⊎◌, inl, inr, false, List, [], ◌∷◌, map, arith, All, ok,
  err, ◌==◌, ==_iff, if◌then◌else◌, Bool-cases,
}
use access_service.Sync.Job.{SyncSourceType, user_group, role, AuthorizationSyncJob, is_in_flight}
use access_service.Sync.Outbox.{OutboxEvent}
use access_service.Sync.Store.{Store, database_down, Platform, touch_job, update_job, broken}
use access_service.Sync.Worker.{
  Machine, Thrown, Work, Task, Statement, projecting, failing, query, append_now, on_jobs,
  completed_event, failed_event, advance_source,
}
use access_service.Sync.Quiet.{
  ids, IsAt, advanced_groups, advanced_roles, update_projection_version_lem,
}

abbrev pub on_row :
    ℕ
    → (AuthorizationSyncJob → AuthorizationSyncJob)
    → List AuthorizationSyncJob
    → List AuthorizationSyncJob
on_row id f jobs = map (λ r. if r.id == id then f r else r) jobs

abbrev pub IsClosed : ℕ → List AuthorizationSyncJob → Type 0
IsClosed id jobs = All (λ j. j.id ≡ id → is_in_flight j.status ≡ false) jobs

pub on_row-IsClosed :
    (id : ℕ) (f : AuthorizationSyncJob → AuthorizationSyncJob) (jobs : List AuthorizationSyncJob)
    → ((r : AuthorizationSyncJob) → is_in_flight (f r).status ≡ false)
    → IsClosed id (on_row id f jobs)
on_row-IsClosed id f [] h = tt
on_row-IsClosed id f (r ∷ jobs) h = (
  elim (Bool-cases (r.id == id)) [
    | inl hit ↦ rw hit (λ e. h r)
    | inr other ↦ rw other (λ e. ground (arith, other, (==_iff r.id id).1 e))
  ],
  on_row-IsClosed id f jobs h,
)

pub on_row-ids :
    (id : ℕ) (f : AuthorizationSyncJob → AuthorizationSyncJob) (jobs : List AuthorizationSyncJob)
    → ((r : AuthorizationSyncJob) → (f r).id ≡ r.id)
    → ids (on_row id f jobs) ≡ ids jobs
on_row-ids id f [] h = refl
on_row-ids id f (r ∷ jobs) h = elim (Bool-cases (r.id == id)) [
  | inl hit ↦ rw hit (λ i. h r i ∷ on_row-ids id f jobs h i)
  | inr other ↦ rw other (ap (◌∷◌ r.id) (on_row-ids id f jobs h))
]

-- The end of a transaction that closes the job's row and adds an event.
module _ {W : Type 0} (job : AuthorizationSyncJob)
    (patch : ℕ → AuthorizationSyncJob → AuthorizationSyncJob) (event : ℕ → OutboxEvent) where
  abbrev pub closed : Machine W → Machine W
  closed m =
      let s = m.store in
      record m {
        store = record s {
          jobs = on_row job.id (λ r. touch_job s.now (patch s.now r)) s.jobs;
          outbox = event s.now ∷ s.outbox;
        };
      }

  module _ {Num : Type 0} (p : Platform) (w : Work W Num) (st : Statement) where
    abbrev pub closing : Task W (Unit {0})
    closing =
        query w st (modify (λ s. update_job p job.id (patch s.now) s))
        >> on_jobs w (append_now p event)

    pub closing_cases :
        (m : Machine W)
        → ((e : Thrown) × (((closing m).0 ≡ err e)
              × ((w.fails st m.store ≡ true) ⊎ (p.event_fails m.store.outbox ≡ true))))
          ⊎ (closing m ≡ (ok tt, closed m))
    unfolding append_now update_job
    closing_cases m = elim (Bool-cases (w.fails st m.store)) [
      | inl broken ↦ inl (w.thrown_of database_down, (rw broken refl, inl broken))
      | inr up ↦ elim (Bool-cases (p.event_fails m.store.outbox)) [
        | inl lost ↦ inl (w.thrown_of database_down, (rw (up, lost) refl, inr lost))
        | inr kept ↦ inr (rw (up, kept, p.job_table.update_lem) refl)
      ]
    ]

-- A source advanced, or, for a role, left as it was after an error that is swallowed.
module _ {W Num : Type 0} (p : Platform) (w : Work W Num) (job : AuthorizationSyncJob) where
  abbrev pub advanced_machine : SyncSourceType → Machine W → Machine W
  advanced_machine t m =
      let s = m.store in
      record m {
        store = record s {
          groups = advanced_groups t job.source_id job.source_version s.groups;
          roles = advanced_roles t job.source_id job.source_version s.roles;
        };
      }

  pub advance_cases :
      (t : SyncSourceType) (m : Machine W)
      → ((e : Thrown) × (advance_source p w job t m ≡ (err e, m)))
        ⊎ (advance_source p w job t m ≡ (ok tt, advanced_machine t m))
        ⊎ ((t ≡ role) × (advance_source p w job t m ≡ (ok tt, m)))
  advance_cases user_group m = elim (Bool-cases (w.fails projecting m.store)) [
    | inl broken ↦ inl (w.thrown_of database_down, rw broken refl)
    | inr up ↦ inr (inl (rw (up, update_projection_version_lem) refl))
  ]
  advance_cases role m = elim (Bool-cases (w.fails projecting m.store)) [
    | inl broken ↦ inr (inr (refl, rw broken refl))
    | inr up ↦ inr (inl (rw (up, update_projection_version_lem) refl))
  ]

-- The ends of the run of a claimed job, from the machine at the claim.
module _ {W : Type 0} (job : AuthorizationSyncJob) (s t : Machine W) where
  abbrev pub IsCompleted : Type 0
  IsCompleted =
      let v : ℕ = job.source_version in
      (total : ℕ) × ((n : ℕ) × ((t.store.outbox
            ≡ completed_event job total n s.store.now ∷ s.store.outbox)
          × (t.store.groups ≡ advanced_groups job.source_type job.source_id v s.store.groups)
          × ((t.store.roles ≡ advanced_roles job.source_type job.source_id v s.store.roles)
              ⊎ ((job.source_type ≡ role) × (t.store.roles ≡ s.store.roles)))))

  -- A group's projection version may have been advanced before the failure.
  abbrev pub IsUnfinished : Type 0
  IsUnfinished = IsAt job s.store.groups t.store.groups × (t.store.roles ≡ s.store.roles)

  abbrev pub IsFailed : Type 0
  IsFailed =
      (e : Thrown) × ((t.store.outbox ≡ failed_event job e s.store.now ∷ s.store.outbox)
        × IsUnfinished)

  -- The locks that are held, and the identifiers of the jobs.
  abbrev pub IsSameElse : Type 0
  IsSameElse = (t.held ≡ s.held) × (ids t.store.jobs ≡ ids s.store.jobs)

  abbrev pub IsSettled : Type 0
  IsSettled = IsSameElse × IsClosed job.id t.store.jobs × (IsCompleted ⊎ IsFailed)

  -- Neither end could be written: the failure's own transaction failed.
  abbrev pub IsStranded : {Num : Type 0} → Platform → Work W Num → Type 0
  IsStranded p w =
      IsSameElse
      × (t.store.outbox ≡ s.store.outbox)
      × IsUnfinished
      × ((d : Store) × ((w.fails failing d ≡ true) ⊎ (p.event_fails d.outbox ≡ true)))
