-- ===== src/Sync/Sweep.antt =====
-- What the scheduled sweep guarantees: it isolates failures, and queues every dirty version.
use access_service.Prelude.{
  ℕ, ◌+◌, ◌≡◌, refl, ◌∙◌, inl, inr, true, false, some, List, [], ◌∷◌, arith, ok, err, length,
  Contains, All, All-Contains, bind-ok, Result,
}
use access_service.Sync.Job.{
  SyncSourceType, user_group, role, AuthorizationSyncJob, SyncJobResponse, from_entity,
  is_in_flight, same_source_type_sound,
}
use access_service.Sync.Outbox.{OutboxEvent}
use access_service.Sync.Store.{Store, SyncError, Platform, in_flight_of}
use access_service.Sync.Service.{Tx, enqueue_sync_job}
use access_service.Sync.InFlight.{queue_cases, wanted, requested, interrupted, finally}
use access_service.Sync.Scanner.{
  Dirty, scan_params, credit, enqueue_dirty, enqueue_all, handle_by_tenant,
}

-- A job in flight for a dirty version.
abbrev pub IsQueued : SyncSourceType → Store → Dirty → Type 0
IsQueued source_type s d =
    (job : AuthorizationSyncJob) × Contains job s.jobs
    × (is_in_flight job.status ≡ true)
    × (job.source_type ≡ source_type)
    × (job.source_id ≡ d.id)
    × (job.source_version ≡ d.version)

-- The rest of the system adds jobs and removes none while the sweep runs, and inserts succeed.
pub record IsCalm (p : Platform) : Type 0 where
  pub others_keep :
      (j : AuthorizationSyncJob) (jobs : List AuthorizationSyncJob)
      → Contains j jobs
      → Contains j (p.others jobs)
  pub others_after_keep :
      (j : AuthorizationSyncJob) (jobs : List AuthorizationSyncJob)
      → Contains j jobs
      → Contains j (p.others_after jobs)
  pub events_succeed : (events : List OutboxEvent) → p.event_fails events ≡ false
  pub inserts_succeed : (jobs : List AuthorizationSyncJob) → p.insert_fails jobs ≡ false

abbrev Keeps : Store → Store → Type 0
Keeps s t = (j : AuthorizationSyncJob) → Contains j s.jobs → Contains j t.jobs

module _ (p : Platform) (tx : Tx) where
  -- What a row counts.
  abbrev pub counted : Result SyncError SyncJobResponse → ℕ
  counted (ok a) = credit a
  counted (err e) = 0

  -- A pass over rows from a count and a state to a count and a state: `enqueueSyncJob` runs for every
  -- row, in order, each in the state that the row before left, whatever that answered or threw.
  abbrev pub IsPass : ℕ → SyncSourceType → List Dirty → ℕ → Store → ℕ → Store → Type 0
  IsPass tenant st [] n s k u = (n ≡ k) × (s ≡ u)
  IsPass tenant st (d ∷ ds) n s k u =
      (r : Result SyncError SyncJobResponse) × ((t : Store) × ((enqueue_sync_job p tx
              (scan_params tenant st d) s
            ≡ (r, t))
          × IsPass tenant st ds (n + counted r) t k u))

  enqueue_dirty_runs :
      (tenant : ℕ) (st : SyncSourceType) (d : Dirty) (s t : Store)
      (r : Result SyncError SyncJobResponse)
      → enqueue_sync_job p tx (scan_params tenant st d) s ≡ (r, t)
      → enqueue_dirty p tx tenant st d s ≡ (ok (counted r), t)
  unfolding enqueue_dirty
  enqueue_dirty_runs tenant st d s t (ok a) e = rw e refl
  enqueue_dirty_runs tenant st d s t (err x) e = rw e refl

  IsPass-enqueue_all :
      (tenant : ℕ) (st : SyncSourceType) (ds : List Dirty) (n : ℕ) (s : Store)
      → (k : ℕ) × ((u : Store) × ((enqueue_all p tx tenant st ds n s ≡ (ok k, u))
            × IsPass tenant st ds n s k u))
  unfolding enqueue_all
  IsPass-enqueue_all tenant st [] n s = (n, (s, (refl, (refl, refl))))
  IsPass-enqueue_all tenant st (d ∷ ds) n s =
      let (r, t) = enqueue_sync_job p tx (scan_params tenant st d) s in
      let (k, (u, (e, passed))) = IsPass-enqueue_all tenant st ds (n + counted r) t in
      (
        k,
        (
          u,
          (
            bind-ok (enqueue_dirty p tx tenant st d) (λ k. enqueue_all p tx tenant st ds (n + k)) s
                  t (counted r) (enqueue_dirty_runs tenant st d s t r refl)
                ∙ e,
            (r, (t, (refl, passed))),
          ),
        ),
      )

  -- A job that the search for a job in flight returns.
  IsQueued-found :
      (st : SyncSourceType) (d : Dirty) (s : Store) (j : AuthorizationSyncJob)
      → p.job_table.find_one (in_flight_of st d.id d.version) s.jobs ≡ some j
      → IsQueued st s d
  IsQueued-found st d s j found =
      let (c, fits) = p.job_table.find_one-some _ s.jobs j found in
      (
        j,
        c,
        ground arith,
        ground (arith, same_source_type_sound j.source_type st),
        ground arith,
        ground arith,
      )

  module _ (calm : IsCalm p) where
    abbrev Queues : SyncSourceType → Dirty → Store → ℕ → Store → Type 0
    Queues st d s k t = (k ≡ 1) × IsQueued st t d × Keeps s t

    enqueue_dirty_calm :
        (tenant : ℕ) (st : SyncSourceType) (d : Dirty) (s : Store)
        → (k : ℕ) × (t : Store) × (enqueue_dirty p tx tenant st d s ≡ (ok k, t)) × Queues st d s k t
    unfolding enqueue_dirty enqueue_sync_job from_entity
    enqueue_dirty_calm tenant st d s =
        let r = scan_params tenant st d in
        let between = interrupted p tx r d.version s in
        let later = finally p tx r d.version s in
        let keeps = λ (j : AuthorizationSyncJob) (c : Contains j s.jobs).
          calm.others_after_keep j (p.others s.jobs) (calm.others_keep j s.jobs c) in
        elim (queue_cases p tx r d.version s) [
          | inl (j, found, e) ↦ (1, s, rw e, (refl, IsQueued-found st d s j found, λ j c. c))
          | inr (inl (j, found, e)) ↦
              (1, later, rw e, (refl, IsQueued-found st d later j found, keeps))
          | inr (inr (inl ((w, (held, flies, gone)), e))) ↦
              let missed =
                All-Contains (λ j. in_flight_of st d.id d.version j ≡ false) w
                  (p.others_after (p.others s.jobs)) gone
                  (calm.others_after_keep w (p.others s.jobs) held) in
              cc (flies, missed)
          | inr (inr (inr (inl (down, e)))) ↦
              ground
                (arith, down, calm.inserts_succeed (p.others s.jobs), calm.events_succeed s.outbox)
          | inr (inr (inr (inr (free, e)))) ↦ (
            1,
            record between {
              jobs = wanted p tx r d.version between ∷ p.others s.jobs;
              outbox = requested p tx r d.version between ∷ s.outbox;
            },
            rw e,
            (
              refl,
              (wanted p tx r d.version between, inl refl, refl, refl, refl, refl),
              λ j c. inr (calm.others_keep j s.jobs c),
            ),
          )
        ]

    IsQueued-kept :
        (st : SyncSourceType) (s t : Store) (d : Dirty)
        → Keeps s t
        → IsQueued st s d
        → IsQueued st t d
    IsQueued-kept st s t d keeps (j, c, rest0, rest1, rest2, rest3) =
        (j, keeps j c, rest0, rest1, rest2, rest3)

    enqueue_all_calm :
        (tenant : ℕ) (st : SyncSourceType) (ds : List Dirty) (n m : ℕ) (s : Store)
        → n + length ds ≡ m
        → (t : Store) × (enqueue_all p tx tenant st ds n s ≡ (ok m, t))
          × All (IsQueued st t) ds
          × Keeps s t
    unfolding enqueue_all
    enqueue_all_calm tenant st [] n m s same =
        let e : n ≡ m = omega arith in (s, rw e, tt, λ j c. c)
    enqueue_all_calm tenant st (d ∷ ds) n m s same =
        let (k, t, e, (one, here, keeps)) = enqueue_dirty_calm tenant st d s in
        let (u, e', there, keeps') = enqueue_all_calm tenant st ds (n + k) m t (omega arith) in
        (
          u,
          bind-ok (enqueue_dirty p tx tenant st d) (λ k. enqueue_all p tx tenant st ds (n + k)) s t
                k e
              ∙ e',
          (IsQueued-kept st t u d keeps' here, there),
          λ j c. keeps' j (keeps j c),
        )

    All-kept :
        (st : SyncSourceType) (s t : Store) (ds : List Dirty)
        → Keeps s t
        → All (IsQueued st s) ds
        → All (IsQueued st t) ds
    All-kept st s t [] keeps h = tt
    All-kept st s t (d ∷ ds) keeps h =
        (IsQueued-kept st s t d keeps h.0, All-kept st s t ds keeps h.1)

-- While other processes only add jobs and inserts succeed, a tenant's pass leaves a job in flight for
-- the version of every dirty group and role that it is given, and counts one job for each.
pub handle_by_tenant_queues :
    (p : Platform) (tx : Tx) (tenant : ℕ) (groups roles : List Dirty) (s : Store)
    → IsCalm p
    → (t : Store) × (handle_by_tenant p tx tenant groups roles s
        ≡ (ok (length groups + length roles), t))
      × All (IsQueued user_group t) groups
      × All (IsQueued role t) roles
unfolding handle_by_tenant
handle_by_tenant_queues p tx tenant groups roles s calm =
    let (t, e, gs, keeps) =
      enqueue_all_calm p tx calm tenant user_group groups 0 (length groups) s (omega arith) in
    let (u, e', rs, keeps') =
      enqueue_all_calm p tx calm tenant role roles (length groups) _ t refl in
    (
      u,
      bind-ok (enqueue_all p tx tenant user_group groups 0)
            (λ n. enqueue_all p tx tenant role roles n) s t (length groups) e
          ∙ e',
      All-kept p tx calm user_group t u groups keeps' gs,
      rs,
    )

-- Whatever fails in between, a tenant's pass answers: `enqueueSyncJob` runs for every group and then
-- for every role, in order, each in the state that the one before left, whatever that answered or
-- threw; the count is that of the answers that name a job.
pub handle_by_tenant_isolates :
    (p : Platform) (tx : Tx) (tenant : ℕ) (groups roles : List Dirty) (s : Store)
    → (n : ℕ) × ((t : Store) × ((k : ℕ) × ((u : Store) × ((handle_by_tenant p tx tenant groups roles
                  s
                ≡ (ok k, u))
              × IsPass p tx tenant user_group groups 0 s n t
              × IsPass p tx tenant role roles n t k u))))
unfolding handle_by_tenant
handle_by_tenant_isolates p tx tenant groups roles s =
    let (n, (t, (e, first))) = IsPass-enqueue_all p tx tenant user_group groups 0 s in
    let (k, (u, (e', second))) = IsPass-enqueue_all p tx tenant role roles n t in
    let runs =
      bind-ok (enqueue_all p tx tenant user_group groups 0)
        (λ n. enqueue_all p tx tenant role roles n) s t n e
      ∙ e' in
    (n, (t, (k, (u, (runs, first, second)))))
