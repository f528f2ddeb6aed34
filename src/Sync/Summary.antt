-- ===== src/Sync/Summary.antt =====
-- When the status projection reports what, and that the tenant's summary counts every entity once.
use access_service.Prelude.{
  ℕ, ◌+◌, ◌≤◌, ◌<◌, ◌≡◌, refl, ◌↔◌, true, Option, none, some, List, [], ◌∷◌, ◌++◌, map, arith, ok,
  length, ltb, bind-ok, pure, length-append, length-map,
}
use access_service.Sync.Job.{
  AuthorizationSyncJob, SyncJobStatus, pending, processing, completed, failed, user_group, role,
}
use access_service.Sync.Store.{Store, Platform, find_latest_job_by_source}
use access_service.Sync.Status.{
  SyncComputedStatus, status_pending, status_processing, status_completed, status_failed,
  ComputedStatus, by_job, compute_status, Counts, tally, Entity, count_entities, zero_counts,
  get_tenant_summary, entity_of, TenantSummary,
}

abbrev pub HasStatus : SyncJobStatus → Option AuthorizationSyncJob → Type 0
HasStatus st none = ⊥
HasStatus st (some j) = j.status ≡ st

-- `completed` means that the projection has caught up and that the latest job is not in flight;
-- `failed` that it has not and that the latest job failed; `processing` that the latest job is
-- processing.
abbrev pub IsReport : ℕ → ℕ → Option AuthorizationSyncJob → ComputedStatus → Type 0
IsReport version projection latest c =
    ((c.status ≡ status_completed)
      ↔ ((version ≤ projection) × ¬ (HasStatus pending latest) × ¬ (HasStatus processing latest)))
    × ((c.status ≡ status_failed) ↔ ((projection < version) × HasStatus failed latest))
    × ((c.status ≡ status_processing) ↔ HasStatus processing latest)

by_job-IsReport :
    (st : SyncJobStatus) (version projection : ℕ) (job : AuthorizationSyncJob)
    → job.status ≡ st
    → IsReport version projection (some job) (by_job st job (ltb projection version))
by_job-IsReport pending version projection job e = ground arith
by_job-IsReport processing version projection job e = ground arith
by_job-IsReport completed version projection job e = ground arith
by_job-IsReport failed version projection job e = ground arith

-- The reported status is `completed`, `failed` or `processing` exactly as `IsReport` says; what is
-- left is `pending`. An entity is never reported as completed while its version is ahead.
pub compute_status-IsReport :
    (version projection : ℕ) (latest : Option AuthorizationSyncJob)
    → IsReport version projection latest (compute_status version projection latest)
unfolding compute_status
compute_status-IsReport version projection none = ground arith
compute_status-IsReport version projection (some job) =
    by_job-IsReport job.status version projection job refl

abbrev pub total : Counts → ℕ
total c = c.completed + c.pending + c.processing + c.failed

tally_total : (st : SyncComputedStatus) (c : Counts) → total (tally st c) ≡ total c + 1
tally_total status_completed c = omega arith
tally_total status_pending c = omega arith
tally_total status_processing c = omega arith
tally_total status_failed c = omega arith

count_entities_total :
    (p : Platform) (es : List Entity) (c : Counts) (s : Store)
    → (d : Counts) × (count_entities p es c s ≡ (ok d, s)) × (total d ≡ total c + length es)
unfolding count_entities find_latest_job_by_source
count_entities_total p [] c s = (c, refl, omega arith)
count_entities_total p (e ∷ es) c s =
    let st = (compute_status e.version e.projection_version _).status in
    let (d, runs, adds) = count_entities_total p es (tally st c) s in
    (d, runs, omega (arith, tally_total st c))

-- The summary counts every active group and every role exactly once, and changes nothing.
get_tenant_summary_total :
    (p : Platform) (s : Store)
    → (r : TenantSummary) × (get_tenant_summary p s ≡ (ok r, s))
      × (total r.counts ≡ r.total_entities)
      × (r.total_entities
          ≡ length (p.source_table.find (λ g. g.active) s.groups)
            + length (p.source_table.find (λ g. true) s.roles))
unfolding get_tenant_summary
get_tenant_summary_total p s =
    let groups = p.source_table.find (λ g. g.active) s.groups in
    let roles = p.source_table.find (λ r. true) s.roles in
    let es = map (entity_of user_group) groups ++ map (entity_of role) roles in
    let (d, runs, adds) = count_entities_total p es zero_counts s in
    (
      record { total_entities = length es; counts = d },
      bind-ok (count_entities p es zero_counts)
          (λ c. pure (record { total_entities = length es; counts = c })) s s d runs,
      omega (arith, adds),
      omega (
        arith,
        length-append (map (entity_of user_group) groups) (map (entity_of role) roles),
        length-map (entity_of user_group) groups,
        length-map (entity_of role) roles,
      ),
    )
