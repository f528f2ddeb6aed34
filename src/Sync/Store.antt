-- ===== src/Sync/Store.antt =====
-- The tables that the services share, and authorization-sync-job.repository.ts over them. The SQL
-- library's tables are a parameter. Its filter by the request's tenant is left out: a table holds
-- the rows that a request may see.
use access_service.Prelude.{
  ℕ, ◌*◌, ◌-◌, Bool, true, false, Option, none, some, List, ◌∷◌, ◌&&◌, ◌==◌, ltb, leb,
  if◌then◌else◌, ok, err, Action, get_or_else, any, gets, modify,
}
use access_service.Database.{Repository}
use access_service.Sync.Job.{
  SyncSourceType, SyncJobPriority, urgent, standard, pending, processing, completed, failed,
  ErrorDetails, AuthorizationSyncJob, same_source_type, same_status, is_in_flight,
}
use access_service.Sync.Outbox.{OutboxEvent}

-- What the services read of a row of `user_groups` or `roles`.
pub record Source : Type 0 where
  pub id : ℕ
  pub tenant_code : ℕ
  pub version : ℕ
  pub projection_version : Option ℕ
  -- `status === ACTIVE`
  pub active : Bool

pub record Store : Type 0 where
  pub jobs : List AuthorizationSyncJob
  pub groups : List Source
  pub roles : List Source
  pub outbox : List OutboxEvent
  -- `Date.now()`
  pub now : ℕ

pub data SyncError : Type 0 where
  not_found no_failed_sync missing_tenant in_flight_conflict database_down : SyncError

-- The update-timestamp column; sources have none that the services read.
abbrev pub touch_job : ℕ → AuthorizationSyncJob → AuthorizationSyncJob
touch_job now j = record j { updated_at = now }

abbrev pub touch_source : ℕ → Source → Source
touch_source now s = s

-- The database and the processes beside this one.
pub record Platform : Type 0 where
  pub job_table : Repository AuthorizationSyncJob AuthorizationSyncJob.id touch_job
  pub source_table : Repository Source Source.id touch_source
  -- what other processes commit to the jobs while this one waits for its transaction
  pub others : List AuthorizationSyncJob → List AuthorizationSyncJob
  -- and what they commit after that transaction failed
  pub others_after : List AuthorizationSyncJob → List AuthorizationSyncJob
  -- `gen_random_uuid()`
  pub fresh_id : List AuthorizationSyncJob → ℕ
  -- whether an insert fails for another reason than the index
  pub insert_fails : List AuthorizationSyncJob → Bool
  -- whether an insert into the outbox fails
  pub event_fails : List OutboxEvent → Bool

abbrev pub Sync : Type 0 → Type 0
Sync A = Action Store SyncError A

-- The columns of the index `uq_authz_sync_jobs_in_flight`.
abbrev pub same_source : AuthorizationSyncJob → AuthorizationSyncJob → Bool
same_source a b =
    a.tenant_code == b.tenant_code
    && same_source_type a.source_type b.source_type
    && a.source_id == b.source_id
    && a.source_version == b.source_version

-- Whether the index refuses a row.
abbrev pub violates_index : AuthorizationSyncJob → List AuthorizationSyncJob → Bool
violates_index j jobs =
    is_in_flight j.status && any (λ k. is_in_flight k.status && same_source k j) jobs

-- `INSERT` under the index.
unfoldable pub insert_job : Platform → AuthorizationSyncJob → Sync AuthorizationSyncJob
insert_job p j s =
    if violates_index j s.jobs
    then (err in_flight_conflict, s)
    else if p.insert_fails s.jobs
    then (err database_down, s)
    else (ok j, record s { jobs = j ∷ s.jobs })

abbrev pub in_flight_of : SyncSourceType → ℕ → ℕ → AuthorizationSyncJob → Bool
in_flight_of source_type source_id source_version j =
    same_source_type j.source_type source_type
    && j.source_id == source_id
    && j.source_version == source_version
    && is_in_flight j.status

unfoldable pub find_in_flight_job :
    Platform → SyncSourceType → ℕ → ℕ → Sync (Option AuthorizationSyncJob)
find_in_flight_job p source_type source_id source_version =
    gets (λ s. p.job_table.find_one (in_flight_of source_type source_id source_version) s.jobs)

abbrev pub job_of : SyncSourceType → ℕ → AuthorizationSyncJob → Bool
job_of source_type source_id j =
    same_source_type j.source_type source_type && j.source_id == source_id

-- `createdAt: 'DESC'`
abbrev pub newest_first : AuthorizationSyncJob → AuthorizationSyncJob → Bool
newest_first a b = leb b.created_at a.created_at

unfoldable pub find_latest_job_by_source :
    Platform → SyncSourceType → ℕ → Sync (Option AuthorizationSyncJob)
find_latest_job_by_source p source_type source_id =
    gets (λ s. p.job_table.find_first newest_first (job_of source_type source_id) s.jobs)

-- `completedAt: 'DESC', createdAt: 'DESC'`; PostgreSQL puts a null first in this direction.
abbrev pub later_completion : Option ℕ → Option ℕ → Bool
later_completion none b = true
later_completion (some a) none = false
later_completion (some a) (some b) = ltb b a

abbrev pub same_completion : Option ℕ → Option ℕ → Bool
same_completion none none = true
same_completion (some a) (some b) = a == b
same_completion _ _ = false

abbrev pub last_completed_first : AuthorizationSyncJob → AuthorizationSyncJob → Bool
last_completed_first a b =
    if same_completion a.completed_at b.completed_at
    then newest_first a b
    else later_completion a.completed_at b.completed_at

unfoldable pub find_latest_completed_job_by_source :
    Platform → SyncSourceType → ℕ → Sync (Option AuthorizationSyncJob)
find_latest_completed_job_by_source p source_type source_id = gets (λ s.
    p.job_table.find_first last_completed_first
      (λ j. job_of source_type source_id j && same_status j.status completed) s.jobs)

unfoldable pub find_active_job_by_source :
    Platform → SyncSourceType → ℕ → Sync (Option AuthorizationSyncJob)
find_active_job_by_source p source_type source_id = gets (λ s.
    p.job_table.find_first newest_first
      (λ j. job_of source_type source_id j && is_in_flight j.status) s.jobs)

-- `CASE priority WHEN 'URGENT' THEN 1 ELSE 2 END`
abbrev pub priority_rank : SyncJobPriority → ℕ
priority_rank urgent = 1
priority_rank standard = 2

-- `ORDER BY` the rank, then `created_at ASC`
abbrev pub claim_order : AuthorizationSyncJob → AuthorizationSyncJob → Bool
claim_order a b =
    if priority_rank a.priority == priority_rank b.priority
    then leb a.created_at b.created_at
    else ltb (priority_rank a.priority) (priority_rank b.priority)

abbrev pub is_pending_of : ℕ → AuthorizationSyncJob → Bool
is_pending_of tenant_code j = j.tenant_code == tenant_code && same_status j.status pending

-- `this.repository.update({ id }, patch)` and `this.update(id, patch)`
unfoldable pub update_job :
    Platform → ℕ → (AuthorizationSyncJob → AuthorizationSyncJob) → Store → Store
update_job p id patch s = record s { jobs = p.job_table.update s.now id patch s.jobs }

abbrev pub start : ℕ → AuthorizationSyncJob → AuthorizationSyncJob
start now j = record j { status = processing; started_at = some now }

abbrev claim_found :
    Platform → Option AuthorizationSyncJob → Store → Option AuthorizationSyncJob × Store
claim_found p none s = (none, s)
claim_found p (some j) s = (some (start s.now j), update_job p j.id (start s.now) s)

unfoldable pub claim_next_pending_job : Platform → ℕ → Sync (Option AuthorizationSyncJob)
unfolding update_job
claim_next_pending_job p tenant_code s =
    let (r, s') =
      claim_found p (p.job_table.find_first claim_order (is_pending_of tenant_code) s.jobs) s in
    (ok r, s')

-- A field of the patch that stays `undefined` is not written.
abbrev pub progressed : ℕ → Option ℕ → AuthorizationSyncJob → AuthorizationSyncJob
progressed processed none j = record j { processed_users = processed }
progressed processed (some total) j = record j {
  processed_users = processed;
  total_users = some total;
}

unfoldable pub update_progress : Platform → ℕ → ℕ → Option ℕ → Sync (Unit {0})
unfolding update_job
update_progress p id processed total = modify (update_job p id (progressed processed total))

abbrev pub finished : ℕ → Option ℕ → AuthorizationSyncJob → AuthorizationSyncJob
finished now processed j = record j {
  status = completed;
  completed_at = some now;
  processed_users = get_or_else processed j.processed_users;
}

unfoldable pub mark_completed : Platform → ℕ → Option ℕ → Sync (Unit {0})
unfolding update_job
mark_completed p id processed = modify (λ s. update_job p id (finished s.now processed) s)

abbrev pub broken : ℕ → ErrorDetails → Option ℕ → AuthorizationSyncJob → AuthorizationSyncJob
broken now details processed j = record j {
  status = failed;
  completed_at = some now;
  error_details = some details;
  processed_users = get_or_else processed j.processed_users;
}

unfoldable pub mark_failed : Platform → ℕ → ErrorDetails → Option ℕ → Sync (Unit {0})
unfolding update_job
mark_failed p id details processed =
    modify (λ s. update_job p id (broken s.now details processed) s)

-- A job that has been processing with no update for longer than the timeout.
abbrev pub is_stuck : ℕ → ℕ → AuthorizationSyncJob → Bool
is_stuck now timeout_minutes j =
    same_status j.status processing && ltb j.updated_at (now - timeout_minutes * 60 * 1000)

unfoldable pub find_stuck_processing_jobs : Platform → ℕ → Sync (List AuthorizationSyncJob)
find_stuck_processing_jobs p timeout_minutes =
    gets (λ s. p.job_table.find (is_stuck s.now timeout_minutes) s.jobs)

abbrev pub requeued : ℕ → AuthorizationSyncJob → AuthorizationSyncJob
requeued next_retry_count j = record j {
  status = pending;
  retry_count = next_retry_count;
  started_at = none;
}

unfoldable pub reclaim_stuck_job : Platform → ℕ → ℕ → Sync (Unit {0})
unfolding update_job
reclaim_stuck_job p id next_retry_count = modify (update_job p id (requeued next_retry_count))
