-- ===== src/Sync/Service.antt =====
-- authorization-sync.service.ts
use access_service.Prelude.{
  ℕ, String, Bool, true, false, Option, none, some, ◌==◌, leb, get_or_else, gets, pure, throw,
  catch, or_throw, throw_if, modify, when_else, ◌>>=◌, ◌>>◌, ◌∷◌, List, ok, err, if◌then◌else◌,
}
use access_service.Database.{Transaction}
use access_service.Sync.Job.{
  SyncSourceType, user_group, role, SyncTriggerType, manual, scheduled, SyncJobPriority, standard,
  pending, AuthorizationSyncJob, SyncJobResponse, from_entity, completed_value,
}
use access_service.Sync.Outbox.{JobSubject, OutboxEvent, from_sync_requested}
use access_service.Sync.Store.{
  Source, Store, SyncError, not_found, no_failed_sync, missing_tenant, in_flight_conflict,
  database_down, Platform, Sync, insert_job, find_in_flight_job,
}

abbrev pub Tx : Type 0
Tx = Transaction Store SyncError SyncJobResponse

-- `createdBy`: `none` is undefined, and `some none` is null.
pub record EnqueueParams : Type 0 where
  pub tenant_code : ℕ
  pub source_type : SyncSourceType
  pub source_id : ℕ
  pub source_version : Option ℕ
  pub trigger_type : Option SyncTriggerType
  pub priority : Option SyncJobPriority
  pub created_by : Option (Option String)
  pub ignore_validate_source : Bool

pub record SourceVersions : Type 0 where
  pub source_version : ℕ
  pub projection_version : ℕ

abbrev pub versions_of : Source → SourceVersions
versions_of g = record {
  source_version = g.version;
  projection_version = get_or_else g.projection_version 0;
}

abbrev pub sources : SyncSourceType → Store → List Source
sources user_group s = s.groups
sources role s = s.roles

-- The enumeration has no third source type, so the last `throw` of the method is never reached.
unfoldable pub validate_and_resolve_source_versions :
    Platform → SyncSourceType → ℕ → Sync SourceVersions
validate_and_resolve_source_versions p source_type source_id = do
  found ← gets (λ s. p.source_table.find_one (λ g. g.id == source_id) (sources source_type s))
  g ← or_throw found not_found
  pure (versions_of g)

abbrev pub queued_message : String
queued_message = "Authorization synchronization job queued successfully"

abbrev pub existing_message : String
existing_message = "Existing synchronization job already in progress"

-- The columns that `create` is not given take the table's defaults.
abbrev pub new_job :
    ℕ
    → ℕ
    → ℕ
    → Option String
    → SyncSourceType
    → ℕ
    → ℕ
    → SyncTriggerType
    → SyncJobPriority
    → AuthorizationSyncJob
new_job id now tenant_code user_id source_type source_id source_version trigger_type priority =
    record {
      id = id;
      tenant_code = tenant_code;
      source_type = source_type;
      source_id = source_id;
      source_version = source_version;
      trigger_type = trigger_type;
      priority = priority;
      status = pending;
      total_users = none;
      processed_users = 0;
      retry_count = 0;
      error_details = none;
      started_at = none;
      completed_at = none;
      created_by = user_id;
      created_at = now;
      updated_at = now;
    }

abbrev pub subject_of : AuthorizationSyncJob → JobSubject
subject_of job = record {
  job_id = job.id;
  source_type = job.source_type;
  source_id = job.source_id;
  source_version = job.source_version;
  trigger_type = job.trigger_type;
  initiated_by = job.created_by;
}

-- `outboxRepo.create`
abbrev pub append_event : Platform → OutboxEvent → Sync (Unit {0})
append_event p e s =
    if p.event_fails s.outbox
    then (err database_down, s)
    else (ok tt, record s { outbox = e ∷ s.outbox })

-- The body of the transaction.
unfoldable pub create_sync_job :
    Platform
    → ℕ
    → Option String
    → SyncSourceType
    → ℕ
    → ℕ
    → SyncTriggerType
    → SyncJobPriority
    → Sync SyncJobResponse
unfolding from_sync_requested from_entity
create_sync_job p tenant_code user_id source_type source_id source_version trigger_type priority =
    do
      draft ← gets (λ s.
          new_job (p.fresh_id s.jobs) s.now tenant_code user_id source_type source_id source_version
            trigger_type priority)
      job ← insert_job p draft
      append_event p (from_sync_requested tenant_code user_id (subject_of job))
      pure (from_entity job false queued_message)

unfoldable pub create_sync_job_transactional :
    Platform
    → Tx
    → ℕ
    → Option String
    → SyncSourceType
    → ℕ
    → ℕ
    → SyncTriggerType
    → SyncJobPriority
    → Sync SyncJobResponse
unfolding create_sync_job
create_sync_job_transactional p tx tenant_code user_id source_type source_id version trigger
      priority =
    tx.run (create_sync_job p tenant_code user_id source_type source_id version trigger priority)

-- `err.code === '23505'`, or a message that names the index
abbrev pub is_conflict : SyncError → Bool
is_conflict in_flight_conflict = true
is_conflict _ = false

abbrev pub existing_or : Option AuthorizationSyncJob → Sync SyncJobResponse → Sync SyncJobResponse
existing_or none k = k
existing_or (some job) k = pure (from_entity job false existing_message)

-- Other processes run before the second search, too: the job that won may have ended by then.
unfoldable pub handle_in_flight_conflict :
    Platform → SyncSourceType → ℕ → ℕ → SyncError → Sync SyncJobResponse
unfolding find_in_flight_job from_entity
handle_in_flight_conflict p source_type source_id source_version e =
    when_else (is_conflict e)
      (do
        modify (λ s. record s { jobs = p.others_after s.jobs })
        existing ← find_in_flight_job p source_type source_id source_version
        existing_or existing (throw e))
      (throw e)

-- What `enqueueSyncJob` does once it knows the version. Between the look for a job in flight and the
-- transaction other processes run.
unfoldable pub queue_version : Platform → Tx → EnqueueParams → ℕ → Sync SyncJobResponse
unfolding find_in_flight_job create_sync_job_transactional handle_in_flight_conflict from_entity
queue_version p tx r version = do
  in_flight ← find_in_flight_job p r.source_type r.source_id version
  existing_or in_flight (do
    modify (λ s. record s { jobs = p.others s.jobs })
    catch
        (create_sync_job_transactional p tx r.tenant_code (get_or_else r.created_by (some "SYSTEM"))
          r.source_type r.source_id version (get_or_else r.trigger_type scheduled)
          (get_or_else r.priority standard))
        (handle_in_flight_conflict p r.source_type r.source_id version))

unfoldable pub enqueue_sync_job : Platform → Tx → EnqueueParams → Sync SyncJobResponse
unfolding validate_and_resolve_source_versions queue_version completed_value
enqueue_sync_job p tx r =
    when_else r.ignore_validate_source (queue_version p tx r (get_or_else r.source_version 1)) (do
      v ← validate_and_resolve_source_versions p r.source_type r.source_id
      when_else (leb v.source_version v.projection_version)
          (pure (
            completed_value r.tenant_code r.source_type r.source_id v.source_version
              (get_or_else r.trigger_type scheduled)))
          (queue_version p tx r v.source_version))

-- The request context's tenant and user come as arguments.
unfoldable pub request_sync_now :
    Platform → Tx → ℕ → Option String → SyncSourceType → ℕ → SyncTriggerType → Sync SyncJobResponse
unfolding enqueue_sync_job
request_sync_now p tx tenant_code user_id source_type source_id trigger_type =
    enqueue_sync_job p tx (record {
      tenant_code = tenant_code;
      source_type = source_type;
      source_id = source_id;
      source_version = none;
      trigger_type = some trigger_type;
      priority = none;
      created_by = some user_id;
      ignore_validate_source = false;
    })

unfoldable pub get_job_status : Platform → ℕ → Sync SyncJobResponse
unfolding from_entity
get_job_status p job_id = do
  found ← gets (λ s. p.job_table.find_one (λ j. j.id == job_id) s.jobs)
  job ← or_throw found not_found
  pure (from_entity job false "Job status retrieved successfully")

unfoldable pub retry_failed_sync :
    Platform → Tx → Option ℕ → Option String → SyncSourceType → ℕ → Sync SyncJobResponse
unfolding validate_and_resolve_source_versions find_in_flight_job enqueue_sync_job from_entity
retry_failed_sync p tx context_tenant user_id source_type source_id = do
  tenant_code ← or_throw context_tenant missing_tenant
  v ← validate_and_resolve_source_versions p source_type source_id
  throw_if (leb v.source_version v.projection_version) no_failed_sync
  in_flight ← find_in_flight_job p source_type source_id v.source_version
  existing_or in_flight (
      enqueue_sync_job p tx (record {
        tenant_code = tenant_code;
        source_type = source_type;
        source_id = source_id;
        source_version = some v.source_version;
        trigger_type = some manual;
        priority = none;
        created_by = some (some (get_or_else user_id "SYSTEM"));
        ignore_validate_source = true;
      }))
