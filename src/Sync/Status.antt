-- ===== src/Sync/Status.antt =====
-- sync-status-projection.service.ts
use access_service.Prelude.{
  ℕ, ◌+◌, String, Bool, true, false, Option, none, some, List, [], ◌∷◌, ◌++◌, map, ltb, get_or_else,
  if◌then◌else◌, gets, pure, or_throw, ◌>>=◌, length, ◌==◌, str_eq,
}
use access_service.Sync.Job.{
  SyncSourceType, user_group, role, SyncTriggerType, manual, scheduled, system, SyncJobStatus,
  pending, processing, completed, failed, ErrorDetails, AuthorizationSyncJob,
}
use access_service.Sync.Store.{
  Source, Platform, Sync, not_found, find_latest_job_by_source, find_latest_completed_job_by_source,
}
use access_service.Sync.Service.{SourceVersions, versions_of, sources}

pub data SyncComputedStatus : Type 0 where
  status_pending status_processing status_completed status_failed : SyncComputedStatus

pub data NextExpectedSyncMethod : Type 0 where
  manual_in_flight scheduled_daily no_sync : NextExpectedSyncMethod

pub record ActiveJobDetail : Type 0 where
  pub job_id : ℕ
  pub trigger_type : SyncTriggerType
  pub processed : ℕ
  pub total : ℕ
  pub error : Option ErrorDetails
  pub retryable : Bool

pub record ComputedStatus : Type 0 where
  pub status : SyncComputedStatus
  pub next_expected_sync_method : NextExpectedSyncMethod
  pub active_job : Option ActiveJobDetail

-- `triggerType === MANUAL ? MANUAL_IN_FLIGHT : SCHEDULED_DAILY`
abbrev pub method_of : SyncTriggerType → NextExpectedSyncMethod
method_of manual = manual_in_flight
method_of scheduled = scheduled_daily
method_of system = scheduled_daily

abbrev pub detail : AuthorizationSyncJob → Option ErrorDetails → Bool → ActiveJobDetail
detail job error retryable = record {
  job_id = job.id;
  trigger_type = job.trigger_type;
  processed = job.processed_users;
  total = get_or_else job.total_users 0;
  error = error;
  retryable = retryable;
}

-- `errorObj?.code || 'SYNC_ERROR'`, where an empty text counts as missing.
abbrev pub text_or : String → String → String
text_or s d = if str_eq s "" then d else s

abbrev pub reported_error : Option ErrorDetails → ErrorDetails
reported_error none = record { code = "SYNC_ERROR"; message = "Synchronization failed" }
reported_error (some e) = record {
  code = text_or e.code "SYNC_ERROR";
  message = text_or e.message "Synchronization failed";
}

-- The last two branches of the method, by the versions alone.
abbrev pub by_versions : Bool → ComputedStatus
by_versions true = record {
  status = status_pending;
  next_expected_sync_method = scheduled_daily;
  active_job = none;
}
by_versions false = record {
  status = status_completed;
  next_expected_sync_method = no_sync;
  active_job = none;
}

-- The branch for the status of the latest job; the last argument is `sourceVersion > projectionVersion`.
abbrev pub by_job : SyncJobStatus → AuthorizationSyncJob → Bool → ComputedStatus
by_job processing job dirty = record {
  status = status_processing;
  next_expected_sync_method = method_of job.trigger_type;
  active_job = some (detail job none false);
}
by_job pending job dirty = record {
  status = status_pending;
  next_expected_sync_method = method_of job.trigger_type;
  active_job = some (detail job none false);
}
by_job failed job dirty =
    if dirty
    then record {
      status = status_failed;
      next_expected_sync_method = scheduled_daily;
      active_job = some (detail job (some (reported_error job.error_details)) true);
    }
    else by_versions dirty
by_job completed job dirty = by_versions dirty

unfoldable pub compute_status : ℕ → ℕ → Option AuthorizationSyncJob → ComputedStatus
compute_status source_version projection_version none =
    by_versions (ltb projection_version source_version)
compute_status source_version projection_version (some job) =
    by_job job.status job (ltb projection_version source_version)

pub record SyncStatusResponse : Type 0 where
  pub source_type : SyncSourceType
  pub source_id : ℕ
  pub status : SyncComputedStatus
  pub last_successful_sync_at : Option ℕ
  pub affected_user_count : ℕ
  pub next_expected_sync_method : NextExpectedSyncMethod
  pub active_job : Option ActiveJobDetail

unfoldable pub validate_and_resolve_entity_versions :
    Platform → SyncSourceType → ℕ → Sync SourceVersions
validate_and_resolve_entity_versions p source_type source_id = do
  found ← gets (λ s. p.source_table.find_one (λ g. g.id == source_id) (sources source_type s))
  g ← or_throw found not_found
  pure (versions_of g)

-- `latestCompletedJob?.processedUsers ?? latestJob?.processedUsers ?? 0`
abbrev pub affected : Option AuthorizationSyncJob → Option AuthorizationSyncJob → ℕ
affected (some done) latest = done.processed_users
affected none (some latest) = latest.processed_users
affected none none = 0

-- `latestCompletedJob?.completedAt ?? null`
abbrev pub completion : Option AuthorizationSyncJob → Option ℕ
completion none = none
completion (some done) = done.completed_at

unfoldable pub get_entity_sync_status : Platform → SyncSourceType → ℕ → Sync SyncStatusResponse
unfolding validate_and_resolve_entity_versions find_latest_job_by_source
    find_latest_completed_job_by_source compute_status
get_entity_sync_status p source_type source_id = do
  v ← validate_and_resolve_entity_versions p source_type source_id
  latest ← find_latest_job_by_source p source_type source_id
  done ← find_latest_completed_job_by_source p source_type source_id
  let c = compute_status v.source_version v.projection_version latest
  pure (record {
    source_type = source_type;
    source_id = source_id;
    status = c.status;
    last_successful_sync_at = completion done;
    affected_user_count = affected done latest;
    next_expected_sync_method = c.next_expected_sync_method;
    active_job = c.active_job;
  })

pub record Entity : Type 0 where
  pub source_type : SyncSourceType
  pub source_id : ℕ
  pub version : ℕ
  pub projection_version : ℕ

pub record Counts : Type 0 where
  pub completed : ℕ
  pub pending : ℕ
  pub processing : ℕ
  pub failed : ℕ

abbrev pub tally : SyncComputedStatus → Counts → Counts
tally status_completed c = record c { completed = c.completed + 1 }
tally status_pending c = record c { pending = c.pending + 1 }
tally status_processing c = record c { processing = c.processing + 1 }
tally status_failed c = record c { failed = c.failed + 1 }

abbrev pub entity_of : SyncSourceType → Source → Entity
entity_of source_type g = record {
  source_type = source_type;
  source_id = g.id;
  version = g.version;
  projection_version = get_or_else g.projection_version 0;
}

unfoldable pub count_entities : Platform → List Entity → Counts → Sync Counts
unfolding find_latest_job_by_source compute_status
count_entities p [] c = pure c
count_entities p (e ∷ es) c = do
  latest ← find_latest_job_by_source p e.source_type e.source_id
  count_entities p es (tally (compute_status e.version e.projection_version latest).status c)

pub record TenantSummary : Type 0 where
  pub total_entities : ℕ
  pub counts : Counts

abbrev pub zero_counts : Counts
zero_counts = record { completed = 0; pending = 0; processing = 0; failed = 0 }

-- Reads do not fail here, so the empty lists that stand for a failed read do not come up.
unfoldable pub get_tenant_summary : Platform → Sync TenantSummary
unfolding count_entities
get_tenant_summary p = do
  groups ← gets (λ s. p.source_table.find (λ g. g.active) s.groups)
  roles ← gets (λ s. p.source_table.find (λ r. true) s.roles)
  let entities = map (entity_of user_group) groups ++ map (entity_of role) roles
  c ← count_entities p entities zero_counts
  pure (record { total_entities = length entities; counts = c })
