-- ===== src/Sync/Job.antt =====
-- The synchronization job (entities/authorization-sync-job.entity.ts) and the answer that the
-- endpoints give about one (dto/sync-job-response.dto.ts). Identifiers, tenants included, are only
-- compared, so they are numbers; a moment is a number of milliseconds.
use access_service.Prelude.{
  ℕ, String, Bool, true, false, Option, none, some, ◌≡◌, ◌||◌, arith, refl,
}

pub data SyncSourceType : Type 0 where
  user_group role : SyncSourceType

pub data SyncTriggerType : Type 0 where
  manual scheduled system : SyncTriggerType

pub data SyncJobPriority : Type 0 where
  urgent standard : SyncJobPriority

pub data SyncJobStatus : Type 0 where
  pending processing completed failed : SyncJobStatus

-- The `error_details` column: its `code` and `message`.
pub record ErrorDetails : Type 0 where
  pub code : String
  pub message : String

pub record AuthorizationSyncJob : Type 0 where
  pub id : ℕ
  pub tenant_code : ℕ
  pub source_type : SyncSourceType
  pub source_id : ℕ
  pub source_version : ℕ
  pub trigger_type : SyncTriggerType
  pub priority : SyncJobPriority
  pub status : SyncJobStatus
  pub total_users : Option ℕ
  pub processed_users : ℕ
  pub retry_count : ℕ
  pub error_details : Option ErrorDetails
  pub started_at : Option ℕ
  pub completed_at : Option ℕ
  pub created_by : Option String
  pub created_at : ℕ
  pub updated_at : ℕ

-- `===` on source types and on statuses.
abbrev pub same_source_type : SyncSourceType → SyncSourceType → Bool
same_source_type user_group user_group = true
same_source_type role role = true
same_source_type _ _ = false

abbrev pub same_status : SyncJobStatus → SyncJobStatus → Bool
same_status pending pending = true
same_status processing processing = true
same_status completed completed = true
same_status failed failed = true
same_status _ _ = false

-- `status IN ('PENDING', 'PROCESSING')`
abbrev pub is_in_flight : SyncJobStatus → Bool
is_in_flight s = same_status s pending || same_status s processing

pub same_source_type_sound : (a b : SyncSourceType) → same_source_type a b ≡ true → a ≡ b
same_source_type_sound user_group user_group h = refl
same_source_type_sound role role h = refl
same_source_type_sound user_group role h = cc
same_source_type_sound role user_group h = cc

pub same_source_type_refl : (a : SyncSourceType) → same_source_type a a ≡ true
same_source_type_refl user_group = refl
same_source_type_refl role = refl

pub same_status_sound : (a b : SyncJobStatus) → same_status a b ≡ true → a ≡ b
same_status_sound a b h = ground arith

pub record SyncJobResponse : Type 0 where
  pub job_id : Option ℕ
  pub tenant_code : ℕ
  pub source_type : SyncSourceType
  pub source_id : ℕ
  pub source_version : ℕ
  pub trigger_type : SyncTriggerType
  pub status : SyncJobStatus
  pub processed_users : ℕ
  pub total_users : Option ℕ
  pub is_no_op : Bool
  pub message : String
  pub started_at : Option ℕ
  pub completed_at : Option ℕ
  pub error_details : Option ErrorDetails
  pub created_by : Option String

unfoldable pub from_entity : AuthorizationSyncJob → Bool → String → SyncJobResponse
from_entity job is_no_op message = record {
  job_id = some job.id;
  tenant_code = job.tenant_code;
  source_type = job.source_type;
  source_id = job.source_id;
  source_version = job.source_version;
  trigger_type = job.trigger_type;
  status = job.status;
  processed_users = job.processed_users;
  total_users = job.total_users;
  is_no_op = is_no_op;
  message = message;
  started_at = job.started_at;
  completed_at = job.completed_at;
  error_details = job.error_details;
  created_by = job.created_by;
}

unfoldable pub completed_value : ℕ → SyncSourceType → ℕ → ℕ → SyncTriggerType → SyncJobResponse
completed_value tenant_code source_type source_id source_version trigger_type = record {
  job_id = none;
  tenant_code = tenant_code;
  source_type = source_type;
  source_id = source_id;
  source_version = source_version;
  trigger_type = trigger_type;
  status = completed;
  processed_users = 0;
  total_users = some 0;
  is_no_op = true;
  message = "Configuration is already fully synchronized";
  started_at = none;
  completed_at = none;
  error_details = none;
  created_by = none;
}
