-- ===== src/Sync/Outbox.antt =====
-- The outbox events of a job (security-event/services/outbox-event.service.ts).
use access_service.Prelude.{
  ℕ, String, Bool, true, false, Option, none, some, ◌||◌, get_or_else, leb,
}
use access_service.Sync.Job.{
  SyncSourceType, SyncTriggerType, SyncJobPriority, urgent, standard, ErrorDetails,
}

-- What every event says of its job.
pub record JobSubject : Type 0 where
  pub job_id : ℕ
  pub source_type : SyncSourceType
  pub source_id : ℕ
  pub source_version : ℕ
  pub trigger_type : SyncTriggerType
  pub initiated_by : Option String

pub data Urgency : Type 0 where
  critical_urgency standard_urgency : Urgency

pub record RequestedPayload : Type 0 where
  pub subject : JobSubject
  pub tenant_code : ℕ
  -- `initiatedBy` after the fallbacks
  pub requested_by : String

-- The flags of `AuthorizationSyncCompletedData` are optional.
pub record CompletedData : Type 0 where
  pub subject : JobSubject
  pub total_users : Option ℕ
  pub processed_users : Option ℕ
  pub affected_users : Option ℕ
  pub duration_ms : Option ℕ
  pub is_high_impact : Option Bool
  pub is_long_running : Option Bool
  pub requires_email_notification : Option Bool

pub record CompletedPayload : Type 0 where
  pub subject : JobSubject
  pub total_users : ℕ
  pub processed_users : ℕ
  pub affected_users : ℕ
  pub duration_ms : ℕ
  pub is_high_impact : Bool
  pub is_long_running : Bool
  pub requires_email_notification : Bool

pub record FailedData : Type 0 where
  pub subject : JobSubject
  -- `none` where the caller gives no priority
  pub priority : Option SyncJobPriority
  pub failed_after_retries : Option Bool
  pub failure_reason : Option String
  pub error_message : Option String
  pub sanitized_error_code : Option String
  pub error_code : Option String
  pub error_details : Option ErrorDetails
  pub total_users : Option ℕ
  pub processed_users : Option ℕ
  pub duration_ms : Option ℕ
  pub requires_email_notification : Option Bool

pub record FailedPayload : Type 0 where
  pub subject : JobSubject
  pub failure_reason : String
  pub sanitized_error_code : String
  pub sanitized_error_details : Option ErrorDetails
  pub failed_after_retries : Bool
  pub priority : SyncJobPriority
  pub urgency : Urgency
  pub total_users : ℕ
  pub processed_users : ℕ
  pub duration_ms : ℕ
  pub requires_email_notification : Bool

pub data OutboxEvent : Type 0 where
  sync_requested : ℕ → RequestedPayload → OutboxEvent
  sync_completed : ℕ → CompletedPayload → OutboxEvent
  sync_failed : ℕ → FailedPayload → OutboxEvent

-- The first argument is the context's tenant, the second its user.
unfoldable pub from_sync_requested : ℕ → Option String → JobSubject → OutboxEvent
from_sync_requested tenant_code user_id subject = sync_requested tenant_code (record {
  subject = subject;
  tenant_code = tenant_code;
  requested_by = get_or_else subject.initiated_by (get_or_else user_id "SYSTEM");
})

unfoldable pub from_sync_completed : ℕ → CompletedData → OutboxEvent
from_sync_completed tenant_code d =
    let processed : ℕ = get_or_else d.processed_users 0 in
    let duration : ℕ = get_or_else d.duration_ms 0 in
    let high = get_or_else d.is_high_impact (leb 500 processed) in
    let long = get_or_else d.is_long_running (leb 30000 duration) in
    sync_completed tenant_code (record {
      subject = d.subject;
      total_users = get_or_else d.total_users 0;
      processed_users = processed;
      affected_users = get_or_else d.affected_users 0;
      duration_ms = duration;
      is_high_impact = high;
      is_long_running = long;
      requires_email_notification = get_or_else d.requires_email_notification (high || long);
    })

-- `data.priority === URGENT || data.failedAfterRetries === true || !data.priority`; no job carries
-- the priority 'CRITICAL' that the code also tests for.
abbrev pub is_critical : Option SyncJobPriority → Option Bool → Bool
is_critical none retried = true
is_critical (some urgent) retried = true
is_critical (some standard) retried = get_or_else retried false

abbrev urgency_of : Bool → Urgency
urgency_of true = critical_urgency
urgency_of false = standard_urgency

unfoldable pub from_sync_failed : ℕ → FailedData → OutboxEvent
from_sync_failed tenant_code d = sync_failed tenant_code (record {
  subject = d.subject;
  failure_reason = get_or_else d.failure_reason (get_or_else d.error_message "Unknown failure");
  sanitized_error_code =
      get_or_else d.sanitized_error_code (get_or_else d.error_code "INTERNAL_ERROR");
  sanitized_error_details = d.error_details;
  failed_after_retries = get_or_else d.failed_after_retries false;
  priority = get_or_else d.priority standard;
  urgency = urgency_of (is_critical d.priority d.failed_after_retries);
  total_users = get_or_else d.total_users 0;
  processed_users = get_or_else d.processed_users 0;
  duration_ms = get_or_else d.duration_ms 0;
  requires_email_notification = get_or_else d.requires_email_notification true;
})
