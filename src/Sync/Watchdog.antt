-- ===== src/Sync/Watchdog.antt =====
-- sync-job-watchdog.service.ts
use access_service.Prelude.{
  ℕ, ◌+◌, none, some, List, [], ◌∷◌, leb, get_or_else, pure, when_else, ◌>>=◌, ◌>>◌, modify,
}
use access_service.Database.{Transaction}
use access_service.Sync.Job.{ErrorDetails, AuthorizationSyncJob}
use access_service.Sync.Outbox.{FailedData, OutboxEvent, from_sync_failed}
use access_service.Sync.Store.{
  Store, SyncError, Platform, Sync, mark_failed, find_stuck_processing_jobs, reclaim_stuck_job,
}
use access_service.Sync.Service.{subject_of}

abbrev pub UnitTx : Type 0
UnitTx = Transaction Store SyncError (Unit {0})

abbrev pub max_retries : ℕ
max_retries = 3

abbrev pub timeout_minutes : ℕ
timeout_minutes = 10

-- The message is a template with both constants put in.
abbrev pub timeout_details : ErrorDetails
timeout_details = record {
  code = "WATCHDOG_TIMEOUT";
  message = "Job exceeded watchdog timeout of 10 minutes after 3 recovery attempts";
}

abbrev pub timeout_data : AuthorizationSyncJob → FailedData
timeout_data job = record {
  subject = subject_of job;
  priority = none;
  failed_after_retries = none;
  failure_reason = none;
  error_message = none;
  sanitized_error_code = none;
  error_code = none;
  error_details = some timeout_details;
  total_users = some (get_or_else job.total_users 0);
  processed_users = some job.processed_users;
  duration_ms = none;
  requires_email_notification = none;
}

-- The statements of a sweep do not fail here.
abbrev pub announce : OutboxEvent → Sync (Unit {0})
announce e = modify (λ s. record s { outbox = e ∷ s.outbox })

unfoldable pub fail_stuck_job : Platform → AuthorizationSyncJob → Sync (Unit {0})
unfolding mark_failed
fail_stuck_job p job = do
  mark_failed p job.id timeout_details none
  announce (from_sync_failed job.tenant_code (timeout_data job))

-- One round of the loop.
unfoldable pub recover_job : Platform → UnitTx → AuthorizationSyncJob → Sync (Unit {0})
unfolding reclaim_stuck_job fail_stuck_job
recover_job p tx job =
    when_else (leb (job.retry_count + 1) max_retries)
      (reclaim_stuck_job p job.id (job.retry_count + 1)) (tx.run (fail_stuck_job p job))

unfoldable pub recover_jobs : Platform → UnitTx → List AuthorizationSyncJob → ℕ → Sync ℕ
unfolding recover_job
recover_jobs p tx [] recovered = pure recovered
recover_jobs p tx (job ∷ jobs) recovered =
    recover_job p tx job >> recover_jobs p tx jobs (recovered + 1)

unfoldable pub check_and_reclaim_stuck_jobs : Platform → UnitTx → Sync ℕ
unfolding find_stuck_processing_jobs recover_jobs
check_and_reclaim_stuck_jobs p tx = do
  stuck ← find_stuck_processing_jobs p timeout_minutes
  recover_jobs p tx stuck 0
