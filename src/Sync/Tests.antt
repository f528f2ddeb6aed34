-- ===== src/Sync/Tests.antt =====
-- A concrete platform, tests by evaluation, and an instance of each theorem of the module.
use access_service.Prelude.{
  ℕ, ◌+◌, ◌≤◌, ◌≡◌, refl, map, Bool, true, false, Option, none, some, List, [], ◌∷◌, arith, ok, err,
  All, length,
}
use access_service.Database.InMemory.{in_memory, by_copy}
use access_service.Sync.Job.{
  user_group, role, manual, urgent, standard, pending, processing, completed, failed,
  AuthorizationSyncJob, SyncJobPriority, SyncJobStatus, SyncJobResponse, from_entity,
  completed_value,
}
use access_service.Sync.Store.{
  Source, Store, in_flight_conflict, Platform, touch_job, touch_source, is_stuck,
  claim_next_pending_job, insert_job,
}
use access_service.Sync.Service.{
  EnqueueParams, enqueue_sync_job, retry_failed_sync, queued_message, existing_message,
}
use access_service.Sync.Queueing.{
  IsAnswered, IsAtomic, IsFinished, enqueue_conflict-IsFinished, enqueue_answers_in_flight,
  enqueue_sync_job-IsAtomic,
}
use access_service.Sync.Claim.{IsClaim, claim_next_pending_job-IsClaim}
use access_service.Sync.Watchdog.{max_retries, timeout_minutes, check_and_reclaim_stuck_jobs}
use access_service.Sync.Recovery.{
  HasDistinctIds, swept, announcements, check_and_reclaim-swept, check_and_reclaim_bounded,
}
use access_service.Sync.Status.{compute_status, get_tenant_summary}
use access_service.Sync.Summary.{IsReport, compute_status-IsReport}
use access_service.Sync.Scanner.{Dirty, handle_by_tenant, handle_cron}
use access_service.Sync.Sweep.{
  IsPass, IsCalm, IsQueued, handle_by_tenant_queues, handle_by_tenant_isolates,
}

abbrev pub a_job : ℕ → SyncJobStatus → SyncJobPriority → ℕ → ℕ → AuthorizationSyncJob
a_job id status priority retry_count created_at = record {
  id = id;
  tenant_code = 7;
  source_type = user_group;
  source_id = id + 100;
  source_version = 3;
  trigger_type = manual;
  priority = priority;
  status = status;
  total_users = none;
  processed_users = 0;
  retry_count = retry_count;
  error_details = none;
  started_at = none;
  completed_at = none;
  created_by = some "ann";
  created_at = created_at;
  updated_at = created_at;
}

-- An identifier above all that are used.
abbrev next_id : List AuthorizationSyncJob → ℕ
next_id [] = 1
next_id (j ∷ jobs) = j.id + next_id jobs

abbrev platform : (List AuthorizationSyncJob → List AuthorizationSyncJob) → Platform
platform others = record {
  job_table = in_memory AuthorizationSyncJob.id touch_job;
  source_table = in_memory Source.id touch_source;
  others = others;
  others_after = λ jobs. jobs;
  fresh_id = next_id;
  insert_fails = λ jobs. false;
  event_fails = λ events. false;
}

abbrev pub quiet : Platform
quiet = platform (λ jobs. jobs)

abbrev rival : AuthorizationSyncJob
rival = record (a_job 50 pending standard 0 900) { source_id = 1; source_version = 4 }

-- Another process inserts the wanted version first.
abbrev raced : Platform
raced = platform (λ jobs. rival ∷ jobs)

abbrev pub group : Source
group = record { id = 1; tenant_code = 7; version = 4; projection_version = some 3; active = true }

abbrev jobs_table : List AuthorizationSyncJob
jobs_table =
    a_job 1 pending standard 0 10
    ∷ a_job 2 pending urgent 0 20
    ∷ a_job 3 processing standard 3 30
    ∷ a_job 4 processing standard 1 40
    ∷ a_job 5 completed standard 0 5
    ∷ []

abbrev pub store : Store
store = record {
  jobs = jobs_table;
  groups = group ∷ [];
  roles = record group { id = 2; version = 3 } ∷ [];
  outbox = [];
  now = 1_000_000;
}

abbrev ask : EnqueueParams
ask = record {
  tenant_code = 7;
  source_type = user_group;
  source_id = 1;
  source_version = none;
  trigger_type = some manual;
  priority = none;
  created_by = some (some "ann");
  ignore_validate_source = false;
}

sync : Unit {0}
unfolding enqueue_sync_job insert_job claim_next_pending_job check_and_reclaim_stuck_jobs
    handle_cron get_tenant_summary retry_failed_sync
sync = tt

-- The fields of an answer that the tests look at.
abbrev brief : SyncJobResponse → Option ℕ × ℕ × Bool
brief a = (a.job_id, a.source_version, a.is_no_op)

-- Queued; the race lost to the rival; nothing to do for a role that is in step.
queued_answer :
    (enqueue_sync_job quiet by_copy ask store).0
    ≡ ok (
        from_entity
          (record (a_job 16 pending standard 0 1_000_000) { source_id = 1; source_version = 4 })
          false
          queued_message)
unfolding sync from_entity
queued_answer = refl

raced_answer :
    (enqueue_sync_job raced by_copy ask store).0 ≡ ok (from_entity rival false existing_message)
unfolding sync from_entity
raced_answer = refl

no_op_answer :
    (enqueue_sync_job quiet by_copy (record ask { source_type = role; source_id = 2 }) store).0
    ≡ ok (completed_value 7 role 2 3 manual)
unfolding sync completed_value
no_op_answer = refl

urgent_first :
    (claim_next_pending_job quiet 7 store).0
    ≡ ok (some (record (a_job 2 processing urgent 0 20) { started_at = some 1_000_000 }))
unfolding sync
urgent_first = refl

reclaimed : (check_and_reclaim_stuck_jobs quiet by_copy store).0 ≡ ok 2
unfolding sync
reclaimed = refl

-- Another process inserts the wanted version first, and ends its job before the second search.
abbrev overtaken : Platform
overtaken = record raced { others_after = λ jobs. jobs_table }

conflict_rethrown : (enqueue_sync_job overtaken by_copy ask store).0 ≡ err in_flight_conflict
unfolding sync
conflict_rethrown = refl

enqueue_conflict-IsFinished_example : IsFinished overtaken by_copy ask store
enqueue_conflict-IsFinished_example =
    enqueue_conflict-IsFinished overtaken by_copy ask store conflict_rethrown

enqueue_answers_in_flight_example : IsAnswered ask (enqueue_sync_job raced by_copy ask store)
enqueue_answers_in_flight_example = enqueue_answers_in_flight raced by_copy ask store

enqueue_sync_job-IsAtomic_example :
    IsAtomic quiet ask store (enqueue_sync_job quiet by_copy ask store)
enqueue_sync_job-IsAtomic_example = enqueue_sync_job-IsAtomic quiet by_copy ask store

claim_next_pending_job-IsClaim_example :
    (res : Option AuthorizationSyncJob × Store) × (claim_next_pending_job quiet 7 store
      ≡ (ok res.0, res.1))
    × IsClaim 7 store res
claim_next_pending_job-IsClaim_example = claim_next_pending_job-IsClaim quiet 7 store

store-HasDistinctIds : HasDistinctIds store.jobs
store-HasDistinctIds a b ca cb e = ground arith

check_and_reclaim-swept_example :
    let jobs = quiet.job_table.find (is_stuck 1_000_000 timeout_minutes) jobs_table in
    check_and_reclaim_stuck_jobs quiet by_copy store ≡ (
      ok (length jobs),
      record store { jobs = map (swept 1_000_000) jobs_table; outbox = announcements jobs [] },
    )
check_and_reclaim-swept_example = check_and_reclaim-swept quiet by_copy store store-HasDistinctIds

check_and_reclaim_bounded_example :
    let s' = (check_and_reclaim_stuck_jobs quiet by_copy store).1 in
    All (λ j. j.retry_count ≤ max_retries) s'.jobs
    × All (λ j. is_stuck 1_000_000 timeout_minutes j ≡ false) s'.jobs
check_and_reclaim_bounded_example =
    check_and_reclaim_bounded quiet by_copy store store-HasDistinctIds (omega arith)

compute_status-IsReport_example :
    IsReport 4 3
      (some (a_job 1 failed standard 3 10))
      (compute_status 4 3 (some (a_job 1 failed standard 3 10)))
compute_status-IsReport_example = compute_status-IsReport 4 3 (some (a_job 1 failed standard 3 10))

quiet-IsCalm : IsCalm quiet
quiet-IsCalm = record {
  others_keep = λ j jobs c. c;
  others_after_keep = λ j jobs c. c;
  events_succeed = λ events. refl;
  inserts_succeed = λ jobs. refl;
}

abbrev dirty : List Dirty
dirty = record { tenant_code = 7; id = 1; version = 4 } ∷ []

handle_by_tenant_queues_example :
    (t : Store) × (handle_by_tenant quiet by_copy 7 dirty [] store ≡ (ok (length dirty + 0), t))
    × All (IsQueued user_group t) dirty
    × All (IsQueued role t) []
handle_by_tenant_queues_example =
    handle_by_tenant_queues quiet by_copy 7 dirty [] store quiet-IsCalm

handle_by_tenant_isolates_example :
    (n : ℕ) × ((t : Store) × ((k : ℕ) × ((u : Store) × ((handle_by_tenant raced by_copy 7 dirty
                dirty store
              ≡ (ok k, u))
            × IsPass raced by_copy 7 user_group dirty 0 store n t
            × IsPass raced by_copy 7 role dirty n t k u))))
handle_by_tenant_isolates_example = handle_by_tenant_isolates raced by_copy 7 dirty dirty store
