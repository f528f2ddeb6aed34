-- ===== src/Sync/Worker.antt =====
-- authorization-reconciliation-worker.service.ts: a cycle claims one job of a tenant under the lock,
-- runs it, and writes how it ended.
use access_service.Prelude.{
  if◌then◌else◌, ℕ, ◌+◌, ◌-◌, zero, suc, String, Bool, true, false, Option, none, some, List, [],
  ◌∷◌, ◌||◌, ltb, leb, get_or_else, length, Result, ok, err, Action, pure, gets, catch, when_else,
  ◌>>=◌, ◌>>◌,
}
use access_service.Database.{Transaction}
use access_service.UserGroups.Rule.{MatchingRuleClause}
use access_service.UserGroups.Query.{Query, build_matching_query}
use access_service.Sync.Job.{SyncSourceType, user_group, role, ErrorDetails, AuthorizationSyncJob}
use access_service.Sync.Outbox.{OutboxEvent, from_sync_completed, from_sync_failed}
use access_service.Sync.Store.{
  Source, Store, SyncError, database_down, Platform, Sync, claim_next_pending_job, update_progress,
  mark_completed, mark_failed,
}
use access_service.Sync.Service.{subject_of, append_event}
use access_service.Sync.Lock.{Locks, generate_authz_worker_lock_key, acquire_lock, release_lock}

-- The store of the jobs, what the other components keep, and the session's locks.
pub record Machine (W : Type 0) : Type 0 where
  pub store : Store
  pub work : W
  pub held : List ℕ

-- An error object; nothing for an empty name or message.
pub record Thrown : Type 0 where
  pub name : Option String
  pub message : Option String

-- The statements of a run on the jobs and the sources.
pub data Statement : Type 0 where
  claiming progressing projecting completing failing : Statement

-- The repositories and services that a run calls. They change their own tables, and which of the
-- statements fails where.
pub record Work (W Num : Type 0) : Type 0 where
  -- `userRepository`
  pub count_active : Action W Thrown ℕ
  pub find_batch_with_employee : ℕ → ℕ → Action W Thrown (List ℕ)
  -- `userGroupRepo.findById`, its `matchingRule`
  pub find_group : ℕ → Action W Thrown (Option (Option (List (MatchingRuleClause Num))))
  pub get_matched_employee_ids : Query Num → Action W Thrown (List ℕ)
  -- the memberships and effective roles of `reconcileGroupPopulation`; whether it finds the group,
  -- so that it goes on to write the projection version
  pub reconcile_group_population : ℕ → List ℕ → Action W Thrown Bool
  pub recompute_effective_roles : ℕ → ℕ → Action W Thrown (Unit {0})
  -- whether a statement fails in a state of the database
  pub fails : Statement → Store → Bool
  -- the error object of a failed statement
  pub thrown_of : SyncError → Thrown

abbrev pub batch_size : ℕ
batch_size = 500

abbrev pub high_impact_user_threshold : ℕ
high_impact_user_threshold = 500

abbrev pub long_running_sync_threshold_ms : ℕ
long_running_sync_threshold_ms = 30_000

-- `updateProjectionVersion` of either repository.
abbrev pub projected : ℕ → Source → Source
projected version s = record s { projection_version = some version }

unfoldable pub update_projection_version : Platform → SyncSourceType → ℕ → ℕ → Sync (Unit {0})
update_projection_version p user_group id version s =
    (ok tt, record s { groups = p.source_table.update s.now id (projected version) s.groups })
update_projection_version p role id version s =
    (ok tt, record s { roles = p.source_table.update s.now id (projected version) s.roles })

abbrev pub elapsed_ms : ℕ → Option ℕ → ℕ
elapsed_ms now none = 0
elapsed_ms now (some started_at) = now - started_at

abbrev pub completed_event : AuthorizationSyncJob → ℕ → ℕ → ℕ → OutboxEvent
completed_event job total processed now =
    let duration : ℕ = elapsed_ms now job.started_at in
    let high = leb high_impact_user_threshold processed in
    let long = leb long_running_sync_threshold_ms duration in
    from_sync_completed job.tenant_code (record {
      subject = subject_of job;
      total_users = some total;
      processed_users = some processed;
      affected_users = some processed;
      duration_ms = some duration;
      is_high_impact = some high;
      is_long_running = some long;
      requires_email_notification = some (high || long);
    })

-- `outboxRepo.create` of an event for this moment.
unfoldable pub append_now : Platform → (ℕ → OutboxEvent) → Sync (Unit {0})
append_now p event = do now ← gets Store.now; append_event p (event now)

abbrev pub details_of : Thrown → ErrorDetails
details_of e = record {
  code = get_or_else e.name "SYNC_EXECUTION_ERROR";
  message = get_or_else e.message "Unknown synchronization failure";
}

abbrev pub failed_event : AuthorizationSyncJob → Thrown → ℕ → OutboxEvent
failed_event job e now =
    let details : ErrorDetails = details_of e in
    from_sync_failed job.tenant_code (record {
      subject = subject_of job;
      priority = none;
      failed_after_retries = none;
      failure_reason = none;
      error_message = some details.message;
      sanitized_error_code = none;
      error_code = some details.code;
      error_details = some details;
      total_users = some (get_or_else job.total_users 0);
      processed_users = some job.processed_users;
      duration_ms = some (elapsed_ms now job.started_at);
      requires_email_notification = none;
    })

abbrev pub Task : Type 0 → Type 0 → Type 0
Task W A = Action (Machine W) Thrown A

abbrev pub thrown_as : {A : Type 0} → (SyncError → Thrown) → Result SyncError A → Result Thrown A
thrown_as f (ok a) = ok a
thrown_as f (err e) = err (f e)

module _ {W Num A : Type 0} where
  abbrev pub on_jobs : Work W Num → Sync A → Task W A
  on_jobs w m s =
      let (r, store) = m s.store in (thrown_as w.thrown_of r, record s { store = store })

module _ {W Num : Type 0} where
  -- A statement that may fail.
  abbrev pub query : Work W Num → Statement → Sync (Unit {0}) → Task W (Unit {0})
  query w st m s =
      if w.fails st s.store then (err (w.thrown_of database_down), s) else on_jobs w m s

module _ {W A : Type 0} where
  abbrev pub on_work : Action W Thrown A → Task W A
  on_work m s = let (r, work) = m s.work in (r, record s { work = work })

module _ {W Num : Type 0} (p : Platform) (w : Work W Num) where
  -- The end of `reconcileGroupPopulation`.
  abbrev pub project_found : AuthorizationSyncJob → Bool → Task W (Unit {0})
  project_found job found =
      when_else found
        (query w projecting
          (update_projection_version p user_group job.source_id job.source_version))
        (pure tt)

  abbrev pub reconcile : AuthorizationSyncJob → List ℕ → Task W (Unit {0})
  reconcile job matched =
      on_work (w.reconcile_group_population job.source_id matched) >>= project_found job

  abbrev pub match_rule :
      AuthorizationSyncJob → Option (Option (List (MatchingRuleClause Num))) → Task W (Unit {0})
  match_rule job (some (some rule)) =
      on_work (w.get_matched_employee_ids (build_matching_query job.tenant_code rule))
      >>= reconcile job
  match_rule job _ = pure tt

  abbrev pub match_group : AuthorizationSyncJob → SyncSourceType → Task W (Unit {0})
  match_group job user_group = on_work (w.find_group job.source_id) >>= match_rule job
  match_group job role = pure tt

  unfoldable pub recompute_users : ℕ → List ℕ → Task W (Unit {0})
  recompute_users tenant [] = pure tt
  recompute_users tenant (user ∷ users) =
      on_work (w.recompute_effective_roles tenant user) >> recompute_users tenant users

  -- The rest of a round, and the rounds after it.
  abbrev pub process_batch : AuthorizationSyncJob → ℕ → (ℕ → Task W ℕ) → ℕ → List ℕ → Task W ℕ
  process_batch job total next processed [] = pure processed
  process_batch job total next processed (user ∷ users) =
      let n = processed + length (user ∷ users) in
      recompute_users job.tenant_code (user ∷ users)
      >> (query w progressing (update_progress p job.id n (some total)) >> next n)

  -- The loop, on fuel.
  unfoldable pub process_batches : AuthorizationSyncJob → ℕ → ℕ → ℕ → Task W ℕ
  unfolding recompute_users
  process_batches job total zero processed = pure processed
  process_batches job total (suc n) processed =
      when_else (ltb processed total)
        (on_work (w.find_batch_with_employee processed batch_size)
          >>= process_batch job total (process_batches job total n) processed)
        (pure processed)

  -- Steps 2 and 3, for the total of step 1: the total, and the users that were processed.
  abbrev pub process_all : AuthorizationSyncJob → ℕ → Task W (ℕ × ℕ)
  process_all job total = process_batches job total total 0 >>= λ processed. pure (total, processed)

  abbrev pub prepare_counted : AuthorizationSyncJob → ℕ → Task W (ℕ × ℕ)
  prepare_counted job total =
      query w progressing (update_progress p job.id 0 (some total))
      >> (match_group job job.source_type >> process_all job total)

  unfoldable pub prepare_job : AuthorizationSyncJob → Task W (ℕ × ℕ)
  unfolding process_batches update_progress
  prepare_job job = on_work w.count_active >>= prepare_counted job

  -- The error of a role's update is swallowed.
  abbrev pub advance_source : AuthorizationSyncJob → SyncSourceType → Task W (Unit {0})
  advance_source job user_group =
      query w projecting (update_projection_version p user_group job.source_id job.source_version)
  advance_source job role =
      catch (query w projecting (update_projection_version p role job.source_id job.source_version))
        (λ e. pure tt)

  abbrev pub complete_job : AuthorizationSyncJob → ℕ → ℕ → Task W (Unit {0})
  complete_job job total processed =
      query w completing (mark_completed p job.id (some processed))
      >> on_jobs w (append_now p (completed_event job total processed))

  -- The body of the transaction.
  unfoldable pub finalize_job : AuthorizationSyncJob → ℕ → ℕ → Task W (Unit {0})
  unfolding update_projection_version mark_completed append_now
  finalize_job job total processed =
      advance_source job job.source_type >> complete_job job total processed

  unfoldable pub fail_job : AuthorizationSyncJob → Thrown → Task W (Unit {0})
  unfolding mark_failed append_now
  fail_job job e =
      query w failing (mark_failed p job.id (details_of e) none)
      >> on_jobs w (append_now p (failed_event job e))

  module _ (tx : Transaction (Machine W) Thrown (Unit {0})) where
    unfoldable pub execute_job : AuthorizationSyncJob → Task W (Unit {0})
    unfolding prepare_job finalize_job
    execute_job job = prepare_job job >>= λ r. tx.run (finalize_job job r.0 r.1)

    unfoldable pub handle_job_failure : AuthorizationSyncJob → Thrown → Task W (Unit {0})
    unfolding fail_job
    handle_job_failure job e = tx.run (fail_job job e)

    abbrev pub run_claimed : Option AuthorizationSyncJob → Task W Bool
    run_claimed none = pure false
    run_claimed (some job) = catch (execute_job job) (handle_job_failure job) >> pure true

    abbrev pub claim : ℕ → Task W (Option AuthorizationSyncJob)
    claim tenant s =
        if w.fails claiming s.store
        then (err (w.thrown_of database_down), s)
        else on_jobs w (claim_next_pending_job p tenant) s

    -- `finally`: the lock is released, and the answer kept.
    abbrev pub released :
        Locks → List ℕ → Result Thrown Bool × Machine W → Result Thrown Bool × Machine W
    released locks key (r, s) = (r, record s { held = (release_lock locks key s.held).1 })

    abbrev pub locked_cycle :
        Locks → List ℕ → ℕ → Bool × List ℕ → Machine W → Result Thrown Bool × Machine W
    locked_cycle locks key tenant (false, held) s = (ok false, record s { held = held })
    locked_cycle locks key tenant (true, held) s =
        released locks key ((claim tenant >>= run_claimed) (record s { held = held }))

    -- The second argument is the code units of the tenant.
    unfoldable pub process_next_job : Locks → List ℕ → ℕ → Task W Bool
    unfolding execute_job handle_job_failure claim_next_pending_job acquire_lock release_lock
        generate_authz_worker_lock_key
    process_next_job locks units tenant s =
        let key = generate_authz_worker_lock_key units in
        locked_cycle locks key tenant (acquire_lock locks key s.held) s
