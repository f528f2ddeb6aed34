-- ===== src/Sync/WorkerTests.antt =====
-- Cycles of a concrete worker by evaluation, and an instance of the theorems on the worker.
use access_service.Prelude.{
  false, ℕ, zero, suc, ◌+◌, ◌≡◌, refl, Bool, true, Option, none, some, List, [], ◌∷◌, ◌==◌,
  if◌then◌else◌, ok, err, Result, length, map, Action,
}
use access_service.Database.InMemory.{by_copy}
use access_service.Sync.Job.{
  AuthorizationSyncJob, SyncJobStatus, standard, pending, completed, failed, processing,
}
use access_service.Sync.Store.{Source, claim_order, is_pending_of}
use access_service.Sync.Lock.{Locks}
use access_service.Sync.Worker.{Machine, Thrown, Work, process_batches, process_next_job}
use access_service.Sync.Batches.{process_batches_enough}
use access_service.Sync.Tests.{quiet, store, group, a_job}

abbrev nameless : Thrown
nameless = record { name = none; message = some "lost" }

-- The users whose roles were computed again, the last first.
abbrev recompute : ℕ → ℕ → Action (List ℕ) Thrown (Unit {0})
recompute broken user done = if user == broken then (err nameless, done) else (ok tt, user ∷ done)

abbrev batch_at : ℕ → List ℕ
batch_at zero = 11 ∷ 12 ∷ []
batch_at (suc n) = []

-- Two users; the computation fails for one of them, or for none.
abbrev work : ℕ → Work (List ℕ) ℕ
work broken = record {
  count_active = λ done. (ok 2, done);
  find_batch_with_employee = λ skip take done. (ok (batch_at skip), done);
  find_group = λ id done. (ok (some (some [])), done);
  get_matched_employee_ids = λ q done. (ok (11 ∷ []), done);
  reconcile_group_population = λ id matched done. (ok true, done);
  recompute_effective_roles = λ tenant user. recompute broken user;
  fails = λ st s. false;
  thrown_of = λ e. nameless;
}

abbrev free : Locks
free = record { try_lock = λ id. some true; reachable = true }

-- The job that comes first is one of this group.
abbrev machine : Machine (List ℕ)
machine = record {
  store = record store {
    groups = record group { id = 102; projection_version = some 2 } ∷ store.groups;
  };
  work = [];
  held = 5 ∷ [];
}

-- The answer, the first job's and the group's rows, the events, the users and the locks.
abbrev Brief : Type 0
Brief = Result Thrown Bool × List SyncJobStatus × List (Option ℕ) × ℕ × List ℕ × List ℕ

abbrev brief : Result Thrown Bool × Machine (List ℕ) → Brief
brief (r, m) = (
  r,
  map AuthorizationSyncJob.status m.store.jobs,
  map Source.projection_version m.store.groups,
  length m.store.outbox,
  m.work,
  m.held,
)

completed_cycle : brief (process_next_job quiet (work 0) by_copy free (116 ∷ []) 7 machine) ≡ (
  ok true,
  pending ∷ completed ∷ processing ∷ processing ∷ completed ∷ [],
  some 3 ∷ some 3 ∷ [],
  1,
  12 ∷ 11 ∷ [],
  5 ∷ [],
)
unfolding process_next_job
completed_cycle = refl

-- The group's projection version is advanced although the run fails afterwards.
failed_cycle : brief (process_next_job quiet (work 12) by_copy free (116 ∷ []) 7 machine) ≡ (
  ok true,
  pending ∷ failed ∷ processing ∷ processing ∷ completed ∷ [],
  some 3 ∷ some 3 ∷ [],
  1,
  11 ∷ [],
  5 ∷ [],
)
unfolding process_next_job
failed_cycle = refl

abbrev first_job : Option AuthorizationSyncJob
first_job = quiet.job_table.find_first claim_order (is_pending_of 7) store.jobs

process_batches_enough_example :
    let job = a_job 2 processing standard 0 20 in
    process_batches quiet (work 0) job 2 (9 + 2) 0 ≡ process_batches quiet (work 0) job 2 2 0
process_batches_enough_example =
    process_batches_enough quiet (work 0) (a_job 2 processing standard 0 20) 2 9 0
