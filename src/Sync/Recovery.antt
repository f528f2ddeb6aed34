-- ===== src/Sync/Recovery.antt =====
-- What a sweep of the watchdog does to the whole table.
use access_service.Prelude.{
  ℕ, ◌+◌, ◌≡◌, refl, sym, ap, ◌∙◌, inl, inr, ◌≤◌, Bool, true, false, none, some, List, ltb, ◌-◌,
  ◌&&◌, [], ◌∷◌, map, arith, Contains, All, ok, ◌==◌, ==_iff, if◌then◌else◌, leb, length,
  Bool-cases, bind-ok, map_self, map-map, map-congr, All-map, All-of_Contains, any, any_of_Contains,
  not_any_of_All,
}
use access_service.Sync.Job.{AuthorizationSyncJob, pending, processing, failed, same_status}
use access_service.Sync.Outbox.{OutboxEvent, from_sync_failed}
use access_service.Sync.Store.{
  Store, Platform, touch_job, update_job, requeued, broken, is_stuck, reclaim_stuck_job,
  mark_failed, find_stuck_processing_jobs,
}
use access_service.Sync.Watchdog.{
  UnitTx, max_retries, timeout_minutes, timeout_details, timeout_data, fail_stuck_job, recover_job,
  recover_jobs, check_and_reclaim_stuck_jobs,
}

-- Whether a stuck job is tried again.
abbrev pub tries_again : AuthorizationSyncJob → Bool
tries_again job = leb (job.retry_count + 1) max_retries

-- What becomes of the row of a stuck job.
abbrev pub resolved : Bool → ℕ → AuthorizationSyncJob → AuthorizationSyncJob → AuthorizationSyncJob
resolved true now job row = touch_job now (requeued (job.retry_count + 1) row)
resolved false now job row = touch_job now (broken now timeout_details none row)

-- The event that it gives rise to, if any.
abbrev pub announced : Bool → AuthorizationSyncJob → List OutboxEvent → List OutboxEvent
announced true job events = events
announced false job events = from_sync_failed job.tenant_code (timeout_data job) ∷ events

abbrev in_row : Bool → ℕ → AuthorizationSyncJob → AuthorizationSyncJob → AuthorizationSyncJob
in_row b now job row = if row.id == job.id then resolved b now job row else row

abbrev after_by : Bool → AuthorizationSyncJob → Store → Store
after_by b job s = record s {
  jobs = map (in_row b s.now job) s.jobs;
  outbox = announced b job s.outbox;
}

abbrev after_job : AuthorizationSyncJob → Store → Store
after_job job s = after_by (tries_again job) job s

module _ (p : Platform) (tx : UnitTx) where
  fail_stuck_job_lem :
      (job : AuthorizationSyncJob) (s : Store)
      → fail_stuck_job p job s ≡ (ok tt, after_by false job s)
  unfolding fail_stuck_job mark_failed update_job
  fail_stuck_job_lem job s = rw p.job_table.update_lem

  recover_job_by :
      (b : Bool) (job : AuthorizationSyncJob) (s : Store)
      → tries_again job ≡ b
      → recover_job p tx job s ≡ (ok tt, after_by b job s)
  unfolding recover_job reclaim_stuck_job update_job
  recover_job_by true job s e = rw (e, p.job_table.update_lem)
  recover_job_by false job s e = rw e (
      tx.commit (fail_stuck_job p job) s tt (ap (λ r. r.0) (fail_stuck_job_lem job s))
      ∙ fail_stuck_job_lem job s)

  recover_job_lem :
      (job : AuthorizationSyncJob) (s : Store) → recover_job p tx job s ≡ (ok tt, after_job job s)
  recover_job_lem job s = recover_job_by (tries_again job) job s refl

  -- The state after a whole list.
  abbrev after_jobs : List AuthorizationSyncJob → Store → Store
  after_jobs [] s = s
  after_jobs (job ∷ jobs) s = after_jobs jobs (after_job job s)

  recover_jobs_lem :
      (jobs : List AuthorizationSyncJob) (n m : ℕ) (s : Store)
      → n + length jobs ≡ m
      → recover_jobs p tx jobs n s ≡ (ok m, after_jobs jobs s)
  unfolding recover_jobs
  recover_jobs_lem [] n m s e = let same : n ≡ m = omega arith in rw same
  recover_jobs_lem (job ∷ jobs) n m s e =
      bind-ok (recover_job p tx job) (λ _. recover_jobs p tx jobs (n + 1)) s _ tt
        (recover_job_lem job s)
      ∙ recover_jobs_lem jobs (n + 1) m (after_job job s) (omega arith)

-- What a row goes through in the sweep.
abbrev through : List AuthorizationSyncJob → ℕ → AuthorizationSyncJob → AuthorizationSyncJob
through [] now row = row
through (job ∷ jobs) now row = through jobs now (in_row (tries_again job) now job row)

abbrev pub announcements : List AuthorizationSyncJob → List OutboxEvent → List OutboxEvent
announcements [] events = events
announcements (job ∷ jobs) events = announcements jobs (announced (tries_again job) job events)

after_jobs-eq :
    (p : Platform) (tx : UnitTx) (jobs : List AuthorizationSyncJob) (s : Store)
    → after_jobs p tx jobs s
      ≡ record s { jobs = map (through jobs s.now) s.jobs; outbox = announcements jobs s.outbox }
after_jobs-eq p tx [] s = λ i. record s { jobs = sym (map_self s.jobs) i }
after_jobs-eq p tx (job ∷ jobs) s = after_jobs-eq p tx jobs (after_job job s) ∙ λ i. record s {
  jobs = map-map (through jobs s.now) (in_row (tries_again job) s.now job) s.jobs i;
  outbox = announcements (job ∷ jobs) s.outbox;
}

resolved-id :
    (b : Bool) (now : ℕ) (job row : AuthorizationSyncJob) → (resolved b now job row).id ≡ row.id
resolved-id true now job row = refl
resolved-id false now job row = refl

resolved_twice :
    (b : Bool) (now : ℕ) (job row : AuthorizationSyncJob)
    → resolved b now job (resolved b now job row) ≡ resolved b now job row
resolved_twice true now job row = refl
resolved_twice false now job row = refl

-- The row of a job of the sweep, resolved.
abbrev pub settled : ℕ → AuthorizationSyncJob → AuthorizationSyncJob
settled now job = resolved (tries_again job) now job job

abbrev IsOnly : AuthorizationSyncJob → List AuthorizationSyncJob → Type 0
IsOnly row jobs = All (λ k. k.id ≡ row.id → k ≡ row) jobs

module _ (now : ℕ) (row : AuthorizationSyncJob) where
  through-settled :
      (jobs : List AuthorizationSyncJob)
      → IsOnly row jobs
      → through jobs now (settled now row) ≡ settled now row
  through-settled [] h = refl
  through-settled (k ∷ jobs) h = elim (Bool-cases ((settled now row).id == k.id)) [
    | inl same ↦
        let e : k ≡ row = h.0 (sym ((==_iff _ _).0 same) ∙ resolved-id _ now row row) in
        ap (through jobs now) (rw (same, e) (resolved_twice (tries_again row) now row row))
        ∙ through-settled jobs h.1
    | inr other ↦ rw other (through-settled jobs h.1)
  ]

  through_row :
      (jobs : List AuthorizationSyncJob)
      → IsOnly row jobs
      → through jobs now row ≡ (if any (λ k. row.id == k.id) jobs then settled now row else row)
  through_row [] h = refl
  through_row (k ∷ jobs) h = elim (Bool-cases (row.id == k.id)) [
    | inl same ↦
        let e : k ≡ row = h.0 (sym ((==_iff _ _).0 same)) in
        rw same (
          ap (λ j. through jobs now (resolved (tries_again j) now j row)) e
          ∙ through-settled jobs h.1)
    | inr other ↦ rw other (through_row jobs h.1)
  ]

-- No two rows have one identifier.
abbrev pub HasDistinctIds : List AuthorizationSyncJob → Type 0
HasDistinctIds jobs =
    (a b : AuthorizationSyncJob) → Contains a jobs → Contains b jobs → a.id ≡ b.id → a ≡ b

-- One pass over the table.
abbrev swept_by : ℕ → AuthorizationSyncJob → AuthorizationSyncJob
swept_by now row = if is_stuck now timeout_minutes row then settled now row else row

-- What a job comes to that has been processing with no update for over ten minutes: pending with one
-- more retry up to three, then failed with the details of the timeout.
abbrev pub swept : ℕ → AuthorizationSyncJob → AuthorizationSyncJob
swept now row =
    if same_status row.status processing && ltb row.updated_at (now - 600_000)
    then (if leb (row.retry_count + 1) 3
        then record row {
          status = pending;
          retry_count = row.retry_count + 1;
          started_at = none;
          updated_at = now;
        }
        else record row {
          status = failed;
          completed_at = some now;
          error_details = some (record {
            code = "WATCHDOG_TIMEOUT";
            message = "Job exceeded watchdog timeout of 10 minutes after 3 recovery attempts";
          });
          updated_at = now;
        })
    else row

resolved-concrete :
    (b : Bool) (now : ℕ) (row : AuthorizationSyncJob)
    → resolved b now row row ≡ (
        if b
        then record row {
          status = pending;
          retry_count = row.retry_count + 1;
          started_at = none;
          updated_at = now;
        }
        else record row {
          status = failed;
          completed_at = some now;
          error_details = some timeout_details;
          updated_at = now;
        })
resolved-concrete true now row = refl
resolved-concrete false now row = refl

swept_by-swept : (now : ℕ) (row : AuthorizationSyncJob) → swept_by now row ≡ swept now row
swept_by-swept now row =
    ap (λ x. if is_stuck now timeout_minutes row then x else row)
      (resolved-concrete (tries_again row) now row)

module _ (p : Platform) (s : Store) (distinct : HasDistinctIds s.jobs) where
  abbrev stuck : List AuthorizationSyncJob
  stuck = p.job_table.find (is_stuck s.now timeout_minutes) s.jobs

  stuck-IsOnly : (row : AuthorizationSyncJob) → Contains row s.jobs → IsOnly row stuck
  stuck-IsOnly row c =
      All-of_Contains (λ k. k.id ≡ row.id → k ≡ row) stuck
        (λ k found e. distinct k row (p.job_table.find_sound _ s.jobs k found).0 c e)

  -- A row is met in the sweep exactly when it is stuck.
  any-stuck :
      (row : AuthorizationSyncJob)
      → Contains row s.jobs
      → any (λ k. row.id == k.id) stuck ≡ is_stuck s.now timeout_minutes row
  any-stuck row c = elim (Bool-cases (is_stuck s.now timeout_minutes row)) [
    | inl late ↦
        any_of_Contains (λ k. row.id == k.id) row stuck
          (p.job_table.find_complete _ s.jobs row c late) ((==_iff _ _).1 refl)
        ∙ sym late
    | inr fine ↦
        not_any_of_All (λ k. row.id == k.id) stuck
          (All-of_Contains _ stuck λ k found. elim (Bool-cases (row.id == k.id)) [
            | inl same ↦
                let (held, late) = p.job_table.find_sound _ s.jobs k found in
                let e : row ≡ k = distinct row k c held ((==_iff _ _).0 same) in
                cc (late, fine, ap (is_stuck s.now timeout_minutes) e)
            | inr other ↦ other
          ])
        ∙ sym fine
  ]

  swept_rows : map (through stuck s.now) s.jobs ≡ map (swept s.now) s.jobs
  swept_rows = map-congr _ _ s.jobs λ row c.
      through_row s.now row stuck (stuck-IsOnly row c)
      ∙ ap (λ b. if b then settled s.now row else row) (any-stuck row c)
      ∙ swept_by-swept s.now row

-- In a table with distinct identifiers, whatever the order in which the stuck jobs are found, a sweep
-- of the watchdog is one pass: it counts the stuck jobs, sets each to pending with one more retry
-- and no start or, after the third, to failed now with the details of the timeout, announces the
-- failures, and leaves every other row alone.
pub check_and_reclaim-swept :
    (p : Platform) (tx : UnitTx) (s : Store)
    → HasDistinctIds s.jobs
    → let jobs = p.job_table.find (is_stuck s.now timeout_minutes) s.jobs in
      check_and_reclaim_stuck_jobs p tx s ≡ (
        ok (length jobs),
        record s { jobs = map (swept s.now) s.jobs; outbox = announcements jobs s.outbox },
      )
unfolding check_and_reclaim_stuck_jobs find_stuck_processing_jobs
check_and_reclaim-swept p tx s distinct =
    recover_jobs_lem p tx (stuck p s distinct) 0 _ s (omega arith)
    ∙ ap (λ t. (ok (length (stuck p s distinct)), t)) (after_jobs-eq p tx (stuck p s distinct) s)
    ∙ λ i. (
      ok (length (stuck p s distinct)),
      record s {
        jobs = swept_rows p s distinct i;
        outbox = announcements (stuck p s distinct) s.outbox;
      },
    )

-- A sweep keeps every retry count at three or less, and leaves no job stuck.
pub check_and_reclaim_bounded :
    (p : Platform) (tx : UnitTx) (s : Store)
    → HasDistinctIds s.jobs
    → All (λ j. j.retry_count ≤ max_retries) s.jobs
    → let s' = (check_and_reclaim_stuck_jobs p tx s).1 in
      All (λ j. j.retry_count ≤ max_retries) s'.jobs
      × All (λ j. is_stuck s.now timeout_minutes j ≡ false) s'.jobs
check_and_reclaim_bounded p tx s distinct h = rw (check_and_reclaim-swept p tx s distinct) (
  All-map _ _ (swept s.now) s.jobs (λ j k. ground arith) h,
  All-map _ _ (swept s.now) s.jobs (λ j k. ground arith) h,
)
