-- ===== src/Sync/Ended.antt =====
-- How the run of a claimed job ends.
use access_service.Prelude.{
  ℕ, ◌≡◌, refl, sym, ap, ◌∙◌, ◌⊎◌, inl, inr, some, none, ◌∷◌, Result, ok, err, proceed, catch,
  caught, bind-ok, bind-err,
}
use access_service.Database.{Transaction}
use access_service.Sync.Job.{role, AuthorizationSyncJob}
use access_service.Sync.Store.{Platform, finished, broken, mark_completed, mark_failed}
use access_service.Sync.Worker.{
  Machine, Thrown, Work, completing, failing, completed_event, failed_event, details_of,
  advance_source, complete_job, finalize_job, fail_job, prepare_job, execute_job,
  handle_job_failure,
}
use access_service.Sync.Quiet.{
  IsMoved, advanced_groups, advanced_roles, advanced_groups_twice, prepare_job-IsQuiet,
}
use access_service.Sync.Settled.{
  on_row-IsClosed, on_row-ids, closed, closing_cases, advanced_machine, advance_cases, IsSettled,
  IsStranded,
}

module _ {W Num : Type 0} (p : Platform) (w : Work W Num) (job : AuthorizationSyncJob)
    (s : Machine W) where
  abbrev completed_machine : ℕ → ℕ → Machine W → Machine W
  completed_machine total n m =
      closed job (λ now. finished now (some n)) (completed_event job total n) m

  abbrev failed_machine : Thrown → Machine W → Machine W
  failed_machine e m = closed job (λ now. broken now (details_of e) none) (failed_event job e) m

  -- The completion, of a source that was advanced, and of a role that was not.
  advanced-IsSettled :
      (m : Machine W) (total n : ℕ)
      → IsMoved job s m
      → IsSettled job s (completed_machine total n (advanced_machine p w job job.source_type m))
  advanced-IsSettled m total n (fr, at) = (
    (ap (λ x. x.3) fr, on_row-ids job.id _ m.store.jobs (λ r. refl) ∙ ap (λ x. x.0) fr),
    on_row-IsClosed job.id _ m.store.jobs (λ r. refl),
    inl (
      total,
      (
        n,
        (
          ap (λ x. completed_event job total n x.4 ∷ x.2) fr,
          elim at [
            | inl e ↦ ap (advanced_groups job.source_type job.source_id job.source_version) e
            | inr e ↦
                ap (advanced_groups job.source_type job.source_id job.source_version) e
                ∙ advanced_groups_twice job.source_type job.source_id job.source_version
                    s.store.groups
          ],
          inl (ap (λ x. advanced_roles job.source_type job.source_id job.source_version x.1) fr),
        ),
      ),
    ),
  )

  unadvanced-IsSettled :
      (m : Machine W) (total n : ℕ)
      → job.source_type ≡ role
      → IsMoved job s m
      → IsSettled job s (completed_machine total n m)
  unadvanced-IsSettled m total n of_role (fr, at) = (
    (ap (λ x. x.3) fr, on_row-ids job.id _ m.store.jobs (λ r. refl) ∙ ap (λ x. x.0) fr),
    on_row-IsClosed job.id _ m.store.jobs (λ r. refl),
    inl (
      total,
      (
        n,
        (
          ap (λ x. completed_event job total n x.4 ∷ x.2) fr,
          elim at [
            | inl e ↦
                e
                ∙ sym (
                    ap (λ t. advanced_groups t job.source_id job.source_version s.store.groups)
                      of_role)
            | inr e ↦ e
          ],
          inr (of_role, ap (λ x. x.1) fr),
        ),
      ),
    ),
  )

  failed-IsSettled :
      (m : Machine W) (e : Thrown) → IsMoved job s m → IsSettled job s (failed_machine e m)
  failed-IsSettled m e (fr, at) = (
    (ap (λ x. x.3) fr, on_row-ids job.id _ m.store.jobs (λ r. refl) ∙ ap (λ x. x.0) fr),
    on_row-IsClosed job.id _ m.store.jobs (λ r. refl),
    inr (e, (ap (λ x. failed_event job e x.4 ∷ x.2) fr, (at, ap (λ x. x.1) fr))),
  )

  -- The body of the completion's transaction throws, or settles the job.
  abbrev Finalizes : ℕ → ℕ → Machine W → Type 0
  Finalizes total n m =
      ((e : Thrown) × ((finalize_job p w job total n m).0 ≡ err e))
      ⊎ ((t : Machine W) × ((finalize_job p w job total n m ≡ (ok tt, t)) × IsSettled job s t))

  completes :
      (total n : ℕ) (m m' : Machine W)
      → advance_source p w job job.source_type m ≡ (ok tt, m')
      → IsSettled job s (completed_machine total n m')
      → Finalizes total n m
  unfolding finalize_job mark_completed
  completes total n m m' e settled =
      let advance = advance_source p w job job.source_type in
      let next = bind-ok advance (λ _. complete_job p w job total n) m m' tt e in
      elim (closing_cases job (λ now. finished now (some n)) (completed_event job total n) p w
        completing m') [
          | inl (x, (thrown, why)) ↦ inl (x, ap (λ r. r.0) next ∙ thrown)
          | inr ends ↦ inr (completed_machine total n m', (next ∙ ends, settled))
        ]

  finalizes : (total n : ℕ) (m : Machine W) → IsMoved job s m → Finalizes total n m
  unfolding finalize_job
  finalizes total n m moved = elim (advance_cases p w job job.source_type m) [
    | inl (e, thrown) ↦ inl (
      e,
      ap (λ r. r.0)
          (bind-err (advance_source p w job job.source_type) (λ _. complete_job p w job total n) m m
            e thrown),
    )
    | inr (inl done) ↦ completes total n m _ done (advanced-IsSettled m total n moved)
    | inr (inr (of_role, kept)) ↦
        completes total n m m kept (unadvanced-IsSettled m total n of_role moved)
  ]

  abbrev pub Ends : Result Thrown (Unit {0}) × Machine W → Type 0
  Ends r =
      ((t : Machine W) × ((r ≡ (ok tt, t)) × IsSettled job s t))
      ⊎ ((e : Thrown) × ((t : Machine W) × ((r ≡ (err e, t)) × IsStranded job s t p w)))

  module _ (tx : Transaction (Machine W) Thrown (Unit {0})) where
    handled :
        (e : Thrown) (m : Machine W) → IsMoved job s m → Ends (handle_job_failure p w tx job e m)
    unfolding handle_job_failure fail_job mark_failed
    handled e m (fr, at) =
        elim (closing_cases job (λ now. broken now (details_of e) none) (failed_event job e) p w
          failing m) [
            | inl (x, (thrown, why)) ↦ inr (
              x,
              (
                m,
                (
                  tx.rollback (fail_job p w job e) m x thrown,
                  (
                    (ap (λ x. x.3) fr, ap (λ x. x.0) fr),
                    ap (λ x. x.2) fr,
                    (at, ap (λ x. x.1) fr),
                    (m.store, why),
                  ),
                ),
              ),
            )
            | inr ends ↦ inl (
              failed_machine e m,
              (
                tx.commit (fail_job p w job e) m tt (ap (λ r. r.0) ends) ∙ ends,
                failed-IsSettled m e (fr, at),
              ),
            )
          ]

    Ends-same : (q r : Result Thrown (Unit {0}) × Machine W) → q ≡ r → Ends r → Ends q
    Ends-same q r e (inl (t, (a, b))) = inl (t, (e ∙ a, b))
    Ends-same q r e (inr (x, (t, (a, b)))) = inr (x, (t, (e ∙ a, b)))

    Ends-after :
        (r : Result Thrown (ℕ × ℕ) × Machine W)
        → IsMoved job s r.1
        → Ends (
            caught
              (handle_job_failure p w tx job)
              (proceed (λ x. tx.run (finalize_job p w job x.0 x.1)) r))
    Ends-after (err e, m) moved = handled e m moved
    Ends-after (ok (total, n), m) moved = elim (finalizes total n m moved) [
      | inl (e, thrown) ↦
          Ends-same _ _
            (ap (caught (handle_job_failure p w tx job))
              (tx.rollback (finalize_job p w job total n) m e thrown))
            (handled e m moved)
      | inr (t, (done, settled)) ↦ inl (
        t,
        (
          ap (caught (handle_job_failure p w tx job))
              (tx.commit (finalize_job p w job total n) m tt (ap (λ r. r.0) done) ∙ done),
          settled,
        ),
      )
    ]

    pub job-Ends : Ends (catch (execute_job p w tx job) (handle_job_failure p w tx job) s)
    unfolding execute_job
    job-Ends = Ends-after (prepare_job p w job s) (prepare_job-IsQuiet p w job s)
