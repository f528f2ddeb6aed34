-- ===== src/Sync/Quiet.antt =====
-- What a run of the worker changes before its end: progress, and the projection version of its group.
use access_service.Prelude.{
  ℕ, ◌+◌, zero, suc, ◌≡◌, refl, ap, ◌∙◌, inl, inr, Bool, true, false, Option, none, some, List, [],
  ◌∷◌, map, ltb, Result, ok, err, ◌==◌, ◌⊎◌, if◌then◌else◌, Bool-cases, map-map, map-congr, proceed,
  ◌>>=◌, ◌>>◌, pure, when_else, length,
}
use access_service.UserGroups.Rule.{MatchingRuleClause}
use access_service.UserGroups.Query.{build_matching_query}
use access_service.Sync.Job.{SyncSourceType, user_group, role, AuthorizationSyncJob}
use access_service.Sync.Outbox.{OutboxEvent}
use access_service.Sync.Store.{
  Source, Store, Sync, Platform, update_job, progressed, update_progress,
}
use access_service.Sync.Worker.{
  Statement, progressing, projecting, query, update_projection_version, projected, project_found,
  reconcile, Machine, Thrown, Work, Task, on_jobs, on_work, match_rule, match_group,
  recompute_users, process_batch, process_batches, prepare_job, prepare_counted, process_all,
  batch_size,
}

abbrev pub ids : List AuthorizationSyncJob → List ℕ
ids jobs = map AuthorizationSyncJob.id jobs

-- All of a machine but the groups and what a run may change before its end.
abbrev pub frame : {W : Type 0} → Machine W → List ℕ × List Source × List OutboxEvent × List ℕ × ℕ
frame m = (ids m.store.jobs, m.store.roles, m.store.outbox, m.held, m.store.now)

-- The sources of one type, with the projection version of a row set.
abbrev pub advanced : ℕ → ℕ → List Source → List Source
advanced id version rows = map (λ r. if r.id == id then projected version r else r) rows

abbrev pub advanced_groups : SyncSourceType → ℕ → ℕ → List Source → List Source
advanced_groups user_group id version groups = advanced id version groups
advanced_groups role id version groups = groups

abbrev pub advanced_roles : SyncSourceType → ℕ → ℕ → List Source → List Source
advanced_roles user_group id version roles = roles
advanced_roles role id version roles = advanced id version roles

advanced_twice :
    (id version : ℕ) (rows : List Source)
    → advanced id version (advanced id version rows) ≡ advanced id version rows
advanced_twice id version [] = refl
advanced_twice id version (r ∷ rows) = elim (Bool-cases (r.id == id)) [
  | inl hit ↦ rw (hit, hit) (ap (◌∷◌ (projected version r)) (advanced_twice id version rows))
  | inr other ↦ rw (other, other) (ap (◌∷◌ r) (advanced_twice id version rows))
]

pub advanced_groups_twice :
    (t : SyncSourceType) (id version : ℕ) (rows : List Source)
    → advanced_groups t id version (advanced_groups t id version rows)
      ≡ advanced_groups t id version rows
advanced_groups_twice user_group id version rows = advanced_twice id version rows
advanced_groups_twice role id version rows = refl

pub update_projection_version_lem :
    (p : Platform) (t : SyncSourceType) (id version : ℕ) (s : Store)
    → update_projection_version p t id version s ≡ (
      ok tt,
      record s {
        groups = advanced_groups t id version s.groups;
        roles = advanced_roles t id version s.roles;
      },
    )
unfolding update_projection_version
update_projection_version_lem p user_group id version s = rw p.source_table.update_lem refl
update_projection_version_lem p role id version s = rw p.source_table.update_lem refl

-- An update that keeps identifiers.
pub update-ids :
    (p : Platform) (id : ℕ) (patch : AuthorizationSyncJob → AuthorizationSyncJob) (s : Store)
    → ((j : AuthorizationSyncJob) → (patch j).id ≡ j.id)
    → ids (update_job p id patch s).jobs ≡ ids s.jobs
unfolding update_job
update-ids p id patch s same =
    ap ids (p.job_table.update_lem s.now id patch s.jobs)
    ∙ map-map AuthorizationSyncJob.id _ s.jobs
    ∙ map-congr _ AuthorizationSyncJob.id s.jobs λ j c. elim (Bool-cases (j.id == id)) [
      | inl hit ↦ rw hit (same j)
      | inr other ↦ rw other refl
    ]

progressed-id :
    (n : ℕ) (total : Option ℕ) (j : AuthorizationSyncJob) → (progressed n total j).id ≡ j.id
progressed-id n none j = refl
progressed-id n (some total) j = refl

-- The groups as they are, or with the projection version of the job's group set.
abbrev pub IsAt : AuthorizationSyncJob → List Source → List Source → Type 0
IsAt job gs hs =
    (hs ≡ gs) ⊎ (hs ≡ advanced_groups job.source_type job.source_id job.source_version gs)

module _ (job : AuthorizationSyncJob) where
  IsAt-trans : (gs hs ks : List Source) → IsAt job gs hs → IsAt job hs ks → IsAt job gs ks
  IsAt-trans gs hs ks (inl a) (inl b) = inl (b ∙ a)
  IsAt-trans gs hs ks (inr a) (inl b) = inr (b ∙ a)
  IsAt-trans gs hs ks (inl a) (inr b) =
      inr (b ∙ ap (advanced_groups job.source_type job.source_id job.source_version) a)
  IsAt-trans gs hs ks (inr a) (inr b) = inr (
      b
      ∙ ap (advanced_groups job.source_type job.source_id job.source_version) a
      ∙ advanced_groups_twice job.source_type job.source_id job.source_version gs)

module _ {W : Type 0} (job : AuthorizationSyncJob) where
  abbrev pub IsMoved : Machine W → Machine W → Type 0
  IsMoved s t = (frame t ≡ frame s) × IsAt job s.store.groups t.store.groups

  abbrev pub IsQuiet : {A : Type 0} → Task W A → Type 0
  IsQuiet m = (s : Machine W) → IsMoved s (m s).1

  IsMoved-trans : (s t u : Machine W) → IsMoved s t → IsMoved t u → IsMoved s u
  IsMoved-trans s t u (a, x) (b, y) =
      (b ∙ a, IsAt-trans job s.store.groups t.store.groups u.store.groups x y)

  module _ {A B : Type 0} where
    proceed-IsMoved :
        (f : A → Task W B) (r : Result Thrown A × Machine W)
        → ((a : A) → IsQuiet (f a))
        → IsMoved r.1 (proceed f r).1
    proceed-IsMoved f (ok a, s) h = h a s
    proceed-IsMoved f (err e, s) h = (refl, inl refl)

    bind-IsQuiet :
        (m : Task W A) (f : A → Task W B)
        → IsQuiet m
        → ((a : A) → IsQuiet (f a))
        → (s : Machine W) → IsMoved s ((m >>= f) s).1
    bind-IsQuiet m f h k s =
        IsMoved-trans s (m s).1 (proceed f (m s)).1 (h s) (proceed-IsMoved f (m s) k)

  when_else-IsQuiet :
      {A : Type 0} (b : Bool) (m k : Task W A)
      → IsQuiet m
      → IsQuiet k
      → (s : Machine W) → IsMoved s (when_else b m k s).1
  when_else-IsQuiet true m k f g = f
  when_else-IsQuiet false m k f g = g

  query-IsQuiet :
      {Num : Type 0} (w : Work W Num) (st : Statement) (m : Sync (Unit {0}))
      → IsQuiet (on_jobs w m)
      → (s : Machine W) → IsMoved s (query w st m s).1
  query-IsQuiet w st m h s = elim (Bool-cases (w.fails st s.store)) [
    | inl broken ↦ rw broken (refl, inl refl)
    | inr up ↦ rw up (h s)
  ]

module _ {W Num : Type 0} (p : Platform) (w : Work W Num) (job : AuthorizationSyncJob) where
  progress : ℕ → Option ℕ → Task W (Unit {0})
  progress n total = query w progressing (update_progress p job.id n total)

  progress-IsQuiet :
      (n : ℕ) (total : Option ℕ) (s : Machine W) → IsMoved job s (progress n total s).1
  unfolding progress update_progress update_job
  progress-IsQuiet n total s =
      query-IsQuiet job w progressing (update_progress p job.id n total)
        (λ m. (
          ap (λ js. (js, m.store.roles, m.store.outbox, m.held, m.store.now))
              (update-ids p job.id (progressed n total) m.store (progressed-id n total)),
          inl refl,
        ))
        s

  project_found-IsQuiet :
      (found : Bool)
      → job.source_type ≡ user_group
      → (s : Machine W) → IsMoved job s (project_found p w job found s).1
  project_found-IsQuiet found of_group =
      let update = update_projection_version p user_group job.source_id job.source_version in
      when_else-IsQuiet job found (query w projecting update) (pure tt)
        (query-IsQuiet job w projecting update λ m. (
          rw (update_projection_version_lem p user_group job.source_id job.source_version m.store)
              refl,
          inr (
              rw
                (
                  update_projection_version_lem p user_group job.source_id job.source_version
                      m.store,
                  of_group,
                )
                refl),
        ))
        (λ m. (refl, inl refl))

  match_rule-IsQuiet :
      (rule : Option (Option (List (MatchingRuleClause Num))))
      → job.source_type ≡ user_group
      → (s : Machine W) → IsMoved job s (match_rule p w job rule s).1
  match_rule-IsQuiet none g s = (refl, inl refl)
  match_rule-IsQuiet (some none) g s = (refl, inl refl)
  match_rule-IsQuiet (some (some rule)) g s =
      bind-IsQuiet job
        (on_work (w.get_matched_employee_ids (build_matching_query job.tenant_code rule)))
        (reconcile p w job) (λ t. (refl, inl refl))
        (λ ms.
          bind-IsQuiet job (on_work (w.reconcile_group_population job.source_id ms))
            (project_found p w job) (λ t. (refl, inl refl))
            (λ found. project_found-IsQuiet found g))
        s

  match_group-IsQuiet :
      (t : SyncSourceType)
      → job.source_type ≡ t
      → (s : Machine W) → IsMoved job s (match_group p w job t s).1
  match_group-IsQuiet role e s = (refl, inl refl)
  match_group-IsQuiet user_group e s =
      bind-IsQuiet job (on_work (w.find_group job.source_id)) (match_rule p w job)
        (λ t. (refl, inl refl)) (λ rule. match_rule-IsQuiet rule e) s

  recompute_users-IsQuiet :
      (tenant : ℕ) (users : List ℕ) (s : Machine W)
      → IsMoved job s (recompute_users p w tenant users s).1
  unfolding recompute_users
  recompute_users-IsQuiet tenant [] s = (refl, inl refl)
  recompute_users-IsQuiet tenant (user ∷ users) s =
      bind-IsQuiet job (on_work (w.recompute_effective_roles tenant user))
        (λ _. recompute_users p w tenant users) (λ t. (refl, inl refl))
        (λ _. recompute_users-IsQuiet tenant users) s

  process_batch-IsQuiet :
      (total : ℕ) (next : ℕ → Task W ℕ) (k : ℕ) (users : List ℕ) (s : Machine W)
      → ((n : ℕ) → IsQuiet job (next n))
      → IsMoved job s (process_batch p w job total next k users s).1
  unfolding progress
  process_batch-IsQuiet total next k [] s h = (refl, inl refl)
  process_batch-IsQuiet total next k (user ∷ users) s h =
      let n = k + length (user ∷ users) in
      bind-IsQuiet job (recompute_users p w job.tenant_code (user ∷ users))
        (λ _. progress n (some total) >> next n)
        (recompute_users-IsQuiet job.tenant_code (user ∷ users))
        (λ _.
          bind-IsQuiet job (progress n (some total)) (λ _. next n) (progress-IsQuiet n (some total))
            (λ _. h n))
        s

  process_batches-IsQuiet :
      (total n k : ℕ) (s : Machine W) → IsMoved job s (process_batches p w job total n k s).1
  unfolding process_batches
  process_batches-IsQuiet total zero k s = (refl, inl refl)
  process_batches-IsQuiet total (suc n) k s =
      let find : Task W (List ℕ) = on_work (w.find_batch_with_employee k batch_size) in
      let next : List ℕ → Task W ℕ =
        process_batch p w job total (process_batches p w job total n) k in
      when_else-IsQuiet job (ltb k total) (find >>= next) (pure k)
        (bind-IsQuiet job find next (λ t. (refl, inl refl))
          (λ users t.
            process_batch-IsQuiet total (process_batches p w job total n) k users t
              (process_batches-IsQuiet total n)))
        (λ t. (refl, inl refl)) s

  pub prepare_job-IsQuiet : (s : Machine W) → IsMoved job s (prepare_job p w job s).1
  unfolding prepare_job progress
  prepare_job-IsQuiet =
      bind-IsQuiet job (on_work w.count_active) (prepare_counted p w job) (λ t. (refl, inl refl))
        λ total.
          bind-IsQuiet job (progress 0 (some total))
            (λ _. match_group p w job job.source_type >> process_all p w job total)
            (progress-IsQuiet 0 (some total))
            λ _.
              bind-IsQuiet job (match_group p w job job.source_type)
                (λ _. process_all p w job total) (match_group-IsQuiet job.source_type refl)
                λ _.
                  bind-IsQuiet job (process_batches p w job total total 0) (λ n. pure (total, n))
                    (process_batches-IsQuiet total total 0) (λ n t. (refl, inl refl))
