-- ===== src/Sync/Scanner.antt =====
-- scheduled-reconciliation-scanner.service.ts
use access_service.Prelude.{
  ℕ, ◌+◌, Bool, true, none, some, List, [], ◌∷◌, is_some, select, not, if◌then◌else◌, gets, pure,
  get_or_else, ◌>>=◌, ◌==◌, catch, length,
}
use access_service.Sync.Job.{SyncSourceType, user_group, role, scheduled, SyncJobResponse}
use access_service.Sync.Store.{Source, Platform, Sync}
use access_service.Sync.Service.{Tx, EnqueueParams, enqueue_sync_job}

-- What the scan reads of a dirty row.
pub record Dirty : Type 0 where
  pub tenant_code : ℕ
  pub id : ℕ
  pub version : ℕ

-- `version <> COALESCE(projection_version, 0)`
abbrev pub is_dirty : Source → Bool
is_dirty g = not (g.version == get_or_else g.projection_version 0)

abbrev pub dirty_of : Source → Dirty
dirty_of g = record { tenant_code = g.tenant_code; id = g.id; version = g.version }

abbrev map_dirty : List Source → List Dirty
map_dirty [] = []
map_dirty (g ∷ gs) = dirty_of g ∷ map_dirty gs

unfoldable pub find_dirty_user_groups : Platform → Sync (List Dirty)
find_dirty_user_groups p = gets (λ s. map_dirty (p.source_table.find is_dirty s.groups))

unfoldable pub find_dirty_roles : Platform → Sync (List Dirty)
find_dirty_roles p = gets (λ s. map_dirty (p.source_table.find is_dirty s.roles))

abbrev pub scan_params : ℕ → SyncSourceType → Dirty → EnqueueParams
scan_params tenant_code source_type d = record {
  tenant_code = tenant_code;
  source_type = source_type;
  source_id = d.id;
  source_version = some d.version;
  trigger_type = some scheduled;
  priority = none;
  created_by = some (some "SYSTEM");
  ignore_validate_source = true;
}

-- `if (response.jobId) jobsEnqueued++`; an error is logged and counts nothing.
abbrev pub credit : SyncJobResponse → ℕ
credit a = if is_some a.job_id then 1 else 0

unfoldable pub enqueue_dirty : Platform → Tx → ℕ → SyncSourceType → Dirty → Sync ℕ
unfolding enqueue_sync_job
enqueue_dirty p tx tenant_code source_type d =
    catch (do a ← enqueue_sync_job p tx (scan_params tenant_code source_type d); pure (credit a))
      (λ e. pure 0)

-- The loop over the dirty rows of one kind.
unfoldable pub enqueue_all : Platform → Tx → ℕ → SyncSourceType → List Dirty → ℕ → Sync ℕ
unfolding enqueue_dirty
enqueue_all p tx tenant_code source_type [] n = pure n
enqueue_all p tx tenant_code source_type (d ∷ ds) n = do
  k ← enqueue_dirty p tx tenant_code source_type d
  enqueue_all p tx tenant_code source_type ds (n + k)

unfoldable pub handle_by_tenant : Platform → Tx → ℕ → List Dirty → List Dirty → Sync ℕ
unfolding enqueue_all
handle_by_tenant p tx tenant_code groups roles = do
  n ← enqueue_all p tx tenant_code user_group groups 0
  enqueue_all p tx tenant_code role roles n

-- `new Set` of the tenants, in order of first appearance.
abbrev pub insert_tenant : List ℕ → ℕ → List ℕ
insert_tenant [] t = t ∷ []
insert_tenant (u ∷ us) t = if u == t then u ∷ us else u ∷ insert_tenant us t

abbrev pub tenants_of : List ℕ → List Dirty → List ℕ
tenants_of seen [] = seen
tenants_of seen (d ∷ ds) = tenants_of (insert_tenant seen d.tenant_code) ds

unfoldable pub sweep_tenants : Platform → Tx → List ℕ → List Dirty → List Dirty → ℕ → Sync ℕ
unfolding handle_by_tenant
sweep_tenants p tx [] groups roles n = pure n
sweep_tenants p tx (t ∷ ts) groups roles n = do
  k ←
      handle_by_tenant p tx t (select (λ g. g.tenant_code == t) groups)
        (select (λ r. r.tenant_code == t) roles)
  sweep_tenants p tx ts groups roles (n + k)

-- What the sweep logs.
pub record SweepReport : Type 0 where
  pub tenants_scanned : ℕ
  pub dirty_groups_found : ℕ
  pub dirty_roles_found : ℕ
  pub jobs_enqueued : ℕ

unfoldable pub handle_cron : Platform → Tx → Sync SweepReport
unfolding find_dirty_user_groups find_dirty_roles sweep_tenants
handle_cron p tx = do
  groups ← find_dirty_user_groups p
  roles ← find_dirty_roles p
  let tenants = tenants_of (tenants_of [] groups) roles
  n ← sweep_tenants p tx tenants groups roles 0
  pure (record {
    tenants_scanned = length tenants;
    dirty_groups_found = length groups;
    dirty_roles_found = length roles;
    jobs_enqueued = n;
  })
