-- ===== src/Access/Tests.antt =====
-- Runs of the access decisions on tables in memory, and an instance of each theorem.
use access_service.Prelude.{
  ℕ, ◌+◌, ◌≡◌, refl, sym, ap, ◌∙◌, arith, ◌↔◌, inl, inr, String, true, false, Option, none, some,
  List, [], ◌∷◌, not, select, length, str_eq, ◌==◌, if◌then◌else◌, Contains,
}
use access_service.Database.InMemory.{in_memory}
use access_service.UserGroups.Aggregate.{active, inactive}
use access_service.Access.Evaluator.{EffectiveUserRole, ResourceContext, evaluate_access}
use access_service.Access.Decision.{Gives, evaluate_access_iff}
use access_service.Access.Diff.{has_key, AreDistinctKeys}
use access_service.Access.Grants.{
  UserEffectiveRole, UserEffectiveRoleEntry, Table, of_user, row_key, effective_role_key,
  sync_effective_roles_for_user,
}
use access_service.Access.Inserted.{holds_key, AreUnique}
use access_service.Access.Synchronized.{sync_effective_roles-holds_key, sync_effective_roles_twice}
use access_service.Access.Projection.{
  Group, Groups, Projected, entry_of, memory_role, target_entries, recompute_user_effective_roles,
}
use access_service.Access.Targets.{HasRole, IsGranted}
use access_service.Access.Outcome.{
  works, profile_after, access_after_recompute_iff, recompute-holds_key,
}
use access_service.Access.Reconciler.{Memberships, includes_text, reconcile_single_user}
use access_service.Access.Reconciled.{is_member, IsWritten, reconcile_single_user-IsWritten}

abbrev table : Table
table = in_memory (λ r. r.id) (λ now r. r)

abbrev fresh : List UserEffectiveRole → ℕ
fresh rows = length rows + 100

abbrev sales : Group
sales = record { id = "g1"; status = active; scope_type = "COMPANY"; scope_ref_id = some "acme" }

abbrev closed : Group
closed = record { id = "g2"; status = inactive; scope_type = "TENANT_WIDE"; scope_ref_id = none }

abbrev groups : Groups
groups = record {
  find_by_id =
      λ id. if str_eq id "g1" then some sales else if str_eq id "g2" then some closed else none;
  roles_of = λ id. if str_eq id "g1" then "r1" ∷ "r2" ∷ [] else "r3" ∷ [];
  groups_of = λ u. "g2" ∷ "g1" ∷ [];
}

abbrev targets : List UserEffectiveRoleEntry
targets = entry_of sales "r1" ∷ entry_of sales "r2" ∷ []

abbrev permissions : String → Option (List String)
permissions role_id = if str_eq role_id "r1" then some ("read" ∷ []) else none

abbrev at_acme : ResourceContext
at_acme = record {
  employee_id = none;
  manager_id = none;
  company_id = some "acme";
  location_id = none;
  department_id = none;
}

abbrev rows : List UserEffectiveRole
rows =
    record { id = 1; user_id = 7; entry = entry_of sales "r2" }
    ∷ record { id = 2; user_id = 7; entry = entry_of closed "r3" }
    ∷ record { id = 3; user_id = 8; entry = entry_of closed "r3" }
    ∷ []

abbrev start : Projected
start = record { rows = rows; versions = λ u. 4; cache = λ u. none }

targets_found : target_entries groups (groups.groups_of 7) ≡ targets
targets_found = refl

keys_distinct : AreDistinctKeys row_key (table.find (of_user table fresh 7) rows)
unfolding effective_role_key
keys_distinct = (refl, (refl, tt))

other_ids :
    (i j : ℕ) (a b : UserEffectiveRole)
    → (i == j) ≡ false
    → a.id ≡ i
    → b.id ≡ j
    → a.id ≡ b.id
    → a ≡ b
other_ids i j a b n c d e = ground (arith, n, c, d, e)

rows-AreUnique : AreUnique rows
rows-AreUnique a b (inl c) (inl d) e = c ∙ sym d
rows-AreUnique a b (inl c) (inr (inl d)) e =
    other_ids 1 2 a b refl (ap (λ r. r.id) c) (ap (λ r. r.id) d) e
rows-AreUnique a b (inl c) (inr (inr (inl d))) e =
    other_ids 1 3 a b refl (ap (λ r. r.id) c) (ap (λ r. r.id) d) e
rows-AreUnique a b (inl c) (inr (inr (inr d))) e = absurd d
rows-AreUnique a b (inr (inl c)) (inl d) e =
    other_ids 2 1 a b refl (ap (λ r. r.id) c) (ap (λ r. r.id) d) e
rows-AreUnique a b (inr (inl c)) (inr (inl d)) e = c ∙ sym d
rows-AreUnique a b (inr (inl c)) (inr (inr (inl d))) e =
    other_ids 2 3 a b refl (ap (λ r. r.id) c) (ap (λ r. r.id) d) e
rows-AreUnique a b (inr (inl c)) (inr (inr (inr d))) e = absurd d
rows-AreUnique a b (inr (inr (inl c))) (inl d) e =
    other_ids 3 1 a b refl (ap (λ r. r.id) c) (ap (λ r. r.id) d) e
rows-AreUnique a b (inr (inr (inl c))) (inr (inl d)) e =
    other_ids 3 2 a b refl (ap (λ r. r.id) c) (ap (λ r. r.id) d) e
rows-AreUnique a b (inr (inr (inl c))) (inr (inr (inl d))) e = c ∙ sym d
rows-AreUnique a b (inr (inr (inl c))) (inr (inr (inr d))) e = absurd d
rows-AreUnique a b (inr (inr (inr c))) d e = absurd c

evaluate_access_iff_example :
    let roles = memory_role (entry_of sales "r1") ∷ [] in
    (evaluate_access (λ s. s) "read" roles permissions at_acme "e1" ≡ true) ↔ (
      (r : EffectiveUserRole) × (Contains r roles
        × Gives (λ s. s) "read" permissions at_acme "e1" r))
evaluate_access_iff_example =
    evaluate_access_iff (λ s. s) "read" permissions at_acme "e1"
      (memory_role (entry_of sales "r1") ∷ [])

given :
    evaluate_access
      (λ s. s)
      "read"
      (memory_role (entry_of sales "r1") ∷ [])
      permissions
      at_acme
      "e1"
    ≡ true
unfolding evaluate_access
given = refl

sync_effective_roles-holds_key_example :
    ((k : String)
      → holds_key 7 k (sync_effective_roles_for_user table fresh 7 targets rows).1
        ≡ has_key effective_role_key targets k)
    × (select
          (λ r. not (r.user_id == 7))
          (sync_effective_roles_for_user table fresh 7 targets rows).1
        ≡ select (λ r. not (r.user_id == 7)) rows)
sync_effective_roles-holds_key_example =
    sync_effective_roles-holds_key table fresh 7 targets rows rows-AreUnique keys_distinct

sync_effective_roles_twice_example :
    let once = (sync_effective_roles_for_user table fresh 7 targets rows).1 in
    sync_effective_roles_for_user table fresh 7 targets once
    ≡ (record { inserted = 0; deleted = 0 }, once)
sync_effective_roles_twice_example =
    sync_effective_roles_twice table fresh 7 targets rows rows-AreUnique keys_distinct

access_after_recompute_iff_example :
    (evaluate_access
        (λ s. s)
        "read"
        (profile_after table fresh groups 7 start works).roles
        permissions
        at_acme
        "e1"
      ≡ true)
    ↔ ((id : String) × (Contains id (groups.groups_of 7)
          × ((g : Group) × ((role_id : String) × (HasRole groups id g role_id
                  × Gives
                      (λ s. s)
                      "read"
                      permissions
                      at_acme
                      "e1"
                      (memory_role (entry_of g role_id)))))))
access_after_recompute_iff_example =
    access_after_recompute_iff table fresh groups 7 start (λ s. s) "read" permissions at_acme "e1"

recompute-holds_key_example :
    (holds_key 7 "r3:g2:TENANT_WIDE:null"
        (recompute_user_effective_roles table fresh works groups 7 start).1.rows
      ≡ true)
    ↔ IsGranted groups (λ id g. g.id) (groups.groups_of 7) "r3:g2:TENANT_WIDE:null"
recompute-holds_key_example =
    recompute-holds_key table fresh groups 7 start works rows-AreUnique keys_distinct
      "r3:g2:TENANT_WIDE:null"

abbrev joined : Memberships
joined = record {
  memberships =
      record { user_id = 7; group_id = "g3" }
      ∷ record { user_id = 7; group_id = "g1" }
      ∷ record { user_id = 8; group_id = "g3" }
      ∷ [];
  rows = rows;
  outbox = [];
}

reconcile_single_user-IsWritten_example :
    ((g : String)
      → is_member 7 g
          (reconcile_single_user table fresh groups 7 ("g1" ∷ "g2" ∷ []) joined).1.memberships
        ≡ includes_text ("g1" ∷ "g2" ∷ []) g)
    × IsWritten table fresh groups 7
        ("g1" ∷ "g2" ∷ [])
        joined
        (reconcile_single_user table fresh groups 7 ("g1" ∷ "g2" ∷ []) joined).1
reconcile_single_user-IsWritten_example =
    reconcile_single_user-IsWritten table fresh groups 7 ("g1" ∷ "g2" ∷ []) joined rows-AreUnique
      keys_distinct

-- The membership of g3 is deleted and that of g2 inserted.
moved_groups :
    (reconcile_single_user table fresh groups 7 ("g1" ∷ "g2" ∷ []) joined).0.removed_group_ids
    ≡ "g3" ∷ []
unfolding reconcile_single_user
moved_groups = refl
