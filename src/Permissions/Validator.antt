-- ===== src/Permissions/Validator.antt =====
-- The checks of the loaded catalogue: references and the search for cycles of
-- src/modules/permissions/services/permission-catalog-validator.service.ts, and its errors.
use access_service.Prelude.{
  ℕ, zero, suc, String, Bool, true, false, not, Option, none, some, List, [], ◌∷◌, ◌++◌, map,
  length, select, if◌then◌else◌, str_eq, Result, ok, err,
}
use access_service.Prelude.Keyed.{has, add, set_of, lookup, keys}
use access_service.Permissions.Graph.{
  PermissionDefinition, DependencyNode, PermissionDependencyGraph, Adjacency, required, neighbours,
}

pub data CatalogError : Type 0 where
  invalid_permission_format : String → CatalogError
  dangling_permission_prerequisite : String → String → Bool → CatalogError
  cyclic_permission_dependency : List String → CatalogError
  invalid_catalog_structure : CatalogError
  catalog_not_found : CatalogError
  yaml_error : CatalogError
  out_of_fuel : CatalogError

abbrev pub is_deprecated : Option DependencyNode → Bool
is_deprecated none = false
is_deprecated (some n) = n.definition.deprecated

abbrev pub Checked : Type 0
Checked = Result CatalogError (Unit {0})

abbrev pub and_then : Checked → Checked → Checked
and_then (ok u) r = r
and_then (err e) r = err e

-- The flag of the error says that the prerequisite is there but deprecated.
abbrev pub check_requirement : List String → PermissionDependencyGraph → String → String → Checked
check_requirement codes g id req =
    if has req codes
    then if is_deprecated (lookup req g.nodes)
      then err (dangling_permission_prerequisite id req true)
      else ok tt
    else err (dangling_permission_prerequisite id req false)

abbrev pub check_requirements :
    List String → PermissionDependencyGraph → String → List String → Checked
check_requirements codes g id [] = ok tt
check_requirements codes g id (req ∷ reqs) =
    and_then (check_requirement codes g id req) (check_requirements codes g id reqs)

abbrev pub check_definitions :
    List String → PermissionDependencyGraph → List PermissionDefinition → Checked
check_definitions codes g [] = ok tt
check_definitions codes g (d ∷ ds) =
    and_then (check_requirements codes g d.id (required d)) (check_definitions codes g ds)

unfoldable pub validate_referential_integrity :
    List PermissionDefinition → PermissionDependencyGraph → Checked
validate_referential_integrity ds g = check_definitions (set_of (map (λ d. d.id) ds)) g ds

-- What the search for cycles keeps.
pub record Walk : Type 0 where
  pub visited : List String
  pub recursion_stack : List String
  pub current_path : List String

-- Where a search stands: it returned, it threw the cycle that it found, or its fuel is spent.
pub data Search : Type 0 where
  walked : Walk → Search
  cycle : List String → Search
  spent : Search

abbrev pub go_on : (Walk → Search) → Search → Search
go_on f (walked w) = f w
go_on f (cycle c) = cycle c
go_on f spent = spent

abbrev pub entered : String → Walk → Walk
entered n w = record {
  visited = add n w.visited;
  recursion_stack = add n w.recursion_stack;
  current_path = w.current_path ++ n ∷ [];
}

-- `list.pop()`
abbrev pub popped : List String → List String
popped [] = []
popped (x ∷ []) = []
popped (x ∷ (y ∷ r)) = x ∷ popped (y ∷ r)

abbrev pub left_node : String → Walk → Walk
left_node n w = record w {
  recursion_stack = select (λ k. not (str_eq n k)) w.recursion_stack;
  current_path = popped w.current_path;
}

-- `path.slice(path.indexOf(k))`; where `k` is not in it, the index -1 gives the last entry.
abbrev pub slice_from : String → List String → List String
slice_from k [] = []
slice_from k (x ∷ []) = x ∷ []
slice_from k (x ∷ (y ∷ r)) = if str_eq k x then x ∷ (y ∷ r) else slice_from k (y ∷ r)

abbrev pub visit : (String → Walk → Search) → String → Walk → Search
visit step m w =
    if has m w.visited
    then if has m w.recursion_stack then cycle (slice_from m w.current_path ++ m ∷ []) else walked w
    else step m w

unfoldable pub visit_each : (String → Walk → Search) → List String → Walk → Search
visit_each step [] w = walked w
visit_each step (m ∷ ms) w = go_on (visit_each step ms) (visit step m w)

unfoldable pub dfs : Adjacency → ℕ → String → Walk → Search
unfolding visit_each
dfs adj zero n w = spent
dfs adj (suc fuel) n w =
    go_on (λ v. walked (left_node n v)) (visit_each (dfs adj fuel) (neighbours n adj) (entered n w))

unfoldable pub search_from : Adjacency → ℕ → List String → Walk → Search
unfolding dfs
search_from adj fuel [] w = walked w
search_from adj fuel (n ∷ ns) w =
    go_on (search_from adj fuel ns) (if has n w.visited then walked w else dfs adj fuel n w)

-- Every code that the search can meet.
abbrev pub targets : Adjacency → List String
targets [] = []
targets ((k, ms) ∷ rest) = ms ++ targets rest

abbrev pub universe : PermissionDependencyGraph → List String
universe g = keys g.nodes ++ targets g.adjacency_list

abbrev pub verdict : Search → Option Checked
verdict (walked w) = some (ok tt)
verdict (cycle c) = some (err (cyclic_permission_dependency c))
verdict spent = none

-- `none` means that the fuel is spent.
unfoldable pub detect_cycles : PermissionDependencyGraph → Option Checked
unfolding search_from
detect_cycles g = verdict (
    search_from g.adjacency_list (length (universe g)) (keys g.nodes)
      (record { visited = []; recursion_stack = []; current_path = [] }))

abbrev pub after_integrity : Checked → Option Checked → Option Checked
after_integrity (ok u) r = r
after_integrity (err e) r = some (err e)

unfoldable pub validate : List PermissionDefinition → PermissionDependencyGraph → Option Checked
unfolding validate_referential_integrity detect_cycles
validate ds g = after_integrity (validate_referential_integrity ds g) (detect_cycles g)
