-- ===== src/Permissions/Tests.antt =====
-- Runs of the catalogue, and an instance of each theorem about it.
use access_service.Prelude.{
  String, ◌≡◌, refl, true, false, Option, none, some, List, [], ◌∷◌, ◌++◌, ◌↔◌, ◌≢◌, All, ok, err,
  str_eq, if◌then◌else◌, any, Contains,
}
use access_service.Prelude.Keyed.{has, lookup}
use access_service.Permissions.Graph.{
  PermissionDefinition, DependencyNode, build_graph, node_of, build_lists,
}
use access_service.Permissions.Naming.{is_well_named}
use access_service.Permissions.Validator.{
  detect_cycles, validate, cyclic_permission_dependency, dangling_permission_prerequisite,
  yaml_error,
}
use access_service.Permissions.Loader.{RawPermission, CatalogPlatform}
use access_service.Permissions.Catalogue.{Catalogue, initialize}
use access_service.Permissions.Dependency.{validate_permission_set, is_empty}
use access_service.Permissions.Reach.{Reach, edge, further, Chain}
use access_service.Permissions.Termination.{detect_cycles-Ends}
use access_service.Permissions.Search.{detect_cycles-Closed}
use access_service.Permissions.Initialized.{initialize-Initialized, Initialized}
use access_service.Permissions.Closure.{
  Assignable, validate_permission_set_iff, validate_permission_set-closed,
}
use access_service.Permissions.Edges.{asks}
use access_service.Permissions.Nodes.{build_graph-converse}

abbrev raw : String → String → String → Option (List String) → RawPermission
raw id resource action requires = record {
  id = id;
  module_name = "core";
  resource = resource;
  action = action;
  requires = requires;
  entry = none;
  deprecated = none;
  deprecated_at = none;
  removed_in_version = none;
}

abbrev definition : String → String → String → Option (List String) → PermissionDefinition
definition id resource action requires = record {
  id = id;
  module_name = "core";
  resource = resource;
  action = action;
  requires = requires;
  entry = false;
  deprecated = false;
  deprecated_at = none;
  removed_in_version = none;
}

abbrev view : PermissionDefinition
view = definition "leave.view" "leave" "view" none

abbrev approve : PermissionDefinition
approve = definition "leave.approve" "leave" "approve" (some ("leave.view" ∷ []))

abbrev run : PermissionDefinition
run = definition "payroll.run" "payroll" "run" (some ("leave.approve" ∷ []))

abbrev three : List PermissionDefinition
three = run ∷ approve ∷ view ∷ []

-- `leave.view` requires `payroll.run` in turn.
abbrev round : List PermissionDefinition
round = run ∷ approve ∷ definition "leave.view" "leave" "view" (some ("payroll.run" ∷ [])) ∷ []

abbrev the_cycle : List String
the_cycle = "payroll.run" ∷ "leave.approve" ∷ "leave.view" ∷ "payroll.run" ∷ []

abbrev rows : List RawPermission
rows =
    raw "leave.view" "leave" "view" none
    ∷ raw "leave.approve" "leave" "approve" (some ("leave.view" ∷ []))
    ∷ []

abbrev platform : CatalogPlatform
platform = record {
  yaml_load = λ s. if str_eq s "rows" then ok (some rows) else err yaml_error;
  candidate_paths = "missing.yaml" ∷ "catalog.yaml" ∷ [];
  read_file = λ path. if str_eq path "catalog.yaml" then some "rows" else none;
}

abbrev empty_catalogue : Catalogue
empty_catalogue = record {
  loader = record { permission_map = []; module_map = []; graph = none };
  definitions = [];
  graph = none;
}

accepts : validate three (build_graph three) ≡ some (ok tt)
unfolding validate build_graph
accepts = refl

finds_cycle :
    detect_cycles (build_graph round) ≡ some (err (cyclic_permission_dependency the_cycle))
unfolding detect_cycles build_graph
finds_cycle = refl

finds_dangling :
    validate (approve ∷ []) (build_graph (approve ∷ []))
    ≡ some (err (dangling_permission_prerequisite "leave.approve" "leave.view" false))
unfolding validate build_graph
finds_dangling = refl

takes_set :
    (validate_permission_set (build_graph three) ("leave.view" ∷ "leave.approve" ∷ [])).is_valid
    ≡ true
unfolding validate_permission_set build_graph
takes_set = refl

initializes : (initialize platform none empty_catalogue).0 ≡ ok tt
unfolding initialize is_well_named build_graph
initializes = refl

abbrev codes : List String
codes = "payroll.run" ∷ "leave.view" ∷ "leave.approve" ∷ []

takes_codes : (validate_permission_set (build_graph three) codes).is_valid ≡ true
unfolding validate_permission_set build_graph
takes_codes = refl

run_needs_view : Reach (build_graph three).adjacency_list "payroll.run" "leave.view"
unfolding build_graph
run_needs_view = further (edge {m = "leave.approve"} refl) refl

abbrev run_node : DependencyNode
run_node = node_of (build_lists three) run

abbrev approve_node : DependencyNode
approve_node = node_of (build_lists three) approve

detect_cycles-Ends_example : detect_cycles (build_graph round) ≢ none
detect_cycles-Ends_example = detect_cycles-Ends (build_graph round)

detect_cycles-Closed_example :
    (c : List String) × ((cyclic_permission_dependency the_cycle ≡ cyclic_permission_dependency c)
      × ((a : String) × ((r : List String) × ((c ≡ a ∷ (r ++ a ∷ []))
              × (Chain (build_graph round).adjacency_list c
                  × Reach (build_graph round).adjacency_list a a)))))
detect_cycles-Closed_example =
    detect_cycles-Closed (build_graph round) (cyclic_permission_dependency the_cycle) finds_cycle

initialize-Initialized_example :
    Initialized empty_catalogue (initialize platform none empty_catalogue)
initialize-Initialized_example = initialize-Initialized platform none empty_catalogue

validate_permission_set_iff_example :
    (((validate_permission_set (build_graph three) codes).is_valid ≡ true)
      ↔ All (Assignable (build_graph three) codes) codes)
    × ((validate_permission_set (build_graph three) codes).is_valid
        ≡ is_empty (validate_permission_set (build_graph three) codes).errors)
validate_permission_set_iff_example = validate_permission_set_iff (build_graph three) codes

validate_permission_set-closed_example : has "leave.view" codes ≡ true
validate_permission_set-closed_example =
    validate_permission_set-closed three codes takes_codes "payroll.run" "leave.view" refl
      run_needs_view

run_found : lookup "payroll.run" (build_graph three).nodes ≡ some run_node
unfolding build_graph
run_found = refl

approve_found : lookup "leave.approve" (build_graph three).nodes ≡ some approve_node
unfolding build_graph
approve_found = refl

build_graph-converse_example :
    (has "leave.approve" run_node.prerequisites ≡ any (asks "payroll.run" "leave.approve") three)
    × (has "payroll.run" approve_node.dependents ≡ any (asks "payroll.run" "leave.approve") three)
    × (run_node.definition.id ≡ "payroll.run")
    × Contains run_node.definition three
build_graph-converse_example =
    build_graph-converse three "payroll.run" "leave.approve" run_node approve_node run_found
      approve_found
