-- ===== src/Permissions/Graph.antt =====
-- The dependency graph of the catalogue:
-- src/modules/permissions/loaders/permission-graph-builder.ts and interfaces.
use access_service.Prelude.{
  String, Bool, Option, List, [], ◌∷◌, if◌then◌else◌, get_or_else, is_some,
}
use access_service.Prelude.Keyed.{add, set_of, lookup, insert, adjust}

pub record PermissionDefinition : Type 0 where
  pub id : String
  pub module_name : String
  pub resource : String
  pub action : String
  pub requires : Option (List String)
  pub entry : Bool
  pub deprecated : Bool
  pub deprecated_at : Option String
  pub removed_in_version : Option String

pub record DependencyNode : Type 0 where
  pub id : String
  pub definition : PermissionDefinition
  pub prerequisites : List String
  pub dependents : List String

abbrev pub Adjacency : Type 0
Adjacency = List (String × List String)

pub record PermissionDependencyGraph : Type 0 where
  pub nodes : List (String × DependencyNode)
  pub adjacency_list : Adjacency
  pub reverse_adjacency_list : Adjacency

-- `def.requires || []`
abbrev pub required : PermissionDefinition → List String
required d = get_or_else d.requires []

-- `list.get(id) || new Set()`
abbrev pub neighbours : String → Adjacency → List String
neighbours n m = get_or_else (lookup n m) []

-- The two lists while they are built.
pub record Lists : Type 0 where
  pub out : Adjacency
  pub back : Adjacency

unfoldable pub seed : List PermissionDefinition → Lists → Lists
seed [] l = l
seed (d ∷ ds) l = seed ds (record { out = insert d.id [] l.out; back = insert d.id [] l.back })

abbrev pub ensure : String → Adjacency → Adjacency
ensure k m = if is_some (lookup k m) then m else insert k [] m

abbrev pub link : String → String → Lists → Lists
link n req l = record {
  out = adjust n (add req) l.out;
  back = adjust req (add n) (ensure req l.back);
}

unfoldable pub link_each : String → List String → Lists → Lists
link_each n [] l = l
link_each n (req ∷ reqs) l = link_each n reqs (link n req l)

unfoldable pub link_all : List PermissionDefinition → Lists → Lists
link_all [] l = l
link_all (d ∷ ds) l = link_all ds (link_each d.id (set_of (required d)) l)

abbrev pub node_of : Lists → PermissionDefinition → DependencyNode
node_of l d = record {
  id = d.id;
  definition = d;
  prerequisites = neighbours d.id l.out;
  dependents = neighbours d.id l.back;
}

unfoldable pub index :
    Lists
    → List PermissionDefinition
    → List (String × DependencyNode)
    → List (String × DependencyNode)
index l [] nodes = nodes
index l (d ∷ ds) nodes = index l ds (insert d.id (node_of l d) nodes)

unfoldable pub build_lists : List PermissionDefinition → Lists
unfolding seed link_all link_each
build_lists ds = link_all ds (seed ds (record { out = []; back = [] }))

unfoldable pub build_graph : List PermissionDefinition → PermissionDependencyGraph
unfolding build_lists index
build_graph ds = record {
  nodes = index (build_lists ds) ds [];
  adjacency_list = (build_lists ds).out;
  reverse_adjacency_list = (build_lists ds).back;
}
