-- ===== src/Permissions/Loader.antt =====
-- src/modules/permissions/loaders/permission-catalog.loader.ts. The YAML parser and the file system
-- are parameters; what a failed load has written stays written.
use access_service.Prelude.{
  String, Bool, false, not, Option, none, some, List, [], ◌∷◌, ◌++◌, if◌then◌else◌, str_eq,
  get_or_else, is_some, Result, Action, pure, modify, or_throw, throw_if, ◌>>=◌, ◌>>◌,
}
use access_service.Prelude.Keyed.{lookup, insert, adjust}
use access_service.Permissions.Graph.{PermissionDefinition, PermissionDependencyGraph, build_graph}
use access_service.Permissions.Validator.{
  CatalogError, invalid_permission_format, invalid_catalog_structure, catalog_not_found,
}
use access_service.Permissions.Naming.{is_well_named}

-- A row of `RawCatalogYaml`.
pub record RawPermission : Type 0 where
  pub id : String
  pub module_name : String
  pub resource : String
  pub action : String
  pub requires : Option (List String)
  pub entry : Option Bool
  pub deprecated : Option Bool
  pub deprecated_at : Option String
  pub removed_in_version : Option String

-- `yaml.load` throws, or its value has a list of permissions or has none.
pub record CatalogPlatform : Type 0 where
  pub yaml_load : String → Result CatalogError (Option (List RawPermission))
  pub candidate_paths : List String
  pub read_file : String → Option String

abbrev pub ResourceMap : Type 0
ResourceMap = List (String × List PermissionDefinition)

pub record Loader : Type 0 where
  pub permission_map : List (String × PermissionDefinition)
  pub module_map : List (String × ResourceMap)
  pub graph : Option PermissionDependencyGraph

pub record Loaded : Type 0 where
  pub definitions : List PermissionDefinition
  pub graph : PermissionDependencyGraph

abbrev pub Load : Type 0 → Type 0
Load A = Action Loader CatalogError A

-- `flag === true`
abbrev pub is_true : Option Bool → Bool
is_true o = get_or_else o false

abbrev pub definition_of : RawPermission → PermissionDefinition
definition_of raw = record {
  id = raw.id;
  module_name = raw.module_name;
  resource = raw.resource;
  action = raw.action;
  requires = raw.requires;
  entry = is_true raw.entry;
  deprecated = is_true raw.deprecated;
  deprecated_at = raw.deprecated_at;
  removed_in_version = raw.removed_in_version;
}

abbrev pub with_key : {V : Type 0} → String → V → List (String × V) → List (String × V)
with_key k v m = if is_some (lookup k m) then m else insert k v m

abbrev pub filed_resource : PermissionDefinition → ResourceMap → ResourceMap
filed_resource d m = adjust d.resource (λ ds. ds ++ d ∷ []) (with_key d.resource [] m)

abbrev pub filed : PermissionDefinition → List (String × ResourceMap) → List (String × ResourceMap)
filed d m = adjust d.module_name (filed_resource d) (with_key d.module_name [] m)

abbrev pub recorded : PermissionDefinition → Loader → Loader
recorded d l = record l {
  permission_map = insert d.id d l.permission_map;
  module_map = filed d l.module_map;
}

abbrev pub validate_permission_naming : RawPermission → Load (Unit {0})
validate_permission_naming raw =
    throw_if (not (is_well_named raw.id raw.resource raw.action)) (invalid_permission_format raw.id)

-- The definitions of the rows, in their order.
unfoldable pub load_each : List RawPermission → Load (List PermissionDefinition)
load_each [] = pure []
load_each (raw ∷ raws) = do
  validate_permission_naming raw
  modify (recorded (definition_of raw))
  ds ← load_each raws
  pure (definition_of raw ∷ ds)

abbrev pub cleared : Loader → Loader
cleared l = record l { permission_map = []; module_map = [] }

unfoldable pub load_rows : List RawPermission → Load Loaded
unfolding load_each
load_rows raws = do
  ds ← load_each raws
  modify (λ l. record l { graph = some (build_graph ds) })
  pure (record { definitions = ds; graph = build_graph ds })

unfoldable pub load_from_yaml_content : CatalogPlatform → String → Load Loaded
unfolding load_rows
load_from_yaml_content p content = do
  modify cleared
  parsed ← (λ l. (p.yaml_load content, l))
  raws ← or_throw parsed invalid_catalog_structure
  load_rows raws

-- An empty path counts as none.
abbrev pub paths_to_try : CatalogPlatform → Option String → List String
paths_to_try p none = p.candidate_paths
paths_to_try p (some path) = if str_eq path "" then p.candidate_paths else path ∷ []

abbrev pub content_at : CatalogPlatform → List String → Option String
content_at p [] = none
content_at p (path ∷ paths) =
    if is_some (p.read_file path) then p.read_file path else content_at p paths

unfoldable pub load_from_file : CatalogPlatform → Option String → Load Loaded
unfolding load_from_yaml_content
load_from_file p path = do
  content ← or_throw (content_at p (paths_to_try p path)) catalog_not_found
  load_from_yaml_content p content

abbrev pub get_by_id : String → Loader → Option PermissionDefinition
get_by_id id l = lookup id l.permission_map
