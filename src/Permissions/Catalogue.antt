-- ===== src/Permissions/Catalogue.antt =====
-- src/modules/permissions/services/permission-catalog.service.ts, with the answers of
-- dto/permission-catalog-response.dto.ts.
use access_service.Prelude.{
  ℕ, String, Option, none, some, List, map, length, Result, ok, err, Action, pure, throw, modify,
  ◌>>=◌, ◌>>◌,
}
use access_service.Permissions.Graph.{
  PermissionDefinition, DependencyNode, PermissionDependencyGraph,
}
use access_service.Permissions.Validator.{CatalogError, out_of_fuel, Checked, validate}
use access_service.Permissions.Loader.{Loader, Loaded, CatalogPlatform, ResourceMap, load_from_file}

pub record Catalogue : Type 0 where
  pub loader : Loader
  pub definitions : List PermissionDefinition
  pub graph : Option PermissionDependencyGraph

abbrev pub Catalog : Type 0 → Type 0
Catalog A = Action Catalogue CatalogError A

abbrev pub with_loader :
    {A : Type 0} → Catalogue → Result CatalogError A × Loader → Result CatalogError A × Catalogue
with_loader c (r, l) = (r, record c { loader = l })

-- A call of the loader.
abbrev pub on_loader : {A : Type 0} → Action Loader CatalogError A → Catalog A
on_loader m c = with_loader c (m c.loader)

abbrev pub checked : Option Checked → Catalog (Unit {0})
checked none = throw out_of_fuel
checked (some (ok u)) = pure tt
checked (some (err e)) = throw e

unfoldable pub install : Loaded → Catalog (Unit {0})
unfolding validate
install loaded = do
  checked (validate loaded.definitions loaded.graph)
  modify (λ c. record c { definitions = loaded.definitions; graph = some loaded.graph })

unfoldable pub initialize : CatalogPlatform → Option String → Catalog (Unit {0})
unfolding load_from_file install
initialize p path = do loaded ← on_loader (load_from_file p path); install loaded

pub record ResourceGroup : Type 0 where
  pub resource : String
  pub permissions : List PermissionDefinition

pub record ModuleGroup : Type 0 where
  pub module_name : String
  pub resources : List ResourceGroup

pub record PermissionCatalogResponse : Type 0 where
  pub total_modules : ℕ
  pub total_permissions : ℕ
  pub modules : List ModuleGroup

abbrev pub resource_group : String × List PermissionDefinition → ResourceGroup
resource_group (resource, ds) = record { resource = resource; permissions = ds }

abbrev pub module_group : String × ResourceMap → ModuleGroup
module_group (name, resources) = record {
  module_name = name;
  resources = map resource_group resources;
}

unfoldable pub get_catalog_hierarchy : Catalogue → PermissionCatalogResponse
get_catalog_hierarchy c = record {
  total_modules = length (map module_group c.loader.module_map);
  total_permissions = length c.definitions;
  modules = map module_group c.loader.module_map;
}

pub record DependencyRule : Type 0 where
  pub permission_code : String
  pub requires : List String
  pub required_by : List String

abbrev pub dependency_rule : String × DependencyNode → DependencyRule
dependency_rule (id, n) = record {
  permission_code = id;
  requires = n.prerequisites;
  required_by = n.dependents;
}

unfoldable pub get_dependency_matrix : PermissionDependencyGraph → List DependencyRule
get_dependency_matrix g = map dependency_rule g.nodes
