-- ===== src/Permissions/Initialized.antt =====
-- What the service holds after its catalogue was initialized, and after that failed.
use mathlib.Core.Path.{subst}
use access_service.Prelude.{
  String, ◌≡◌, refl, sym, ap, ◌∙◌, true, Option, none, some, List, [], ◌∷◌, All, Result, ok, err,
  proceed, inl, inr, Bool-cases, Option-cases,
}
use access_service.Permissions.Graph.{PermissionDefinition, build_graph}
use access_service.Permissions.Naming.{is_well_named}
use access_service.Permissions.Validator.{CatalogError, Checked, validate}
use access_service.Permissions.Loader.{
  RawPermission, CatalogPlatform, Loader, Loaded, load_each, load_rows, load_from_yaml_content,
  load_from_file, recorded, definition_of, content_at, paths_to_try, cleared,
}
use access_service.Permissions.Catalogue.{Catalogue, initialize, install}
use access_service.Permissions.Reach.{Reach}
use access_service.Permissions.Integrity.{IsReferred, validate-ok}

abbrev pub IsNamed : PermissionDefinition → Type 0
IsNamed d = is_well_named d.id d.resource d.action ≡ true

-- What a load answers when it answers.
abbrev LoadedWell : {A : Type 0} → (A → Type 0) → Result CatalogError A × Loader → Type 0
LoadedWell P (ok a, l) = P a
LoadedWell P (err e, l) = Unit {0}

load_each-IsNamed :
    (raws : List RawPermission) (l : Loader) → LoadedWell (All IsNamed) (load_each raws l)
unfolding load_each
load_each-IsNamed [] l = tt
load_each-IsNamed (raw ∷ raws) l =
    elim (Bool-cases (is_well_named raw.id raw.resource raw.action)) [
      | inr e ↦ rw e tt
      | inl e ↦ rw e (
          rest e (load_each raws (recorded (definition_of raw) l))
            (load_each-IsNamed raws (recorded (definition_of raw) l)))
    ]
  where
    rest :
        is_well_named raw.id raw.resource raw.action ≡ true
        → (r : Result CatalogError (List PermissionDefinition) × Loader)
        → LoadedWell (All IsNamed) r
        → LoadedWell (All IsNamed) (proceed (λ ds. λ l'. (ok (definition_of raw ∷ ds), l')) r)
    rest e (ok ds, l') h = (e, h)
    rest e (err x, l') h = tt

abbrev IsLoaded : Loaded → Type 0
IsLoaded x = All IsNamed x.definitions × (x.graph ≡ build_graph x.definitions)

load_rows-IsLoaded :
    (raws : List RawPermission) (l : Loader) → LoadedWell IsLoaded (load_rows raws l)
unfolding load_rows
load_rows-IsLoaded raws l = named (load_each raws l) (load_each-IsNamed raws l)
  where
    named :
        (r : Result CatalogError (List PermissionDefinition) × Loader)
        → LoadedWell (All IsNamed) r
        → LoadedWell IsLoaded (
            proceed
              (λ ds. λ l'. (
                ok (record { definitions = ds; graph = build_graph ds }),
                record l' { graph = some (build_graph ds) },
              ))
              r)
    named (ok ds, l') h = (h, refl)
    named (err x, l') h = tt

load_from_yaml_content-IsLoaded :
    (p : CatalogPlatform) (content : String) (l : Loader)
    → LoadedWell IsLoaded (load_from_yaml_content p content l)
unfolding load_from_yaml_content
load_from_yaml_content-IsLoaded p content l = go (p.yaml_load content) refl
  where
    go :
        (r : Result CatalogError (Option (List RawPermission)))
        → p.yaml_load content ≡ r
        → LoadedWell IsLoaded (load_from_yaml_content p content l)
    go (err x) e = rw e tt
    go (ok none) e = rw e tt
    go (ok (some raws)) e = rw e (load_rows-IsLoaded raws (cleared l))

load_from_file-IsLoaded :
    (p : CatalogPlatform) (path : Option String) (l : Loader)
    → LoadedWell IsLoaded (load_from_file p path l)
unfolding load_from_file
load_from_file-IsLoaded p path l = elim (Option-cases (content_at p (paths_to_try p path))) [
  | inl e ↦ rw e tt
  | inr (content, e) ↦ rw e (load_from_yaml_content-IsLoaded p content l)
]

-- The service after a call: initialized, or as it was.
abbrev pub IsCatalogue : Catalogue → Type 0
IsCatalogue c =
    All IsNamed c.definitions
    × (c.graph ≡ some (build_graph c.definitions))
    × All (IsReferred (build_graph c.definitions)) c.definitions
    × ((n : String) → ¬ Reach (build_graph c.definitions).adjacency_list n n)

abbrev pub Initialized : Catalogue → Result CatalogError (Unit {0}) × Catalogue → Type 0
Initialized before (ok u, c) = IsCatalogue c
Initialized before (err e, c) = (c.definitions ≡ before.definitions) × (c.graph ≡ before.graph)

install-Initialized : (x : Loaded) (c : Catalogue) → IsLoaded x → Initialized c (install x c)
unfolding install
install-Initialized x c (named, built) = go (validate x.definitions x.graph) refl
  where
    go : (o : Option Checked) → validate x.definitions x.graph ≡ o → Initialized c (install x c)
    go none e = rw e (refl, refl)
    go (some (err y)) e = rw e (refl, refl)
    go (some (ok tt)) e =
        let (refs, acyclic) =
          validate-ok x.definitions ((λ i. validate x.definitions (sym built i)) ∙ e) in
        rw e (named, ap some built, refs, acyclic)

-- If the catalogue is initialized, every definition is well named, the graph is built of the
-- definitions, every requirement has a node that is not deprecated, and no code reaches itself; if
-- that fails, the definitions and the graph that the service held stand as they were.
pub initialize-Initialized :
    (p : CatalogPlatform) (path : Option String) (c : Catalogue)
    → Initialized c (initialize p path c)
unfolding initialize
initialize-Initialized p path c = go (load_from_file p path c.loader) refl
  where
    go :
        (r : Result CatalogError Loaded × Loader)
        → load_from_file p path c.loader ≡ r
        → Initialized c (initialize p path c)
    go (err x, l) e = rw e (refl, refl)
    go (ok x, l) e = rw e (
        install-Initialized x (record c { loader = l })
          (subst (LoadedWell IsLoaded) e (load_from_file-IsLoaded p path c.loader)))
