-- ===== src/ServiceCatalog/Commands/Validated.antt =====
-- What a check of the catalog that ends with status 0 guarantees.
use home_server.Common.{
  ◌∈◌, returned_by_bind, ◌≡◌, refl, sym, inl, inr, Bool-cases, String, List, [], ◌∷◌, Option, some,
  Py, ok, raise, provider_error, manifest_error, catalog_error, runtime_error, value_error,
  type_error, attribute_error, key_error, os_error,
}
use home_server.Json.{Value, Fields, get}
use home_server.ServiceCatalog.Checks.{Check, done, clean_bind, clean_run}
use home_server.ServiceCatalog.Paths.{Repository, FilePath}
use home_server.ServiceCatalog.Routes.{Route, lookup}
use home_server.ServiceCatalog.Rendered.{services, expected_webs, rendered_routes, domain_of}
use home_server.ServiceCatalog.Rendered.Clean.Guarded.{IsGuarded}
use home_server.ServiceCatalog.Rendered.Clean.{clean_cluster, guarding_entry}
use home_server.ServiceCatalog.Structure.{validate_catalog_structure}
use home_server.ServiceCatalog.Structure.Unique.{
  IsSoundCatalog, validate_catalog_structure-IsSoundCatalog,
}
use home_server.ServiceCatalog.Outputs.{Files, generated_outputs, validate_generated_outputs}
use home_server.ServiceCatalog.Outputs.Fresh.{validate_generated_outputs_fresh}
use home_server.ServiceCatalog.Descriptors.{load_catalog}
use home_server.ServiceCatalog.Commands.{
  Manifest, Kustomize, manifest_of, manifest_check, if_clean, checked, check, check_result,
  validated_line, check_with, command_result, run_command, status_of, main,
}

-- The rendered manifest guards the web parts of the services.
pub record GuardsCluster (w : Repository) (catalog : Fields) (listed : List Value)
    (manifest : Manifest) : Type 0 where
  pub actual : List (String × Route)
  pub allowlists : List String
  pub routes :
      rendered_routes w.render (w.load_documents manifest.path) (domain_of (get "domain" catalog))
      ≡ ok ([], (actual, allowlists))
  pub guarded :
      (hostname : String) (route : Route)
      → lookup hostname actual ≡ some route
      → (web : Fields) × (lookup hostname (expected_webs [] listed) ≡ some web)
        × IsGuarded w.render allowlists web route

pub record IsValidated (w : Repository) (k : Kustomize) (found : List FilePath) (files : Files)
    (rendered : Option Manifest) : Type 0 where
  pub catalog : Fields
  pub listed : List Value
  pub loads : load_catalog w found ≡ ok catalog
  pub lists : services catalog ≡ ok listed
  pub sound : IsSoundCatalog listed
  pub outputs : List (FilePath × String)
  pub generates : generated_outputs w catalog files ≡ ok outputs
  pub fresh :
      (path : FilePath) (content : String) → (path, content) ∈ outputs → files path ≡ some content
  pub manifest : Manifest
  pub takes : manifest_of k rendered ≡ ok manifest
  pub guards : GuardsCluster w catalog listed manifest

clean_if :
    (first next : Check (Unit {0})) → if_clean first next ≡ done → (first ≡ done) × (next ≡ done)
unfolding if_clean
clean_if (raise e) next h = cc
clean_if (ok ([], u)) next h = (refl, h)
clean_if (ok (e ∷ errors, u)) next h = cc

status_zero :
    (result : Py (List String))
    → status_of result ≡ ok 0
    → (lines : List String) × (result ≡ ok lines)
status_zero (ok lines) h = (lines, refl)
status_zero (raise (provider_error m)) h = cc
status_zero (raise (manifest_error m)) h = cc
status_zero (raise (catalog_error m)) h = cc
status_zero (raise (runtime_error m)) h = cc
status_zero (raise (value_error m)) h = cc
status_zero (raise type_error) h = cc
status_zero (raise attribute_error) h = cc
status_zero (raise key_error) h = cc
status_zero (raise os_error) h = cc

module _ (w : Repository) (catalog : Fields) (files : Files) (lines : List String) where
  -- A check that returns had no errors, and read the services.
  returned :
      (outcome : Check (Unit {0}))
      → (check_result w catalog files outcome).result ≡ ok lines
      → (outcome ≡ done) × (listed : List Value) × (services catalog ≡ ok listed)
  unfolding check_result validated_line
  returned (raise e) h = cc
  returned (ok ([], u)) h =
      let (listed, rest, lists) = returned_by_bind _ (services catalog) lines (sym h) in
      (refl, listed, lists)
  returned (ok (e ∷ errors, u)) h = cc

module _ (w : Repository) (k : Kustomize) (files : Files) (rendered : Option Manifest)
    (catalog : Fields) where
  guarded :
      (listed : List Value) (manifest : Manifest)
      → services catalog ≡ ok listed
      → manifest_check w catalog manifest ≡ done
      → GuardsCluster w catalog listed manifest
  unfolding manifest_check
  guarded listed manifest lists h = elim (Bool-cases (w.is_file manifest.path)) [
    | inl e ↦
        let clean = rw e at h in
        let documents = w.load_documents manifest.path in
        let (actual, allowlists, all, routes, same, more) =
          clean_cluster w.render catalog documents clean in
        record {
          actual = actual;
          allowlists = allowlists;
          routes = routes;
          guarded =
              guarding_entry w.render catalog documents actual allowlists listed clean routes lists;
        }
    | inr e ↦ cc (rw e at h)
  ]

  -- What a check without errors went through.
  passed :
      (found : List FilePath) (listed : List Value) (lists : services catalog ≡ ok listed)
      → checked w k catalog files rendered ≡ done
      → load_catalog w found ≡ ok catalog
      → IsValidated w k found files rendered
  unfolding checked
  passed found listed lists h loads =
      let (structure, h) = clean_if (validate_catalog_structure w catalog) _ h in
      let (u, outputs, h) = clean_bind (validate_generated_outputs w catalog files) _ tt h in
      let (manifest, takes, last) = clean_run (manifest_of k rendered) _ tt h in
      let (all, generates, fresh) = validate_generated_outputs_fresh w catalog files outputs in
      record {
        catalog = catalog;
        listed = listed;
        loads = loads;
        lists = lists;
        sound = validate_catalog_structure-IsSoundCatalog w catalog listed structure lists;
        outputs = all;
        generates = generates;
        fresh = fresh;
        manifest = manifest;
        takes = takes;
        guards = guarded listed manifest lists last;
      }

module _ (w : Repository) (k : Kustomize) (files : Files) (rendered : Option Manifest) where
  of_check :
      (catalog : Fields) (lines : List String)
      → (check w k catalog files rendered).result ≡ ok lines
      → (checked w k catalog files rendered ≡ done)
        × (listed : List Value) × (services catalog ≡ ok listed)
  unfolding check
  of_check catalog lines h = returned w catalog files lines (checked w k catalog files rendered) h

  of_command :
      (loaded : Py Fields) (lines : List String)
      → (command_result w k files (check_with rendered) loaded).result ≡ ok lines
      → (catalog : Fields) × (loaded ≡ ok catalog)
        × (checked w k catalog files rendered ≡ done)
        × (listed : List Value) × (services catalog ≡ ok listed)
  unfolding command_result
  of_command (raise e) lines h = cc
  of_command (ok catalog) lines h =
      let (clean, listed, lists) = of_check catalog lines h in (catalog, refl, clean, listed, lists)

-- A check of the catalog that ends with status 0 has loaded a catalog whose services are sound, has found
-- each generated file as the catalog generates it, and a manifest whose routes the services guard.
pub main_check-IsValidated :
    (w : Repository) (k : Kustomize) (found : List FilePath) (files : Files)
    (rendered : Option Manifest)
    → main w k found files (check_with rendered) ≡ ok 0
    → IsValidated w k found files rendered
unfolding main run_command
main_check-IsValidated w k found files rendered h =
    let (lines, returns) =
      status_zero (run_command w k found files (check_with rendered)).result h in
    let (catalog, loads, clean, listed, lists) =
      of_command w k files rendered (load_catalog w found) lines returns in
    passed w k files rendered catalog found listed lists clean loads
