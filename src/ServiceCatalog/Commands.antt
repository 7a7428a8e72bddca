-- ===== src/ServiceCatalog/Commands.antt =====
-- scripts/service_catalog.py: `render_cluster`, `check`, `summary`, the commands and the exit status of `main`.
pub mod Validated
use home_server.Common.{
  ℕ, length, show, strip, String, str_eq, concat, join, Bool, true, false, List, [], ◌∷◌, map,
  flat_map_py, kept, Option, none, some, if◌then◌else◌, Py, ok, raise, Error, provider_error,
  manifest_error, catalog_error, runtime_error, value_error, type_error, attribute_error, key_error,
  os_error, ◌>>=◌,
}
use home_server.Json.{
  Value, Fields, null, str, obj, end, get, get_or, get_attr, is_dict, dict_or_empty, str_of,
}
use home_server.ServiceCatalog.Checks.{Check, run, report, error_line, ◌>>=◌ as ◌and_then◌}
use home_server.ServiceCatalog.Paths.{Repository, FilePath}
use home_server.ServiceCatalog.Routes.{attr_or}
use home_server.ServiceCatalog.Rendered.{services, validate_rendered_cluster}
use home_server.ServiceCatalog.Structure.{validate_catalog_structure}
use home_server.ServiceCatalog.Explain.{explain}
use home_server.ServiceCatalog.Outputs.{Files, CommandResult, render, validate_generated_outputs}
use home_server.ServiceCatalog.Descriptors.{load_catalog}

-- A file by the text of its path and its place.
pub record Manifest : Type 0 where
  pub text : String
  pub path : FilePath

-- The run of `kubectl kustomize`, and the temporary file with its output.
pub record Kustomize : Type 0 where
  pub installed : Bool
  pub failed : Bool
  pub stderr : String
  pub temporary : Manifest

abbrev or_unknown : String → String
or_unknown s = if str_eq s "" then "unknown kubectl kustomize error" else s

unfoldable pub render_cluster : Kustomize → Py Manifest
unfolding concat
render_cluster k =
    if k.installed
    then (if k.failed
        then raise (
            catalog_error (
              concat
                ("could not render clusters/home-server: " ∷ or_unknown (strip k.stderr) ∷ [])))
        else ok k.temporary)
    else raise (catalog_error "required command is not installed: kubectl")

-- if not errors: …
unfoldable pub if_clean : Check (Unit {0}) → Check (Unit {0}) → Check (Unit {0})
if_clean (raise e) next = raise e
if_clean (ok ([], u)) next = next
if_clean (ok (e ∷ errors, u)) next = ok (e ∷ errors, u)

abbrev pub manifest_of : Kustomize → Option Manifest → Py Manifest
unfolding render_cluster
manifest_of k none = render_cluster k
manifest_of k (some manifest) = ok manifest

-- The commands of the command line.
pub data Command : Type 0 where
  render_files : Command
  check_with : Option Manifest → Command
  summarize : Command
  explain_service : String → Command

module _ (w : Repository) where
  unfoldable pub manifest_check : Fields → Manifest → Check (Unit {0})
  unfolding concat validate_rendered_cluster
  manifest_check catalog manifest =
      if w.is_file manifest.path
      then validate_rendered_cluster w.render catalog (w.load_documents manifest.path)
      else report (concat ("rendered manifest does not exist: " ∷ manifest.text ∷ []))

  unfoldable pub checked : Kustomize → Fields → Files → Option Manifest → Check (Unit {0})
  unfolding if_clean manifest_of manifest_check validate_catalog_structure
      validate_generated_outputs
  checked k catalog files rendered = if_clean (validate_catalog_structure w catalog) (
      validate_generated_outputs w catalog files
      and_then (λ u. run (manifest_of k rendered) and_then manifest_check catalog))

  abbrev web_route : Value → Py (List Value)
  web_route service = do web ← get_attr service "web"; ok (if is_dict web then web ∷ [] else [])

  unfoldable pub validated_line : Fields → Py (List String)
  unfolding concat show services
  validated_line catalog = do
    listed ← services catalog
    routes ← flat_map_py web_route listed
    ok (
        concat (
          "Validated "
          ∷ show (length listed)
          ∷ " service(s), "
          ∷ show (length routes)
          ∷ " web route(s), and all generated integrations."
          ∷ [])
        ∷ [])

  abbrev pub check_result : Fields → Files → Check (Unit {0}) → CommandResult
  unfolding concat show validated_line error_line
  check_result catalog files (raise e) = record { files = files; stderr = []; result = raise e }
  check_result catalog files (ok ([], u)) = record {
    files = files;
    stderr = [];
    result = validated_line catalog;
  }
  check_result catalog files (ok (e ∷ errors, u)) = record {
    files = files;
    stderr = map error_line (e ∷ errors);
    result = raise (
        catalog_error (
          concat (
            "service catalog validation failed with "
            ∷ show (length (e ∷ errors))
            ∷ " error(s)"
            ∷ [])));
  }

  unfoldable pub check : Kustomize → Fields → Files → Option Manifest → CommandResult
  unfolding checked check_result
  check k catalog files rendered = check_result catalog files (checked k catalog files rendered)

  abbrev cell : String → String → Value → Py String
  unfolding str_of
  cell k default v = do x ← attr_or v k (str default); ok (str_of w.render x)

  abbrev row : Value → Py (List String)
  unfolding join cell
  row service = do
    web ← attr_or service "web" (obj end)
    id ← cell "id" "" service
    source ← cell "_source" "" service
    hostname ← cell "hostname" "-" web
    auth ← attr_or web "auth" (obj end)
    mode ← cell "mode" "-" auth
    placement ← attr_or service "placement" (obj end)
    place ← cell "mode" "-" placement
    data_part ← attr_or service "data" (obj end)
    protection ← cell "protection" "-" data_part
    observability ← attr_or service "observability" (obj end)
    observed ← cell "mode" "-" observability
    ok (join "\t" (id ∷ source ∷ hostname ∷ mode ∷ place ∷ protection ∷ observed ∷ []) ∷ [])

  -- The lines where the loop comes to its end.
  unfoldable pub summary : Fields → Py (List String)
  unfolding services row
  summary catalog = do
    listed ← services catalog
    rows ← flat_map_py row listed
    ok ("ID\tSOURCE\tWEB\tAUTH\tPLACEMENT\tDATA\tOBSERVABILITY" ∷ rows)

  abbrev pub command_result : Kustomize → Files → Command → Py Fields → CommandResult
  unfolding check summary explain render
  command_result k files command (raise e) = record { files = files; stderr = []; result = raise e }
  command_result k files render_files (ok catalog) = render w catalog files
  command_result k files (check_with rendered) (ok catalog) = check k catalog files rendered
  command_result k files summarize (ok catalog) = record {
    files = files;
    stderr = [];
    result = summary catalog;
  }
  command_result k files (explain_service service_id) (ok catalog) = record {
    files = files;
    stderr = [];
    result = explain w catalog service_id;
  }

  unfoldable pub run_command : Kustomize → List FilePath → Files → Command → CommandResult
  unfolding load_catalog command_result
  run_command k found files command = command_result k files command (load_catalog w found)

-- except (CatalogError, ManifestError, OSError): return 1
abbrev pub status_of : Py (List String) → Py ℕ
status_of (ok lines) = ok 0
status_of (raise (catalog_error message)) = ok 1
status_of (raise (manifest_error message)) = ok 1
status_of (raise os_error) = ok 1
status_of (raise e) = raise e

module _ (w : Repository) where
  unfoldable pub main : Kustomize → List FilePath → Files → Command → Py ℕ
  unfolding run_command
  main k found files command = status_of (run_command w k found files command).result
