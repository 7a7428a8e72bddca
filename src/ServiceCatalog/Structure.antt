-- ===== src/ServiceCatalog/Structure.antt =====
-- scripts/service_catalog.py: `validate_catalog_structure`.
pub mod Settings
pub mod Service
pub mod Client
pub mod Auth
pub mod Web
pub mod Clean
pub mod Unique
pub mod Registration
use home_server.Common.{
  ℕ, suc, String, str_eq, concat, Bool, true, false, not, ◌&&◌, List, [], ◌∷◌, ◌++◌, contains, kept,
  Option, none, some, if◌then◌else◌, Py, ok, raise,
}
use home_server.Json.{Value, Fields, Items, null, str, arr, obj, get, items}
use home_server.ServiceCatalog.Checks.{
  Check, pure, run, report, report_if, for_each, done, require_mapping, require_nonempty_string,
  reject_unknown, ◌>>=◌, ◌>>◌,
}
use home_server.ServiceCatalog.Paths.{
  Repository, FilePath, relative, repo_path, path_eq, parent, holds_path, sorted_paths,
}
use home_server.ServiceCatalog.Names.{is_dns_label}
use home_server.ServiceCatalog.References.{caught, at_index, registered_roots}
use home_server.ServiceCatalog.Rendered.{services}
use home_server.ServiceCatalog.Structure.Settings.{settings}
use home_server.ServiceCatalog.Structure.Service.{
  require_text, workload_check, card_check, path_check, placement_check, data_check,
  observability_check,
}
use home_server.ServiceCatalog.Structure.Web.{WebNames, web_check}

-- What the loop over the services has seen.
pub record Seen : Type 0 where
  pub ids : List String
  pub hostnames : List String
  pub client_ids : List String
  pub app_paths : List FilePath

abbrev pub nothing_seen : Seen
nothing_seen = record { ids = []; hostnames = []; client_ids = []; app_paths = [] }

abbrev service_fields : List String
service_fields =
    "_source" ∷ "data" ∷ "homepage" ∷ "id" ∷ "name" ∷ "observability" ∷ "path" ∷ "placement" ∷ "web"
    ∷ "workload" ∷ []

-- The id of a service; the result is what is added to the ids.
unfoldable pub id_check : String → List String → Option String → Check (List String)
unfolding concat is_dns_label
id_check label seen none = pure []
id_check label seen (some service_id) = do
  report_if (not (is_dns_label service_id)) (label ∷ ".id must be a DNS label" ∷ [])
  report_if (contains seen service_id) ("duplicate service id: " ∷ service_id ∷ [])
  pure (service_id ∷ [])

-- How the messages name a service once its id is known.
abbrev service_label : String → Option String → Value → String
unfolding concat
service_label label none source = label
service_label label (some service_id) (str source) =
    concat ("service " ∷ service_id ∷ " (" ∷ source ∷ ")" ∷ [])
service_label label (some service_id) source = concat ("service " ∷ service_id ∷ [])

module _ (w : Repository) (settings : Settings.Settings) (roots : List FilePath) where
  -- The parts of a service behind its id.
  unfoldable pub service_parts :
      String → Option String → Seen → Fields → Check (List FilePath × WebNames)
  unfolding get concat require_nonempty_string path_check workload_check card_check web_check
      placement_check data_check observability_check
  service_parts label service_id seen service = do
    path ← require_nonempty_string (get "path" service) (concat (label ∷ ".path" ∷ []))
    apps ← path_check w roots label path
    workload ← require_mapping (get "workload" service) (concat (label ∷ ".workload" ∷ []))
    workload_check label workload
    card ← require_mapping (get "homepage" service) (concat (label ∷ ".homepage" ∷ []))
    card_check settings.groups label card
    names ← web_check w settings label service_id seen.hostnames seen.client_ids (get "web" service)
    placement ← require_mapping (get "placement" service) (concat (label ∷ ".placement" ∷ []))
    placement_check w label placement
    storage ← require_mapping (get "data" service) (concat (label ∷ ".data" ∷ []))
    data_check w label storage
    observability ←
        require_mapping (get "observability" service) (concat (label ∷ ".observability" ∷ []))
    observability_check w label observability
    pure (apps, names)

  unfoldable pub service_check : ℕ → Seen → Value → Check Seen
  unfolding get concat at_index reject_unknown require_nonempty_string require_text id_check
      service_label service_parts
  service_check index seen (obj service) = do
    reject_unknown service service_fields (at_index "catalog.services" index)
    service_id ←
        require_nonempty_string (get "id" service)
          (concat (at_index "catalog.services" index ∷ ".id" ∷ []))
    require_text (get "name" service) (concat (at_index "catalog.services" index ∷ ".name" ∷ []))
    ids ← id_check (at_index "catalog.services" index) seen.ids service_id
    (apps, names) ←
        service_parts
          (service_label (at_index "catalog.services" index) service_id (get "_source" service))
          service_id seen service
    pure (record {
      ids = ids ++ seen.ids;
      hostnames = names.hostnames ++ seen.hostnames;
      client_ids = names.client_ids ++ seen.client_ids;
      app_paths = apps ++ seen.app_paths;
    })
  service_check index seen v =
      ok (concat (at_index "catalog.services" index ∷ " must be a mapping" ∷ []) ∷ [], seen)

  unfoldable pub services_check : ℕ → Seen → List Value → Check Seen
  unfolding service_check
  services_check index seen [] = pure seen
  services_check index seen (service ∷ others) = do
    now ← service_check index seen service
    services_check (suc index) now others

module _ (w : Repository) where
  abbrev excluded_path : String → String → Option FilePath → Check (List FilePath)
  unfolding concat
  excluded_path label value none = pure []
  excluded_path label value (some path) =
      report_if (not (w.is_dir path)) (label ∷ ".path does not exist: " ∷ value ∷ [])
      >> pure (path ∷ [])

  abbrev exclusion_path : String → Option String → Check (List FilePath)
  unfolding repo_path excluded_path
  exclusion_path label none = pure []
  exclusion_path label (some value) = caught (repo_path w value) >>= excluded_path label value

  unfoldable pub exclusion_check : String → Value → Check (List FilePath)
  unfolding get concat require_nonempty_string require_text exclusion_path
  exclusion_check label (obj exclusion) = do
    value ← require_nonempty_string (get "path" exclusion) (concat (label ∷ ".path" ∷ []))
    require_text (get "reason" exclusion) (concat (label ∷ ".reason" ∷ []))
    exclusion_path label value
  exclusion_check label v = ok (concat (label ∷ " must be a mapping" ∷ []) ∷ [], [])

  unfoldable pub exclusions_check : ℕ → List Value → Check (List FilePath)
  unfolding at_index exclusion_check
  exclusions_check index [] = pure []
  exclusions_check index (exclusion ∷ others) = do
    here ← exclusion_check (at_index "catalog.registrationExclusions" index) exclusion
    there ← exclusions_check (suc index) others
    pure (here ++ there)

  unfoldable pub excluded_paths : Value → Check (List FilePath)
  unfolding exclusions_check
  excluded_paths (arr vs) = exclusions_check 0 (items vs)
  excluded_paths v = ok ("catalog.registrationExclusions must be a list" ∷ [], [])

  -- for path in sorted(paths): errors.append(…)
  unfoldable pub report_paths : String → List FilePath → Check (Unit {0})
  unfolding concat relative sorted_paths
  report_paths message paths =
      for_each (λ path. report (concat (message ∷ ": " ∷ relative w path ∷ [])))
        (sorted_paths paths)

  -- path.parent == REPO_ROOT / "apps"
  abbrev is_app_root : FilePath → Bool
  unfolding path_eq
  is_app_root path = path_eq (parent path) (w.root ++ ("apps" ∷ []))

  abbrev pub active_app_roots : List FilePath → List FilePath
  unfolding is_app_root
  active_app_roots roots = kept is_app_root roots

  unfoldable pub registration_check :
      List FilePath → List FilePath → List FilePath → Check (Unit {0})
  unfolding holds_path report_paths
  registration_check active excluded cataloged = do
    report_paths "registration exclusion is not an active root app path"
        (kept (λ p. not (holds_path active p)) excluded)
    report_paths "active app path cannot be both cataloged and excluded"
        (kept (λ p. holds_path cataloged p) excluded)
    report_paths "active app path has no catalog service or documented exclusion"
        (kept (λ p. not (holds_path cataloged p) && not (holds_path excluded p)) active)

  unfoldable pub validate_catalog_structure : Fields → Check (Unit {0})
  unfolding get settings registered_roots services services_check excluded_paths registration_check
      active_app_roots
  validate_catalog_structure catalog = do
    known ← settings w catalog
    roots ← registered_roots w
    listed ← run (services catalog)
    seen ← services_check w known roots 0 nothing_seen listed
    excluded ← excluded_paths (get "registrationExclusions" catalog)
    registration_check (active_app_roots roots) excluded seen.app_paths
