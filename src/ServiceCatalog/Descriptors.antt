-- ===== src/ServiceCatalog/Descriptors.antt =====
-- scripts/service_catalog.py: `load_single_document` and `load_catalog`.
pub mod Filed
pub mod Loaded
use home_server.Common.{
  String, str_eq, concat, join, Bool, true, false, not, ◌&&◌, List, [], ◌∷◌, ◌++◌, map, kept,
  flat_map, is_empty, Option, none, some, if◌then◌else◌, ℤ, pos, Py, ok, raise, catalog_error,
  ◌>>=◌, ◌>>◌, flat_map_py,
}
use home_server.Common.Order.{sort, sort_by}
use home_server.Json.{
  Value, Fields, null, int, str, arr, obj, end, field, get, put, is_null, eq_str, to_items,
  to_fields,
}
use home_server.ServiceCatalog.Checks.{unknown_keys}
use home_server.ServiceCatalog.References.{load_single_document}
use home_server.ServiceCatalog.Paths.{Repository, FilePath, relative, parent, path_lt}

abbrev catalog_api_version : String
catalog_api_version = "catalog.reza.network/v1alpha1"

abbrev document_keys : List String
document_keys = "apiVersion" ∷ "kind" ∷ "metadata" ∷ "spec" ∷ []

abbrev failed_if : Bool → List String → Py (Unit {0})
unfolding concat
failed_if true message = raise (catalog_error (concat message))
failed_if false message = ok tt

-- A mapping with other keys than the known ones is refused.
abbrev known_only : List String → String → Fields → Py (Unit {0})
unfolding concat join sort
known_only known message fs =
    failed_if (not (is_empty (unknown_keys fs known)))
      (message ∷ join ", " (sort (unknown_keys fs known)) ∷ [])

-- isinstance(metadata, dict) and isinstance(spec, dict)
abbrev both : String → Value → Value → Py (Fields × Fields)
unfolding concat
both name (obj metadata) (obj spec) = ok (metadata, spec)
both name metadata spec =
    raise (catalog_error (concat (name ∷ " requires metadata and spec mappings" ∷ [])))

abbrev nonempty_name : String → Value → Py String
unfolding concat
nonempty_name name (str String.[]) =
    raise (catalog_error (concat (name ∷ " metadata.name must be a non-empty string" ∷ [])))
nonempty_name name (str s) = ok s
nonempty_name name v =
    raise (catalog_error (concat (name ∷ " metadata.name must be a non-empty string" ∷ [])))

-- What a descriptor adds to the catalog.
pub data Entry : Type 0 where
  service : Fields → Entry
  exclusion : Fields → Entry

abbrev service_of : Entry → List Value
service_of (service fs) = obj fs ∷ []
service_of (exclusion fs) = []

abbrev exclusion_of : Entry → List Value
exclusion_of (service fs) = []
exclusion_of (exclusion fs) = obj fs ∷ []

module _ (w : Repository) where
  unfoldable pub load_config : Py Fields
  unfolding get known_only both load_single_document
  load_config = do
    config ← load_single_document w (w.root ++ ("catalog" ∷ "cluster.yaml" ∷ []))
    known_only document_keys "catalog/cluster.yaml contains unknown field(s): " config
    failed_if (not (eq_str (get "apiVersion" config) catalog_api_version))
        ("catalog/cluster.yaml apiVersion must be " ∷ catalog_api_version ∷ [])
    failed_if (not (eq_str (get "kind" config) "ClusterCatalog"))
        ("catalog/cluster.yaml kind must be ClusterCatalog" ∷ [])
    (metadata, spec) ← both "catalog/cluster.yaml" (get "metadata" config) (get "spec" config)
    known_only ("name" ∷ []) "catalog/cluster.yaml metadata contains unknown field(s): " metadata
    known_only ("authentik" ∷ "dns" ∷ "domain" ∷ "homepage" ∷ [])
        "catalog/cluster.yaml spec contains unknown field(s): " spec
    ok spec

  -- str(path.parent.relative_to(REPO_ROOT))
  abbrev folder : FilePath → String
  unfolding relative
  folder path = relative w (parent path)

  abbrev service_entry : FilePath → String → Fields → Fields
  unfolding put folder
  service_entry path service_id spec =
      put "_source" (str (relative w path))
        (put "path" (str (folder path)) (put "id" (str service_id) spec))

  abbrev exclusion_entry : FilePath → Fields → Fields
  unfolding get folder
  exclusion_entry path spec = to_fields (
      ("path", str (folder path))
      ∷ ("reason", get "reason" spec)
      ∷ ("_source", str (relative w path))
      ∷ [])

  abbrev entry_of : FilePath → String → Fields → Value → Py Entry
  unfolding concat service_entry exclusion_entry
  entry_of path service_id spec kind =
      if eq_str kind "Service"
      then ok (service (service_entry path service_id spec))
      else if eq_str kind "CatalogExclusion"
      then ok (exclusion (exclusion_entry path spec))
      else raise (
          catalog_error
            (concat (relative w path ∷ " kind must be Service or CatalogExclusion" ∷ [])))

  unfoldable pub load_descriptor : FilePath → Py Entry
  unfolding get known_only both nonempty_name load_single_document entry_of
  load_descriptor path = do
    document ← load_single_document w path
    known_only document_keys
        (concat (relative w path ∷ " contains unknown top-level field(s): " ∷ [])) document
    failed_if (not (eq_str (get "apiVersion" document) catalog_api_version))
        (relative w path ∷ " apiVersion must be " ∷ catalog_api_version ∷ [])
    (metadata, spec) ← both (relative w path) (get "metadata" document) (get "spec" document)
    known_only ("name" ∷ [])
        (concat (relative w path ∷ " metadata contains unknown field(s): " ∷ [])) metadata
    service_id ← nonempty_name (relative w path) (get "name" metadata)
    entry_of path service_id spec (get "kind" document)

  unfoldable pub loaded : FilePath → Py (List Entry)
  unfolding load_descriptor
  loaded path = do entry ← load_descriptor path; ok (entry ∷ [])

  abbrev catalog_of : Fields → List Entry → Fields
  unfolding get
  catalog_of spec entries = to_fields (
      ("version", int (pos 2))
      ∷ ("domain", get "domain" spec)
      ∷ ("dns", get "dns" spec)
      ∷ ("homepage", get "homepage" spec)
      ∷ ("authentik", get "authentik" spec)
      ∷ ("registrationExclusions", arr (to_items (flat_map exclusion_of entries)))
      ∷ ("services", arr (to_items (flat_map service_of entries)))
      ∷ [])

  -- sorted(path for … in root.rglob("*.catalog.yaml") if path.is_file()), of the paths that were found
  unfoldable pub descriptor_paths : List FilePath → List FilePath
  unfolding sort_by path_lt
  descriptor_paths found = sort_by path_lt (kept w.is_file found)

  unfoldable pub load_catalog : List FilePath → Py Fields
  unfolding load_config descriptor_paths loaded catalog_of
  load_catalog found = do
    spec ← load_config
    failed_if (is_empty (descriptor_paths found))
        ("no colocated *.catalog.yaml descriptors were found" ∷ [])
    entries ← flat_map_py loaded (descriptor_paths found)
    ok (catalog_of spec entries)
