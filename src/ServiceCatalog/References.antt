-- ===== src/ServiceCatalog/References.antt =====
-- scripts/service_catalog.py: the files and the Secrets that a descriptor refers to.
use home_server.Common.{
  ℕ, suc, ◌++◌, ◌||◌, String, str_eq, concat, show, Bool, true, false, not, List, [], ◌∷◌, map,
  flat_map, kept, contains, any, Option, none, some, if◌then◌else◌, Py, ok, raise, manifest_error,
  catalog_error, flat_map_py,
}
use home_server.Json.{
  Value, Fields, Items, arr, obj, nil, cons, end, field, get, get_or, items, fields, is_null,
  dict_or_empty, list_or_empty,
}
use home_server.ServiceCatalog.Checks.{
  Check, pure, run, report, report_if, done, require_nonempty_string, ◌>>=◌, ◌>>◌,
}
use home_server.ServiceCatalog.Paths.{
  FilePath, Repository, relative, relative_to, repo_path, path_eq, parent,
}
use home_server.ServiceCatalog.Routes.{is_kind, attr_or, text_in}

-- except CatalogError and except ManifestError: the message is one more error
abbrev pub caught {ℓ} : {A : Type ℓ} → Py A → Check (Option A)
caught (ok a) = pure (some a)
caught (raise (catalog_error message)) = ok (message ∷ [], none)
caught (raise (manifest_error message)) = ok (message ∷ [], none)
caught (raise e) = raise e

-- if value is not None: …
abbrev pub on_some {ℓ} : {A : Type ℓ} → Option A → (A → Check (Unit {0})) → Check (Unit {0})
on_some none body = done
on_some (some a) body = body a

-- f"{label}[{index}]"
unfoldable pub at_index : String → ℕ → String
unfolding concat show
at_index label index = concat (label ∷ "[" ∷ show index ∷ "]" ∷ [])

-- for index, item in enumerate(items): …
abbrev pub each_indexed {ℓ} :
    {A : Type ℓ} → (ℕ → A → Check (Unit {0})) → ℕ → List A → Check (Unit {0})
each_indexed body n [] = done
each_indexed body n (x ∷ xs) = body n x >> each_indexed body (suc n) xs

abbrev single_mapping : Repository → FilePath → List Value → Py Fields
unfolding concat relative
single_mapping w path (obj fs ∷ []) = ok fs
single_mapping w path _ =
    raise (catalog_error (concat (relative w path ∷ " must contain one YAML mapping" ∷ [])))

abbrev from_documents : Repository → FilePath → Py (List Value) → Py Fields
unfolding single_mapping
from_documents w path (raise e) = raise e
from_documents w path (ok documents) = single_mapping w path (kept (λ d. not (is_null d)) documents)

unfoldable pub load_single_document : Repository → FilePath → Py Fields
unfolding from_documents
load_single_document w path = from_documents w path (w.load_documents path)

module _ (w : Repository) where
  -- One element of a list of paths.
  unfoldable pub referenced_path : String → ℕ → Value → Check (Unit {0})
  unfolding concat at_index require_nonempty_string repo_path
  referenced_path label index item = do
    value ← require_nonempty_string item (at_index label index)
    on_some value λ path_value. do
      found ← caught (repo_path w path_value)
      on_some found λ path.
          report_if (not (w.is_file path))
            (at_index label index ∷ " does not exist: " ∷ path_value ∷ [])

  -- The list that it returns is used nowhere, and is left out.
  unfoldable pub referenced_paths : Value → String → Check (Unit {0})
  unfolding concat referenced_path
  referenced_paths (arr (cons v vs)) label =
      each_indexed (referenced_path label) 0 (items (cons v vs))
  referenced_paths _ label = report (concat (label ∷ " must be a non-empty list" ∷ []))

  -- The keys of a Secret under "data" and "stringData".
  abbrev mapping_keys : Value → List String
  mapping_keys (obj fs) = map (λ (p : String × Value). p.0) (fields fs)
  mapping_keys _ = []

  unfoldable pub secret_keys : Value → List String
  unfolding get is_kind
  secret_keys document =
      if is_kind "Secret" document
      then mapping_keys (get "data" (dict_or_empty document))
        ++ mapping_keys (get "stringData" (dict_or_empty document))
      else []

  abbrev key_in_file : String → String → String → FilePath → Check (Unit {0})
  unfolding concat secret_keys
  key_in_file item_label path_value key path =
      if w.is_file path
      then (caught (w.load_documents path) >>= λ loaded. on_some loaded λ documents.
          report_if (not (contains (flat_map secret_keys documents) key))
            (item_label ∷ ".key is not present in Secret " ∷ path_value ∷ ": " ∷ key ∷ []))
      else report (concat (item_label ∷ ".path does not exist: " ∷ path_value ∷ []))

  -- The reference of a key in the Secret of a file, both of them texts.
  unfoldable pub key_reference : String → String → String → Check (Unit {0})
  unfolding repo_path key_in_file
  key_reference item_label path_value key = do
    found ← caught (repo_path w path_value)
    on_some found (key_in_file item_label path_value key)

  -- One reference; both its texts are required before the file is read.
  unfoldable pub secret_reference : String → ℕ → Value → Check (Unit {0})
  unfolding concat at_index get require_nonempty_string key_reference
  secret_reference label index (obj reference) = do
    path_value ←
        require_nonempty_string (get "path" reference)
          (concat (at_index label index ∷ ".path" ∷ []))
    key_value ←
        require_nonempty_string (get "key" reference) (concat (at_index label index ∷ ".key" ∷ []))
    on_some path_value λ p. on_some key_value λ k. key_reference (at_index label index) p k
  secret_reference label index v =
      report (concat (at_index label index ∷ " must be a mapping with path and key" ∷ []))

  unfoldable pub secret_references : Value → String → Check (Unit {0})
  unfolding concat secret_reference
  secret_references (arr (cons v vs)) label =
      each_indexed (secret_reference label) 0 (items (cons v vs))
  secret_references _ label = report (concat (label ∷ " must be a non-empty list" ∷ []))

  -- Whether a resource of the root Kustomization is a text, and where it leads.
  abbrev root_kustomization : FilePath
  root_kustomization = w.root ++ ("clusters" ∷ "home-server" ∷ "kustomization.yaml" ∷ [])

  abbrev resource_paths : List String → List FilePath
  resource_paths resources = map (λ (r : String). w.resolve (parent root_kustomization) r) resources

  abbrev roots_of : Value → Check (List FilePath)
  roots_of (arr vs) = pure (resource_paths (flat_map text_in (items vs)))
  roots_of _ = ok ("clusters/home-server/kustomization.yaml resources must be a list" ∷ [], [])

  abbrev roots_found : Option Fields → Check (List FilePath)
  unfolding get
  roots_found none = pure []
  roots_found (some root) = roots_of (get "resources" root)

  unfoldable pub registered_roots : Check (List FilePath)
  unfolding load_single_document roots_found
  registered_roots = do root ← caught (load_single_document w root_kustomization); roots_found root

abbrev below : FilePath → FilePath → Bool
unfolding relative_to
below path root = elim (relative_to path root) [ none ↦ false | some rest ↦ true ]

unfoldable pub is_registered : FilePath → List FilePath → Bool
unfolding path_eq below
is_registered path roots = any (λ root. path_eq path root || below path root) roots

abbrev text_list : Py Value → Py (List String)
text_list (raise e) = raise e
text_list (ok v) = ok (flat_map text_in (list_or_empty v))

-- `hostnames` of a document, if it is a route
abbrev document_hostnames : Value → Py (List String)
unfolding get_or is_kind
document_hostnames document =
    if is_kind "HTTPRoute" document
    then text_list
        (attr_or (get_or "spec" (obj end) (dict_or_empty document)) "hostnames" (arr nil))
    else ok []

abbrev hostnames_found : Option (List Value) → Py (List String)
unfolding document_hostnames
hostnames_found none = ok []
hostnames_found (some documents) = flat_map_py document_hostnames documents

unfoldable pub route_hostnames : Repository → FilePath → Check (List String)
unfolding hostnames_found
route_hostnames w path = do
  documents ← caught (w.load_documents path)
  run (hostnames_found documents)

-- list(nested_values(value, key))
unfoldable mutual
  pub nested_values : String → Value → List Value
  nested_values key (obj fs) = nested_fields key fs
  nested_values key (arr vs) = nested_items key vs
  nested_values key _ = []

  pub nested_fields : String → Fields → List Value
  nested_fields key end = []
  nested_fields key (field k v fs) =
      (if str_eq k key then v ∷ [] else []) ++ (nested_values key v ++ nested_fields key fs)

  pub nested_items : String → Items → List Value
  nested_items key nil = []
  nested_items key (cons v vs) = nested_values key v ++ nested_items key vs
