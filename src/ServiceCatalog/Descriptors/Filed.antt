-- ===== src/ServiceCatalog/Descriptors/Filed.antt =====
-- How a service of a descriptor tells where it stands.
use home_server.Common.{
  returned_by_bind, ok-injective, ◌≡◌, ◌≢◌, refl, sym, ◌∙◌, inl, inr, Bool-cases, String, ◌≢◌, ap,
  ok, concat, [], ◌∷◌, not,
}
use home_server.Json.{Value, Fields, null, bool, int, real, str, arr, obj, get, put, eq_str}
use home_server.Json.Entries.{get-put, get-put_other}
use home_server.ServiceCatalog.Paths.{Repository, FilePath, relative, parent}
use home_server.ServiceCatalog.References.{load_single_document}
use home_server.ServiceCatalog.Descriptors.{
  document_keys, catalog_api_version, service, Entry, folder, service_entry, entry_of,
  load_descriptor, known_only, failed_if, both, nonempty_name,
}

-- A service has the `metadata.name` of its descriptor's document as its id, which is not empty, and the
-- descriptor's place.
pub record IsFiled (w : Repository) (path : FilePath) (spec : Fields) : Type 0 where
  pub document : Fields
  pub read : load_single_document w path ≡ ok document
  pub metadata : Fields
  pub described : get "metadata" document ≡ obj metadata
  pub service_id : String
  pub titled : get "name" metadata ≡ str service_id
  pub some_name : service_id ≢ ""
  pub named : get "id" spec ≡ str service_id
  pub placed : get "path" spec ≡ str (relative w (parent path))
  pub sourced : get "_source" spec ≡ str (relative w path)

-- The parts of a service that `service_entry` sets.
abbrev Placed : Repository → FilePath → String → Fields → Type 0
unfolding get relative
Placed w path service_id spec =
    (get "id" spec ≡ str service_id)
    × (get "path" spec ≡ str (relative w (parent path)))
    × (get "_source" spec ≡ str (relative w path))

nonempty_name-str :
    (name : String) (v : Value) (service_id : String)
    → nonempty_name name v ≡ ok service_id
    → (v ≡ str service_id) × (service_id ≢ "")
unfolding nonempty_name
nonempty_name-str name (str (String.◌∷◌ c s)) service_id h =
    let same : String.◌∷◌ c s ≡ service_id = ok-injective h in (ap str same, λ e. cc)
nonempty_name-str name (str String.[]) service_id h = cc
nonempty_name-str name null service_id h = cc
nonempty_name-str name (bool b) service_id h = cc
nonempty_name-str name (int n) service_id h = cc
nonempty_name-str name (real t) service_id h = cc
nonempty_name-str name (arr vs) service_id h = cc
nonempty_name-str name (obj fs) service_id h = cc

both-obj :
    (name : String) (metadata spec : Value) (parts : Fields × Fields)
    → both name metadata spec ≡ ok parts
    → metadata ≡ obj parts.0
unfolding both
both-obj name (obj metadata) (obj spec) parts h =
    ap (λ (p : Fields × Fields). obj p.0) (ok-injective h)
both-obj name (obj metadata) null parts h = cc
both-obj name (obj metadata) (bool b) parts h = cc
both-obj name (obj metadata) (int n) parts h = cc
both-obj name (obj metadata) (real t) parts h = cc
both-obj name (obj metadata) (str s) parts h = cc
both-obj name (obj metadata) (arr vs) parts h = cc
both-obj name null spec parts h = cc
both-obj name (bool b) spec parts h = cc
both-obj name (int n) spec parts h = cc
both-obj name (real t) spec parts h = cc
both-obj name (str s) spec parts h = cc
both-obj name (arr vs) spec parts h = cc

module _ (w : Repository) (path : FilePath) where
  service_entry-Placed :
      (service_id : String) (spec : Fields)
      → Placed w path service_id (service_entry w path service_id spec)
  unfolding service_entry folder Placed
  service_entry-Placed service_id spec =
      let first = put "id" (str service_id) spec in
      let second = put "path" (str (relative w (parent path))) first in
      (
        get-put_other "_source" "id" _ second refl
            ∙ get-put_other "path" "id" _ first refl
            ∙ get-put "id" (str service_id) spec,
        get-put_other "_source" "path" _ second refl ∙ get-put "path" _ first,
        get-put "_source" _ second,
      )

  entry_of-Placed :
      (service_id : String) (given spec : Fields) (kind : Value)
      → entry_of w path service_id given kind ≡ ok (service spec)
      → Placed w path service_id spec
  unfolding entry_of
  entry_of-Placed service_id given spec kind h = elim (Bool-cases (eq_str kind "Service")) [
    | inl e ↦
        let same = same_fields (ok-injective (rw e at h)) in
        rw (← same) (service_entry-Placed service_id given)
    | inr e ↦ elim (Bool-cases (eq_str kind "CatalogExclusion")) [
      | inl f ↦ cc (rw (e, f) at h)
      | inr f ↦ cc (rw (e, f) at h)
    ]
  ]
    where
      same_fields : {a b : Fields} → Path Entry (service a) (service b) → a ≡ b
      same_fields h = cc

  pub load_descriptor-IsFiled :
      (spec : Fields) → load_descriptor w path ≡ ok (service spec) → IsFiled w path spec
  unfolding load_descriptor Placed
  load_descriptor-IsFiled spec h =
      let name = relative w path in
      let (document, h, read) =
        returned_by_bind _ (load_single_document w path) (service spec) (sym h) in
      let (u, h, a) =
        returned_by_bind _
          (known_only document_keys (concat (name ∷ " contains unknown top-level field(s): " ∷ []))
            document)
          (service spec) (sym h) in
      let (u, h, a) =
        returned_by_bind _
          (failed_if (not (eq_str (get "apiVersion" document) catalog_api_version))
            (name ∷ " apiVersion must be " ∷ catalog_api_version ∷ []))
          (service spec) (sym h) in
      let (parts, h, split) =
        returned_by_bind _ (both name (get "metadata" document) (get "spec" document))
          (service spec) (sym h) in
      let (u, h, a) =
        returned_by_bind _
          (known_only ("name" ∷ []) (concat (name ∷ " metadata contains unknown field(s): " ∷ []))
            parts.0)
          (service spec) (sym h) in
      let (service_id, h, given) =
        returned_by_bind _ (nonempty_name name (get "name" parts.0)) (service spec) (sym h) in
      let (named, placed, sourced) =
        entry_of-Placed service_id parts.1 spec (get "kind" document) h in
      let (titled, some_name) = nonempty_name-str name (get "name" parts.0) service_id given in
      record {
        document = document;
        read = read;
        metadata = parts.0;
        described = both-obj name (get "metadata" document) (get "spec" document) parts split;
        service_id = service_id;
        titled = titled;
        some_name = some_name;
        named = named;
        placed = placed;
        sourced = sourced;
      }
