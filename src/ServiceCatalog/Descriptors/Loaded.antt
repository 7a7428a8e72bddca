-- ===== src/ServiceCatalog/Descriptors/Loaded.antt =====
-- Which services a loaded catalog lists.
use home_server.Common.{
  ◌∈◌, in-kept, kept-in, in-flat_map, collected, collected_from, returned_by_bind, ok-injective,
  ◌≡◌, ◌↔◌, refl, sym, ap, ◌∙◌, inl, inr, true, List, [], ◌∷◌, flat_map, flat_map_py, is_empty, ok,
}
use home_server.Common.Sorts.{sort_by-in, in-sort_by}
use home_server.Json.{Value, Fields, obj, get}
use home_server.Json.Structure.{items-to_items}
use home_server.ServiceCatalog.Paths.{Repository, FilePath, path_lt}
use home_server.ServiceCatalog.Rendered.{services}
use home_server.ServiceCatalog.Descriptors.Filed.{IsFiled, load_descriptor-IsFiled}
use home_server.ServiceCatalog.Descriptors.{
  Entry, service, exclusion, service_of, load_config, load_descriptor, loaded, descriptor_paths,
  load_catalog, catalog_of, failed_if,
}

-- A descriptor that was found adds the service, with its own name as the id and with its place.
pub record Describes (w : Repository) (found : List FilePath) (v : Value) : Type 0 where
  pub path : FilePath
  pub among : path ∈ found
  pub is_file : w.is_file path ≡ true
  pub spec : Fields
  pub loads : load_descriptor w path ≡ ok (service spec)
  pub filed : IsFiled w path spec
  pub same : obj spec ≡ v

services-in :
    (v : Value) (entries : List Entry)
    → v ∈ flat_map service_of entries
    → (spec : Fields) × (service spec ∈ entries) × (obj spec ≡ v)
services-in v [] m = absurd m
services-in v (service spec ∷ entries) (inl e) = (spec, inl refl, e)
services-in v (service spec ∷ entries) (inr m) =
    let (s, i, e) = services-in v entries m in (s, inr i, e)
services-in v (exclusion spec ∷ entries) m =
    let (s, i, e) = services-in v entries m in (s, inr i, e)

module _ (w : Repository) (found : List FilePath) (spec : Fields) (entries : List Entry)
    (listed : List Value) (run : flat_map_py (loaded w) (descriptor_paths w found) ≡ ok entries)
    (lists : services (catalog_of w spec entries) ≡ ok listed) (v : Value) where
  cataloged : flat_map service_of entries ≡ listed
  unfolding services catalog_of get
  cataloged = sym (items-to_items (flat_map service_of entries)) ∙ ok-injective lists

  of_listed : v ∈ listed → Describes w found v
  unfolding descriptor_paths loaded
  of_listed m =
      let (s, i, same) = services-in v entries (rw (sym cataloged) at m) in
      let (path, one, at, runs, j) =
        collected_from (loaded w) (service s) (descriptor_paths w found) entries run i in
      let (entry, rest, loads) = returned_by_bind _ (load_descriptor w path) one (sym runs) in
      let (among, is_file) = kept-in w.is_file path found (sort_by-in path_lt path _ at) in
      let here : service s ∈ (entry ∷ []) = rw (← ok-injective rest) at j in
      elim here [
        | inl e ↦ record {
          path = path;
          among = among;
          is_file = is_file;
          spec = s;
          loads = loads ∙ ap (λ (x : Entry). ok x) e;
          filed = load_descriptor-IsFiled w path s (loads ∙ ap (λ (x : Entry). ok x) e);
          same = same;
        }
        | inr n ↦ absurd n
      ]

  to_listed : Describes w found v → v ∈ listed
  unfolding descriptor_paths loaded
  to_listed d =
      let at = in-sort_by path_lt d.path _ (in-kept w.is_file d.path found d.among d.is_file) in
      let (some_entries, runs, up) =
        collected (loaded w) d.path (descriptor_paths w found) entries run at in
      let here : loaded w d.path ≡ ok (service d.spec ∷ []) = rw d.loads in
      let same : service d.spec ∷ [] ≡ some_entries = ok-injective (sym here ∙ runs) in
      let among = up (service d.spec) (rw (← same) (inl refl)) in
      rw (← cataloged, ← d.same)
        (in-flat_map service_of (obj d.spec) (service d.spec) entries among (inl refl))

-- If a catalog is loaded, its services are those that the descriptors among the found files describe, each
-- with the `metadata.name` of its descriptor's document, which is not empty, as the id, and with the
-- descriptor's place.
pub load_catalog-Describes_iff :
    (w : Repository) (found : List FilePath) (catalog : Fields) (listed : List Value) (v : Value)
    → load_catalog w found ≡ ok catalog
    → services catalog ≡ ok listed
    → (v ∈ listed) ↔ Describes w found v
unfolding load_catalog
load_catalog-Describes_iff w found catalog listed v h lists =
    let (spec, rest, config) = returned_by_bind _ (load_config w) catalog (sym h) in
    let (u, more, any) =
      returned_by_bind _ (failed_if (is_empty (descriptor_paths w found)) _) catalog (sym rest) in
    let (entries, last, run) =
      returned_by_bind _ (flat_map_py (loaded w) (descriptor_paths w found)) catalog (sym more) in
    let all : services (catalog_of w spec entries) ≡ ok listed = rw (ok-injective last) lists in
    (
      of_listed w found spec entries listed run all v,
      to_listed w found spec entries listed run all v,
    )
