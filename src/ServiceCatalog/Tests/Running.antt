-- ===== src/ServiceCatalog/Tests/Running.antt =====
-- The commands, at a catalog of one descriptor.
use home_server.Common.{
  ◌∈◌, ◌≡◌, ◌↔◌, refl, contains, true, false, if◌then◌else◌, List, [], ◌∷◌, pos, none, Py, ok,
  rstrip, lstrip, is_space,
}
use home_server.Json.{Value, Fields, str, obj, to_fields, put}
use home_server.ServiceCatalog.Checks.{◌>>=◌}
use home_server.ServiceCatalog.Paths.{Repository, FilePath}
use home_server.ServiceCatalog.Routes.{allowlist_of, routes_of}
use home_server.ServiceCatalog.CarveOuts.{validate_public_path_carve_outs}
use home_server.ServiceCatalog.Rendered.{services, report_names}
use home_server.ServiceCatalog.Descriptors.{load_catalog}
use home_server.ServiceCatalog.Descriptors.Loaded.{Describes, load_catalog-Describes_iff}
use home_server.ServiceCatalog.Outputs.{Files, render}
use home_server.ServiceCatalog.Commands.{Kustomize, check_with, main}
use home_server.ServiceCatalog.Commands.Validated.{IsValidated, main_check-IsValidated}
use home_server.ServiceCatalog.Tests.Publishing.{files}
use home_server.ServiceCatalog.Tests.{
  repository, mapping, sequence, web, middleware, http_route, documents_at,
}

-- A repository with a descriptor of the service and the configuration of the cluster.
abbrev configuration : Value
configuration = mapping (
    ("apiVersion", str "catalog.reza.network/v1alpha1")
    ∷ ("kind", str "ClusterCatalog")
    ∷ ("metadata", mapping [])
    ∷ (
      "spec",
      mapping (
          ("domain", str "b.c")
          ∷ ("homepage", mapping (("groups", sequence (str "Media" ∷ [])) ∷ []))
          ∷ (
            "dns",
            mapping (
                ("splitHorizonAddress", str "10.0.0.1")
                ∷ ("extraPublicNames", sequence (str "b.c" ∷ []))
                ∷ []),
          )
          ∷ (
            "authentik",
            mapping (
                ("baseUrl", str "https://auth.b.c")
                ∷ ("namespace", str "apps")
                ∷ ("providerSecret", mapping (("manifest", str "m") ∷ ("name", str "n") ∷ []))
                ∷ []),
          )
          ∷ []),
    )
    ∷ [])

abbrev descriptor : Value
descriptor = mapping (
    ("apiVersion", str "catalog.reza.network/v1alpha1")
    ∷ ("kind", str "Service")
    ∷ ("metadata", mapping (("name", str "a") ∷ []))
    ∷ (
      "spec",
      mapping (
          ("name", str "A")
          ∷ ("workload", mapping (("namespace", str "apps") ∷ ("app", str "a") ∷ []))
          ∷ ("homepage", mapping (("enabled", Value.bool false) ∷ ("reason", str "api only") ∷ []))
          ∷ ("web", obj web)
          ∷ ("placement", mapping (("mode", str "floating") ∷ []))
          ∷ (
            "data",
            mapping (("class", str "stateless") ∷ ("protection", str "not-applicable") ∷ []),
          )
          ∷ ("observability", mapping (("mode", str "kubernetes") ∷ []))
          ∷ []),
    )
    ∷ [])

abbrev reads : FilePath → Py (List Value)
reads path =
    if contains path "cluster.yaml"
    then ok (configuration ∷ [])
    else if contains path "a.catalog.yaml"
    then ok (descriptor ∷ [])
    else if contains path "out"
    then ok (middleware ∷ http_route ∷ [])
    else documents_at path

abbrev home : Repository
home = record {
  root = repository.root;
  resolve = repository.resolve;
  is_file = repository.is_file;
  is_dir = repository.is_dir;
  exists = repository.exists;
  load_documents = reads;
  render = repository.render;
  has_yq = repository.has_yq;
  yq = repository.yq;
  upper = repository.upper;
  casefold = repository.casefold;
  replaces = repository.replaces;
  urlparse = repository.urlparse;
  quote = repository.quote;
  is_ip_address = repository.is_ip_address;
}

abbrev found : List FilePath
found = ("repo" ∷ "apps" ∷ "a" ∷ "a.catalog.yaml" ∷ []) ∷ []

abbrev found_service : Fields
unfolding put
found_service = put "_source" (str "apps/a/a.catalog.yaml") (
    put "path" (str "apps/a") (
      put "id" (str "a") (
        to_fields (
          ("name", str "A")
          ∷ ("workload", mapping (("namespace", str "apps") ∷ ("app", str "a") ∷ []))
          ∷ ("homepage", mapping (("enabled", Value.bool false) ∷ ("reason", str "api only") ∷ []))
          ∷ ("web", obj web)
          ∷ ("placement", mapping (("mode", str "floating") ∷ []))
          ∷ (
            "data",
            mapping (("class", str "stateless") ∷ ("protection", str "not-applicable") ∷ []),
          )
          ∷ ("observability", mapping (("mode", str "kubernetes") ∷ []))
          ∷ []))))

abbrev found_catalog : Fields
unfolding found_service
found_catalog = to_fields (
    ("version", Value.int (pos 2))
    ∷ ("domain", str "b.c")
    ∷ (
      "dns",
      mapping (
          ("splitHorizonAddress", str "10.0.0.1")
          ∷ ("extraPublicNames", sequence (str "b.c" ∷ []))
          ∷ []),
    )
    ∷ ("homepage", mapping (("groups", sequence (str "Media" ∷ [])) ∷ []))
    ∷ (
      "authentik",
      mapping (
          ("baseUrl", str "https://auth.b.c")
          ∷ ("namespace", str "apps")
          ∷ ("providerSecret", mapping (("manifest", str "m") ∷ ("name", str "n") ∷ []))
          ∷ []),
    )
    ∷ ("registrationExclusions", sequence [])
    ∷ ("services", sequence (obj found_service ∷ []))
    ∷ [])

loads : load_catalog home found ≡ ok found_catalog
unfolding load_catalog found_catalog
loads = refl

lists : services found_catalog ≡ ok (obj found_service ∷ [])
unfolding services found_catalog
lists = refl

load_catalog-Describes_iff_example :
    (obj found_service ∈ (obj found_service ∷ [])) ↔ Describes home found (obj found_service)
load_catalog-Describes_iff_example =
    load_catalog-Describes_iff home found found_catalog (obj found_service ∷ []) (obj found_service)
      loads lists

abbrev kustomize : Kustomize
kustomize = record {
  installed = true;
  failed = false;
  stderr = "";
  temporary = record { text = "/tmp/out"; path = "tmp" ∷ "out" ∷ [] };
}

-- The generated files, as a rendering leaves them.
abbrev after : Files
unfolding render found_catalog
after = (render home found_catalog files).files

passes : main home kustomize found after (check_with none) ≡ ok 0
unfolding main after ◌>>=◌ rstrip lstrip is_space allowlist_of routes_of report_names
    validate_public_path_carve_outs
passes = refl

main_check-IsValidated_example : IsValidated home kustomize found after none
main_check-IsValidated_example = main_check-IsValidated home kustomize found after none passes
