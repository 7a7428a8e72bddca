-- ===== src/ServiceCatalog/Tests/Checking.antt =====
-- The properties of the checks, at the catalog of one service.
use home_server.Common.{
  ◌∈◌, ◌≡◌, ◌↔◌, inl, flat_map, refl, List, [], ◌∷◌, some, Py, ok, rstrip, lstrip, is_space,
}
use home_server.Json.{Value, str, get}
use home_server.ServiceCatalog.Checks.{done, ◌>>=◌}
use home_server.ServiceCatalog.Routes.{Rule, Route, lookup, allowlist_of, routes_of}
use home_server.ServiceCatalog.CarveOuts.{carve_outs, validate_public_path_carve_outs}
use home_server.ServiceCatalog.CarveOuts.Exposure.Exact.{IsExact}
use home_server.ServiceCatalog.CarveOuts.Exposure.{carve_outs-IsExact_iff}
use home_server.ServiceCatalog.Rendered.{
  services, rendered_routes, report_names, validate_rendered_cluster,
}
use home_server.ServiceCatalog.Structure.Unique.Sound.{service_hostnames}
use home_server.ServiceCatalog.Rendered.Clean.{validate_rendered_cluster_complete}
use home_server.ServiceCatalog.Structure.{validate_catalog_structure, registration_check}
use home_server.ServiceCatalog.Structure.Unique.{
  IsSoundCatalog, validate_catalog_structure-IsSoundCatalog,
}
use home_server.ServiceCatalog.Structure.Registration.{
  IsRegistered, registration_check-IsRegistered_iff,
}
use home_server.ServiceCatalog.Tests.{catalog, service, repository, http_route, middleware, app}

structure : validate_catalog_structure repository catalog ≡ done
unfolding validate_catalog_structure ◌>>=◌ rstrip lstrip is_space
structure = refl

abbrev rules : List Rule
rules =
    record { paths = []; filters = "lan" ∷ [] } ∷ record { paths = "/v1" ∷ []; filters = [] } ∷ []

abbrev route : Route
route = record { route = "apps/a"; namespace = str "apps"; rules = rules }

abbrev documents : Py (List Value)
documents = ok (middleware ∷ http_route ∷ [])

cluster : validate_rendered_cluster repository.render catalog documents ≡ done
unfolding validate_rendered_cluster ◌>>=◌ allowlist_of routes_of report_names
    validate_public_path_carve_outs
cluster = refl

routes :
    rendered_routes repository.render documents "b.c"
    ≡ ok ([], ((("a.b.c", route) ∷ []), "apps/lan" ∷ []))
unfolding rendered_routes ◌>>=◌ allowlist_of routes_of
routes = refl

cataloged : services catalog ≡ ok (service ∷ [])
unfolding services
cataloged = refl

carve_outs-IsExact_iff_example :
    (carve_outs repository.render "a.b.c" (str "lan") rules (str "/v1" ∷ []) ≡ done)
    ↔ IsExact "lan" rules (str "/v1" ∷ [])
carve_outs-IsExact_iff_example =
    carve_outs-IsExact_iff repository.render "a.b.c" "lan" rules (str "/v1" ∷ [])

hosted_name : "a.b.c" ∈ flat_map service_hostnames (service ∷ [])
unfolding get
hosted_name = inl refl

validate_rendered_cluster_complete_example :
    (r : Route) × (lookup "a.b.c" (("a.b.c", route) ∷ []) ≡ some r)
unfolding get
validate_rendered_cluster_complete_example =
    validate_rendered_cluster_complete repository.render catalog documents (("a.b.c", route) ∷ [])
      ("apps/lan" ∷ []) (service ∷ []) cluster routes cataloged "a.b.c" hosted_name

validate_catalog_structure-IsSoundCatalog_example : IsSoundCatalog (service ∷ [])
validate_catalog_structure-IsSoundCatalog_example =
    validate_catalog_structure-IsSoundCatalog repository catalog (service ∷ []) structure cataloged

registration_check-IsRegistered_iff_example :
    (registration_check repository (app ∷ []) [] (app ∷ []) ≡ done)
    ↔ IsRegistered (app ∷ []) [] (app ∷ [])
registration_check-IsRegistered_iff_example =
    registration_check-IsRegistered_iff repository (app ∷ []) [] (app ∷ [])

-- A public service without authentication, an undeclared open rule, and a repeated hostname are errors.
open_rule :
    carve_outs repository.render "a.b.c" (str "lan") rules []
    ≡ ok ("a.b.c private route rule 1 does not apply access middleware lan" ∷ [], tt)
unfolding carve_outs ◌>>=◌
open_rule = refl
