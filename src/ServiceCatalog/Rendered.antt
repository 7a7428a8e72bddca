-- ===== src/ServiceCatalog/Rendered.antt =====
-- scripts/service_catalog.py: `rendered_routes` and `validate_rendered_cluster`.
pub mod Clean
use home_server.Common.{
  String, str_eq, concat, Bool, true, false, not, List, [], ◌∷◌, map, flat_map, flat_map_py,
  contains, kept, is_empty, Option, none, some, if◌then◌else◌, Py, ok, raise, Error, manifest_error,
  catalog_error,
}
use home_server.Common.Order.{sorted_set}
use home_server.Json.{
  Value, Fields, str, arr, obj, end, null, get, get_or, eq_str, in_set, items, to_items, is_str,
  is_dict, truthy, dict_or_empty, str_of,
}
use home_server.ServiceCatalog.Checks.{
  Check, pure, run, report, report_if, for_each, done, ◌>>=◌, ◌>>◌,
}
use home_server.ServiceCatalog.Routes.{
  Rule, Route, assign, lookup, attr_or, text_in, qualified, allowlist_of, routes_of,
}
use home_server.ServiceCatalog.CarveOuts.{validate_public_path_carve_outs}

abbrev pub keys {ℓ} : {A : Type ℓ} → List (String × A) → List String
keys [] = []
keys ((k, v) ∷ d) = k ∷ keys d

-- a - b and a & b of sets
abbrev pub without : List String → List String → List String
without xs ys = kept (λ x. not (contains ys x)) xs

abbrev pub common : List String → List String → List String
common xs ys = kept (λ x. contains ys x) xs

-- The routes by hostname; a hostname that is there already is an error, and its last route counts.
unfoldable pub collect_routes :
    List (String × Route) → List (String × Route) → Check (List (String × Route))
unfolding concat assign
collect_routes result [] = pure result
collect_routes result ((hostname, route) ∷ found) = do
  report_if (contains (keys result) hostname)
      ("rendered cluster has duplicate HTTPRoute hostname " ∷ hostname ∷ [])
  collect_routes (assign hostname route result) found

-- services(catalog)
abbrev listed : Value → Py (List Value)
listed (arr vs) = ok (items vs)
listed _ = raise (catalog_error "catalog.services must be a list")

unfoldable pub services : Fields → Py (List Value)
unfolding get
services catalog = listed (get "services" catalog)

-- The dictionary `expected`: the web mapping of each service that has a hostname.
abbrev pub hosted : Fields → List String → List (String × Fields) → List (String × Fields)
unfolding assign
hosted web [] result = result
hosted web (hostname ∷ more) result = assign hostname web result

unfoldable pub expected_webs : List (String × Fields) → List Value → List (String × Fields)
unfolding get hosted
expected_webs result [] = result
expected_webs result (service ∷ others) =
    let web = dict_or_empty (get "web" (dict_or_empty service)) in
    expected_webs (hosted web (text_in (get "hostname" web)) result) others

abbrev pub undeclared : String → String
unfolding concat
undeclared hostname =
    concat ("rendered HTTPRoute hostname is missing from the service catalog: " ∷ hostname ∷ [])

abbrev pub unrouted : String → String
unfolding concat
unrouted hostname = concat ("catalog web hostname has no rendered HTTPRoute: " ∷ hostname ∷ [])

unfoldable pub report_names : (String → String) → List String → Check (Unit {0})
unfolding sorted_set
report_names message names = for_each (λ name. report (message name)) (sorted_set names)

-- The domain that the check takes for the catalog's.
abbrev pub domain_of : Value → String
domain_of (str s) = if str_eq s "" then "reza.network" else s
domain_of _ = "reza.network"

module _ (render : Value → String) where
  unfoldable pub rendered_routes :
      Py (List Value) → String → Check (List (String × Route) × List String)
  unfolding collect_routes
  rendered_routes (raise (manifest_error message)) domain = ok (message ∷ [], ([], []))
  rendered_routes (raise e) domain = raise e
  rendered_routes (ok documents) domain = do
    allowlists ← run (flat_map_py (allowlist_of render) documents)
    found ← run (flat_map_py (routes_of render domain) documents)
    routes ← collect_routes [] found
    pure (routes, allowlists)

  module _ (allowlists : List String) where
    abbrev pub all_filters : Route → List String
    all_filters route = flat_map (λ (rule : Rule). rule.filters) route.rules

    -- The names of the route's filters that are IP allow-lists.
    unfoldable pub route_allowlists : Route → List String
    unfolding qualified
    route_allowlists route =
        kept (λ name. contains allowlists (qualified render route.namespace (str name)))
          (all_filters route)

    -- The middleware of a private route.
    unfoldable pub access_check : String → Value → Route → Check (Unit {0})
    unfolding concat str_of route_allowlists
    access_check hostname middleware route = do
      known ← run (in_set middleware (all_filters route))
      if known
          then (run (in_set middleware (route_allowlists route)) >>= λ ranged.
              report_if (not ranged) (
                hostname
                ∷ " declared access middleware "
                ∷ str_of render middleware
                ∷ " is not an IP allow-list"
                ∷ []))
          else report (
              concat (
                hostname
                ∷ " private route does not reference access middleware "
                ∷ str_of render middleware
                ∷ []))

    unfoldable pub public_check : String → Fields → Route → Check (Unit {0})
    unfolding concat get route_allowlists sorted_set
    public_check hostname web route = do
      report_if (not (is_empty (route_allowlists route))) (
          hostname
          ∷ " is cataloged public but its rendered route uses IP allow-list(s): "
          ∷ render (arr (to_items (map str (sorted_set (route_allowlists route)))))
          ∷ [])
      report_if (truthy (get "publicPaths" web)) (
          hostname
          ∷ " is cataloged public and cannot declare publicPaths; the whole route is already Internet-reachable"
          ∷ [])

    unfoldable pub forward_check : String → Value → Route → Check (Unit {0})
    unfolding concat str_of
    forward_check hostname middleware route = do
      known ← run (in_set middleware (all_filters route))
      report_if (not known) (
          hostname
          ∷ " forward-auth route does not reference middleware "
          ∷ str_of render middleware
          ∷ [])

    unfoldable pub route_access : String → Fields → Route → Check (Unit {0})
    unfolding get access_check public_check
    route_access hostname web route =
        if eq_str (get "visibility" web) "private"
        then (access_check hostname (get "accessMiddleware" web) route
            >> validate_public_path_carve_outs render hostname (get "accessMiddleware" web)
                route.rules web)
        else public_check hostname web route

    unfoldable pub route_login : String → Fields → Route → Check (Unit {0})
    unfolding get get_or forward_check
    route_login hostname web route = do
      mode ← run (attr_or (get_or "auth" (obj end) web) "mode" null)
      if eq_str mode "forward-auth"
          then forward_check hostname
              (get "middleware" (dict_or_empty (get_or "auth" (obj end) web))) route
          else done

    -- One hostname that has both a route and an entry in the catalog.
    unfoldable pub route_check : String → Fields → Route → Check (Unit {0})
    unfolding route_access route_login
    route_check hostname web route =
        route_access hostname web route >> route_login hostname web route

    abbrev pub guarded_route : String → Option Fields → Option Route → Check (Unit {0})
    unfolding route_check
    guarded_route hostname (some web) (some route) = route_check hostname web route
    guarded_route hostname _ _ = done

    -- The loop over the hostnames that both have.
    unfoldable pub guarded_routes :
        List (String × Route) → List (String × Fields) → Check (Unit {0})
    unfolding sorted_set lookup guarded_route
    guarded_routes actual expected =
        for_each
          (λ hostname. guarded_route hostname (lookup hostname expected) (lookup hostname actual))
          (sorted_set (common (keys actual) (keys expected)))

    unfoldable pub compare_routes :
        List (String × Route) → List (String × Fields) → Check (Unit {0})
    unfolding undeclared unrouted guarded_routes
    compare_routes actual expected = do
      report_names undeclared (without (keys actual) (keys expected))
      report_names unrouted (without (keys expected) (keys actual))
      guarded_routes actual expected

  unfoldable pub validate_rendered_cluster : Fields → Py (List Value) → Check (Unit {0})
  unfolding get rendered_routes services expected_webs compare_routes
  validate_rendered_cluster catalog documents = do
    (actual, allowlists) ← rendered_routes documents (domain_of (get "domain" catalog))
    listed ← run (services catalog)
    compare_routes allowlists actual (expected_webs [] listed)
