-- ===== src/ServiceCatalog/Rendered/Clean.antt =====
-- What a rendered cluster is like for which the check appends no error.
pub mod Guarded
pub mod Hosted
use home_server.Common.{
  ok-injective, ◌∈◌, kept-in, in-kept, contains, contains→in, in→contains, String, str_eq, eq_iff,
  ◌≡◌, refl, sym, ap, ◌∙◌, inl, inr, ◌⊎◌, Bool-cases, true, false, not, is_empty, List, [], ◌∷◌,
  flat_map, some, Py, ok,
}
use home_server.Common.Order.{in-sorted_set, sorted_set}
use home_server.Json.{
  Value, Fields, Items, null, bool, int, real, str, arr, obj, end, get, get_or, eq_str, in_set,
  items,
}
use home_server.ServiceCatalog.Checks.{
  report, done, silent_not, clean_run, result_of_pure, clean_bind, clean_each, ◌>>◌,
}
use home_server.ServiceCatalog.Routes.{Rule, Route, lookup, qualified, attr_or}
use home_server.ServiceCatalog.CarveOuts.{declared_path, validate_public_path_carve_outs}
use home_server.ServiceCatalog.CarveOuts.Exposure.Exact.{IsExact}
use home_server.ServiceCatalog.CarveOuts.Exposure.{carve_outs-IsExact_iff}
use home_server.ServiceCatalog.Rendered.{
  keys, without, common, domain_of, services, expected_webs, all_filters, route_allowlists,
  access_check, public_check, forward_check, route_check, route_access, route_login, guarded_route,
  undeclared, unrouted, report_names, guarded_routes, compare_routes, rendered_routes,
  validate_rendered_cluster,
}
use home_server.ServiceCatalog.Structure.Unique.Sound.{service_hostnames}
use home_server.ServiceCatalog.Rendered.Clean.Hosted.{expected_webs-complete}
use home_server.ServiceCatalog.Rendered.Clean.Guarded.{IsPrivate, IsGuarded, clean_route}

pub lookup→key :
    {A : Type 0} (k : String) (d : List (String × A)) (v : A) → lookup k d ≡ some v → k ∈ keys d
unfolding lookup
lookup→key k [] v h = cc
lookup→key k ((j, w) ∷ d) v h = elim (Bool-cases (str_eq j k)) [
  | inl e ↦ inl ((eq_iff j k).0 e)
  | inr e ↦ inr (lookup→key k d v (rw e at h))
]

pub key→lookup :
    {A : Type 0} (k : String) (d : List (String × A)) → k ∈ keys d → (v : A) × (lookup k d ≡ some v)
unfolding lookup
key→lookup k [] m = absurd m
key→lookup k ((j, w) ∷ d) m = elim (Bool-cases (str_eq j k)) [
  | inl e ↦ (w, rw e)
  | inr e ↦ elim (at_tail e m) [
    | inl same ↦ cc (e, (eq_iff j k).1 same)
    | inr n ↦ let (v, found) = key→lookup k d n in (v, rw e found)
  ]
]
  where
    at_tail : str_eq j k ≡ false → k ∈ (j ∷ keys d) → (j ≡ k) ⊎ (k ∈ keys d)
    at_tail e m = m

-- A report of the texts of one set that are not in another is empty only if all are.
none_missing :
    (name : String) (message : String → String) (xs ys : List String)
    → report_names message (without xs ys) ≡ done
    → name ∈ xs
    → name ∈ ys
unfolding report_names
none_missing name message xs ys h i = elim (Bool-cases (contains ys name)) [
  | inl e ↦ contains→in ys name e
  | inr e ↦
      let absent : name ∈ without xs ys = in-kept (λ x. not (contains ys x)) name xs i (rw e) in
      absurd (
        reported (message name) (
          clean_each (λ x. report (message x)) (sorted_set (without xs ys)) h name
            (in-sorted_set name (without xs ys) absent)))
]
  where
    reported : (message : String) → ¬ (report message ≡ done)
    reported message h = cc

module _ (render : Value → String) (allowlists : List String) where
  clean_guarded :
      (actual : List (String × Route)) (expected : List (String × Fields))
      → guarded_routes render allowlists actual expected ≡ done
      → (hostname : String) → hostname ∈ keys actual
      → hostname ∈ keys expected
      → guarded_route render allowlists hostname (lookup hostname expected) (lookup hostname actual)
        ≡ done
  unfolding guarded_routes
  clean_guarded actual expected h hostname k j =
      let check =
        λ (x : String). guarded_route render allowlists x (lookup x expected) (lookup x actual) in
      let shared : hostname ∈ common (keys actual) (keys expected) =
        in-kept (λ x. contains (keys expected) x) hostname (keys actual) k
          (in→contains (keys expected) hostname j) in
      clean_each check (sorted_set (common (keys actual) (keys expected))) h hostname
        (in-sorted_set hostname (common (keys actual) (keys expected)) shared)

  compare_routes-IsGuarded :
      (actual : List (String × Route)) (expected : List (String × Fields))
      → compare_routes render allowlists actual expected ≡ done
      → (hostname : String)
      → ((route : Route)
          → lookup hostname actual ≡ some route
          → (web : Fields) × (lookup hostname expected ≡ some web)
            × IsGuarded render allowlists web route)
        × ((web : Fields)
            → lookup hostname expected ≡ some web
            → (route : Route) × (lookup hostname actual ≡ some route))
  unfolding compare_routes
  compare_routes-IsGuarded actual expected h hostname =
      let (u, missing, more) =
        clean_bind (report_names undeclared (without (keys actual) (keys expected))) _ tt h in
      let (w, unmet, both) =
        clean_bind (report_names unrouted (without (keys expected) (keys actual)))
          (λ w. guarded_routes render allowlists actual expected) tt more in
      (
        λ route found.
            let k = lookup→key hostname actual route found in
            let j = none_missing hostname undeclared (keys actual) (keys expected) missing k in
            let (web, entry) = key→lookup hostname expected j in
            (
              web,
              entry,
              clean_route render allowlists hostname web route
                  (rw (entry, found) at (clean_guarded actual expected both hostname k j)),
            ),
        λ web found. key→lookup hostname actual (
            none_missing hostname unrouted (keys expected) (keys actual) unmet
              (lookup→key hostname expected web found)),
      )

module _ (render : Value → String) (catalog : Fields) (documents : Py (List Value)) where
  pub clean_cluster :
      validate_rendered_cluster render catalog documents ≡ done
      → (actual : List (String × Route)) × (allowlists : List String) × (listed : List Value)
        × (rendered_routes render documents (domain_of (get "domain" catalog))
            ≡ ok ([], (actual, allowlists)))
        × (services catalog ≡ ok listed)
        × (compare_routes render allowlists actual (expected_webs [] listed) ≡ done)
  unfolding validate_rendered_cluster
  clean_cluster h =
      let ((actual, allowlists), found, rest) =
        clean_bind (rendered_routes render documents (domain_of (get "domain" catalog))) _ tt h in
      let (listed, registered, last) = clean_run (services catalog) _ tt rest in
      (actual, allowlists, listed, found, registered, last)

  module _ (actual : List (String × Route)) (allowlists : List String) (listed : List Value)
      (clean : validate_rendered_cluster render catalog documents ≡ done)
      (routes : rendered_routes render documents (domain_of (get "domain" catalog))
        ≡ ok ([], (actual, allowlists)))
      (cataloged : services catalog ≡ ok listed) where
    compared_clean : compare_routes render allowlists actual (expected_webs [] listed) ≡ done
    compared_clean =
        let (some_actual, some_allowlists, some_listed, found, registered, last) =
          clean_cluster clean in
        let same_routes : (some_actual, some_allowlists) ≡ (actual, allowlists) =
          result_of_pure (some_actual, some_allowlists) (actual, allowlists) (sym found ∙ routes) in
        let same_listed : some_listed ≡ listed = ok-injective (sym registered ∙ cataloged) in
        rw
          (
            ← same_listed,
            ← (ap (λ (x : List (String × Route) × List String). x.0) same_routes),
            ← (ap (λ (x : List (String × Route) × List String). x.1) same_routes),
          )
          last

    -- The entry of `expected` for a hostname that has a route guards the route.
    pub guarding_entry :
        (hostname : String) (route : Route)
        → lookup hostname actual ≡ some route
        → (web : Fields) × (lookup hostname (expected_webs [] listed) ≡ some web)
          × IsGuarded render allowlists web route
    guarding_entry hostname route found =
        (compare_routes-IsGuarded render allowlists actual (expected_webs [] listed) compared_clean
            hostname).0
          route found

    -- When the check of a rendered cluster appends no error, each hostname that is given by the web part of
    -- a service of the catalog has a route.
    pub validate_rendered_cluster_complete :
        (hostname : String)
        → hostname ∈ flat_map service_hostnames listed
        → (route : Route) × (lookup hostname actual ≡ some route)
    validate_rendered_cluster_complete hostname m =
        let (web, entry) =
          key→lookup hostname (expected_webs [] listed)
            (expected_webs-complete hostname [] listed (inr m)) in
        (compare_routes-IsGuarded render allowlists actual (expected_webs [] listed) compared_clean
            hostname).1
          web entry
