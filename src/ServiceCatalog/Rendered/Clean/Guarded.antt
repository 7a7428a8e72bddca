-- ===== src/ServiceCatalog/Rendered/Clean/Guarded.antt =====
-- What a guarded route is, and that a route without errors is one.
use home_server.Common.{
  ◌∈◌, kept-in, in-kept, contains, String, ◌≡◌, inl, inr, Bool-cases, true, false, is_empty, List,
  [], ◌∷◌, flat_map, ok,
}
use home_server.Json.{
  Value, Fields, Items, null, str, arr, obj, end, get, get_or, eq_str, in_set, items,
}
use home_server.Json.Structure.{in_set-str}
use home_server.ServiceCatalog.Checks.{done, silent_not, clean_run, clean_bind, ◌>>◌}
use home_server.ServiceCatalog.Routes.{Rule, Route, qualified, attr_or}
use home_server.ServiceCatalog.CarveOuts.{declared_path, validate_public_path_carve_outs}
use home_server.ServiceCatalog.CarveOuts.Exposure.Exact.{IsExact}
use home_server.ServiceCatalog.CarveOuts.Exposure.{carve_outs-IsExact_iff}
use home_server.ServiceCatalog.Rendered.{
  all_filters, route_allowlists, access_check, public_check, forward_check, route_check,
  route_access, route_login,
}

module _ (render : Value → String) (allowlists : List String) where
  -- The access middleware of a private route is one of its filters and an IP allow-list, and the rules
  -- without it expose exactly the declared paths.
  pub record IsPrivate (web : Fields) (route : Route) : Type 0 where
    pub middleware : String
    pub declared : get "accessMiddleware" web ≡ str middleware
    pub applied : middleware ∈ all_filters render allowlists route
    pub restricts : contains allowlists (qualified render route.namespace (str middleware)) ≡ true
    pub exact_list :
        (vs : Items)
        → get "publicPaths" web ≡ arr vs
        → IsExact middleware route.rules (flat_map declared_path (items vs))
    pub exact_none : get "publicPaths" web ≡ null → IsExact middleware route.rules []

  pub record IsGuarded (web : Fields) (route : Route) : Type 0 where
    pub private : eq_str (get "visibility" web) "private" ≡ true → IsPrivate web route
    pub public :
        eq_str (get "visibility" web) "private" ≡ false
        → (name : String) → name ∈ all_filters render allowlists route
        → contains allowlists (qualified render route.namespace (str name)) ≡ false
    pub login :
        (auth : Fields)
        → get_or "auth" (obj end) web ≡ obj auth
        → eq_str (get "mode" auth) "forward-auth" ≡ true
        → (m : String) × (get "middleware" auth ≡ str m) × (m ∈ all_filters render allowlists route)

  clean_access :
      (hostname : String) (v : Value) (route : Route)
      → access_check render allowlists hostname v route ≡ done
      → (m : String) × (v ≡ str m)
        × (m ∈ all_filters render allowlists route)
        × (contains allowlists (qualified render route.namespace (str m)) ≡ true)
  unfolding access_check route_allowlists
  clean_access hostname v route h =
      let (known, found, rest) =
        clean_run (in_set v (all_filters render allowlists route)) _ tt h in
      elim (Bool-cases known) [
        | inl yes_known ↦
            let (ranged, looked, last) =
              clean_run (in_set v (route_allowlists render allowlists route)) _ tt
                (rw yes_known at rest) in
            let all : ranged ≡ true = silent_not ranged _ last in
            let (m, text, i) =
              in_set-str v (route_allowlists render allowlists route) (rw all at looked) in
            let (j, r) = kept-in _ m (all_filters render allowlists route) i in (m, text, j, r)
        | inr unknown ↦ cc (rw unknown at rest)
      ]

  clean_public :
      (hostname : String) (web : Fields) (route : Route)
      → public_check render allowlists hostname web route ≡ done
      → (name : String) → name ∈ all_filters render allowlists route
      → contains allowlists (qualified render route.namespace (str name)) ≡ false
  unfolding public_check route_allowlists
  clean_public hostname web route h name m =
      let (u, first, rest) = clean_bind _ _ tt h in
      let no_one : is_empty (route_allowlists render allowlists route) ≡ true =
        silent_not _ _ first in
      elim (Bool-cases (contains allowlists (qualified render route.namespace (str name)))) [
        | inl e ↦ absurd (
            not_one (route_allowlists render allowlists route) no_one
              (in-kept _ name (all_filters render allowlists route) m e))
        | inr e ↦ e
      ]
    where
      not_one : (xs : List String) → is_empty xs ≡ true → ¬ (name ∈ xs)
      not_one [] e i = i
      not_one (x ∷ xs) e i = cc

  clean-IsExact :
      (hostname m : String) (rules : List Rule) (web : Fields)
      → validate_public_path_carve_outs render hostname (str m) rules web ≡ done
      → ((vs : Items)
          → get "publicPaths" web ≡ arr vs
          → IsExact m rules (flat_map declared_path (items vs)))
        × (get "publicPaths" web ≡ null → IsExact m rules [])
  unfolding validate_public_path_carve_outs
  clean-IsExact hostname m rules web h = (
    λ vs e.
        (carve_outs-IsExact_iff render hostname m rules (flat_map declared_path (items vs))).0
          (rw e at h),
    λ e. (carve_outs-IsExact_iff render hostname m rules []).0 (rw e at h),
  )

  clean-IsPrivate :
      (hostname : String) (web : Fields) (route : Route)
      → (access_check render allowlists hostname (get "accessMiddleware" web) route
          >> validate_public_path_carve_outs render hostname
              (get "accessMiddleware" web)
              route.rules
              web)
        ≡ done
      → IsPrivate web route
  clean-IsPrivate hostname web route h =
      let (u, first, rest) = clean_bind _ _ tt h in
      let (m, text, i, r) = clean_access hostname (get "accessMiddleware" web) route first in
      let (list, nothing) = clean-IsExact hostname m route.rules web (rw text at rest) in
      record {
        middleware = m;
        declared = text;
        applied = i;
        restricts = r;
        exact_list = list;
        exact_none = nothing;
      }

  clean_forward :
      (hostname : String) (v : Value) (route : Route)
      → forward_check render allowlists hostname v route ≡ done
      → (m : String) × (v ≡ str m) × (m ∈ all_filters render allowlists route)
  unfolding forward_check
  clean_forward hostname v route h =
      let (known, found, rest) =
        clean_run (in_set v (all_filters render allowlists route)) _ tt h in
      let all : known ≡ true = silent_not known _ rest in
      in_set-str v (all_filters render allowlists route) (rw all at found)

  pub clean_route :
      (hostname : String) (web : Fields) (route : Route)
      → route_check render allowlists hostname web route ≡ done
      → IsGuarded web route
  unfolding route_check route_access route_login
  clean_route hostname web route h =
      let (u, first, rest) =
        clean_bind (route_access render allowlists hostname web route)
          (λ w. route_login render allowlists hostname web route) tt h in
      let (mode, found, last) =
        clean_run (attr_or (get_or "auth" (obj end) web) "mode" null) _ tt rest in
      record {
        private = λ e. clean-IsPrivate hostname web route (rw e at first);
        public = λ e. clean_public hostname web route (rw e at first);
        login = λ auth same forward.
            let mine : get "mode" auth ≡ mode = mode_of auth mode (rw same at found) in
            clean_forward hostname (get "middleware" auth) route
              (rw (same, (rw mine at forward)) at last);
      }
    where
      mode_of :
          (auth : Fields) (mode : Value)
          → attr_or (obj auth) "mode" null ≡ ok mode
          → get "mode" auth ≡ mode
      mode_of auth mode h = cc
