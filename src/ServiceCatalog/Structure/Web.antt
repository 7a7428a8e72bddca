-- ===== src/ServiceCatalog/Structure/Web.antt =====
-- `validate_catalog_structure` of scripts/service_catalog.py: the web part of a service.
use home_server.Common.{
  ℕ, suc, String, str_eq, concat, starts_with, ends_with, Bool, false, not, ◌||◌, List, [], ◌∷◌,
  ◌++◌, contains, Option, none, some, if◌then◌else◌, ok,
}
use home_server.Json.{Value, Fields, null, arr, obj, cons, get, items, eq_str, is_null}
use home_server.ServiceCatalog.Checks.{
  Check, pure, report, report_if, for_each, done, require_mapping, require_nonempty_string,
  reject_unknown, ◌>>=◌, ◌>>◌,
}
use home_server.ServiceCatalog.Paths.{Repository, FilePath, repo_path}
use home_server.ServiceCatalog.Names.{is_dns_name}
use home_server.ServiceCatalog.References.{caught, on_some, at_index, route_hostnames}
use home_server.ServiceCatalog.Structure.Settings.{Settings}
use home_server.ServiceCatalog.Structure.Service.{require_member, require_bool, require_text}
use home_server.ServiceCatalog.Structure.Auth.{auth_check}

-- `hostname not in hostnames` and the name's form; the result is what is added to the hostnames.
unfoldable pub hostname_check :
    Option String → String → List String → Option String → Check (List String)
unfolding concat is_dns_name ends_with
hostname_check domain label seen none = pure []
hostname_check domain label seen (some hostname) = do
  report_if (contains seen hostname) ("duplicate web hostname: " ∷ hostname ∷ [])
  if is_dns_name hostname
      then on_some domain (λ d.
        report_if (not (ends_with hostname (concat ("." ∷ d ∷ []))))
          (label ∷ ".web.hostname must be under " ∷ d ∷ []))
      else report (concat (label ∷ ".web.hostname must be a lowercase DNS name" ∷ []))
  pure (hostname ∷ [])

module _ (w : Repository) where
  abbrev declares : String → Option String → FilePath → Check (Unit {0})
  unfolding route_hostnames
  declares label none path = done
  declares label (some hostname) path = do
    hostnames ← route_hostnames w path
    report_if (not (contains hostnames hostname))
        (label ∷ ".web.route does not declare hostname " ∷ hostname ∷ [])

  unfoldable pub route_check : String → Option String → String → Check (Unit {0})
  unfolding concat repo_path declares
  route_check label hostname value = do
    found ← caught (repo_path w value)
    on_some found λ path.
        if w.is_file path
        then declares label hostname path
        else report (concat (label ∷ ".web.route does not exist: " ∷ value ∷ []))

unfoldable pub middleware_check : String → Value → Value → Check (Unit {0})
unfolding concat require_text
middleware_check label visibility middleware =
    if eq_str visibility "private"
    then require_text middleware (concat (label ∷ ".web.accessMiddleware" ∷ []))
    else report_if (not (is_null middleware))
        (label ∷ ".web.accessMiddleware is only valid for private routes" ∷ [])

-- "//" in value
abbrev pub doubled_slash : String → Bool
unfolding starts_with
doubled_slash String.[] = false
doubled_slash (String.◌∷◌ c s) = starts_with (String.◌∷◌ c s) "//" || doubled_slash s

-- One public path; the result is what is added to the paths that were seen.
unfoldable pub public_path : String → List String → Option String → Check (List String)
unfolding concat starts_with ends_with doubled_slash
public_path label seen none = pure []
public_path label seen (some value) =
    if not (starts_with value "/") || str_eq value "/"
    then ok (concat (label ∷ ".path must be an absolute path prefix such as /v1" ∷ []) ∷ [], [])
    else if ends_with value "/" || doubled_slash value
    then ok (concat (label ∷ ".path must not have a trailing or doubled slash" ∷ []) ∷ [], [])
    else if contains seen value
    then ok (concat ("duplicate public path: " ∷ value ∷ []) ∷ [], [])
    else pure (value ∷ [])

unfoldable pub public_path_entry : String → List String → Value → Check (List String)
unfolding concat get reject_unknown require_nonempty_string require_text public_path
public_path_entry label seen (obj entry) = do
  reject_unknown entry ("path" ∷ "reason" ∷ []) label
  value ← require_nonempty_string (get "path" entry) (concat (label ∷ ".path" ∷ []))
  require_text (get "reason" entry) (concat (label ∷ ".reason" ∷ []))
  public_path label seen value
public_path_entry label seen v = ok (concat (label ∷ " must be a mapping" ∷ []) ∷ [], [])

unfoldable pub public_path_entries : String → ℕ → List String → List Value → Check (Unit {0})
unfolding at_index public_path_entry
public_path_entries label index seen [] = done
public_path_entries label index seen (entry ∷ entries) = do
  added ← public_path_entry (at_index label index) seen entry
  public_path_entries label (suc index) (added ++ seen) entries

abbrev public_path_list : String → Value → Check (Unit {0})
unfolding concat public_path_entries
public_path_list label (arr (cons v vs)) = public_path_entries label 0 [] (items (cons v vs))
public_path_list label _ = report (concat (label ∷ " must be a non-empty list" ∷ []))

unfoldable pub public_paths_check : String → Value → Value → Check (Unit {0})
unfolding concat public_path_list
public_paths_check label visibility paths =
    if is_null paths
    then done
    else (report_if (not (eq_str visibility "private")) (
          label
          ∷ ".web.publicPaths is only valid for private routes; a public route is already Internet-reachable"
          ∷ [])
        >> public_path_list (concat (label ∷ ".web.publicPaths" ∷ [])) paths)

unfoldable pub web_dns_check : String → Option Fields → Check (Unit {0})
unfolding get concat reject_unknown
web_dns_check label none = done
web_dns_check label (some dns) = do
  reject_unknown dns ("cloudflare" ∷ "splitHorizon" ∷ []) (concat (label ∷ ".web.dns" ∷ []))
  for_each
      (λ key. require_bool (get key dns) (label ∷ ".web.dns." ∷ key ∷ " must be a boolean" ∷ []))
      ("cloudflare" ∷ "splitHorizon" ∷ [])

-- What a service adds to the hostnames and to the client ids that were seen.
pub record WebNames : Type 0 where
  pub hostnames : List String
  pub client_ids : List String

abbrev no_names : WebNames
no_names = record { hostnames = []; client_ids = [] }

module _ (w : Repository) (settings : Settings) (label : String) (service_id : Option String) where
  -- The authentication is checked after the other fields, with the hostname as it was required.
  unfoldable pub web_fields : Option String → Fields → Check (Unit {0})
  unfolding get concat require_nonempty_string route_check middleware_check public_paths_check
      web_dns_check
  web_fields hostname web = do
    route ← require_nonempty_string (get "route" web) (concat (label ∷ ".web.route" ∷ []))
    on_some route (route_check w label hostname)
    require_member (get "visibility" web) ("private" ∷ "public" ∷ [])
        (label ∷ ".web.visibility must be private or public" ∷ [])
    middleware_check label (get "visibility" web) (get "accessMiddleware" web)
    public_paths_check label (get "visibility" web) (get "publicPaths" web)
    dns ← require_mapping (get "dns" web) (concat (label ∷ ".web.dns" ∷ []))
    web_dns_check label dns

  unfoldable pub web_mapping : List String → List String → Fields → Check WebNames
  unfolding get concat reject_unknown require_nonempty_string hostname_check web_fields auth_check
  web_mapping hostnames client_ids web = do
    reject_unknown web
        ("accessMiddleware" ∷ "auth" ∷ "dns" ∷ "hostname" ∷ "publicPaths" ∷ "route" ∷ "visibility"
          ∷ [])
        (concat (label ∷ ".web" ∷ []))
    hostname ← require_nonempty_string (get "hostname" web) (concat (label ∷ ".web.hostname" ∷ []))
    added ← hostname_check settings.domain label hostnames hostname
    web_fields hostname web
    auth ← require_mapping (get "auth" web) (concat (label ∷ ".web.auth" ∷ []))
    clients ← auth_check w settings label service_id hostname (get "visibility" web) client_ids auth
    pure (record { hostnames = added; client_ids = clients })

  unfoldable pub web_check : List String → List String → Value → Check WebNames
  unfolding concat web_mapping
  web_check hostnames client_ids null = pure no_names
  web_check hostnames client_ids (obj web) = web_mapping hostnames client_ids web
  web_check hostnames client_ids v =
      ok (concat (label ∷ ".web must be a mapping" ∷ []) ∷ [], no_names)
