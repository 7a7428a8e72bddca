-- ===== src/ServiceCatalog/Explain/Reached.antt =====
-- scripts/service_catalog.py: how `explain` describes the route of a service and its login.
use home_server.Common.{
  String, concat, join, List, [], ◌∷◌, ◌++◌, is_empty, if◌then◌else◌, Py, ok, ◌>>=◌, flat_map_py,
}
use home_server.Json.{Value, obj, end, truthy, eq_str, is_dict, get_attr, list_or_empty}
use home_server.ServiceCatalog.Paths.{Repository}
use home_server.ServiceCatalog.Routes.{attr_or}
use home_server.ServiceCatalog.Explain.Parts.{when, shown}

-- where an Internet route is private, its declared paths are not
abbrev reachability : Value → Value → String
reachability visibility public_paths =
    if eq_str visibility "private"
    then (if is_empty (list_or_empty public_paths)
        then "LAN and WireGuard only"
        else "the public Internet on declared paths; LAN and WireGuard only everywhere else")
    else "the public Internet"

abbrev destinations_text : List String → String
unfolding join
destinations_text destinations =
    if is_empty destinations then "unmanaged" else join ", " destinations

module _ (w : Repository) where
  abbrev public_path : Value → Value → Py (List String)
  unfolding concat shown
  public_path web entry =
      if is_dict entry
      then (shown w "path" entry >>= λ path. shown w "accessMiddleware" web >>= λ middleware. ok (
          concat (
            "  Public path: " ∷ path ∷ " — Internet-reachable without the " ∷ middleware
            ∷ " allow-list" ∷ [])
          ∷ []))
      else ok []

  abbrev oidc_login : Value → Py String
  unfolding concat shown
  oidc_login auth = do
    client ← attr_or auth "client" (obj end)
    kind ← shown w "type" client
    profile ← shown w "profile" auth
    ok (
        concat (
          "  Login: Authentik through native OIDC (" ∷ kind ∷ " client, profile " ∷ profile ∷ ")"
          ∷ []))

  abbrev login : Value → Py String
  unfolding concat shown oidc_login
  login auth = do
    mode ← get_attr auth "mode"
    if eq_str mode "oidc"
        then oidc_login auth
        else if eq_str mode "forward-auth"
        then (shown w "profile" auth >>= λ profile.
            ok (concat ("  Login: Authentik forward-auth (profile " ∷ profile ∷ ")" ∷ [])))
        else if eq_str mode "native"
        then ok "  Login: the application's native authentication"
        else ok "  Login: no application authentication; network boundary only"

  abbrev dns_line : Value → Py String
  unfolding concat destinations_text
  dns_line web = do
    dns ← attr_or web "dns" (obj end)
    cloudflare ← get_attr dns "cloudflare"
    split ← get_attr dns "splitHorizon"
    ok (
        concat (
          "  DNS: "
          ∷ destinations_text
              (when (truthy cloudflare) "Cloudflare DDNS" ++ when (truthy split) "Blocky split DNS")
          ∷ []))

  -- How the service is reached, and who may sign in.
  unfoldable pub web_lines : Value → Value → Py (List String)
  unfolding concat shown public_path login dns_line
  web_lines web auth =
      if is_dict web
      then (do
        visibility ← get_attr web "visibility"
        public_paths ← get_attr web "publicPaths"
        hostname ← shown w "hostname" web
        open_paths ← flat_map_py (public_path web) (list_or_empty public_paths)
        signs_in ← login auth
        names ← dns_line web
        ok (
            concat ("  Reachable from: " ∷ reachability visibility public_paths ∷ [])
            ∷ concat ("  Address: https://" ∷ hostname ∷ "/" ∷ [])
            ∷ (open_paths ++ (signs_in ∷ names ∷ []))))
      else ok ("  Reachable from: no shared HTTP route" ∷ "  Login: not applicable" ∷ [])
