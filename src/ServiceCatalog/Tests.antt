-- ===== src/ServiceCatalog/Tests.antt =====
-- A catalog of one private service, its rendered route, and a generated file.
pub mod Rendering
pub mod Checking
pub mod Publishing
pub mod Running
pub mod Secrets
use home_server.Common.{
  concat, String, List, [], ◌∷◌, ℤ, pos, Bool, true, false, str_eq, contains, if◌then◌else◌, Option,
  some, none, Py, ok,
}
use home_server.Json.{Value, Fields, bool, int, str, arr, obj, to_items, to_fields}
use home_server.ServiceCatalog.Paths.{Repository, FilePath, ParsedUrl}

abbrev pub mapping : List (String × Value) → Value
mapping fs = obj (to_fields fs)

abbrev pub sequence : List Value → Value
sequence vs = arr (to_items vs)

abbrev pub web : Fields
web = to_fields (
    ("hostname", str "a.b.c")
    ∷ ("route", str "apps/a/route.yaml")
    ∷ ("visibility", str "private")
    ∷ ("accessMiddleware", str "lan")
    ∷ ("publicPaths", sequence (mapping (("path", str "/v1") ∷ ("reason", str "api") ∷ []) ∷ []))
    ∷ ("dns", mapping (("cloudflare", bool true) ∷ ("splitHorizon", bool false) ∷ []))
    ∷ ("auth", mapping (("mode", str "native") ∷ ("reason", str "own login") ∷ []))
    ∷ [])

abbrev pub service : Value
service = mapping (
    ("id", str "a")
    ∷ ("name", str "A")
    ∷ ("path", str "apps/a")
    ∷ ("workload", mapping (("namespace", str "apps") ∷ ("app", str "a") ∷ []))
    ∷ ("homepage", mapping (("enabled", bool false) ∷ ("reason", str "api only") ∷ []))
    ∷ ("web", obj web)
    ∷ ("placement", mapping (("mode", str "floating") ∷ []))
    ∷ ("data", mapping (("class", str "stateless") ∷ ("protection", str "not-applicable") ∷ []))
    ∷ ("observability", mapping (("mode", str "kubernetes") ∷ []))
    ∷ [])

abbrev pub catalog : Fields
catalog = to_fields (
    ("version", int (pos 2))
    ∷ ("domain", str "b.c")
    ∷ ("homepage", mapping (("groups", sequence (str "Media" ∷ [])) ∷ []))
    ∷ (
      "dns",
      mapping (
          ("splitHorizonAddress", str "10.0.0.1")
          ∷ ("extraPublicNames", sequence (str "b.c" ∷ []))
          ∷ []),
    )
    ∷ (
      "authentik",
      mapping (
          ("baseUrl", str "https://auth.b.c")
          ∷ ("namespace", str "apps")
          ∷ ("providerSecret", mapping (("manifest", str "m") ∷ ("name", str "n") ∷ []))
          ∷ []),
    )
    ∷ ("registrationExclusions", sequence [])
    ∷ ("services", sequence (service ∷ []))
    ∷ [])

abbrev pub app : FilePath
app = "repo" ∷ "apps" ∷ "a" ∷ []

abbrev resolved : String → FilePath
resolved s = if str_eq s "apps/a/route.yaml" then "repo" ∷ "apps" ∷ "a" ∷ "route.yaml" ∷ [] else app

abbrev pub http_route : Value
http_route = mapping (
    ("kind", str "HTTPRoute")
    ∷ ("metadata", mapping (("namespace", str "apps") ∷ ("name", str "a") ∷ []))
    ∷ (
      "spec",
      mapping (
          ("hostnames", sequence (str "a.b.c" ∷ []))
          ∷ (
            "rules",
            sequence (
                mapping (
                  (
                    "filters",
                    sequence
                        (mapping (("extensionRef", mapping (("name", str "lan") ∷ [])) ∷ []) ∷ []),
                  )
                  ∷ [])
                ∷ mapping (
                    (
                      "matches",
                      sequence (mapping (("path", mapping (("value", str "/v1") ∷ [])) ∷ []) ∷ []),
                    )
                    ∷ [])
                ∷ []),
          )
          ∷ []),
    )
    ∷ [])

abbrev pub middleware : Value
middleware = mapping (
    ("kind", str "Middleware")
    ∷ ("metadata", mapping (("namespace", str "apps") ∷ ("name", str "lan") ∷ []))
    ∷ ("spec", mapping (("ipAllowList", mapping []) ∷ []))
    ∷ [])

abbrev holds_cluster : FilePath → Bool
holds_cluster path = contains path "clusters"

abbrev root_document : Value
root_document = mapping (("resources", sequence (str "../../apps/a" ∷ [])) ∷ [])

-- The root Kustomization lies in "clusters", a route in "apps".
abbrev pub documents_at : FilePath → Py (List Value)
documents_at path = if holds_cluster path then ok (root_document ∷ []) else ok (http_route ∷ [])

abbrev pub repository : Repository
repository = record {
  root = "repo" ∷ [];
  resolve = λ base s. resolved s;
  is_file = λ p. true;
  is_dir = λ p. true;
  exists = λ p. false;
  load_documents = documents_at;
  render = λ v. "";
  has_yq = true;
  yq = λ v. record { failed = false; stdout = "cards"; stderr = "" };
  upper = λ s. s;
  casefold = λ s. s;
  replaces = λ p. ok tt;
  urlparse = λ s. ok (record {
    scheme = "https";
    netloc = "auth.b.c";
    path = "";
    params = "";
    query = "";
    fragment = "";
    hostname = some "auth.b.c";
  });
  quote = λ s. concat ("'" ∷ s ∷ "'" ∷ []);
  is_ip_address = λ s. true;
}
