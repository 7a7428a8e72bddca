-- ===== src/ServiceCatalog/Blueprints.antt =====
-- scripts/service_catalog.py: the blueprints document and the worker's patch for Authentik.
pub mod Text
pub mod Parts
pub mod Oidc
pub mod Forward
pub mod Patched
pub mod Stored
pub mod Secrets
use home_server.Common.{
  ℕ, String, str_eq, concat, join, Bool, true, false, List, [], ◌∷◌, ◌++◌, map, flat_map, is_empty,
  Option, none, some, if◌then◌else◌, Py, ok, raise, key_error, type_error, attribute_error, ◌>>=◌,
  flat_map_py,
}
use home_server.Common.Order.{sort_by, sort, str_lt}
use home_server.Common.Lines.{splitlines}
use home_server.Json.{
  Value, Fields, Items, null, str, arr, obj, nil, end, field, get, get_or, find, items, eq_str,
  is_str, is_dict, dict_or_empty, str_of,
}
use home_server.ServiceCatalog.Paths.{Repository}
use home_server.ServiceCatalog.Names.{authentik_secret_key}
use home_server.ServiceCatalog.Routes.{iterate, attr_or}
use home_server.ServiceCatalog.Rendered.{services}
use home_server.ServiceCatalog.Blueprints.Text.{yaml_string, rstrip_feed}
use home_server.ServiceCatalog.Blueprints.Parts.{item, head_lines, ended, text_of, text_item}
use home_server.ServiceCatalog.Blueprints.Oidc.{authentik_oidc_blueprint}
use home_server.ServiceCatalog.Blueprints.Forward.{authentik_forward_blueprint}

abbrev pub document_head : List String
document_head =
    "# Generated from colocated *.catalog.yaml descriptors by scripts/service_catalog.py."
    ∷ "# Do not edit this file directly; run: python3 scripts/service_catalog.py render"
    ∷ "apiVersion: v1" ∷ "kind: ConfigMap" ∷ "metadata:"
    ∷ "  name: authentik-application-blueprints" ∷ "  namespace: apps" ∷ "data:" ∷ []

-- sorted(entries): the names of the files are different
abbrev by_name : String × String → String × String → Bool
unfolding str_lt
by_name a b = str_lt a.0 b.0

abbrev pub file_lines : String × String → List String
unfolding concat rstrip_feed splitlines
file_lines (key, blueprint) =
    concat ("  " ∷ key ∷ ": |" ∷ [])
    ∷ map (λ line. concat ("    " ∷ line ∷ [])) (splitlines (rstrip_feed blueprint))

abbrev patch_head : String → List String
unfolding concat
patch_head namespace =
    "# Generated from colocated *.catalog.yaml descriptors by scripts/service_catalog.py."
    ∷ "# Do not edit this file directly; run: python3 scripts/service_catalog.py render"
    ∷ "apiVersion: apps/v1"
    ∷ "kind: Deployment"
    ∷ "metadata:"
    ∷ "  name: authentik"
    ∷ concat ("  namespace: " ∷ namespace ∷ [])
    ∷ "spec:"
    ∷ "  template:"
    ∷ "    spec:"
    ∷ "      containers:"
    ∷ "        - name: worker"
    ∷ "          env:"
    ∷ []

module _ (w : Repository) where
  -- service.get("web", {}).get("auth", {})
  unfoldable pub auth_of : Value → Py Value
  auth_of service = do web ← attr_or service "web" (obj end); attr_or web "auth" (obj end)

  -- sorted(…, key=lambda item: str(id_of(item))), of services with the text of their id
  abbrev keyed : (Value → Py Value) → List Value → Py (List (String × Value))
  unfolding text_of
  keyed id_of [] = ok []
  keyed id_of (service ∷ others) = do
    id ← id_of service
    rest ← keyed id_of others
    ok ((text_of w id, service) ∷ rest)

  unfoldable pub sorted_by_id : (Value → Py Value) → List Value → Py (List Value)
  unfolding sort_by str_lt keyed
  sorted_by_id id_of listed = do
    pairs ← keyed id_of listed
    ok (
        map (λ (p : String × Value). p.1)
          (sort_by (λ (a b : String × Value). str_lt a.0 b.0) pairs))

  abbrev oidc_entry : Value → Py (List (String × String))
  unfolding concat auth_of text_item authentik_oidc_blueprint
  oidc_entry service = do
    auth ← auth_of service
    mode ← attr_or auth "mode" null
    if eq_str mode "oidc"
        then (authentik_oidc_blueprint w service auth >>= λ blueprint.
            text_item w "id" service >>= λ id. ok ((concat (id ∷ ".yaml" ∷ []), blueprint) ∷ []))
        else ok []

  abbrev forward_entry : Value → Py (List (Value × Value))
  unfolding auth_of
  forward_entry service = do
    auth ← auth_of service
    mode ← attr_or auth "mode" null
    ok (if eq_str mode "forward-auth" then (service, auth) ∷ [] else [])

  abbrev forward_file : List (Value × Value) → Py (List (String × String))
  unfolding authentik_forward_blueprint
  forward_file [] = ok []
  forward_file (entry ∷ entries) = do
    blueprint ← authentik_forward_blueprint w (entry ∷ entries)
    ok (("forward-auth.yaml", blueprint) ∷ [])

  unfoldable pub authentik_blueprints_document : Fields → Py String
  unfolding services sorted_by_id oidc_entry forward_entry forward_file sort_by by_name file_lines
      ended
  authentik_blueprints_document catalog = do
    listed ← services catalog
    ordered ← sorted_by_id (λ service. attr_or service "id" null) listed
    entries ← flat_map_py oidc_entry ordered
    forwarded ← flat_map_py forward_entry ordered
    more ← forward_file forwarded
    ok (ended (document_head ++ flat_map file_lines (sort_by by_name (entries ++ more))))

  -- The services whose OIDC client is confidential.
  unfoldable pub confidential_of : Value → Py (List Value)
  unfolding auth_of
  confidential_of service = do
    auth ← auth_of service
    mode ← attr_or auth "mode" null
    if eq_str mode "oidc"
        then (attr_or auth "client" (obj end) >>= λ client. attr_or client "type" null >>= λ kind.
            ok (if eq_str kind "confidential" then service ∷ [] else []))
        else ok []

  unfoldable pub worker_lines : String → Value → Py (List String)
  unfolding concat text_item authentik_secret_key
  worker_lines secret service = do
    id ← text_item w "id" service
    ok (
        concat ("            - name: " ∷ authentik_secret_key w id ∷ [])
        ∷ "              valueFrom:"
        ∷ "                secretKeyRef:"
        ∷ concat ("                  name: " ∷ secret ∷ [])
        ∷ concat ("                  key: " ∷ authentik_secret_key w id ∷ [])
        ∷ [])

  unfoldable pub authentik_worker_patch : Fields → Py String
  unfolding get_or patch_head services confidential_of sorted_by_id worker_lines ended text_of
  authentik_worker_patch catalog = do
    let authentik = get_or "authentik" (obj end) catalog
    secret ← attr_or authentik "providerSecret" (obj end)
    listed ← services catalog
    entries ← flat_map_py confidential_of listed
    namespace ← attr_or authentik "namespace" (str "apps")
    ordered ← sorted_by_id (item "id") entries
    name ← (if is_empty ordered then ok null else attr_or secret "name" null)
    lines ← flat_map_py (worker_lines (text_of w name)) ordered
    ok (ended (patch_head (text_of w namespace) ++ lines))
