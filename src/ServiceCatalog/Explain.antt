-- ===== src/ServiceCatalog/Explain.antt =====
-- scripts/service_catalog.py: `explain`, the description of one service.
pub mod Parts
pub mod Reached
pub mod Owned
use home_server.Common.{
  String, concat, join, Bool, true, false, List, [], ◌∷◌, ◌++◌, map, is_empty, if◌then◌else◌, Py,
  ok, raise, catalog_error, ◌>>=◌, flat_map_py,
}
use home_server.Common.Order.{sort}
use home_server.Json.{
  Value, Fields, bool, arr, obj, end, nil, truthy, eq_str, in_set, is_dict, is_false, get_attr,
  str_of, list_or_empty,
}
use home_server.ServiceCatalog.Paths.{Repository}
use home_server.ServiceCatalog.Names.{authentik_secret_key}
use home_server.ServiceCatalog.Routes.{attr_or, iterate}
use home_server.ServiceCatalog.Rendered.{services}
use home_server.ServiceCatalog.Explain.Parts.{when, shown}
use home_server.ServiceCatalog.Explain.Reached.{web_lines}
use home_server.ServiceCatalog.Explain.Owned.{generated_lines, owned_lines}

abbrev matching : String → Value → Py (List Value)
matching service_id service = do
  id ← get_attr service "id"
  ok (if eq_str id service_id then service ∷ [] else [])

-- web.get("auth", {}) if isinstance(web, dict) else {}
abbrev auth_part : Value → Py Value
auth_part web = if is_dict web then attr_or web "auth" (obj end) else ok (obj end)

module _ (w : Repository) where
  abbrev id_text : Value → Py (List String)
  unfolding shown
  id_text service = do id ← shown w "id" service; ok (id ∷ [])

  abbrev unknown : String → List Value → Py (List String)
  unfolding concat join sort id_text
  unknown service_id listed = do
    available ← flat_map_py id_text listed
    raise (
        catalog_error (
          concat (
            "unknown service "
            ∷ w.quote service_id
            ∷ "; available services: "
            ∷ join ", " (sort available)
            ∷ [])))

  -- The lines on the placement, the state, the monitoring and the homepage.
  unfoldable pub operation_lines : Value → Value → Value → Value → Value → Py (List String)
  unfolding concat shown
  operation_lines service placement data_part observability card = do
    place ← shown w "mode" placement
    kind ← shown w "class" data_part
    protection ← shown w "protection" data_part
    note ← get_attr data_part "note"
    observed ← shown w "mode" observability
    enabled ← attr_or card "enabled" (bool true)
    homepage ←
        (if is_false enabled
          then (shown w "reason" card >>= λ reason. ok (concat ("omitted — " ∷ reason ∷ [])))
          else (shown w "group" card >>= λ group.
              shown w "name" service >>= λ name. ok (concat (group ∷ " / " ∷ name ∷ []))))
    ok (
        concat ("  Placement: " ∷ place ∷ [])
        ∷ concat ("  State: " ∷ kind ∷ "; protection: " ∷ protection ∷ [])
        ∷ (when (truthy note) (concat ("  State boundary: " ∷ str_of w.render note ∷ []))
            ++ (concat ("  Monitoring: " ∷ observed ∷ [])
                ∷ concat ("  Homepage: " ∷ homepage ∷ [])
                ∷ [])))

  abbrev described : String → Value → Py (List String)
  unfolding concat shown web_lines operation_lines generated_lines owned_lines
  described service_id service = do
    web ← get_attr service "web"
    auth ← auth_part web
    placement ← attr_or service "placement" (obj end)
    data_part ← attr_or service "data" (obj end)
    observability ← attr_or service "observability" (obj end)
    card ← attr_or service "homepage" (obj end)
    name ← shown w "name" service
    source ← shown w "_source" service
    reached ← web_lines w web auth
    operated ← operation_lines service placement data_part observability card
    generated ← generated_lines w service_id web auth
    owned ← owned_lines w web auth placement data_part observability
    ok (
        name
        ∷ concat ("  Descriptor: " ∷ source ∷ [])
        ∷ (reached ++ (operated ++ (generated ++ owned))))

  -- The first service of the id.
  abbrev explained : String → List Value → List Value → Py (List String)
  unfolding unknown described
  explained service_id listed [] = unknown service_id listed
  explained service_id listed (service ∷ others) = described service_id service

  -- The lines where the description comes to its end.
  unfoldable pub explain : Fields → String → Py (List String)
  unfolding services explained
  explain catalog service_id = do
    listed ← services catalog
    matches ← flat_map_py (matching service_id) listed
    explained service_id listed matches
