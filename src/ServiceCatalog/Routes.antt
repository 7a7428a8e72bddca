-- ===== src/ServiceCatalog/Routes.antt =====
-- scripts/service_catalog.py: `rendered_routes`, the routes of the rendered cluster.
use home_server.Common.{
  String, str_eq, concat, ends_with, Bool, List, [], ◌∷◌, map, Option, none, some, if◌then◌else◌,
  Py, ok, raise, type_error, attribute_error, flat_map, flat_map_py, ◌>>=◌,
}
use home_server.Json.{
  Value, Fields, null, str, arr, obj, end, items, fields, get, get_or, eq_str, is_dict, or_else,
  str_of, dict_or_empty, list_or_empty, nil,
}

-- v.get(k, default) of a value that is not known to be a mapping
abbrev pub attr_or : Value → String → Value → Py Value
unfolding get_or
attr_or (obj fs) k d = ok (get_or k d fs)
attr_or _ k d = raise attribute_error

abbrev characters : String → List Value
characters String.[] = []
characters (String.◌∷◌ c s) = str (String.◌∷◌ c "") ∷ characters s

-- `for x in v`: the elements of a list, the keys of a mapping, the characters of a text
abbrev pub iterate : Value → Py (List Value)
iterate (arr vs) = ok (items vs)
iterate (obj fs) = ok (map (λ (p : String × Value). str p.0) (fields fs))
iterate (str s) = ok (characters s)
iterate _ = raise type_error

pub record Rule : Type 0 where
  pub paths : List String
  pub filters : List String

pub record Route : Type 0 where
  pub route : String
  pub namespace : Value
  pub rules : List Rule

-- d[k] = v, and d.get(k), on an association list
unfoldable pub assign {ℓ} : {A : Type ℓ} → String → A → List (String × A) → List (String × A)
assign k v [] = (k, v) ∷ []
assign k v ((j, w) ∷ d) = if str_eq j k then (j, v) ∷ d else (j, w) ∷ assign k v d

unfoldable pub lookup {ℓ} : {A : Type ℓ} → String → List (String × A) → Option A
lookup k [] = none
lookup k ((j, w) ∷ d) = if str_eq j k then some w else lookup k d

-- `[v] if isinstance(v, str) else []`
abbrev pub text_in : Value → List String
text_in (str s) = s ∷ []
text_in _ = []

-- The name of the extension that a filter refers to, if it has one.
abbrev filter_name : Value → List String
unfolding get
filter_name item = text_in (get "name" (dict_or_empty (get "extensionRef" (dict_or_empty item))))

-- The path that a match names, if it has one.
abbrev match_path : Value → List String
unfolding get
match_path item = text_in (get "value" (dict_or_empty (get "path" (dict_or_empty item))))

unfoldable pub rule_of : Value → Py (List Rule)
unfolding get filter_name match_path
rule_of (obj rule) = do
  filters ← iterate (or_else (get "filters" rule) (arr nil))
  ok (
      record {
        paths = flat_map match_path (list_or_empty (get "matches" rule));
        filters = flat_map filter_name filters;
      }
      ∷ [])
rule_of _ = ok []

unfoldable pub is_kind : String → Value → Bool
unfolding get
is_kind kind v = eq_str (get "kind" (dict_or_empty v)) kind

-- f"{namespace}/{name}"
unfoldable pub qualified : (Value → String) → Value → Value → String
unfolding concat str_of
qualified render namespace name = concat (str_of render namespace ∷ "/" ∷ str_of render name ∷ [])

module _ (render : Value → String) where
  allowlist_name : Fields → Py (List String)
  unfolding get_or qualified
  allowlist_name fs = do
    namespace ← attr_or (get_or "metadata" (obj end) fs) "namespace" (str "default")
    name ← attr_or (get_or "metadata" (obj end) fs) "name" null
    ok (qualified render namespace name ∷ [])

  -- The element of the set `ip_allowlists` that a document gives.
  unfoldable pub allowlist_of : Value → Py (List String)
  unfolding get_or is_kind allowlist_name
  allowlist_of document =
      if is_kind "Middleware" document
      then (attr_or (get_or "spec" (obj end) (dict_or_empty document)) "ipAllowList" null
          >>= λ ranges. if is_dict ranges then allowlist_name (dict_or_empty document) else ok [])
      else ok []

  module _ (domain : String) where
    -- The hostnames below the domain that a list names.
    abbrev hostname_in : Value → List String
    unfolding ends_with concat
    hostname_in (str s) = if ends_with s (concat ("." ∷ domain ∷ [])) then s ∷ [] else []
    hostname_in _ = []

    http_route : Fields → Py (List (String × Route))
    unfolding get_or qualified rule_of hostname_in
    http_route fs = do
      namespace ← attr_or (get_or "metadata" (obj end) fs) "namespace" (str "default")
      name ← attr_or (get_or "metadata" (obj end) fs) "name" null
      found ← attr_or (get_or "spec" (obj end) fs) "rules" (arr nil)
      listed ← iterate found
      rules ← flat_map_py rule_of listed
      named ← attr_or (get_or "spec" (obj end) fs) "hostnames" (arr nil)
      hostnames ← iterate named
      let route : Route = record {
        route = qualified render namespace name;
        namespace = namespace;
        rules = rules;
      }
      ok (map (λ (h : String). (h, route)) (flat_map hostname_in hostnames))

    -- The hostnames of one document with their route.
    unfoldable pub routes_of : Value → Py (List (String × Route))
    unfolding is_kind http_route
    routes_of document =
        if is_kind "HTTPRoute" document then http_route (dict_or_empty document) else ok []
