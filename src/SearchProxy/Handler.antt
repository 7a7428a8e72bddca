-- ===== src/SearchProxy/Handler.antt =====
-- `SearchHandler.do_GET` and `MetricsHandler.do_GET`: the answers of the two servers.
pub mod Guard
use home_server.Common.{
  ℕ, zero, suc, ◌+◌, String, str_eq, strip, size, ltb, not, ◌||◌, Bool, true, false, if◌then◌else◌,
  List, [], ◌∷◌, map, Option, none, some, ok, ℤ, pos,
}
use home_server.Json.{Value, str, real, arr, obj, to_items, to_fields}
use home_server.SearchProxy.Exec.{Proxy, World, Exec, pure, ◌>>=◌, ◌>>◌}
use home_server.SearchProxy.Upstream.{required}
use home_server.SearchProxy.Results.{Result}
use home_server.SearchProxy.Ordered.{Document, ordered_search}
use home_server.SearchProxy.Metrics.{prometheus_metrics}

abbrev pub max_query_chars : ℕ
max_query_chars = 1_000

-- `urlparse(self.path)`, with the first value of each parameter of `parse_qs`
pub record Target : Type 0 where
  pub path : String
  pub parameters : List (String × String)

pub data Payload : Type 0 where
  json : Value → Payload
  plain : String → Payload

-- What `send_body` writes beside its fixed headers.
pub record Response : Type 0 where
  pub status : ℕ
  pub content_type : String
  pub body : Payload

abbrev json_response : ℕ → String → String → Response
json_response status key value = record {
  status = status;
  content_type = "application/json";
  body = json (obj (to_fields ((key, str value) ∷ [])));
}

-- parameters.get(key, [default])[0]
abbrev first_value : String → String → List (String × String) → String
first_value key default [] = default
first_value key default ((k, v) ∷ rest) = if str_eq k key then v else first_value key default rest

-- int(text), and 0 where it raises
abbrev page_of : Option ℕ → ℕ
page_of none = 0
page_of (some n) = n

abbrev provider_name : Option String → String
provider_name none = "none"
provider_name (some p) = p

module _ (w : World) where
  result_body : String → Result → Value
  result_body provider r = obj (
      to_fields (
        ("url", str r.link)
        ∷ ("title", str r.title)
        ∷ ("content", str r.snippet)
        ∷ ("engine", str provider)
        ∷ ("engines", arr (to_items (str provider ∷ [])))
        ∷ ("score", real (w.score r.position))
        ∷ []))

  empty_list : Value
  empty_list = arr (to_items [])

  unfoldable pub search_body : String → Document → Value
  unfolding result_body empty_list
  search_body query d = obj (
      to_fields (
        ("query", str query)
        ∷ (
          "results",
          arr (to_items (map (result_body (provider_name d.provider)) d.organic_results)),
        )
        ∷ ("answers", empty_list)
        ∷ ("corrections", empty_list)
        ∷ ("infoboxes", empty_list)
        ∷ ("suggestions", empty_list)
        ∷ ("unresponsive_engines", empty_list)
        ∷ []))

-- _search_slots.acquire(timeout=5): false if no slot comes free in time
unfoldable pub acquire : Exec Bool
acquire s = elim s.free_slots [
  | zero ↦ (ok false, s)
  | suc n ↦ (ok true, record s { free_slots = n })
]

unfoldable pub release : Exec Unit
release s = (ok tt, record s { free_slots = s.free_slots + 1 })

-- try: m finally: release
unfoldable pub finally_release : {A : Type 0} → Exec A → Exec A
unfolding release
finally_release m s = let (r, s') = m s in (r, (release s').1)

abbrev is_invalid : String → ℕ → Bool
is_invalid query page =
    str_eq query "" || ltb max_query_chars (size query) || ltb page 1 || ltb 10 page

module _ (w : World) where
  -- from the semaphore on
  unfoldable pub admitted_get : String → ℕ → Exec Response
  unfolding search_body acquire finally_release
  admitted_get query page = do
    acquired ← acquire
    if not acquired then pure (json_response 503 "error" "overloaded") else do
      document ← finally_release (ordered_search w query page)
      pure (record {
        status = 200;
        content_type = "application/json";
        body = json (search_body w query document);
      })

  unfoldable pub search_get : Target → Exec Response
  unfolding admitted_get
  search_get target =
      let query = strip (first_value "q" "" target.parameters) in
      let page = page_of (w.int_of (first_value "pageno" "1" target.parameters)) in
      if str_eq target.path "/healthz"
      then pure (json_response 200 "status" "ok")
      else if not (str_eq target.path "/search")
      then pure (json_response 404 "error" "not_found")
      else if is_invalid query page
      then pure (json_response 400 "error" "invalid_request")
      else admitted_get query page

unfoldable pub metrics_get : Target → Exec Response
unfolding prometheus_metrics
metrics_get target s =
    if str_eq target.path "/healthz"
    then (ok (json_response 200 "status" "ok"), s)
    else if str_eq target.path "/metrics"
    then (
      ok (record {
        status = 200;
        content_type = "text/plain; version=0.0.4; charset=utf-8";
        body = plain (prometheus_metrics s);
      }),
      s,
    )
    else (ok (json_response 404 "error" "not_found"), s)

-- `main` up to the servers' loops: it ends with an error where a credential is too short. The result is
-- the line that it prints.
unfoldable pub start_up : World → Exec String
unfolding required
start_up w = do
  brave ← required w "BRAVE_SEARCH_API_KEY"
  serpapi ← required w "SERPAPI_API_KEY"
  pure
      "{\"level\":\"info\",\"service\":\"searxng-provider-proxy\",\"message\":\"started\",\"search_port\":8080,\"metrics_port\":8081}"
