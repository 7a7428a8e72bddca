-- ===== src/SearchProxy/Providers.antt =====
-- `brave_search`, `searxng_engine_search`, `serpapi_search`: one request each, and its results.
pub mod Sanitized
use home_server.Common.{
  ok, raise, ℕ, ◌-◌, ◌*◌, Char, code, String, str_eq, concat, join, show, is_space, ◌==◌,
  if◌then◌else◌, ◌&&◌, List, [], ◌∷◌, map, take, is_empty, provider_error, Py,
}
use home_server.Json.{
  Value, Fields, obj, items, arr, nil, end, field, get, get_attr, or_else, truthy,
}
use home_server.SearchProxy.Exec.{World, Exec, pure, throw, ◌>>=◌}
use home_server.SearchProxy.Upstream.{
  required, fetch_json, paid_provider_timeout_seconds, public_engine_timeout_seconds,
}
use home_server.SearchProxy.Results.{Result, concise_result, numbered, result_limit}

abbrev pub brave_url : String
brave_url = "https://api.search.brave.com/res/v1/web/search"

abbrev pub serpapi_url : String
serpapi_url = "https://serpapi.com/search.json"

-- query.split(): the runs of characters that are no white space
abbrev pub push : String → List String → List String
push token rest = if str_eq token "" then rest else token ∷ rest

abbrev extend : Char → String × List String → String × List String
extend c (token, rest) =
    if is_space (code c) then ("", push token rest) else (String.◌∷◌ c token, rest)

unfoldable pub tokens : String → String × List String
unfolding is_space
tokens String.[] = ("", [])
tokens (String.◌∷◌ c s) = extend c (tokens s)

unfoldable pub split : String → List String
unfolding tokens
split s = let (token, rest) = tokens s in push token rest

-- token.lstrip("!")
unfoldable pub strip_bangs : String → String
strip_bangs String.[] = ""
strip_bangs (String.◌∷◌ c s) = if code c == b'!' then strip_bangs s else String.◌∷◌ c s

unfoldable pub safe_query : String → String
unfolding split strip_bangs
safe_query query = join " " (map strip_bangs (split query))

-- the search text that SearXNG is sent
unfoldable pub engine_query : String → String → String
unfolding safe_query
engine_query shortcut query = concat ("!" ∷ shortcut ∷ " " ∷ safe_query query ∷ [])

-- `candidates`, if it is a list
unfoldable pub candidates_of : String → Value → Py (List Value)
candidates_of message (arr vs) = ok (items vs)
candidates_of message _ = raise (provider_error message)

-- the three fields of a SearXNG result that are read
abbrev pub searxng_item : Fields → Fields
unfolding get
searxng_item item =
    field "url" (get "url" item)
      (field "title" (get "title" item) (field "description" (get "content" item) end))

module _ (w : World) (query : String) (page : ℕ) where
  unfoldable pub brave_parameters : List (String × String)
  brave_parameters =
      ("q", query)
      ∷ ("count", show result_limit)
      ∷ ("offset", show ((page - 1) * result_limit))
      ∷ ("country", "CA")
      ∷ ("search_lang", "en")
      ∷ ("safesearch", "moderate")
      ∷ ("text_decorations", "false")
      ∷ []

  unfoldable pub serpapi_parameters : String → List (String × String)
  serpapi_parameters key =
      ("engine", "google")
      ∷ ("q", query)
      ∷ ("api_key", key)
      ∷ ("start", show ((page - 1) * result_limit))
      ∷ ("num", show result_limit)
      ∷ ("gl", "ca")
      ∷ ("hl", "en")
      ∷ ("safe", "active")
      ∷ []

  unfoldable pub searxng_parameters : String → List (String × String)
  unfolding engine_query
  searxng_parameters shortcut =
      ("q", engine_query shortcut query)
      ∷ ("format", "json")
      ∷ ("pageno", show page)
      ∷ ("language", "en-CA")
      ∷ ("safesearch", "1")
      ∷ []

  abbrev lift : {A : Type 0} → Py A → Exec A
  lift r s = (r, s)

  unfoldable pub brave_search : Exec (List Result)
  unfolding brave_parameters
  brave_search = do
    key ← required w "BRAVE_SEARCH_API_KEY"
    document ←
        fetch_json w brave_url brave_parameters (("X-Subscription-Token", key) ∷ [])
          paid_provider_timeout_seconds
    found ← lift (get_attr (or_else (get "web" document) (obj end)) "results")
    candidates ←
        lift (candidates_of "Brave returned an invalid result list" (or_else found (arr nil)))
    pure (numbered (concise_result w.render) 1 (take result_limit candidates))

  unfoldable pub serpapi_search : Exec (List Result)
  unfolding serpapi_parameters
  serpapi_search = do
    key ← required w "SERPAPI_API_KEY"
    document ← fetch_json w serpapi_url (serpapi_parameters key) [] paid_provider_timeout_seconds
    if truthy (get "error" document)
        then throw (provider_error "SerpAPI returned an API error")
        else do
          candidates ← lift (
              candidates_of "SerpAPI returned an invalid result list"
                (or_else (get "organic_results" document) (arr nil)))
          pure (numbered (concise_result w.render) 1 (take result_limit candidates))

  unfoldable pub searxng_engine_search : String → Exec (List Result)
  unfolding searxng_parameters
  searxng_engine_search shortcut = do
    document ←
        fetch_json w w.searxng_url (searxng_parameters shortcut) [] public_engine_timeout_seconds
    candidates ← lift (
        candidates_of "SearXNG returned an invalid result list"
          (or_else (get "results" document) (arr nil)))
    let results =
        numbered (λ item. concise_result w.render (searxng_item item)) 1
          (take result_limit candidates)
    if is_empty results && truthy (get "unresponsive_engines" document)
        then throw (provider_error "SearXNG engine was unresponsive")
        else pure results
