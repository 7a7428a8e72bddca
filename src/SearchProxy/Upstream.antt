-- ===== src/SearchProxy/Upstream.antt =====
-- `required` and `fetch_json`: credentials from the environment, and one request upstream.
use home_server.Common.{
  ℕ, ◌*◌, String, strip, size, concat, show, ltb, ◌==◌, not, if◌then◌else◌, List, [], ◌∷◌, ◌++◌,
  length, Option, none, some, provider_error, runtime_error, raise, Py, ok,
}
use home_server.Json.{Value, Fields, obj}
use home_server.SearchProxy.Exec.{
  Request, Reply, response, http_error, url_error, timed_out, broken, World, Exec, pure, throw,
  ◌>>=◌,
}

abbrev pub max_upstream_bytes : ℕ
max_upstream_bytes = 4 * 1024 * 1024

abbrev pub public_engine_timeout_seconds : ℕ
public_engine_timeout_seconds = 4

abbrev pub paid_provider_timeout_seconds : ℕ
paid_provider_timeout_seconds = 7

module _ (w : World) where
  unfoldable pub required : String → Exec String
  required name =
      let value = strip (w.getenv name) in
      if ltb (size value) 20
      then throw (runtime_error (concat (name ∷ " is missing or too short" ∷ [])))
      else pure value

  -- `urlopen`: the request is sent, and the world answers.
  unfoldable pub send : Request → Exec Reply
  send request s = (
    ok (w.upstream (length s.requests) request),
    record s { requests = s.requests ++ request ∷ [] },
  )

-- the type tests on the parsed body
unfoldable pub checked_document : Option Value → Py Fields
checked_document none = raise (provider_error "upstream returned invalid JSON")
checked_document (some (obj fs)) = ok fs
checked_document (some _) = raise (provider_error "upstream returned an invalid document")

-- `detail` of a failed request: the HTTP status, or the exception's name
abbrev status_detail : ℕ → String
status_detail status = if status == 0 then "HTTPError" else concat ("HTTP " ∷ show status ∷ [])

unfoldable pub read_reply : Reply → Py Fields
unfolding checked_document
read_reply (response status body) =
    if not (status == 200)
    then raise (provider_error (concat ("upstream returned HTTP " ∷ show status ∷ [])))
    else if ltb max_upstream_bytes body.size
    then raise (provider_error "upstream response exceeded the size limit")
    else checked_document body.document
read_reply (http_error status) = raise (provider_error (status_detail status))
read_reply url_error = raise (provider_error "URLError")
read_reply timed_out = raise (provider_error "TimeoutError")
read_reply (broken name) = raise (runtime_error name)

abbrev lift : {A : Type 0} → Py A → Exec A
lift r s = (r, s)

unfoldable pub fetch_json :
    World → String → List (String × String) → List (String × String) → ℕ → Exec Fields
unfolding send read_reply
fetch_json w url parameters headers timeout = do
  reply ← send w (record {
    url = url;
    parameters = parameters;
    headers = ("Accept", "application/json") ∷ headers;
    timeout = timeout;
  })
  lift (read_reply reply)
