-- ===== src/SearchProxy/Ordered/Outcome.antt =====
-- What a search returns and raises, whatever the upstreams answer.
use home_server.Common.{
  ℕ, String, true, List, [], ◌∷◌, All, take, Option, none, some, is_empty, not, if◌then◌else◌, ◌&&◌,
  ◌++◌, arith, provider_error,
}
use home_server.Json.{Value, Fields, get_attr, get, arr, nil, obj, or_else, truthy}
use home_server.SearchProxy.Exec.{Proxy, World, pure, throw, Request, Reply, response}
use home_server.SearchProxy.Ends.{
  Outcome, Outcome, Ends, Escapes, Uncaught, OrNone, Ends-pure, Ends-throw, Ends-if, Ends-result,
  Ends-try, Ends-bind,
}
use home_server.SearchProxy.Upstream.{required, send, fetch_json, read_reply, checked_document}
use home_server.SearchProxy.Results.{Result, concise_result, numbered, result_limit}
use home_server.SearchProxy.Results.Valid.{Fit, Numbers, concise_result-IsValid, numbered-Fit}
use home_server.SearchProxy.Providers.{
  brave_search, serpapi_search, searxng_engine_search, searxng_item, candidates_of,
}
use home_server.SearchProxy.Cooldown.{is_available, start_cooldown}
use home_server.SearchProxy.Attempt.{
  Engine, attempt, settle, record_outcome, record_search, log_attempt,
}
use home_server.SearchProxy.Ordered.{
  Turn, Document, document, found, passed, won_by, run_engines, public_engines, paid_providers,
  after_paid, after_public, ordered_search,
}

-- The document that a loop found has fitting results.
abbrev FoundFit : Turn → Type 0
FoundFit (passed attempted) = Unit
FoundFit (found d) = Fit d.organic_results

no_results : Fit []
no_results = (tt, omega arith, omega arith)

abbrev pub Any : {A : Type 0} → A → Type 0
Any a = Unit

checked-Escapes : (o : Option Value) → Outcome Any Escapes (checked_document o)
unfolding checked_document
checked-Escapes none = tt
checked-Escapes (some (obj fs)) = tt
checked-Escapes (some _) = tt

reply-Escapes : (r : Reply) → Outcome Any Escapes (read_reply r)
unfolding read_reply
reply-Escapes (response status body) = ground (arith, checked-Escapes body.document)
reply-Escapes _ = tt

candidates-Escapes : (m : String) (v : Value) → Outcome Any Escapes (candidates_of m v)
unfolding candidates_of
candidates-Escapes m (arr vs) = tt
candidates-Escapes m _ = tt

attribute-Escapes : (v : Value) (k : String) → Outcome Any Escapes (get_attr v k)
unfolding get
attribute-Escapes (obj fs) k = tt
attribute-Escapes _ k = tt

module _ (w : World) (query : String) (page : ℕ) where
  required-Ends : (name : String) → Ends Any Escapes (required w name)
  unfolding required
  required-Ends name = Ends-if _ (Ends-throw tt) (Ends-pure tt)

  send-Ends : (r : Request) → Ends Any Escapes (send w r)
  unfolding send
  send-Ends r = record { at = λ s. tt }

  fetch_json-Ends :
      (url : String) (parameters headers : List (String × String)) (timeout : ℕ)
      → Ends Any Escapes (fetch_json w url parameters headers timeout)
  unfolding fetch_json
  fetch_json-Ends url parameters headers timeout =
      Ends-bind (send-Ends _) (λ reply u. Ends-result (reply-Escapes reply))

  concise_Numbers : Numbers (concise_result w.render)
  concise_Numbers = concise_result-IsValid w.render

  searxng_Numbers : Numbers (λ item. concise_result w.render (searxng_item item))
  searxng_Numbers item i r h = concise_result-IsValid w.render (searxng_item item) i r h

  candidates-Ends : (m : String) (v : Value) → Ends Any Escapes (λ s. (candidates_of m v, s))
  candidates-Ends m v = Ends-result (candidates-Escapes m v)

  brave-Ends : Ends Fit Escapes (brave_search w query page)
  unfolding brave_search
  brave-Ends = Ends-bind (required-Ends _) λ key u.
      Ends-bind (fetch_json-Ends _ _ _ _) λ document v.
        Ends-bind (Ends-result (attribute-Escapes _ "results")) λ found x.
          Ends-bind
            (candidates-Ends "Brave returned an invalid result list" (or_else found (arr nil)))
            λ candidates y. Ends-pure (numbered-Fit _ concise_Numbers candidates)

  serpapi-Ends : Ends Fit Escapes (serpapi_search w query page)
  unfolding serpapi_search
  serpapi-Ends = Ends-bind (required-Ends _) λ key u.
      Ends-bind (fetch_json-Ends _ _ _ _) λ document v.
        Ends-if (truthy (get "error" document)) (Ends-throw tt) (
          Ends-bind
            (candidates-Ends "SerpAPI returned an invalid result list"
              (or_else (get "organic_results" document) (arr nil)))
            λ candidates y. Ends-pure (numbered-Fit _ concise_Numbers candidates))

  searxng-Ends :
      (shortcut : String) → Ends Fit Escapes (searxng_engine_search w query page shortcut)
  unfolding searxng_engine_search
  searxng-Ends shortcut = Ends-bind (fetch_json-Ends _ _ _ _) λ document v.
      Ends-bind
        (candidates-Ends "SearXNG returned an invalid result list"
          (or_else (get "results" document) (arr nil)))
        λ candidates y. row document candidates
    where
      row :
          (document : Fields) (candidates : List Value)
          → Ends Fit Escapes (
              if is_empty (
                  numbered
                    (λ item. concise_result w.render (searxng_item item))
                    1
                    (take result_limit candidates))
                && truthy (get "unresponsive_engines" document)
              then throw (provider_error "SearXNG engine was unresponsive")
              else pure (
                  numbered
                    (λ item. concise_result w.render (searxng_item item))
                    1
                    (take result_limit candidates)))
      row document candidates =
          Ends-if _ (Ends-throw tt) (Ends-pure (numbered-Fit _ searxng_Numbers candidates))

module _ (w : World) where
  available-Ends : (name : String) → Ends Any Uncaught (is_available w name)
  unfolding is_available
  available-Ends name = record { at = λ s. ground arith }

  settle-Ends :
      (e : Engine) (tried : List String) (o : Option (List Result))
      → OrNone Fit o
      → Ends (λ (r : List Result × List String). Fit r.0) Uncaught (settle w e true tried o)
  unfolding settle record_outcome log_attempt start_cooldown
  settle-Ends e tried none h = record { at = λ s. no_results }
  settle-Ends e tried (some []) h = record { at = λ s. h }
  settle-Ends e tried (some (r ∷ rs)) h = record { at = λ s. h }

  -- The results of a turn; an error that escapes is no `ProviderError`.
  attempt-Ends :
      (e : Engine) (before : List String)
      → Ends Fit Escapes e.search
      → Ends (λ (r : List Result × List String). Fit r.0) Uncaught (attempt w e true before)
  unfolding attempt record_outcome
  attempt-Ends e before k = Ends-bind (available-Ends e.name) λ available u.
      Ends-if (not available) (record { at = λ s. no_results })
        (Ends-bind (Ends-try Fit k) (settle-Ends e (before ++ e.name ∷ [])))

  won_by-Ends :
      (e : Engine) (rs : List Result) (tried : List String)
      → Fit rs
      → Ends FoundFit Uncaught (won_by e rs tried)
  unfolding won_by record_search
  won_by-Ends e rs tried h = record { at = λ s. h }

  run_engines-Ends :
      (es : List Engine) (before : List String)
      → All (λ (e : Engine). Ends Fit Escapes e.search) es
      → Ends FoundFit Uncaught (run_engines w es before)
  unfolding run_engines won_by
  run_engines-Ends [] before k = Ends-pure tt
  run_engines-Ends (e ∷ es) before k = Ends-bind (attempt-Ends e before k.0) λ turn h.
      Ends-if (is_empty turn.0) (run_engines-Ends es turn.1 k.1) (won_by-Ends e turn.0 turn.1 h)

module _ (w : World) (query : String) (page : ℕ) where
  after_paid-Ends :
      (t : Turn)
      → FoundFit t
      → Ends (λ (d : Document). Fit d.organic_results) Uncaught (after_paid w query page t)
  unfolding after_paid record_search
  after_paid-Ends (found d) h = Ends-pure h
  after_paid-Ends (passed attempted) h = record { at = λ s. (tt, omega arith, omega arith) }

  after_public-Ends :
      (t : Turn)
      → FoundFit t
      → Ends (λ (d : Document). Fit d.organic_results) Uncaught (after_public w query page t)
  unfolding after_public paid_providers
  after_public-Ends (found d) h = Ends-pure h
  after_public-Ends (passed attempted) h =
      Ends-bind
        (run_engines-Ends w _ attempted (brave-Ends w query page, (serpapi-Ends w query page, tt)))
        after_paid-Ends

  ordered_search-Ends :
      Ends (λ (d : Document). Fit d.organic_results) Uncaught (ordered_search w query page)
  unfolding ordered_search public_engines
  ordered_search-Ends =
      Ends-bind
        (run_engines-Ends w _ [] (
          searxng-Ends w query page "ddg",
          (searxng-Ends w query page "mjk", (searxng-Ends w query page "sp", tt)),
        ))
        after_public-Ends

  -- Whatever the upstreams answer and whatever the state: a search returns at most ten results, each
  -- with an HTTP link, a title, both texts within their limits and positions that grow from one to
  -- ten; or it raises a `RuntimeError` or an `AttributeError`, never a `ProviderError`.
  pub ordered_search-Fit :
      (s : Proxy)
      → Outcome (λ (d : Document). Fit d.organic_results) Uncaught (ordered_search w query page s).0
  ordered_search-Fit s = ordered_search-Ends.at s
