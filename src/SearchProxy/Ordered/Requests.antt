-- ===== src/SearchProxy/Ordered/Requests.antt =====
-- What is sent upstream: where the paid credentials go, and when a paid provider is asked.
use home_server.Common.{
  ◌∈◌, contains, in→contains, ℕ, String, ◌≡◌, refl, sym, ◌⊎◌, inl, inr, false, List, [], ◌∷◌, ◌++◌,
  append-nil, append_assoc, All, All-append, none, some, strip, ok, arith,
}
use home_server.SearchProxy.Exec.{Request, Proxy, World, bind-eq-ok}
use home_server.SearchProxy.Preserves.{Preserves, Preserves-result, Preserves-bind, preserves_rules}
use home_server.SearchProxy.Upstream.{send, fetch_json, read_reply}
use home_server.SearchProxy.Providers.{
  brave_url, serpapi_url, searxng_engine_search, brave_parameters, serpapi_parameters,
  searxng_parameters,
}
use home_server.SearchProxy.Cooldown.{is_available, start_cooldown}
use home_server.SearchProxy.Attempt.{Engine, settle, record_outcome, record_search, log_attempt}
use home_server.SearchProxy.Ordered.Invariants.{Stable, run_engines-Preserves}
use home_server.SearchProxy.Ordered.Fallback.Loops.{
  Follows, names, Fallback-winner, run_engines-Follows,
}
use home_server.SearchProxy.Ordered.Fallback.{paid_names, after_paid-cases}
use home_server.SearchProxy.Ordered.{
  Turn, Document, after_public, found, passed, run_engines, public_engines, paid_providers,
  ordered_search,
}

-- The requests that the proxy may send: none to SearXNG carries a credential, and each paid
-- credential goes to its own provider.
pub data Lawful (w : World) (query : String) (page : ℕ) (r : Request) : Type 0 where
  to_searxng :
      (shortcut : String)
      → r.url ≡ w.searxng_url
      → r.parameters ≡ searxng_parameters w query page shortcut
      → r.headers ≡ ("Accept", "application/json") ∷ []
      → Lawful w query page r
  to_brave :
      r.url ≡ brave_url
      → r.parameters ≡ brave_parameters w query page
      → r.headers
        ≡ ("Accept", "application/json")
          ∷ ("X-Subscription-Token", strip (w.getenv "BRAVE_SEARCH_API_KEY"))
          ∷ []
      → Lawful w query page r
  to_serpapi :
      r.url ≡ serpapi_url
      → r.parameters ≡ serpapi_parameters w query page (strip (w.getenv "SERPAPI_API_KEY"))
      → r.headers ≡ ("Accept", "application/json") ∷ []
      → Lawful w query page r

-- `Sent base Q s`: the process has sent `base`, and then only requests for which `Q` holds.
abbrev pub Sent : List Request → (Request → Type 0) → Proxy → Type 0
Sent base Q s = (new : List Request) × (s.requests ≡ base ++ new) × All Q new

module _ (base : List Request) (Q : Request → Type 0) where
  send-Sent : (w : World) (r : Request) → Q r → Preserves (Sent base Q) (send w r)
  unfolding send
  send-Sent w r q = record {
    holds = λ s (new, e, h).
        (new ++ r ∷ [], rw e (append_assoc base new (r ∷ [])), All-append Q new (r ∷ []) h (q, tt));
  }

  fetch_json-Sent :
      (w : World) (url : String) (parameters headers : List (String × String)) (timeout : ℕ)
      → Q (record {
        url = url;
        parameters = parameters;
        headers = ("Accept", "application/json") ∷ headers;
        timeout = timeout;
      })
      → Preserves (Sent base Q) (fetch_json w url parameters headers timeout)
  unfolding fetch_json
  fetch_json-Sent w url parameters headers timeout q =
      Preserves-bind _ _ (send-Sent w _ q) (λ reply. Preserves-result (read_reply reply))

  counted-Sent : (outcome : String) → Preserves (Sent base Q) (record_search outcome)
  unfolding record_search
  counted-Sent outcome = record { holds = λ s h. h }

  Stable-Sent :
      (w : World) (e : Engine) → Preserves (Sent base Q) e.search → Stable w (Sent base Q) e
  unfolding is_available settle record_outcome log_attempt start_cooldown
  Stable-Sent w e asks = record {
    available = record { holds = λ s (new, e, h). (new, ground arith, h) };
    settled = λ tried o. record { holds = λ s (new, e, h). (new, ground arith, h) };
    counted = λ outcome. record { holds = λ s h. h };
    searched = asks;
  }

module _ (w : World) (query : String) (page : ℕ) (base : List Request) where
  abbrev Q : Request → Type 0
  Q = Lawful w query page

-- The requests that no paid provider sees.
abbrev pub IsUnpaid : World → Request → Type 0
IsUnpaid w r = r.url ≡ w.searxng_url

module _ (w : World) (query : String) (page : ℕ) (base : List Request) where
  searxng-Unpaid :
      (shortcut : String)
      → Preserves (Sent base (IsUnpaid w)) (searxng_engine_search w query page shortcut)
  unfolding searxng_engine_search
  searxng-Unpaid shortcut =
      Preserves-bind _ _ (fetch_json-Sent base (IsUnpaid w) w _ _ _ _ refl)
        (λ document. search (preserves_rules))

  run_engines-Unpaid :
      Preserves (Sent base (IsUnpaid w)) (run_engines w (public_engines w query page) [])
  unfolding public_engines
  run_engines-Unpaid = run_engines-Preserves w _ (counted-Sent base (IsUnpaid w)) _ [] (
    Stable-Sent base _ w _ (searxng-Unpaid "ddg"),
    (
      Stable-Sent base _ w _ (searxng-Unpaid "mjk"),
      (Stable-Sent base _ w _ (searxng-Unpaid "sp"), tt),
    ),
  )

-- A provider that the second loop names is a paid one.
paid_winner :
    (t : Turn) (d : Document) (before : List String) (n : String)
    → Follows paid_names before t
    → (t ≡ found d) ⊎ (t ≡ passed d.attempted) × (d.organic_results ≡ []) × (d.provider ≡ none)
    → d.provider ≡ some n
    → n ∈ paid_names
paid_winner t d before n f (inl e) p =
    let (tried, same, g, r) = let x : Follows paid_names before (found d) = rw e at f in x in
    Fallback-winner g p
paid_winner t d before n f (inr (e, empty, nobody)) p = cc

module _ (w : World) (query : String) (page : ℕ) (s' : Proxy) (d : Document) (n : String) where
  after_public-Unpaid :
      (first : Turn) (s s1 : Proxy)
      → Sent s.requests (IsUnpaid w) s1
      → after_public w query page first s1 ≡ (ok d, s')
      → d.provider ≡ some n
      → contains paid_names n ≡ false
      → Sent s.requests (IsUnpaid w) s'
  unfolding after_public names paid_providers
  after_public-Unpaid (found x) s s1 sent rest p free = let same : s1 ≡ s' = cc in rw same at sent
  after_public-Unpaid (passed attempted) s s1 sent rest p free =
      let (t, s2, second, end) =
        bind-eq-ok (run_engines w (paid_providers w query page) attempted) _ s1 rest in
      let member =
        paid_winner t d attempted n (run_engines-Follows w _ attempted s1 s2 t second)
          (after_paid-cases w query page s' d t s2 end) p in
      cc (in→contains paid_names n member)

  -- If the answer comes from no paid provider, the search sent requests to SearXNG alone.
  pub ordered_search-Unpaid :
      (s : Proxy)
      → ordered_search w query page s ≡ (ok d, s')
      → d.provider ≡ some n
      → contains paid_names n ≡ false
      → Sent s.requests (IsUnpaid w) s'
  unfolding ordered_search
  ordered_search-Unpaid s h p free =
      let (first, s1, loop, rest) =
        bind-eq-ok (run_engines w (public_engines w query page) []) _ s h in
      let sent =
        (run_engines-Unpaid w query page s.requests).holds s ([], sym (append-nil _), tt) in
      let here : Sent s.requests (IsUnpaid w) s1 = rw loop at sent in
      after_public-Unpaid first s s1 here rest p free
