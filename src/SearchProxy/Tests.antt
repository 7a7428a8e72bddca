-- ===== src/SearchProxy/Tests.antt =====
-- Runs of the search proxy on small worlds, and its theorems at them.
use home_server.Common.{
  ℕ, zero, suc, ◌+◌, ◌*◌, ◌<◌, ◌≤◌, String, lstrip, rstrip, join, concat, show, starts_with,
  is_space, ◌≡◌, refl, ◌⊎◌, List, [], ◌∷◌, All, none, some, ok, arith,
}
use home_server.Json.{Fields, str, arr, obj, get_or, get, str_of, to_items, to_fields}
use home_server.SearchProxy.Exec.{Request, Reply, response, timed_out, Proxy, World}
use home_server.SearchProxy.Ends.{Outcome, Uncaught}
use home_server.SearchProxy.Upstream.{required, send, fetch_json, read_reply, checked_document}
use home_server.SearchProxy.Results.{concise_result, numbered}
use home_server.SearchProxy.Results.Valid.{Fit}
use home_server.SearchProxy.Providers.{
  brave_search, serpapi_search, searxng_engine_search, brave_parameters, serpapi_parameters,
  searxng_parameters, engine_query, safe_query, split, tokens, strip_bangs, candidates_of,
}
use home_server.SearchProxy.Providers.Sanitized.{IsWord, NoBang, engine_query-split}
use home_server.SearchProxy.Cooldown.{
  second, paid_provider_cooldown_seconds, deadline, without, monotonic, is_available,
  start_cooldown,
}
use home_server.SearchProxy.Attempt.{
  attempt, settle, bump, bump_search, record_outcome, record_search, log_attempt,
}
use home_server.SearchProxy.Ordered.{
  Document, public_engines, paid_providers, run_engines, won_by, after_paid, after_public,
  ordered_search,
}
use home_server.SearchProxy.Ordered.Fallback.{Answers, Asked, ordered_search-Answers}
use home_server.SearchProxy.Ordered.Requests.{Sent, IsUnpaid, ordered_search-Unpaid}
use home_server.SearchProxy.Ordered.Window.{AllFree, failed_search-asks_nobody_again}
use home_server.SearchProxy.Ordered.Outcome.{ordered_search-Fit}
use home_server.SearchProxy.Handler.{Target, acquire, search_get}
use home_server.SearchProxy.Handler.Guard.{IsAdmitted, search_get-free_slots, search_get-guard}
use home_server.SearchProxy.Slots.{
  Run, start, then_step, arrives, acquires, searching, in_flight, max_concurrent_searches,
  Run-bounded,
}
use Prim.Native.String

abbrev fresh : Proxy
fresh = record {
  metrics = [];
  search_metrics = [];
  cooldowns = [];
  readings = 0;
  requests = [];
  logs = [];
  free_slots = 4;
}

abbrev answer : Fields → Reply
answer document = response 200 (record { size = 100; document = some (obj document) })

-- DuckDuckGo does not answer, and Mojeek has one result.
abbrev mojeek_replies : ℕ → Request → Reply
mojeek_replies zero r = timed_out
mojeek_replies (suc i) r = answer (
    to_fields (
      (
        "results",
        arr (
            to_items
              (obj (to_fields (("url", str "https://a.example") ∷ ("title", str "A") ∷ [])) ∷ [])),
      )
      ∷ []))

-- Nobody answers.
abbrev no_replies : ℕ → Request → Reply
no_replies i r = timed_out

abbrev world : (ℕ → Request → Reply) → World
world replies = record {
  clock = λ i. i;
  upstream = replies;
  getenv = λ name. "a-credential-of-some-length";
  searxng_url = "http://127.0.0.1:8081/search";
  render = λ v. "";
  int_of = λ t. some 1;
  score = λ n. "1.0";
}

abbrev mojeek_document : Document
mojeek_document = record {
  organic_results =
      record { link = "https://a.example"; title = "A"; snippet = ""; position = 1 } ∷ [];
  provider = some "mojeek";
  attempted = "duckduckgo" ∷ "mojeek" ∷ [];
}

abbrev mojeek_end : Proxy
mojeek_end = (ordered_search (world mojeek_replies) "cats" 1 fresh).1

mojeek_run : ordered_search (world mojeek_replies) "cats" 1 fresh ≡ (ok mojeek_document, mojeek_end)
unfolding ordered_search after_public run_engines public_engines won_by attempt settle is_available
    start_cooldown searxng_engine_search searxng_parameters engine_query safe_query split tokens
    strip_bangs candidates_of numbered concise_result fetch_json send read_reply checked_document
    get get_or lstrip rstrip is_space starts_with str_of record_outcome record_search log_attempt
    bump bump_search monotonic deadline without join concat show
mojeek_run = refl

abbrev no_document : Document
no_document = record {
  organic_results = [];
  provider = none;
  attempted = "duckduckgo" ∷ "mojeek" ∷ "startpage" ∷ "brave" ∷ "serpapi" ∷ [];
}

abbrev failed_end : Proxy
failed_end = (ordered_search (world no_replies) "cats" 1 fresh).1

failed_run : ordered_search (world no_replies) "cats" 1 fresh ≡ (ok no_document, failed_end)
unfolding ordered_search after_public after_paid paid_providers brave_search serpapi_search
    brave_parameters serpapi_parameters required run_engines public_engines won_by attempt settle
    is_available start_cooldown searxng_engine_search searxng_parameters engine_query safe_query
    split tokens strip_bangs candidates_of numbered concise_result fetch_json send read_reply
    checked_document get get_or lstrip rstrip is_space starts_with str_of record_outcome
    record_search log_attempt bump bump_search monotonic deadline without join concat show
failed_run = refl

soon :
    (world no_replies).clock (failed_end.readings + 4)
    < (world no_replies).clock fresh.readings + paid_provider_cooldown_seconds * second
unfolding ordered_search after_public after_paid paid_providers brave_search serpapi_search
    brave_parameters serpapi_parameters required run_engines public_engines won_by attempt settle
    is_available start_cooldown searxng_engine_search searxng_parameters engine_query safe_query
    split tokens strip_bangs candidates_of numbered concise_result fetch_json send read_reply
    checked_document get get_or lstrip rstrip is_space starts_with str_of record_outcome
    record_search log_attempt bump bump_search monotonic deadline without join concat show
soon = omega arith

abbrev a_target : Target
a_target = record { path = "/search"; parameters = ("q", "cats") ∷ [] }

abbrev one_search : Proxy
one_search = record fresh { free_slots = 3 }

-- One request arrives and takes a slot.
one_request : Run fresh one_search (searching ∷ [])
unfolding acquire
one_request = then_step (then_step start (arrives fresh [])) (acquires [] [] refl)

plain : IsWord "ddg"
unfolding is_space
plain = (refl, (refl, (refl, tt)))

ordered_search-Answers_example :
    Answers mojeek_document × Asked (world mojeek_replies) "cats" 1 fresh mojeek_document
ordered_search-Answers_example =
    ordered_search-Answers (world mojeek_replies) "cats" 1 mojeek_end mojeek_document fresh
      mojeek_run

ordered_search-Unpaid_example : Sent [] (IsUnpaid (world mojeek_replies)) mojeek_end
ordered_search-Unpaid_example =
    ordered_search-Unpaid (world mojeek_replies) "cats" 1 mojeek_end mojeek_document "mojeek" fresh
      mojeek_run refl refl

ordered_search-Fit_example :
    Outcome
      (λ (d : Document). Fit d.organic_results)
      Uncaught
      (ordered_search (world no_replies) "cats" 1 fresh).0
ordered_search-Fit_example = ordered_search-Fit (world no_replies) "cats" 1 fresh

all_free : AllFree (world no_replies) fresh
unfolding deadline
all_free = ground arith

failed_search-asks_nobody_again_example :
    (ordered_search (world no_replies) "dogs" 2 failed_end).1.requests ≡ failed_end.requests
failed_search-asks_nobody_again_example =
    failed_search-asks_nobody_again (world no_replies) fresh failed_end no_document "cats" "dogs" 1
      2 (λ i. omega arith) all_free failed_run refl soon

search_get-free_slots_example : (search_get (world mojeek_replies) a_target fresh).1.free_slots ≡ 4
search_get-free_slots_example = search_get-free_slots (world mojeek_replies) a_target fresh

search_get-guard_example :
    ((search_get (world mojeek_replies) a_target fresh).1 ≡ fresh)
    ⊎ IsAdmitted (world mojeek_replies) a_target fresh
search_get-guard_example = search_get-guard (world mojeek_replies) a_target fresh

Run-bounded_example :
    (one_search.free_slots + in_flight (searching ∷ []) ≡ max_concurrent_searches)
    × (in_flight (searching ∷ []) ≤ max_concurrent_searches)
Run-bounded_example = Run-bounded refl one_request

engine_query-split_example :
    (rest : List String) × (split (engine_query "ddg" "!go cats") ≡ String.◌++◌ "!" "ddg" ∷ rest)
    × All NoBang rest
engine_query-split_example = engine_query-split "ddg" "!go cats" plain
