-- ===== src/SearchProxy/Handler/Guard.antt =====
-- What stands between a request and a search, and that a search gives its slot back.
use home_server.Common.{
  ℕ, zero, suc, ◌+◌, ◌≤◌, ◌<◌, String, eq_iff, strip, size, ◌≡◌, ap, ◌∙◌, refl, sym, ◌≢◌, ◌⊎◌, inl,
  inr, List, arith,
}
use home_server.SearchProxy.Exec.{Proxy, World}
use home_server.SearchProxy.Preserves.{Preserves, preserves_rules}
use home_server.SearchProxy.Upstream.{required, fetch_json}
use home_server.SearchProxy.Providers.{brave_search, serpapi_search, searxng_engine_search}
use home_server.SearchProxy.Cooldown.{is_available, start_cooldown}
use home_server.SearchProxy.Attempt.{Engine, settle, record_outcome, record_search, log_attempt}
use home_server.SearchProxy.Ordered.{public_engines, paid_providers, ordered_search}
use home_server.SearchProxy.Ordered.Invariants.{Stable, ordered_search-Preserves}
use home_server.SearchProxy.Handler.{
  Target, first_value, page_of, acquire, finally_release, admitted_get, search_get,
}

abbrev Slots : ℕ → Proxy → Type 0
Slots n s = s.free_slots ≡ n

module _ (w : World) (n : ℕ) where
  fetch_json-Slots :
      (url : String) (parameters headers : List (String × String)) (timeout : ℕ)
      → Preserves (Slots n) (fetch_json w url parameters headers timeout)
  unfolding fetch_json
  fetch_json-Slots url parameters headers timeout = record { holds = λ s h. h }

  required-Slots : (name : String) → Preserves (Slots n) (required w name)
  unfolding required
  required-Slots name = record { holds = λ s h. ground arith }

  counted-Slots : (outcome : String) → Preserves (Slots n) (record_search outcome)
  unfolding record_search
  counted-Slots outcome = record { holds = λ s h. h }

  Stable-Slots : (e : Engine) → Preserves (Slots n) e.search → Stable w (Slots n) e
  unfolding is_available settle record_outcome log_attempt start_cooldown
  Stable-Slots e asks = record {
    available = record { holds = λ s h. ground arith };
    settled = λ tried o. record { holds = λ s h. ground arith };
    counted = λ outcome. record { holds = λ s h. h };
    searched = asks;
  }

  module _ (query : String) (page : ℕ) where
    brave-Slots : Preserves (Slots n) (brave_search w query page)
    unfolding brave_search
    brave-Slots = search (preserves_rules, required-Slots, fetch_json-Slots) depth 12

    serpapi-Slots : Preserves (Slots n) (serpapi_search w query page)
    unfolding serpapi_search
    serpapi-Slots = search (preserves_rules, required-Slots, fetch_json-Slots) depth 12

    searxng-Slots :
        (shortcut : String) → Preserves (Slots n) (searxng_engine_search w query page shortcut)
    unfolding searxng_engine_search
    searxng-Slots shortcut = search (preserves_rules, fetch_json-Slots) depth 12

    ordered_search-Slots : Preserves (Slots n) (ordered_search w query page)
    unfolding public_engines paid_providers
    ordered_search-Slots =
        ordered_search-Preserves w (Slots n) counted-Slots query page
          (
            Stable-Slots _ (searxng-Slots "ddg"),
            (Stable-Slots _ (searxng-Slots "mjk"), (Stable-Slots _ (searxng-Slots "sp"), tt)),
          )
          (Stable-Slots _ brave-Slots, (Stable-Slots _ serpapi-Slots, tt))

-- A search that took a slot gives it back, also if it raises.
release_after :
    (w : World) (query : String) (page n : ℕ) (s : Proxy)
    → s.free_slots ≡ n
    → (finally_release (ordered_search w query page) s).1.free_slots ≡ n + 1
unfolding finally_release
release_after w query page n s h =
    let kept = (ordered_search-Slots w n query page).holds s h in omega arith

module _ (w : World) (query : String) (page : ℕ) where
  -- with a slot, and without one
  admitted_suc :
      (s : Proxy) (n : ℕ)
      → s.free_slots ≡ suc n
      → (admitted_get w query page s).1.free_slots ≡ suc n
  unfolding admitted_get acquire
  admitted_suc s n h =
      let back = release_after w query page n (record s { free_slots = n }) refl in
      ground (arith, back)

  admitted_zero : (s : Proxy) → s.free_slots ≡ 0 → (admitted_get w query page s).1 ≡ s
  unfolding admitted_get acquire
  admitted_zero s h = ground arith

  admitted-free_slots : (s : Proxy) → (admitted_get w query page s).1.free_slots ≡ s.free_slots
  admitted-free_slots s = go s.free_slots refl
    where
      go : (n : ℕ) → s.free_slots ≡ n → (admitted_get w query page s).1.free_slots ≡ s.free_slots
      go zero h = ap (λ (p : Proxy). p.free_slots) (admitted_zero s h)
      go (suc n) h = admitted_suc s n h ∙ sym h

  admitted_slot : (s : Proxy) → ((admitted_get w query page s).1 ≡ s) ⊎ (0 < s.free_slots)
  admitted_slot s = go s.free_slots refl
    where
      go : (n : ℕ) → s.free_slots ≡ n → ((admitted_get w query page s).1 ≡ s) ⊎ (0 < s.free_slots)
      go zero h = inl (admitted_zero s h)
      go (suc n) h = inr (omega arith)

-- What a request must be for a search to start.
pub record IsAdmitted (w : World) (t : Target) (s : Proxy) : Type 0 where
  pub path : t.path ≡ "/search"
  pub query : strip (first_value "q" "" t.parameters) ≢ ""
  pub short : size (strip (first_value "q" "" t.parameters)) ≤ 1_000
  pub page_low : 1 ≤ page_of (w.int_of (first_value "pageno" "1" t.parameters))
  pub page_high : page_of (w.int_of (first_value "pageno" "1" t.parameters)) ≤ 10
  pub slot : 0 < s.free_slots

module _ (w : World) (t : Target) (s : Proxy) where
  abbrev query : String
  query = strip (first_value "q" "" t.parameters)

  abbrev page : ℕ
  page = page_of (w.int_of (first_value "pageno" "1" t.parameters))

  -- A search request leaves as many slots free as it found, whether it answers or raises.
  pub search_get-free_slots : (search_get w t s).1.free_slots ≡ s.free_slots
  unfolding search_get
  search_get-free_slots = ground (arith, admitted-free_slots w query page s)

  -- A request changes the state of the proxy, and so sends, counts or logs anything, only if it is admitted.
  pub search_get-guard : ((search_get w t s).1 ≡ s) ⊎ IsAdmitted w t s
  unfolding search_get
  search_get-guard =
      ground (arith, eq_iff t.path "/search", eq_iff query "", admitted_slot w query page s)
