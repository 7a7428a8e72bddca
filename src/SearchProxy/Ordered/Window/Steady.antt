-- ===== src/SearchProxy/Ordered/Window/Steady.antt =====
-- The searches leave the clock and the cooldowns alone, and the providers have different names.
use home_server.Common.{ℕ, String, eq_iff, ◌≡◌, refl, ◌≢◌, ◌⊎◌, inl, inr, List, All, arith}
use home_server.SearchProxy.Exec.{Proxy, World}
use home_server.SearchProxy.Preserves.{Preserves, preserves_rules}
use home_server.SearchProxy.Upstream.{required, fetch_json}
use home_server.SearchProxy.Providers.{brave_search, serpapi_search, searxng_engine_search}
use home_server.SearchProxy.Attempt.{Engine}
use home_server.SearchProxy.Ordered.{public_engines, paid_providers}
use home_server.SearchProxy.Ordered.Cooling.{IsSteady, Distinct}

-- The clock and the cooldowns are as given.
abbrev pub Untouched : List (String × ℕ) → ℕ → Proxy → Type 0
Untouched ds n s = (s.cooldowns ≡ ds) × (s.readings ≡ n)

module _ (w : World) (query : String) (page : ℕ) (ds : List (String × ℕ)) (n : ℕ) where
  fetch_json-Untouched :
      (url : String) (parameters headers : List (String × String)) (timeout : ℕ)
      → Preserves (Untouched ds n) (fetch_json w url parameters headers timeout)
  unfolding fetch_json
  fetch_json-Untouched url parameters headers timeout = record { holds = λ s h. h }

  required-Untouched : (name : String) → Preserves (Untouched ds n) (required w name)
  unfolding required
  required-Untouched name = record { holds = λ s h. ground arith }

  brave-Untouched : Preserves (Untouched ds n) (brave_search w query page)
  unfolding brave_search
  brave-Untouched = search (preserves_rules, required-Untouched, fetch_json-Untouched) depth 12

  serpapi-Untouched : Preserves (Untouched ds n) (serpapi_search w query page)
  unfolding serpapi_search
  serpapi-Untouched = search (preserves_rules, required-Untouched, fetch_json-Untouched) depth 12

  searxng-Untouched :
      (shortcut : String) → Preserves (Untouched ds n) (searxng_engine_search w query page shortcut)
  unfolding searxng_engine_search
  searxng-Untouched shortcut = search (preserves_rules, fetch_json-Untouched) depth 12

abbrev pub steady_of :
    (e : Engine)
    → ((ds : List (String × ℕ)) (n : ℕ) → Preserves (Untouched ds n) e.search)
    → IsSteady e
steady_of e k s =
    let h = (k s.cooldowns s.readings).holds s (refl, refl) in
    record { cooldowns = h.0; readings = h.1 }

module _ (w : World) (query : String) (page : ℕ) where
  pub public-IsSteady : All IsSteady (public_engines w query page)
  unfolding public_engines
  public-IsSteady = (
    steady_of _ (λ ds n. searxng-Untouched w query page ds n "ddg"),
    (
      steady_of _ (λ ds n. searxng-Untouched w query page ds n "mjk"),
      (steady_of _ (λ ds n. searxng-Untouched w query page ds n "sp"), tt),
    ),
  )

  pub paid-IsSteady : All IsSteady (paid_providers w query page)
  unfolding paid_providers
  paid-IsSteady = (
    steady_of _ (brave-Untouched w query page),
    (steady_of _ (serpapi-Untouched w query page), tt),
  )

  pub public-Distinct : Distinct (public_engines w query page)
  unfolding public_engines
  public-Distinct = ground (
    arith,
    eq_iff "mojeek" "duckduckgo",
    eq_iff "startpage" "duckduckgo",
    eq_iff "startpage" "mojeek",
  )

  pub paid-Distinct : Distinct (paid_providers w query page)
  unfolding paid_providers
  paid-Distinct = ground (arith, eq_iff "serpapi" "brave")

  -- The two loops hold different providers.
  pub apart_paid :
      (n : String)
      → (n ≡ "brave") ⊎ (n ≡ "serpapi")
      → All (λ (x : Engine). x.name ≢ n) (public_engines w query page)
  unfolding public_engines
  apart_paid n (inl e) = rw e (
      ground
        (arith, eq_iff "duckduckgo" "brave", eq_iff "mojeek" "brave", eq_iff "startpage" "brave"))
  apart_paid n (inr e) = rw e (
      ground (
        arith,
        eq_iff "duckduckgo" "serpapi",
        eq_iff "mojeek" "serpapi",
        eq_iff "startpage" "serpapi",
      ))

  pub apart_public :
      (n : String)
      → (n ≡ "duckduckgo") ⊎ (n ≡ "mojeek") ⊎ (n ≡ "startpage")
      → All (λ (x : Engine). x.name ≢ n) (paid_providers w query page)
  unfolding paid_providers
  apart_public n (inl e) =
      rw e (ground (arith, eq_iff "brave" "duckduckgo", eq_iff "serpapi" "duckduckgo"))
  apart_public n (inr (inl e)) =
      rw e (ground (arith, eq_iff "brave" "mojeek", eq_iff "serpapi" "mojeek"))
  apart_public n (inr (inr e)) =
      rw e (ground (arith, eq_iff "brave" "startpage", eq_iff "serpapi" "startpage"))
