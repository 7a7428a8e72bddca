-- ===== src/SearchProxy/Ordered.antt =====
-- `ordered_search`: the public engines, then the paid providers, until one has results.
pub mod Fallback
pub mod Cooling
pub mod Window
pub mod Outcome
pub mod Invariants
pub mod Requests
use home_server.Common.{ℕ, String, if◌then◌else◌, true, List, [], ◌∷◌, is_empty, Option, none, some}
use home_server.SearchProxy.Exec.{World, Exec, pure, ◌>>=◌, ◌>>◌}
use home_server.SearchProxy.Results.{Result}
use home_server.SearchProxy.Providers.{brave_search, searxng_engine_search, serpapi_search}
use home_server.SearchProxy.Cooldown.{
  public_engine_cooldown_seconds, paid_provider_cooldown_seconds,
}
use home_server.SearchProxy.Attempt.{Engine, attempt, record_search}

pub record Document : Type 0 where
  pub organic_results : List Result
  pub provider : Option String
  pub attempted : List String

-- A `for` loop over providers ends with the document of the first that has results, or with the
-- list `attempted` as the loop leaves it.
pub data Turn : Type 0 where
  found : Document → Turn
  passed : List String → Turn

abbrev pub document : Engine → List Result → List String → Document
document e results attempted = record {
  organic_results = results;
  provider = some e.name;
  attempted = attempted;
}

-- the `if results:` branch
unfoldable pub won_by : Engine → List Result → List String → Exec Turn
unfolding record_search
won_by e results attempted = do record_search "success"; pure (found (document e results attempted))

module _ (w : World) where
  unfoldable pub run_engines : List Engine → List String → Exec Turn
  run_engines [] attempted = pure (passed attempted)
  run_engines (e ∷ es) attempted = do
    (results, tried) ← attempt w e true attempted
    if is_empty results
        then run_engines es tried
        else (do record_search "success"; pure (found (document e results tried)))

  -- PUBLIC_ENGINES and the pairs of the second loop, with their searches
  module _ (query : String) (page : ℕ) where
    public_engine : String → String → Engine
    public_engine name shortcut = record {
      name = name;
      search = searxng_engine_search w query page shortcut;
      cooldown_seconds = public_engine_cooldown_seconds;
    }

    paid_provider : String → Exec (List Result) → Engine
    paid_provider name search = record {
      name = name;
      search = search;
      cooldown_seconds = paid_provider_cooldown_seconds;
    }

    unfoldable pub public_engines : List Engine
    unfolding public_engine
    public_engines =
        public_engine "duckduckgo" "ddg"
        ∷ public_engine "mojeek" "mjk"
        ∷ public_engine "startpage" "sp"
        ∷ []

    unfoldable pub paid_providers : List Engine
    unfolding paid_provider
    paid_providers =
        paid_provider "brave" (brave_search w query page)
        ∷ paid_provider "serpapi" (serpapi_search w query page)
        ∷ []

    abbrev failed : List String → Exec Document
    failed attempted = do
      record_search "failed"
      pure (record { organic_results = []; provider = none; attempted = attempted })

    unfoldable pub after_paid : Turn → Exec Document
    after_paid (found d) = pure d
    after_paid (passed attempted) = failed attempted

    unfoldable pub after_public : Turn → Exec Document
    unfolding after_paid
    after_public (found d) = pure d
    after_public (passed attempted) = do
      turn ← run_engines paid_providers attempted
      after_paid turn

    unfoldable pub ordered_search : Exec Document
    unfolding after_public
    ordered_search = do turn ← run_engines public_engines []; after_public turn
