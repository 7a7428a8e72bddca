-- ===== src/SearchProxy/Attempt.antt =====
-- `record`, `record_search`, `log_attempt` and `attempt`: one provider's turn, with its metrics.
use home_server.Common.{
  ℕ, ◌+◌, String, str_eq, not, ◌&&◌, if◌then◌else◌, Bool, true, false, List, [], ◌∷◌, ◌++◌, length,
  is_empty, Option, none, some, ok,
}
use home_server.SearchProxy.Exec.{World, Exec, pure, try_provider, ◌>>=◌, ◌>>◌}
use home_server.SearchProxy.Results.{Result}
use home_server.SearchProxy.Cooldown.{is_available, start_cooldown}

-- `counter[key] += 1` of `collections.Counter`, and its reading
unfoldable pub bump : String × String → List ((String × String) × ℕ) → List ((String × String) × ℕ)
bump k [] = (k, 1) ∷ []
bump k ((j, n) ∷ rest) =
    if str_eq j.0 k.0 && str_eq j.1 k.1 then (j, n + 1) ∷ rest else (j, n) ∷ bump k rest

unfoldable pub bump_search : String → List (String × ℕ) → List (String × ℕ)
bump_search k [] = (k, 1) ∷ []
bump_search k ((j, n) ∷ rest) =
    if str_eq j k then (j, n + 1) ∷ rest else (j, n) ∷ bump_search k rest

unfoldable pub record_outcome : String → String → Exec Unit
unfolding bump
record_outcome provider outcome s =
    (ok tt, record s { metrics = bump (provider, outcome) s.metrics })

unfoldable pub record_search : String → Exec Unit
unfolding bump_search
record_search outcome s =
    (ok tt, record s { search_metrics = bump_search outcome s.search_metrics })

unfoldable pub log_attempt : String → String → ℕ → Exec Unit
log_attempt provider outcome result_count s = (
  ok tt,
  record s {
    logs =
        record {
          level = if str_eq outcome "success" then "info" else "warning";
          provider = provider;
          outcome = outcome;
          result_count = result_count;
        }
        ∷ s.logs;
  },
)

-- One provider of the fallback, with its search for a query and a page.
pub record Engine : Type 0 where
  pub name : String
  pub search : Exec (List Result)
  pub cooldown_seconds : ℕ

abbrev when : Bool → Exec Unit → Exec Unit
when true m = m
when false m = pure tt

abbrev outcome_of : List Result → String
outcome_of [] = "empty"
outcome_of (r ∷ rs) = "success"

module _ (w : World) (e : Engine) (cooldown_on_error : Bool) where
  -- what follows the `try`: `none` is a `ProviderError`
  unfoldable pub settle : List String → Option (List Result) → Exec (List Result × List String)
  settle attempted none = do
    record_outcome e.name "error"
    log_attempt e.name "error" 0
    when cooldown_on_error (start_cooldown w e.name e.cooldown_seconds)
    pure ([], attempted)
  settle attempted (some results) = do
    record_outcome e.name (outcome_of results)
    log_attempt e.name (outcome_of results) (length results)
    when (is_empty results && cooldown_on_error) (start_cooldown w e.name e.cooldown_seconds)
    pure (results, attempted)

  abbrev allowed : Exec Bool
  allowed = if cooldown_on_error then is_available w e.name else pure true

  -- The results, and the list `attempted` as the call leaves it.
  unfoldable pub attempt : List String → Exec (List Result × List String)
  unfolding settle
  attempt attempted = do
    available ← allowed
    if not available
        then (do record_outcome e.name "cooldown"; pure ([], attempted))
        else do found ← try_provider e.search; settle (attempted ++ e.name ∷ []) found
