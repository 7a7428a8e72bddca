-- ===== src/SearchProxy/Metrics.antt =====
-- `prometheus_metrics`: the counters as text.
use home_server.Common.{ℕ, String, Bool, str_eq, ◌&&◌, ◌||◌, concat, join, show, [], ◌∷◌, ◌++◌, map}
use home_server.Common.Order.{str_lt, sort_by}
use home_server.SearchProxy.Exec.{Proxy}

-- the order of tuples of two texts; keys of a counter differ, so the counts are never compared
abbrev pair_lt : (String × String) × ℕ → (String × String) × ℕ → Bool
pair_lt (a, m) (b, n) = str_lt a.0 b.0 || (str_eq a.0 b.0 && str_lt a.1 b.1)

abbrev name_lt : String × ℕ → String × ℕ → Bool
name_lt (a, m) (b, n) = str_lt a b

metric_line : (String × String) × ℕ → String
metric_line ((provider, outcome), value) = concat (
    "searxng_provider_requests_total{provider=\""
    ∷ provider
    ∷ "\",outcome=\""
    ∷ outcome
    ∷ "\"} "
    ∷ show value
    ∷ [])

search_line : String × ℕ → String
search_line (outcome, value) =
    concat ("searxng_search_requests_total{outcome=\"" ∷ outcome ∷ "\"} " ∷ show value ∷ [])

unfoldable pub prometheus_metrics : Proxy → String
unfolding metric_line search_line sort_by str_lt
prometheus_metrics s = concat (
    join "\n" (
      ("# HELP searxng_provider_requests_total Sequential search-provider decisions by provider and outcome."
        ∷ "# TYPE searxng_provider_requests_total counter" ∷ [])
      ++ (map metric_line (sort_by pair_lt s.metrics)
          ++ (("# HELP searxng_search_requests_total End-to-end search requests by outcome."
                ∷ "# TYPE searxng_search_requests_total counter" ∷ [])
              ++ map search_line (sort_by name_lt s.search_metrics))))
    ∷ "\n"
    ∷ [])
