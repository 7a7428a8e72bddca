-- ===== src/SearchProxy.antt =====
-- apps/open-webui/config/search_provider_proxy.py: a proxy that keeps paid search credentials to
-- itself and asks one search provider after another until one has results.
-- `Exec` is the state and the exceptions, `Upstream` the requests, `Results` and `Providers` what
-- becomes of an answer, `Cooldown`, `Attempt` and `Ordered` the fallback, `Handler` the server.
pub mod Exec
pub mod Preserves
pub mod Ends
pub mod Upstream
pub mod Results
pub mod Providers
pub mod Cooldown
pub mod Attempt
pub mod Ordered
pub mod Metrics
pub mod Handler
pub mod Slots
pub mod Tests
