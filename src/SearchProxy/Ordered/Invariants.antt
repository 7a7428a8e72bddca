-- ===== src/SearchProxy/Ordered/Invariants.antt =====
-- Which facts the fallback keeps: those that its small actions and the searches keep.
use home_server.Common.{String, true, List, [], ◌∷◌, Option, none, ℕ, All}
use home_server.SearchProxy.Exec.{Proxy, World}
use home_server.SearchProxy.Preserves.{
  Preserves, Preserves-pure, Preserves-try, Preserves-bind, Preserves-if,
}
use home_server.SearchProxy.Results.{Result}
use home_server.SearchProxy.Cooldown.{is_available}
use home_server.SearchProxy.Attempt.{Engine, attempt, settle, record_outcome, record_search}
use home_server.SearchProxy.Ordered.{
  Turn, document, won_by, run_engines, public_engines, paid_providers, after_paid, after_public,
  found, passed, ordered_search,
}

-- The predicate is kept by the bookkeeping of the provider `e`.
pub record Stable (w : World) (P : Proxy → Type 0) (e : Engine) : Type 0 where
  pub available : Preserves P (is_available w e.name)
  pub settled :
      (tried : List String) (o : Option (List Result)) → Preserves P (settle w e true tried o)
  pub counted : (outcome : String) → Preserves P (record_outcome e.name outcome)
  pub searched : Preserves P e.search

module _ (w : World) (P : Proxy → Type 0)
    (counts : (outcome : String) → Preserves P (record_search outcome)) where
  attempt-Preserves :
      (e : Engine) (tried : List String) → Stable w P e → Preserves P (attempt w e true tried)
  unfolding attempt
  attempt-Preserves e tried k = Preserves-bind _ _ k.available λ available.
      Preserves-if _ _ _
        (Preserves-bind _ _ (k.counted "cooldown") (λ u. Preserves-pure ([], tried)))
        (Preserves-bind _ _ (Preserves-try _ k.searched) (k.settled _))

  won_by-Preserves :
      (e : Engine) (rs : List Result) (tried : List String) → Preserves P (won_by e rs tried)
  unfolding won_by
  won_by-Preserves e rs tried =
      Preserves-bind _ _ (counts "success") (λ u. Preserves-pure (found (document e rs tried)))

  pub run_engines-Preserves :
      (es : List Engine) (before : List String)
      → All (Stable w P) es
      → Preserves P (run_engines w es before)
  unfolding run_engines won_by
  run_engines-Preserves [] before k = Preserves-pure _
  run_engines-Preserves (e ∷ es) before k =
      Preserves-bind _ _ (attempt-Preserves e before k.0) λ turn.
        Preserves-if _ _ _ (run_engines-Preserves es turn.1 k.1) (won_by-Preserves e turn.0 turn.1)

  module _ (query : String) (page : ℕ) where
    after_paid-Preserves : (t : Turn) → Preserves P (after_paid w query page t)
    unfolding after_paid
    after_paid-Preserves (found d) = Preserves-pure _
    after_paid-Preserves (passed attempted) = Preserves-bind _ _ (counts "failed") (λ u.
        Preserves-pure (record { organic_results = []; provider = none; attempted = attempted }))

    after_public-Preserves :
        (t : Turn)
        → All (Stable w P) (paid_providers w query page)
        → Preserves P (after_public w query page t)
    unfolding after_public
    after_public-Preserves (found d) k = Preserves-pure _
    after_public-Preserves (passed attempted) k =
        Preserves-bind _ _ (run_engines-Preserves _ attempted k) after_paid-Preserves

    pub ordered_search-Preserves :
        All (Stable w P) (public_engines w query page)
        → All (Stable w P) (paid_providers w query page)
        → Preserves P (ordered_search w query page)
    unfolding ordered_search
    ordered_search-Preserves k l =
        Preserves-bind _ _ (run_engines-Preserves _ [] k) (λ t. after_public-Preserves t l)
