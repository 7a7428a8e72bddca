-- ===== src/SearchProxy/Ordered/Window.antt =====
-- After a search in vain: no provider is asked again before its cooldown is over.
pub mod Steady
use home_server.Common.{
  ℕ, suc, ◌+◌, ◌*◌, ◌≤◌, ◌<◌, String, eq_iff, ◌≡◌, ◌∙◌, refl, ◌≢◌, ◌⊎◌, inl, inr, true, List, [],
  ◌∷◌, All, length, none, ok, arith,
}
use home_server.SearchProxy.Exec.{Proxy, World, bind-eq-ok}
use home_server.SearchProxy.Preserves.{Preserves, preserves_rules}
use home_server.SearchProxy.Upstream.{required, fetch_json}
use home_server.SearchProxy.Providers.{brave_search, serpapi_search, searxng_engine_search}
use home_server.SearchProxy.Cooldown.{
  second, deadline, is_available, paid_provider_cooldown_seconds,
}
use home_server.SearchProxy.Attempt.{Engine, attempt, bump, record_outcome, record_search}
use home_server.SearchProxy.Ordered.{
  Turn, Document, found, passed, run_engines, public_engines, paid_providers, after_paid,
  after_public, ordered_search,
}
use home_server.SearchProxy.Ordered.Fallback.{provider_order, run_engines-Named}
use home_server.SearchProxy.Ordered.Cooling.{
  IsMonotone, IsSteady, Distinct, clock_le, loop_other, loop-IsCooling,
}
use home_server.SearchProxy.Ordered.Window.Steady.{
  Untouched, steady_of, public-IsSteady, paid-IsSteady, public-Distinct, paid-Distinct, apart_paid,
  apart_public,
}

-- No cooldown holds at the start.
abbrev pub AllFree : World → Proxy → Type 0
AllFree w s = All (λ n. deadline n s.cooldowns ≤ w.clock s.readings) provider_order

-- Every provider cools down for at least the shorter cooldown, five minutes, after the time `t`.
abbrev pub AllCooling : ℕ → Proxy → Type 0
AllCooling t s =
    All (λ n. t + paid_provider_cooldown_seconds * second ≤ deadline n s.cooldowns) provider_order

module _ (w : World) (mono : IsMonotone w) (query : String) (page : ℕ) where
  -- The deadlines after a public loop and a paid loop, both in vain.
  loops-AllCooling :
      (s s1 s2 : Proxy) (attempted attempted' : List String)
      → AllFree w s
      → run_engines w (public_engines w query page) [] s ≡ (ok (passed attempted), s1)
      → run_engines w (paid_providers w query page) attempted s1 ≡ (ok (passed attempted'), s2)
      → AllCooling (w.clock s.readings) s2
  unfolding public_engines paid_providers
  loops-AllCooling s s1 s2 attempted attempted' (d, (m, (p, (b, (r, _))))) first second =
      let publics = public-IsSteady w query page in
      let paids = paid-IsSteady w query page in
      let (cd, (cm, (cp, _))) =
        loop-IsCooling w mono _ [] attempted s s1 publics (public-Distinct w query page)
          (d, (m, (p, tt))) first in
      let (eb, later) =
        loop_other w "brave" _ [] attempted s s1 publics
          (apart_paid w query page "brave" (inl refl)) first in
      let (er, _) =
        loop_other w "serpapi" _ [] attempted s s1 publics
          (apart_paid w query page "serpapi" (inr refl)) first in
      let clock = clock_le w mono s.readings s1.readings later in
      let (cb, (cr, _)) =
        loop-IsCooling w mono _ attempted attempted' s1 s2 paids (paid-Distinct w query page)
          (omega arith, (omega arith, tt)) second in
      let (ed, _) =
        loop_other w "duckduckgo" _ attempted attempted' s1 s2 paids
          (apart_public w query page "duckduckgo" (inl refl)) second in
      let (em, _) =
        loop_other w "mojeek" _ attempted attempted' s1 s2 paids
          (apart_public w query page "mojeek" (inr (inl refl))) second in
      let (ep, _) =
        loop_other w "startpage" _ attempted attempted' s1 s2 paids
          (apart_public w query page "startpage" (inr (inr refl))) second in
      (omega arith, (omega arith, (omega arith, (omega arith, (omega arith, tt)))))

  after_public-AllCooling :
      (first : Turn) (s s1 s' : Proxy) (d : Document)
      → AllFree w s
      → run_engines w (public_engines w query page) [] s ≡ (ok first, s1)
      → after_public w query page first s1 ≡ (ok d, s')
      → d.provider ≡ none
      → AllCooling (w.clock s.readings) s'
  unfolding after_public record_search
  after_public-AllCooling (found x) s s1 s' d free loop rest nobody =
      absurd (run_engines-Named w _ [] s s1 (found x) loop (cc))
  after_public-AllCooling (passed attempted) s s1 s' d free loop rest nobody =
      let (t, s2, paid, end) =
        bind-eq-ok (run_engines w (paid_providers w query page) attempted) _ s1 rest in
      go t s2 paid end
    where
      go :
          (t : Turn) (s2 : Proxy)
          → run_engines w (paid_providers w query page) attempted s1 ≡ (ok t, s2)
          → after_paid w query page t s2 ≡ (ok d, s')
          → AllCooling (w.clock s.readings) s'
      go (found x) s2 paid end =
          let same : x ≡ d = cc in
          absurd (run_engines-Named w _ attempted s1 s2 (found x) paid (rw same nobody))
      go (passed more) s2 paid end =
          let same : s'.cooldowns ≡ s2.cooldowns = ground arith in
          rw same (loops-AllCooling s s1 s2 attempted more free loop paid)

  -- A search that starts with no provider cooling down, and that finds nothing, leaves every provider
  -- cooling down for at least five minutes after it started.
  pub failed_search-AllCooling :
      (s s' : Proxy) (d : Document)
      → AllFree w s
      → ordered_search w query page s ≡ (ok d, s')
      → d.provider ≡ none
      → AllCooling (w.clock s.readings) s'
  unfolding ordered_search
  failed_search-AllCooling s s' d free h nobody =
      let (first, s1, loop, rest) =
        bind-eq-ok (run_engines w (public_engines w query page) []) _ s h in
      after_public-AllCooling first s s1 s' d free loop rest nobody

-- Until after the next five readings of the clock no cooldown ends.
abbrev pub StillCooling : World → Proxy → Type 0
StillCooling w s = All (λ n. w.clock (s.readings + 4) < deadline n s.cooldowns) provider_order

module _ (w : World) (mono : IsMonotone w) where
  -- A turn of a provider that cools down sends nothing and leaves the cooldowns.
  cooling_turn :
      (e : Engine) (before : List String) (s : Proxy)
      → w.clock s.readings < deadline e.name s.cooldowns
      → (s' : Proxy) × (attempt w e true before s ≡ (ok ([], before), s'))
        × (s'.requests ≡ s.requests)
        × (s'.cooldowns ≡ s.cooldowns)
        × (s'.readings ≡ s.readings + 1)
  unfolding attempt is_available record_outcome
  cooling_turn e before s h = (
    record s { readings = s.readings + 1; metrics = bump (e.name, "cooldown") s.metrics },
    ground arith,
    refl,
    refl,
    refl,
  )

  cooling_loop :
      (es : List Engine) (before : List String) (s : Proxy) (last : ℕ)
      → s.readings + length es ≤ suc last
      → All (λ (e : Engine). w.clock last < deadline e.name s.cooldowns) es
      → (s' : Proxy) × (run_engines w es before s ≡ (ok (passed before), s'))
        × (s'.requests ≡ s.requests)
        × (s'.cooldowns ≡ s.cooldowns)
        × (s'.readings ≡ s.readings + length es)
  unfolding run_engines
  cooling_loop [] before s last room cools = (s, refl, refl, refl, omega arith)
  cooling_loop (e ∷ es) before s last room cools =
      let early = clock_le w mono s.readings last (omega arith) in
      let (s1, turn, req, cds, reads) = cooling_turn e before s (omega arith) in
      let (s', rest, req', cds', reads') =
        cooling_loop es before s1 last (omega arith) (rw cds cools.1) in
      (s', rw turn rest, req' ∙ req, cds' ∙ cds, omega arith)

  module _ (query : String) (page : ℕ) where
    -- While every provider cools down, a search asks none of them: it has no results, sends no
    -- request and changes no cooldown.
    pub cooling_search-asks_nobody :
        (s : Proxy)
        → StillCooling w s
        → ((ordered_search w query page s).0
            ≡ ok (record { organic_results = []; provider = none; attempted = [] }))
          × ((ordered_search w query page s).1.requests ≡ s.requests)
          × ((ordered_search w query page s).1.cooldowns ≡ s.cooldowns)
    unfolding ordered_search public_engines paid_providers record_search
    cooling_search-asks_nobody s (d, (m, (p, (b, (r, _))))) =
        let (s1, loop, req, cds, reads) =
          cooling_loop (public_engines w query page) [] s (s.readings + 4) (omega arith)
            (d, (m, (p, tt))) in
        let (s2, paid, req', cds', reads') =
          cooling_loop (paid_providers w query page) [] s1 (s.readings + 4) (omega arith)
            (rw cds (b, (r, tt))) in
        rw loop (rw paid (refl, req' ∙ req, cds' ∙ cds))

-- With a clock that does not go backwards: after a search in vain that started at the time `t` with
-- no provider cooling down, a search whose five clock readings lie before `t` plus five minutes sends
-- no request.
pub failed_search-asks_nobody_again :
    (w : World) (s s' : Proxy) (d : Document) (query query' : String) (page page' : ℕ)
    → IsMonotone w
    → AllFree w s
    → ordered_search w query page s ≡ (ok d, s')
    → d.provider ≡ none
    → w.clock (s'.readings + 4) < w.clock s.readings + paid_provider_cooldown_seconds * second
    → (ordered_search w query' page' s').1.requests ≡ s'.requests
failed_search-asks_nobody_again w s s' d query query' page page' mono free h nobody soon =
    let cools : StillCooling w s' =
      omega (arith, failed_search-AllCooling w mono query page s s' d free h nobody) in
    (cooling_search-asks_nobody w mono query' page' s' cools).1
