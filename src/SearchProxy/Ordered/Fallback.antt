-- ===== src/SearchProxy/Ordered/Fallback.antt =====
-- Which providers `ordered_search` asks, in which order, and where it stops.
pub mod Loops
pub mod Asking
use home_server.Common.{
  ◌∈◌, ℕ, String, ◌≡◌, refl, ap, sym, ◌≢◌, ◌↔◌, ◌⊎◌, inl, inr, true, if◌then◌else◌, Bool-cases,
  List, [], ◌∷◌, ◌++◌, append-nil, append_assoc, map, ◌∙◌, is_empty, Option, none, some, ok, arith,
}
use home_server.SearchProxy.Exec.{Proxy, World, bind-eq-ok}
use home_server.SearchProxy.Results.{Result}
use home_server.SearchProxy.Attempt.{Engine, attempt, record_search}
use home_server.SearchProxy.Cooldown.{is_available, start_cooldown}
use home_server.SearchProxy.Ordered.{
  Turn, Document, document, found, passed, won_by, run_engines, public_engines, paid_providers,
  after_paid, after_public, ordered_search,
}
use home_server.SearchProxy.Ordered.Fallback.Asking.{
  Turns, run_engines-Turns, Turns-append, Turns-longer,
}
use home_server.SearchProxy.Ordered.Fallback.Loops.{
  Fallback, exhausted, skipped, failed, won, Follows, names, run_engines-Follows, Fallback-append,
  Fallback-longer, Fallback-winner,
}

-- A document that a loop found names a provider.
abbrev pub Named : Turn → Type 0
Named (passed attempted) = Unit
Named (found d) = d.provider ≢ none

abbrev pub provider_order : List String
provider_order = "duckduckgo" ∷ "mojeek" ∷ "startpage" ∷ "brave" ∷ "serpapi" ∷ []

-- What a search that returns has done.
pub record Answers (d : Document) : Type 0 where
  pub order : Fallback provider_order d.attempted d.provider
  pub empty_iff : (d.organic_results ≡ []) ↔ (d.provider ≡ none)

-- The turns that a search has taken: the public engines and then the paid providers, each in the state that
-- the one before it has left, up to the first that has results, which are the document's.
pub record Asked (w : World) (query : String) (page : ℕ) (s : Proxy) (d : Document) : Type 0 where
  pub last : Proxy
  pub turn : Turn
  pub turns : Turns w (public_engines w query page ++ paid_providers w query page) [] s turn last
  pub ended :
      (turn ≡ found d)
      ⊎ (turn ≡ passed d.attempted) × (d.organic_results ≡ []) × (d.provider ≡ none)

module _ (w : World) where
  pub run_engines-Named :
      (es : List Engine) (before : List String) (s s' : Proxy) (t : Turn)
      → run_engines w es before s ≡ (ok t, s')
      → Named t
  unfolding run_engines won_by
  run_engines-Named [] before s s' t h = ground arith
  run_engines-Named (e ∷ es) before s s' t h =
      let ((rs, tried), s1, turn, rest) = bind-eq-ok (attempt w e true before) _ s h in
      elim (Bool-cases (is_empty rs)) [
        | inl none_found ↦ run_engines-Named es tried s1 s' t (rw none_found at rest)
        | inr some_found ↦ named rs tried s1 (rw some_found at rest)
      ]
    where
      named :
          (rs : List Result) (tried : List String) (s1 : Proxy)
          → won_by e rs tried s1 ≡ (ok t, s')
          → Named t
      named rs tried s1 rest =
          let ended : t ≡ found (document e rs tried) = cc in rw ended (λ p. cc)

abbrev pub public_names : List String
public_names = "duckduckgo" ∷ "mojeek" ∷ "startpage" ∷ []

abbrev pub paid_names : List String
paid_names = "brave" ∷ "serpapi" ∷ []

-- A public engine won.
public-Answers : (d : Document) → Follows public_names [] (found d) → d.provider ≢ none → Answers d
public-Answers d (tried, e, f, r) n = record {
  order = rw e (Fallback-longer paid_names f n);
  empty_iff = ((λ p. absurd (r p)), (λ p. absurd (n p)));
}

-- Both loops ran: the second goes on from the `attempted` of the first.
paid-Answers :
    (d : Document) (attempted : List String) (t : Turn)
    → Follows public_names [] (passed attempted)
    → Follows paid_names attempted t
    → Named t
    → (t ≡ found d) ⊎ (t ≡ passed d.attempted) × (d.organic_results ≡ []) × (d.provider ≡ none)
    → Answers d
paid-Answers d attempted t (tried, e, f) follows named (inl won_it) =
    let (more, e', g, r) =
      let x : Follows paid_names attempted (found d) = rw won_it at follows in x in
    let n : d.provider ≢ none = rw won_it at named in
    record {
      order = rw (e', e) (Fallback-append f refl g);
      empty_iff = ((λ p. absurd (r p)), (λ p. absurd (n p)));
    }
paid-Answers d attempted t (tried, e, f) follows named (inr (gave_up, empty, nobody)) =
    let (more, e', g) =
      let x : Follows paid_names attempted (passed d.attempted) = rw gave_up at follows in x in
    record {
      order = rw (e', e, nobody) (Fallback-append f refl g);
      empty_iff = ((λ p. nobody), (λ p. empty));
    }

module _ (w : World) (query : String) (page : ℕ) (s' : Proxy) (d : Document) where
  pub after_paid-cases :
      (t : Turn) (s : Proxy)
      → after_paid w query page t s ≡ (ok d, s')
      → (t ≡ found d) ⊎ (t ≡ passed d.attempted) × (d.organic_results ≡ []) × (d.provider ≡ none)
  unfolding after_paid record_search
  after_paid-cases (found x) s h = ground arith
  after_paid-cases (passed x) s h = ground arith

  after_public-Answers :
      (first : Turn) (s s1 : Proxy)
      → run_engines w (public_engines w query page) [] s ≡ (ok first, s1)
      → after_public w query page first s1 ≡ (ok d, s')
      → Answers d
  unfolding after_public names public_engines paid_providers
  after_public-Answers (found x) s s1 loop rest =
      let same : x ≡ d = cc in
      public-Answers d (rw same at (run_engines-Follows w _ [] s s1 _ loop))
        (rw same at (run_engines-Named w _ [] s s1 _ loop))
  after_public-Answers (passed attempted) s s1 loop rest =
      let (t, s2, second, end) =
        bind-eq-ok (run_engines w (paid_providers w query page) attempted) _ s1 rest in
      paid-Answers d attempted t (run_engines-Follows w _ [] s s1 _ loop)
        (run_engines-Follows w _ attempted s1 s2 t second)
        (run_engines-Named w _ attempted s1 s2 t second) (after_paid-cases t s2 end)

  after_public-Asked :
      (first : Turn) (s s1 : Proxy)
      → run_engines w (public_engines w query page) [] s ≡ (ok first, s1)
      → after_public w query page first s1 ≡ (ok d, s')
      → Asked w query page s d
  unfolding after_public
  after_public-Asked (found x) s s1 loop rest =
      let same : x ≡ d = cc in
      let (last, turns, end) = run_engines-Turns w _ [] s s1 _ loop in
      record {
        last = last;
        turn = found x;
        turns = Turns-longer (paid_providers w query page) turns refl;
        ended = inl (ap found same);
      }
  after_public-Asked (passed attempted) s s1 loop rest =
      let (t, s2, second, end) =
        bind-eq-ok (run_engines w (paid_providers w query page) attempted) _ s1 rest in
      let (middle, turns, same) = run_engines-Turns w _ [] s s1 _ loop in
      let (last, more, _) = run_engines-Turns w _ attempted s1 s2 t second in
      record {
        last = last;
        turn = t;
        turns = Turns-append (rw (same attempted refl) at turns) refl more;
        ended = after_paid-cases t s2 end;
      }

  -- A search that returns has given the providers their turns in the fixed order, public engines first: each
  -- before the last was in its cooldown and not asked, or its search failed or had no results. The
  -- search stopped at the first provider that had results, names it and returns these results, and it
  -- names none exactly if it has no results.
  pub ordered_search-Answers :
      (s : Proxy) → ordered_search w query page s ≡ (ok d, s') → Answers d × Asked w query page s d
  unfolding ordered_search
  ordered_search-Answers s h =
      let (first, s1, loop, rest) =
        bind-eq-ok (run_engines w (public_engines w query page) []) _ s h in
      (after_public-Answers first s s1 loop rest, after_public-Asked first s s1 loop rest)
