-- ===== src/SearchProxy/Slots.antt =====
-- The search server as threads that interleave: `_search_slots` bounds the searches in flight.
use home_server.Common.{ℕ, suc, ◌+◌, ◌≤◌, ◌≡◌, refl, true, false, List, [], ◌∷◌, ◌++◌, ok, arith}
use home_server.SearchProxy.Exec.{Proxy}
use home_server.SearchProxy.Handler.{acquire, release}

abbrev pub max_concurrent_searches : ℕ
max_concurrent_searches = 4

-- A request's thread: before the semaphore, inside `ordered_search`, or answered.
pub data Phase : Type 0 where
  waiting searching answered : Phase

abbrev weight : Phase → ℕ
weight searching = 1
weight _ = 0

unfoldable pub in_flight : List Phase → ℕ
in_flight [] = 0
in_flight (p ∷ ps) = weight p + in_flight ps

-- One step of one thread, or a new request. `before` and `after` are the other threads.
pub data Step : Proxy → List Phase → Proxy → List Phase → Type 0 where
  arrives : (s : Proxy) (ps : List Phase) → Step s ps s (waiting ∷ ps)
  acquires :
      {s s' : Proxy} (before after : List Phase)
      → acquire s ≡ (ok true, s')
      → Step s (before ++ waiting ∷ after) s' (before ++ searching ∷ after)
  -- the five seconds are over, and no slot came free
  times_out :
      {s s' : Proxy} (before after : List Phase)
      → acquire s ≡ (ok false, s')
      → Step s (before ++ waiting ∷ after) s' (before ++ answered ∷ after)
  -- a part of a search: it changes anything but the semaphore
  works :
      {s s' : Proxy} (before after : List Phase)
      → s'.free_slots ≡ s.free_slots
      → Step s (before ++ searching ∷ after) s' (before ++ searching ∷ after)
  -- `finally`
  releases :
      {s s' : Proxy} (before after : List Phase)
      → release s ≡ (ok tt, s')
      → Step s (before ++ searching ∷ after) s' (before ++ answered ∷ after)

pub data Run (s₀ : Proxy) : Proxy → List Phase → Type 0 where
  start : Run s₀ s₀ []
  then_step : {s s' : Proxy} {ps ps' : List Phase} → Run s₀ s ps → Step s ps s' ps' → Run s₀ s' ps'

in_flight-append :
    (ps : List Phase) (p : Phase) (qs : List Phase)
    → in_flight (ps ++ p ∷ qs) ≡ weight p + in_flight (ps ++ qs)
unfolding in_flight
in_flight-append [] p qs = refl
in_flight-append (q ∷ ps) p qs = omega (arith, in_flight-append ps p qs)

acquire-true : (s s' : Proxy) → acquire s ≡ (ok true, s') → s.free_slots ≡ suc s'.free_slots
unfolding acquire
acquire-true s s' h = ground arith

acquire-false : (s s' : Proxy) → acquire s ≡ (ok false, s') → s'.free_slots ≡ s.free_slots
unfolding acquire
acquire-false s s' h = ground arith

release-free_slots : (s s' : Proxy) → release s ≡ (ok tt, s') → s'.free_slots ≡ s.free_slots + 1
unfolding release
release-free_slots s s' h = ground arith

abbrev Balanced : ℕ → Proxy → List Phase → Type 0
Balanced n s ps = s.free_slots + in_flight ps ≡ n

Step-Balanced :
    {s s' : Proxy} {ps ps' : List Phase} (n : ℕ)
    → Step s ps s' ps'
    → Balanced n s ps
    → Balanced n s' ps'
Step-Balanced n (arrives s ps) h = unfold in_flight in omega arith
Step-Balanced n (acquires {s} {s'} before after e) h = omega (
  arith,
  acquire-true s s' e,
  in_flight-append before waiting after,
  in_flight-append before searching after,
)
Step-Balanced n (times_out {s} {s'} before after e) h = omega (
  arith,
  acquire-false s s' e,
  in_flight-append before waiting after,
  in_flight-append before answered after,
)
Step-Balanced n (works {s} {s'} before after e) h = omega arith
Step-Balanced n (releases {s} {s'} before after e) h = omega (
  arith,
  release-free_slots s s' e,
  in_flight-append before searching after,
  in_flight-append before answered after,
)

Run-Balanced : {s₀ s : Proxy} {ps : List Phase} → Run s₀ s ps → Balanced s₀.free_slots s ps
Run-Balanced start = unfold in_flight in omega arith
Run-Balanced (then_step r st) = Step-Balanced _ st (Run-Balanced r)

-- However the requests' threads interleave: from a fresh semaphore, the free slots and the searches in
-- flight are four together, so at most four searches run at once, and a release never passes the bound.
pub Run-bounded :
    {s₀ s : Proxy} {ps : List Phase}
    → s₀.free_slots ≡ max_concurrent_searches
    → Run s₀ s ps
    → (s.free_slots + in_flight ps ≡ max_concurrent_searches)
      × (in_flight ps ≤ max_concurrent_searches)
Run-bounded h r = omega (arith, Run-Balanced r)
