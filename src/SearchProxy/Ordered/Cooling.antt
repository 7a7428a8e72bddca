-- ===== src/SearchProxy/Ordered/Cooling.antt =====
-- Cooldowns across searches: a provider that failed, or had nothing, is left alone for its cooldown.
use home_server.Common.{
  is_empty, if◌then◌else◌, ℕ, zero, suc, ◌-◌, ◌+◌, ◌*◌, ◌≤◌, String, str_eq, eq_iff, ◌≡◌, ◌∙◌, refl,
  sym, ◌≢◌, true, leb, List, [], ◌∷◌, All, ok, arith,
}
use home_server.SearchProxy.Exec.{Proxy, World, bind-eq-ok}
use home_server.SearchProxy.Results.{Result}
use home_server.SearchProxy.Cooldown.{second, deadline, without, is_available, start_cooldown}
use home_server.SearchProxy.Attempt.{
  Engine, attempt, settle, record_outcome, record_search, log_attempt,
}
use home_server.SearchProxy.Ordered.{passed, won_by, run_engines}

-- `time.monotonic()` does not go backwards.
abbrev pub IsMonotone : World → Type 0
IsMonotone w = (i : ℕ) → w.clock i ≤ w.clock (suc i)

deadline-without_self : (p : String) (ds : List (String × ℕ)) → deadline p (without p ds) ≡ 0
unfolding deadline without
deadline-without_self p [] = refl
deadline-without_self p ((q, d) ∷ ds) = ground (arith, eq_iff q p, deadline-without_self p ds)

deadline-without_ne :
    (p q : String) (ds : List (String × ℕ)) → p ≢ q → deadline q (without p ds) ≡ deadline q ds
unfolding deadline without
deadline-without_ne p q [] h = refl
deadline-without_ne p q ((r, d) ∷ ds) h =
    ground (arith, eq_iff r p, eq_iff r q, deadline-without_ne p q ds h)

-- A provider is available exactly if its deadline has come; a deadline that has come is forgotten.
pub is_available_iff :
    (w : World) (p : String) (s : Proxy)
    → (is_available w p s).0 ≡ ok (leb (deadline p s.cooldowns) (w.clock s.readings))
unfolding is_available
is_available_iff w p s = ground arith

-- After `start_cooldown` the deadline is the cooldown's length past the reading of the clock.
pub deadline-start_cooldown :
    (w : World) (p q : String) (seconds : ℕ) (s : Proxy)
    → deadline q (start_cooldown w p seconds s).1.cooldowns
      ≡ (if str_eq p q then w.clock s.readings + seconds * second else deadline q s.cooldowns)
unfolding start_cooldown deadline
deadline-start_cooldown w p q seconds s =
    ground (arith, eq_iff p q, deadline-without_ne p q s.cooldowns)

-- A search touches neither the clock nor the cooldowns.
pub record Steady (e : Engine) (s : Proxy) : Type 0 where
  pub cooldowns : (e.search s).1.cooldowns ≡ s.cooldowns
  pub readings : (e.search s).1.readings ≡ s.readings

-- The state in which an available provider's search starts.
abbrev opened : String → Proxy → Proxy
unfolding without
opened p s = record s { readings = s.readings + 1; cooldowns = without p s.cooldowns }

module _ (w : World) (e : Engine) (steady : (s : Proxy) → Steady e s) where
  -- An available provider that was asked in vain cools down from then on.
  attempt-deadline :
      (before tried : List String) (s s' : Proxy)
      → w.clock s.readings ≤ w.clock (s.readings + 1)
      → deadline e.name s.cooldowns ≤ w.clock s.readings
      → attempt w e true before s ≡ (ok ([], tried), s')
      → w.clock s.readings + e.cooldown_seconds * second ≤ deadline e.name s'.cooldowns
  unfolding attempt is_available settle start_cooldown record_outcome log_attempt deadline
  attempt-deadline before tried s s' mono free h =
      ground (arith, steady (opened e.name s), eq_iff e.name e.name)

  -- A turn leaves the other deadlines as they are, and the clock moves on.
  attempt_other :
      (q : String) (before tried : List String) (s s' : Proxy) (rs : List Result)
      → e.name ≢ q
      → attempt w e true before s ≡ (ok (rs, tried), s')
      → (deadline q s'.cooldowns ≡ deadline q s.cooldowns) × (s.readings ≤ s'.readings)
  unfolding attempt is_available settle start_cooldown record_outcome log_attempt deadline
  attempt_other q before tried s s' rs ne h = ground (
    arith,
    steady (opened e.name s),
    eq_iff e.name q,
    deadline-without_ne e.name q (e.search (opened e.name s)).1.cooldowns ne,
    deadline-without_ne e.name q s.cooldowns ne,
  )

  attempt_later :
      (before tried : List String) (s s' : Proxy) (rs : List Result)
      → attempt w e true before s ≡ (ok (rs, tried), s')
      → s.readings ≤ s'.readings
  unfolding attempt is_available settle start_cooldown record_outcome log_attempt
  attempt_later before tried s s' rs h = ground (arith, steady (opened e.name s))

pub clock_mono : (w : World) → IsMonotone w → (i k : ℕ) → w.clock i ≤ w.clock (i + k)
clock_mono w mono i zero = let same : i + 0 ≡ i = omega arith in rw same (omega arith)
clock_mono w mono i (suc k) =
    let step : w.clock (i + k) ≤ w.clock (suc (i + k)) = mono (i + k) in
    let same : suc (i + k) ≡ i + suc k = omega arith in
    let step' : w.clock (i + k) ≤ w.clock (i + suc k) = rw same at step in
    omega (arith, clock_mono w mono i k)

pub clock_le : (w : World) → IsMonotone w → (i j : ℕ) → i ≤ j → w.clock i ≤ w.clock j
clock_le w mono i j h =
    let same : i + (j - i) ≡ j = omega arith in let t = clock_mono w mono i (j - i) in rw same at t

abbrev pub IsSteady : Engine → Type 0
IsSteady e = (s : Proxy) → Steady e s

abbrev pub Distinct : List Engine → Type 0
Distinct [] = Unit
Distinct (e ∷ es) = All (λ (x : Engine). x.name ≢ e.name) es × Distinct es

-- The deadline of `e` has come.
abbrev pub IsFree : World → Proxy → Engine → Type 0
IsFree w s e = deadline e.name s.cooldowns ≤ w.clock s.readings

-- `e` cools down for its cooldown's length after the time `t`.
abbrev pub IsCooling : ℕ → Proxy → Engine → Type 0
IsCooling t s e = t + e.cooldown_seconds * second ≤ deadline e.name s.cooldowns

module _ (w : World) where
  -- A loop that passes has had no results from its first provider.
  loop_head :
      (e : Engine) (es : List Engine) (before tried : List String) (s s' : Proxy)
      → run_engines w (e ∷ es) before s ≡ (ok (passed tried), s')
      → (mid : List String) × (s1 : Proxy) × (attempt w e true before s ≡ (ok ([], mid), s1))
        × (run_engines w es mid s1 ≡ (ok (passed tried), s'))
  unfolding run_engines won_by record_search
  loop_head e es before tried s s' h =
      let ((rs, mid), s1, turn, rest) = bind-eq-ok (attempt w e true before) _ s h in
      go rs mid s1 turn rest
    where
      go :
          (rs : List Result) (mid : List String) (s1 : Proxy)
          → attempt w e true before s ≡ (ok (rs, mid), s1)
          → (if is_empty rs then run_engines w es mid else won_by e rs mid) s1
            ≡ (ok (passed tried), s')
          → (mid : List String) × (s1 : Proxy) × (attempt w e true before s ≡ (ok ([], mid), s1))
            × (run_engines w es mid s1 ≡ (ok (passed tried), s'))
      go [] mid s1 turn rest = (mid, s1, turn, rest)
      go (r ∷ rs) mid s1 turn rest = cc

  -- A loop leaves the deadline of a provider that it does not hold.
  pub loop_other :
      (q : String) (es : List Engine) (before tried : List String) (s s' : Proxy)
      → All IsSteady es
      → All (λ (x : Engine). x.name ≢ q) es
      → run_engines w es before s ≡ (ok (passed tried), s')
      → (deadline q s'.cooldowns ≡ deadline q s.cooldowns) × (s.readings ≤ s'.readings)
  unfolding run_engines
  loop_other q [] before tried s s' k ne h = ground arith
  loop_other q (e ∷ es) before tried s s' k ne h =
      let (mid, s1, turn, rest) = loop_head e es before tried s s' h in
      let (same, later) = attempt_other w e k.0 q before mid s s1 [] ne.0 turn in
      let (same', later') = loop_other q es mid tried s1 s' k.1 ne.1 rest in
      (same' ∙ same, omega arith)

  module _ (mono : IsMonotone w) where
    -- Another provider's turn leaves `e` free, and the clock goes on.
    attempt-IsFree :
        (e : Engine) (es : List Engine) (before mid : List String) (s s1 : Proxy)
        → IsSteady e
        → All (λ (x : Engine). x.name ≢ e.name) es
        → attempt w e true before s ≡ (ok ([], mid), s1)
        → All (IsFree w s) es
        → All (IsFree w s1) es
    attempt-IsFree e [] before mid s s1 k ne turn free = tt
    attempt-IsFree e (x ∷ es) before mid s s1 k ne turn free =
        let (same, later) =
          attempt_other w e k x.name before mid s s1 [] (λ p. ne.0 (sym p)) turn in
        (
          omega (arith, clock_le w mono s.readings s1.readings later),
          attempt-IsFree e es before mid s s1 k ne.1 turn free.1,
        )

    pub later-IsCooling :
        (es : List Engine) (t t' : ℕ) (s : Proxy)
        → t ≤ t'
        → All (IsCooling t' s) es
        → All (IsCooling t s) es
    later-IsCooling [] t t' s h k = tt
    later-IsCooling (e ∷ es) t t' s h k = (omega arith, later-IsCooling es t t' s h k.1)

    -- A loop over providers that are all free, and that passes, leaves all of them cooling down.
    pub loop-IsCooling :
        (es : List Engine) (before tried : List String) (s s' : Proxy)
        → All IsSteady es
        → Distinct es
        → All (IsFree w s) es
        → run_engines w es before s ≡ (ok (passed tried), s')
        → All (IsCooling (w.clock s.readings) s') es
    loop-IsCooling [] before tried s s' k d free h = tt
    loop-IsCooling (e ∷ es) before tried s s' k d free h =
        let (mid, s1, turn, rest) = loop_head e es before tried s s' h in
        let step : w.clock s.readings ≤ w.clock (s.readings + 1) =
          clock_le w mono s.readings (s.readings + 1) (omega arith) in
        let here = attempt-deadline w e k.0 before mid s s1 step free.0 turn in
        let (same, later) = loop_other e.name es mid tried s1 s' k.1 d.0 rest in
        let others =
          loop-IsCooling es mid tried s1 s' k.1 d.1
            (attempt-IsFree e es before mid s s1 k.0 d.0 turn free.1) rest in
        let clock =
          clock_le w mono s.readings s1.readings (attempt_later w e k.0 before mid s s1 [] turn) in
        (omega arith, later-IsCooling es _ _ s' clock others)
