-- ===== src/SearchProxy/Ordered/Fallback/Asking.antt =====
-- The turns of the loops over providers, each with what the provider's search has answered.
use home_server.Common.{
  String, ◌≡◌, refl, ◌≢◌, ◌⊎◌, inl, inr, Bool, Bool-cases, true, false, not, if◌then◌else◌, List,
  [], ◌∷◌, ◌++◌, is_empty, Option, none, some, ok, arith,
}
use home_server.SearchProxy.Exec.{Proxy, World, pure, try_provider, bind-eq-ok, ◌>>=◌, ◌>>◌}
use home_server.SearchProxy.Results.{Result}
use home_server.SearchProxy.Attempt.{Engine, attempt, settle, record_outcome, log_attempt}
use home_server.SearchProxy.Cooldown.{is_available, start_cooldown}
use home_server.SearchProxy.Ordered.{Turn, Document, document, found, passed, won_by, run_engines}

module _ (w : World) (e : Engine) (before : List String) (s s1 : Proxy) where
  -- The provider is in its cooldown, and is not asked.
  pub record Skips : Type 0 where
    pub asked : Proxy
    pub cooling : is_available w e.name s ≡ (ok false, asked)
    pub moved : attempt w e true before s ≡ (ok ([], before), s1)

  -- The provider is asked, and its search fails or has no results.
  pub record Fails : Type 0 where
    pub asked : Proxy
    pub answered : Proxy
    pub ready : is_available w e.name s ≡ (ok true, asked)
    pub answer :
        (try_provider e.search asked ≡ (ok none, answered))
        ⊎ (try_provider e.search asked ≡ (ok (some []), answered))
    pub moved : attempt w e true before s ≡ (ok ([], before ++ e.name ∷ []), s1)

  -- The provider is asked, and its search has these results.
  pub record Wins (results : List Result) : Type 0 where
    pub asked : Proxy
    pub answered : Proxy
    pub ready : is_available w e.name s ≡ (ok true, asked)
    pub answer : try_provider e.search asked ≡ (ok (some results), answered)
    pub some_result : results ≢ []
    pub moved : attempt w e true before s ≡ (ok (results, before ++ e.name ∷ []), s1)

-- The providers of a list take their turns in its order, each in the state that the one before it has
-- left, up to the first that has results.
pub data Turns (w : World) : List Engine → List String → Proxy → Turn → Proxy → Type 0 where
  over : (before : List String) (s : Proxy) → Turns w [] before s (passed before) s
  skips :
      {e : Engine} {es : List Engine} {before : List String} {s s1 s' : Proxy} {t : Turn}
      → Skips w e before s s1
      → Turns w es before s1 t s'
      → Turns w (e ∷ es) before s t s'
  fails :
      {e : Engine} {es : List Engine} {before : List String} {s s1 s' : Proxy} {t : Turn}
      → Fails w e before s s1
      → Turns w es (before ++ e.name ∷ []) s1 t s'
      → Turns w (e ∷ es) before s t s'
  wins :
      {e : Engine} {es : List Engine} {before : List String} {s s1 : Proxy} {results : List Result}
      → Wins w e before s s1 results
      → Turns w (e ∷ es) before s (found (document e results (before ++ e.name ∷ []))) s1

module _ (w : World) (e : Engine) (before : List String) where
  settled :
      (o : Option (List Result)) (s s1 : Proxy) (rs : List Result) (tried : List String)
      → settle w e true (before ++ e.name ∷ []) o s ≡ (ok (rs, tried), s1)
      → (tried ≡ before ++ e.name ∷ []) × ((o ≡ none) × (rs ≡ []) ⊎ (o ≡ some rs))
  unfolding settle record_outcome log_attempt start_cooldown
  settled none s s1 rs tried h = ground arith
  settled (some []) s s1 rs tried h = ground arith
  settled (some (r ∷ results)) s s1 rs tried h = ground arith

module _ (w : World) (e : Engine) (before : List String) (s s1 : Proxy) where
  -- A call of `attempt` that returns is one of the three turns.
  attempt-turn :
      (rs : List Result) (tried : List String)
      → attempt w e true before s ≡ (ok (rs, tried), s1)
      → (rs ≡ []) × (tried ≡ before) × Skips w e before s s1
        ⊎ (rs ≡ []) × (tried ≡ before ++ e.name ∷ []) × Fails w e before s s1
        ⊎ (tried ≡ before ++ e.name ∷ []) × Wins w e before s s1 rs
  unfolding attempt record_outcome
  attempt-turn rs tried h =
      let (available, asked, ready, rest) = bind-eq-ok (is_available w e.name) _ s h in
      by_availability available asked ready rest
    where
      asked_turn :
          (asked answered : Proxy) (o : Option (List Result))
          → is_available w e.name s ≡ (ok true, asked)
          → try_provider e.search asked ≡ (ok o, answered)
          → (tried ≡ before ++ e.name ∷ []) × ((o ≡ none) × (rs ≡ []) ⊎ (o ≡ some rs))
          → (rs ≡ []) × (tried ≡ before ++ e.name ∷ []) × Fails w e before s s1
            ⊎ (tried ≡ before ++ e.name ∷ []) × Wins w e before s s1 rs
      asked_turn asked answered o ready answer (grown, inl (failed, empty)) = inl (
        empty,
        grown,
        record {
          asked = asked;
          answered = answered;
          ready = ready;
          answer = inl (rw failed at answer);
          moved = rw (empty, grown) at h;
        },
      )
      asked_turn asked answered o ready answer (grown, inr same) = elim (Bool-cases (is_empty rs)) [
        | inl e ↦
            let empty = nil_of rs e in
            inl (
              empty,
              grown,
              record {
                asked = asked;
                answered = answered;
                ready = ready;
                answer = inr (rw (same, empty) at answer);
                moved = rw (empty, grown) at h;
              },
            )
        | inr e ↦ inr (
          grown,
          record {
            asked = asked;
            answered = answered;
            ready = ready;
            answer = rw same at answer;
            some_result = full rs e;
            moved = rw grown at h;
          },
        )
      ]
        where
          nil_of : (xs : List Result) → is_empty xs ≡ true → xs ≡ []
          nil_of [] e = refl
          nil_of (x ∷ xs) e = cc

          full : (xs : List Result) → is_empty xs ≡ false → xs ≢ []
          full [] e = cc
          full (x ∷ xs) e = λ p. cc

      by_availability :
          (available : Bool) (asked : Proxy)
          → is_available w e.name s ≡ (ok available, asked)
          → (if not available
                then (do record_outcome e.name "cooldown"; pure ([], before))
                else (do o ← try_provider e.search; settle w e true (before ++ e.name ∷ []) o))
              asked
            ≡ (ok (rs, tried), s1)
          → (rs ≡ []) × (tried ≡ before) × Skips w e before s s1
            ⊎ (rs ≡ []) × (tried ≡ before ++ e.name ∷ []) × Fails w e before s s1
            ⊎ (tried ≡ before ++ e.name ∷ []) × Wins w e before s s1 rs
      by_availability false asked ready rest =
          let empty : rs ≡ [] = cc in
          let same : tried ≡ before = cc in
          inl
            (empty, same, record { asked = asked; cooling = ready; moved = rw (empty, same) at h })
      by_availability true asked ready rest =
          let (o, answered, answer, last) = bind-eq-ok (try_provider e.search) _ asked rest in
          inr (
            asked_turn asked answered o ready answer
              (settled w e before o answered s1 rs tried last))

module _ (w : World) where
  pub run_engines-Turns :
      (es : List Engine) (before : List String) (s s' : Proxy) (t : Turn)
      → run_engines w es before s ≡ (ok t, s')
      → (last : Proxy) × Turns w es before s t last × ((l : List String) → t ≡ passed l → last ≡ s')
  unfolding run_engines won_by
  run_engines-Turns [] before s s' t h =
      let ended : passed before ≡ t = cc in
      let same : s ≡ s' = cc in (s, rw (← ended) (over before s), λ l e. same)
  run_engines-Turns (e ∷ es) before s s' t h =
      let ((rs, tried), s1, turn, rest) = bind-eq-ok (attempt w e true before) _ s h in
      elim (attempt-turn w e before s s1 rs tried turn) [
        | inl (empty, same, skip) ↦
            let (last, turns, end) =
              run_engines-Turns es before s1 s' t (rw (empty, same) at rest) in
            (last, skips {s' = last} skip turns, end)
        | inr (inl (empty, grown, fail)) ↦
            let (last, turns, end) =
              run_engines-Turns es (before ++ e.name ∷ []) s1 s' t (rw (empty, grown) at rest) in
            (last, fails {s' = last} fail turns, end)
        | inr (inr (grown, win)) ↦
            let ended = won rs tried s1 win.some_result rest in
            (s1, rw (ended, grown) (wins win), λ l p. cc (p, ended))
      ]
    where
      won :
          (rs : List Result) (tried : List String) (s1 : Proxy)
          → rs ≢ []
          → (if is_empty rs then run_engines w es tried else won_by e rs tried) s1 ≡ (ok t, s')
          → t ≡ found (document e rs tried)
      won [] tried s1 some_result rest = absurd (some_result refl)
      won (r ∷ rs) tried s1 some_result rest = cc

pub Turns-append :
    {w : World} {ns ms : List Engine} {before mid : List String} {s s1 s2 : Proxy} {first t : Turn}
    → Turns w ns before s first s1
    → first ≡ passed mid
    → Turns w ms mid s1 t s2
    → Turns w (ns ++ ms) before s t s2
Turns-append (over before s) e more = let same = passed-injective e in rw same more
  where
    passed-injective : {a b : List String} → passed a ≡ passed b → a ≡ b
    passed-injective e = cc
Turns-append (skips skip turns) e more = skips skip (Turns-append turns e more)
Turns-append (fails fail turns) e more = fails fail (Turns-append turns e more)
Turns-append (wins win) e more = cc

pub Turns-longer :
    {w : World} (ms : List Engine) {ns : List Engine} {before : List String} {s s1 : Proxy}
    {t : Turn} {d : Document}
    → Turns w ns before s t s1
    → t ≡ found d
    → Turns w (ns ++ ms) before s t s1
Turns-longer ms (over before s) e = cc
Turns-longer ms (skips skip turns) e = skips skip (Turns-longer ms turns e)
Turns-longer ms (fails fail turns) e = fails fail (Turns-longer ms turns e)
Turns-longer ms (wins win) e = wins win
