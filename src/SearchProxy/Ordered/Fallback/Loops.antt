-- ===== src/SearchProxy/Ordered/Fallback/Loops.antt =====
-- The order in which a loop over providers asks them.
use home_server.Common.{
  ◌∈◌, String, ◌≡◌, refl, sym, ◌≢◌, ◌⊎◌, inl, inr, true, if◌then◌else◌, List, [], ◌∷◌, ◌++◌,
  append-nil, append_assoc, map, ◌∙◌, is_empty, Option, none, some, ok, arith,
}
use home_server.SearchProxy.Exec.{Proxy, World, bind-eq-ok}
use home_server.SearchProxy.Results.{Result}
use home_server.SearchProxy.Attempt.{Engine, attempt}
use home_server.SearchProxy.Cooldown.{is_available, start_cooldown}
use home_server.SearchProxy.Ordered.{Turn, document, found, passed, won_by, run_engines}

-- `Fallback names tried winner`: of the providers `names`, in this order, those of `tried` were
-- asked, and the search ended with `winner`. Nothing stands in `tried` behind the winner.
pub data Fallback : List String → List String → Option String → Type 0 where
  exhausted : Fallback [] [] none
  skipped :
      (n : String) {ns tried : List String} {o : Option String}
      → Fallback ns tried o
      → Fallback (n ∷ ns) tried o
  failed :
      (n : String) {ns tried : List String} {o : Option String}
      → Fallback ns tried o
      → Fallback (n ∷ ns) (n ∷ tried) o
  won : (n : String) (ns : List String) → Fallback (n ∷ ns) (n ∷ []) (some n)

-- After a turn of the loop: `attempted` grew by providers that were asked in the order of the
-- list, and a document comes from the last of them, with results.
abbrev pub Follows : List String → List String → Turn → Type 0
Follows names before (passed attempted) =
    (tried : List String) × (attempted ≡ before ++ tried) × Fallback names tried none
Follows names before (found d) =
    (tried : List String) × (d.attempted ≡ before ++ tried)
    × Fallback names tried d.provider
    × (d.organic_results ≢ [])

module _ (w : World) (e : Engine) where
  -- A turn leaves its provider untried and has no results, or puts it at the end of `attempted`.
  attempt_cases :
      (attempted : List String) (s s' : Proxy) {rs : List Result} {tried : List String}
      → attempt w e true attempted s ≡ (ok (rs, tried), s')
      → ((rs ≡ []) × (tried ≡ attempted)) ⊎ (tried ≡ attempted ++ e.name ∷ [])
  unfolding attempt is_available start_cooldown
  attempt_cases attempted s s' h = ground arith

unfoldable pub names : List Engine → List String
names es = map (λ (e : Engine). e.name) es

Follows-skipped :
    (n : String) (ns before : List String) (t : Turn)
    → Follows ns before t
    → Follows (n ∷ ns) before t
Follows-skipped n ns before (passed attempted) (tried, e, f) = (tried, e, skipped n f)
Follows-skipped n ns before (found d) (tried, e, f, r) = (tried, e, skipped n f, r)

Follows-failed :
    (n : String) (ns before : List String) (t : Turn)
    → Follows ns (before ++ n ∷ []) t
    → Follows (n ∷ ns) before t
Follows-failed n ns before (passed attempted) (tried, e, f) =
    (n ∷ tried, e ∙ append_assoc before (n ∷ []) tried, failed n f)
Follows-failed n ns before (found d) (tried, e, f, r) =
    (n ∷ tried, e ∙ append_assoc before (n ∷ []) tried, failed n f, r)

module _ (w : World) (e : Engine) (es : List Engine) (before : List String) (s1 s' : Proxy)
    (t : Turn) where
  -- the branch of the loop's body after `attempt`
  branch-Follows :
      (s : Proxy) (rs : List Result) (tried : List String)
      → attempt w e true before s ≡ (ok (rs, tried), s1)
      → (if is_empty rs then run_engines w es tried else won_by e rs tried) s1 ≡ (ok t, s')
      → ((mid : List String) → run_engines w es mid s1 ≡ (ok t, s') → Follows (names es) mid t)
      → Follows (names (e ∷ es)) before t
  unfolding names won_by
  branch-Follows s [] tried turn rest ih = elim (attempt_cases w e before s s1 turn) [
    | inl (_, same) ↦ Follows-skipped e.name _ _ t (ih before (rw same at rest))
    | inr grown ↦ Follows-failed e.name _ _ t (ih (before ++ e.name ∷ []) (rw grown at rest))
  ]
  branch-Follows s (r ∷ rs) tried turn rest ih =
      let ended : t ≡ found (document e (r ∷ rs) tried) = cc in
      let grown : tried ≡ before ++ e.name ∷ [] =
        ground (arith, attempt_cases w e before s s1 turn) in
      rw ended (e.name ∷ [], grown, won e.name _, cc)

module _ (w : World) where
  pub run_engines-Follows :
      (es : List Engine) (before : List String) (s s' : Proxy) (t : Turn)
      → run_engines w es before s ≡ (ok t, s')
      → Follows (names es) before t
  unfolding run_engines names won_by
  run_engines-Follows [] before s s' t h =
      let ended : t ≡ passed before = cc in rw ended ([], sym (append-nil before), exhausted)
  run_engines-Follows (e ∷ es) before s s' t h =
      let ((rs, tried), s1, turn, rest) = bind-eq-ok (attempt w e true before) _ s h in
      branch-Follows w e es before s1 s' t s rs tried turn rest
        (λ mid more. run_engines-Follows es mid s1 s' t more)

pub Fallback-append :
    {ns ms tried more : List String} {o end : Option String}
    → Fallback ns tried end
    → end ≡ none
    → Fallback ms more o
    → Fallback (ns ++ ms) (tried ++ more) o
Fallback-append exhausted e g = g
Fallback-append (skipped n f) e g = skipped n (Fallback-append f e g)
Fallback-append (failed n f) e g = failed n (Fallback-append f e g)
Fallback-append (won n ns) e g = cc

pub Fallback-longer :
    (ms : List String) {ns tried : List String} {o : Option String}
    → Fallback ns tried o
    → o ≢ none
    → Fallback (ns ++ ms) tried o
Fallback-longer ms exhausted h = absurd (h refl)
Fallback-longer ms (skipped n f) h = skipped n (Fallback-longer ms f h)
Fallback-longer ms (failed n f) h = failed n (Fallback-longer ms f h)
Fallback-longer ms (won n ns) h = won n (ns ++ ms)

pub Fallback-winner :
    {ns tried : List String} {o : Option String} {n : String}
    → Fallback ns tried o
    → o ≡ some n
    → n ∈ ns
Fallback-winner exhausted e = cc
Fallback-winner (skipped n f) e = inr (Fallback-winner f e)
Fallback-winner (failed n f) e = inr (Fallback-winner f e)
Fallback-winner (won n ns) e = inl (cc)
