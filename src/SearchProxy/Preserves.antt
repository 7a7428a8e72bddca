-- ===== src/SearchProxy/Preserves.antt =====
-- Invariants of actions: whatever an action does, returning or raising, a predicate of the state
-- holds after it if it held before. One rule for each way to build an action.
use home_server.Common.{Bool, true, false, if◌then◌else◌, Py, ok, raise, Error, ◌≡◌, refl}
use home_server.SearchProxy.Exec.{Proxy, Exec, pure, throw, try_provider, ◌>>=◌, next}

pub record Preserves {A : Type 0} (P : Proxy → Type 0) (m : Exec A) : Type 0 where
  pub holds : (s : Proxy) → P s → P (m s).1

module _ {A : Type 0} {P : Proxy → Type 0} where
  pub Preserves-pure : (a : A) → Preserves P (pure a)
  Preserves-pure a = record { holds = λ s h. h }

  pub Preserves-throw : (e : Error) → Preserves P (throw {A = A} e)
  Preserves-throw e = record { holds = λ s h. h }

  pub Preserves-result : (r : Py A) → Preserves P (λ s. (r, s))
  Preserves-result r = record { holds = λ s h. h }

  pub Preserves-try : (m : Exec A) → Preserves P m → Preserves P (try_provider m)
  Preserves-try m k = record { holds = λ s h. k.holds s h }

  pub Preserves-if :
      (b : Bool) (m n : Exec A) → Preserves P m → Preserves P n → Preserves P (if b then m else n)
  Preserves-if true m n km kn = km
  Preserves-if false m n km kn = kn

module _ {A B : Type 0} {P : Proxy → Type 0} where
  Preserves-next :
      (f : A → Exec B) (r : Py A)
      → ((a : A) → Preserves P (f a))
      → (s : Proxy) → P s
      → P (next f r s).1
  Preserves-next f (ok a) kf s h = (kf a).holds s h
  Preserves-next f (raise e) kf s h = h

  pub Preserves-bind :
      (m : Exec A) (f : A → Exec B)
      → Preserves P m
      → ((a : A) → Preserves P (f a))
      → Preserves P (m >>= f)
  Preserves-bind m f km kf = record {
    holds = λ s h. Preserves-next f (m s).0 kf (m s).1 (km.holds s h);
  }

  -- The rest of the block may use what the first action returned.
  pub Preserves-bind_known :
      (m : Exec A) (f : A → Exec B)
      → Preserves P m
      → ((a : A) (s s' : Proxy) → m s ≡ (ok a, s') → Preserves P (f a))
      → Preserves P (m >>= f)
  Preserves-bind_known m f km kf = record { holds = λ s h. go s (m s) refl (km.holds s h) }
    where
      go : (s : Proxy) (r : Py A × Proxy) → m s ≡ r → P r.1 → P (next f r.0 r.1).1
      go s (ok a, s') e h = (kf a s s' e).holds s' h
      go s (raise x, s') e h = h

pub ruleset preserves_rules =
    (Preserves-pure, Preserves-throw, Preserves-result, Preserves-try, Preserves-if, Preserves-bind)
