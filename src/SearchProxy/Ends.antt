-- ===== src/SearchProxy/Ends.antt =====
-- How an action ends: what it returns, and what it raises. One rule for each way to build an action.
use home_server.Common.{
  Bool, true, false, if◌then◌else◌, Py, ok, raise, Error, provider_error, manifest_error,
  catalog_error, value_error, type_error, runtime_error, attribute_error, key_error, os_error,
  Option, none, some,
}
use home_server.SearchProxy.Exec.{Proxy, Exec, pure, throw, try_provider, caught, ◌>>=◌, next}

abbrev pub Outcome : {A : Type 0} → (A → Type 0) → (Error → Type 0) → Py A → Type 0
Outcome R E (ok a) = R a
Outcome R E (raise e) = E e

pub record Ends {A : Type 0} (R : A → Type 0) (E : Error → Type 0) (m : Exec A) : Type 0 where
  pub at : (s : Proxy) → Outcome R E (m s).0

-- What a search raises: a `ProviderError`, a missing credential, or an attribute of no mapping.
abbrev pub Escapes : Error → Type 0
Escapes (provider_error m) = Unit
Escapes (runtime_error m) = Unit
Escapes attribute_error = Unit
Escapes _ = ⊥

-- The same without `ProviderError`.
abbrev pub Uncaught : Error → Type 0
Uncaught (runtime_error m) = Unit
Uncaught attribute_error = Unit
Uncaught _ = ⊥

abbrev pub OrNone : {A : Type 0} → (A → Type 0) → Option A → Type 0
OrNone R none = Unit
OrNone R (some a) = R a

module _ {A : Type 0} {R : A → Type 0} {E : Error → Type 0} where
  pub Ends-pure : {a : A} → R a → Ends R E (pure a)
  Ends-pure h = record { at = λ s. h }

  pub Ends-throw : {e : Error} → E e → Ends R E (throw e)
  Ends-throw h = record { at = λ s. h }

  pub Ends-if : (b : Bool) {m n : Exec A} → Ends R E m → Ends R E n → Ends R E (if b then m else n)
  Ends-if true km kn = km
  Ends-if false km kn = kn

  pub Ends-result : {r : Py A} → Outcome R E r → Ends R E (λ s. (r, s))
  Ends-result h = record { at = λ s. h }

module _ {A : Type 0} (R : A → Type 0) where
  -- The `except` clause takes the `ProviderError`s away.
  caught-Outcome : (r : Py A) → Outcome R Escapes r → Outcome (OrNone R) Uncaught (caught r)
  caught-Outcome (ok a) h = h
  caught-Outcome (raise (provider_error m)) h = tt
  caught-Outcome (raise (runtime_error m)) h = tt
  caught-Outcome (raise attribute_error) h = tt
  caught-Outcome (raise (manifest_error m)) h = h
  caught-Outcome (raise (catalog_error m)) h = h
  caught-Outcome (raise (value_error m)) h = h
  caught-Outcome (raise type_error) h = h
  caught-Outcome (raise key_error) h = h
  caught-Outcome (raise os_error) h = h

  pub Ends-try : {m : Exec A} → Ends R Escapes m → Ends (OrNone R) Uncaught (try_provider m)
  Ends-try {m} k = record { at = λ s. caught-Outcome (m s).0 (k.at s) }

module _ {A B : Type 0} {R' : A → Type 0} {R : B → Type 0} {E : Error → Type 0} where
  next-Outcome :
      (f : A → Exec B) (r : Py A) (s : Proxy)
      → Outcome R' E r
      → ((a : A) → R' a → Ends R E (f a))
      → Outcome R E (next f r s).0
  next-Outcome f (ok a) s h kf = (kf a h).at s
  next-Outcome f (raise e) s h kf = h

  pub Ends-bind :
      {m : Exec A} {f : A → Exec B}
      → Ends R' E m
      → ((a : A) → R' a → Ends R E (f a))
      → Ends R E (m >>= f)
  Ends-bind {m} {f} km kf = record { at = λ s. next-Outcome f (m s).0 (m s).1 (km.at s) kf }
