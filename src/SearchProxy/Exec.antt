-- ===== src/SearchProxy/Exec.antt =====
-- The process state of search_provider_proxy.py, and actions on it that may raise.
use home_server.Common.{
  ◌≡◌, refl, ℕ, String, List, Error, Py, ok, raise, provider_error, Option, none, some,
}
use home_server.Json.{Value}

-- One call of `urllib.request.urlopen`. The URL is kept as its base and its query parameters.
pub record Request : Type 0 where
  pub url : String
  pub parameters : List (String × String)
  pub headers : List (String × String)
  pub timeout : ℕ

-- What the body reads as: its length in bytes, and the document if it is JSON text.
pub record Body : Type 0 where
  pub size : ℕ
  pub document : Option Value

pub data Reply : Type 0 where
  response : ℕ → Body → Reply
  http_error : ℕ → Reply
  url_error timed_out : Reply
  -- an exception that the `except` clause does not name, such as `http.client.IncompleteRead`
  broken : String → Reply

-- One line on standard error.
pub record LogLine : Type 0 where
  pub level : String
  pub provider : String
  pub outcome : String
  pub result_count : ℕ

-- The module's variables, with what the process has done to the outside: the clock readings that it
-- took, the requests that it sent, oldest first, and the lines that it logged, newest first.
pub record Proxy : Type 0 where
  pub metrics : List ((String × String) × ℕ)
  pub search_metrics : List (String × ℕ)
  pub cooldowns : List (String × ℕ)
  pub readings : ℕ
  pub requests : List Request
  pub logs : List LogLine
  -- the counter of `_search_slots`
  pub free_slots : ℕ

-- What the process reads from outside. `clock i` is the i-th `time.monotonic()`, in nanoseconds;
-- `upstream i` answers the i-th request; `getenv` is `os.getenv(name, "")`; `searxng_url` is the
-- value of SEARXNG_URL; `render` is Python's `str` of a list or a mapping; `int_of` is `int(text)`
-- for a result that is not negative, and `none` where it raises or the result is negative;
-- `score n` is the `repr` of `max(1.0 / n, 0.01)`.
pub record World : Type 0 where
  pub clock : ℕ → ℕ
  pub upstream : ℕ → Request → Reply
  pub getenv : String → String
  pub searxng_url : String
  pub render : Value → String
  pub int_of : String → Option ℕ
  pub score : ℕ → String

-- A call changes the state even if it raises.
abbrev pub Exec : Type 0 → Type 0
Exec A = Proxy → Py A × Proxy

module _ {A : Type 0} where
  abbrev pub pure : A → Exec A
  pure a s = (ok a, s)

  abbrev pub throw : Error → Exec A
  throw e s = (raise e, s)

  -- try: m except ProviderError: `none`
  abbrev pub caught : Py A → Py (Option A)
  caught (ok a) = ok (some a)
  caught (raise (provider_error m)) = ok none
  caught (raise e) = raise e

  abbrev pub try_provider : Exec A → Exec (Option A)
  try_provider m s = let (r, s') = m s in (caught r, s')

module _ {A B : Type 0} where
  abbrev pub next : (A → Exec B) → Py A → Exec B
  next f (ok a) = f a
  next f (raise e) = throw e

  infixl 5 ◌>>=◌ ◌>>◌
  abbrev pub ◌>>=◌ : Exec A → (A → Exec B) → Exec B
  ◌>>=◌ m f s = let (r, s') = m s in next f r s'

  abbrev pub ◌>>◌ : Exec A → Exec B → Exec B
  m >> k = m >>= λ _. k

  returned :
      (f : A → Exec B) (r : Py A × Proxy) {b : B} {t : Proxy}
      → next f r.0 r.1 ≡ (ok b, t)
      → (a : A) × (s' : Proxy) × (r ≡ (ok a, s')) × (f a s' ≡ (ok b, t))
  returned f (ok a, s') h = (a, s', refl, h)
  returned f (raise e, s') h = cc

  -- A block that returns has returned from its first action.
  pub bind-eq-ok :
      (m : Exec A) (f : A → Exec B) (s : Proxy) {b : B} {t : Proxy}
      → (m >>= f) s ≡ (ok b, t)
      → (a : A) × (s' : Proxy) × (m s ≡ (ok a, s')) × (f a s' ≡ (ok b, t))
  bind-eq-ok m f s h = returned f (m s) h
