-- ===== src/Common/Replace.antt =====
-- `s.replace(c, t)` for one character `c`, and escapes built of it.
use Prim.Native.Nat.{ℕ}
use Prim.Native.Char.{code}
use Prim.Native.String
use Prim.Native.String.{String}
use mathlib.Core.Logic.{◌≢◌, inl, inr}
use native.Mathlib.Omega.{arith}
use text.Mathlib.TextLemmas.{nil-append, cons-append}
use home_server.Common.Tests.{◌==◌, if◌then◌else◌, Bool-cases}

unfoldable pub replace : ℕ → String → String → String
replace c t String.[] = ""
replace c t (String.◌∷◌ d s) =
    let rest = replace c t s in if code d == c then String.◌++◌ t rest else String.◌∷◌ d rest

-- No character of the text has the code `c`.
abbrev pub Lacks : ℕ → String → Type 0
Lacks c String.[] = Unit
Lacks c (String.◌∷◌ d s) = (code d ≢ c) × Lacks c s

pub Lacks-append : (c : ℕ) (s t : String) → Lacks c s → Lacks c t → Lacks c (String.◌++◌ s t)
Lacks-append c String.[] t h k = rw nil-append k
Lacks-append c (String.◌∷◌ d s) t h k = rw cons-append (h.0, Lacks-append c s t h.1 k)

-- A character that is replaced by a text without it is gone.
pub replace-Lacks : (c : ℕ) (t s : String) → Lacks c t → Lacks c (replace c t s)
unfolding replace
replace-Lacks c t String.[] h = tt
replace-Lacks c t (String.◌∷◌ d s) h = elim (Bool-cases (code d == c)) [
  | inl e ↦ rw e (Lacks-append c t _ h (replace-Lacks c t s h))
  | inr e ↦ rw e (ground arith, replace-Lacks c t s h)
]

-- What a text lacks it also lacks after a replacement by a text that lacks it.
pub Lacks-replace : (c b : ℕ) (t s : String) → Lacks c t → Lacks c s → Lacks c (replace b t s)
unfolding replace
Lacks-replace c b t String.[] h k = tt
Lacks-replace c b t (String.◌∷◌ d s) h k = elim (Bool-cases (code d == b)) [
  | inl e ↦ rw e (Lacks-append c t _ h (Lacks-replace c b t s h k.1))
  | inr e ↦ rw e (k.0, Lacks-replace c b t s h k.1)
]
