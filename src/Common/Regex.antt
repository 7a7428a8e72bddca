-- ===== src/Common/Regex.antt =====
-- Regular expressions, matched by derivatives: the patterns of Python's `re` that the programs use.
use Prim.Native.Nat.{ℕ, zero, suc}
use Prim.Native.Char.{code}
use Prim.Native.String
use Prim.Native.String.{String}
use mathlib.Core.Bool.{Bool, true, false, ◌&&◌, ◌||◌}
use mathlib.Core.Option.{Option, none, some}
use home_server.Common.Text.{prefix}
use home_server.Common.Tests.{leb, ◌==◌, if◌then◌else◌}

pub data Regex : Type 0 where
  nothing empty : Regex
  -- one character, by its code
  one : (ℕ → Bool) → Regex
  both either : Regex → Regex → Regex
  many : Regex → Regex

abbrev pub nullable : Regex → Bool
nullable nothing = false
nullable empty = true
nullable (one p) = false
nullable (both r s) = nullable r && nullable s
nullable (either r s) = nullable r || nullable s
nullable (many r) = true

-- `both` and `either` where a side is trivial
abbrev both_of : Regex → Regex → Regex
both_of nothing s = nothing
both_of empty s = s
both_of r s = both r s

abbrev either_of : Regex → Regex → Regex
either_of nothing s = s
either_of r nothing = r
either_of r s = either r s

abbrev pub after : ℕ → Regex → Regex
after c nothing = nothing
after c empty = nothing
after c (one p) = if p c then empty else nothing
after c (both r s) = either_of (both_of (after c r) s) (if nullable r then after c s else nothing)
after c (either r s) = either_of (after c r) (after c s)
after c (many r) = both_of (after c r) (many r)

-- r.fullmatch(s) is not None
unfoldable pub matches : Regex → String → Bool
matches r String.[] = nullable r
matches r (String.◌∷◌ c s) = matches (after (code c) r) s

abbrev pub text_of : String → Regex
text_of String.[] = empty
text_of (String.◌∷◌ c s) = both (one (λ d. code c == d)) (text_of s)

abbrev pub times : ℕ → Regex → Regex
times zero r = empty
times (suc n) r = both r (times n r)

abbrev pub optional : Regex → Regex
optional r = either r empty

abbrev pub some_of : Regex → Regex
some_of r = both r (many r)

abbrev pub any_char : Regex
any_char = one (λ c. true)

abbrev pub between : ℕ → ℕ → ℕ → Bool
between low high c = leb low c && leb c high

abbrev pub digit_code : ℕ → Bool
digit_code c = between b'0' b'9' c

abbrev pub alphanumeric : ℕ → Bool
alphanumeric c = digit_code c || between b'a' b'z' c || between b'A' b'Z' c

abbrev pub hex_code : ℕ → Bool
hex_code c = digit_code c || between b'a' b'f' c || between b'A' b'F' c

-- The length of the longest beginning that matches.
unfoldable pub longest : Regex → String → Option ℕ
longest r String.[] = if nullable r then some 0 else none
longest r (String.◌∷◌ c s) = elim (longest (after (code c) r) s) [
  | some n ↦ some (suc n)
  | none ↦ if nullable r then some 0 else none
]

-- r.sub(replacement, s) of a pattern that matches no empty text and whose matches from one place all
-- end at one place. The number says how many characters of a match are still to be left out.
module _ (r : Regex) (replacement : String → String) where
  unfoldable pub substitute : ℕ → String → String
  unfolding longest
  substitute n String.[] = ""
  substitute (suc n) (String.◌∷◌ c s) = substitute n s
  substitute zero (String.◌∷◌ c s) = elim (longest r (String.◌∷◌ c s)) [
    | none ↦ String.◌∷◌ c (substitute zero s)
    | some zero ↦ String.◌∷◌ c (substitute zero s)
    | some (suc n) ↦ String.◌++◌ (replacement (prefix (suc n) (String.◌∷◌ c s))) (substitute n s)
  ]
