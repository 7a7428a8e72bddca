-- ===== src/Common/Text.antt =====
-- Python's `str` methods that the programs use, over the native `String`.
use Prim.Native.Nat.{ℕ, zero, suc, ◌/◌, ◌%◌, ◌≤◌}
use Prim.Native.Char.{Char, code}
use Prim.Native.String
use Prim.Native.String.{String}
use mathlib.Core.Path.{◌≡◌, refl}
use mathlib.Core.Bool.{Bool, true, false, ◌&&◌, ◌||◌}
use mathlib.Core.List.{List, [], ◌∷◌}
use native.Mathlib.Omega.{arith}
use text.Mathlib.Text.{◌==◌ as str_eq}
use home_server.Common.Tests.{leb, ltb, ◌==◌, if◌then◌else◌}

-- The Unicode characters for which `str.isspace` holds.
unfoldable pub is_space : ℕ → Bool
is_space c =
    (leb 9 c && leb c 13)
    || (leb 28 c && leb c 32)
    || c == 0x85
    || c == 0xa0
    || c == 0x1680
    || (leb 0x2000 c && leb c 0x200a)
    || c == 0x2028
    || c == 0x2029
    || c == 0x202f
    || c == 0x205f
    || c == 0x3000

-- s.lstrip(), s.rstrip(), s.strip()
unfoldable pub lstrip : String → String
lstrip String.[] = ""
lstrip (String.◌∷◌ c s) = if is_space (code c) then lstrip s else String.◌∷◌ c s

abbrev rstrip_cons : Char → String → String
rstrip_cons c String.[] = if is_space (code c) then "" else String.◌∷◌ c ""
rstrip_cons c (String.◌∷◌ d s) = String.◌∷◌ c (String.◌∷◌ d s)

unfoldable pub rstrip : String → String
rstrip String.[] = ""
rstrip (String.◌∷◌ c s) = rstrip_cons c (rstrip s)

abbrev pub strip : String → String
strip s = rstrip (lstrip s)

-- s[:n]
abbrev pub prefix : ℕ → String → String
prefix zero s = ""
prefix (suc n) String.[] = ""
prefix (suc n) (String.◌∷◌ c s) = String.◌∷◌ c (prefix n s)

-- len(s)
abbrev pub size : String → ℕ
size String.[] = 0
size (String.◌∷◌ c s) = suc (size s)

pub size-prefix_le : (n : ℕ) (s : String) → size (prefix n s) ≤ n
size-prefix_le zero s = omega arith
size-prefix_le (suc n) String.[] = omega arith
size-prefix_le (suc n) (String.◌∷◌ c s) = omega (arith, size-prefix_le n s)

-- "".join(parts): an f-string is its parts joined
unfoldable pub concat : List String → String
concat [] = ""
concat (s ∷ parts) = String.◌++◌ s (concat parts)

-- separator.join(parts)
unfoldable pub join : String → List String → String
join sep [] = ""
join sep (s ∷ []) = s
join sep (s ∷ t ∷ parts) = String.◌++◌ s (String.◌++◌ sep (join sep (t ∷ parts)))

-- s.startswith(p), s.endswith(p)
unfoldable pub starts_with : String → String → Bool
starts_with s String.[] = true
starts_with String.[] (String.◌∷◌ d p) = false
starts_with (String.◌∷◌ c s) (String.◌∷◌ d p) = code c == code d && starts_with s p

unfoldable pub ends_with : String → String → Bool
ends_with String.[] p = str_eq "" p
ends_with (String.◌∷◌ c s) p = str_eq (String.◌∷◌ c s) p || ends_with s p

-- str(n) of a non-negative integer; `suc n` rounds are enough, since each divides by ten
abbrev digit : ℕ → String
digit zero = "0"
digit (suc zero) = "1"
digit (suc (suc zero)) = "2"
digit (suc (suc (suc zero))) = "3"
digit (suc (suc (suc (suc zero)))) = "4"
digit (suc (suc (suc (suc (suc zero))))) = "5"
digit (suc (suc (suc (suc (suc (suc zero)))))) = "6"
digit (suc (suc (suc (suc (suc (suc (suc zero))))))) = "7"
digit (suc (suc (suc (suc (suc (suc (suc (suc zero)))))))) = "8"
digit (suc (suc (suc (suc (suc (suc (suc (suc (suc n))))))))) = "9"

show_on : ℕ → ℕ → String → String
show_on zero n rest = rest
show_on (suc fuel) n rest =
    let now = String.◌++◌ (digit (n % 10)) rest in
    let more = show_on fuel (n / 10) now in if ltb n 10 then now else more

unfoldable pub show : ℕ → String
unfolding show_on
show n = show_on (suc n) n ""

text_runs :
    (strip "  a b \n" ≡ "a b")
    × (strip " " ≡ "")
    × (join ", " ("a" ∷ "b" ∷ []) ≡ "a, b")
    × (show 0 ≡ "0")
    × (show 1205 ≡ "1205")
    × (prefix 2 "abc" ≡ "ab")
    × (starts_with "apps/x" "apps/" ≡ true)
    × (ends_with "a.b.c" ".c" ≡ true)
    × (ends_with "a.b.c" ".d" ≡ false)
unfolding lstrip rstrip is_space join show starts_with ends_with
text_runs = (refl, refl, refl, refl, refl, refl, refl, refl, refl)
