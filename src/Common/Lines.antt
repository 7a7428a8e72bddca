-- ===== src/Common/Lines.antt =====
-- `str.splitlines` and `str.partition`.
use Prim.Native.Nat.{ℕ}
use Prim.Native.Char.{code}
use Prim.Native.String.{String}
use mathlib.Core.Bool.{Bool, true, false, ◌&&◌, ◌||◌}
use mathlib.Core.Option.{Option, none, some}
use mathlib.Core.List.{List, [], ◌∷◌}
use home_server.Common.Tests.{leb, ◌==◌, if◌then◌else◌}

-- The characters at which `str.splitlines` ends a line.
abbrev pub is_line_end : ℕ → Bool
is_line_end c =
    (leb 10 c && leb c 13) || (leb 28 c && leb c 30) || c == 0x85 || c == 0x2028 || c == 0x2029

abbrev pub is_blank : String → Bool
is_blank String.[] = true
is_blank (String.◌∷◌ c s) = false

abbrev pub starts_feed : String → Bool
starts_feed String.[] = false
starts_feed (String.◌∷◌ c s) = code c == b'\n'

-- The first line of a text and the lines behind it. "\r\n" is one end, and an end at the end of the
-- text begins no line.
unfoldable pub lines_from : String → String × List String
lines_from String.[] = ("", [])
lines_from (String.◌∷◌ c s) =
    let (line, rest) = lines_from s in
    if is_line_end (code c)
    then (if code c == b'\r' && starts_feed s
        then (line, rest)
        else if is_blank s
        then ("", [])
        else ("", line ∷ rest))
    else (String.◌∷◌ c line, rest)

-- text.splitlines()
unfoldable pub splitlines : String → List String
unfolding lines_from
splitlines String.[] = []
splitlines (String.◌∷◌ c s) = let (line, rest) = lines_from (String.◌∷◌ c s) in line ∷ rest

-- s.partition(c), where the separator is there
unfoldable pub partition : ℕ → String → Option (String × String)
partition c String.[] = none
partition c (String.◌∷◌ d s) =
    let rest = partition c s in
    if code d == c
    then some ("", s)
    else elim rest [ none ↦ none | some p ↦ some (String.◌∷◌ d p.0, p.1) ]
