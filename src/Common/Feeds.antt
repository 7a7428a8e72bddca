-- ===== src/Common/Feeds.antt =====
-- Lines that are joined by line feeds and split again.
use Prim.Native.Char.{code}
use Prim.Native.String
use Prim.Native.String.{String}
use mathlib.Core.Path.{◌≡◌, refl}
use mathlib.Core.Bool.{false, ◌&&◌}
use mathlib.Core.List.{List, [], ◌∷◌}
use text.Mathlib.TextLemmas.{nil-append, cons-append, append_assoc as text_assoc}
use home_server.Common.Lists.{All}
use home_server.Common.Text.{join}
use home_server.Common.Lines.{is_line_end, is_blank, starts_feed, lines_from, splitlines}
use home_server.Common.Tests.{◌==◌, Bool-cases}
use mathlib.Core.Logic.{inl, inr}

-- No character ends a line.
abbrev pub IsLine : String → Type 0
IsLine String.[] = Unit
IsLine (String.◌∷◌ c s) = (is_line_end (code c) ≡ false) × IsLine s

-- A line before a line feed is the first line.
lines_from-feed :
    (line s : String)
    → IsLine line
    → lines_from (String.◌++◌ line (String.◌++◌ "\n" s)) ≡ (line, splitlines s)
unfolding lines_from splitlines
lines_from-feed String.[] String.[] h = refl
lines_from-feed String.[] (String.◌∷◌ d s) h = rw (nil-append, cons-append, nil-append)
lines_from-feed (String.◌∷◌ c line) s (plain, h) = rw (cons-append, lines_from-feed line s h, plain)

splitlines-nonempty :
    (line rest s : String)
    → rest ≡ String.◌++◌ "\n" s
    → splitlines (String.◌++◌ line rest)
      ≡ (lines_from (String.◌++◌ line rest)).0 ∷ (lines_from (String.◌++◌ line rest)).1
unfolding splitlines
splitlines-nonempty String.[] rest s e = rw (e, nil-append, cons-append, nil-append)
splitlines-nonempty (String.◌∷◌ c line) rest s e = rw cons-append

pub splitlines-feed :
    (line s : String)
    → IsLine line
    → splitlines (String.◌++◌ line (String.◌++◌ "\n" s)) ≡ line ∷ splitlines s
unfolding splitlines
splitlines-feed line s h =
    rw (splitlines-nonempty line (String.◌++◌ "\n" s) s refl, lines_from-feed line s h)

-- Each line with a line feed behind it, before the text `s`.
abbrev pub feeds : List String → String → String
feeds [] s = s
feeds (line ∷ lines) s = String.◌++◌ line (String.◌++◌ "\n" (feeds lines s))

pub join-feeds :
    (line : String) (lines : List String)
    → String.◌++◌ (join "\n" (line ∷ lines)) "\n" ≡ feeds (line ∷ lines) ""
unfolding join
join-feeds line [] = refl
join-feeds line (next ∷ lines) = rw (
  text_assoc line (String.◌++◌ "\n" (join "\n" (next ∷ lines))) "\n",
  text_assoc "\n" (join "\n" (next ∷ lines)) "\n",
  join-feeds next lines,
)

splitlines-feeds : (lines : List String) → All IsLine lines → splitlines (feeds lines "") ≡ lines
unfolding splitlines
splitlines-feeds [] h = refl
splitlines-feeds (line ∷ lines) h =
    rw (splitlines-feed line (feeds lines "") h.0) (rw (splitlines-feeds lines h.1))

-- Lines that are joined with a line feed behind each are the lines that the text is split into.
pub splitlines-join :
    (line : String) (lines : List String)
    → All IsLine (line ∷ lines)
    → splitlines (String.◌++◌ (join "\n" (line ∷ lines)) "\n") ≡ line ∷ lines
splitlines-join line lines h = rw (join-feeds line lines) (splitlines-feeds (line ∷ lines) h)

lines_from-IsLine : (s : String) → IsLine (lines_from s).0 × All IsLine (lines_from s).1
unfolding lines_from
lines_from-IsLine String.[] = (tt, tt)
lines_from-IsLine (String.◌∷◌ c s) =
    let (line, rest) = lines_from-IsLine s in
    elim (Bool-cases (is_line_end (code c))) [
      | inr e ↦ rw e ((e, line), rest)
      | inl e ↦ elim (Bool-cases (code c == b'\r' && starts_feed s)) [
        | inl f ↦ rw (e, f) (line, rest)
        | inr f ↦ elim (Bool-cases (is_blank s)) [
          | inl g ↦ rw (e, f, g) (tt, tt)
          | inr g ↦ rw (e, f, g) (tt, (line, rest))
        ]
      ]
    ]

-- No line of a text has a line end.
pub splitlines-IsLine : (s : String) → All IsLine (splitlines s)
unfolding splitlines
splitlines-IsLine String.[] = tt
splitlines-IsLine (String.◌∷◌ c s) = lines_from-IsLine (String.◌∷◌ c s)
