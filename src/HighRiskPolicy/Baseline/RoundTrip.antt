-- ===== src/HighRiskPolicy/Baseline/RoundTrip.antt =====
-- A baseline that `write_baseline` writes is read back as the findings, sorted.
use Prim.Native.String
use text.Mathlib.TextLemmas.{nil-append, append-nil, append_assoc as text_assoc}
use home_server.Common.{
  append_assoc, append-nil as list_append_nil, all, All, All-in, All-of_in, code, String, concat,
  join, lstrip, rstrip, starts_with, is_space, ◌≡◌, refl, sym, ◌∙◌, Bool, true, not, ◌&&◌, List, [],
  ◌∷◌, ◌++◌, flat_map, arith,
}
use home_server.Common.Order.{sorted_set, sorted_set-in}
use home_server.Common.Lines.{is_line_end, lines_from, splitlines}
use home_server.Common.Feeds.{IsLine, splitlines-feed, feeds, join-feeds}
use home_server.HighRiskPolicy.Baseline.{
  kept_line, read_baseline, header, header_lines, write_baseline,
}

-- A finding that stands on a line of its own, with no white space around it, and that is no comment.
pub record IsClean (s : String) : Type 0 where
  pub is_line : IsLine s
  pub kept : kept_line s ≡ s ∷ []

read_baseline-feeds :
    (lines : List String) (s : String)
    → All IsLine lines
    → read_baseline (feeds lines s) ≡ flat_map kept_line lines ++ read_baseline s
unfolding read_baseline
read_baseline-feeds [] s h = refl
read_baseline-feeds (line ∷ lines) s h =
    let ih : flat_map kept_line (splitlines (feeds lines s))
        ≡ flat_map kept_line lines ++ flat_map kept_line (splitlines s) =
      read_baseline-feeds lines s h.1 in
    rw (splitlines-feed line (feeds lines s) h.0, ih) (sym (append_assoc (kept_line line) _ _))

header-feeds : (lines : List String) (s : String) → String.◌++◌ (header lines) s ≡ feeds lines s
unfolding header concat
header-feeds [] s = nil-append s
header-feeds (line ∷ lines) s = rw (
  append-nil (header lines),
  text_assoc line (String.◌++◌ "\n" (header lines)) s,
  text_assoc "\n" (header lines) s,
  header-feeds lines s,
)

kept_clean : (lines : List String) → All IsClean lines → flat_map kept_line lines ≡ lines
kept_clean [] h = refl
kept_clean (line ∷ lines) h = rw (h.0.kept, kept_clean lines h.1)

abbrev pub is_plain : String → Bool
is_plain String.[] = true
is_plain (String.◌∷◌ c s) = not (is_line_end (code c)) && is_plain s

pub is_plain-IsLine : (s : String) → is_plain s ≡ true → IsLine s
is_plain-IsLine String.[] h = tt
is_plain-IsLine (String.◌∷◌ c s) h = (ground arith, is_plain-IsLine s (ground arith))

all_plain : (lines : List String) → all is_plain lines ≡ true → All IsLine lines
all_plain [] h = tt
all_plain (line ∷ lines) h = (is_plain-IsLine line (ground arith), all_plain lines (ground arith))

header-kept : flat_map kept_line header_lines ≡ []
unfolding kept_line lstrip rstrip is_space starts_with
header-kept = refl

lines_clean : (lines : List String) → All IsClean lines → All IsLine lines
lines_clean [] h = tt
lines_clean (line ∷ lines) h = (h.0.is_line, lines_clean lines h.1)

read_lines : (lines : List String) → All IsClean lines → read_baseline (feeds lines "") ≡ lines
unfolding read_baseline splitlines
read_lines lines h =
    let kept : flat_map kept_line lines ++ [] ≡ lines =
      list_append_nil (flat_map kept_line lines) ∙ kept_clean lines h in
    rw (read_baseline-feeds lines "" (lines_clean lines h)) kept

written-lines :
    (lines : List String)
    → All IsClean lines
    → read_baseline (String.◌++◌ (join "\n" lines) "\n") ≡ lines
unfolding read_baseline splitlines lines_from kept_line lstrip rstrip join
written-lines [] h = refl
written-lines (line ∷ lines) h = rw (join-feeds line lines) (read_lines (line ∷ lines) h)

-- The lines that are read of what is written are the findings in their order, each once, if each of them
-- is one line that is no comment and has no white space around it.
pub read_baseline-write_baseline :
    (findings : List String)
    → All IsClean findings
    → read_baseline (write_baseline findings) ≡ sorted_set findings
unfolding write_baseline concat
read_baseline-write_baseline findings h =
    let xs = sorted_set findings in
    let clean : All IsClean xs =
      All-of_in IsClean xs (λ a m. All-in IsClean a findings h (sorted_set-in a findings m)) in
    let body = String.◌++◌ (join "\n" xs) "\n" in
    rw
      (
        header-feeds header_lines body,
        read_baseline-feeds header_lines body (all_plain header_lines refl),
        header-kept,
      )
      (written-lines xs clean)
