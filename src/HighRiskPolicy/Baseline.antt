-- ===== src/HighRiskPolicy/Baseline.antt =====
-- `read_baseline`, `write_baseline`, and what `main` does with the findings.
pub mod Gate
pub mod RoundTrip
use Prim.Native.String
use home_server.Common.{
  Char, code, ℕ, String, str_eq, concat, join, strip, lstrip, starts_with, length, show, ◌==◌, ◌||◌,
  ◌&&◌, not, leb, if◌then◌else◌, Bool, true, false, List, [], ◌∷◌, ◌++◌, flat_map, contains, map,
  is_empty, Option, none, some, Py, ok, raise, manifest_error, Error,
}
use home_server.Common.Order.{sorted_set}
use home_server.Common.Lines.{is_blank, splitlines}
use home_server.Json.{Value}
use home_server.YamlDocuments.{github_error}
use home_server.HighRiskPolicy.Texts.{Library}
use home_server.HighRiskPolicy.Detect.{detect}

-- a line that is kept, without the white space around it
unfoldable pub kept_line : String → List String
unfolding lstrip starts_with
kept_line line =
    if is_blank (strip line) || starts_with (lstrip line) "#" then [] else strip line ∷ []

-- The lines; the second value that the function returns is their set.
unfoldable pub read_baseline : String → List String
unfolding splitlines kept_line
read_baseline content = flat_map kept_line (splitlines content)

abbrev pub header_lines : List String
header_lines =
    "# Grandfathered high-risk constructs that predate this guardrail." ∷ "#"
    ∷ "# CI requires this list to be sorted, exact, and free of stale entries. Removing"
    ∷ "# a risk therefore also removes its exception; adding one requires an explicit"
    ∷ "# baseline change for review. Format: rule|apiVersion/kind|namespace|name|location" ∷ []

-- the five literals, each with the line feed at its end
unfoldable pub header : List String → String
unfolding concat
header [] = ""
header (line ∷ lines) = concat (line ∷ "\n" ∷ header lines ∷ [])

unfoldable pub write_baseline : List String → String
unfolding header join sorted_set concat
write_baseline findings = concat (header header_lines ∷ join "\n" (sorted_set findings) ∷ "\n" ∷ [])

-- What the process returns and prints.
pub record Outcome : Type 0 where
  pub code : ℕ
  pub stdout : List String
  pub stderr : List String

abbrev refused : List String → List String → Outcome
refused stdout stderr = record { code = 1; stdout = stdout; stderr = stderr }

abbrev same_texts : List String → List String → Bool
same_texts [] [] = true
same_texts [] (y ∷ ys) = false
same_texts (x ∷ xs) [] = false
same_texts (x ∷ xs) (y ∷ ys) = str_eq x y && same_texts xs ys

-- sorted(xs - ys)
unfoldable pub sorted_difference : List String → List String → List String
unfolding sorted_set
sorted_difference xs ys = sorted_set (flat_map (λ x. if contains ys x then [] else x ∷ []) xs)

module _ (path : String) where
  abbrev introduced_line : String → String
  unfolding github_error concat
  introduced_line item = github_error (concat ("new high-risk construct: " ∷ item ∷ [])) (some path)

  abbrev stale_line : String → String
  unfolding github_error concat
  stale_line item =
      github_error
        (concat ("stale high-risk exception (remove it to prevent reintroduction): " ∷ item ∷ []))
        (some path)

  -- main, from the baseline's lines on
  unfoldable pub compare : List String → List String → Outcome
  unfolding sorted_set sorted_difference introduced_line stale_line github_error concat show
  compare findings lines =
      let introduced = sorted_difference findings lines in
      let stale = sorted_difference lines findings in
      if not (same_texts lines (sorted_set lines))
      then refused
          (github_error
              (concat ("high-risk baseline must be sorted and contain no duplicates: " ∷ path ∷ []))
              none
            ∷ [])
          []
      else if is_empty introduced && is_empty stale
      then record {
        code = 0;
        stdout =
            concat (
              "High-risk policy matches "
              ∷ show (length (sorted_set findings))
              ∷ " exact grandfathered finding(s)."
              ∷ [])
            ∷ [];
        stderr = [];
      }
      else refused (map introduced_line introduced ++ map stale_line stale) (
          concat (
            "High-risk policy failed: "
            ∷ show (length introduced)
            ∷ " new and "
            ∷ show (length stale)
            ∷ " stale finding(s)."
            ∷ [])
          ∷ [])

-- The arguments of the script.
pub record Arguments : Type 0 where
  pub manifest : String
  pub baseline : String
  pub write_baseline : Bool

module _ (lib : Library) (arguments : Arguments) where
  abbrev on_findings : List String → Option String → Outcome × Option String
  unfolding compare read_baseline write_baseline concat show sorted_set github_error
  on_findings findings file =
      if arguments.write_baseline
      then (
        record {
          code = 0;
          stdout =
              concat (
                "Wrote "
                ∷ show (length (sorted_set findings))
                ∷ " grandfathered finding(s) to "
                ∷ arguments.baseline
                ∷ "."
                ∷ [])
              ∷ [];
          stderr = [];
        },
        some (write_baseline findings),
      )
      else elim file [
        | none ↦ (
          refused
              (github_error (concat ("high-risk baseline is missing: " ∷ arguments.baseline ∷ []))
                  none
                ∷ [])
              [],
          none,
        )
        | some content ↦ (compare arguments.baseline findings (read_baseline content), some content)
      ]

  -- from `detect` on: an exception of it ends the process
  unfoldable pub on_detected : Py (List String) → Option String → Py (Outcome × Option String)
  unfolding on_findings
  on_detected (ok findings) file = ok (on_findings findings file)
  on_detected (raise e) file = raise e

  -- `documents` is what `load_documents` returns; `file` is the baseline's content, if there is one,
  -- before and after. An exception that `main` does not catch ends the process.
  unfoldable pub main : Py (List Value) → Option String → Py (Outcome × Option String)
  unfolding on_detected github_error
  main (raise (manifest_error message)) file =
      ok (refused (github_error message (some arguments.manifest) ∷ []) [], file)
  main (raise e) file = raise e
  main (ok documents) file = on_detected (detect lib documents) file
