-- ===== src/ServiceCatalog/Regions.antt =====
-- scripts/service_catalog.py: `replace_generated_region`.
pub mod Overwrites
use Prim.Native.String
use home_server.Common.{
  ℕ, zero, suc, ◌+◌, leb, String, str_eq, concat, join, List, [], ◌∷◌, ◌++◌, take, Option, none,
  some, if◌then◌else◌, Py, ok, raise, catalog_error,
}
use home_server.Common.Lines.{splitlines}

abbrev pub next : Option ℕ → Option ℕ
next none = none
next (some n) = some (suc n)

-- lines.index(marker), or the ValueError
unfoldable pub index_of : String → List String → Option ℕ
index_of marker [] = none
index_of marker (line ∷ lines) = if str_eq line marker then some 0 else next (index_of marker lines)

-- lines[n:]
abbrev pub drop {ℓ} : {A : Type ℓ} → ℕ → List A → List A
drop zero xs = xs
drop (suc n) [] = []
drop (suc n) (x ∷ xs) = drop n xs

-- The lines with the region replaced; `name` is the file's path below the root.
abbrev pub with_region : String → List String → List String → Option ℕ → Option ℕ → Py (List String)
unfolding concat
with_region name generated lines (some start) (some stop) =
    if leb stop start
    then raise (catalog_error (concat (name ∷ " has reversed service-catalog markers" ∷ [])))
    else ok (take (start + 1) lines ++ generated ++ drop stop lines)
with_region name generated lines _ _ =
    raise (catalog_error (concat (name ∷ " is missing its service-catalog markers" ∷ [])))

unfoldable pub region_lines :
    String → String → String → List String → List String → Py (List String)
unfolding index_of with_region
region_lines name start_marker end_marker generated lines =
    with_region name generated lines (index_of start_marker lines) (index_of end_marker lines)

-- "\n".join(lines) + "\n"
abbrev pub as_text : List String → String
as_text lines = String.◌++◌ (join "\n" lines) "\n"

abbrev pub text_of_lines : Py (List String) → Py String
text_of_lines (raise e) = raise e
text_of_lines (ok lines) = ok (as_text lines)

unfoldable pub replace_generated_region :
    String → String → String → List String → String → Py String
unfolding region_lines splitlines join
replace_generated_region name start_marker end_marker generated text =
    text_of_lines (region_lines name start_marker end_marker generated (splitlines text))
