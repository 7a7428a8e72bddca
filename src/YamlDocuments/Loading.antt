-- ===== src/YamlDocuments/Loading.antt =====
-- scripts/ci/yaml_documents.py: `load_documents`, from the run of yq.
pub mod RoundTrip
use home_server.Common.{
  ℕ, suc, show, strip, String, str_eq, concat, Bool, true, false, if◌then◌else◌, List, [], ◌∷◌, Py,
  ok, raise, manifest_error, ◌>>=◌, ◌>>◌,
}
use home_server.Common.Lines.{splitlines}
use home_server.Common.Tools.{ToolRun}
use home_server.Json.{Value}

-- What json.loads does with a line: it returns, or raises a JSONDecodeError of a text.
pub data Decoded : Type 0 where
  json : Value → Decoded
  invalid : String → Decoded

-- shutil.which, and json.loads
pub record Tools : Type 0 where
  pub has_command : String → Bool
  pub loads : String → Decoded

abbrev pub require_command : Tools → String → Py (Unit {0})
unfolding concat
require_command tools command =
    if tools.has_command command
    then ok tt
    else raise (manifest_error (concat ("required command is not installed: " ∷ command ∷ [])))

abbrev decoded : String → ℕ → Decoded → Py Value
unfolding concat show
decoded path number (json v) = ok v
decoded path number (invalid error) = raise (
    manifest_error (
      concat
        (path ∷ ": yq produced invalid JSON on output line " ∷ show number ∷ ": " ∷ error ∷ [])))

unfoldable pub parse_lines : Tools → String → ℕ → List String → Py (List Value)
unfolding decoded
parse_lines tools path number [] = ok []
parse_lines tools path number (line ∷ lines) =
    let rest = parse_lines tools path (suc number) lines in
    if str_eq (strip line) ""
    then rest
    else (decoded path number (tools.loads line) >>= λ document.
        rest >>= λ documents. ok (document ∷ documents))

abbrev or_unknown_error : String → String
or_unknown_error s = if str_eq s "" then "unknown yq error" else s

abbrev output_of : ToolRun → String → Py String
unfolding concat
output_of yq path =
    if yq.failed
    then raise (manifest_error (concat (path ∷ ": " ∷ or_unknown_error (strip yq.stderr) ∷ [])))
    else ok yq.stdout

unfoldable pub load_documents : Tools → ToolRun → String → Py (List Value)
unfolding require_command parse_lines splitlines output_of
load_documents tools yq path = do
  require_command tools "yq"
  stdout ← output_of yq path
  parse_lines tools path 1 (splitlines stdout)
