-- ===== src/Secrets/Scan.antt =====
-- `main` of validate-secrets.py: every Secret of every file that parses.
pub mod Complete
use home_server.Common.{
  ℕ, ◌+◌, String, concat, show, length, ◌==◌, ◌||◌, ◌&&◌, not, if◌then◌else◌, Bool, true, false,
  List, [], ◌∷◌, ◌++◌, map, flat_map, is_empty, Option, none, some, Py, ok, raise, Error,
  manifest_error, ◌>>=◌, flat_map_py,
}
use home_server.Json.{Value, Fields, get, eq_str}
use home_server.YamlDocuments.{iter_kubernetes_objects, github_error}
use home_server.Secrets.Rules.{Rule}
use home_server.Secrets.Validate.{validate_secret}

-- A file that `main` looks at: its path and name, whether its suffix is one of MANIFEST_SUFFIXES, whether
-- it has no zero byte at its beginning, and what `load_documents` makes of it.
pub record Candidate : Type 0 where
  pub path : String
  pub name : String
  pub standard_manifest : Bool
  pub is_probably_text : Bool
  pub documents : Py (List Value)

-- What one file adds: its annotations, each of which is a failure, and the Secrets that were counted.
pub record Report : Type 0 where
  pub annotations : List String
  pub secrets : ℕ
  pub parsed : ℕ

pub record Outcome : Type 0 where
  pub code : ℕ
  pub stdout : List String
  pub stderr : List String

-- the objects whose kind is "Secret"
unfoldable pub secrets_of : List Fields → List Fields
unfolding get
secrets_of objects = flat_map (λ o. if eq_str (get "kind" o) "Secret" then o ∷ [] else []) objects

abbrev sum_of : List ℕ → ℕ
sum_of [] = 0
sum_of (n ∷ ns) = n + sum_of ns

-- `search regex path` is `re.compile(regex).search(path) is not None`; `render` is `str` of a list or a
-- mapping; `rendered` says that a rendered bundle is judged in place of the tracked files.
module _ (render : Value → String) (search : String → String → Bool) (rendered : Bool)
    (rules : List Rule) where
  unfoldable pub expected_recipients : String → List (List String)
  expected_recipients path =
      flat_map
        (λ (r : Rule). if rendered || search r.path_regex path then r.recipients ∷ [] else []) rules

  unfoldable pub secret_errors : Candidate → Fields → List String
  unfolding expected_recipients validate_secret github_error
  secret_errors c secret =
      map (λ error. github_error error (some c.path))
        (validate_secret render secret c.name (not rendered) (expected_recipients c.path))

  abbrev document_secrets : Value → Py (List Fields)
  unfolding iter_kubernetes_objects secrets_of
  document_secrets document =
      iter_kubernetes_objects document >>= λ objects. ok (secrets_of objects)

  abbrev parsed_report : Candidate → Py (List Value) → Py (List Report)
  unfolding document_secrets secret_errors github_error
  parsed_report c (raise (manifest_error message)) = ok (
      if rendered || c.standard_manifest
      then record { annotations = github_error message (some c.path) ∷ []; secrets = 0; parsed = 0 }
        ∷ []
      else [])
  parsed_report c (raise e) = raise e
  parsed_report c (ok documents) = do
    secrets ← flat_map_py document_secrets documents
    ok (
        record {
          annotations = flat_map (secret_errors c) secrets;
          secrets = length secrets;
          parsed = 1;
        }
        ∷ [])

  -- the loop's body
  unfoldable pub report_of : Candidate → Py (List Report)
  unfolding parsed_report
  report_of c =
      if not rendered && (not c.standard_manifest && not c.is_probably_text)
      then ok []
      else parsed_report c c.documents

  abbrev verdict : List Report → Outcome
  unfolding concat show
  verdict reports =
      let printed = flat_map (λ (r : Report). r.annotations) reports in
      let parsed = sum_of (map (λ (r : Report). r.parsed) reports) in
      if is_empty printed
      then record {
        code = 0;
        stdout =
            concat (
              "Validated "
              ∷ show (sum_of (map (λ (r : Report). r.secrets) reports))
              ∷ " encrypted Kubernetes Secret document(s) across "
              ∷ show parsed
              ∷ " parsed file(s)."
              ∷ [])
            ∷ [];
        stderr = [];
      }
      else record {
        code = 1;
        stdout = printed;
        stderr =
            concat (
              "Secret validation failed with "
              ∷ show (length printed)
              ∷ " error(s) across "
              ∷ show parsed
              ∷ " parsed file(s)."
              ∷ [])
            ∷ [];
      }

  unfoldable pub scan : List Candidate → Py Outcome
  unfolding report_of verdict github_error
  scan [] = ok (record {
    code = 1;
    stdout = github_error "no files were found for Secret validation" none ∷ [];
    stderr = [];
  })
  scan (c ∷ candidates) = do reports ← flat_map_py report_of (c ∷ candidates); ok (verdict reports)

module _ (render : Value → String) (search : String → String → Bool) (rendered : Bool) where
  -- `creation_rules` is what `load_creation_rules` returns.
  unfoldable pub main : Py (List Rule) → List Candidate → Py Outcome
  unfolding scan github_error
  main (ok rules) candidates = scan render search rendered rules candidates
  main (raise (manifest_error message)) candidates =
      ok (record { code = 1; stdout = github_error message (some ".sops.yaml") ∷ []; stderr = [] })
  main (raise e) candidates = raise e
