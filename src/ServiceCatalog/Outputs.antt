-- ===== src/ServiceCatalog/Outputs.antt =====
-- scripts/service_catalog.py: `generated_outputs`, `render` and `validate_generated_outputs`.
pub mod Made
pub mod RoundTrip
pub mod Written
pub mod Frame
pub mod Fresh
use home_server.Common.{
  strip, ℕ, length, show, String, str_eq, concat, join, Bool, true, false, not, List, [], ◌∷◌, ◌++◌,
  map, is_empty, Option, none, some, if◌then◌else◌, Py, ok, raise, Error, os_error, catalog_error,
  ◌>>=◌,
}
use home_server.Common.Tools.{ToolRun}
use home_server.Json.{Value, Fields, obj, end, null, get, get_or, str_of}
use home_server.ServiceCatalog.Checks.{error_line, Check, for_each, report_if, done}
use home_server.ServiceCatalog.Paths.{Repository, FilePath, path_eq, relative}
use home_server.ServiceCatalog.Routes.{attr_or}
use home_server.ServiceCatalog.Regions.{replace_generated_region}
use home_server.ServiceCatalog.Documents.{homepage_document, dns_hostnames}
use home_server.ServiceCatalog.Blueprints.{authentik_blueprints_document, authentik_worker_patch}
use home_server.ServiceCatalog.Structure.{validate_catalog_structure}

-- The content of each file that exists.
abbrev pub Files : Type 0
Files = FilePath → Option String

abbrev pub write : FilePath → String → Files → Files
unfolding path_eq
write path content files p = if path_eq path p then some content else files p

-- path.read_text()
abbrev read_text : Option String → Py String
read_text none = raise os_error
read_text (some content) = ok content

abbrev pub ddns_start : String
ddns_start = "      # BEGIN SERVICE CATALOG GENERATED DOMAINS"

abbrev pub ddns_end : String
ddns_end = "      # END SERVICE CATALOG GENERATED DOMAINS"

abbrev pub blocky_start : String
blocky_start = "    # BEGIN SERVICE CATALOG GENERATED MAPPINGS"

abbrev pub blocky_end : String
blocky_end = "    # END SERVICE CATALOG GENERATED MAPPINGS"

abbrev homepage_header : String
homepage_header =
    "# Generated from colocated *.catalog.yaml descriptors by scripts/service_catalog.py.\n# Do not edit this file directly; run: python3 scripts/service_catalog.py render\n"

unfoldable pub ddns_lines : List String → List String
unfolding concat join
ddns_lines names = concat ("      - DOMAINS=" ∷ join "," names ∷ []) ∷ []

unfoldable pub blocky_lines : String → List String → List String
unfolding concat
blocky_lines address names = map (λ (h : String). concat ("    " ∷ h ∷ ": " ∷ address ∷ [])) names

abbrev or_yq_error : String → String
or_yq_error s = if str_eq s "" then "unknown yq error" else s

abbrev formatted : ToolRun → Py String
unfolding concat
formatted ended =
    if ended.failed
    then raise (
        catalog_error
          (concat ("yq could not format generated YAML: " ∷ or_yq_error (strip ended.stderr) ∷ [])))
    else ok ended.stdout

unfoldable pub yaml_from_json : Repository → Value → Py String
unfolding formatted
yaml_from_json w value =
    if w.has_yq
    then formatted (w.yq value)
    else raise (catalog_error "required command is not installed: yq")

-- The loop that replaces each output, in order; where a write fails, the outputs before stay replaced.
abbrev pub write_all :
    (FilePath → Py (Unit {0})) → List (FilePath × String) → Files → Files × Py (Unit {0})
write_all replaces [] files = (files, ok tt)
write_all replaces ((path, content) ∷ outputs) files =
    let rest = write_all replaces outputs (write path content files) in
    elim (replaces path) [ ok u ↦ rest | raise e ↦ (files, raise e) ]

-- What a command leaves: the files, the lines on stderr, and the lines on stdout or the exception.
pub record CommandResult : Type 0 where
  pub files : Files
  pub stderr : List String
  pub result : Py (List String)

unfoldable pub domain_lines : Fields → Py (List String)
unfolding dns_hostnames ddns_lines
domain_lines catalog = do names ← dns_hostnames catalog "cloudflare"; ok (ddns_lines names)

-- not path.is_file() or path.read_text() != expected
abbrev pub is_stale : Option String → String → Bool
is_stale none expected = true
is_stale (some content) expected = not (str_eq content expected)

module _ (w : Repository) where
  abbrev pub homepage_path : FilePath
  homepage_path = w.root ++ ("apps" ∷ "homepage" ∷ "config" ∷ "services.yaml" ∷ [])

  abbrev pub cloudflare_path : FilePath
  cloudflare_path = w.root ++ ("apps" ∷ "cloudflare-ddns" ∷ "kustomization.yaml" ∷ [])

  abbrev pub blocky_path : FilePath
  blocky_path = w.root ++ ("apps" ∷ "blocky" ∷ "config.yml" ∷ [])

  abbrev pub blueprints_path : FilePath
  blueprints_path = w.root ++ ("apps" ∷ "authentik" ∷ "application-blueprints.yaml" ∷ [])

  abbrev pub worker_path : FilePath
  worker_path = w.root ++ ("apps" ∷ "authentik" ∷ "generated-oidc-worker-env.yaml" ∷ [])

  -- The file with its region generated anew.
  unfoldable pub region_output : FilePath → String → String → List String → Files → Py String
  unfolding relative replace_generated_region
  region_output path start_marker end_marker generated files = do
    text ← read_text (files path)
    replace_generated_region (relative w path) start_marker end_marker generated text

  unfoldable pub homepage_text : Fields → Py String
  unfolding concat homepage_document yaml_from_json
  homepage_text catalog = do
    document ← homepage_document w catalog
    yaml ← yaml_from_json w document
    ok (concat (homepage_header ∷ yaml ∷ []))

  -- The lines of the split horizon: its address as text, and the hostnames.
  unfoldable pub split_lines : Fields → Py (List String)
  unfolding get_or str_of dns_hostnames blocky_lines
  split_lines catalog = do
    address ← attr_or (get_or "dns" (obj end) catalog) "splitHorizonAddress" null
    names ← dns_hostnames catalog "splitHorizon"
    ok (blocky_lines (str_of w.render address) names)

  unfoldable pub generated_outputs : Fields → Files → Py (List (FilePath × String))
  unfolding homepage_text domain_lines split_lines region_output authentik_blueprints_document
      authentik_worker_patch
  generated_outputs catalog files = do
    homepage ← homepage_text catalog
    domains ← domain_lines catalog
    cloudflare ← region_output cloudflare_path ddns_start ddns_end domains files
    mappings ← split_lines catalog
    blocky ← region_output blocky_path blocky_start blocky_end mappings files
    blueprints ← authentik_blueprints_document w catalog
    patch ← authentik_worker_patch w catalog
    ok (
        (homepage_path, homepage)
        ∷ (cloudflare_path, cloudflare)
        ∷ (blocky_path, blocky)
        ∷ (blueprints_path, blueprints)
        ∷ (worker_path, patch)
        ∷ [])

  -- The lines that were printed before a write failed are left out.
  abbrev pub rendered : Files → Py (List (FilePath × String)) → CommandResult
  unfolding concat relative
  rendered files (raise e) = record { files = files; stderr = []; result = raise e }
  rendered files (ok outputs) = record {
    files = (write_all w.replaces outputs files).0;
    stderr = [];
    result = (write_all w.replaces outputs files).1 >>= λ u.
        ok (map (λ (p : FilePath × String). concat ("Rendered " ∷ relative w p.0 ∷ [])) outputs);
  }

  abbrev rendered_if : Fields → Files → Check (Unit {0}) → CommandResult
  unfolding concat show generated_outputs
  rendered_if catalog files (raise e) = record { files = files; stderr = []; result = raise e }
  rendered_if catalog files (ok ([], u)) = rendered files (generated_outputs catalog files)
  rendered_if catalog files (ok (e ∷ errors, u)) = record {
    files = files;
    stderr = map error_line (e ∷ errors);
    result = raise (
        catalog_error (
          concat (
            "catalog input validation failed with "
            ∷ show (length (e ∷ errors))
            ∷ " error(s); no generated files were changed"
            ∷ [])));
  }

  unfoldable pub render : Fields → Files → CommandResult
  unfolding validate_catalog_structure rendered_if
  render catalog files = rendered_if catalog files (validate_catalog_structure w catalog)

  abbrev pub stale_check : Files → FilePath × String → Check (Unit {0})
  unfolding relative
  stale_check files (path, expected) =
      report_if (is_stale (files path) expected)
        (relative w path ∷ " is stale; run python3 scripts/service_catalog.py render" ∷ [])

  abbrev compared : Files → Py (List (FilePath × String)) → Check (Unit {0})
  compared files (raise e) = raise e
  compared files (ok outputs) = for_each (stale_check files) outputs

  unfoldable pub validate_generated_outputs : Fields → Files → Check (Unit {0})
  unfolding generated_outputs
  validate_generated_outputs catalog files = compared files (generated_outputs catalog files)
