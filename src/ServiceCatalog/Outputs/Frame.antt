-- ===== src/ServiceCatalog/Outputs/Frame.antt =====
-- Which files a rendering changes.
use home_server.Common.{◌∈◌, ◌≡◌, String, List, [], ◌∷◌, some, ok}
use home_server.Json.{Fields}
use home_server.ServiceCatalog.Checks.{done}
use home_server.ServiceCatalog.Paths.{Repository, FilePath}
use home_server.ServiceCatalog.Structure.{validate_catalog_structure}
use home_server.ServiceCatalog.Outputs.{
  Files, homepage_path, cloudflare_path, blocky_path, blueprints_path, worker_path,
  generated_outputs,
}

abbrev pub output_paths : Repository → List FilePath
output_paths w =
    homepage_path w ∷ cloudflare_path w ∷ blocky_path w ∷ blueprints_path w ∷ worker_path w ∷ []

-- A file that a rendering has renewed: the catalog's structure has no error, the outputs are generated, and
-- the file is one of the five and has the content that was generated for it.
pub record Renewed (w : Repository) (catalog : Fields) (files after : Files) (path : FilePath)
    : Type 0 where
  pub sound : validate_catalog_structure w catalog ≡ done
  pub outputs : List (FilePath × String)
  pub generated : generated_outputs w catalog files ≡ ok outputs
  pub among : path ∈ output_paths w
  pub content : String
  pub output : (path, content) ∈ outputs
  pub renewed : after path ≡ some content

module _ (w : Repository) (path : FilePath) where
  abbrev paths_of : List (FilePath × String) → List FilePath
  paths_of [] = []
  paths_of ((p, content) ∷ outputs) = p ∷ paths_of outputs
