-- ===== src/ApplicationState/Tests.antt =====
-- The check of the applications' state, at small trees.
use home_server.Common.{
  ◌≡◌, ◌↔◌, refl, [], ◌∷◌, String, str_eq, join, false, if◌then◌else◌, ok, starts_with,
}
use home_server.ServiceCatalog.Checks.{◌>>=◌, error_line}
use home_server.ApplicationState.{Tree, package_image, code_image, forbidden_check, main, reported}
use home_server.ApplicationState.Owned.{IsOwned, Passes, main-IsOwned_iff}

-- The images hold what they have to, and the other files are empty.
abbrev content : String → String
unfolding package_image code_image join
content file =
    if str_eq file package_image.file
    then join " " package_image.texts
    else if str_eq file code_image.file
    then join " " code_image.texts
    else ""

abbrev tree : Tree
unfolding content
tree = record { exists = λ path. false; read = λ file. ok (content file) }

main-IsOwned_iff_example : Passes (main tree) ↔ IsOwned tree
main-IsOwned_iff_example = main-IsOwned_iff tree

runs :
    main tree
    ≡ ok (record {
      status = 0;
      stdout = "Application-state ownership policy is satisfied." ∷ [];
      stderr = [];
    })
unfolding main ◌>>=◌ tree reported forbidden_check starts_with error_line
runs = refl

-- A retired file fails the check.
fails :
    main
      (record { exists = λ path. str_eq path "images/todoist-mcp/package.json"; read = tree.read })
    ≡ ok (record {
      status = 1;
      stdout = [];
      stderr =
          "ERROR: retired state reconciler or custom MCP artifact exists: images/todoist-mcp/package.json"
          ∷ [];
    })
unfolding main ◌>>=◌ tree reported forbidden_check starts_with error_line
fails = refl
