-- ===== src/ServiceCatalog/Paths.antt =====
-- scripts/service_catalog.py: the repository's files as the checks see them, and `repo_path`.
use home_server.Common.{
  String, str_eq, concat, join, Bool, true, false, ◌||◌, List, [], ◌∷◌, Option, none, some, Py, ok,
  raise, catalog_error, if◌then◌else◌,
}
use home_server.Common.Order.{str_lt}
use home_server.Common.Tools.{ToolRun}
use home_server.Json.{Value}

-- An absolute path, by its parts.
abbrev pub FilePath : Type 0
FilePath = List String

-- path.relative_to(other), or the ValueError
unfoldable pub relative_to : FilePath → FilePath → Option FilePath
relative_to path [] = some path
relative_to [] (b ∷ other) = none
relative_to (a ∷ path) (b ∷ other) =
    let rest = relative_to path other in if str_eq a b then rest else none

-- str(path) of a relative path
abbrev pub show_path : FilePath → String
unfolding join
show_path [] = "."
show_path (a ∷ path) = join "/" (a ∷ path)

-- path < other, part by part
unfoldable pub path_lt : FilePath → FilePath → Bool
path_lt [] [] = false
path_lt [] (b ∷ other) = true
path_lt (a ∷ path) [] = false
path_lt (a ∷ path) (b ∷ other) =
    let rest = path_lt path other in if str_eq a b then rest else str_lt a b

unfoldable pub path_eq : FilePath → FilePath → Bool
path_eq [] [] = true
path_eq [] (b ∷ other) = false
path_eq (a ∷ path) [] = false
path_eq (a ∷ path) (b ∷ other) = let rest = path_eq path other in if str_eq a b then rest else false

-- The parts of a URL that `urlparse` returns.
pub record ParsedUrl : Type 0 where
  pub scheme : String
  pub netloc : String
  pub path : String
  pub params : String
  pub query : String
  pub fragment : String
  pub hostname : Option String

-- What the checks read from outside: the files below the repository's root, yq's documents, Python's own
-- text of a list or a mapping, `urlparse`, and whether `ipaddress.ip_address` accepts a text.
pub record Repository : Type 0 where
  pub root : FilePath
  -- (base / relative).resolve(), which follows the links of the file system
  pub resolve : FilePath → String → FilePath
  pub is_file : FilePath → Bool
  pub is_dir : FilePath → Bool
  pub exists : FilePath → Bool
  -- the write of the temporary file beside the path, and os.replace: whether they succeed
  pub replaces : FilePath → Py (Unit {0})
  pub load_documents : FilePath → Py (List Value)
  pub render : Value → String
  -- shutil.which("yq") is not None, and the run of yq that formats a document
  pub has_yq : Bool
  pub yq : Value → ToolRun
  -- str.upper, by the case tables of Unicode
  pub upper : String → String
  -- str.casefold
  pub casefold : String → String
  -- repr of a text
  pub quote : String → String
  pub urlparse : String → Py ParsedUrl
  pub is_ip_address : String → Bool

-- path.relative_to(REPO_ROOT) of a path inside the repository, as text
unfoldable pub relative : Repository → FilePath → String
unfolding relative_to
relative w path = elim (relative_to path w.root) [
  | some rest ↦ show_path rest
  | none ↦ show_path path
]

abbrev within_root : String → FilePath → Option FilePath → Py FilePath
unfolding concat
within_root value candidate (some rest) = ok candidate
within_root value candidate none =
    raise (catalog_error (concat ("path escapes the repository: " ∷ value ∷ [])))

unfoldable pub repo_path : Repository → String → Py FilePath
unfolding relative_to within_root
repo_path w value =
    let candidate = w.resolve w.root value in
    within_root value candidate (relative_to candidate w.root)

-- path.parent
abbrev pub parent : FilePath → FilePath
parent [] = []
parent (a ∷ []) = []
parent (a ∷ b ∷ path) = a ∷ parent (b ∷ path)

-- path in paths
unfoldable pub holds_path : List FilePath → FilePath → Bool
unfolding path_eq
holds_path [] p = false
holds_path (q ∷ paths) p = path_eq q p || holds_path paths p

-- sorted(set(paths))
unfoldable pub insert_path : FilePath → List FilePath → List FilePath
unfolding path_eq path_lt
insert_path p [] = p ∷ []
insert_path p (q ∷ paths) =
    if path_eq p q
    then q ∷ paths
    else if path_lt q p
    then q ∷ insert_path p paths
    else p ∷ q ∷ paths

unfoldable pub sorted_paths : List FilePath → List FilePath
unfolding insert_path
sorted_paths [] = []
sorted_paths (p ∷ paths) = insert_path p (sorted_paths paths)
