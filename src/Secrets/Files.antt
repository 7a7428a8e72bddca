-- ===== src/Secrets/Files.antt =====
-- `tracked_files`, `is_probably_text` and the files that `main` of validate-secrets.py looks at.
pub mod Program
use Prim.Native.String
use home_server.Common.{
  ℕ, String, code, str_eq, ◌==◌, not, contains, any, Bool, true, false, if◌then◌else◌, List, [],
  ◌∷◌, map, kept, take, Option, none, some, Py, ok, raise, ◌>>=◌,
}
use home_server.Common.Order.{sort_by}
use home_server.Json.{Value}
use home_server.ServiceCatalog.Names.{split}
use home_server.ServiceCatalog.Paths.{path_lt}
use home_server.Secrets.Rules.{Rule, load_creation_rules}
use home_server.Secrets.Scan.{Candidate, Outcome, scan, main}

-- What the script reads from outside: git's listing, or the exception of a run that fails; which paths
-- exist; the bytes of a file, if it can be read; `load_documents`; `str.lower`; `re.compile` with the text
-- of its error, and its `search`; Python's text of a list or a mapping.
pub record Worktree : Type 0 where
  pub listing : Py String
  pub exists : String → Bool
  pub bytes : String → Option (List ℕ)
  pub load : String → Py (List Value)
  pub lower : String → String
  pub compiles : String → Option String
  pub search : String → String → Bool
  pub render : Value → String

-- a file that cannot be read is none
unfoldable pub is_probably_text : Option (List ℕ) → Bool
is_probably_text none = false
is_probably_text (some bs) = not (any (λ b. b == 0) (take 8_192 bs))

abbrev by_parts : String → String → Bool
unfolding path_lt
by_parts a b = path_lt (split b'/' a) (split b'/' b)

-- sorted of the paths that exist, in what git prints with a zero byte after each
unfoldable pub tracked_files : (String → Bool) → String → List String
unfolding sort_by by_parts
tracked_files exists listing =
    sort_by by_parts (kept exists (kept (λ p. not (str_eq p "")) (split 0 listing)))

abbrev last_of : String → List String → String
last_of a [] = a
last_of a (b ∷ parts) = last_of b parts

-- path.name
abbrev name_of : String → String
name_of path = last_of "" (split b'/' path)

-- The text from the last dot on.
abbrev from_last_dot : String → String
from_last_dot String.[] = ""
from_last_dot (String.◌∷◌ c s) =
    let rest = from_last_dot s in
    if not (str_eq rest "") then rest else if code c == b'.' then String.◌∷◌ c s else ""

abbrev unless_dot : String → String
unless_dot s = if str_eq s "." then "" else s

-- path.suffix of a name: a dot at its start or its end begins no suffix
abbrev suffix_of : String → String
suffix_of String.[] = ""
suffix_of (String.◌∷◌ c s) = unless_dot (from_last_dot s)

module _ (t : Worktree) where
  unfoldable pub candidate : String → Candidate
  unfolding is_probably_text
  candidate path = record {
    path = path;
    name = name_of path;
    standard_manifest =
        contains (".yaml" ∷ ".yml" ∷ ".json" ∷ []) (t.lower (suffix_of (name_of path)));
    is_probably_text = is_probably_text (t.bytes path);
    documents = t.load path;
  }

  -- [args.rendered] if args.rendered else tracked_files()
  unfoldable pub candidates : Option String → Py (List Candidate)
  unfolding candidate tracked_files
  candidates (some path) = ok (candidate path ∷ [])
  candidates none = do listing ← t.listing; ok (map candidate (tracked_files t.exists listing))

  unfoldable pub creation_rules : Py (List Rule)
  unfolding load_creation_rules
  creation_rules = load_creation_rules t.compiles ".sops.yaml" (t.load ".sops.yaml")

  abbrev is_given : Option String → Bool
  is_given none = false
  is_given (some path) = true

  -- The files are listed only after the rules are loaded.
  abbrev judged : Option String → Py (List Rule) → Py Outcome
  unfolding candidates main
  judged rendered (raise e) = main t.render t.search (is_given rendered) (raise e) []
  judged rendered (ok rules) = do
    files ← candidates rendered
    main t.render t.search (is_given rendered) (ok rules) files

  unfoldable pub program : Option String → Py Outcome
  unfolding judged creation_rules
  program rendered = judged rendered creation_rules
