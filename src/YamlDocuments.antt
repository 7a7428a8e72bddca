-- ===== src/YamlDocuments.antt =====
-- scripts/ci/yaml_documents.py: the Kubernetes objects of a parsed document, and the annotations
-- that the checks print for GitHub Actions. `Loading` is `load_documents`.
pub mod Objects
pub mod Loading
pub mod Annotations
pub mod Tests
use home_server.Common.{
  ℕ, String, str_eq, concat, join, if◌then◌else◌, List, [], ◌∷◌, ◌++◌, Option, none, some, Py, ok,
  raise, ◌>>=◌,
}
use home_server.Common.Replace.{replace}
use home_server.Json.{Value, Items, Fields, arr, obj, nil, cons, end, field, get, in_set}

abbrev pub list_kinds : List String
list_kinds = "List" ∷ "SecretList" ∷ []

-- The generator's objects, in its order, or the exception that ends it. The recursion stays inside
-- the document: `nested_field` looks for the key "items".
unfoldable mutual
  unfolding get

  pub iter_kubernetes_objects : Value → Py (List Fields)
  iter_kubernetes_objects (obj fs) = do
    is_list ← in_set (get "kind" fs) list_kinds
    nested ← if is_list then nested_field fs else ok []
    ok (fs ∷ nested)
  iter_kubernetes_objects _ = ok []

  pub nested_field : Fields → Py (List Fields)
  nested_field end = ok []
  nested_field (field k v fs) = if str_eq k "items" then nested_list v else nested_field fs

  pub nested_list : Value → Py (List Fields)
  nested_list (arr vs) = nested_items vs
  nested_list _ = ok []

  pub nested_items : Items → Py (List Fields)
  nested_items nil = ok []
  nested_items (cons v vs) = do
    here ← iter_kubernetes_objects v
    there ← nested_items vs
    ok (here ++ there)

-- The message of an annotation. A text of the model has no surrogates, so that `backslashreplace`
-- leaves it as it is.
unfoldable pub escape_message : String → String
unfolding replace
escape_message message = replace b'\n' "%0A" (replace b'\r' "%0D" (replace b'%' "%25" message))

unfoldable pub escape_path : String → String
unfolding escape_message
escape_path path = replace b',' "%2C" (replace b':' "%3A" (escape_message path))

-- The line that `github_error` prints.
unfoldable pub github_error : String → Option String → String
unfolding escape_path
github_error message none =
    concat ("::error title=Cluster validation::" ∷ escape_message message ∷ [])
github_error message (some path) = concat (
    "::error file="
    ∷ escape_path path
    ∷ ",title=Cluster validation::"
    ∷ escape_message message
    ∷ [])
