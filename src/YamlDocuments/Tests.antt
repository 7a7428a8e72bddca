-- ===== src/YamlDocuments/Tests.antt =====
-- A list of one object, a path that tries to begin a workflow command, and what yq prints.
use home_server.Common.{
  ◌∈◌, ◌≡◌, refl, ◌↔◌, true, false, [], ◌∷◌, some, ok, raise, manifest_error, if◌then◌else◌, String,
  str_eq, rstrip, lstrip, is_space,
}
use home_server.Common.Tools.{ToolRun}
use home_server.YamlDocuments.Loading.{Tools, Decoded, json, invalid, load_documents}
use home_server.YamlDocuments.Loading.RoundTrip.{ArePrinted, load_documents-printed}
use home_server.Json.{Value, null, bool, Fields, str, arr, obj, get, get_or, to_items, to_fields}
use home_server.YamlDocuments.{iter_kubernetes_objects, github_error}
use home_server.YamlDocuments.Objects.{Nested, iter_kubernetes_objects_iff}
use home_server.YamlDocuments.Annotations.{OneLine, github_error-OneLine}

abbrev pod : Fields
pod = to_fields (("kind", str "Pod") ∷ [])

abbrev listing : Fields
listing = to_fields (("kind", str "List") ∷ ("items", arr (to_items (str "x" ∷ obj pod ∷ []))) ∷ [])

objects : iter_kubernetes_objects (obj listing) ≡ ok (listing ∷ pod ∷ [])
unfolding iter_kubernetes_objects get get_or
objects = refl

iter_kubernetes_objects_iff_example : (pod ∈ (listing ∷ pod ∷ [])) ↔ Nested pod (obj listing)
iter_kubernetes_objects_iff_example =
    iter_kubernetes_objects_iff (obj listing) (listing ∷ pod ∷ []) pod objects

github_error-OneLine_example : OneLine (github_error "bad\n::set-env name=A::b" (some "a\r\n.yaml"))
github_error-OneLine_example = github_error-OneLine "bad\n::set-env name=A::b" (some "a\r\n.yaml")

abbrev print : Value → String
print (bool b) = if b then "true" else "false"
print v = "null"

abbrev loads : String → Decoded
loads line =
    if str_eq line "true"
    then json (bool true)
    else if str_eq line "null"
    then json null
    else invalid "bad"

abbrev tools : Tools
tools = record { has_command = λ command. true; loads = loads }

abbrev yq : ToolRun
yq = record { failed = false; stdout = "true\nnull\n"; stderr = "" }

printed : ArePrinted tools print (bool true ∷ null ∷ [])
unfolding rstrip lstrip is_space
printed = (
  record { line = (refl, (refl, (refl, (refl, tt)))); inked = refl; reads = refl },
  (record { line = (refl, (refl, (refl, (refl, tt)))); inked = refl; reads = refl }, tt),
)

load_documents-printed_example : load_documents tools yq "a.yaml" ≡ ok (bool true ∷ null ∷ [])
load_documents-printed_example =
    load_documents-printed tools print yq "a.yaml" (bool true ∷ null ∷ []) refl refl refl printed

-- A text with U+0085 in a document cuts its line.
cut :
    load_documents tools
      (record { failed = false; stdout = "true\u{85}null\nx"; stderr = "" })
      "a.yaml"
    ≡ raise (manifest_error "a.yaml: yq produced invalid JSON on output line 3: bad")
unfolding load_documents rstrip lstrip is_space
cut = refl
