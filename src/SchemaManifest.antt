-- ===== src/SchemaManifest.antt =====
-- scripts/ci/prepare-schema-manifest.py: a rendered manifest without the payloads of its Secrets.
pub mod Blanked
pub mod Documents
pub mod Tests
use home_server.Common.{
  ℕ, String, str_eq, concat, show, ◌+◌, ◌==◌, if◌then◌else◌, Bool, true, false, List, [], ◌∷◌, ◌++◌,
  Option, none, some, Py, ok, raise, manifest_error, ◌>>=◌,
}
use home_server.Json.{
  Value, Items, Fields, null, str, arr, obj, nil, cons, end, field, get, eq_str, in_set,
}
use home_server.YamlDocuments.{list_kinds, github_error}

-- base64("schema-placeholder"), and the text itself
abbrev pub data_placeholder : String
data_placeholder = "c2NoZW1hLXBsYWNlaG9sZGVy"

abbrev pub string_placeholder : String
string_placeholder = "schema-placeholder"

abbrev pub fill : String → Fields → Fields
fill placeholder end = end
fill placeholder (field k v fs) = field k (str placeholder) (fill placeholder fs)

abbrev pub blank : String → Value → Value
blank placeholder (obj fs) = obj (fill placeholder fs)
blank placeholder v = v

-- what becomes of one field
abbrev pub blanked_field : String → Value → Value
blanked_field key v =
    if str_eq key "data"
    then blank data_placeholder v
    else if str_eq key "stringData"
    then blank string_placeholder v
    else v

unfoldable pub sanitize_secret : Fields → Fields
sanitize_secret end = end
sanitize_secret (field k v fs) =
    let rest = sanitize_secret fs in
    if str_eq k "sops" then rest else field k (blanked_field k v) rest

abbrev pub sanitized : Fields → Fields
unfolding sanitize_secret get
sanitized fs = if eq_str (get "kind" fs) "Secret" then sanitize_secret fs else fs

-- The document as the loop over `iter_kubernetes_objects` leaves it. The generator goes on after the
-- change of an object, which keeps the object's kind, and a Secret has no items that it would yield.
unfoldable mutual
  unfolding get sanitize_secret sanitized

  pub prepare : Value → Py Value
  prepare (obj fs) = do
    is_list ← in_set (get "kind" fs) list_kinds
    gs ← if is_list then prepare_field fs else ok (sanitized fs)
    ok (obj gs)
  prepare v = ok v

  pub prepare_field : Fields → Py Fields
  prepare_field end = ok end
  prepare_field (field k v fs) =
      if str_eq k "items"
      then (prepare_list v >>= λ w. ok (field k w fs))
      else (prepare_field fs >>= λ gs. ok (field k v gs))

  pub prepare_list : Value → Py Value
  prepare_list (arr vs) = do ws ← prepare_items vs; ok (arr ws)
  prepare_list v = ok v

  pub prepare_items : Items → Py Items
  prepare_items nil = ok nil
  prepare_items (cons v vs) = do w ← prepare v; ws ← prepare_items vs; ok (cons w ws)

-- `dumps` is `json.dump` with sorted keys, and `load` is `load_documents`.
module _ (dumps : Value → String) where
  -- What is written for a document after so many others.
  abbrev written : ℕ → Value → String
  unfolding concat
  written resources w = concat ((if resources == 0 then "" else "---\n") ∷ dumps w ∷ "\n" ∷ [])

  -- How many documents were written, and the output, which stays where a later document raises.
  unfoldable pub write_documents : ℕ → String → List Value → Py ℕ × String
  unfolding prepare written
  write_documents resources output [] = (ok resources, output)
  write_documents resources output (null ∷ documents) = write_documents resources output documents
  write_documents resources output (document ∷ documents) = elim (prepare document) [
    | raise e ↦ (raise e, output)
    | ok w ↦ write_documents (resources + 1) (concat (output ∷ written resources w ∷ [])) documents
  ]

  -- The exit status with the printed lines.
  abbrev report : String → String → ℕ → ℕ × List String
  unfolding concat show github_error
  report source destination resources =
      if resources == 0
      then (1, github_error "rendered manifest contains no resources" (some source) ∷ [])
      else (
        0,
        concat (
              "Prepared "
              ∷ show resources
              ∷ " resource(s) for schema validation at "
              ∷ destination
              ∷ "."
              ∷ [])
            ∷ [],
      )

  -- The exit status with the printed lines, and the output if it was opened.
  unfoldable pub prepared : String → String → Py (List Value) → Py (ℕ × List String) × Option String
  unfolding write_documents report github_error
  prepared source destination (raise (manifest_error message)) =
      (ok (1, github_error message (some source) ∷ []), none)
  prepared source destination (raise e) = (raise e, none)
  prepared source destination (ok documents) =
      let (resources, output) = write_documents 0 "" documents in
      ((do n ← resources; ok (report source destination n)), some output)

  -- `program` is the name of the script's file.
  unfoldable pub main :
      String → (String → Py (List Value)) → List String → Py (ℕ × List String) × Option String
  unfolding concat prepared
  main program load (source ∷ destination ∷ []) = prepared source destination (load source)
  main program load arguments =
      (ok (2, concat ("usage: " ∷ program ∷ " RENDERED_MANIFEST OUTPUT" ∷ []) ∷ []), none)
