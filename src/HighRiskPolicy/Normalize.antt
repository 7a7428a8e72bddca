-- ===== src/HighRiskPolicy/Normalize.antt =====
-- The values that a boundary's hash covers, without the pins that may change.
pub mod Images
use home_server.Common.{
  ℕ, ◌-◌, String, concat, prefix, size, starts_with, ◌==◌, ◌||◌, ◌&&◌, if◌then◌else◌, Bool, false,
  List, [], ◌∷◌, none, some,
}
use home_server.Common.Regex.{
  Regex, one, both, many, text_of, times, optional, some_of, alphanumeric, digit_code, hex_code,
  matches, substitute,
}
use home_server.Json.{
  Value, Items, Fields, null, bool, int, real, str, arr, obj, nil, cons, end, field, get, has_key,
  put, is_str, as_str, as_dict, eq_str,
}
use home_server.HighRiskPolicy.Patterns.{
  sha256_digest, full_sha256, full_git_commit, exact_semver, behind_last, final_component,
}
use home_server.HighRiskPolicy.Normalize.Images.{
  is_full_sha256, pinned_image_reference, unpinned, normalize_pinned_image_text,
}

-- A value shares nothing with its copy, which in a model of values is the value again.
unfoldable mutual
  pub clone_structure : Value → Value
  clone_structure (obj fs) = obj (clone_fields fs)
  clone_structure (arr vs) = arr (clone_items vs)
  clone_structure null = null
  clone_structure (bool b) = bool b
  clone_structure (int n) = int n
  clone_structure (real t) = real t
  clone_structure (str s) = str s

  pub clone_fields : Fields → Fields
  clone_fields end = end
  clone_fields (field k v fs) = field k (clone_structure v) (clone_fields fs)

  pub clone_items : Items → Items
  clone_items nil = nil
  clone_items (cons v vs) = cons (clone_structure v) (clone_items vs)

-- normalized[key] = … for one of the keys "digest" and "sha"
abbrev hide_digest : String → Fields → Fields → Fields
unfolding get put concat starts_with matches
hide_digest key value normalized =
    if is_full_sha256 (get key value)
    then put key
        (str (
          concat (
            (elim (as_str (get key value)) [
              | none ↦ ""
              | some s ↦ if starts_with s "sha256:" then "sha256:" else ""
            ])
            ∷ "<immutable-digest>"
            ∷ [])))
        normalized
    else normalized

-- what follows the dict comprehension
abbrev hide_pins : Fields → Fields → Fields
unfolding get has_key put hide_digest
hide_pins value normalized =
    if (has_key "repository" value || has_key "registry" value || has_key "tag" value)
      && (is_full_sha256 (get "digest" value) || is_full_sha256 (get "sha" value))
    then (let hidden = hide_digest "sha" value (hide_digest "digest" value normalized) in
        if is_str (get "tag" value) then put "tag" (str "<immutable-tag>") hidden else hidden)
    else normalized

unfoldable mutual
  unfolding hide_pins normalize_pinned_image_text

  pub normalize_pinned_image_values : Value → Value
  normalize_pinned_image_values (str s) = str (normalize_pinned_image_text s)
  normalize_pinned_image_values (arr vs) = arr (normalize_items vs)
  normalize_pinned_image_values (obj fs) = obj (hide_pins fs (normalize_fields fs))
  normalize_pinned_image_values null = null
  normalize_pinned_image_values (bool b) = bool b
  normalize_pinned_image_values (int n) = int n
  normalize_pinned_image_values (real t) = real t

  pub normalize_fields : Fields → Fields
  normalize_fields end = end
  normalize_fields (field k v fs) = field k (normalize_pinned_image_values v) (normalize_fields fs)

  pub normalize_items : Items → Items
  normalize_items nil = nil
  normalize_items (cons v vs) = cons (normalize_pinned_image_values v) (normalize_items vs)

-- Each of the keys that holds a text of `ref` is hidden in `normalized`.
abbrev hide_selectors : List String → Fields → Fields → Fields
unfolding get put
hide_selectors [] ref normalized = normalized
hide_selectors (key ∷ keys) ref normalized =
    hide_selectors keys ref
      (if is_str (get key ref) then put key (str "<immutable-selector>") normalized else normalized)

abbrev pub fits : Regex → Value → Bool
unfolding matches
fits r (str s) = matches r s
fits r _ = false

unfoldable pub normalized_git_ref : Value → Value
unfolding hide_selectors get put matches clone_structure
normalized_git_ref (obj ref) =
    if fits full_git_commit (get "commit" ref)
    then obj (
        hide_selectors ("branch" ∷ "tag" ∷ "semver" ∷ "name" ∷ []) ref
          (put "commit" (str "<immutable-commit>") (clone_fields ref)))
    else clone_structure (obj ref)
normalized_git_ref ref = clone_structure ref

abbrev normalized_oci_ref : Fields → Value
unfolding hide_selectors get put matches clone_structure
normalized_oci_ref ref =
    if fits sha256_digest (get "digest" ref)
    then obj (
        hide_selectors ("tag" ∷ "semver" ∷ []) ref
          (put "digest" (str "sha256:<immutable-digest>") (clone_fields ref)))
    else clone_structure (obj ref)

unfoldable pub normalized_source_spec : Value → Fields → Fields
unfolding normalized_git_ref normalized_oci_ref get put clone_structure
normalized_source_spec kind spec =
    let normalized = clone_fields spec in
    if eq_str kind "GitRepository"
    then put "ref" (normalized_git_ref (get "ref" spec)) normalized
    else if eq_str kind "OCIRepository"
    then (elim (as_dict (get "ref" spec)) [
      | none ↦ normalized
      | some ref ↦ put "ref" (normalized_oci_ref ref) normalized
    ])
    else normalized

-- one image of a Kustomization
abbrev normalized_image : Value → Value
unfolding get put matches clone_structure
normalized_image (obj image) =
    if fits sha256_digest (get "digest" image)
    then (let hidden = put "digest" (str "sha256:<immutable-digest>") (clone_fields image) in
        obj (
          if is_str (get "newTag" image)
          then put "newTag" (str "<immutable-tag>") hidden
          else hidden))
    else clone_structure (obj image)
normalized_image image = clone_structure image

abbrev normalized_images : Items → Items
unfolding normalized_image
normalized_images nil = nil
normalized_images (cons v vs) = cons (normalized_image v) (normalized_images vs)

unfoldable pub normalized_kustomization_spec : Fields → Fields
unfolding normalized_images get put clone_structure
normalized_kustomization_spec spec = elim (get "images" spec) [
  | arr vs ↦ put "images" (arr (normalized_images vs)) (clone_fields spec)
  | _ ↦ clone_fields spec
]

-- normalized["chart"]["spec"]["version"] = "<exact-version>" where the version is exact
abbrev hide_version : Fields → Fields → Fields
unfolding get put matches clone_structure
hide_version spec normalized = elim (as_dict (get "chart" spec)) [
  | none ↦ normalized
  | some chart ↦ elim (as_dict (get "spec" chart)) [
    | none ↦ normalized
    | some chart_spec ↦
        if fits exact_semver (get "version" chart_spec)
        then put "chart"
            (obj (
              put "spec" (obj (put "version" (str "<exact-version>") (clone_fields chart_spec)))
                (clone_fields chart)))
            normalized
        else normalized
  ]
]

unfoldable pub normalized_helm_release_spec : Fields → Fields
unfolding hide_version get has_key put clone_structure normalize_pinned_image_values
normalized_helm_release_spec spec =
    let normalized = hide_version spec (clone_fields spec) in
    if has_key "values" spec
    then put "values" (normalize_pinned_image_values (get "values" spec)) normalized
    else normalized
