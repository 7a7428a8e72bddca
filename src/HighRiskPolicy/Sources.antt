-- ===== src/HighRiskPolicy/Sources.antt =====
-- The rules of `resource_findings` on the sources of Flux and on what they install.
pub mod Walks
use home_server.Common.{
  ℕ, suc, String, str_eq, concat, join, show, starts_with, not, ◌||◌, ◌&&◌, if◌then◌else◌, Bool,
  true, false, List, [], ◌∷◌, ◌++◌, flat_map, contains, Option, none, some, Py, ok, ◌>>=◌,
  flat_map_py,
}
use home_server.Json.{
  Value, Items, Fields, null, bool, int, real, str, arr, obj, nil, cons, end, field, get, as_dict,
  list_or_empty, is_true, is_null, is_dict, in_set, or_else, str_of,
}
use home_server.HighRiskPolicy.Texts.{Library, text, finding}
use home_server.HighRiskPolicy.Patterns.{full_git_commit, sha256_digest, exact_semver}
use home_server.HighRiskPolicy.Normalize.{
  fits, normalized_git_ref, normalized_source_spec, normalized_kustomization_spec,
  normalized_helm_release_spec,
}
use home_server.HighRiskPolicy.Containers.{dicts_from}
use home_server.HighRiskPolicy.Pods.{add_if, field_of}
use home_server.HighRiskPolicy.Rbac.{scope_of}
use home_server.HighRiskPolicy.Network.{boundary, canonical_sha256}
use home_server.HighRiskPolicy.Sources.Walks.{
  git_ref_token, walk, walk_fields, walk_items, last_key, follows,
}

-- isinstance(value, (int, str)) and str(value) not in {"", "0"}
abbrev is_port : (Value → String) → Value → Bool
unfolding str_of
is_port render (str s) = not (str_eq s "" || str_eq s "0")
is_port render (int n) = not (str_eq (str_of render (int n)) "0")
is_port render (bool b) = true
is_port render _ = false

module _ (lib : Library) (identity : String) where
  abbrev kustomize_image : ℕ → Items → List String
  unfolding finding concat show text get
  kustomize_image index nil = []
  kustomize_image index (cons image images) =
      let digest = field_of "digest" image in
      add_if (not (fits sha256_digest digest)) (
        finding "mutable-kustomize-image" identity
          (concat ("spec.images/" ∷ show index ∷ "/digest/" ∷ text digest "<unset>" ∷ [])))
      ++ kustomize_image (suc index) images

  unfoldable pub kustomization_findings : Fields → List String
  unfolding kustomize_image normalized_kustomization_spec get
  kustomization_findings spec =
      boundary lib identity "flux-kustomization-boundary" "spec"
        (obj (normalized_kustomization_spec spec))
      ++ (elim (get "images" spec) [ arr images ↦ kustomize_image 0 images | _ ↦ [] ])

  unfoldable pub git_repository_findings : Fields → List String
  unfolding git_ref_token normalized_git_ref get finding concat text
  git_repository_findings spec =
      let source_url = text (get "url" spec) "<unset>" in
      let ref_token = git_ref_token (normalized_git_ref (get "ref" spec)) in
      add_if (not (is_dict (get "verify" spec))) (
        finding "unverified-git-source" identity
          (concat ("spec.verify/url/" ∷ source_url ∷ "/ref/" ∷ ref_token ∷ [])))
      ++ add_if (not (fits full_git_commit (field_of "commit" (get "ref" spec)))) (
          finding "mutable-git-ref" identity
            (concat ("spec.ref/" ∷ ref_token ∷ "/url/" ∷ source_url ∷ [])))

  abbrev is_insecure : Value → Bool
  unfolding starts_with
  is_insecure (str url) = starts_with url "http://"
  is_insecure _ = false

  unfoldable pub source_findings : Value → Fields → List String
  unfolding is_insecure normalized_source_spec get finding concat text
  source_findings kind spec =
      boundary lib identity "external-source-boundary" "spec"
        (obj (normalized_source_spec kind spec))
      ++ add_if (is_insecure (get "url" spec)) (
          finding "insecure-source-url" identity
            (concat ("spec.url/" ∷ text (get "url" spec) "<unset>" ∷ [])))

  unfoldable pub helm_repository_findings : Fields → List String
  unfolding get finding concat text
  helm_repository_findings spec =
      finding "mutable-helm-repository" identity
        (concat ("spec.url/" ∷ text (get "url" spec) "<unset>" ∷ []))
      ∷ []

  unfoldable pub oci_repository_findings : Fields → List String
  unfolding get finding concat text
  oci_repository_findings spec =
      let ref = get "ref" spec in
      let reference = or_else (field_of "tag" ref) (field_of "semver" ref) in
      add_if (not (fits sha256_digest (field_of "digest" ref))) (
        finding "unpinned-oci-source" identity (
          concat (
            "spec.ref/"
            ∷ text reference "<unset>"
            ∷ "/url/"
            ∷ text (get "url" spec) "<unset>"
            ∷ [])))

  -- the test on the chart's version
  abbrev chart_findings : Fields → Py (List String)
  unfolding get finding concat text
  chart_findings spec = elim (as_dict (get "chart" spec)) [
    | some chart ↦
        let chart_spec = get "spec" chart in
        let version = field_of "version" chart_spec in
        in_set (field_of "kind" (field_of "sourceRef" chart_spec)) ("GitRepository" ∷ "Bucket" ∷ [])
        >>= λ by_path. ok (
            add_if (not by_path && not (fits exact_semver version)) (
              finding "mutable-helm-chart" identity
                (concat ("spec.chart.spec.version/" ∷ text version "<unset>" ∷ []))))
    | none ↦ ok (
        add_if (not (is_dict (get "chartRef" spec)))
          (finding "mutable-helm-chart" identity "spec.chart.spec.version/<unset>"))
  ]

  abbrev helm_capability : String → Value → List String
  unfolding finding concat str_of
  helm_capability location capability =
      let normalized = lib.upper (str_of lib.render capability) in
      add_if (not (str_eq normalized ""))
        (finding "helm-added-capability" identity (concat (location ∷ "." ∷ normalized ∷ [])))

  abbrev helm_flags : List String
  helm_flags =
      "allowPrivilegeEscalation" ∷ "hostIPC" ∷ "hostNetwork" ∷ "hostPID" ∷ "privileged" ∷ []

  abbrev add : String → String → String
  unfolding finding
  add rule location = finding rule identity location

  -- One value of the release under its last key. The test on "type" raises on a list or a mapping.
  unfoldable pub helm_value_findings : List String → String → Value → Py (List String)
  unfolding add is_port helm_capability scope_of text join concat
  helm_value_findings path key value = do
    let location = concat ("spec.values." ∷ join "." path ∷ [])
    exposed ←
        if str_eq key "type"
        then in_set value ("ExternalName" ∷ "LoadBalancer" ∷ "NodePort" ∷ [])
        else ok false
    ok (
        add_if (contains helm_flags key && is_true value)
          (add (concat ("helm-" ∷ key ∷ [])) location)
        ++ (add_if (str_eq key "allowExternalNameServices" && is_true value)
              (add "helm-allow-external-name-services" location)
            ++ (add_if exposed (
                  add "helm-externally-exposed-service"
                    (concat (location ∷ "/value-" ∷ text value "<unset>" ∷ [])))
                ++ (add_if
                      (str_eq key "externalIPs"
                        && (elim (list_or_empty value) [ [] ↦ false | _ ∷ _ ↦ true ]))
                      (add "helm-service-external-ips"
                        (concat (location ∷ "/" ∷ scope_of "" value ∷ [])))
                    ++ (add_if (str_eq key "hostPort" && is_port lib.render value) (
                          add "helm-host-port"
                            (concat (location ∷ "/value-" ∷ text value "<unset>" ∷ [])))
                        ++ (if str_eq key "add" && follows "capabilities" path
                            then flat_map (helm_capability location) (list_or_empty value)
                            else []))))))

  abbrev walked_value : List String × Value → Py (List String)
  unfolding helm_value_findings
  walked_value (path, value) = elim (last_key path) [
    | none ↦ ok []
    | some key ↦ helm_value_findings path key value
  ]

  abbrev renderer_findings : ℕ × Fields → List String
  unfolding canonical_sha256 finding concat show
  renderer_findings (index, renderer) =
      finding "helm-post-renderer" identity (
        concat (
          "spec.postRenderers/"
          ∷ show index
          ∷ "/sha256/"
          ∷ canonical_sha256 lib (obj renderer)
          ∷ []))
      ∷ []

  unfoldable pub helm_release_findings : Fields → Py (List String)
  unfolding chart_findings walked_value renderer_findings walk dicts_from
      normalized_helm_release_spec get
  helm_release_findings spec = do
    charts ← chart_findings spec
    values ← flat_map_py walked_value (walk [] (get "values" spec))
    ok (
        boundary lib identity "helm-release-boundary" "spec"
          (obj (normalized_helm_release_spec spec))
        ++ (charts
            ++ (values
                ++ flat_map renderer_findings
                    (dicts_from 0 (list_or_empty (get "postRenderers" spec))))))
