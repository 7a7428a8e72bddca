-- ===== src/GitSourcePins/Tests.antt =====
-- A source whose tag resolves to its commit, and the theorem at it.
use home_server.Common.{String, concat, show, starts_with, ◌≡◌, refl, inl, true, [], ◌∷◌, ok}
use home_server.Common.Lines.{lines_from, splitlines, partition}
use home_server.Common.Regex.{matches}
use home_server.Json.{Fields, str, obj, get_or, get, str_of, to_fields}
use home_server.YamlDocuments.{iter_kubernetes_objects}
use home_server.YamlDocuments.Objects.{whole}
use home_server.HighRiskPolicy.Pods.{field_of}
use home_server.GitSourcePins.{
  Library, completed, revision_in, resolve_remote_tag, resolved_errors, tagged_errors,
  is_flux_source, source_errors, source_identity, validate,
}
use home_server.GitSourcePins.Pinned.{IsPinned, validate-IsPinned}

abbrev pinned_commit : String
pinned_commit = "0123456789abcdef0123456789abcdef01234567"

abbrev library : Library
library = record {
  ls_remote = λ url tag_ref peeled_ref.
      completed 0
        "ffffffffffffffffffffffffffffffffffffffff\trefs/tags/v1\n0123456789abcdef0123456789abcdef01234567\trefs/tags/v1^{}\n";
  render = λ v. "";
  repr = λ s. s;
  lower = λ s. s;
}

abbrev source : Fields
source = to_fields (
    ("apiVersion", str "source.toolkit.fluxcd.io/v1")
    ∷ ("kind", str "GitRepository")
    ∷ (
      "spec",
      obj (
          to_fields (
            ("url", str "https://git.example/r")
            ∷ ("ref", obj (to_fields (("tag", str "v1") ∷ ("commit", str pinned_commit) ∷ [])))
            ∷ [])),
    )
    ∷ [])

no_errors : validate library (obj source ∷ []) ≡ ok []
unfolding validate source_errors is_flux_source tagged_errors resolved_errors resolve_remote_tag
    revision_in source_identity iter_kubernetes_objects field_of get get_or str_of starts_with
    concat show splitlines lines_from partition matches
no_errors = refl

flux : is_flux_source library source ≡ true
unfolding is_flux_source get get_or str_of starts_with
flux = refl

tagged : field_of "tag" (field_of "ref" (get "spec" source)) ≡ str "v1"
unfolding field_of get get_or
tagged = refl

validate-IsPinned_example :
    IsPinned library "v1"
      (field_of "url" (get "spec" source))
      (field_of "commit" (field_of "ref" (get "spec" source)))
validate-IsPinned_example =
    validate-IsPinned library (obj source ∷ []) (obj source) source "v1" no_errors (inl refl) whole
      flux tagged
