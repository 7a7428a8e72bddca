-- ===== src/HighRiskPolicy/Tests.antt =====
-- A pod with a privileged container, checked against baselines, and the theorems at it.
use home_server.Common.{
  ◌∈◌, String, lstrip, rstrip, join, concat, show, starts_with, is_space, ◌≡◌, refl, ◌↔◌, ◌⊎◌, inl,
  true, false, List, [], ◌∷◌, none, some, ok,
}
use home_server.Common.Order.{Ascending, sorted_set, insert_once, str_lt}
use home_server.Common.Replace.{replace}
use home_server.Common.Regex.{matches}
use home_server.Json.{Fields, str, arr, bool, obj, get_or, get, str_of, truthy, to_items, to_fields}
use home_server.YamlDocuments.{iter_kubernetes_objects}
use home_server.YamlDocuments.Objects.{whole}
use home_server.HighRiskPolicy.Texts.{Library, escape, text, resource_id, finding}
use home_server.HighRiskPolicy.Containers.{
  pod_spec, dicts_from, iter_containers, iter_image_arguments, iter_image_environment,
  arguments_from,
}
use home_server.HighRiskPolicy.Pods.{
  field_of, reports, privilege_tests, security_tests, namespace_tests, resource_uses,
  container_findings, own_findings, spec_findings, pod_findings,
}
use home_server.HighRiskPolicy.Pods.Complete.{Hazard, setting, privileged}
use home_server.HighRiskPolicy.Rbac.{rbac_findings}
use home_server.HighRiskPolicy.Resource.{
  plain_findings, other_findings, resource_findings, namespace_findings, snapshot_findings,
  volume_findings,
}
use home_server.HighRiskPolicy.Detect.{
  kinded, used_namespace, default_deny_of, missing_default_deny, document_findings,
  default_deny_findings, detect,
}
use home_server.HighRiskPolicy.Rbac.{sorted_common}
use home_server.Common.Lines.{lines_from, splitlines}
use home_server.HighRiskPolicy.Baseline.{
  Arguments, Outcome, kept_line, read_baseline, write_baseline, sorted_difference, compare,
  on_detected, main,
}
use home_server.HighRiskPolicy.Guarantee.{
  passing_check-Hazard, passing_check-reviewed, main-write_then_check,
}
use home_server.HighRiskPolicy.Baseline.Gate.{compare-code_iff}
use home_server.HighRiskPolicy.Baseline.RoundTrip.{
  IsClean, is_plain-IsLine, read_baseline-write_baseline,
}
use home_server.HighRiskPolicy.Detect.DefaultDeny.{Policy, detect-default_deny}
use home_server.HighRiskPolicy.Texts.Escaped.{
  raw_type, raw_namespace, raw_name, resource_id-injective,
}

abbrev library : Library
library = record {
  render = λ v. "";
  upper = λ s. s;
  lower = λ s. s;
  sha256 = λ s. "0";
  dumps = λ v. "";
  is_default_route = λ c. none;
  overlaps = λ c n. none;
  holds_address = λ c a. none;
}

abbrev checking : Arguments
checking = record { manifest = "rendered.yaml"; baseline = "baseline.txt"; write_baseline = false }

abbrev container : Fields
container =
    to_fields (
      ("name", str "c")
      ∷ ("securityContext", obj (to_fields (("privileged", bool true) ∷ [])))
      ∷ [])

abbrev spec : Fields
spec = to_fields (
    ("automountServiceAccountToken", bool false)
    ∷ ("containers", arr (to_items (obj container ∷ [])))
    ∷ [])

abbrev pod : Fields
pod = to_fields (
    ("kind", str "Pod")
    ∷ ("metadata", obj (to_fields (("name", str "a") ∷ [])))
    ∷ ("spec", obj spec)
    ∷ [])

abbrev expected : String
expected = "privileged-container|unknown/Pod|default|a|container/c"

pod_scan : detect library (obj pod ∷ []) ≡ ok (expected ∷ [])
unfolding detect document_findings default_deny_findings kinded used_namespace default_deny_of
    sorted_common iter_kubernetes_objects resource_findings other_findings plain_findings
    namespace_findings snapshot_findings volume_findings rbac_findings pod_findings spec_findings
    own_findings container_findings resource_uses reports privilege_tests security_tests
    namespace_tests field_of pod_spec dicts_from iter_containers iter_image_arguments
    iter_image_environment arguments_from resource_id text escape replace finding get get_or str_of
    join concat show starts_with sorted_set insert_once str_lt matches
pod_scan = refl

abbrev content : String
content = "# reviewed\n\n  privileged-container|unknown/Pod|default|a|container/c\n"

content_lines : read_baseline content ≡ expected ∷ []
unfolding read_baseline splitlines lines_from kept_line lstrip rstrip is_space starts_with
content_lines = refl

abbrev verdict : Outcome
verdict = compare "baseline.txt" (expected ∷ []) (read_baseline content)

check : main library checking (ok (obj pod ∷ [])) (some content) ≡ ok (verdict, some content)
unfolding main on_detected
check = rw pod_scan

passes : verdict.code ≡ 0
unfolding compare sorted_difference sorted_set insert_once str_lt read_baseline splitlines
    lines_from kept_line lstrip rstrip is_space starts_with show concat
passes = refl

container_member : ("container/c", container) ∈ iter_containers spec
unfolding iter_containers dicts_from get get_or text escape replace show concat
container_member = inl refl

is_pod : pod_spec pod ≡ some spec
unfolding pod_spec get get_or
is_pod = refl

forbidden : Hazard library "container/c" container "privileged-container" "container/c"
unfolding get get_or
forbidden = setting (privileged refl)

has_kind : truthy (get "kind" pod) ≡ true
unfolding get get_or
has_kind = refl

passing_check-Hazard_example :
    finding "privileged-container" (resource_id pod) "container/c" ∈ read_baseline content
passing_check-Hazard_example =
    passing_check-Hazard library checking (obj pod ∷ []) content verdict (some content) (obj pod)
      pod spec container "container/c" "privileged-container" "container/c" refl check passes
      (inl refl) whole has_kind is_pod container_member forbidden

passing_check-reviewed_example :
    (found : List String) × (resource_findings library pod ≡ ok found)
    × ((a : String) → a ∈ found → a ∈ read_baseline content)
passing_check-reviewed_example =
    passing_check-reviewed library checking (obj pod ∷ []) content verdict (some content) (obj pod)
      pod refl check passes (inl refl) whole has_kind

compare-code_iff_example :
    ((compare "b" ("x" ∷ []) ("x" ∷ "y" ∷ [])).code ≡ 0)
    ↔ (Ascending ("x" ∷ "y" ∷ []) × ((a : String) → (a ∈ ("x" ∷ "y" ∷ [])) ↔ (a ∈ ("x" ∷ []))))
compare-code_iff_example = compare-code_iff "b" ("x" ∷ []) ("x" ∷ "y" ∷ [])

clean : IsClean expected
unfolding kept_line lstrip rstrip is_space starts_with
clean = record { is_line = is_plain-IsLine expected refl; kept = refl }

read_baseline-write_baseline_example :
    read_baseline (write_baseline (expected ∷ expected ∷ []))
    ≡ sorted_set (expected ∷ expected ∷ [])
read_baseline-write_baseline_example =
    read_baseline-write_baseline (expected ∷ expected ∷ []) (clean, (clean, tt))

main-write_then_check_example :
    (outcome : Outcome) × (main library checking
        (ok (obj pod ∷ []))
        (some (write_baseline (expected ∷ [])))
      ≡ ok (outcome, some (write_baseline (expected ∷ []))))
    × (outcome.code ≡ 0)
main-write_then_check_example =
    main-write_then_check library checking (obj pod ∷ []) (expected ∷ []) refl pod_scan (clean, tt)

-- A pod of a namespace that needs a default-deny policy, with none.
abbrev tenant : Fields
tenant = to_fields (
    ("kind", str "Pod")
    ∷ ("metadata", obj (to_fields (("name", str "a") ∷ ("namespace", str "apps") ∷ [])))
    ∷ [])

abbrev missing : String
missing = "missing-default-deny|networking.k8s.io/v1/NetworkPolicy|apps|default-deny|spec"

tenant_scan : detect library (obj tenant ∷ []) ≡ ok (missing ∷ [])
unfolding detect document_findings default_deny_findings kinded used_namespace default_deny_of
    sorted_common iter_kubernetes_objects resource_findings other_findings plain_findings
    namespace_findings snapshot_findings volume_findings rbac_findings pod_findings spec_findings
    own_findings container_findings resource_uses reports privilege_tests security_tests
    namespace_tests field_of pod_spec dicts_from iter_containers iter_image_arguments
    iter_image_environment arguments_from resource_id text escape replace finding get get_or str_of
    join concat show starts_with sorted_set insert_once str_lt matches
tenant_scan = refl

tenant_kind : truthy (get "kind" tenant) ≡ true
unfolding get get_or
tenant_kind = refl

tenant_namespace : "apps" ∈ used_namespace library.render tenant
unfolding used_namespace get get_or str_of
tenant_namespace = inl refl

detect-default_deny_example :
    (missing_default_deny "apps" ∈ (missing ∷ [])) ⊎ Policy "apps" (obj tenant ∷ [])
detect-default_deny_example =
    detect-default_deny library "apps" (obj tenant ∷ []) (missing ∷ []) (obj tenant) tenant
      tenant_scan (inl refl) whole tenant_kind tenant_namespace (inl refl)

-- Another object with the identity of the pod: the namespace is written out.
abbrev named_pod : Fields
named_pod = to_fields (
    ("kind", str "Pod")
    ∷ ("metadata", obj (to_fields (("name", str "a") ∷ ("namespace", str "default") ∷ [])))
    ∷ [])

one_identity : resource_id pod ≡ resource_id named_pod
unfolding resource_id text escape replace get get_or concat join
one_identity = refl

resource_id-injective_example :
    (raw_type pod ≡ raw_type named_pod)
    × (raw_namespace pod ≡ raw_namespace named_pod)
    × (raw_name pod ≡ raw_name named_pod)
resource_id-injective_example = resource_id-injective pod named_pod one_identity
