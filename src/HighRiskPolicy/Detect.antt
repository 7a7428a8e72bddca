-- ===== src/HighRiskPolicy/Detect.antt =====
-- `detect`: the findings of all objects, and the namespaces without a default-deny policy.
pub mod Complete
pub mod DefaultDeny
use home_server.Common.{
  ℕ, String, str_eq, concat, not, ◌||◌, ◌&&◌, if◌then◌else◌, Bool, true, false, List, [], ◌∷◌, ◌++◌,
  map, flat_map, all, contains, type_error, Option, none, some, Py, ok, raise, ◌>>=◌, flat_map_py,
}
use home_server.Json.{
  Value, Fields, str, arr, obj, get, as_dict, as_list, as_str, eq_str, holds_str, truthy, str_of,
}
use home_server.YamlDocuments.{iter_kubernetes_objects}
use home_server.HighRiskPolicy.Texts.{Library, finding}
use home_server.HighRiskPolicy.Network.{selector_is_universal}
use home_server.HighRiskPolicy.Pods.{add_if}
use home_server.HighRiskPolicy.Rbac.{sorted_common}
use home_server.HighRiskPolicy.Resource.{resource_findings}

abbrev pub required_default_deny_namespaces : List String
required_default_deny_namespaces = "apps" ∷ "media" ∷ "monitoring" ∷ "network-services" ∷ []

-- the objects that have a kind
unfoldable pub kinded : List Fields → List Fields
unfolding get
kinded objects = flat_map (λ object. if truthy (get "kind" object) then object ∷ [] else []) objects

-- a namespace that an object names
unfoldable pub used_namespace : (Value → String) → Fields → List String
unfolding get str_of
used_namespace render resource = elim (as_dict (get "metadata" resource)) [
  | none ↦ []
  | some metadata ↦
      if truthy (get "namespace" metadata)
      then str_of render (get "namespace" metadata) ∷ []
      else []
]

-- {"Ingress", "Egress"}.issubset(types): a set is made of the list, so each element must have a hash
abbrev is_hashable : Value → Bool
is_hashable (arr vs) = false
is_hashable (obj fs) = false
is_hashable _ = true

abbrev names_both : List Value → Py Bool
names_both types =
    if all is_hashable types
    then ok (holds_str types "Ingress" && holds_str types "Egress")
    else raise type_error

-- the test on one policy; the conditions behind a false one are not evaluated
unfoldable pub denies_by_default : Fields → Fields → Py Bool
unfolding selector_is_universal get
denies_by_default metadata spec =
    if eq_str (get "name" metadata) "default-deny" && selector_is_universal (get "podSelector" spec)
    then (elim (as_list (get "policyTypes" spec)) [
      | none ↦ ok false
      | some types ↦ names_both types >>= λ both.
          ok (both && (not (truthy (get "ingress" spec)) && not (truthy (get "egress" spec))))
    ])
    else ok false

-- the namespace for which an object is a valid default-deny policy
unfoldable pub default_deny_of : Fields → Py (List String)
unfolding denies_by_default get
default_deny_of resource =
    if eq_str (get "kind" resource) "NetworkPolicy"
    then (elim (as_dict (get "metadata" resource)) [
      | none ↦ ok []
      | some metadata ↦ elim (as_dict (get "spec" resource)) [
        | none ↦ ok []
        | some spec ↦ elim (as_str (get "namespace" metadata)) [
          | none ↦ ok []
          | some namespace ↦
              denies_by_default metadata spec >>= λ valid. ok (add_if valid namespace)
        ]
      ]
    ])
    else ok []

abbrev pub missing_default_deny : String → String
unfolding finding concat
missing_default_deny namespace =
    finding "missing-default-deny"
      (concat ("networking.k8s.io/v1/NetworkPolicy|" ∷ namespace ∷ "|default-deny" ∷ [])) "spec"

unfoldable pub default_deny_findings : (Value → String) → List Fields → Py (List String)
unfolding used_namespace default_deny_of missing_default_deny sorted_common
default_deny_findings render resources = do
  valid ← flat_map_py default_deny_of resources
  ok (
      flat_map
        (λ namespace. add_if (not (contains valid namespace)) (missing_default_deny namespace))
        (sorted_common (flat_map (used_namespace render) resources)
          required_default_deny_namespaces))

-- The loop's body over one document, after all its objects were yielded. Where the generator and a rule
-- both raise in one document, the model has the generator's exception.
unfoldable pub document_findings : Library → Value → Py (List (Fields × List String))
unfolding kinded iter_kubernetes_objects resource_findings
document_findings lib document = do
  objects ← iter_kubernetes_objects document
  flat_map_py (λ resource. resource_findings lib resource >>= λ found. ok ((resource, found) ∷ []))
      (kinded objects)

unfoldable pub detect : Library → List Value → Py (List String)
unfolding document_findings default_deny_findings
detect lib documents = do
  found ← flat_map_py (document_findings lib) documents
  denied ← default_deny_findings lib.render (map (λ (p : Fields × List String). p.0) found)
  ok (flat_map (λ (p : Fields × List String). p.1) found ++ denied)
