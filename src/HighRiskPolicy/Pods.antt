-- ===== src/HighRiskPolicy/Pods.antt =====
-- `pod_findings`: the rules on the pod of a workload. A set of findings is a list, read as a set.
pub mod Complete
use home_server.Common.{
  ℕ, String, str_eq, concat, show, not, ◌||◌, if◌then◌else◌, Bool, true, false, List, [], ◌∷◌, ◌++◌,
  flat_map, Option, none, some,
}
use home_server.Json.{
  Value, Fields, obj, int, str, get, as_dict, dict_or_empty, list_or_empty, eq_str, eq_zero,
  is_true, is_false, truthy, str_of,
}
use home_server.HighRiskPolicy.Texts.{Library, text, finding}
use home_server.HighRiskPolicy.Patterns.{is_digest_image, mutable_tag}
use home_server.HighRiskPolicy.Containers.{
  pod_spec, dicts_from, iter_containers, iter_image_arguments, iter_image_environment,
}

-- if test: results.add(…)
abbrev pub add_if : Bool → String → List String
add_if true item = item ∷ []
add_if false item = []

-- tests in a row, each with what it adds
unfoldable pub reports : List (Bool × String) → List String
reports [] = []
reports ((test, item) ∷ rest) = add_if test item ++ reports rest

-- v.get(key) if isinstance(v, dict)
unfoldable pub field_of : String → Value → Value
unfolding get
field_of key v = get key (dict_or_empty v)

module _ (lib : Library) (identity : String) where
  abbrev add : String → String → String
  unfolding finding
  add rule location = finding rule identity location

  -- the tests on the identity, the seccomp profile and the Windows options
  unfoldable pub security_tests : String → Fields → List (Bool × String)
  unfolding get finding
  security_tests location security =
      (eq_zero (get "runAsUser" security), add "explicit-root-user" location)
      ∷ (eq_zero (get "runAsGroup" security), add "explicit-root-group" location)
      ∷ (
        eq_str (field_of "type" (get "seccompProfile" security)) "Unconfined",
        add "unconfined-seccomp" location,
      )
      ∷ (
        is_true (field_of "hostProcess" (get "windowsOptions" security)),
        add "windows-host-process" location,
      )
      ∷ []

  unfoldable pub namespace_tests : Fields → List (Bool × String)
  unfolding get finding
  namespace_tests spec =
      (is_true (get "hostNetwork" spec), add "host-network" "pod-spec")
      ∷ (is_true (get "hostPID" spec), add "host-pid" "pod-spec")
      ∷ (is_true (get "hostIPC" spec), add "host-ipc" "pod-spec")
      ∷ (is_true (get "shareProcessNamespace" spec), add "shared-process-namespace" "pod-spec")
      ∷ (
        not (is_false (get "automountServiceAccountToken" spec)),
        add "service-account-token-mounted" "pod-spec",
      )
      ∷ []

  abbrev sysctl_findings : ℕ × Fields → List String
  unfolding get finding text show
  sysctl_findings (index, sysctl) =
      add "pod-sysctl" (
        concat (
          text (get "name" sysctl) (show index)
          ∷ "/value/"
          ∷ text (get "value" sysctl) "<unset>"
          ∷ []))
      ∷ []

  abbrev volume_findings : ℕ × Fields → List String
  unfolding get finding text show
  volume_findings (index, volume) = elim (as_dict (get "hostPath" volume)) [
    | none ↦ []
    | some path ↦
        (add "host-path" (
            concat (
              "volume/"
              ∷ text (get "name" volume) (show index)
              ∷ "/path/"
              ∷ text (get "path" path) "<unset>"
              ∷ []))
          ∷ [])
  ]

  abbrev pub capability_findings : String → Value → List String
  unfolding finding str_of
  capability_findings location capability =
      let normalized = lib.upper (str_of lib.render capability) in
      add_if (not (str_eq normalized ""))
        (add "added-capability" (concat (location ∷ "/" ∷ normalized ∷ [])))

  abbrev pub port_findings : String → ℕ × Fields → List String
  unfolding get finding text show str_of
  port_findings location (index, port) =
      let port_name = text (get "name" port) (text (get "containerPort" port) (show index)) in
      add_if (truthy (get "hostPort" port)) (
        add "host-port" (
          concat
            (location ∷ "/" ∷ port_name ∷ "/host-" ∷ str_of lib.render (get "hostPort" port) ∷ [])))

  -- the two rules on one image, under their names
  abbrev image_findings : String → String → String → String → List String
  unfolding finding is_digest_image mutable_tag
  image_findings unpinned mutable place image =
      add_if (not (is_digest_image image)) (add unpinned place)
      ++ add_if (mutable_tag lib.lower image) (add mutable place)

  abbrev container_image : String → Value → List String
  unfolding finding text is_digest_image mutable_tag
  container_image location (str image) =
      image_findings "unpinned-image" "mutable-image-tag"
        (concat (location ∷ "/image/" ∷ text (str image) "<unset>" ∷ [])) image
  container_image location _ = []

  abbrev argument_findings : String → String × String → List String
  unfolding finding text is_digest_image mutable_tag
  argument_findings location (place, image) =
      image_findings "unpinned-image-argument" "mutable-image-argument"
        (concat (location ∷ "/" ∷ place ∷ "/image-argument/" ∷ text (str image) "<unset>" ∷ []))
        image

  abbrev environment_findings : String → String × Option String → List String
  unfolding finding text is_digest_image mutable_tag
  environment_findings location (place, none) =
      add "indirect-image-environment" (concat (location ∷ "/" ∷ place ∷ [])) ∷ []
  environment_findings location (place, some image) =
      image_findings "unpinned-image-environment" "mutable-image-environment"
        (concat (location ∷ "/" ∷ place ∷ "/image-environment/" ∷ text (str image) "<unset>" ∷ []))
        image

  unfoldable pub privilege_tests : String → Fields → List (Bool × String)
  unfolding get finding
  privilege_tests location security =
      (is_true (get "privileged" security), add "privileged-container" location)
      ∷ (
        is_true (get "allowPrivilegeEscalation" security),
        add "allow-privilege-escalation" location,
      )
      ∷ (eq_str (get "procMount" security) "Unmasked", add "unmasked-proc" location)
      ∷ []

  abbrev pub image_uses : String → Fields → List String
  unfolding container_image argument_findings environment_findings get iter_image_arguments
      iter_image_environment
  image_uses location container =
      container_image location (get "image" container)
      ++ (flat_map (argument_findings location) (iter_image_arguments container)
          ++ flat_map (environment_findings location) (iter_image_environment container))

  -- capabilities, ports and images of a container
  unfoldable pub resource_uses : String → Fields → List String
  unfolding capability_findings port_findings image_uses get dicts_from
  resource_uses location container =
      let security = dict_or_empty (get "securityContext" container) in
      flat_map (capability_findings location)
        (list_or_empty (field_of "add" (get "capabilities" security)))
      ++ (flat_map (port_findings location) (dicts_from 0 (list_or_empty (get "ports" container)))
          ++ image_uses location container)

  unfoldable pub container_findings : String × Fields → List String
  unfolding reports privilege_tests security_tests resource_uses get
  container_findings (location, container) =
      let security = dict_or_empty (get "securityContext" container) in
      reports (privilege_tests location security)
      ++ (reports (security_tests location security) ++ resource_uses location container)

  -- the rules on the pod itself
  unfoldable pub own_findings : Fields → List String
  unfolding reports namespace_tests security_tests sysctl_findings volume_findings get dicts_from
  own_findings spec =
      let pod_security = dict_or_empty (get "securityContext" spec) in
      reports (namespace_tests spec)
      ++ (reports (security_tests "pod-security-context" pod_security)
          ++ (flat_map sysctl_findings (dicts_from 0 (list_or_empty (get "sysctls" pod_security)))
              ++ flat_map volume_findings (dicts_from 0 (list_or_empty (get "volumes" spec)))))

  unfoldable pub spec_findings : Fields → List String
  unfolding own_findings container_findings iter_containers
  spec_findings spec = own_findings spec ++ flat_map container_findings (iter_containers spec)

  unfoldable pub pod_findings : Fields → List String
  unfolding spec_findings pod_spec
  pod_findings document = elim (pod_spec document) [ none ↦ [] | some spec ↦ spec_findings spec ]
