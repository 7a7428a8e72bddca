-- ===== src/HighRiskPolicy/Pods/Complete.antt =====
-- The dangerous settings of a container that `pod_findings` reports.
use home_server.Common.{
  ◌∈◌, ℕ, str_eq, concat, show, false, in-append_left, in-append_right, in-flat_map, String, ◌≡◌,
  refl, ap, ◌⊎◌, inl, inr, Bool, true, List, [], ◌∷◌, ◌++◌, flat_map, some,
}
use home_server.Json.{
  Value, list_or_empty, truthy, str_of, Fields, get, dict_or_empty, eq_str, eq_zero, is_true,
}
use home_server.HighRiskPolicy.Texts.{Library, text, finding}
use home_server.HighRiskPolicy.Containers.{pod_spec, dicts_from, iter_containers}
use home_server.HighRiskPolicy.Pods.{
  add_if, reports, field_of, privilege_tests, security_tests, resource_uses, capability_findings,
  port_findings, image_uses, own_findings, container_findings, spec_findings, pod_findings,
}

-- A setting of a container's security context, with the rule that forbids it.
pub data Setting (security : Fields) : String → Type 0 where
  privileged : is_true (get "privileged" security) ≡ true → Setting security "privileged-container"
  escalates :
      is_true (get "allowPrivilegeEscalation" security) ≡ true
      → Setting security "allow-privilege-escalation"
  unmasked : eq_str (get "procMount" security) "Unmasked" ≡ true → Setting security "unmasked-proc"
  root_user : eq_zero (get "runAsUser" security) ≡ true → Setting security "explicit-root-user"
  root_group : eq_zero (get "runAsGroup" security) ≡ true → Setting security "explicit-root-group"
  unconfined :
      eq_str (field_of "type" (get "seccompProfile" security)) "Unconfined" ≡ true
      → Setting security "unconfined-seccomp"
  host_process :
      is_true (field_of "hostProcess" (get "windowsOptions" security)) ≡ true
      → Setting security "windows-host-process"

-- The capabilities that a container adds, and its ports.
abbrev pub added : Fields → List Value
unfolding get field_of
added container =
    list_or_empty
      (field_of "add" (get "capabilities" (dict_or_empty (get "securityContext" container))))

abbrev pub ports : Fields → List (ℕ × Fields)
unfolding get dicts_from
ports container = dicts_from 0 (list_or_empty (get "ports" container))

-- The place of the finding on a port.
abbrev pub port_place : Library → String → ℕ → Fields → String
unfolding get text show str_of concat
port_place lib location index port = concat (
    location
    ∷ "/"
    ∷ text (get "name" port) (text (get "containerPort" port) (show index))
    ∷ "/host-"
    ∷ str_of lib.render (get "hostPort" port)
    ∷ [])

-- What the rules forbid a container, with the rule and the place of its finding: a setting of its security
-- context, a capability that it adds, and a port that it opens on its host.
pub data Hazard (lib : Library) (location : String) (container : Fields)
    : String → String → Type 0 where
  setting :
      {rule : String}
      → Setting (dict_or_empty (get "securityContext" container)) rule
      → Hazard lib location container rule location
  capability :
      (v : Value)
      → v ∈ added container
      → str_eq (lib.upper (str_of lib.render v)) "" ≡ false
      → Hazard lib location container "added-capability"
          (concat (location ∷ "/" ∷ lib.upper (str_of lib.render v) ∷ []))
  host_port :
      (index : ℕ) (port : Fields)
      → (index, port) ∈ ports container
      → truthy (get "hostPort" port) ≡ true
      → Hazard lib location container "host-port" (port_place lib location index port)

-- A test of the row that holds adds its item.
in-reports :
    (item : String) (tests : List (Bool × String)) → (true, item) ∈ tests → item ∈ reports tests
unfolding reports
in-reports item [] m = m
in-reports item ((test, found) ∷ rest) (inl e) =
    let holds : test ≡ true = ap (λ (p : Bool × String). p.0) e in
    let same : found ≡ item = ap (λ (p : Bool × String). p.1) e in
    in-append_left item (add_if test found) (reports rest) (rw (holds, same) (inl refl))
in-reports item ((test, found) ∷ rest) (inr m) =
    in-append_right item (add_if test found) (reports rest) (in-reports item rest m)

with_test : {b : Bool} (item : String) → b ≡ true → ◌≡◌ {A = Bool × String} (b, item) (true, item)
with_test item h = rw h

module _ (lib : Library) (identity location : String) where
  setting-in_tests :
      {security : Fields} {rule : String}
      → Setting security rule
      → ((true, finding rule identity location) ∈ privilege_tests lib identity location security)
        ⊎ ((true, finding rule identity location) ∈ security_tests lib identity location security)
  unfolding privilege_tests security_tests
  setting-in_tests (privileged h) = inl (inl (with_test _ h))
  setting-in_tests (escalates h) = inl (inr (inl (with_test _ h)))
  setting-in_tests (unmasked h) = inl (inr (inr (inl (with_test _ h))))
  setting-in_tests (root_user h) = inr (inl (with_test _ h))
  setting-in_tests (root_group h) = inr (inr (inl (with_test _ h)))
  setting-in_tests (unconfined h) = inr (inr (inr (inl (with_test _ h))))
  setting-in_tests (host_process h) = inr (inr (inr (inr (inl (with_test _ h)))))

  setting-in_container :
      (container : Fields) {rule : String}
      → Setting (dict_or_empty (get "securityContext" container)) rule
      → finding rule identity location ∈ container_findings lib identity (location, container)
  unfolding container_findings
  setting-in_container container {rule} h =
      let a = finding rule identity location in
      let security = dict_or_empty (get "securityContext" container) in
      let first = privilege_tests lib identity location security in
      let second = security_tests lib identity location security in
      let uses = resource_uses lib identity location container in
      elim (setting-in_tests h) [
        | inl m ↦ in-append_left a (reports first) (reports second ++ uses) (in-reports a first m)
        | inr m ↦
            in-append_right a (reports first) (reports second ++ uses)
              (in-append_left a (reports second) uses (in-reports a second m))
      ]

  use-in_container :
      (container : Fields) (a : String)
      → a ∈ resource_uses lib identity location container
      → a ∈ container_findings lib identity (location, container)
  unfolding container_findings
  use-in_container container a m =
      let security = dict_or_empty (get "securityContext" container) in
      let uses = resource_uses lib identity location container in
      in-append_right a (reports (privilege_tests lib identity location security)) _
        (in-append_right a (reports (security_tests lib identity location security)) uses m)

  hazard-in_container :
      (container : Fields) {rule place : String}
      → Hazard lib location container rule place
      → finding rule identity place ∈ container_findings lib identity (location, container)
  unfolding resource_uses capability_findings port_findings port_place added ports image_uses
  hazard-in_container container (setting h) = setting-in_container container h
  hazard-in_container container (capability v m h) =
      let a =
        finding "added-capability" identity
          (concat (location ∷ "/" ∷ lib.upper (str_of lib.render v) ∷ [])) in
      use-in_container container a (
        in-append_left a (flat_map (capability_findings lib identity location) (added container))
          (flat_map (port_findings lib identity location) (ports container)
            ++ image_uses lib identity location container)
          (in-flat_map (capability_findings lib identity location) a v (added container) m
            (rw h (inl refl))))
  hazard-in_container container (host_port index port m h) =
      let a = finding "host-port" identity (port_place lib location index port) in
      let opened = flat_map (port_findings lib identity location) (ports container) in
      let images = image_uses lib identity location container in
      use-in_container container a (
        in-append_right a (flat_map (capability_findings lib identity location) (added container))
          (opened ++ images)
          (in-append_left a opened images (
            in-flat_map (port_findings lib identity location) a (index, port) (ports container) m
              (rw h (inl refl)))))

  hazard-in_spec :
      (spec container : Fields) {rule place : String}
      → (location, container) ∈ iter_containers spec
      → Hazard lib location container rule place
      → finding rule identity place ∈ spec_findings lib identity spec
  unfolding spec_findings
  hazard-in_spec spec container {rule} {place} m h =
      let a = finding rule identity place in
      in-append_right a (own_findings lib identity spec)
        (flat_map (container_findings lib identity) (iter_containers spec))
        (in-flat_map (container_findings lib identity) a (location, container)
          (iter_containers spec) m (hazard-in_container container h))

pod_findings-some :
    (lib : Library) (identity : String) (document spec : Fields)
    → pod_spec document ≡ some spec
    → pod_findings lib identity document ≡ spec_findings lib identity spec
unfolding pod_findings
pod_findings-some lib identity document spec p = rw (pod_findings, p)

-- What the rules forbid a container of a pod, whichever list of the pod it stands in, is reported under
-- the container's location.
pub hazard-in_pod_findings :
    (lib : Library) (identity location rule place : String) (document spec container : Fields)
    → pod_spec document ≡ some spec
    → (location, container) ∈ iter_containers spec
    → Hazard lib location container rule place
    → finding rule identity place ∈ pod_findings lib identity document
hazard-in_pod_findings lib identity location rule place document spec container p m h =
    rw (pod_findings-some lib identity document spec p)
      (hazard-in_spec lib identity location spec container m h)
