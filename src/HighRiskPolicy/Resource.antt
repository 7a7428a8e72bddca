-- ===== src/HighRiskPolicy/Resource.antt =====
-- `resource_findings`: all rules on one object.
use home_server.Common.{
  String, concat, starts_with, not, ◌||◌, ◌&&◌, if◌then◌else◌, Bool, List, [], ◌∷◌, ◌++◌, none,
  some, Py, ok, raise, ◌>>=◌,
}
use home_server.Common.Regex.{
  Regex, one, both, text_of, optional, some_of, digit_code, between, matches,
}
use home_server.Common.{◌==◌, attribute_error}
use home_server.Json.{
  Value, Fields, obj, end, str, to_fields, get, get_or, as_dict, dict_or_empty, eq_str, in_set,
  str_of,
}
use home_server.HighRiskPolicy.Texts.{Library, text, finding, resource_id}
use home_server.HighRiskPolicy.Pods.{add_if, field_of, pod_findings}
use home_server.HighRiskPolicy.Rbac.{rbac_findings}
use home_server.HighRiskPolicy.Network.{
  boundary, network_policy_findings, service_findings, middleware_findings,
}
use home_server.HighRiskPolicy.Sources.{
  kustomization_findings, git_repository_findings, source_findings, helm_repository_findings,
  oci_repository_findings, helm_release_findings,
}

-- .+-access-proxy(?:-[a-z0-9]+)?
abbrev pub access_proxy : Regex
access_proxy =
    let plain = one (λ c. not (c == b'\n')) in
    both (some_of plain) (
      both (text_of "-access-proxy")
        (optional (both (text_of "-") (some_of (one (λ c. between b'a' b'z' c || digit_code c))))))

abbrev route_kinds : List String
route_kinds =
    "Gateway" ∷ "HTTPRoute" ∷ "GRPCRoute" ∷ "TCPRoute" ∷ "TLSRoute" ∷ "UDPRoute" ∷ "Ingress"
    ∷ "IngressRoute" ∷ "IngressRouteTCP" ∷ "IngressRouteUDP" ∷ []

module _ (lib : Library) (document : Fields) where
  abbrev identity : String
  unfolding resource_id
  identity = resource_id document

  abbrev kind : Value
  unfolding get
  kind = get "kind" document

  abbrev spec : Fields
  unfolding get
  spec = dict_or_empty (get "spec" document)

  -- str(document.get("apiVersion", "")).startswith(group)
  abbrev in_group : String → Bool
  unfolding get_or str_of starts_with
  in_group group = starts_with (str_of lib.render (get_or "apiVersion" (str "") document)) group

  abbrev when : String → List String → List String
  unfolding kind
  when name rules = if eq_str kind name then rules else []

  unfoldable pub namespace_findings : List String
  unfolding identity get field_of finding
  namespace_findings =
      add_if
        (eq_str
          (field_of "pod-security.kubernetes.io/enforce"
            (field_of "labels" (get "metadata" document)))
          "privileged")
        (finding "privileged-namespace" identity "pod-security-enforce")

  -- The name is read of `document.get("metadata", {})`, which raises if that is no mapping.
  unfoldable pub config_map_findings : Py (List String)
  unfolding identity get_or str_of matches boundary
  config_map_findings = do
    name ← get_attr_or "name" (get_or "metadata" (obj end) document)
    ok (
        if matches access_proxy (str_of lib.render name)
        then boundary lib identity "access-proxy-boundary" "data" (get_or "data" (obj end) document)
        else [])
    where
      get_attr_or : String → Value → Py Value
      get_attr_or key v = elim (as_dict v) [
        | none ↦ raise attribute_error
        | some fs ↦ ok (get_or key (str "") fs)
      ]

  unfoldable pub snapshot_findings : List String
  unfolding identity get get_or boundary
  snapshot_findings = boundary lib identity "snapshot-class-boundary" "spec" (
      obj (
        to_fields (
          ("annotations", obj (dict_or_empty (field_of "annotations" (get "metadata" document))))
          ∷ ("driver", get "driver" document)
          ∷ ("deletionPolicy", get "deletionPolicy" document)
          ∷ ("parameters", get_or "parameters" (obj end) document)
          ∷ [])))

  abbrev storage_findings : Fields → List String
  unfolding identity finding concat text get
  storage_findings storage =
      finding "node-local-persistent-volume" identity
        (concat ("spec/path/" ∷ text (get "path" storage) "<unset>" ∷ []))
      ∷ []

  unfoldable pub volume_findings : List String
  unfolding spec storage_findings get
  volume_findings = elim (as_dict (get "hostPath" spec)) [
    | some storage ↦ storage_findings storage
    | none ↦ elim (as_dict (get "local" spec)) [
      | some storage ↦ storage_findings storage
      | none ↦ []
    ]
  ]

  abbrev spec_boundary : String → List String
  unfolding identity spec boundary
  spec_boundary rule = boundary lib identity rule "spec" (obj spec)

  -- the rules that cannot raise
  unfoldable pub plain_findings : List String
  unfolding identity spec in_group when namespace_findings snapshot_findings volume_findings
      kustomization_findings middleware_findings network_policy_findings git_repository_findings
      helm_repository_findings oci_repository_findings
  plain_findings =
      when "Namespace" namespace_findings
      ++ (when "Kustomization" (
            if in_group "kustomize.toolkit.fluxcd.io/"
            then kustomization_findings lib identity spec
            else [])
          ++ (when "Middleware"
                (if in_group "traefik.io/" then middleware_findings lib identity spec else [])
              ++ (when "NetworkPolicy" (network_policy_findings lib identity spec)
                  ++ (when "VolumeSnapshotClass"
                        (if in_group "snapshot.storage.k8s.io/" then snapshot_findings else [])
                      ++ (when "GitRepository" (git_repository_findings lib identity spec)
                          ++ (when "HelmRepository" (helm_repository_findings lib identity spec)
                              ++ (when "OCIRepository" (oci_repository_findings lib identity spec)
                                  ++ when "PersistentVolume" volume_findings)))))))

  -- The rules behind those on pods, in the code's order where one may raise; a set has no order.
  unfoldable pub other_findings : Py (List String)
  unfolding identity kind spec in_group rbac_findings plain_findings config_map_findings
      spec_boundary service_findings source_findings helm_release_findings
  other_findings = do
    rbac ← rbac_findings lib identity document
    config ← if eq_str kind "ConfigMap" then config_map_findings else ok []
    is_backend ← in_set kind ("ServersTransport" ∷ "TraefikService" ∷ [])
    is_route ← in_set kind route_kinds
    service ← if eq_str kind "Service" then service_findings lib identity spec else ok []
    is_source ← in_set kind ("HelmRepository" ∷ "GitRepository" ∷ "OCIRepository" ∷ [])
    release ← if eq_str kind "HelmRelease" then helm_release_findings lib identity spec else ok []
    ok (
        rbac
        ++ (plain_findings
            ++ (config
                ++ ((if is_backend && in_group "traefik.io/"
                      then spec_boundary "traefik-backend-boundary"
                      else [])
                    ++ ((if is_route then spec_boundary "route-boundary" else [])
                        ++ (service
                            ++ ((if is_source then source_findings lib identity kind spec else [])
                                ++ release)))))))

  unfoldable pub resource_findings : Py (List String)
  unfolding identity pod_findings other_findings
  resource_findings = do others ← other_findings; ok (pod_findings lib identity document ++ others)
