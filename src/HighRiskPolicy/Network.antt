-- ===== src/HighRiskPolicy/Network.antt =====
-- The rules of `resource_findings` on network policies, services and allow lists.
use home_server.Common.{
  ℕ, suc, String, concat, show, not, ◌&&◌, if◌then◌else◌, Bool, false, List, [], ◌∷◌, ◌++◌,
  flat_map, Option, none, some, Py, ok, ◌>>=◌,
}
use home_server.Json.{
  Value, Items, Fields, null, str, arr, obj, nil, cons, end, field, to_fields, get, get_or, as_dict,
  list_or_empty, holds_str, in_set, truthy, str_of,
}
use home_server.HighRiskPolicy.Texts.{Library, text, finding}
use home_server.HighRiskPolicy.Containers.{dicts_from}
use home_server.HighRiskPolicy.Pods.{add_if, field_of}
use home_server.HighRiskPolicy.Rbac.{scope_of}

unfoldable pub selector_is_universal : Value → Bool
unfolding get
selector_is_universal (obj selector) =
    not (truthy (get "matchLabels" selector)) && not (truthy (get "matchExpressions" selector))
selector_is_universal _ = false

abbrev is_true_answer : Option Bool → Bool
is_true_answer none = false
is_true_answer (some b) = b

-- CLUSTER_POD_NETWORKS and K3S_NODE_ADDRESSES
abbrev pub cluster_pod_network : String
cluster_pod_network = "10.42.0.0/16"

abbrev pub k3s_node_addresses : List String
k3s_node_addresses = "192.168.1.2" ∷ "192.168.1.3" ∷ []

module _ (lib : Library) where
  unfoldable pub cidr_is_default_route : Value → Bool
  cidr_is_default_route (str cidr) = is_true_answer (lib.is_default_route cidr)
  cidr_is_default_route _ = false

  unfoldable pub cidr_overlaps_cluster_pods : Value → Bool
  cidr_overlaps_cluster_pods (str cidr) = is_true_answer (lib.overlaps cidr cluster_pod_network)
  cidr_overlaps_cluster_pods _ = false

  -- canonical_sha256(value)
  unfoldable pub canonical_sha256 : Value → String
  canonical_sha256 value = lib.sha256 (lib.dumps value)

-- The words in which the rules on ingress and on egress differ.
pub record Direction : Type 0 where
  pub key : String
  pub peers_key : String
  pub universal_rule : String
  pub all_token : String
  pub cluster_rule : String
  pub internet_rule : String

abbrev pub ingress : Direction
ingress = record {
  key = "ingress";
  peers_key = "from";
  universal_rule = "universal-ingress-source";
  all_token = "all-sources";
  cluster_rule = "cluster-wide-ingress-source";
  internet_rule = "internet-wide-ingress-source";
}

abbrev pub egress : Direction
egress = record {
  key = "egress";
  peers_key = "to";
  universal_rule = "universal-egress-destination";
  all_token = "all-destinations";
  cluster_rule = "cluster-wide-egress-destination";
  internet_rule = "internet-wide-egress-destination";
}

module _ (lib : Library) (identity : String) where
  abbrev block_findings : Direction → String → Fields → List String
  unfolding cidr_is_default_route scope_of get finding str_of
  block_findings d place ip_block = add_if (cidr_is_default_route lib (get "cidr" ip_block)) (
      finding d.internet_rule identity (
        concat (
          place
          ∷ "/cidr/"
          ∷ str_of lib.render (get "cidr" ip_block)
          ∷ "/except/"
          ∷ scope_of "none" (get "except" ip_block)
          ∷ [])))

  abbrev peer_findings : Direction → String → Value → List String
  unfolding block_findings selector_is_universal get finding
  peer_findings d place (obj end) =
      finding d.universal_rule identity (concat (place ∷ "/" ∷ d.all_token ∷ [])) ∷ []
  peer_findings d place (obj (field k v fs)) =
      let peer = field k v fs in
      add_if (selector_is_universal (get "namespaceSelector" peer))
        (finding d.cluster_rule identity (concat (place ∷ "/all-namespaces" ∷ [])))
      ++ (elim (as_dict (get "ipBlock" peer)) [
        | none ↦ []
        | some block ↦ block_findings d place block
      ])
  peer_findings d place _ = []

  unfoldable pub peers_from : Direction → String → ℕ → Items → List String
  unfolding peer_findings show
  peers_from d place index nil = []
  peers_from d place index (cons peer peers) =
      peer_findings d (concat (place ∷ "/peer/" ∷ show index ∷ [])) peer
      ++ peers_from d place (suc index) peers

  abbrev peers_findings : Direction → String → Value → List String
  unfolding peers_from finding
  peers_findings d place null =
      finding d.universal_rule identity (concat (place ∷ "/" ∷ d.all_token ∷ [])) ∷ []
  peers_findings d place (arr nil) =
      finding d.universal_rule identity (concat (place ∷ "/" ∷ d.all_token ∷ [])) ∷ []
  peers_findings d place (arr (cons peer peers)) = peers_from d place 0 (cons peer peers)
  peers_findings d place _ = []

  abbrev traffic_rule : Direction → ℕ × Fields → List String
  unfolding peers_findings get show
  traffic_rule d (index, rule) =
      peers_findings d (concat (d.key ∷ "/" ∷ show index ∷ [])) (get d.peers_key rule)

  -- the loop over `spec.get("ingress")` or `spec.get("egress")`
  unfoldable pub traffic_findings : Direction → Fields → List String
  unfolding traffic_rule dicts_from get
  traffic_findings d spec =
      flat_map (traffic_rule d) (dicts_from 0 (list_or_empty (get d.key spec)))

  -- f"spec/sha256/{canonical_sha256(value)}"
  unfoldable pub boundary : String → String → Value → List String
  unfolding canonical_sha256 finding
  boundary rule place value =
      finding rule identity (concat (place ∷ "/sha256/" ∷ canonical_sha256 lib value ∷ [])) ∷ []

  unfoldable pub network_policy_findings : Fields → List String
  unfolding boundary traffic_findings get
  network_policy_findings spec =
      (if holds_str (list_or_empty (get "policyTypes" spec)) "Ingress"
        then boundary "network-policy-ingress-boundary" "spec" (
            obj (
              to_fields (
                ("podSelector", get "podSelector" spec)
                ∷ ("policyTypes", get "policyTypes" spec)
                ∷ ("ingress", get "ingress" spec)
                ∷ [])))
        else [])
      ++ (traffic_findings ingress spec ++ traffic_findings egress spec)

  unfoldable pub service_findings : Fields → Py (List String)
  unfolding scope_of get get_or finding text str_of
  service_findings spec = do
    let service_type = get_or "type" (str "ClusterIP") spec
    exposed ← in_set service_type ("ExternalName" ∷ "LoadBalancer" ∷ "NodePort" ∷ [])
    ok (
        add_if exposed (
          finding "externally-exposed-service" identity (
            concat (
              str_of lib.render service_type
              ∷ "/target/"
              ∷ text (get "externalName" spec) "<none>"
              ∷ [])))
        ++ (let ips = get "externalIPs" spec in
            elim (list_or_empty ips) [
              | [] ↦ []
              | _ ∷ _ ↦
                  finding "service-external-ips" identity
                    (concat ("spec.externalIPs/" ∷ scope_of "" ips ∷ []))
                  ∷ []
            ]))

  -- one range of an allow list
  abbrev node_findings : Value → String → List String
  unfolding finding text str_of
  node_findings cidr address =
      add_if (is_true_answer (lib.holds_address (str_of lib.render cidr) address)) (
        finding "node-snat-ip-allowlist" identity (
          concat ("spec.ipAllowList.sourceRange/" ∷ text cidr "<unset>" ∷ "/node/" ∷ address ∷ [])))

  abbrev range_findings : Value → List String
  unfolding node_findings cidr_overlaps_cluster_pods finding text
  range_findings cidr =
      add_if (cidr_overlaps_cluster_pods lib cidr) (
        finding "pod-cidr-ip-allowlist" identity
          (concat ("spec.ipAllowList.sourceRange/" ∷ text cidr "<unset>" ∷ [])))
      ++ flat_map (node_findings cidr) k3s_node_addresses

  unfoldable pub middleware_findings : Fields → List String
  unfolding boundary range_findings get
  middleware_findings spec =
      boundary "middleware-boundary" "spec" (obj spec)
      ++ flat_map range_findings (list_or_empty (field_of "sourceRange" (get "ipAllowList" spec)))
