-- ===== src/HighRiskPolicy/Detect/DefaultDeny.antt =====
-- A namespace in use without a default-deny policy is reported.
pub mod Denied
use home_server.Common.{
  ◌∈◌, contains, contains→in, in→contains, in-append_right, in-flat_map, collected, collected_from,
  returned_by_bind, String, ◌≡◌, refl, sym, ap, ◌⊎◌, inl, inr, true, not, Bool-cases, List, [], ◌∷◌,
  ◌++◌, map, flat_map, ok, flat_map_py,
}
use home_server.Common.Order.{in-sorted_set}
use home_server.Json.{Value, Fields, get, truthy}
use home_server.YamlDocuments.Objects.{Nested}
use home_server.HighRiskPolicy.Texts.{Library}
use home_server.HighRiskPolicy.Rbac.{sorted_common}
use home_server.HighRiskPolicy.Pods.{add_if}
use home_server.HighRiskPolicy.Detect.{
  used_namespace, default_deny_of, missing_default_deny, required_default_deny_namespaces,
  document_findings, default_deny_findings, detect,
}
use home_server.HighRiskPolicy.Detect.DefaultDeny.Denied.{
  IsDefaultDeny, default_deny_of-IsDefaultDeny,
}
use home_server.HighRiskPolicy.Detect.Complete.{document_pair, pair-Nested}

in-sorted_common :
    (a : String) (values names : List String)
    → a ∈ values
    → a ∈ names
    → a ∈ sorted_common values names
unfolding sorted_common
in-sorted_common a values names m n = in-sorted_set a _ (
    in-flat_map (λ n. add_if (contains values n) n) a a names n
      (rw (in→contains values a m) (inl refl)))

-- An object that counts as a default-deny policy for the namespace, among some objects.
pub record Denies (namespace : String) (resources : List Fields) : Type 0 where
  pub policy : Fields
  pub namespaces : List String
  pub listed : policy ∈ resources
  pub valid : default_deny_of policy ≡ ok namespaces
  pub applies : namespace ∈ namespaces

module _ (lib : Library) (namespace : String) where
  abbrev missing_among : List String → List Fields → List String
  unfolding used_namespace sorted_common
  missing_among valid resources =
      flat_map (λ n. add_if (not (contains valid n)) (missing_default_deny n))
        (sorted_common (flat_map (used_namespace lib.render) resources)
          required_default_deny_namespaces)

  missing_or_denied :
      (resources : List Fields) (findings : List String) (user : Fields)
      → default_deny_findings lib.render resources ≡ ok findings
      → user ∈ resources
      → namespace ∈ used_namespace lib.render user
      → namespace ∈ required_default_deny_namespaces
      → (missing_default_deny namespace ∈ findings) ⊎ Denies namespace resources
  unfolding default_deny_findings
  missing_or_denied resources findings user h m used required =
      let (valid, rest, run) =
        returned_by_bind _ (flat_map_py default_deny_of resources) findings (sym h) in
      elim (Bool-cases (contains valid namespace)) [
        | inl e ↦
            let (policy, namespaces, i, judged, j) =
              collected_from default_deny_of namespace resources valid run
                (contains→in valid namespace e) in
            inr (record {
              policy = policy;
              namespaces = namespaces;
              listed = i;
              valid = judged;
              applies = j;
            })
        | inr e ↦
            let needed =
              in-sorted_common namespace (flat_map (used_namespace lib.render) resources)
                required_default_deny_namespaces
                (in-flat_map (used_namespace lib.render) namespace user resources m used)
                required in
            let added =
              in-flat_map (λ n. add_if (not (contains valid n)) (missing_default_deny n))
                (missing_default_deny namespace) namespace _ needed (rw e (inl refl)) in
            let same : missing_among valid resources ≡ findings = cc in inl (rw (← same) added)
      ]

in-map_first :
    (o : Fields) (found : List String) (pairs : List (Fields × List String))
    → (o, found) ∈ pairs
    → o ∈ map (λ (p : Fields × List String). p.0) pairs
in-map_first o found [] m = m
in-map_first o found (p ∷ pairs) (inl e) = inl (ap (λ (p : Fields × List String). p.0) e)
in-map_first o found (p ∷ pairs) (inr m) = inr (in-map_first o found pairs m)

map_first-in :
    (o : Fields) (pairs : List (Fields × List String))
    → o ∈ map (λ (p : Fields × List String). p.0) pairs
    → (found : List String) × ((o, found) ∈ pairs)
map_first-in o [] m = absurd m
map_first-in o ((x, found) ∷ pairs) (inl e) = (found, inl (rw e))
map_first-in o (p ∷ pairs) (inr m) = let (found, i) = map_first-in o pairs m in (found, inr i)

-- A policy that stands in one of the documents and that denies all traffic of the namespace by default.
pub record Policy (namespace : String) (documents : List Value) : Type 0 where
  pub policy : Fields
  pub document : Value
  pub listed : document ∈ documents
  pub nested : Nested policy document
  pub denies : IsDefaultDeny policy namespace

module _ (lib : Library) (namespace : String) where
  -- If the scan comes to its end and an object of a document uses one of the namespaces that need it, the
  -- documents hold a NetworkPolicy `default-deny` of the namespace that selects every pod, is for ingress
  -- and egress and has no rule for either, or its lack is among the findings.
  pub detect-default_deny :
      (documents : List Value) (findings : List String) (document : Value) (user : Fields)
      → detect lib documents ≡ ok findings
      → document ∈ documents
      → Nested user document
      → truthy (get "kind" user) ≡ true
      → namespace ∈ used_namespace lib.render user
      → namespace ∈ required_default_deny_namespaces
      → (missing_default_deny namespace ∈ findings) ⊎ Policy namespace documents
  unfolding detect
  detect-default_deny documents findings document user h m n k used required =
      let (pairs, rest, run) =
        returned_by_bind _ (flat_map_py (document_findings lib) documents) findings (sym h) in
      let resources = map (λ (p : Fields × List String). p.0) pairs in
      let (denied, last, policies) =
        returned_by_bind _ (default_deny_findings lib.render resources) findings (sym rest) in
      let (mine, scan, up) = collected (document_findings lib) document documents pairs run m in
      let (found, rules, i) = document_pair lib user document mine scan n k in
      let member = in-map_first user found pairs (up (user, found) i) in
      let own = flat_map (λ (p : Fields × List String). p.1) pairs in
      let whole : own ++ denied ≡ findings = cc in
      elim (missing_or_denied lib namespace resources denied user policies member used required) [
        | inl missing ↦
            inl (rw (← whole) (in-append_right (missing_default_deny namespace) own denied missing))
        | inr d ↦
            let (judged, j) = map_first-in d.policy pairs d.listed in
            let (holder, held, in_documents, judging, at) =
              collected_from (document_findings lib) (d.policy, judged) documents pairs run j in
            inr (record {
              policy = d.policy;
              document = holder;
              listed = in_documents;
              nested = pair-Nested lib d.policy holder judged held judging at;
              denies =
                  default_deny_of-IsDefaultDeny d.policy d.namespaces namespace d.valid d.applies;
            })
      ]
