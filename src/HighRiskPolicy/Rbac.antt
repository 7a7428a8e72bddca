-- ===== src/HighRiskPolicy/Rbac.antt =====
-- `rbac_findings`: the rules on roles and their bindings.
use home_server.Common.{
  ℕ, String, concat, show, join, if◌then◌else◌, List, [], ◌∷◌, ◌++◌, map, flat_map, contains,
  is_empty, Py, ok, ◌>>=◌,
}
use home_server.Common.Order.{sort, sorted_set}
use home_server.Json.{Value, Fields, get, list_or_empty, eq_str, holds_str, in_set, str_of}
use home_server.HighRiskPolicy.Texts.{Library, text, finding}
use home_server.HighRiskPolicy.Containers.{dicts_from}
use home_server.HighRiskPolicy.Pods.{add_if, field_of}

-- sorted(values & names)
unfoldable pub sorted_common : List String → List String → List String
unfolding sorted_set
sorted_common values names = sorted_set (flat_map (λ n. add_if (contains values n) n) names)

-- ",".join(sorted(text(value, "<unset>") for value in values)), or a word for no list or an empty one
unfoldable pub scope_of : String → Value → String
unfolding sort text join
scope_of nobody v =
    let names = list_or_empty v in
    if is_empty names then nobody else join "," (sort (map (λ (n : Value). text n "<unset>") names))

module _ (lib : Library) (identity : String) where
  -- {str(value).lower() for value in raw} if isinstance(raw, list) else set()
  abbrev lowered : Value → List String
  unfolding str_of
  lowered raw = map (λ (v : Value). lib.lower (str_of lib.render v)) (list_or_empty raw)

  abbrev wildcard_findings : String → Fields → String → List String
  unfolding get finding
  wildcard_findings place rule name =
      add_if (holds_str (list_or_empty (get name rule)) "*")
        (finding "wildcard-rbac" identity (concat (place ∷ "/" ∷ name ∷ [])))

  unfoldable pub rule_findings : ℕ × Fields → List String
  unfolding lowered sorted_common scope_of wildcard_findings get finding show
  rule_findings (index, rule) =
      let place = concat ("rule/" ∷ show index ∷ []) in
      let verbs = lowered (get "verbs" rule) in
      let resources = lowered (get "resources" rule) in
      let name_scope = scope_of "all" (get "resourceNames" rule) in
      flat_map (wildcard_findings place rule)
        ("apiGroups" ∷ "resources" ∷ "verbs" ∷ "nonResourceURLs" ∷ [])
      ++ (flat_map
            (λ verb.
              finding "rbac-escalation-verb" identity (concat (place ∷ "/verb/" ∷ verb ∷ [])) ∷ [])
            (sorted_common verbs ("bind" ∷ "escalate" ∷ "impersonate" ∷ []))
          ++ (flat_map
                (λ resource.
                  flat_map
                    (λ verb.
                      finding "rbac-secret-or-token-access" identity (
                        concat (
                          place ∷ "/resource/" ∷ resource ∷ "/verb/" ∷ verb ∷ "/names/" ∷ name_scope
                          ∷ []))
                      ∷ [])
                    (sorted_common verbs
                      ("create" ∷ "get" ∷ "list" ∷ "patch" ∷ "update" ∷ "watch" ∷ [])))
                (sorted_common resources ("secrets" ∷ "serviceaccounts/token" ∷ []))
              ++ flat_map
                  (λ resource.
                    flat_map
                      (λ verb.
                        finding "rbac-workload-exec" identity
                          (concat (place ∷ "/resource/" ∷ resource ∷ "/verb/" ∷ verb ∷ []))
                        ∷ [])
                      (sorted_common verbs ("create" ∷ "get" ∷ "patch" ∷ "update" ∷ [])))
                  (sorted_common resources (
                    "pods/attach" ∷ "pods/ephemeralcontainers" ∷ "pods/exec" ∷ "pods/portforward"
                    ∷ []))))

  abbrev role_findings : Fields → List String
  unfolding rule_findings dicts_from get
  role_findings document =
      flat_map rule_findings (dicts_from 0 (list_or_empty (get "rules" document)))

  abbrev binding_findings : Fields → List String
  unfolding get finding
  binding_findings document =
      add_if (eq_str (field_of "name" (get "roleRef" document)) "cluster-admin")
        (finding "cluster-admin-binding" identity "roleRef")

  unfoldable pub rbac_findings : Fields → Py (List String)
  unfolding role_findings binding_findings get
  rbac_findings document = do
    is_role ← in_set (get "kind" document) ("ClusterRole" ∷ "Role" ∷ [])
    is_binding ← in_set (get "kind" document) ("ClusterRoleBinding" ∷ "RoleBinding" ∷ [])
    ok (
        (if is_role then role_findings document else [])
        ++ (if is_binding then binding_findings document else []))
