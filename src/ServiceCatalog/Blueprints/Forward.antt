-- ===== src/ServiceCatalog/Blueprints/Forward.antt =====
-- scripts/service_catalog.py: `authentik_forward_blueprint`.
use home_server.Common.{
  String, concat, join, List, [], ◌∷◌, ◌++◌, map, flat_map, if◌then◌else◌, Py, ok, raise,
  type_error, ◌>>=◌, flat_map_py,
}
use home_server.Common.Order.{sort}
use home_server.Json.{Value, Fields, str, arr, nil, get, get_or, eq_str, dict_or_empty}
use home_server.ServiceCatalog.Paths.{Repository}
use home_server.ServiceCatalog.Routes.{iterate}
use home_server.ServiceCatalog.Blueprints.Text.{yaml_string}
use home_server.ServiceCatalog.Blueprints.Parts.{item, head_lines, ended, text_of, text_item}

module _ (w : Repository) where
  -- [str(group) for group in sorted(auth.get("allowedGroups", []))], of texts: the check of the
  -- structure, which comes first, accepts no other groups.
  abbrev group_texts : List Value → Py (List String)
  group_texts [] = ok []
  group_texts (str s ∷ vs) = do rest ← group_texts vs; ok (s ∷ rest)
  group_texts (v ∷ vs) = raise type_error

  -- json.dumps of a list of texts
  abbrev json_list : List String → String
  unfolding concat join yaml_string
  json_list texts = concat ("[" ∷ join ", " (map yaml_string texts) ∷ "]" ∷ [])

  abbrev policy_lines : String → List String → List String
  unfolding concat yaml_string sort json_list
  policy_lines slug groups =
      "  - model: authentik_policies_expression.expressionpolicy"
      ∷ concat ("    id: " ∷ slug ∷ "-allowed-groups" ∷ [])
      ∷ "    identifiers:"
      ∷ concat ("      name: " ∷ yaml_string (concat (slug ∷ " allowed groups" ∷ [])) ∷ [])
      ∷ "    attrs:"
      ∷ "      execution_logging: false"
      ∷ "      expression: |"
      ∷ concat (
          "        return any(ak_is_group_member(request.user, name=group) for group in "
          ∷ json_list (sort groups)
          ∷ ")"
          ∷ [])
      ∷ "  - model: authentik_policies.policybinding"
      ∷ "    identifiers:"
      ∷ concat ("      policy: !KeyOf " ∷ slug ∷ "-allowed-groups" ∷ [])
      ∷ concat ("      target: !Find [authentik_core.application, [slug, " ∷ slug ∷ "]]" ∷ [])
      ∷ "      order: 0"
      ∷ []

  abbrev policy_of : String → Fields → Py (List String)
  unfolding get get_or policy_lines
  policy_of slug auth =
      if eq_str (get "profile" auth) "authentik-forward-single-v2"
      then (iterate (get_or "allowedGroups" (arr nil) auth) >>= λ listed.
          group_texts listed >>= λ groups. ok (policy_lines slug groups))
      else ok []

  -- The lines of one application, with the id of its provider.
  unfoldable pub forward_lines : Value × Value → Py (List (String × List String))
  unfolding get_or concat yaml_string text_item policy_of
  forward_lines (service, auth) = do
    name ← text_item w "name" service
    web ← item "web" service
    hostname ← text_item w "hostname" web
    application ← item "application" auth
    slug ← text_item w "slug" application
    let provider_id = concat (slug ∷ "-provider" ∷ [])
    let provider_name =
        text_of w
          (get_or "providerName" (str (concat ("Provider for " ∷ name ∷ []))) (dict_or_empty auth))
    let launch_url = text_of w (
        get_or "launchUrl" (str (concat ("https://" ∷ hostname ∷ "/" ∷ [])))
          (dict_or_empty application))
    policy ← policy_of slug (dict_or_empty auth)
    ok (
        (
          provider_id,
          ("  - model: authentik_providers_proxy.proxyprovider"
                ∷ concat ("    id: " ∷ provider_id ∷ [])
                ∷ "    identifiers:"
                ∷ concat ("      name: " ∷ yaml_string provider_name ∷ [])
                ∷ "    attrs:"
                ∷ "      authorization_flow: !Find [authentik_flows.flow, [slug, default-provider-authorization-implicit-consent]]"
                ∷ "      invalidation_flow: !Find [authentik_flows.flow, [slug, default-provider-invalidation-flow]]"
                ∷ "      mode: forward_single"
                ∷ concat (
                    "      external_host: "
                    ∷ yaml_string (concat ("https://" ∷ hostname ∷ []))
                    ∷ [])
                ∷ "  - model: authentik_core.application"
                ∷ "    identifiers:"
                ∷ concat ("      slug: " ∷ slug ∷ [])
                ∷ "    attrs:"
                ∷ concat ("      name: " ∷ yaml_string name ∷ [])
                ∷ concat ("      provider: !KeyOf " ∷ provider_id ∷ [])
                ∷ concat ("      meta_launch_url: " ∷ yaml_string launch_url ∷ [])
                ∷ [])
              ++ policy,
        )
        ∷ [])

  -- "\n".join(lines), where the last line is empty
  unfoldable pub authentik_forward_blueprint : List (Value × Value) → Py String
  unfolding concat forward_lines ended
  authentik_forward_blueprint entries = do
    applications ← flat_map_py forward_lines entries
    ok (
        ended (
          head_lines "  name: \"Forward-auth applications\""
          ++ (flat_map (λ (p : String × List String). p.1) applications
              ++ (("  - model: authentik_outposts.outpost" ∷ "    identifiers:"
                    ∷ "      name: authentik Embedded Outpost" ∷ "    attrs:" ∷ "      providers:"
                    ∷ [])
                  ++ map (λ (p : String × List String). concat ("        - !KeyOf " ∷ p.0 ∷ []))
                      applications))))
