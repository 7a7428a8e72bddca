-- ===== src/ServiceCatalog/Blueprints/Oidc.antt =====
-- scripts/service_catalog.py: `authentik_oidc_blueprint`.
pub mod Provided
use home_server.Common.{
  String, str_eq, concat, join, List, [], ◌∷◌, ◌++◌, map, if◌then◌else◌, Py, ok, raise, key_error,
  type_error, ◌>>=◌, flat_map_py,
}
use home_server.Common.Lines.{splitlines}
use home_server.Json.{Value, str, arr, obj, nil, get, get_or, eq_str, dict_or_empty}
use home_server.ServiceCatalog.Paths.{Repository}
use home_server.ServiceCatalog.Names.{authentik_secret_key}
use home_server.ServiceCatalog.Routes.{iterate}
use home_server.ServiceCatalog.Blueprints.Text.{yaml_string, rstrip_feed}
use home_server.ServiceCatalog.Blueprints.Parts.{item, head_lines, ended, text_of, text_item}

abbrev managed_scope : String → Py String
managed_scope s =
    if str_eq s "openid"
    then ok "goauthentik.io/providers/oauth2/scope-openid"
    else if str_eq s "email"
    then ok "goauthentik.io/providers/oauth2/scope-email"
    else if str_eq s "profile"
    then ok "goauthentik.io/providers/oauth2/scope-profile"
    else if str_eq s "offline_access"
    then ok "goauthentik.io/providers/oauth2/scope-offline_access"
    else raise key_error

-- MANAGED_SCOPE_MAPPINGS[scope]
abbrev managed : Value → Py String
managed (str s) = managed_scope s
managed (arr vs) = raise type_error
managed (obj fs) = raise type_error
managed v = raise key_error

module _ (w : Repository) where
  unfoldable pub mapping_lines : Value → Py (List String)
  unfolding concat splitlines rstrip_feed yaml_string text_item
  mapping_lines mapping = do
    id ← text_item w "id" mapping
    name ← text_item w "name" mapping
    scope ← text_item w "scope" mapping
    description ← text_item w "description" mapping
    expression ← text_item w "expression" mapping
    ok (
        ("  - model: authentik_providers_oauth2.scopemapping"
          ∷ concat ("    id: " ∷ id ∷ [])
          ∷ "    identifiers:"
          ∷ concat ("      name: " ∷ yaml_string name ∷ [])
          ∷ "    attrs:"
          ∷ concat ("      scope_name: " ∷ scope ∷ [])
          ∷ concat ("      description: " ∷ yaml_string description ∷ [])
          ∷ "      expression: |"
          ∷ [])
        ++ map (λ line. concat ("        " ∷ line ∷ [])) (splitlines (rstrip_feed expression)))

  unfoldable pub redirect_lines : Value → Py (List String)
  unfolding concat yaml_string text_item
  redirect_lines redirect = do
    url ← text_item w "url" redirect
    kind ← text_item w "type" redirect
    ok (
        "        - matching_mode: strict"
        ∷ concat ("          url: " ∷ yaml_string url ∷ [])
        ∷ concat ("          redirect_uri_type: " ∷ kind ∷ [])
        ∷ [])

  abbrev logout_lines : Value → Py (List String)
  unfolding concat yaml_string text_item
  logout_lines (obj logout) = do
    url ← text_item w "url" (obj logout)
    method ← text_item w "method" (obj logout)
    ok (
        concat ("      logout_uri: " ∷ yaml_string url ∷ [])
        ∷ concat ("      logout_method: " ∷ method ∷ [])
        ∷ [])
  logout_lines v = ok []

  abbrev scope_line : Value → Py (List String)
  unfolding concat
  scope_line scope = do
    name ← managed scope
    ok (
        concat (
          "        - !Find [authentik_providers_oauth2.scopemapping, [managed, " ∷ name ∷ "]]" ∷ [])
        ∷ [])

  abbrev mapping_key : Value → Py (List String)
  unfolding concat text_item
  mapping_key mapping = do
    id ← text_item w "id" mapping
    ok (concat ("        - !KeyOf " ∷ id ∷ []) ∷ [])

  -- The lines of the provider, up to its redirects.
  unfoldable pub provider_lines : String → String → String → Value → Py (List String)
  unfolding concat join yaml_string text_item authentik_secret_key
  provider_lines provider_id provider_name service_id client = do
    kind ← item "type" client
    client_id ← text_item w "id" client
    grants ← item "grantTypes" client
    listed ← iterate grants
    ok (
        "  - model: authentik_providers_oauth2.oauth2provider"
          ∷ concat ("    id: " ∷ provider_id ∷ [])
          ∷ "    identifiers:"
          ∷ concat ("      name: " ∷ yaml_string provider_name ∷ [])
          ∷ "    attrs:"
          ∷ "      authorization_flow: !Find [authentik_flows.flow, [slug, default-provider-authorization-implicit-consent]]"
          ∷ "      invalidation_flow: !Find [authentik_flows.flow, [slug, default-provider-invalidation-flow]]"
          ∷ concat ("      client_type: " ∷ text_of w kind ∷ [])
          ∷ concat ("      client_id: " ∷ yaml_string client_id ∷ [])
          ∷ (if eq_str kind "confidential"
              then concat (
                  "      client_secret: !Env ["
                  ∷ authentik_secret_key w service_id
                  ∷ ", null]"
                  ∷ [])
                ∷ []
              else [])
        ++ (concat ("      grant_types: [" ∷ join ", " (map (text_of w) listed) ∷ "]" ∷ [])
            ∷ "      issuer_mode: per_provider"
            ∷ "      include_claims_in_id_token: true"
            ∷ "      redirect_uris:"
            ∷ []))

  abbrev launch_line : Value → List String
  unfolding concat yaml_string
  launch_line (str url) = concat ("      meta_launch_url: " ∷ yaml_string url ∷ []) ∷ []
  launch_line v = []

  unfoldable pub application_lines : String → String → String → Value → List String
  unfolding concat get yaml_string
  application_lines slug name provider_id application =
      ("      signing_key: !Find [authentik_crypto.certificatekeypair, [name, authentik Self-signed Certificate]]"
        ∷ "  - model: authentik_core.application"
        ∷ "    identifiers:"
        ∷ concat ("      slug: " ∷ slug ∷ [])
        ∷ "    attrs:"
        ∷ concat ("      name: " ∷ yaml_string name ∷ [])
        ∷ concat ("      provider: !KeyOf " ∷ provider_id ∷ [])
        ∷ [])
      ++ launch_line (get "launchUrl" (dict_or_empty application))

  unfoldable pub authentik_oidc_blueprint : Value → Value → Py String
  unfolding get get_or concat mapping_lines redirect_lines logout_lines scope_line mapping_key
      provider_lines application_lines ended
  authentik_oidc_blueprint service auth = do
    service_id ← text_item w "id" service
    name ← text_item w "name" service
    application ← item "application" auth
    client ← item "client" auth
    slug ← text_item w "slug" application
    let settings = dict_or_empty auth
    let provider_id = concat (slug ∷ "-provider" ∷ [])
    let blueprint_name =
        text_of w (get_or "blueprintName" (str (concat (name ∷ " OIDC" ∷ []))) settings)
    let provider_name =
        text_of w (get_or "providerName" (str (concat ("Provider for " ∷ name ∷ []))) settings)
    claims ← iterate (get_or "claimMappings" (arr nil) settings)
    mappings ← flat_map_py mapping_lines claims
    provider ← provider_lines provider_id provider_name service_id client
    uris ← item "redirectUris" client
    redirects ← iterate uris
    urls ← flat_map_py redirect_lines redirects
    logout ← logout_lines (get "providerLogout" (dict_or_empty client))
    wanted ← item "scopes" client
    scopes ← iterate wanted
    scope_lines ← flat_map_py scope_line scopes
    keys ← flat_map_py mapping_key claims
    ok (
        ended (
          head_lines (concat ("  name: " ∷ yaml_string blueprint_name ∷ []))
          ++ (mappings
              ++ (provider
                  ++ (urls
                      ++ (logout
                          ++ (("      property_mappings:" ∷ [])
                              ++ (scope_lines
                                  ++ (keys
                                      ++ application_lines slug name provider_id
                                          application)))))))))
