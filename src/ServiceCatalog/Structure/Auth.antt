-- ===== src/ServiceCatalog/Structure/Auth.antt =====
-- `validate_catalog_structure` of scripts/service_catalog.py: how a web service authenticates.
use home_server.Common.{
  ℕ, suc, String, str_eq, concat, strip, Bool, true, false, not, ◌&&◌, ◌||◌, List, [], ◌∷◌, ◌++◌,
  all, contains, flat_map, Option, none, some, if◌then◌else◌, Py, ok,
}
use home_server.Json.{
  Value, Fields, null, str, arr, obj, nil, get, get_or, items, eq_str, is_null, list_or_empty,
  truthy,
}
use home_server.ServiceCatalog.Checks.{
  Check, pure, run, report, report_if, for_each, done, require_mapping, require_nonempty_string,
  reject_unknown, ◌>>=◌, ◌>>◌,
}
use home_server.ServiceCatalog.Paths.{Repository}
use home_server.ServiceCatalog.Names.{is_dns_label, is_authentik_identifier}
use home_server.ServiceCatalog.References.{on_some, at_index}
use home_server.ServiceCatalog.Routes.{text_in}
use home_server.ServiceCatalog.Structure.Settings.{distinct, Settings, is_list}
use home_server.ServiceCatalog.Structure.Service.{require_member, require_text}
use home_server.ServiceCatalog.Structure.Client.{on_host, shown_host, client_check}

module _ (w : Repository) (label : String) (hostname : Option String) where
  unfoldable pub slug_check : String → Check (Unit {0})
  unfolding concat is_dns_label
  slug_check slug =
      report_if (not (is_dns_label slug))
        (label ∷ ".web.auth.application.slug must be a DNS label" ∷ [])

  -- The launch URL, where there is one.
  abbrev launch_ok : Value → Py Bool
  unfolding on_host
  launch_ok null = ok true
  launch_ok (str url) = on_host w hostname hostname url
  launch_ok v = ok false

  unfoldable pub application_check : Option Fields → Check (Unit {0})
  unfolding get concat reject_unknown require_nonempty_string slug_check launch_ok
  application_check none = done
  application_check (some application) = do
    reject_unknown application ("launchUrl" ∷ "slug" ∷ [])
        (concat (label ∷ ".web.auth.application" ∷ []))
    slug ←
        require_nonempty_string (get "slug" application)
          (concat (label ∷ ".web.auth.application.slug" ∷ []))
    on_some slug slug_check
    fits ← run (launch_ok (get "launchUrl" application))
    report_if (not fits) (
        label
        ∷ ".web.auth.application.launchUrl must be an HTTPS URL on "
        ∷ shown_host hostname
        ∷ [])

-- group.strip(), of a text
abbrev is_group : Value → Bool
is_group (str s) = not (str_eq (strip s) "")
is_group _ = false

-- A non-empty list of unique non-empty texts.
abbrev good_groups : Value → Bool
good_groups v =
    is_list v
    && truthy v
    && all is_group (list_or_empty v)
    && distinct (flat_map text_in (list_or_empty v))

unfoldable pub groups_check : String → Value → Value → Check (Unit {0})
unfolding concat
groups_check label profile groups = do
  report_if (not (is_null groups || good_groups groups)) (
      label ∷ ".web.auth.allowedGroups must be a non-empty list of unique non-empty group names"
      ∷ [])
  if eq_str profile "authentik-forward-single-v1"
      then report_if (not (is_null groups)) (
          label ∷ ".web.auth.allowedGroups is only valid with profile authentik-forward-single-v2"
          ∷ [])
      else report_if (not (is_list groups && truthy groups)) (
          label ∷ ".web.auth.allowedGroups is required with profile authentik-forward-single-v2"
          ∷ [])

unfoldable pub forward_auth_check : String → Fields → Check (Unit {0})
unfolding get concat reject_unknown require_text groups_check
forward_auth_check label auth = do
  reject_unknown auth
      ("allowedGroups" ∷ "application" ∷ "blueprintName" ∷ "middleware" ∷ "mode" ∷ "profile"
        ∷ "providerName" ∷ [])
      (concat (label ∷ ".web.auth" ∷ []))
  require_member (get "profile" auth)
      ("authentik-forward-single-v1" ∷ "authentik-forward-single-v2" ∷ [])
      (label
        ∷ ".web.auth.profile must be authentik-forward-single-v1 or authentik-forward-single-v2"
        ∷ [])
  require_text (get "middleware" auth) (concat (label ∷ ".web.auth.middleware" ∷ []))
  groups_check label (get "profile" auth) (get "allowedGroups" auth)

abbrev mapping_fields : List String
mapping_fields = "description" ∷ "expression" ∷ "id" ∷ "name" ∷ "reason" ∷ "scope" ∷ []

-- The id of a claim mapping; the result is what is added to the ids that were seen.
abbrev mapping_id_check : String → List String → Value → Check (List String)
unfolding concat is_dns_label
mapping_id_check label seen (str id) = do
  report_if (not (is_dns_label id)) (label ∷ ".id must be a DNS label" ∷ [])
  report_if (contains seen id) (label ∷ ".id is duplicated: " ∷ id ∷ [])
  pure (id ∷ [])
mapping_id_check label seen v = pure []

abbrev mapping_scope_check : String → Value → Check (Unit {0})
unfolding concat is_authentik_identifier
mapping_scope_check label (str scope) =
    report_if (not (is_authentik_identifier scope))
      (label ∷ ".scope contains unsafe characters" ∷ [])
mapping_scope_check label v = done

unfoldable pub mapping_check : String → List String → Value → Check (List String)
unfolding get concat reject_unknown require_text mapping_id_check mapping_scope_check
mapping_check label seen (obj mapping) = do
  reject_unknown mapping mapping_fields label
  for_each (λ key. require_text (get key mapping) (concat (label ∷ "." ∷ key ∷ []))) mapping_fields
  added ← mapping_id_check label seen (get "id" mapping)
  mapping_scope_check label (get "scope" mapping)
  pure added
mapping_check label seen v = ok (concat (label ∷ " must be a mapping" ∷ []) ∷ [], [])

unfoldable pub mappings_check : String → ℕ → List String → List Value → Check (Unit {0})
unfolding at_index mapping_check
mappings_check label index seen [] = done
mappings_check label index seen (mapping ∷ mappings) = do
  added ← mapping_check (at_index label index) seen mapping
  mappings_check label (suc index) (added ++ seen) mappings

unfoldable pub claim_mappings_check : String → Value → Check (Unit {0})
unfolding concat mappings_check
claim_mappings_check label (arr vs) =
    mappings_check (concat (label ∷ ".web.auth.claimMappings" ∷ [])) 0 [] (items vs)
claim_mappings_check label v =
    report (concat (label ∷ ".web.auth.claimMappings must be a list" ∷ []))

-- A mode that passed the test for a set, or no text at all.
abbrev pub mode_text : Value → String
mode_text (str s) = s
mode_text _ = ""

module _ (w : Repository) (settings : Settings) (label : String)
    (service_id hostname : Option String) where
  -- The result is what is added to the client ids that were seen.
  unfoldable pub oidc_check : List String → Fields → Check (List String)
  unfolding get get_or concat reject_unknown client_check claim_mappings_check
  oidc_check seen auth = do
    reject_unknown auth
        ("application" ∷ "blueprintName" ∷ "claimMappings" ∷ "client" ∷ "mode" ∷ "profile"
          ∷ "providerName" ∷ [])
        (concat (label ∷ ".web.auth" ∷ []))
    report_if (not (eq_str (get "profile" auth) "authentik-oidc-v1"))
        (label ∷ ".web.auth.profile must be authentik-oidc-v1" ∷ [])
    client ← require_mapping (get "client" auth) (concat (label ∷ ".web.auth.client" ∷ []))
    added ← client_check w settings label service_id hostname seen client
    claim_mappings_check label (get_or "claimMappings" (arr nil) auth)
    pure added

  -- Modes "native" and "none".
  unfoldable pub plain_check : Value → Fields → Check (Unit {0})
  unfolding get concat reject_unknown require_text
  plain_check visibility auth = do
    reject_unknown auth ("mode" ∷ "reason" ∷ []) (concat (label ∷ ".web.auth" ∷ []))
    require_text (get "reason" auth) (concat (label ∷ ".web.auth.reason" ∷ []))
    report_if (eq_str visibility "public" && eq_str (get "mode" auth) "none")
        (label ∷ " cannot expose an unauthenticated public route" ∷ [])

  unfoldable pub plain_part : Value → Fields → Check (Unit {0})
  unfolding get
  plain_part visibility auth =
      if contains ("native" ∷ "none" ∷ []) (mode_text (get "mode" auth))
      then plain_check visibility auth
      else done

  unfoldable pub auth_by_mode : Value → List String → Fields → Check (List String)
  unfolding get concat plain_check plain_part application_check forward_auth_check oidc_check
  auth_by_mode visibility seen auth = do
    plain_part visibility auth
    if contains ("oidc" ∷ "forward-auth" ∷ []) (mode_text (get "mode" auth))
        then (require_mapping (get "application" auth)
              (concat (label ∷ ".web.auth.application" ∷ []))
            >>= application_check w label hostname)
        else done
    if eq_str (get "mode" auth) "forward-auth" then forward_auth_check label auth else done
    if eq_str (get "mode" auth) "oidc" then oidc_check seen auth else pure []

  unfoldable pub auth_check : Value → List String → Option Fields → Check (List String)
  unfolding get concat auth_by_mode
  auth_check visibility seen none = pure []
  auth_check visibility seen (some auth) = do
    require_member (get "mode" auth) ("forward-auth" ∷ "native" ∷ "none" ∷ "oidc" ∷ [])
        (label ∷ ".web.auth.mode must be one of ['forward-auth', 'native', 'none', 'oidc']" ∷ [])
    auth_by_mode visibility seen auth
