-- ===== src/ServiceCatalog/Structure/Client.antt =====
-- `validate_catalog_structure` of scripts/service_catalog.py: an OIDC client.
use home_server.Common.{
  ℕ, String, concat, Bool, true, false, not, ◌&&◌, List, [], ◌∷◌, all, any, contains, is_empty,
  flat_map, Option, none, some, if◌then◌else◌, Py, ok, raise, type_error,
}
use home_server.Json.{
  Value, Fields, null, str, arr, obj, nil, cons, end, field, get, items, eq_str, holds_str, is_null,
  is_true,
}
use home_server.ServiceCatalog.Checks.{
  Check, pure, run, report, report_if, done, require_mapping, require_nonempty_string,
  reject_unknown, ◌>>=◌, ◌>>◌,
}
use home_server.ServiceCatalog.Paths.{Repository}
use home_server.ServiceCatalog.Names.{is_same_host_https_url}
use home_server.ServiceCatalog.References.{on_some, at_index, each_indexed, secret_references}
use home_server.ServiceCatalog.Routes.{text_in}
use home_server.ServiceCatalog.Structure.Settings.{distinct, Settings}
use home_server.ServiceCatalog.Structure.Service.{require_member, require_text}
use home_server.ServiceCatalog.Names.{authentik_secret_key}

-- f"{hostname}" of a hostname that may be None
abbrev pub shown_host : Option String → String
shown_host none = "None"
shown_host (some hostname) = hostname

-- Building a set of a list's elements, which a list or a mapping among them prevents.
abbrev pub hashable : List Value → Py (Unit {0})
hashable [] = ok tt
hashable (arr vs ∷ values) = raise type_error
hashable (obj fs ∷ values) = raise type_error
hashable (_ ∷ values) = hashable values

-- The elements are distinct texts of a set.
abbrev supported : List String → List Value → Bool
supported names values =
    all (λ v. any (eq_str v) names) values && distinct (flat_map text_in values)

-- A list of values, if it is one.
abbrev listed_values : Value → Option (List Value)
listed_values (arr vs) = some (items vs)
listed_values _ = none

unfoldable pub grants_check : String → Option (List Value) → Check (Unit {0})
unfolding concat
grants_check label none =
    report
      (concat (label ∷ ".web.auth.client.grantTypes must contain unique supported grants" ∷ []))
grants_check label (some values) = do
  run (hashable values)
  if not (is_empty values) && supported ("authorization_code" ∷ "refresh_token" ∷ []) values
      then report_if (not (holds_str values "authorization_code"))
          (label ∷ ".web.auth.client.grantTypes must include authorization_code" ∷ [])
      else report
          (concat (label ∷ ".web.auth.client.grantTypes must contain unique supported grants" ∷ []))

-- The keys of MANAGED_SCOPE_MAPPINGS
abbrev pub managed_scopes : List String
managed_scopes = "openid" ∷ "email" ∷ "profile" ∷ "offline_access" ∷ []

unfoldable pub scopes_check : String → Option (List Value) → Check (Unit {0})
unfolding concat
scopes_check label none =
    report (concat (label ∷ ".web.auth.client.scopes must contain unique supported scopes" ∷ []))
scopes_check label (some values) = do
  run (hashable values)
  report_if (not (supported managed_scopes values))
      (label ∷ ".web.auth.client.scopes must contain unique supported scopes" ∷ [])

module _ (w : Repository) (hostname : Option String) where
  -- hostname is not None and is_same_host_https_url(url, hostname)
  unfoldable pub on_host : Option String → String → Py Bool
  unfolding is_same_host_https_url
  on_host none url = ok false
  on_host (some host) url = is_same_host_https_url w url host

  abbrev exact_url : String → String → Check (Unit {0})
  unfolding on_host
  exact_url label url = do
    exact ← run (on_host hostname url)
    report_if (not exact) (label ∷ ".url must be an exact https URL on " ∷ shown_host hostname ∷ [])

  unfoldable pub redirect_check : String → ℕ → Value → Check (Unit {0})
  unfolding concat get at_index reject_unknown require_nonempty_string exact_url
  redirect_check label index (obj redirect) = do
    reject_unknown redirect ("type" ∷ "url" ∷ []) (at_index label index)
    require_member (get "type" redirect) ("authorization" ∷ "logout" ∷ [])
        (at_index label index ∷ ".type must be authorization or logout" ∷ [])
    url ← require_nonempty_string (get "url" redirect) (concat (at_index label index ∷ ".url" ∷ []))
    on_some url (exact_url (at_index label index))
  redirect_check label index v = report (concat (at_index label index ∷ " must be a mapping" ∷ []))

  unfoldable pub redirects_check : String → Value → Check (Unit {0})
  unfolding concat redirect_check
  redirects_check label (arr (cons v vs)) =
      each_indexed (redirect_check (concat (label ∷ ".web.auth.client.redirectUris" ∷ []))) 0
        (items (cons v vs))
  redirects_check label _ =
      report (concat (label ∷ ".web.auth.client.redirectUris must be a non-empty list" ∷ []))

  unfoldable pub logout_check : String → Value → Check (Unit {0})
  unfolding concat get reject_unknown require_nonempty_string exact_url
  logout_check label null = done
  logout_check label (obj logout) = do
    reject_unknown logout ("method" ∷ "url" ∷ []) label
    require_member (get "method" logout) ("backchannel" ∷ "frontchannel" ∷ [])
        (label ∷ ".method must be backchannel or frontchannel" ∷ [])
    url ← require_nonempty_string (get "url" logout) (concat (label ∷ ".url" ∷ []))
    on_some url (exact_url label)
  logout_check label v = report (concat (label ∷ " must be a mapping" ∷ []))

-- [{"path": path, "key": key}]
abbrev one_reference : Value → Value → Value
one_reference path key = arr (cons (obj (field "path" path (field "key" key end))) nil)

module _ (w : Repository) where
  -- The relying application's own secret.
  unfoldable pub relying_secret : String → Option Fields → Check (Unit {0})
  unfolding get concat reject_unknown require_text secret_references
  relying_secret label none = done
  relying_secret label (some secret) =
      if eq_str (get "managedBy" secret) "application-state"
      then (reject_unknown secret ("managedBy" ∷ "reason" ∷ []) label
          >> require_text (get "reason" secret) (concat (label ∷ ".reason" ∷ [])))
      else (reject_unknown secret ("key" ∷ "manifest" ∷ []) label
          >> secret_references w (one_reference (get "manifest" secret) (get "key" secret)) label)

  -- The provider's copy of the secret, where both its manifest and the service's id are known.
  unfoldable pub provider_copy : String → Option String → Option String → Check (Unit {0})
  unfolding concat secret_references authentik_secret_key
  provider_copy label manifest service_id = on_some manifest λ m. on_some service_id λ i.
      secret_references w (one_reference (str m) (str (authentik_secret_key w i)))
        (concat (label ∷ ".web.auth.providerSecret" ∷ []))

  is_none : Option String → Bool
  is_none none = true
  is_none (some s) = false

  unfoldable pub confidential_check : Settings → String → Option String → Fields → Check (Unit {0})
  unfolding get concat relying_secret provider_copy is_none
  confidential_check settings label service_id client = do
    report_if (not (is_null (get "pkce" client)))
        (label ∷ ".web.auth.client.pkce is only valid for a public client" ∷ [])
    secret ← require_mapping (get "secret" client) (concat (label ∷ ".web.auth.client.secret" ∷ []))
    relying_secret (concat (label ∷ ".web.auth.client.secret" ∷ [])) secret
    provider_copy label settings.provider_secret_manifest service_id
    report_if (is_none settings.provider_secret_name) (
        label
        ∷ " cannot wire a confidential OIDC client without catalog.authentik.providerSecret.name"
        ∷ [])

unfoldable pub pkce_check : String → Option Fields → Check (Unit {0})
unfolding get concat reject_unknown require_text
pkce_check label none = done
pkce_check label (some pkce) = do
  reject_unknown pkce ("evidence" ∷ "verified" ∷ []) label
  report_if (not (is_true (get "verified" pkce))) (label ∷ ".verified must be true" ∷ [])
  require_text (get "evidence" pkce) (concat (label ∷ ".evidence" ∷ []))

unfoldable pub public_client_check : String → Fields → Check (Unit {0})
unfolding get concat pkce_check
public_client_check label client = do
  report_if (not (is_null (get "secret" client)))
      (label ∷ ".web.auth.client.secret is forbidden for a public client" ∷ [])
  pkce ← require_mapping (get "pkce" client) (concat (label ∷ ".web.auth.client.pkce" ∷ []))
  pkce_check (concat (label ∷ ".web.auth.client.pkce" ∷ [])) pkce

-- The client id, unless it was seen; the result is what is added to the ids that were seen.
unfoldable pub client_id_check : List String → Option String → Check (List String)
unfolding concat
client_id_check seen none = pure []
client_id_check seen (some client_id) = do
  report_if (contains seen client_id) ("duplicate OIDC client id: " ∷ client_id ∷ [])
  pure (client_id ∷ [])

module _ (w : Repository) (settings : Settings) (label : String)
    (service_id hostname : Option String) where
  unfoldable pub secrets_by_type : Fields → Check (Unit {0})
  unfolding get confidential_check public_client_check
  secrets_by_type client =
      if eq_str (get "type" client) "confidential"
      then confidential_check w settings label service_id client
      else if eq_str (get "type" client) "public"
      then public_client_check label client
      else done

  unfoldable pub client_check : List String → Option Fields → Check (List String)
  unfolding get concat reject_unknown require_nonempty_string client_id_check grants_check
      scopes_check redirects_check logout_check secrets_by_type
  client_check seen none = pure []
  client_check seen (some client) = do
    reject_unknown client
        ("grantTypes" ∷ "id" ∷ "pkce" ∷ "providerLogout" ∷ "redirectUris" ∷ "scopes" ∷ "secret"
          ∷ "type" ∷ [])
        (concat (label ∷ ".web.auth.client" ∷ []))
    require_member (get "type" client) ("confidential" ∷ "public" ∷ [])
        (label ∷ ".web.auth.client.type must be confidential or public" ∷ [])
    client_id ←
        require_nonempty_string (get "id" client) (concat (label ∷ ".web.auth.client.id" ∷ []))
    added ← client_id_check seen client_id
    grants_check label (listed_values (get "grantTypes" client))
    scopes_check label (listed_values (get "scopes" client))
    redirects_check w hostname label (get "redirectUris" client)
    logout_check w hostname (concat (label ∷ ".web.auth.client.providerLogout" ∷ []))
        (get "providerLogout" client)
    secrets_by_type client
    pure added
