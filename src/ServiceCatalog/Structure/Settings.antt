-- ===== src/ServiceCatalog/Structure/Settings.antt =====
-- `validate_catalog_structure` of scripts/service_catalog.py: the settings of the whole catalog.
use home_server.Common.{
  String, str_eq, concat, ends_with, Bool, true, false, not, ◌&&◌, ◌||◌, List, [], ◌∷◌, ◌++◌, all,
  contains, ◌==◌, flat_map, Option, none, some, if◌then◌else◌,
}
use home_server.Json.{Value, Fields, int, real, str, arr, get, items, is_str, truthy}
use home_server.Common.{pos}
use home_server.ServiceCatalog.Checks.{
  Check, pure, run, report, report_if, for_each, done, require_mapping, require_nonempty_string,
  reject_unknown, ◌>>=◌, ◌>>◌,
}
use home_server.ServiceCatalog.Paths.{Repository, ParsedUrl}
use home_server.ServiceCatalog.Names.{is_dns_name, is_dns_label}
use home_server.ServiceCatalog.References.{on_some}
use home_server.ServiceCatalog.Routes.{text_in}

-- len(set(xs)) == len(xs) of texts
abbrev pub distinct : List String → Bool
distinct [] = true
distinct (x ∷ xs) = not (contains xs x) && distinct xs

abbrev texts : Value → List String
texts (arr vs) = flat_map text_in (items vs)
texts _ = []

abbrev all_texts : Value → Bool
all_texts (arr vs) = all is_str (items vs)
all_texts _ = false

abbrev pub is_list : Value → Bool
is_list (arr vs) = true
is_list _ = false

-- The texts among the groups, with the errors of the list.
unfoldable pub groups_of : Value → Check (List String)
groups_of raw =
    if truthy raw && is_list raw
    then (report_if (not (all_texts raw && distinct (texts raw)))
          ("catalog.homepage.groups must contain unique strings" ∷ [])
        >> pure (texts raw))
    else (report "catalog.homepage.groups must be a non-empty list" >> pure [])

abbrev homepage_groups : Option Fields → Check (List String)
unfolding get groups_of reject_unknown
homepage_groups none = pure []
homepage_groups (some homepage) = do
  reject_unknown homepage ("groups" ∷ []) "catalog.homepage"
  groups_of (get "groups" homepage)

-- item == domain or item.endswith(f".{domain}")
abbrev pub at_or_below : String → String → Bool
unfolding ends_with concat
at_or_below domain item = str_eq item domain || ends_with item (concat ("." ∷ domain ∷ []))

unfoldable pub extra_name : String → String → Check (Unit {0})
unfolding concat is_dns_name at_or_below
extra_name domain item = report_if (not (is_dns_name item) || not (at_or_below domain item)) (
    "catalog.dns.extraPublicNames entries must be valid names at or below " ∷ domain ∷ ": " ∷ item
    ∷ [])

abbrev named_text : Value → Bool
named_text (str s) = not (str_eq s "")
named_text _ = false

unfoldable pub extra_names : Option String → Value → Check (Unit {0})
unfolding extra_name
extra_names domain (arr vs) =
    if all named_text (items vs)
    then on_some domain (λ d. for_each (extra_name d) (flat_map text_in (items vs)))
    else report "catalog.dns.extraPublicNames must be a list of hostnames"
extra_names domain _ = report "catalog.dns.extraPublicNames must be a list of hostnames"

abbrev whole_netloc : String → Option String → Bool
whole_netloc netloc none = false
whole_netloc netloc (some h) = not (str_eq h "") && str_eq netloc h

-- not parsed.hostname, and parsed.netloc != parsed.hostname
abbrev is_origin : ParsedUrl → Bool
is_origin p =
    whole_netloc p.netloc p.hostname
    && str_eq p.scheme "https"
    && contains ("" ∷ "/" ∷ []) p.path
    && str_eq p.params ""
    && str_eq p.query ""
    && str_eq p.fragment ""

module _ (w : Repository) where
  unfoldable pub dns_settings : Option String → Option Fields → Check (Unit {0})
  unfolding get concat reject_unknown require_nonempty_string extra_names
  dns_settings domain none = done
  dns_settings domain (some dns) = do
    reject_unknown dns ("extraPublicNames" ∷ "splitHorizonAddress" ∷ []) "catalog.dns"
    address ←
        require_nonempty_string (get "splitHorizonAddress" dns) "catalog.dns.splitHorizonAddress"
    on_some address λ a.
        report_if (not (w.is_ip_address a))
          ("catalog.dns.splitHorizonAddress must be an IP address" ∷ [])
    extra_names domain (get "extraPublicNames" dns)

  unfoldable pub base_url_check : String → Check (Unit {0})
  unfolding concat
  base_url_check url = do
    parsed ← run (w.urlparse url)
    report_if (not (is_origin parsed))
        ("catalog.authentik.baseUrl must be an origin-only HTTPS URL" ∷ [])

  -- The manifest and the name of the Secret of the provider.
  abbrev provider_secret : Option Fields → Check (Option String × Option String)
  unfolding get concat reject_unknown require_nonempty_string is_dns_name
  provider_secret none = pure (none, none)
  provider_secret (some secret) = do
    reject_unknown secret ("manifest" ∷ "name" ∷ []) "catalog.authentik.providerSecret"
    manifest ←
        require_nonempty_string (get "manifest" secret) "catalog.authentik.providerSecret.manifest"
    name ← require_nonempty_string (get "name" secret) "catalog.authentik.providerSecret.name"
    on_some name λ n.
        report_if (not (is_dns_name n))
          ("catalog.authentik.providerSecret.name must be a DNS name" ∷ [])
    pure (manifest, name)

  unfoldable pub authentik_settings : Option Fields → Check (Option String × Option String)
  unfolding get concat reject_unknown require_nonempty_string base_url_check is_dns_label
      provider_secret
  authentik_settings none = pure (none, none)
  authentik_settings (some authentik) = do
    reject_unknown authentik ("baseUrl" ∷ "namespace" ∷ "providerSecret" ∷ []) "catalog.authentik"
    url ← require_nonempty_string (get "baseUrl" authentik) "catalog.authentik.baseUrl"
    on_some url base_url_check
    namespace ← require_nonempty_string (get "namespace" authentik) "catalog.authentik.namespace"
    on_some namespace λ n.
        report_if (not (is_dns_label n)) ("catalog.authentik.namespace must be a DNS label" ∷ [])
    secret ← require_mapping (get "providerSecret" authentik) "catalog.authentik.providerSecret"
    provider_secret secret

abbrev is_two : Value → Bool
is_two (int (pos n)) = n == 2
is_two (real t) = str_eq t "2.0"
is_two _ = false

-- The settings that the services are checked against.
pub record Settings : Type 0 where
  pub domain : Option String
  pub groups : List String
  pub provider_secret_manifest : Option String
  pub provider_secret_name : Option String

unfoldable pub domain_check : Option String → Check (Unit {0})
unfolding concat is_dns_name
domain_check domain =
    on_some domain
      λ d. report_if (not (is_dns_name d)) ("catalog.domain must be a lowercase DNS name" ∷ [])

module _ (w : Repository) where
  unfoldable pub settings : Fields → Check Settings
  unfolding get concat require_nonempty_string domain_check homepage_groups dns_settings
      authentik_settings
  settings catalog = do
    report_if (not (is_two (get "version" catalog))) ("catalog.version must be 2" ∷ [])
    report_if (w.exists (w.root ++ ("catalog" ∷ "services.yaml" ∷ []))) (
        "catalog/services.yaml is the retired monolithic source; service intent belongs in colocated *.catalog.yaml descriptors"
        ∷ [])
    domain ← require_nonempty_string (get "domain" catalog) "catalog.domain"
    domain_check domain
    homepage ← require_mapping (get "homepage" catalog) "catalog.homepage"
    groups ← homepage_groups homepage
    dns ← require_mapping (get "dns" catalog) "catalog.dns"
    dns_settings w domain dns
    authentik ← require_mapping (get "authentik" catalog) "catalog.authentik"
    (manifest, name) ← authentik_settings w authentik
    pure (record {
      domain = domain;
      groups = groups;
      provider_secret_manifest = manifest;
      provider_secret_name = name;
    })
