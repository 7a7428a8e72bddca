-- ===== src/ServiceCatalog/Explain/Owned.antt =====
-- scripts/service_catalog.py: what `explain` lists as generated, and as owned by manifests.
use home_server.Common.{
  String, concat, Bool, false, List, [], ◌∷◌, ◌++◌, map, if◌then◌else◌, Py, ok, ◌>>=◌,
}
use home_server.Json.{Value, arr, obj, end, nil, truthy, eq_str, in_set, is_dict, get_attr, str_of}
use home_server.ServiceCatalog.Paths.{Repository}
use home_server.ServiceCatalog.Names.{authentik_secret_key}
use home_server.ServiceCatalog.Routes.{attr_or, iterate}
use home_server.ServiceCatalog.Explain.Parts.{when, shown}

module _ (w : Repository) where
  -- auth.get("mode") == "oidc" and auth.get("client", {}).get("type") == "confidential"
  abbrev is_confidential : Value → Py Bool
  is_confidential auth = do
    mode ← get_attr auth "mode"
    if eq_str mode "oidc"
        then (attr_or auth "client" (obj end) >>= λ client.
            get_attr client "type" >>= λ kind. ok (eq_str kind "confidential"))
        else ok false

  abbrev generated_for : String → Value → Value → Py (List String)
  unfolding concat authentik_secret_key
  generated_for service_id web auth =
      if is_dict web
      then (do
        dns ← attr_or web "dns" (obj end)
        cloudflare ← get_attr dns "cloudflare"
        split ← get_attr dns "splitHorizon"
        mode ← get_attr auth "mode"
        signs_in ← in_set mode ("oidc" ∷ "forward-auth" ∷ [])
        confidential ← is_confidential auth
        ok (
            when (truthy cloudflare) "Cloudflare DDNS domain aggregate"
            ++ (when (truthy split) "Blocky split-DNS mapping"
                ++ (when signs_in "Authentik application/provider blueprint"
                    ++ when confidential (
                        concat (
                          "Authentik worker Secret reference ("
                          ∷ authentik_secret_key w service_id
                          ∷ ")"
                          ∷ []))))))
      else ok []

  unfoldable pub generated_lines : String → Value → Value → Py (List String)
  unfolding concat generated_for
  generated_lines service_id web auth = do
    more ← generated_for service_id web auth
    ok (
        "\nGenerated by the catalog compiler:"
        ∷ map (λ (line : String). concat ("  - " ∷ line ∷ []))
            ("Homepage service inventory" ∷ more))

  abbrev secret_line : Value → Py String
  unfolding concat shown
  secret_line secret = do
    owner ← get_attr secret "managedBy"
    if eq_str owner "application-state"
        then (shown w "reason" secret >>= λ reason.
            ok (concat ("  - Relying-party secret is application-owned state: " ∷ reason ∷ [])))
        else (shown w "manifest" secret >>= λ manifest. shown w "key" secret >>= λ key.
            ok (concat ("  - Encrypted relying-party secret: " ∷ manifest ∷ " / " ∷ key ∷ [])))

  abbrev oidc_owned : Value → Py (List String)
  unfolding secret_line
  oidc_owned auth = do
    client ← attr_or auth "client" (obj end)
    kind ← get_attr client "type"
    secret ←
        (if eq_str kind "confidential"
          then (attr_or client "secret" (obj end) >>= λ secret.
              secret_line secret >>= λ line. ok (line ∷ []))
          else ok [])
    ok (
        "  - Relying application's OIDC settings and NetworkPolicy"
        ∷ "  - Exact browser/mobile login and logout behavior" ∷ secret)

  abbrev web_owned : Value → Value → Py (List String)
  unfolding concat shown oidc_owned
  web_owned web auth =
      if is_dict web
      then (do
        route ← shown w "route" web
        mode ← get_attr auth "mode"
        more ← (if eq_str mode "oidc" then oidc_owned auth else ok [])
        ok (concat ("  - HTTPRoute and exposure middleware: " ∷ route ∷ []) ∷ more))
      else ok []

  abbrev manifest_lines : String → Value → Py (List String)
  unfolding concat str_of
  manifest_lines title v = do
    manifests ← attr_or v "manifests" (arr nil)
    listed ← iterate manifests
    ok (map (λ (item : Value). concat (title ∷ str_of w.render item ∷ [])) listed)

  unfoldable pub owned_lines : Value → Value → Value → Value → Value → Py (List String)
  unfolding concat web_owned manifest_lines str_of
  owned_lines web auth placement data_part observability = do
    routed ← web_owned web auth
    stored ← manifest_lines "  - Storage/backup declaration: " data_part
    observed ← manifest_lines "  - Monitoring resource: " observability
    manifest ← get_attr placement "manifest"
    ok (
        "\nValidated but still explicitly owned by manifests:"
        ∷ (routed
            ++ (stored
                ++ (observed
                    ++ when (truthy manifest)
                        (concat ("  - Node placement: " ∷ str_of w.render manifest ∷ []))))))
