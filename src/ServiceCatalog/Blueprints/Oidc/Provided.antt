-- ===== src/ServiceCatalog/Blueprints/Oidc/Provided.antt =====
-- The secret that the blueprint of a confidential client reads.
use home_server.Common.{
  after_known, inverted, ◌∈◌, in-append_left, in-append_right, returned_by_bind, ok-injective,
  String, concat, ◌≡◌, refl, ap, sym, inl, inr, List, [], ◌∷◌, ◌++◌, some, ok, flat_map_py,
}
use home_server.Json.{Value, Fields, str, arr, obj, nil, find, get, get_or, dict_or_empty}
use home_server.ServiceCatalog.Paths.{Repository}
use home_server.ServiceCatalog.Names.{authentik_secret_key}
use home_server.ServiceCatalog.Routes.{iterate}
use home_server.ServiceCatalog.Blueprints.Parts.{
  or_missing, item, ended, head_lines, text_of, text_item,
}
use home_server.ServiceCatalog.Blueprints.Text.{yaml_string}
use home_server.ServiceCatalog.Blueprints.Oidc.{
  mapping_lines, redirect_lines, logout_lines, scope_line, mapping_key, provider_lines,
  application_lines, authentik_oidc_blueprint,
}

module _ (w : Repository) where
  abbrev pub secret_line : String → String
  unfolding concat authentik_secret_key
  secret_line id =
      concat ("      client_secret: !Env [" ∷ authentik_secret_key w id ∷ ", null]" ∷ [])

  pub provider_lines-secret :
      (provider_id provider_name id : String) (client : Fields) (provider : List String)
      → find "type" client ≡ some (str "confidential")
      → provider_lines w provider_id provider_name id (obj client) ≡ ok provider
      → secret_line id ∈ provider
  unfolding provider_lines
  provider_lines-secret provider_id provider_name id client provider t h =
      let h1 =
        after_known _ (item "type" (obj client)) (str "confidential") provider (ap or_missing t)
          h in
      let (client_id, h2, r2) =
        returned_by_bind _ (text_item w "id" (obj client)) provider (sym h1) in
      let (grants, h3, r3) =
        returned_by_bind _ (item "grantTypes" (obj client)) provider (sym h2) in
      let (listed, h4, r4) = returned_by_bind _ (iterate grants) provider (sym h3) in
      rw (← ok-injective h4) (inr (inr (inr (inr (inr (inr (inr (inr (inr (inl refl))))))))))

  -- What a blueprint was made from, as far as its secret.
  pub record Provided (service : Value) (auth : Fields) (blueprint : String) : Type 0 where
    pub id : String
    pub client : Value
    pub provider_id : String
    pub provider_name : String
    pub provider : List String
    pub lines : List String
    pub names : text_item w "id" service ≡ ok id
    pub has_client : item "client" (obj auth) ≡ ok client
    pub provides : provider_lines w provider_id provider_name id client ≡ ok provider
    pub among : (line : String) → line ∈ provider → line ∈ lines
    pub all : ended lines ≡ blueprint

  pub provided :
      (service : Value) (auth : Fields) (blueprint : String)
      → authentik_oidc_blueprint w service (obj auth) ≡ ok blueprint
      → Provided service auth blueprint
  unfolding authentik_oidc_blueprint
  provided service auth blueprint h = inverted _ (text_item w "id" service) blueprint h (λ id r1 h1.
      inverted _ (text_item w "name" service) blueprint h1 (λ name r2 h2.
        inverted _ (item "application" (obj auth)) blueprint h2 (λ application r3 h3.
          inverted _ (item "client" (obj auth)) blueprint h3 (λ client r4 h4.
            inverted _ (text_item w "slug" application) blueprint h4 (λ slug r5 h5.
              inverted _ (iterate (get_or "claimMappings" (arr nil) auth)) blueprint h5
                (λ claims r6 h6.
                  inverted _ (flat_map_py (mapping_lines w) claims) blueprint h6 (λ mappings r7 h7.
                    let provider_id = concat (slug ∷ "-provider" ∷ []) in
                    let provider_name =
                      text_of w
                        (get_or "providerName" (str (concat ("Provider for " ∷ name ∷ []))) auth) in
                    inverted _ (provider_lines w provider_id provider_name id client) blueprint h7
                      (λ provider r8 h8.
                        inverted _ (item "redirectUris" client) blueprint h8 (λ uris r9 h9.
                          inverted _ (iterate uris) blueprint h9 (λ redirects r10 h10.
                            inverted _ (flat_map_py (redirect_lines w) redirects) blueprint h10
                              (λ urls r11 h11.
                                inverted _
                                  (logout_lines w (get "providerLogout" (dict_or_empty client)))
                                  blueprint h11
                                  (λ logout r12 h12.
                                    inverted _ (item "scopes" client) blueprint h12
                                      (λ wanted r13 h13.
                                        inverted _ (iterate wanted) blueprint h13 (λ scopes r14 h14.
                                          inverted _ (flat_map_py (scope_line w) scopes) blueprint
                                            h14
                                            (λ found r15 h15.
                                              inverted _ (flat_map_py (mapping_key w) claims)
                                                blueprint h15
                                                (λ keys r16 h16.
                                                  let head = head_lines (
                                                    concat (
                                                      "  name: "
                                                      ∷ yaml_string (
                                                          text_of w (
                                                            get_or "blueprintName"
                                                            (str (concat (name ∷ " OIDC" ∷ [])))
                                                            auth))
                                                      ∷ [])) in
                                                  let tail =
                                                    urls
                                                    ++ (logout
                                                        ++ (("      property_mappings:" ∷ [])
                                                            ++ (found
                                                            ++ (keys
                                                            ++ application_lines w slug name
                                                            provider_id application)))) in
                                                  record {
                                                    id = id;
                                                    client = client;
                                                    provider_id = provider_id;
                                                    provider_name = provider_name;
                                                    provider = provider;
                                                    lines =
                                                        head ++ (mappings ++ (provider ++ tail));
                                                    names = r1;
                                                    has_client = r4;
                                                    provides = r8;
                                                    among = λ line i.
                                                        in-append_right line head
                                                          (mappings ++ (provider ++ tail))
                                                          (in-append_right line mappings
                                                            (provider ++ tail)
                                                            (in-append_left line provider tail i));
                                                    all = ok-injective h16;
                                                  }))))))))))))))))
