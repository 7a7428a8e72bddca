-- ===== src/ServiceCatalog/Tests/Publishing.antt =====
-- What is generated from the catalog of one service.
use home_server.Common.{
  ◌∈◌, ◌≡◌, ◌↔◌, ◌⊎◌, refl, sym, ◌∙◌, String, contains, if◌then◌else◌, List, [], ◌∷◌, some, none,
  ok, ok-injective, rstrip, lstrip, is_space,
}
use home_server.Common.Order.{Ascending}
use home_server.Json.{str, get}
use home_server.ServiceCatalog.Checks.{done, ◌>>=◌}
use home_server.ServiceCatalog.Rendered.{services}
use home_server.ServiceCatalog.Structure.{validate_catalog_structure}
use home_server.ServiceCatalog.Documents.{dns_hostnames}
use home_server.ServiceCatalog.Documents.Hostnames.{Publishes, dns_hostnames-Publishes_iff}
use home_server.ServiceCatalog.Outputs.{
  Files, ddns_lines, blocky_lines, domain_lines, split_lines, render, ddns_end,
  validate_generated_outputs,
}
use home_server.ServiceCatalog.Outputs.RoundTrip.{
  IsPlain, ArePlain, validate_generated_outputs-render,
}
use home_server.ServiceCatalog.Tests.{catalog, service, repository}

abbrev names : List String
names = "a.b.c" ∷ "b.c" ∷ []

published : dns_hostnames catalog "cloudflare" ≡ ok names
unfolding dns_hostnames services
published = refl

cataloged : services catalog ≡ ok (service ∷ [])
unfolding services
cataloged = refl

dns_hostnames-Publishes_iff_example :
    (("a.b.c" ∈ names)
      ↔ ((str "a.b.c" ∈ str "b.c" ∷ []) ⊎ Publishes "cloudflare" (service ∷ []) "a.b.c"))
    × Ascending names
unfolding get
dns_hostnames-Publishes_iff_example =
    dns_hostnames-Publishes_iff catalog "cloudflare" names _ (str "b.c" ∷ []) (service ∷ []) "a.b.c"
      published refl refl cataloged

abbrev pub files : Files
files path =
    if contains path "kustomization.yaml"
    then some
        "      # BEGIN SERVICE CATALOG GENERATED DOMAINS\n      # END SERVICE CATALOG GENERATED DOMAINS"
    else if contains path "config.yml"
    then some
        "    # BEGIN SERVICE CATALOG GENERATED MAPPINGS\nold: 10.0.0.2\n    # END SERVICE CATALOG GENERATED MAPPINGS"
    else none

abbrev domains : List String
domains = "      - DOMAINS=a.b.c,b.c" ∷ []

domains_run : domain_lines catalog ≡ ok domains
unfolding domain_lines ddns_lines dns_hostnames services
domains_run = refl

mappings_run : split_lines repository catalog ≡ ok []
unfolding split_lines blocky_lines dns_hostnames services
mappings_run = refl

domains_plain : IsPlain domains ddns_end
domains_plain = record {
  lines_only = (
    (
      refl,
      (
        refl,
        (
          refl,
          (
            refl,
            (
              refl,
              (
                refl,
                (
                  refl,
                  (
                    refl,
                    (
                      refl,
                      (
                        refl,
                        (
                          refl,
                          (
                            refl,
                            (
                              refl,
                              (
                                refl,
                                (
                                  refl,
                                  (
                                    refl,
                                    (
                                      refl,
                                      (
                                        refl,
                                        (refl, (refl, (refl, (refl, (refl, (refl, (refl, tt))))))),
                                      ),
                                    ),
                                  ),
                                ),
                              ),
                            ),
                          ),
                        ),
                      ),
                    ),
                  ),
                ),
              ),
            ),
          ),
        ),
      ),
    ),
    tt,
  );
  no_end = refl;
}

plain : ArePlain repository catalog
plain = record {
  domains = λ lines h. rw (← ok-injective (sym domains_run ∙ h)) domains_plain;
  mappings = λ lines h.
      rw (← ok-injective (sym mappings_run ∙ h)) (record { lines_only = tt; no_end = refl });
}

abbrev shown : List String
shown =
    "Rendered apps/homepage/config/services.yaml"
    ∷ "Rendered apps/cloudflare-ddns/kustomization.yaml" ∷ "Rendered apps/blocky/config.yml"
    ∷ "Rendered apps/authentik/application-blueprints.yaml"
    ∷ "Rendered apps/authentik/generated-oidc-worker-env.yaml" ∷ []

rendered_run : (render repository catalog files).result ≡ ok shown
unfolding render validate_catalog_structure ◌>>=◌ rstrip lstrip is_space
rendered_run = refl

validate_generated_outputs-render_example :
    validate_generated_outputs repository catalog (render repository catalog files).files ≡ done
validate_generated_outputs-render_example =
    validate_generated_outputs-render repository catalog files shown plain rendered_run
