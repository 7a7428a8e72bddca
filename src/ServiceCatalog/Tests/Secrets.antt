-- ===== src/ServiceCatalog/Tests/Secrets.antt =====
-- The secret of one confidential client.
use home_server.Common.{true, ◌≡◌, refl, concat, String, [], ◌∷◌, Py, ok, raise, catalog_error}
use home_server.Json.{Value, Fields, str, obj, to_fields}
use home_server.ServiceCatalog.Names.{authentik_secret_key}
use home_server.ServiceCatalog.Names.Variables.{Words, authentik_secret_key-Words}
use home_server.ServiceCatalog.Rendered.{services}
use home_server.ServiceCatalog.Explain.{explain}
use home_server.ServiceCatalog.Blueprints.{authentik_blueprints_document, authentik_worker_patch}
use home_server.ServiceCatalog.Blueprints.Patched.{Confidential}
use home_server.ServiceCatalog.Blueprints.Stored.{Stored}
use home_server.ServiceCatalog.Tests.{mapping, sequence, repository}

abbrev client : Fields
client = to_fields (
    ("type", str "confidential")
    ∷ ("id", str "notes")
    ∷ ("grantTypes", sequence (str "authorization_code" ∷ []))
    ∷ (
      "redirectUris",
      sequence (
          mapping (("url", str "https://n.b.c/callback") ∷ ("type", str "authorization") ∷ [])
          ∷ []),
    )
    ∷ ("scopes", sequence (str "openid" ∷ str "email" ∷ []))
    ∷ [])

abbrev auth : Fields
auth = to_fields (
    ("mode", str "oidc")
    ∷ ("application", mapping (("slug", str "notes") ∷ []))
    ∷ ("client", obj client)
    ∷ [])

abbrev web : Fields
web = to_fields (("auth", obj auth) ∷ [])

abbrev own : Fields
own = to_fields (("id", str "NOTES-1") ∷ ("name", str "Notes") ∷ ("web", obj web) ∷ [])

abbrev notes : Value
notes = obj own

abbrev catalog : Fields
catalog = to_fields (
    ("authentik", mapping (("providerSecret", mapping (("name", str "secrets") ∷ [])) ∷ []))
    ∷ ("services", sequence (notes ∷ []))
    ∷ [])

abbrev returned : Py String → String
returned (ok s) = s
returned (raise e) = ""

abbrev document : String
unfolding authentik_blueprints_document
document = returned (authentik_blueprints_document repository catalog)

abbrev patch : String
unfolding authentik_worker_patch
patch = returned (authentik_worker_patch repository catalog)

abbrev confidential : Confidential notes
confidential = record {
  own = own;
  web = web;
  auth = auth;
  client = client;
  is_mapping = refl;
  has_web = refl;
  has_auth = refl;
  by_oidc = refl;
  has_client = refl;
  is_confidential = refl;
}

authentik_secret_key-Words_example :
    (core : String) × (authentik_secret_key repository "NOTES-1"
      ≡ concat ("AUTHENTIK_OIDC_" ∷ core ∷ "_CLIENT_SECRET" ∷ []))
    × Words true core
authentik_secret_key-Words_example = authentik_secret_key-Words repository "NOTES-1"

-- AUTHENTIK_OIDC_NOTES_1_CLIENT_SECRET
the_key : authentik_secret_key repository "NOTES-1" ≡ "AUTHENTIK_OIDC_NOTES_1_CLIENT_SECRET"
unfolding authentik_secret_key concat
the_key = refl

explained :
    explain repository catalog "no"
    ≡ raise (catalog_error "unknown service 'no'; available services: NOTES-1")
unfolding explain services
explained = refl
