-- ===== src/ServiceCatalog/Blueprints/Secrets.antt =====
-- The secret of a confidential client: what its blueprint reads, and what the worker's patch sets.
use home_server.Common.{◌∈◌, String, concat, ◌≡◌, List, [], ◌∷◌, ok}
use home_server.Json.{Value}
use home_server.ServiceCatalog.Paths.{Repository}
use home_server.ServiceCatalog.Names.{authentik_secret_key}
use home_server.ServiceCatalog.Blueprints.Parts.{ended, text_item}
use home_server.ServiceCatalog.Blueprints.Stored.{Stored}

module _ (w : Repository) where
  -- The blueprint reads its client's secret from a variable, which the patch sets from the key of the
  -- same name.
  pub record Paired (service : Value) (blueprint patch : String) : Type 0 where
    pub id : String
    pub read : List String
    pub set : List String
    pub named : text_item w "id" service ≡ ok id
    pub is_blueprint : ended read ≡ blueprint
    pub is_patch : ended set ≡ patch
    pub reads :
        concat ("      client_secret: !Env [" ∷ authentik_secret_key w id ∷ ", null]" ∷ []) ∈ read
    pub sets : concat ("            - name: " ∷ authentik_secret_key w id ∷ []) ∈ set
