-- ===== src/ServiceCatalog/Blueprints/Stored.antt =====
-- The blueprints that the generated document holds.
use home_server.Common.{
  inverted, ◌∈◌, in-append_left, collected, ok-injective, String, concat, ◌≡◌, refl, sym, ◌∙◌, inl,
  List, [], ◌∷◌, ◌++◌, flat_map, ok, flat_map_py,
}
use home_server.Common.Order.{sort_by}
use home_server.Common.Sorts.{in-sort_by}
use home_server.Json.{Value, Fields, null, obj, get_or}
use home_server.ServiceCatalog.Paths.{Repository}
use home_server.ServiceCatalog.Routes.{attr_or}
use home_server.ServiceCatalog.Rendered.{services}
use home_server.ServiceCatalog.Blueprints.Parts.{ended, text_item}
use home_server.ServiceCatalog.Blueprints.Oidc.{authentik_oidc_blueprint}
use home_server.ServiceCatalog.Blueprints.Patched.{
  Confidential, auth_of-Confidential, in-sorted_by_id,
}
use home_server.ServiceCatalog.Blueprints.{
  sorted_by_id, oidc_entry, forward_entry, forward_file, file_lines, document_head, by_name,
  authentik_blueprints_document,
}

module _ (w : Repository) where
  oidc_entry-Confidential :
      (service : Value) (c : Confidential service) (own : List (String × String))
      → oidc_entry w service ≡ ok own
      → (id : String) × (blueprint : String) × (text_item w "id" service ≡ ok id)
        × (authentik_oidc_blueprint w service (obj c.auth) ≡ ok blueprint)
        × ((concat (id ∷ ".yaml" ∷ []), blueprint) ∈ own)
  unfolding oidc_entry get_or
  oidc_entry-Confidential service c own h =
      inverted _ (authentik_oidc_blueprint w service (obj c.auth)) own
        (rw (auth_of-Confidential w service c, c.by_oidc) at h)
        (λ blueprint made h1.
          inverted _ (text_item w "id" service) own h1
            (λ id named h2. (id, blueprint, named, made, rw (← ok-injective h2) (inl refl))))

  -- The blueprint is one of the document's files, under the name of the service.
  pub record Stored (service : Value) (auth : Fields) (document : String) : Type 0 where
    pub id : String
    pub blueprint : String
    pub files : List (String × String)
    pub named : text_item w "id" service ≡ ok id
    pub made : authentik_oidc_blueprint w service (obj auth) ≡ ok blueprint
    pub among : (concat (id ∷ ".yaml" ∷ []), blueprint) ∈ files
    pub all : ended (document_head ++ flat_map file_lines files) ≡ document

  pub stored :
      (catalog : Fields) (listed : List Value) (service : Value) (c : Confidential service)
      (document : String)
      → services catalog ≡ ok listed
      → service ∈ listed
      → authentik_blueprints_document w catalog ≡ ok document
      → Stored service c.auth document
  unfolding authentik_blueprints_document
  stored catalog listed service c document cataloged m h =
      let by_id = λ (s : Value). attr_or s "id" null in
      inverted _ (services catalog) document h (λ all lists h1.
        inverted _ (sorted_by_id w by_id all) document h1 (λ ordered sorts h2.
          inverted _ (flat_map_py (oidc_entry w) ordered) document h2 (λ entries selects h3.
            inverted _ (flat_map_py (forward_entry w) ordered) document h3 (λ forwarded forwards h4.
              inverted _ (forward_file w forwarded) document h4 (λ more makes h5.
                let same : listed ≡ all = ok-injective (sym cataloged ∙ lists) in
                let placed = in-sorted_by_id w by_id service all ordered sorts (rw (← same) m) in
                let (own, one, up) =
                  collected (oidc_entry w) service ordered entries selects placed in
                let (id, blueprint, named, made, i) = oidc_entry-Confidential service c own one in
                let file : String × String = (concat (id ∷ ".yaml" ∷ []), blueprint) in
                record {
                  id = id;
                  blueprint = blueprint;
                  files = sort_by by_name (entries ++ more);
                  named = named;
                  made = made;
                  among =
                      in-sort_by by_name file (entries ++ more)
                        (in-append_left file entries more (up file i));
                  all = ok-injective h5;
                })))))
