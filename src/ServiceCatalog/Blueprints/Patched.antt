-- ===== src/ServiceCatalog/Blueprints/Patched.antt =====
-- The secrets that the worker's patch sets: a variable for each confidential client.
use home_server.Common.{
  Py, ◌∈◌, collected, returned_by_bind, ok-injective, String, concat, ◌≡◌, refl, ap, in-map, Bool,
  sym, ◌∙◌, inl, inr, List, [], ◌∷◌, ◌++◌, some, ok, flat_map_py, is_empty, if◌then◌else◌,
}
use home_server.Common.Order.{sort_by, str_lt}
use home_server.Common.Sorts.{in-sort_by}
use home_server.Json.{Value, Fields, null, str, obj, end, find, get_or}
use home_server.ServiceCatalog.Paths.{Repository}
use home_server.ServiceCatalog.Names.{authentik_secret_key}
use home_server.ServiceCatalog.Routes.{attr_or}
use home_server.ServiceCatalog.Rendered.{services}
use home_server.ServiceCatalog.Blueprints.Parts.{item, ended, text_of, text_item}
use home_server.ServiceCatalog.Blueprints.{
  auth_of, keyed, sorted_by_id, confidential_of, worker_lines, patch_head, authentik_worker_patch,
}

abbrev by_key : String × Value → String × Value → Bool
unfolding str_lt
by_key a b = str_lt a.0 b.0

-- The service signs in by OIDC, with a confidential client.
pub record Confidential (service : Value) : Type 0 where
  pub own : Fields
  pub web : Fields
  pub auth : Fields
  pub client : Fields
  pub is_mapping : service ≡ obj own
  pub has_web : find "web" own ≡ some (obj web)
  pub has_auth : find "auth" web ≡ some (obj auth)
  pub by_oidc : find "mode" auth ≡ some (str "oidc")
  pub has_client : find "client" auth ≡ some (obj client)
  pub is_confidential : find "type" client ≡ some (str "confidential")

module _ (w : Repository) where
  pub auth_of-Confidential :
      (service : Value) (c : Confidential service) → auth_of w service ≡ ok (obj c.auth)
  unfolding auth_of get_or
  auth_of-Confidential service c = rw (c.is_mapping, c.has_web, c.has_auth) refl

  confidential_of-Confidential :
      (service : Value) → Confidential service → confidential_of w service ≡ ok (service ∷ [])
  unfolding confidential_of get_or
  confidential_of-Confidential service c =
      rw (auth_of-Confidential service c, c.by_oidc, c.has_client, c.is_confidential) refl

  keyed-in :
      (id_of : Value → Py Value) (service : Value) (listed : List Value)
      (pairs : List (String × Value))
      → keyed w id_of listed ≡ ok pairs
      → service ∈ listed
      → (id : String) × ((id, service) ∈ pairs)
  unfolding keyed
  keyed-in id_of service [] pairs h m = absurd m
  keyed-in id_of service (v ∷ others) pairs h m =
      let (id, rest, first) = returned_by_bind _ (id_of v) pairs (sym h) in
      let (more, last, run) = returned_by_bind _ (keyed w id_of others) pairs (sym rest) in
      let whole : (text_of w id, v) ∷ more ≡ pairs = ok-injective last in
      elim m [
        | inl e ↦ (text_of w id, rw (← whole) (inl (ap (λ (s : Value). (text_of w id, s)) e)))
        | inr n ↦
            let (key, i) = keyed-in id_of service others more run n in (key, rw (← whole) (inr i))
      ]

  pub in-sorted_by_id :
      (id_of : Value → Py Value) (service : Value) (listed ordered : List Value)
      → sorted_by_id w id_of listed ≡ ok ordered
      → service ∈ listed
      → service ∈ ordered
  unfolding sorted_by_id
  in-sorted_by_id id_of service listed ordered h m =
      let (pairs, rest, run) = returned_by_bind _ (keyed w id_of listed) ordered (sym h) in
      let (id, i) = keyed-in id_of service listed pairs run m in
      rw (← ok-injective rest) (
        in-map (λ (p : String × Value). p.1) (id, service) (sort_by by_key pairs)
          (in-sort_by by_key (id, service) pairs i))

  -- What the patch was made from.
  pub record Patched (catalog : Fields) (patch : String) : Type 0 where
    pub listed : List Value
    pub entries : List Value
    pub ordered : List Value
    pub name : Value
    pub head : List String
    pub lines : List String
    pub lists : services catalog ≡ ok listed
    pub selects : flat_map_py (confidential_of w) listed ≡ ok entries
    pub orders : sorted_by_id w (item "id") entries ≡ ok ordered
    pub writes : flat_map_py (worker_lines w (text_of w name)) ordered ≡ ok lines
    pub all : ended (head ++ lines) ≡ patch

  pub patched :
      (catalog : Fields) (patch : String)
      → authentik_worker_patch w catalog ≡ ok patch
      → Patched catalog patch
  unfolding authentik_worker_patch
  patched catalog patch h =
      let authentik = get_or "authentik" (obj end) catalog in
      let (secret, h1, r1) =
        returned_by_bind _ (attr_or authentik "providerSecret" (obj end)) patch (sym h) in
      let (listed, h2, r2) = returned_by_bind _ (services catalog) patch (sym h1) in
      let (entries, h3, r3) =
        returned_by_bind _ (flat_map_py (confidential_of w) listed) patch (sym h2) in
      let (namespace, h4, r4) =
        returned_by_bind _ (attr_or authentik "namespace" (str "apps")) patch (sym h3) in
      let (ordered, h5, r5) =
        returned_by_bind _ (sorted_by_id w (item "id") entries) patch (sym h4) in
      let (name, h6, r6) =
        returned_by_bind _ (if is_empty ordered then ok null else attr_or secret "name" null) patch
          (sym h5) in
      let (lines, h7, r7) =
        returned_by_bind _ (flat_map_py (worker_lines w (text_of w name)) ordered) patch (sym h6) in
      record {
        listed = listed;
        entries = entries;
        ordered = ordered;
        name = name;
        head = patch_head (text_of w namespace);
        lines = lines;
        lists = r2;
        selects = r3;
        orders = r5;
        writes = r7;
        all = ok-injective h7;
      }

  abbrev pub name_line : String → String
  unfolding concat authentik_secret_key
  name_line id = concat ("            - name: " ∷ authentik_secret_key w id ∷ [])

  worker_lines-name :
      (secret : String) (service : Value) (block : List String)
      → worker_lines w secret service ≡ ok block
      → (id : String) × (text_item w "id" service ≡ ok id) × (name_line id ∈ block)
  unfolding worker_lines
  worker_lines-name secret service block h =
      let (id, named, found) = returned_by_bind _ (text_item w "id" service) block (sym h) in
      (id, found, rw (← ok-injective named) (inl refl))

  -- The patch has the variable of each confidential client among its lines.
  pub Patched-names :
      (catalog : Fields) (service : Value) (patch : String) (p : Patched catalog patch)
      → service ∈ p.listed
      → Confidential service
      → (id : String) × (text_item w "id" service ≡ ok id) × (name_line id ∈ p.lines)
  Patched-names catalog service patch p m c =
      let (own, one, up) = collected (confidential_of w) service p.listed p.entries p.selects m in
      let own_is : service ∷ [] ≡ own =
        ok-injective (sym (confidential_of-Confidential service c) ∙ one) in
      let among =
        in-sorted_by_id (item "id") service p.entries p.ordered p.orders
          (up service (rw (← own_is) (inl refl))) in
      let (block, made, over) =
        collected (worker_lines w (text_of w p.name)) service p.ordered p.lines p.writes among in
      let (id, found, i) = worker_lines-name (text_of w p.name) service block made in
      (id, found, over (name_line id) i)
