-- ===== src/ServiceCatalog/Documents.antt =====
-- scripts/service_catalog.py: `dns_hostnames` and `homepage_document`.
pub mod Hostnames
use home_server.Common.{
  ℕ, ltb, ◌==◌, String, str_eq, concat, Bool, true, false, not, ◌&&◌, ◌||◌, List, [], ◌∷◌, ◌++◌,
  map, flat_map, contains, Option, none, some, if◌then◌else◌, ℤ, pos, negsuc, Py, ok, raise,
  catalog_error, type_error, ◌>>=◌, flat_map_py,
}
use home_server.Common.Order.{sorted_set, sort_by, str_lt}
use home_server.Json.{
  Value, Fields, Items, null, bool, int, str, arr, obj, nil, end, field, get, get_or, get_attr,
  items, to_items, in_set, is_true, is_false, is_null, is_dict, dict_or_empty, truthy, str_of,
}
use home_server.ServiceCatalog.Paths.{Repository}
use home_server.ServiceCatalog.Routes.{iterate, text_in}
use home_server.ServiceCatalog.Rendered.{services}

-- The hostname of a web mapping that is published under a key, if it is.
abbrev published : String → Fields → List Value
unfolding get
published key web =
    if is_true (get key (dict_or_empty (get "dns" web))) then get "hostname" web ∷ [] else []

abbrev published_if : String → Value → List Value
unfolding published
published_if key (obj web) = published key web
published_if key _ = []

unfoldable pub published_by : String → Value → Py (List Value)
unfolding get published_if
published_by key service = do web ← get_attr service "web"; ok (published_if key web)

-- The names that are published besides the services'.
abbrev pub extra : String → Fields → Py (List Value)
unfolding get_or
extra key dns =
    if str_eq key "cloudflare" then iterate (get_or "extraPublicNames" (arr nil) dns) else ok []

abbrev pub dns_of : Value → Py Fields
dns_of (obj dns) = ok dns
dns_of _ = raise (catalog_error "catalog.dns must be a mapping")

unfoldable pub dns_hostnames : Fields → String → Py (List String)
unfolding get services published_by sorted_set extra
dns_hostnames catalog key = do
  dns ← dns_of (get "dns" catalog)
  names ← extra key dns
  listed ← services catalog
  published ← flat_map_py (published_by key) listed
  ok (sorted_set (flat_map text_in (names ++ published)))

-- A card with the keys that it is sorted by.
pub record Card : Type 0 where
  pub order : ℤ
  pub name : String
  pub document : Value

abbrev int_lt : ℤ → ℤ → Bool
int_lt (pos a) (pos b) = ltb a b
int_lt (pos a) (negsuc b) = false
int_lt (negsuc a) (pos b) = true
int_lt (negsuc a) (negsuc b) = ltb b a

-- An order or a name of another kind does not pass `validate_catalog_structure`, which runs first.
abbrev order_of : Value → Py ℤ
order_of (int n) = ok n
order_of _ = raise type_error

abbrev key_of : Value → Py String
key_of (str s) = ok s
key_of _ = raise type_error

abbrev one_field : String → Value → Fields
one_field k v = field k v end

abbrev joined : Fields → Fields → Fields
joined end gs = gs
joined (field k v fs) gs = field k v (joined fs gs)

module _ (w : Repository) where
  -- "href", if the card is a link to the service's address.
  abbrev link_field : Fields → Value → Fields
  unfolding get get_or concat str_of
  link_field card (obj web) =
      if truthy (get_or "link" (bool true) card)
      then one_field "href"
          (str (concat ("https://" ∷ str_of w.render (get "hostname" web) ∷ "/" ∷ [])))
      else end
  link_field card _ = end

  abbrev selector_field : Fields → Fields
  unfolding get
  selector_field workload =
      if not (is_null (get "app" workload))
      then one_field "app" (get "app" workload)
      else if not (is_null (get "podSelector" workload))
      then one_field "podSelector" (get "podSelector" workload)
      else end

  abbrev workload_fields : Value → Fields
  unfolding get selector_field
  workload_fields (obj workload) =
      field "namespace" (get "namespace" workload) (selector_field workload)
  workload_fields _ = end

  unfoldable pub card_details : Fields → Fields → Fields
  unfolding get link_field workload_fields
  card_details service card = field "icon" (get "icon" card) (
      joined (link_field card (get "web" service))
        (field "description" (get "description" card) (workload_fields (get "workload" service))))

  -- A card that is shown, with its group, if that is one of the groups.
  unfoldable pub card_entry : List String → Fields → Fields → Py (List (String × Card))
  unfolding get get_or card_details str_of
  card_entry groups service card = do
    known ← in_set (get "group" card) groups
    if not known
        then ok []
        else (order_of (get_or "order" (int (pos 1000)) card) >>= λ order.
            key_of (get "name" service) >>= λ name. key_of (get "group" card) >>= λ group. ok (
              (
                group,
                record {
                  order = order;
                  name = name;
                  document = obj (one_field name (obj (card_details service card)));
                },
              )
              ∷ []))

  abbrev card_if : List String → Fields → Value → Py (List (String × Card))
  unfolding get_or card_entry
  card_if groups service (obj card) =
      if is_false (get_or "enabled" (bool true) card) then ok [] else card_entry groups service card
  card_if groups service _ = ok []

  unfoldable pub service_card : List String → Value → Py (List (String × Card))
  unfolding get card_if
  service_card groups (obj service) = card_if groups service (get "homepage" service)
  service_card groups v = get_attr v "homepage" >>= λ x. ok []

  -- item: (item[0], item[1].casefold()), in the order of tuples
  abbrev card_lt : Card → Card → Bool
  unfolding str_lt
  card_lt a b =
      int_lt a.order b.order
      || (not (int_lt b.order a.order) && str_lt (w.casefold a.name) (w.casefold b.name))

  abbrev cards_in : String → List (String × Card) → List Card
  cards_in group cards =
      flat_map (λ (p : String × Card). if str_eq p.0 group then p.1 ∷ [] else []) cards

  unfoldable pub group_document : List (String × Card) → String → Value
  unfolding sort_by card_lt
  group_document cards group = obj (
      one_field group
        (arr (to_items (map (λ (c : Card). c.document) (sort_by card_lt (cards_in group cards))))))

-- The keys of a dictionary, in the order in which they are put first.
abbrev first_once : List String → List String → List String
first_once seen [] = []
first_once seen (x ∷ xs) =
    (if contains seen x then [] else x ∷ [])
    ++ first_once (if contains seen x then seen else x ∷ seen) xs

abbrev named_groups : Value → Py (List String)
named_groups (arr vs) = ok (first_once [] (flat_map text_in (items vs)))
named_groups _ = raise (catalog_error "catalog.homepage.groups must be a list")

unfoldable pub homepage_document : Repository → Fields → Py Value
unfolding get services service_card group_document
homepage_document w catalog = do
  groups ← named_groups (get "groups" (dict_or_empty (get "homepage" catalog)))
  listed ← services catalog
  cards ← flat_map_py (service_card w groups) listed
  ok (arr (to_items (map (group_document w cards) groups)))
