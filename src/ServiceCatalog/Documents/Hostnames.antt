-- ===== src/ServiceCatalog/Documents/Hostnames.antt =====
-- Which hostnames are published.
use home_server.Common.{
  ◌∈◌, in-append, in-append_left, in-append_right, in-flat_map, collected, collected_from,
  returned_by_bind, ok-injective, String, ◌≡◌, refl, sym, ap, ◌∙◌, ◌↔◌, ◌⊎◌, inl, inr, Bool-cases,
  true, List, [], ◌∷◌, ◌++◌, flat_map, flat_map_py, ok,
}
use home_server.Common.Order.{
  sorted_set, sorted_set-in, in-sorted_set, Ascending, Ascending-sorted_set,
}
use home_server.Json.{
  Value, Fields, null, bool, int, real, str, arr, obj, get, is_true, dict_or_empty,
}
use home_server.ServiceCatalog.Routes.{text_in}
use home_server.ServiceCatalog.Rendered.{services}
use home_server.ServiceCatalog.Documents.{published_if, published_by, dns_of, extra, dns_hostnames}

-- A service of the list publishes the hostname under the key.
pub record Publishes (key : String) (listed : List Value) (h : String) : Type 0 where
  pub service : Fields
  pub among : obj service ∈ listed
  pub web : Fields
  pub has_web : get "web" service ≡ obj web
  pub asked : is_true (get key (dict_or_empty (get "dns" web))) ≡ true
  pub named : get "hostname" web ≡ str h

text_in-eq : (v : Value) (s : String) → s ∈ text_in v → v ≡ str s
text_in-eq (str t) s (inl e) = ap str e
text_in-eq (str t) s (inr m) = absurd m
text_in-eq null s m = absurd m
text_in-eq (bool b) s m = absurd m
text_in-eq (int n) s m = absurd m
text_in-eq (real t) s m = absurd m
text_in-eq (arr vs) s m = absurd m
text_in-eq (obj fs) s m = absurd m

texts-in : (vs : List Value) (s : String) → s ∈ flat_map text_in vs → str s ∈ vs
texts-in [] s m = absurd m
texts-in (v ∷ vs) s m = elim (in-append s (text_in v) (flat_map text_in vs) m) [
  | inl here ↦ inl (text_in-eq v s here)
  | inr there ↦ inr (texts-in vs s there)
]

in-texts : (vs : List Value) (s : String) → str s ∈ vs → s ∈ flat_map text_in vs
in-texts vs s m = in-flat_map text_in s (str s) vs m (inl refl)

published_if-in :
    (key : String) (v : Value) (x : Value)
    → x ∈ published_if key v
    → (web : Fields) × (v ≡ obj web)
      × (is_true (get key (dict_or_empty (get "dns" web))) ≡ true)
      × (get "hostname" web ≡ x)
unfolding published_if
published_if-in key (obj web) x m =
    elim (Bool-cases (is_true (get key (dict_or_empty (get "dns" web))))) [
      | inl e ↦ elim (single (get "hostname" web) x (rw e at m)) [
        | inl same ↦ (web, refl, e, same)
        | inr none ↦ absurd none
      ]
      | inr e ↦ absurd (rw e at m)
    ]
  where
    single : (a b : Value) → b ∈ (a ∷ []) → (a ≡ b) ⊎ ⊥
    single a b m = m
published_if-in key null x m = absurd m
published_if-in key (bool b) x m = absurd m
published_if-in key (int n) x m = absurd m
published_if-in key (real t) x m = absurd m
published_if-in key (str s) x m = absurd m
published_if-in key (arr vs) x m = absurd m

published_by-in :
    (key : String) (v : Value) (xs : List Value) (h : String)
    → published_by key v ≡ ok xs
    → str h ∈ xs
    → (service : Fields) × (v ≡ obj service) × (str h ∈ published_if key (get "web" service))
unfolding published_by
published_by-in key (obj service) xs h run m =
    let same : published_if key (get "web" service) ≡ xs = cc in (service, refl, rw same m)
published_by-in key null xs h run m = cc
published_by-in key (bool b) xs h run m = cc
published_by-in key (int n) xs h run m = cc
published_by-in key (real t) xs h run m = cc
published_by-in key (str s) xs h run m = cc
published_by-in key (arr vs) xs h run m = cc

module _ (key : String) (listed : List Value) (found : List Value)
    (run : flat_map_py (published_by key) listed ≡ ok found) where
  Publishes-of_found : (h : String) → str h ∈ found → Publishes key listed h
  Publishes-of_found h m =
      let (v, xs, i, one, k) = collected_from (published_by key) (str h) listed found run m in
      let (service, object, j) = published_by-in key v xs h one k in
      let (web, has_web, asked, named) = published_if-in key (get "web" service) (str h) j in
      record {
        service = service;
        among = rw (← object) i;
        web = web;
        has_web = has_web;
        asked = asked;
        named = named;
      }

  found-of_Publishes : (h : String) → Publishes key listed h → str h ∈ found
  unfolding published_by published_if
  found-of_Publishes h p =
      let (xs, one, up) = collected (published_by key) (obj p.service) listed found run p.among in
      let here : str h ∈ published_if key (get "web" p.service) =
        rw (p.has_web, p.asked, p.named) (inl refl) in
      let same : published_if key (get "web" p.service) ≡ xs = cc in up (str h) (rw (← same) here)

module _ (key : String) (listed extras found : List Value)
    (run : flat_map_py (published_by key) listed ≡ ok found) (h : String) where
  published_of : h ∈ flat_map text_in (extras ++ found) → (str h ∈ extras) ⊎ Publishes key listed h
  published_of m = elim (in-append (str h) extras found (texts-in (extras ++ found) h m)) [
    | inl i ↦ inl i
    | inr i ↦ inr (Publishes-of_found key listed found run h i)
  ]

  of_published : (str h ∈ extras) ⊎ Publishes key listed h → h ∈ flat_map text_in (extras ++ found)
  of_published (inl i) = in-texts (extras ++ found) h (in-append_left (str h) extras found i)
  of_published (inr p) =
      in-texts (extras ++ found) h
        (in-append_right (str h) extras found (found-of_Publishes key listed found run h p))

-- The hostnames that are published under a key are the texts among the extra names for it and the
-- hostnames of the services whose web part asks for it, each once and in order.
pub dns_hostnames-Publishes_iff :
    (catalog : Fields) (key : String) (names : List String) (dns : Fields)
    (extras listed : List Value) (h : String)
    → dns_hostnames catalog key ≡ ok names
    → dns_of (get "dns" catalog) ≡ ok dns
    → extra key dns ≡ ok extras
    → services catalog ≡ ok listed
    → ((h ∈ names) ↔ ((str h ∈ extras) ⊎ Publishes key listed h)) × Ascending names
unfolding dns_hostnames
dns_hostnames-Publishes_iff catalog key names dns extras listed h run has_dns has_extras cataloged =
    let (one, rest, a) = returned_by_bind _ (dns_of (get "dns" catalog)) names (sym run) in
    let same_dns : one ≡ dns = ok-injective (sym a ∙ has_dns) in
    let (two, more, b) = returned_by_bind _ (extra key one) names (sym rest) in
    let same_extras : two ≡ extras = ok-injective (sym (rw same_dns at b) ∙ has_extras) in
    let (three, others, c) = returned_by_bind _ (services catalog) names (sym more) in
    let same_listed : three ≡ listed = ok-injective (sym c ∙ cataloged) in
    let (found, last, d) =
      returned_by_bind _ (flat_map_py (published_by key) three) names (sym others) in
    let made : names ≡ sorted_set (flat_map text_in (extras ++ found)) =
      rw (← same_extras) (ok-injective (sym last)) in
    let loop : flat_map_py (published_by key) listed ≡ ok found = rw same_listed at d in
    rw made (
      (
        λ m.
            published_of key listed extras found loop h
              (sorted_set-in h (flat_map text_in (extras ++ found)) m),
        λ p.
            in-sorted_set h (flat_map text_in (extras ++ found))
              (of_published key listed extras found loop h p),
      ),
      Ascending-sorted_set (flat_map text_in (extras ++ found)),
    )
