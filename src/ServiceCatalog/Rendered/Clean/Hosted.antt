-- ===== src/ServiceCatalog/Rendered/Clean/Hosted.antt =====
-- What the dictionary of the expected hostnames holds: the web mapping of a service for each hostname.
use home_server.Common.{
  ◌∈◌, in-append, String, str_eq, eq_iff, ◌≡◌, refl, sym, ◌∙◌, inl, inr, ◌⊎◌, Bool-cases, List, [],
  ◌∷◌, flat_map, some,
}
use home_server.Json.{Value, Fields, str, get, dict_or_empty}
use home_server.ServiceCatalog.Routes.{lookup, assign, text_in}
use home_server.ServiceCatalog.Rendered.{keys, expected_webs, hosted}
use home_server.ServiceCatalog.Structure.Unique.Sound.{service_hostnames}

-- The web mapping of a service, empty if it has none.
abbrev pub web_of : Value → Fields
unfolding get
web_of v = dict_or_empty (get "web" (dict_or_empty v))

-- A service of the list gives the hostname, and the mapping is its web part.
pub record Hosts (listed : List Value) (hostname : String) (web : Fields) : Type 0 where
  pub service : Value
  pub among : service ∈ listed
  pub names : hostname ∈ service_hostnames service
  pub part : web_of service ≡ web

module _ {A : Type 0} (k : String) (v : A) where
  assigned : (d : List (String × A)) → k ∈ keys (assign k v d)
  unfolding assign
  assigned [] = inl refl
  assigned ((j, w) ∷ d) = elim (Bool-cases (str_eq j k)) [
    | inl e ↦ rw e (inl ((eq_iff j k).0 e))
    | inr e ↦ rw e (inr (assigned d))
  ]

  kept_key : (h : String) (d : List (String × A)) → h ∈ keys d → h ∈ keys (assign k v d)
  unfolding assign
  kept_key h [] m = absurd m
  kept_key h ((j, w) ∷ d) m = elim (Bool-cases (str_eq j k)) [
    | inl e ↦ rw e m
    | inr e ↦ rw e (past (kept_key h d) m)
  ]
    where
      past :
          (h ∈ keys d → h ∈ keys (assign k v d)) → h ∈ (j ∷ keys d) → h ∈ (j ∷ keys (assign k v d))
      past rest (inl e) = inl e
      past rest (inr m) = inr (rest m)

  assign-cases :
      (h : String) (x : A) (d : List (String × A))
      → lookup h (assign k v d) ≡ some x
      → (h ≡ k) × (v ≡ x) ⊎ (lookup h d ≡ some x)
  unfolding assign lookup
  assign-cases h x [] e = elim (Bool-cases (str_eq k h)) [
    | inl same ↦ inl (sym ((eq_iff k h).0 same), cc (rw same at e))
    | inr other ↦ cc (rw other at e)
  ]
  assign-cases h x ((j, w) ∷ d) e = elim (Bool-cases (str_eq j k)) [
    | inl at_key ↦ elim (Bool-cases (str_eq j h)) [
      | inl same ↦
          inl (sym ((eq_iff j h).0 same) ∙ (eq_iff j k).0 at_key, cc (rw (at_key, same) at e))
      | inr other ↦ inr (rw other (rw (at_key, other) at e))
    ]
    | inr past ↦ elim (Bool-cases (str_eq j h)) [
      | inl same ↦ inr (rw same (rw (past, same) at e))
      | inr other ↦
          let rest = assign-cases h x d (rw (past, other) at e) in
          elim rest [ inl p ↦ inl p | inr q ↦ inr (rw other q) ]
    ]
  ]

hosted-keeps :
    (h : String) (web : Fields) (names : List String) (result : List (String × Fields))
    → h ∈ keys result
    → h ∈ keys (hosted web names result)
unfolding hosted
hosted-keeps h web [] result m = m
hosted-keeps h web (name ∷ names) result m = kept_key name web h result m

hosted-adds :
    (h : String) (web : Fields) (v : Value) (result : List (String × Fields))
    → h ∈ text_in v
    → h ∈ keys (hosted web (text_in v) result)
unfolding hosted
hosted-adds h web (str s) result (inl e) = rw (← e) (assigned s web result)
hosted-adds h web (str s) result (inr n) = absurd n
hosted-adds h web _ result m = absurd m

hosted-cases :
    (h : String) (web x : Fields) (v : Value) (result : List (String × Fields))
    → lookup h (hosted web (text_in v) result) ≡ some x
    → (h ∈ text_in v) × (web ≡ x) ⊎ (lookup h result ≡ some x)
unfolding hosted
hosted-cases h web x (str s) result e = elim (assign-cases s web h x result e) [
  | inl (same, part) ↦ inl (inl (sym same), part)
  | inr before ↦ inr before
]
hosted-cases h web x _ result e = inr e

-- The dictionary behind one service.
abbrev seen : Value → List (String × Fields) → List (String × Fields)
unfolding web_of get hosted
seen service result = hosted (web_of service) (text_in (get "hostname" (web_of service))) result

-- Each hostname of a service is expected.
pub expected_webs-complete :
    (h : String) (result : List (String × Fields)) (listed : List Value)
    → (h ∈ keys result) ⊎ (h ∈ flat_map service_hostnames listed)
    → h ∈ keys (expected_webs result listed)
unfolding expected_webs seen
expected_webs-complete h result [] (inl m) = m
expected_webs-complete h result [] (inr n) = absurd n
expected_webs-complete h result (service ∷ others) (inl m) =
    expected_webs-complete h (seen service result) others
      (inl (hosted-keeps h (web_of service) (text_in (get "hostname" (web_of service))) result m))
expected_webs-complete h result (service ∷ others) (inr m) =
    elim (in-append h (service_hostnames service) (flat_map service_hostnames others) m) [
      | inl own ↦
          expected_webs-complete h (seen service result) others
            (inl (hosted-adds h (web_of service) (get "hostname" (web_of service)) result own))
      | inr rest ↦ expected_webs-complete h (seen service result) others (inr rest)
    ]

-- What is expected of a hostname is the web part of a service that gives it.
pub expected_webs-Hosts :
    (h : String) (web : Fields) (result : List (String × Fields)) (listed : List Value)
    → lookup h (expected_webs result listed) ≡ some web
    → (lookup h result ≡ some web) ⊎ Hosts listed h web
unfolding expected_webs seen
expected_webs-Hosts h web result [] e = inl e
expected_webs-Hosts h web result (service ∷ others) e =
    let name = get "hostname" (web_of service) in
    elim (expected_webs-Hosts h web (seen service result) others e) [
      | inr later ↦ inr (record {
        service = later.service;
        among = inr later.among;
        names = later.names;
        part = later.part;
      })
      | inl here ↦ elim (hosted-cases h (web_of service) web name result here) [
        | inl (own, part) ↦
            inr (record { service = service; among = inl refl; names = own; part = part })
        | inr before ↦ inl before
      ]
    ]
