-- ===== src/ServiceCatalog/Structure/Unique/Sound.antt =====
-- What an accepted service is, and what an accepted id adds.
use home_server.Common.{
  ◌∈◌, contains→in, String, str_eq, eq_refl, ◌≡◌, refl, sym, inl, inr, ◌⊎◌, Bool, Bool-cases, true,
  false, not, ◌||◌, List, [], ◌∷◌, contains, some, ok,
}
use home_server.Json.{Value, Fields, null, str, obj, get, dict_or_empty}
use home_server.ServiceCatalog.Checks.{clean_bind, result_of_pure, silent}
use home_server.ServiceCatalog.Names.{is_dns_label}
use home_server.ServiceCatalog.Routes.{text_in}
use home_server.ServiceCatalog.Structure.{id_check}
use home_server.ServiceCatalog.Structure.Settings.{distinct}
use home_server.ServiceCatalog.Structure.Clean.{IsSoundWeb}

-- The texts are distinct, and none was seen before.
pub record IsNew (seen xs : List String) : Type 0 where
  pub fresh : (x : String) → x ∈ xs → contains seen x ≡ false
  pub once : distinct xs ≡ true

pub IsNew-cons :
    (seen xs : List String) (x : String)
    → contains seen x ≡ false
    → IsNew (x ∷ seen) xs
    → IsNew seen (x ∷ xs)
IsNew-cons seen xs x h n = record {
  fresh = λ y m. elim m [
    | inl e ↦ rw (← e) h
    | inr k ↦ second (str_eq x y) (contains seen y) (n.fresh y k)
  ];
  once = rw (absent, n.once);
}
  where
    second : (a b : Bool) → (a || b) ≡ false → b ≡ false
    second true b h = cc
    second false b h = h

    first : (a b : Bool) → (a || b) ≡ false → a ≡ false
    first true b h = cc
    first false b h = refl

    absent : contains xs x ≡ false
    absent = elim (Bool-cases (contains xs x)) [
      | inr e ↦ e
      | inl e ↦
          cc (first (str_eq x x) (contains seen x) (n.fresh x (contains→in xs x e)), eq_refl x)
    ]

-- The id and the hostname of a service, where they are texts.
abbrev pub service_ids : Value → List String
unfolding get
service_ids v = text_in (get "id" (dict_or_empty v))

abbrev pub service_hostnames : Value → List String
unfolding get
service_hostnames v = text_in (get "hostname" (dict_or_empty (get "web" (dict_or_empty v))))

-- An accepted service: its id is a DNS label, and its web part, if it has one, is sound.
pub record IsSound (v : Value) : Type 0 where
  pub service : Fields
  pub mapping : v ≡ obj service
  pub id : String
  pub named : get "id" service ≡ str id
  pub label : is_dns_label id ≡ true
  pub web :
      (get "web" service ≡ null) ⊎ ((web : Fields) × (get "web" service ≡ obj web) × IsSoundWeb web)

pub clean_id :
    (label : String) (seen : List String) (id : String) (added : List String)
    → id_check label seen (some id) ≡ ok ([], added)
    → (is_dns_label id ≡ true) × (contains seen id ≡ false) × (added ≡ id ∷ [])
unfolding id_check
clean_id label seen id added h =
    let (u, first, rest) = clean_bind _ _ added h in
    let (v, second, last) = clean_bind _ _ added rest in
    (
      not_false (is_dns_label id) (silent _ _ first),
      silent _ _ second,
      sym (result_of_pure (id ∷ []) added last),
    )
  where
    not_false : (b : Bool) → not b ≡ false → b ≡ true
    not_false true h = refl
    not_false false h = cc
