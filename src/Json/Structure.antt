-- ===== src/Json/Structure.antt =====
-- Laws of the views of a JSON value: a list and its `Items`, a mapping and its keys.
use home_server.Common.{
  ◌∈◌, contains→in, true, ok, String, str_eq, ◌≡◌, refl, ap, List, [], ◌∷◌, some, arith, eq_iff,
  if◌then◌else◌,
}
use home_server.Json.{
  Value, Items, nil, cons, Fields, end, field, items, to_items, find, put, null, bool, int, real,
  str, arr, obj, in_set,
}

pub items-to_items : (vs : List Value) → items (to_items vs) ≡ vs
items-to_items [] = refl
items-to_items (v ∷ vs) = ap (λ t. v ∷ t) (items-to_items vs)

pub to_items-items : (vs : Items) → to_items (items vs) ≡ vs
to_items-items nil = refl
to_items-items (cons v vs) = ap (cons v) (to_items-items vs)

-- A write to a dict changes the value at its key alone.
pub find-put :
    (k j : String) (v : Value) (fs : Fields)
    → find j (put k v fs) ≡ (if str_eq k j then some v else find j fs)
unfolding put
find-put k j v end = refl
find-put k j v (field i w fs) =
    ground (arith, eq_iff k j, eq_iff i k, eq_iff i j, find-put k j v fs)

-- What is in a set of texts is one of them.
pub in_set-str :
    (v : Value) (names : List String)
    → in_set v names ≡ ok true
    → (s : String) × (v ≡ str s) × (s ∈ names)
in_set-str (str s) names h = (s, refl, contains→in names s (cc))
in_set-str null names h = cc
in_set-str (bool b) names h = cc
in_set-str (int n) names h = cc
in_set-str (real t) names h = cc
in_set-str (arr vs) names h = cc
in_set-str (obj fs) names h = cc
