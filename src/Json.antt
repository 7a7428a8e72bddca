-- ===== src/Json.antt =====
-- JSON documents, as `json.loads` returns them, and the tests that Python makes on such a value.
-- A float is kept as its `repr`, which tells floats apart. A mapping lists its keys once each.
pub mod Structure
pub mod Entries
use home_server.Common.{
  ℕ, String, str_eq, eq_iff, ◌≡◌, ap, Bool, true, false, not, ◌||◌, Option, none, some, List, [],
  ◌∷◌, is_empty, contains, if◌then◌else◌, ℤ, is_zero_int, show_int, Py, ok, raise, type_error,
  attribute_error,
}

mutual
  pub data Value : Type 0 where
    null : Value
    bool : Bool → Value
    int : ℤ → Value
    real : String → Value
    str : String → Value
    arr : Items → Value
    obj : Fields → Value

  pub data Fields : Type 0 where
    end : Fields
    field : String → Value → Fields → Fields

  pub data Items : Type 0 where
    nil : Items
    cons : Value → Items → Items

abbrev pub items : Items → List Value
items nil = []
items (cons v vs) = v ∷ items vs

abbrev pub fields : Fields → List (String × Value)
fields end = []
fields (field k v fs) = (k, v) ∷ fields fs

abbrev pub to_items : List Value → Items
to_items [] = nil
to_items (v ∷ vs) = cons v (to_items vs)

abbrev pub to_fields : List (String × Value) → Fields
to_fields [] = end
to_fields ((k, v) ∷ fs) = field k v (to_fields fs)

abbrev pub find : String → Fields → Option Value
find k end = none
find k (field j v fs) = if str_eq j k then some v else find k fs

abbrev or_default : Value → Option Value → Value
or_default d none = d
or_default d (some v) = v

-- d.get(k, default) and d.get(k)
unfoldable pub get_or : String → Value → Fields → Value
get_or k d fs = or_default d (find k fs)

unfoldable pub get : String → Fields → Value
unfolding get_or
get k fs = get_or k null fs

-- k in d
unfoldable pub has_key : String → Fields → Bool
has_key k fs = elim (find k fs) [ none ↦ false | some v ↦ true ]

-- d[k] = v on a dict that keeps its order
unfoldable pub put : String → Value → Fields → Fields
put k v end = field k v end
put k v (field j w fs) = if str_eq j k then field j v fs else field j w (put k v fs)

-- `isinstance` of a value, with what it holds
abbrev pub as_str : Value → Option String
as_str (str s) = some s
as_str _ = none

abbrev pub as_list : Value → Option (List Value)
as_list (arr vs) = some (items vs)
as_list _ = none

abbrev pub as_dict : Value → Option Fields
as_dict (obj fs) = some fs
as_dict _ = none

abbrev pub is_str : Value → Bool
is_str (str s) = true
is_str _ = false

abbrev pub is_dict : Value → Bool
is_dict (obj fs) = true
is_dict _ = false

-- `v if isinstance(v, dict) else {}`
abbrev pub dict_or_empty : Value → Fields
dict_or_empty (obj fs) = fs
dict_or_empty _ = end

-- `v if isinstance(v, list) else []`
abbrev pub list_or_empty : Value → List Value
list_or_empty (arr vs) = items vs
list_or_empty _ = []

-- bool(v)
abbrev pub truthy : Value → Bool
truthy null = false
truthy (bool b) = b
truthy (int n) = not (is_zero_int n)
truthy (real t) = not (str_eq t "0.0" || str_eq t "-0.0")
truthy (str s) = not (str_eq s "")
truthy (arr nil) = false
truthy (arr (cons v vs)) = true
truthy (obj end) = false
truthy (obj (field k v fs)) = true

-- a or b
abbrev pub or_else : Value → Value → Value
or_else a b = if truthy a then a else b

-- v is None, v is True, v is False, v == 0, v == "text"
abbrev pub is_null : Value → Bool
is_null null = true
is_null _ = false

abbrev pub is_true : Value → Bool
is_true (bool b) = b
is_true _ = false

abbrev pub is_false : Value → Bool
is_false (bool b) = not b
is_false _ = false

abbrev pub eq_zero : Value → Bool
eq_zero (bool b) = not b
eq_zero (int n) = is_zero_int n
eq_zero (real t) = str_eq t "0.0" || str_eq t "-0.0"
eq_zero _ = false

abbrev pub eq_str : Value → String → Bool
eq_str (str s) t = str_eq s t
eq_str _ t = false

-- "text" in values
abbrev pub holds_str : List Value → String → Bool
holds_str [] t = false
holds_str (v ∷ vs) t = eq_str v t || holds_str vs t

-- `v in {…}` of strings: a list or a mapping has no hash
abbrev pub in_set : Value → List String → Py Bool
in_set (arr vs) names = raise type_error
in_set (obj fs) names = raise type_error
in_set (str s) names = ok (contains names s)
in_set _ names = ok false

-- v.get(k) of a value that is not known to be a mapping
abbrev pub get_attr : Value → String → Py Value
unfolding get
get_attr (obj fs) k = ok (get k fs)
get_attr _ k = raise attribute_error

-- str(v): `render` is Python's own text of a list or a mapping
module _ (render : Value → String) where
  unfoldable pub str_of : Value → String
  str_of null = "None"
  str_of (bool true) = "True"
  str_of (bool false) = "False"
  str_of (int n) = show_int n
  str_of (real t) = t
  str_of (str s) = s
  str_of (arr vs) = render (arr vs)
  str_of (obj fs) = render (obj fs)

-- A value that equals a text is that text.
pub eq_str→≡ : (v : Value) (s : String) → eq_str v s ≡ true → v ≡ str s
eq_str→≡ (str t) s h = ap str ((eq_iff t s).0 h)
eq_str→≡ null s h = cc
eq_str→≡ (bool b) s h = cc
eq_str→≡ (int n) s h = cc
eq_str→≡ (real t) s h = cc
eq_str→≡ (arr vs) s h = cc
eq_str→≡ (obj fs) s h = cc
