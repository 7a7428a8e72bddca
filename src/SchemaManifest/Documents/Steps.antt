-- ===== src/SchemaManifest/Documents/Steps.antt =====
-- How an object is prepared, and where the objects of its list stand afterwards.
use home_server.Common.{
  String, str_eq, ◌≡◌, refl, sym, ap, ◌∙◌, inl, inr, Bool, Bool-cases, true, false, if◌then◌else◌,
  Py, ok, returned_by_bind,
}
use home_server.Json.{Value, Items, Fields, arr, obj, cons, end, field, get, get_or, in_set}
use home_server.YamlDocuments.{list_kinds}
use home_server.SchemaManifest.{sanitized, prepare, prepare_field, prepare_list, prepare_items}
use home_server.SchemaManifest.Blanked.{differs}

kind_kept :
    (k : String) (v : Value) (gs fs : Fields)
    → get "kind" gs ≡ get "kind" fs
    → get "kind" (field k v gs) ≡ get "kind" (field k v fs)
unfolding get get_or
kind_kept k v gs fs h = elim (Bool-cases (str_eq k "kind")) [ inl e ↦ rw e | inr e ↦ rw e h ]

other_value :
    (k : String) (v w : Value) (fs : Fields)
    → str_eq k "kind" ≡ false
    → get "kind" (field k w fs) ≡ get "kind" (field k v fs)
unfolding get get_or
other_value k v w fs e = rw e

-- A list that was prepared is the object that it was, but for its items.
pub prepare_field-kind : (fs gs : Fields) → prepare_field fs ≡ ok gs → get "kind" gs ≡ get "kind" fs
unfolding prepare
prepare_field-kind end gs h = cc
prepare_field-kind (field k v fs) gs h = elim (Bool-cases (str_eq k "items")) [
  | inl e ↦
      let (w, last, run) = returned_by_bind _ (prepare_list v) gs (sym (rw e at h)) in
      let is_not : str_eq k "kind" ≡ false = differs k "items" "kind" refl e in
      let built : field k w fs ≡ gs = cc in rw (← built) (other_value k v w fs is_not)
  | inr e ↦
      let (rest, last, run) = returned_by_bind _ (prepare_field fs) gs (sym (rw e at h)) in
      let built : field k v rest ≡ gs = cc in
      rw (← built) (kind_kept k v rest fs (prepare_field-kind fs rest run))
]

-- How an object is prepared.
pub object_steps :
    (fs : Fields) (w : Value)
    → prepare (obj fs) ≡ ok w
    → (is_list : Bool) × (gs : Fields) × (in_set (get "kind" fs) list_kinds ≡ ok is_list)
      × ((if is_list then prepare_field fs else ok (sanitized fs)) ≡ ok gs)
      × (obj gs ≡ w)
unfolding prepare get
object_steps fs w h =
    let (is_list, rest, kind) = returned_by_bind _ (in_set (get "kind" fs) list_kinds) w (sym h) in
    let (gs, last, branch) =
      returned_by_bind _ (if is_list then prepare_field fs else ok (sanitized fs)) w (sym rest) in
    (is_list, gs, kind, branch, cc)

pub items_steps :
    (v : Value) (vs ws : Items)
    → prepare_items (cons v vs) ≡ ok ws
    → (u : Value) × (us : Items) × (prepare v ≡ ok u)
      × (prepare_items vs ≡ ok us)
      × (cons u us ≡ ws)
unfolding prepare
items_steps v vs ws h =
    let (u, rest, first) = returned_by_bind _ (prepare v) ws (sym h) in
    let (us, last, others) = returned_by_bind _ (prepare_items vs) ws (sym rest) in
    (u, us, first, others, cc)

pub empty_fields :
    (gs : Fields) (vs : Items) → Path (Py Fields) (ok end) (ok gs) → get "items" gs ≡ arr vs → ⊥
unfolding get get_or
empty_fields end vs h list = cc
empty_fields (field k v fs) vs h list = cc

pub items_here :
    (k : String) (y : Value) (fs gs : Fields) (vs : Items)
    → str_eq k "items" ≡ true
    → field k y fs ≡ gs
    → get "items" gs ≡ arr vs
    → y ≡ arr vs
unfolding get get_or
items_here k y fs gs vs e built list =
    let same : get "items" (field k y fs) ≡ arr vs =
      ap (λ (x : Fields). get "items" x) built ∙ list in
    rw e at same

pub items_there :
    (k : String) (x : Value) (fs gs : Fields) (vs : Items)
    → str_eq k "items" ≡ false
    → field k x fs ≡ gs
    → get "items" gs ≡ arr vs
    → get "items" fs ≡ arr vs
unfolding get get_or
items_there k x fs gs vs e built list =
    let same : get "items" (field k x fs) ≡ arr vs =
      ap (λ (x : Fields). get "items" x) built ∙ list in
    rw e at same
