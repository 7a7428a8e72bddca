-- ===== src/SchemaManifest/Documents.antt =====
-- Every Secret of a prepared document is blanked, wherever it stands.
pub mod Steps
use home_server.Common.{
  ◌∈◌, ◌⊎◌, String, str_eq, ◌≡◌, refl, sym, ap, ◌∙◌, inl, inr, Bool, Bool-cases, true, false,
  if◌then◌else◌, Py, ok, returned_by_bind,
}
use home_server.Json.{
  Value, Items, Fields, null, bool, int, real, str, arr, obj, nil, cons, end, field, items, get,
  get_or, eq_str, in_set, is_dict,
}
use home_server.YamlDocuments.{list_kinds}
use home_server.YamlDocuments.Objects.{Nested, whole, inside}
use home_server.SchemaManifest.{sanitized, prepare, prepare_field, prepare_list, prepare_items}
use home_server.SchemaManifest.Blanked.{
  IsBlanked, differs, sanitized-kind, sanitized-IsBlanked, no_list_kind,
}
use home_server.SchemaManifest.Documents.Steps.{
  prepare_field-kind, object_steps, items_steps, empty_fields, items_here, items_there,
}

module _ (o : Fields) where
  -- An object that stands in an object is it, or stands in its list of items.
  abbrev Part : Fields → Type 0
  Part gs =
      (gs ≡ o)
      ⊎ ((vs : Items) × (v : Value) × (in_set (get "kind" gs) list_kinds ≡ ok true)
          × (get "items" gs ≡ arr vs)
          × (v ∈ items vs)
          × Nested o v)

  Nested-parts : (gs : Fields) (w : Value) → Nested o w → obj gs ≡ w → Part gs
  Nested-parts gs _ whole e = inl cc
  Nested-parts gs _ (inside fs vs v kind list i n) e =
      let same : gs ≡ fs = cc in inr (vs, v, rw same kind, rw same list, i, n)

  no_object : (v w : Value) → is_dict v ≡ false → ok v ≡ ok w → ¬ Nested o w
  no_object v _ e h whole = cc
  no_object v _ e h (inside fs vs x kind list i n) = cc

  -- An object that is no list: only itself stands in it.
  single-IsBlanked :
      (fs gs : Fields)
      → in_set (get "kind" fs) list_kinds ≡ ok false
      → sanitized fs ≡ gs
      → Part gs
      → eq_str (get "kind" o) "Secret" ≡ true
      → IsBlanked o
  single-IsBlanked fs gs kind built (inl e) secret =
      let same : sanitized fs ≡ o = built ∙ e in
      rw (← same) (sanitized-IsBlanked fs (rw (← same) at secret))
  single-IsBlanked fs gs kind built (inr (vs, v, on, list, i, n)) secret =
      let kept : get "kind" gs ≡ get "kind" fs = rw (← built) (sanitized-kind fs) in
      let clash : in_set (get "kind" fs) list_kinds ≡ ok true = rw (← kept) on in cc

  list_itself :
      (fs gs : Fields)
      → in_set (get "kind" fs) list_kinds ≡ ok true
      → prepare_field fs ≡ ok gs
      → gs ≡ o
      → ¬ (eq_str (get "kind" o) "Secret" ≡ true)
  list_itself fs gs kind h e secret =
      let kept : get "kind" o ≡ get "kind" fs = rw (← e) (prepare_field-kind fs gs h) in
      no_list_kind (get "kind" o) (rw kept kind) secret

  mutual
    unfolding prepare get get_or

    document-IsBlanked :
        (v w : Value)
        → prepare v ≡ ok w
        → Nested o w
        → eq_str (get "kind" o) "Secret" ≡ true
        → IsBlanked o
    document-IsBlanked (obj fs) w h n secret =
        let (is_list, gs, kind, branch, built) = object_steps fs w h in
        elim (Bool-cases is_list) [
          | inl on ↦ elim (Nested-parts gs w n built) [
            | inl e ↦ absurd (list_itself fs gs (rw on at kind) (rw on at branch) e secret)
            | inr deep ↦
                let (vs, v, again, list, i, m) = deep in
                field-IsBlanked fs gs vs v (rw on at branch) list i m secret
          ]
          | inr off ↦
              let same : sanitized fs ≡ gs = cc in
              single-IsBlanked fs gs (rw off at kind) same (Nested-parts gs w n built) secret
        ]
    document-IsBlanked null w h n secret = absurd (no_object null w refl h n)
    document-IsBlanked (bool b) w h n secret = absurd (no_object (bool b) w refl h n)
    document-IsBlanked (int i) w h n secret = absurd (no_object (int i) w refl h n)
    document-IsBlanked (real t) w h n secret = absurd (no_object (real t) w refl h n)
    document-IsBlanked (str s) w h n secret = absurd (no_object (str s) w refl h n)
    document-IsBlanked (arr vs) w h n secret = absurd (no_object (arr vs) w refl h n)

    field-IsBlanked :
        (fs gs : Fields) (vs : Items) (v : Value)
        → prepare_field fs ≡ ok gs
        → get "items" gs ≡ arr vs
        → v ∈ items vs
        → Nested o v
        → eq_str (get "kind" o) "Secret" ≡ true
        → IsBlanked o
    field-IsBlanked end gs vs v h list i n secret = absurd (empty_fields gs vs h list)
    field-IsBlanked (field k x fs) gs vs v h list i n secret =
        elim (Bool-cases (str_eq k "items")) [
          | inl e ↦
              let (y, last, run) = returned_by_bind _ (prepare_list x) gs (sym (rw e at h)) in
              let built : field k y fs ≡ gs = cc in
              value-IsBlanked x y vs v run (items_here k y fs gs vs e built list) i n secret
          | inr e ↦
              let (rest, last, run) = returned_by_bind _ (prepare_field fs) gs (sym (rw e at h)) in
              let built : field k x rest ≡ gs = cc in
              field-IsBlanked fs rest vs v run (items_there k x rest gs vs e built list) i n secret
        ]

    value-IsBlanked :
        (x y : Value) (vs : Items) (v : Value)
        → prepare_list x ≡ ok y
        → y ≡ arr vs
        → v ∈ items vs
        → Nested o v
        → eq_str (get "kind" o) "Secret" ≡ true
        → IsBlanked o
    value-IsBlanked (arr xs) y vs v h list i n secret =
        let (ys, last, run) = returned_by_bind _ (prepare_items xs) y (sym h) in
        let built : ys ≡ vs = cc in item-IsBlanked xs vs v (rw built at run) i n secret
    value-IsBlanked null y vs v h list i n secret = cc
    value-IsBlanked (bool b) y vs v h list i n secret = cc
    value-IsBlanked (int j) y vs v h list i n secret = cc
    value-IsBlanked (real t) y vs v h list i n secret = cc
    value-IsBlanked (str s) y vs v h list i n secret = cc
    value-IsBlanked (obj fs) y vs v h list i n secret = cc

    item-IsBlanked :
        (xs vs : Items) (v : Value)
        → prepare_items xs ≡ ok vs
        → v ∈ items vs
        → Nested o v
        → eq_str (get "kind" o) "Secret" ≡ true
        → IsBlanked o
    item-IsBlanked nil vs v h i n secret = let empty : nil ≡ vs = cc in absurd (rw (← empty) at i)
    item-IsBlanked (cons x xs) vs v h i n secret =
        let (u, us, first, others, built) = items_steps x xs vs h in
        let j : v ∈ items (cons u us) = rw (← built) at i in
        elim j [
          | inl e ↦ document-IsBlanked x u first (rw e n) secret
          | inr m ↦ item-IsBlanked xs us v others m n secret
        ]

-- The preparation of a document that comes to its end blanks each Secret that stands in it afterwards:
-- no "sops", and each value of a mapping under "data" and "stringData" is the placeholder for it.
pub prepare-IsBlanked :
    (o : Fields) (v w : Value)
    → prepare v ≡ ok w
    → Nested o w
    → eq_str (get "kind" o) "Secret" ≡ true
    → IsBlanked o
prepare-IsBlanked = document-IsBlanked
