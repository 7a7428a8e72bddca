-- ===== src/YamlDocuments/Objects.antt =====
-- Which objects `iter_kubernetes_objects` yields.
use home_server.Common.{
  arith, ◌∈◌, in-append, in-append_left, in-append_right, str_eq, ◌≡◌, refl, sym, ap, ◌∙◌, ◌↔◌, inl,
  inr, Bool, Bool-cases, if◌then◌else◌, true, List, [], ◌∷◌, ◌++◌, Py, ok, returned_by_bind,
}
use home_server.Json.{
  Value, Items, Fields, null, bool, int, real, str, arr, obj, nil, cons, end, field, items, get,
  get_or, in_set,
}
use home_server.YamlDocuments.{
  list_kinds, iter_kubernetes_objects, nested_field, nested_list, nested_items,
}

-- The object `o` stands in a document: it is the document, or it stands in an item of a list object.
pub data Nested (o : Fields) : Value → Type 0 where
  whole : Nested o (obj o)
  inside :
      (fs : Fields) (vs : Items) (v : Value)
      → in_set (get "kind" fs) list_kinds ≡ ok true
      → get "items" fs ≡ arr vs
      → v ∈ items vs
      → Nested o v
      → Nested o (obj fs)

-- `o` stands in an item of a value that is a list.
abbrev Listed : Fields → Value → Type 0
Listed o w = (vs : Items) × (v : Value) × (w ≡ arr vs) × (v ∈ items vs) × Nested o v

-- How the generator runs over an object and over the items of a list.
object_steps :
    (gs : Fields) (os : List Fields)
    → iter_kubernetes_objects (obj gs) ≡ ok os
    → (is_list : Bool) × (nested : List Fields) × (in_set (get "kind" gs) list_kinds ≡ ok is_list)
      × ((if is_list then nested_field gs else ok []) ≡ ok nested)
      × (gs ∷ nested ≡ os)
unfolding iter_kubernetes_objects get
object_steps gs os h =
    let (is_list, rest, kind) = returned_by_bind _ (in_set (get "kind" gs) list_kinds) os (sym h) in
    let (nested, last, branch) =
      returned_by_bind _ (if is_list then nested_field gs else ok []) os (sym rest) in
    (is_list, nested, kind, branch, cc)

item_steps :
    (v : Value) (vs : Items) (os : List Fields)
    → nested_items (cons v vs) ≡ ok os
    → (here there : List Fields) × (iter_kubernetes_objects v ≡ ok here)
      × (nested_items vs ≡ ok there)
      × (here ++ there ≡ os)
unfolding iter_kubernetes_objects
item_steps v vs os h =
    let (here, rest, first) = returned_by_bind _ (iter_kubernetes_objects v) os (sym h) in
    let (there, last, second) = returned_by_bind _ (nested_items vs) os (sym rest) in
    (here, there, first, second, cc)

module _ (o : Fields) where
  none_in : (os : List Fields) → Path (Py (List Fields)) (ok []) (ok os) → ¬ (o ∈ os)
  none_in [] h m = m
  none_in (x ∷ os) h m = cc

  member_at : {os more : List Fields} → o ∈ os → more ≡ os → o ∈ more
  member_at m e = rw e m

  mutual
    unfolding iter_kubernetes_objects get get_or

    Nested-of_in :
        (v : Value) (os : List Fields) → iter_kubernetes_objects v ≡ ok os → o ∈ os → Nested o v
    Nested-of_in (obj gs) os h m =
        let (is_list, nested, kind, branch, whole_list) = object_steps gs os h in
        elim (member_at m whole_list) [
          | inl e ↦ rw e whole
          | inr deep ↦ elim (Bool-cases is_list) [
            | inl on ↦
                let (vs, v, list, i, n) = Listed-of_in_field gs nested (rw on at branch) deep in
                inside gs vs v (rw on at kind) list i n
            | inr off ↦ absurd (none_in nested (rw off at branch) deep)
          ]
        ]
    Nested-of_in null os h m = absurd (none_in os h m)
    Nested-of_in (bool b) os h m = absurd (none_in os h m)
    Nested-of_in (int n) os h m = absurd (none_in os h m)
    Nested-of_in (real t) os h m = absurd (none_in os h m)
    Nested-of_in (str s) os h m = absurd (none_in os h m)
    Nested-of_in (arr vs) os h m = absurd (none_in os h m)

    Listed-of_in_field :
        (fs : Fields) (os : List Fields)
        → nested_field fs ≡ ok os
        → o ∈ os
        → Listed o (get "items" fs)
    Listed-of_in_field end os h m = absurd (none_in os h m)
    Listed-of_in_field (field k v fs) os h m = elim (Bool-cases (str_eq k "items")) [
      | inl e ↦ rw e (Listed-of_in_list v os (rw e at h) m)
      | inr e ↦ rw e (Listed-of_in_field fs os (rw e at h) m)
    ]

    Listed-of_in_list : (v : Value) (os : List Fields) → nested_list v ≡ ok os → o ∈ os → Listed o v
    Listed-of_in_list (arr vs) os h m = let (v, i, n) = Item_of_in vs os h m in (vs, v, refl, i, n)
    Listed-of_in_list _ os h m = absurd (none_in os h m)

    Item_of_in :
        (vs : Items) (os : List Fields)
        → nested_items vs ≡ ok os
        → o ∈ os
        → (v : Value) × (v ∈ items vs) × Nested o v
    Item_of_in nil os h m = absurd (none_in os h m)
    Item_of_in (cons v vs) os h m =
        let (here, there, first, second, both) = item_steps v vs os h in
        elim (in-append o here there (member_at m both)) [
          | inl l ↦ (v, inl refl, Nested-of_in v here first l)
          | inr r ↦ let (w, i, n) = Item_of_in vs there second r in (w, inr i, n)
        ]

nested_field-get : (fs : Fields) → nested_field fs ≡ nested_list (get "items" fs)
unfolding iter_kubernetes_objects get get_or
nested_field-get end = refl
nested_field-get (field k v fs) = ground (arith, nested_field-get fs)

-- What an item of the list yields stands in what the list yields.
module _ (o : Fields) (v : Value) where
  item_steps_of :
      (vs : Items) (os : List Fields)
      → nested_items vs ≡ ok os
      → v ∈ items vs
      → (here : List Fields) × (iter_kubernetes_objects v ≡ ok here) × (o ∈ here → o ∈ os)
  item_steps_of nil os h i = absurd i
  item_steps_of (cons w vs) os h i =
      let (here, there, first, second, both) = item_steps w vs os h in
      elim i [
        | inl e ↦ (here, rw (← e) first, λ m. rw (← both) (in-append_left o here there m))
        | inr j ↦
            let (mine, step, there_in) = item_steps_of vs there second j in
            (mine, step, λ m. rw (← both) (in-append_right o here there (there_in m)))
      ]

items_of :
    (gs : Fields) (vs : Items) (nested : List Fields)
    → get "items" gs ≡ arr vs
    → nested_field gs ≡ ok nested
    → nested_items vs ≡ ok nested
unfolding iter_kubernetes_objects
items_of gs vs nested list run =
    let f : nested_list (get "items" gs) ≡ nested_list (arr vs) = ap nested_list list in
    sym f ∙ sym (nested_field-get gs) ∙ run

in_of_Nested :
    {o : Fields} {v : Value}
    → Nested o v
    → (os : List Fields) → iter_kubernetes_objects v ≡ ok os
    → o ∈ os
in_of_Nested {o} whole os h =
    let (is_list, nested, kind, branch, whole_list) = object_steps o os h in
    rw (← whole_list) (inl refl)
in_of_Nested {o} (inside gs vs w kind list i n) os h =
    let (is_list, nested, kind', branch, whole_list) = object_steps gs os h in
    let on : is_list ≡ true = cc in
    let items_run : nested_items vs ≡ ok nested = items_of gs vs nested list (rw on at branch) in
    let (here, step, up) = item_steps_of o w vs nested items_run i in
    rw (← whole_list) (inr (up (in_of_Nested n here step)))

-- If the generator comes to its end over a document, it has yielded exactly the objects that stand in
-- it: the document itself, and those in the items of a list object that stands in it.
pub iter_kubernetes_objects_iff :
    (v : Value) (os : List Fields) (o : Fields)
    → iter_kubernetes_objects v ≡ ok os
    → (o ∈ os) ↔ Nested o v
iter_kubernetes_objects_iff v os o h = (Nested-of_in o v os h, λ n. in_of_Nested n os h)
