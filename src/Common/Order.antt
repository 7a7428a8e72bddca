-- ===== src/Common/Order.antt =====
-- Python's order on `str`, by code points, and `sorted`.
use Prim.Native.Char.{code}
use Prim.Native.String.{String}
use mathlib.Core.Path.{◌≡◌, ◌∙◌, refl, sym, ap₂}
use mathlib.Core.Logic.{◌⊎◌, inl, inr, ◌↔◌}
use mathlib.Core.Bool.{Bool, true, false, ◌&&◌, ◌||◌}
use mathlib.Core.List.{List, [], ◌∷◌}
use native.Mathlib.Omega.{arith}
use text.Mathlib.Text.{◌==◌ as str_eq}
use text.Mathlib.TextEquality.{eq_iff, Char-path}
use home_server.Common.Tests.{ltb, ◌==◌, if◌then◌else◌, Bool-cases}
use home_server.Common.Lists.{All}
use home_server.Common.Members.{◌∈◌, All-in}

-- s < t
unfoldable pub str_lt : String → String → Bool
str_lt String.[] String.[] = false
str_lt String.[] (String.◌∷◌ d t) = true
str_lt (String.◌∷◌ c s) String.[] = false
str_lt (String.◌∷◌ c s) (String.◌∷◌ d t) = ltb (code c) (code d) || (code c == code d && str_lt s t)

pub str_lt_irrefl : (s : String) → str_lt s s ≡ false
unfolding str_lt
str_lt_irrefl String.[] = refl
str_lt_irrefl (String.◌∷◌ c s) = ground (arith, str_lt_irrefl s)

pub str_lt_trans : (s t u : String) → str_lt s t ≡ true → str_lt t u ≡ true → str_lt s u ≡ true
unfolding str_lt
str_lt_trans String.[] String.[] u h k = cc
str_lt_trans String.[] (String.◌∷◌ d t) String.[] h k = cc
str_lt_trans String.[] (String.◌∷◌ d t) (String.◌∷◌ e u) h k = refl
str_lt_trans (String.◌∷◌ c s) String.[] u h k = cc
str_lt_trans (String.◌∷◌ c s) (String.◌∷◌ d t) String.[] h k = cc
str_lt_trans (String.◌∷◌ c s) (String.◌∷◌ d t) (String.◌∷◌ e u) h k =
    ground (arith, str_lt_trans s t u)

-- Two texts of which neither is less are equal.
pub str_lt-antisym : (s t : String) → str_lt s t ≡ false → str_lt t s ≡ false → s ≡ t
unfolding str_lt
str_lt-antisym String.[] String.[] h k = refl
str_lt-antisym String.[] (String.◌∷◌ d t) h k = cc
str_lt-antisym (String.◌∷◌ c s) String.[] h k = cc
str_lt-antisym (String.◌∷◌ c s) (String.◌∷◌ d t) h k =
    ap₂ String.◌∷◌ (Char-path c d (ground arith)) (str_lt-antisym s t (ground arith) (ground arith))

module _ {ℓ} {A : Type ℓ} (lt : A → A → Bool) where
  -- sorted(xs), for an order given by `lt`: equal elements keep their order.
  unfoldable pub insert_by : A → List A → List A
  insert_by x [] = x ∷ []
  insert_by x (y ∷ ys) = if lt y x then y ∷ insert_by x ys else x ∷ y ∷ ys

  unfoldable pub sort_by : List A → List A
  unfolding insert_by
  sort_by [] = []
  sort_by (x ∷ xs) = insert_by x (sort_by xs)

-- sorted(xs) of texts
unfoldable pub sort : List String → List String
unfolding sort_by str_lt
sort = sort_by str_lt

-- sorted(set(xs))
unfoldable pub insert_once : String → List String → List String
insert_once x [] = x ∷ []
insert_once x (y ∷ ys) =
    if str_eq x y then y ∷ ys else if str_lt y x then y ∷ insert_once x ys else x ∷ y ∷ ys

unfoldable pub sorted_set : List String → List String
unfolding insert_once str_lt
sorted_set [] = []
sorted_set (x ∷ xs) = insert_once x (sorted_set xs)

-- Each text is less than all that follow it.
abbrev pub Ascending : List String → Type 0
Ascending [] = Unit
Ascending (x ∷ xs) = All (λ y. str_lt x y ≡ true) xs × Ascending xs

pub insert_once-in : (a x : String) (ys : List String) → a ∈ insert_once x ys → (x ≡ a) ⊎ (a ∈ ys)
unfolding insert_once
insert_once-in a x [] h = h
insert_once-in a x (y ∷ ys) h = ground (arith, eq_iff x y, insert_once-in a x ys)

pub in-insert_once : (a x : String) (ys : List String) → (x ≡ a) ⊎ (a ∈ ys) → a ∈ insert_once x ys
unfolding insert_once
in-insert_once a x [] h = h
in-insert_once a x (y ∷ ys) h = ground (arith, eq_iff x y, in-insert_once a x ys)

-- `sorted(set(xs))` has the elements of `xs`.
pub sorted_set-in : (a : String) (xs : List String) → a ∈ sorted_set xs → a ∈ xs
unfolding sorted_set
sorted_set-in a [] h = h
sorted_set-in a (x ∷ xs) h = ground (arith, insert_once-in a x (sorted_set xs), sorted_set-in a xs)

pub in-sorted_set : (a : String) (xs : List String) → a ∈ xs → a ∈ sorted_set xs
unfolding sorted_set
in-sorted_set a [] h = h
in-sorted_set a (x ∷ xs) h = ground (arith, in-insert_once a x (sorted_set xs), in-sorted_set a xs)

All-lt_trans :
    (x y : String) (ys : List String)
    → str_lt x y ≡ true
    → All (λ z. str_lt y z ≡ true) ys
    → All (λ z. str_lt x z ≡ true) ys
All-lt_trans x y [] h k = tt
All-lt_trans x y (z ∷ ys) h k = (str_lt_trans x y z h k.0, All-lt_trans x y ys h k.1)

All-insert_once :
    (P : String → Type 0) (x : String) (ys : List String)
    → P x
    → All P ys
    → All P (insert_once x ys)
unfolding insert_once
All-insert_once P x [] p h = (p, tt)
All-insert_once P x (y ∷ ys) p h = elim (Bool-cases (str_eq x y)) [
  | inl e ↦ rw e h
  | inr e ↦ elim (Bool-cases (str_lt y x)) [
    | inl l ↦ rw (e, l) (h.0, All-insert_once P x ys p h.1)
    | inr l ↦ rw (e, l) (p, h)
  ]
]

Ascending-insert_once :
    (x : String) (ys : List String) → Ascending ys → Ascending (insert_once x ys)
unfolding insert_once
Ascending-insert_once x [] h = (tt, tt)
Ascending-insert_once x (y ∷ ys) h = elim (Bool-cases (str_eq x y)) [
  | inl e ↦ rw e h
  | inr e ↦ elim (Bool-cases (str_lt y x)) [
    | inl l ↦
        rw (e, l)
          (All-insert_once (λ z. str_lt y z ≡ true) x ys l h.0, Ascending-insert_once x ys h.1)
    | inr l ↦
        let less : str_lt x y ≡ true = ground (arith, eq_iff x y, str_lt-antisym x y) in
        rw (e, l) ((less, All-lt_trans x y ys less h.0), h)
  ]
]

pub Ascending-sorted_set : (xs : List String) → Ascending (sorted_set xs)
unfolding sorted_set
Ascending-sorted_set [] = tt
Ascending-sorted_set (x ∷ xs) = Ascending-insert_once x (sorted_set xs) (Ascending-sorted_set xs)

not-in_of_less : (x : String) (ys : List String) → All (λ y. str_lt x y ≡ true) ys → ¬ (x ∈ ys)
not-in_of_less x ys h m = cc (All-in (λ y. str_lt x y ≡ true) x ys h m, str_lt_irrefl x)

-- An ascending list is known by its elements.
pub Ascending-unique :
    (xs ys : List String)
    → Ascending xs
    → Ascending ys
    → ((a : String) → a ∈ xs → a ∈ ys)
    → ((a : String) → a ∈ ys → a ∈ xs)
    → xs ≡ ys
Ascending-unique [] [] h k f g = refl
Ascending-unique [] (y ∷ ys) h k f g = absurd (g y (inl refl))
Ascending-unique (x ∷ xs) [] h k f g = absurd (f x (inl refl))
Ascending-unique (x ∷ xs) (y ∷ ys) h k f g =
    let same : x ≡ y = heads (f x (inl refl)) (g y (inl refl)) in
    ap₂ (λ (a : String) (l : List String). a ∷ l) same
      (Ascending-unique xs ys h.1 k.1 (λ a m. tail_of x y xs ys a h.0 same m (f a (inr m)))
        (λ a m. tail_of y x ys xs a k.0 (sym same) m (g a (inr m))))
  where
    heads : (y ≡ x) ⊎ (x ∈ ys) → (x ≡ y) ⊎ (y ∈ xs) → x ≡ y
    heads (inl e) _ = sym e
    heads (inr m) (inl e) = e
    heads (inr m) (inr n) = cc (
      str_lt_trans x y x (All-in (λ z. str_lt x z ≡ true) y xs h.0 n)
          (All-in (λ z. str_lt y z ≡ true) x ys k.0 m),
      str_lt_irrefl x,
    )

    tail_of :
        (x y : String) (xs ys : List String) (a : String)
        → All (λ z. str_lt x z ≡ true) xs
        → x ≡ y
        → a ∈ xs
        → (y ≡ a) ⊎ (a ∈ ys)
        → a ∈ ys
    tail_of x y xs ys a less same m (inl e) = absurd (not-in_of_less x xs less (rw (same ∙ e) m))
    tail_of x y xs ys a less same m (inr n) = n

-- `xs == sorted(set(xs))` holds exactly for ascending lists.
pub sorted_set-fixed_iff : (xs : List String) → (xs ≡ sorted_set xs) ↔ Ascending xs
sorted_set-fixed_iff xs = (
  λ e. rw e (Ascending-sorted_set xs),
  λ h.
      Ascending-unique xs (sorted_set xs) h (Ascending-sorted_set xs) (λ a. in-sorted_set a xs)
        (λ a. sorted_set-in a xs),
)
