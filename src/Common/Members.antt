-- ===== src/Common/Members.antt =====
-- Membership as a proof-relevant recursion on the list, so that a proof says where the element is.
use mathlib.Core.Path.{◌≡◌, refl, ap}
use mathlib.Core.Logic.{◌⊎◌, inl, inr}
use mathlib.Core.Bool.{Bool, true, false, ◌||◌}
use mathlib.Core.List.{List, [], ◌∷◌, ◌++◌, map}
use Prim.Native.String.{String}
use text.Mathlib.Text.{◌==◌}
use text.Mathlib.TextEquality.{eq_iff}
use native.Mathlib.Omega.{arith}
use home_server.Common.Lists.{All, flat_map}
use home_server.Common.Tests.{if◌then◌else◌, Bool-cases}

module _ {A : Type 0} where
  infix 50 ◌∈◌
  abbrev pub ◌∈◌ : A → List A → Type 0
  a ∈ [] = ⊥
  a ∈ (x ∷ xs) = (x ≡ a) ⊎ (a ∈ xs)

  pub in-append_left : (a : A) (xs ys : List A) → a ∈ xs → a ∈ (xs ++ ys)
  in-append_left a [] ys h = elim h [ ]
  in-append_left a (x ∷ xs) ys (inl e) = inl e
  in-append_left a (x ∷ xs) ys (inr h) = inr (in-append_left a xs ys h)

  pub in-append_right : (a : A) (xs ys : List A) → a ∈ ys → a ∈ (xs ++ ys)
  in-append_right a [] ys h = h
  in-append_right a (x ∷ xs) ys h = inr (in-append_right a xs ys h)

  pub in-append : (a : A) (xs ys : List A) → a ∈ (xs ++ ys) → (a ∈ xs) ⊎ (a ∈ ys)
  in-append a [] ys h = inr h
  in-append a (x ∷ xs) ys (inl e) = inl (inl e)
  in-append a (x ∷ xs) ys (inr h) = elim (in-append a xs ys h) [
    | inl l ↦ inl (inr l)
    | inr r ↦ inr r
  ]

module _ {A B : Type 0} (f : A → List B) where
  pub in-flat_map : (b : B) (a : A) (xs : List A) → a ∈ xs → b ∈ f a → b ∈ flat_map f xs
  in-flat_map b a [] m h = elim m [ ]
  in-flat_map b a (x ∷ xs) (inl e) h = in-append_left b (f x) _ (rw e h)
  in-flat_map b a (x ∷ xs) (inr m) h = in-append_right b (f x) _ (in-flat_map b a xs m h)

module _ {A B : Type 0} (f : A → B) where
  pub in-map : (a : A) (xs : List A) → a ∈ xs → f a ∈ map f xs
  in-map a [] m = absurd m
  in-map a (x ∷ xs) (inl e) = inl (ap f e)
  in-map a (x ∷ xs) (inr m) = inr (in-map a xs m)

module _ {A : Type 0} (p : A → Bool) where
  -- `[x for x in xs if p(x)]`
  abbrev pub kept : List A → List A
  kept [] = []
  kept (x ∷ xs) = let rest = kept xs in if p x then x ∷ rest else rest

  pub kept-in : (a : A) (xs : List A) → a ∈ kept xs → (a ∈ xs) × (p a ≡ true)
  kept-in a [] m = elim m [ ]
  kept-in a (x ∷ xs) m = elim (Bool-cases (p x)) [
    | inl e ↦ elim (at_head e m) [
      | inl same ↦ (inl same, rw (← same) e)
      | inr n ↦ let (i, t) = kept-in a xs n in (inr i, t)
    ]
    | inr e ↦ let (i, t) = kept-in a xs (rw e at m) in (inr i, t)
  ]
    where
      at_head : p x ≡ true → a ∈ (if p x then x ∷ kept xs else kept xs) → (x ≡ a) ⊎ (a ∈ kept xs)
      at_head e m = rw e at m

  pub in-kept : (a : A) (xs : List A) → a ∈ xs → p a ≡ true → a ∈ kept xs
  in-kept a [] m t = elim m [ ]
  in-kept a (x ∷ xs) (inl e) t = let here : p x ≡ true = rw e t in rw here (inl e)
  in-kept a (x ∷ xs) (inr m) t = elim (Bool-cases (p x)) [
    | inl e ↦ rw e (inr (in-kept a xs m t))
    | inr e ↦ rw e (in-kept a xs m t)
  ]

module _ {κ} {A : Type 0} (P : A → Type κ) where
  pub All-in : (a : A) (xs : List A) → All P xs → a ∈ xs → P a
  All-in a [] h m = elim m [ ]
  All-in a (x ∷ xs) h (inl e) = rw (← e) h.0
  All-in a (x ∷ xs) h (inr m) = All-in a xs h.1 m

  pub All-of_in : (xs : List A) → ((a : A) → a ∈ xs → P a) → All P xs
  All-of_in [] h = tt
  All-of_in (x ∷ xs) h = (h x (inl refl), All-of_in xs (λ a m. h a (inr m)))

-- `x in xs` for a list or a set of strings
abbrev pub contains : List String → String → Bool
contains [] a = false
contains (x ∷ xs) a = x == a || contains xs a

pub contains→in : (xs : List String) (a : String) → contains xs a ≡ true → a ∈ xs
contains→in [] a h = cc
contains→in (x ∷ xs) a h = ground (arith, eq_iff x a, contains→in xs a)

pub in→contains : (xs : List String) (a : String) → a ∈ xs → contains xs a ≡ true
in→contains [] a h = elim h [ ]
in→contains (x ∷ xs) a h = ground (arith, eq_iff x a, in→contains xs a)
