-- ===== src/Common/Sorts.antt =====
-- What `sorted` keeps.
use mathlib.Core.Path.{◌≡◌}
use mathlib.Core.Logic.{◌⊎◌, inl, inr}
use mathlib.Core.Bool.{Bool, true}
use mathlib.Core.List.{List, [], ◌∷◌}
use home_server.Common.Members.{◌∈◌}
use home_server.Common.Order.{insert_by, sort_by}
use home_server.Common.Tests.{Bool-cases, if◌then◌else◌}

module _ {A : Type 0} (lt : A → A → Bool) (a : A) where
  insert_by-in : (x : A) (ys : List A) → a ∈ insert_by lt x ys → a ∈ (x ∷ ys)
  unfolding insert_by
  insert_by-in x [] m = m
  insert_by-in x (y ∷ ys) m = elim (Bool-cases (lt y x)) [
    | inl e ↦ elim (at_head x y ys (lt y x) e m) [
      | inl same ↦ inr (inl same)
      | inr n ↦ elim (insert_by-in x ys n) [ inl same ↦ inl same | inr i ↦ inr (inr i) ]
    ]
    | inr e ↦ rw e at m
  ]
    where
      at_head :
          (x y : A) (ys : List A) (b : Bool)
          → b ≡ true
          → a ∈ (if b then y ∷ insert_by lt x ys else x ∷ y ∷ ys)
          → (y ≡ a) ⊎ (a ∈ insert_by lt x ys)
      at_head x y ys b e m = rw e at m

  in-insert_by : (x : A) (ys : List A) → a ∈ (x ∷ ys) → a ∈ insert_by lt x ys
  unfolding insert_by
  in-insert_by x [] m = m
  in-insert_by x (y ∷ ys) m = elim (Bool-cases (lt y x)) [
    | inl e ↦ rw e (elim m [
      | inl same ↦ inr (in-insert_by x ys (inl same))
      | inr i ↦ elim i [ inl same ↦ inl same | inr j ↦ inr (in-insert_by x ys (inr j)) ]
    ])
    | inr e ↦ rw e m
  ]

  pub sort_by-in : (xs : List A) → a ∈ sort_by lt xs → a ∈ xs
  unfolding sort_by
  sort_by-in [] m = m
  sort_by-in (x ∷ xs) m = elim (insert_by-in x (sort_by lt xs) m) [
    | inl same ↦ inl same
    | inr i ↦ inr (sort_by-in xs i)
  ]

  pub in-sort_by : (xs : List A) → a ∈ xs → a ∈ sort_by lt xs
  unfolding sort_by
  in-sort_by [] m = m
  in-sort_by (x ∷ xs) m =
      in-insert_by x (sort_by lt xs)
        (elim m [ inl same ↦ inl same | inr i ↦ inr (in-sort_by xs i) ])
