-- ===== src/HighRiskPolicy/Baseline/Gate.antt =====
-- When the comparison with the baseline passes.
use home_server.Common.{
  ◌∈◌, in-flat_map, contains, contains→in, in→contains, String, eq_iff, ◌≡◌, refl, ap₂, ◌↔◌, inl,
  inr, true, false, Bool-cases, if◌then◌else◌, List, [], ◌∷◌, flat_map, is_empty, arith,
}
use home_server.Common.Order.{sorted_set, Ascending, in-sorted_set, sorted_set-fixed_iff}
use home_server.HighRiskPolicy.Baseline.{same_texts, sorted_difference, compare}

same_texts_iff : (xs ys : List String) → (same_texts xs ys ≡ true) ↔ (xs ≡ ys)
same_texts_iff [] [] = (λ h. refl, λ h. refl)
same_texts_iff [] (y ∷ ys) = (λ h. cc, λ h. cc)
same_texts_iff (x ∷ xs) [] = (λ h. cc, λ h. cc)
same_texts_iff (x ∷ xs) (y ∷ ys) = (
  λ h.
      ap₂ (λ (a : String) (l : List String). a ∷ l) ((eq_iff x y).0 (ground arith))
        ((same_texts_iff xs ys).0 (ground arith)),
  λ h.
      let e : x ≡ y = cc in
      let r : xs ≡ ys = cc in ground (arith, (eq_iff x y).1 e, (same_texts_iff xs ys).1 r),
)

-- The elements that the second list lacks, before they are sorted.
abbrev lacking : List String → List String → List String
lacking ys xs = flat_map (λ x. if contains ys x then [] else x ∷ []) xs

empty_has_none : (a : String) (xs : List String) → is_empty xs ≡ true → ¬ (a ∈ xs)
empty_has_none a [] h m = m
empty_has_none a (x ∷ xs) h m = cc

in-lacking : (a : String) (xs ys : List String) → a ∈ xs → contains ys a ≡ false → a ∈ lacking ys xs
in-lacking a xs ys m h =
    in-flat_map (λ x. if contains ys x then [] else x ∷ []) a a xs m (rw h (inl refl))

included :
    (xs ys : List String)
    → is_empty (sorted_difference xs ys) ≡ true
    → (a : String) → a ∈ xs
    → a ∈ ys
unfolding sorted_difference
included xs ys h a m = elim (Bool-cases (contains ys a)) [
  | inl e ↦ contains→in ys a e
  | inr e ↦ absurd (
      empty_has_none a (sorted_set (lacking ys xs)) h
        (in-sorted_set a (lacking ys xs) (in-lacking a xs ys m e)))
]

lacking-none : (xs ys : List String) → ((a : String) → a ∈ xs → a ∈ ys) → lacking ys xs ≡ []
lacking-none [] ys h = refl
lacking-none (x ∷ xs) ys h =
    rw (in→contains ys x (h x (inl refl))) (lacking-none xs ys (λ a m. h a (inr m)))

difference-none :
    (xs ys : List String)
    → ((a : String) → a ∈ xs → a ∈ ys)
    → is_empty (sorted_difference xs ys) ≡ true
unfolding sorted_difference sorted_set
difference-none xs ys h = rw (lacking-none xs ys h)

module _ (path : String) (findings lines : List String) where
  compare_code : ((compare path findings lines).code ≡ 0) ↔ (
      (same_texts lines (sorted_set lines) ≡ true)
      × (is_empty (sorted_difference findings lines) ≡ true)
      × (is_empty (sorted_difference lines findings) ≡ true))
  unfolding compare
  compare_code = (λ h. ground arith, λ h. ground arith)

  -- The check passes exactly if the baseline's lines ascend, so that none stands there twice, and they
  -- are the findings.
  pub compare-code_iff :
      ((compare path findings lines).code ≡ 0)
      ↔ (Ascending lines × ((a : String) → (a ∈ lines) ↔ (a ∈ findings)))
  compare-code_iff = (
    λ h.
        let (s, i, r) = compare_code.0 h in
        (
          (sorted_set-fixed_iff lines).0 ((same_texts_iff lines (sorted_set lines)).0 s),
          λ a. (included lines findings r a, included findings lines i a),
        ),
    λ (s, m). compare_code.1 (
      (same_texts_iff lines (sorted_set lines)).1 ((sorted_set-fixed_iff lines).1 s),
      difference-none findings lines (λ a. (m a).1),
      difference-none lines findings (λ a. (m a).0),
    ),
  )
