-- ===== src/ServiceCatalog/CarveOuts/Exposure.antt =====
-- What the paths that a private route exposes have to do with the declared ones.
pub mod Exact
use home_server.Common.{
  ◌∈◌, in-append, in-flat_map, contains, ℕ, suc, String, str_eq, eq_refl, ◌≡◌, ◌≢◌, ◌↔◌, refl, ap,
  ap₂, ◌∙◌, inl, inr, Bool-cases, true, false, if◌then◌else◌, any, is_empty, List, [], ◌∷◌, ◌++◌,
  flat_map, ok,
}
use home_server.Json.{Value, str, eq_str, eq_str→≡, holds_str}
use home_server.ServiceCatalog.Checks.{
  pure, done, clean_bind, clean_prepend, result_of_pure, clean_each, each_clean, ◌>>=◌,
}
use home_server.ServiceCatalog.Routes.{Rule}
use home_server.ServiceCatalog.CarveOuts.{
  exposed_path, exposed_paths, ungated_rule, ungated_rules, unrendered, carve_outs,
}
use home_server.ServiceCatalog.CarveOuts.Exposure.Exact.{
  holds_str→in, in→holds_str, any→in, in→any, Ungated, Exposed, IsExact,
}

module _ (render : Value → String) (hostname : String) (m : String) (declared : List Value) where
  abbrev AllDeclared : List String → Type 0
  AllDeclared values = (p : String) → p ∈ values → str p ∈ declared

  clean_path :
      (index : ℕ) (p : String) (us : List String)
      → exposed_path render hostname (str m) declared index p ≡ ok ([], us)
      → (p ∷ [] ≡ us) × (str p ∈ declared)
  unfolding exposed_path
  clean_path index p us h = elim (Bool-cases (holds_str declared p)) [
    | inl e ↦ let run : pure (p ∷ []) ≡ ok ([], us) = rw e at h in (cc, holds_str→in declared p e)
    | inr e ↦ cc (rw e at h)
  ]

  clean_paths :
      (index : ℕ) (values us : List String)
      → exposed_paths render hostname (str m) declared index values ≡ ok ([], us)
      → (values ≡ us) × AllDeclared values
  unfolding exposed_paths
  clean_paths index [] us h = (cc, λ p n. absurd n)
  clean_paths index (value ∷ values) us h =
      let (here, first, rest) = clean_bind _ _ us h in
      let (there, others, last) = clean_bind _ _ us rest in
      let (one, declares) = clean_path index value here first in
      let (same, all) = clean_paths index values there others in
      (
        ap₂ (λ (a b : List String). a ++ b) one same ∙ result_of_pure _ us last,
        λ p n. elim n [ inl e ↦ rw (← e) declares | inr k ↦ all p k ],
      )

  paths_clean :
      (index : ℕ) (values : List String)
      → AllDeclared values
      → exposed_paths render hostname (str m) declared index values ≡ ok ([], values)
  unfolding exposed_paths exposed_path ◌>>=◌
  paths_clean index [] h = refl
  paths_clean index (value ∷ values) h = rw (
    in→holds_str declared value (h value (inl refl)),
    paths_clean index values (λ p n. h p (inr n)),
  )

  clean_rule :
      (index : ℕ) (rule : Rule) (us : List String)
      → ungated_rule render hostname (str m) declared index rule ≡ ok ([], us)
      → (rule.paths ≡ us) × (rule.paths ≢ []) × AllDeclared rule.paths
  unfolding ungated_rule
  clean_rule index rule us h = elim (Bool-cases (is_empty declared)) [
    | inl e ↦ cc (rw e at h)
    | inr e ↦ elim (Bool-cases (is_empty rule.paths)) [
      | inl f ↦ cc (rw (e, f) at h)
      | inr f ↦
          let (same, all) = clean_paths index rule.paths us (rw (e, f) at h) in
          (same, λ none. cc (ap is_empty none), all)
    ]
  ]

  rule_clean :
      (index : ℕ) (rule : Rule)
      → rule.paths ≢ []
      → AllDeclared rule.paths
      → ungated_rule render hostname (str m) declared index rule ≡ ok ([], rule.paths)
  unfolding ungated_rule
  rule_clean index rule n all =
      let (p, i) = element rule.paths n in
      rw (occupied declared (str p) (all p i), not_blank rule.paths n)
        (paths_clean index rule.paths all)
    where
      element : (xs : List String) → xs ≢ [] → (x : String) × (x ∈ xs)
      element [] n = absurd (n refl)
      element (x ∷ xs) n = (x, inl refl)

      not_blank : (xs : List String) → xs ≢ [] → is_empty xs ≡ false
      not_blank [] n = absurd (n refl)
      not_blank (x ∷ xs) n = refl

      occupied : (vs : List Value) (v : Value) → v ∈ vs → is_empty vs ≡ false
      occupied [] v i = absurd i
      occupied (w ∷ vs) v i = refl

  -- The paths that the rules expose.
  abbrev open_paths : Rule → List String
  open_paths rule = if contains rule.filters m then [] else rule.paths

  step_rules :
      (index : ℕ) (rule : Rule) (rules : List Rule) (us : List String)
      → ungated_rules render hostname (str m) declared index (rule ∷ rules) ≡ ok ([], us)
      → (here there : List String) × ((if contains rule.filters m
            then pure []
            else ungated_rule render hostname (str m) declared index rule)
          ≡ ok ([], here))
        × (ungated_rules render hostname (str m) declared (suc index) rules ≡ ok ([], there))
        × (here ++ there ≡ us)
  unfolding ungated_rules ◌>>=◌
  step_rules index rule rules us h =
      let (here, runs, second) = clean_bind _ _ us (clean_prepend _ us h) in
      let (there, others, last) = clean_bind _ _ us second in
      (here, there, runs, others, result_of_pure _ us last)

  clean_rules :
      (index : ℕ) (rules : List Rule) (us : List String)
      → ungated_rules render hostname (str m) declared index rules ≡ ok ([], us)
      → (flat_map open_paths rules ≡ us)
        × ((rule : Rule)
            → rule ∈ rules
            → Ungated m rule
            → (rule.paths ≢ []) × AllDeclared rule.paths)
  unfolding ungated_rules ◌>>=◌
  clean_rules index [] us h = (cc, λ rule i. absurd i)
  clean_rules index (rule ∷ rules) us h =
      let (here, there, runs, others, whole) = step_rules index rule rules us h in
      let (same, all) = clean_rules (suc index) rules there others in
      elim (Bool-cases (contains rule.filters m)) [
        | inl e ↦
            let none : [] ≡ here = result_of_pure _ here (rw e at runs) in
            let rest : there ≡ us = rw (← none) at whole in
            (rw e (same ∙ rest), λ r i g. elim i [ inl f ↦ cc | inr n ↦ all r n g ])
        | inr e ↦
            let (mine, some_path, declares) = clean_rule index rule here (rw e at runs) in
            (
              rw e (ap₂ (λ (a b : List String). a ++ b) mine same ∙ whole),
              λ r i g. elim i [ inl f ↦ rw (← f) (some_path, declares) | inr n ↦ all r n g ],
            )
      ]

  rules_clean :
      (index : ℕ) (rules : List Rule)
      → ((rule : Rule) → rule ∈ rules → Ungated m rule → (rule.paths ≢ []) × AllDeclared rule.paths)
      → ungated_rules render hostname (str m) declared index rules
        ≡ ok ([], flat_map open_paths rules)
  unfolding ungated_rules ◌>>=◌
  rules_clean index [] h = refl
  rules_clean index (rule ∷ rules) h =
      let rest = rules_clean (suc index) rules (λ r i. h r (inr i)) in
      elim (Bool-cases (contains rule.filters m)) [
        | inl e ↦ rw (e, rest)
        | inr e ↦ let (n, all) = h rule (inl refl) e in rw (e, rule_clean index rule n all, rest)
      ]

  in-open_paths :
      (p : String) (rules : List Rule) → p ∈ flat_map open_paths rules → Exposed m rules p
  in-open_paths p [] i = absurd i
  in-open_paths p (rule ∷ rules) i =
      elim (in-append p (open_paths rule) (flat_map open_paths rules) i) [
        | inl here ↦ elim (Bool-cases (contains rule.filters m)) [
          | inl e ↦ absurd (rw e at here)
          | inr e ↦ (rule, inl refl, e, rw e at here)
        ]
        | inr there ↦ let (r, n, g, k) = in-open_paths p rules there in (r, inr n, g, k)
      ]

  open_paths-in :
      (p : String) (rules : List Rule) → Exposed m rules p → p ∈ flat_map open_paths rules
  open_paths-in p rules (rule, i, g, k) = in-flat_map open_paths p rule rules i (rw g k)

  clean_unrendered :
      (us : List String) (v : Value)
      → unrendered render hostname (str m) declared us v ≡ done
      → (p : String) × (v ≡ str p) × (p ∈ us)
  unfolding unrendered
  clean_unrendered us v h = elim (Bool-cases (any (eq_str v) us)) [
    | inl e ↦ any→in v us e
    | inr e ↦ cc (rw e at h)
  ]

  unrendered_clean :
      (us : List String) (p : String)
      → p ∈ us
      → unrendered render hostname (str m) declared us (str p) ≡ done
  unfolding unrendered
  unrendered_clean us p i = rw (in→any p us i)

module _ (render : Value → String) (hostname : String) (m : String) (rules : List Rule)
    (declared : List Value) where
  IsExact-of_clean :
      carve_outs render hostname (str m) rules declared ≡ done → IsExact m rules declared
  unfolding carve_outs
  IsExact-of_clean h =
      let (us, first, rest) =
        clean_bind (ungated_rules render hostname (str m) declared 0 rules) _ tt h in
      let (same, guarded) = clean_rules render hostname m declared 0 rules us first in
      record {
        bounded = λ rule i g. (guarded rule i g).0;
        intended = λ p x. let (rule, i, g, k) = x in (guarded rule i g).1 p k;
        rendered = λ v i.
            let (p, text, k) =
              clean_unrendered render hostname m declared us v (clean_each _ declared rest v i) in
            (p, text, in-open_paths render hostname m declared p rules (rw same k));
      }

  clean-of_IsExact :
      IsExact m rules declared → carve_outs render hostname (str m) rules declared ≡ done
  unfolding carve_outs ◌>>=◌
  clean-of_IsExact x =
      rw
        (rules_clean render hostname m declared 0 rules
          (λ rule i g. (x.bounded rule i g, λ p k. x.intended p (rule, i, g, k))))
        (rw (
          each_clean
            (unrendered render hostname (str m) declared
              (flat_map (open_paths render hostname m declared) rules))
            declared
            (λ v i.
              let (p, text, e) = x.rendered v i in
              rw text (
                unrendered_clean render hostname m declared _ p
                  (open_paths-in render hostname m declared p rules e)))))

  -- The check of a private route has no error exactly when each rule without the access middleware
  -- names a path, and the paths that such rules name are the declared ones, each of which is a text.
  pub carve_outs-IsExact_iff :
      (carve_outs render hostname (str m) rules declared ≡ done) ↔ IsExact m rules declared
  carve_outs-IsExact_iff = (IsExact-of_clean, clean-of_IsExact)
