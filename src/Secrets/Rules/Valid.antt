-- ===== src/Secrets/Rules/Valid.antt =====
-- What holds of the creation rules that are loaded.
use home_server.Common.{
  ℕ, suc, String, ◌≡◌, refl, sym, true, false, not, ◌||◌, Bool-cases, inl, inr, List, [], ◌∷◌, any,
  is_empty, Option, none, some, Py, ok, returned_by_bind, arith,
}
use home_server.Common.Regex.{matches}
use home_server.Json.{Value, Items, Fields, str, arr, obj, nil, cons, get, as_str, eq_str}
use home_server.Secrets.Rules.{
  Rule, age_recipient, checked_recipients, compiled_rule, rule_with, rule_of, rules_from,
  load_creation_rules, rules_of, one_document, parse_age_values,
}

-- A rule is made from a mapping that has a path's regular expression, the required `encrypted_regex`, and
-- recipients that are all age public keys.
pub record IsMadeFrom (compile_error : String → Option String) (v : Value) (r : Rule) : Type 0 where
  pub rule : Fields
  pub mapping : v ≡ obj rule
  pub named : get "path_regex" rule ≡ str r.path_regex
  pub compiles : compile_error r.path_regex ≡ none
  pub recipients : r.recipients ≡ parse_age_values (get "age" rule)
  pub some_recipient : is_empty r.recipients ≡ false
  pub well_formed : any (λ k. not (matches age_recipient k)) r.recipients ≡ false
  pub regex : eq_str (get "encrypted_regex" rule) "^(data|stringData)$" ≡ true

-- The rules are made from the values, one from each and in their order.
pub data AreMadeFrom (compile_error : String → Option String) : Items → List Rule → Type 0 where
  no_rule : AreMadeFrom compile_error nil []
  one_more :
      {v : Value} {vs : Items} {r : Rule} {rs : List Rule}
      → IsMadeFrom compile_error v r
      → AreMadeFrom compile_error vs rs
      → AreMadeFrom compile_error (cons v vs) (r ∷ rs)

-- The one document of a configuration is a mapping with a list of rules, which is not empty.
pub record IsConfiguration (compile_error : String → Option String) (documents : List Value)
    (rules : List Rule) : Type 0 where
  pub configuration : Fields
  pub single : documents ≡ obj configuration ∷ []
  pub first : Value
  pub others : Items
  pub listed : get "creation_rules" configuration ≡ arr (cons first others)
  pub made : AreMadeFrom compile_error (cons first others) rules

module _ (compile_error : String → Option String) (path : String) where
  checked-IsMadeFrom :
      (index : ℕ) (rule : Fields) (regex : String) (r : Rule)
      → get "path_regex" rule ≡ str regex
      → compile_error regex ≡ none
      → checked_recipients compile_error path index rule regex (parse_age_values (get "age" rule))
        ≡ ok r
      → IsMadeFrom compile_error (obj rule) r
  unfolding checked_recipients
  checked-IsMadeFrom index rule regex r named compiles h =
      let keys = parse_age_values (get "age" rule) in
      elim (Bool-cases (is_empty keys || any (λ k. not (matches age_recipient k)) keys)) [
        | inl e ↦ cc (rw e at h)
        | inr e ↦ elim (Bool-cases (eq_str (get "encrypted_regex" rule) "^(data|stringData)$")) [
          | inl f ↦
              let same : record { path_regex = regex; recipients = keys } ≡ r =
                cc (rw (e, f) at h) in
              rw (← same) (record {
                rule = rule;
                mapping = refl;
                named = named;
                compiles = compiles;
                recipients = refl;
                some_recipient = ground arith;
                well_formed = ground arith;
                regex = f;
              })
          | inr f ↦ cc (rw (e, f) at h)
        ]
      ]

  compiled-IsMadeFrom :
      (index : ℕ) (rule : Fields) (regex : String) (o : Option String) (r : Rule)
      → get "path_regex" rule ≡ str regex
      → compile_error regex ≡ o
      → compiled_rule compile_error path index rule regex o ≡ ok r
      → IsMadeFrom compile_error (obj rule) r
  unfolding compiled_rule
  compiled-IsMadeFrom index rule regex (some error) r named compiles h = cc
  compiled-IsMadeFrom index rule regex none r named compiles h =
      checked-IsMadeFrom index rule regex r named compiles h

  rule_with-IsMadeFrom :
      (index : ℕ) (rule : Fields) (v : Value) (r : Rule)
      → get "path_regex" rule ≡ v
      → rule_with compile_error path index rule (as_str v) ≡ ok r
      → IsMadeFrom compile_error (obj rule) r
  unfolding rule_with
  rule_with-IsMadeFrom index rule (str regex) r named h =
      compiled-IsMadeFrom index rule regex (compile_error regex) r named refl h
  rule_with-IsMadeFrom index rule _ r named h = cc

  rule_of-IsMadeFrom :
      (index : ℕ) (v : Value) (r : Rule)
      → rule_of compile_error path index v ≡ ok r
      → IsMadeFrom compile_error v r
  unfolding rule_of
  rule_of-IsMadeFrom index (obj rule) r h =
      rule_with-IsMadeFrom index rule (get "path_regex" rule) r refl h
  rule_of-IsMadeFrom index _ r h = cc

  rules_from-AreMadeFrom :
      (index : ℕ) (vs : Items) (rules : List Rule)
      → rules_from compile_error path index vs ≡ ok rules
      → AreMadeFrom compile_error vs rules
  unfolding rules_from
  rules_from-AreMadeFrom index nil [] h = no_rule
  rules_from-AreMadeFrom index nil (r ∷ rules) h = cc
  rules_from-AreMadeFrom index (cons v vs) rules h =
      let (rule, rest, one) =
        returned_by_bind _ (rule_of compile_error path index v) rules (sym h) in
      let (others, last, more) =
        returned_by_bind _ (rules_from compile_error path (suc index) vs) rules (sym rest) in
      let whole : rule ∷ others ≡ rules = cc in
      rw (← whole) (
        one_more (rule_of-IsMadeFrom index v rule one)
          (rules_from-AreMadeFrom (suc index) vs others more))

  rules_of-IsConfiguration :
      (configuration : Fields) (v : Value) (rules : List Rule)
      → get "creation_rules" configuration ≡ v
      → rules_of compile_error path v ≡ ok rules
      → IsConfiguration compile_error (obj configuration ∷ []) rules
  unfolding rules_of
  rules_of-IsConfiguration configuration (arr (cons v vs)) rules listed h = record {
    configuration = configuration;
    single = refl;
    first = v;
    others = vs;
    listed = listed;
    made = rules_from-AreMadeFrom 0 (cons v vs) rules h;
  }
  rules_of-IsConfiguration configuration _ rules listed h = cc

  one_document-IsConfiguration :
      (documents : List Value) (rules : List Rule)
      → one_document compile_error path documents ≡ ok rules
      → IsConfiguration compile_error documents rules
  unfolding one_document
  one_document-IsConfiguration (obj configuration ∷ []) rules h =
      rules_of-IsConfiguration configuration (get "creation_rules" configuration) rules refl h
  one_document-IsConfiguration _ rules h = cc

  -- Rules are given only by a configuration that loads as one mapping whose `creation_rules` are a list
  -- that is not empty, and they are made from its elements in order: each element is a mapping with a
  -- regular expression that compiles, the required `encrypted_regex`, and recipients that are all age
  -- public keys, at least one, which are the rule's.
  pub load_creation_rules-IsValid :
      (documents : Py (List Value)) (rules : List Rule)
      → load_creation_rules compile_error path documents ≡ ok rules
      → (ds : List Value) × (documents ≡ ok ds) × IsConfiguration compile_error ds rules
  unfolding load_creation_rules
  load_creation_rules-IsValid documents rules h =
      let (ds, judged, loaded) =
        returned_by_bind (one_document compile_error path) documents rules (sym h) in
      (ds, loaded, one_document-IsConfiguration ds rules judged)
