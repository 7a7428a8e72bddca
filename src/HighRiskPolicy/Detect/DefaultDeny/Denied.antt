-- ===== src/HighRiskPolicy/Detect/DefaultDeny/Denied.antt =====
-- What a default-deny policy is, in the words of the Kubernetes API.
use home_server.Common.{
  ◌∈◌, String, ◌≡◌, refl, sym, ap, ◌∙◌, inl, inr, Bool, Bool-cases, true, false, not, ◌&&◌, all,
  List, [], ◌∷◌, Option, none, some, ok, returned_by_bind, ok-injective, ◌>>=◌,
}
use home_server.Json.{
  Value, Fields, Items, null, bool, int, real, str, arr, obj, get, items, as_dict, as_list, as_str,
  eq_str, eq_str→≡, holds_str, truthy,
}
use home_server.HighRiskPolicy.Network.{selector_is_universal}
use home_server.HighRiskPolicy.Pods.{add_if}
use home_server.HighRiskPolicy.Detect.{is_hashable, names_both, denies_by_default, default_deny_of}

-- A NetworkPolicy `default-deny` of the namespace that selects every pod, is for ingress and for egress,
-- and lets no traffic through.
pub record IsDefaultDeny (policy : Fields) (namespace : String) : Type 0 where
  pub kind : get "kind" policy ≡ str "NetworkPolicy"
  pub metadata : Fields
  pub described : get "metadata" policy ≡ obj metadata
  pub named : get "name" metadata ≡ str "default-deny"
  pub scoped : get "namespace" metadata ≡ str namespace
  pub spec : Fields
  pub specified : get "spec" policy ≡ obj spec
  pub selector : Fields
  pub selects : get "podSelector" spec ≡ obj selector
  pub any_label : truthy (get "matchLabels" selector) ≡ false
  pub any_expression : truthy (get "matchExpressions" selector) ≡ false
  pub types : Items
  pub typed : get "policyTypes" spec ≡ arr types
  pub ingress : str "Ingress" ∈ items types
  pub egress : str "Egress" ∈ items types
  pub no_ingress : truthy (get "ingress" spec) ≡ false
  pub no_egress : truthy (get "egress" spec) ≡ false

both_true : (a b : Bool) → (a && b) ≡ true → (a ≡ true) × (b ≡ true)
both_true true b h = (refl, h)
both_true false b h = cc

off : (b : Bool) → not b ≡ true → b ≡ false
off true h = cc
off false h = refl

holds_str-in : (vs : List Value) (s : String) → holds_str vs s ≡ true → str s ∈ vs
holds_str-in [] s h = cc
holds_str-in (v ∷ vs) s h = elim (Bool-cases (eq_str v s)) [
  | inl e ↦ inl (eq_str→≡ v s e)
  | inr e ↦ inr (holds_str-in vs s (rw e at h))
]

universal :
    (v : Value)
    → selector_is_universal v ≡ true
    → (selector : Fields) × (v ≡ obj selector)
      × (truthy (get "matchLabels" selector) ≡ false)
      × (truthy (get "matchExpressions" selector) ≡ false)
unfolding selector_is_universal
universal (obj selector) h =
    let (a, b) = both_true (not (truthy (get "matchLabels" selector))) _ h in
    (selector, refl, off _ a, off _ b)
universal null h = cc
universal (bool b) h = cc
universal (int n) h = cc
universal (real t) h = cc
universal (str s) h = cc
universal (arr vs) h = cc

names_both-holds :
    (types : List Value)
    → names_both types ≡ ok true
    → (holds_str types "Ingress" && holds_str types "Egress") ≡ true
names_both-holds types h = elim (Bool-cases (all is_hashable types)) [
  | inl e ↦ ok-injective (rw e at h)
  | inr e ↦ cc (rw e at h)
]

as_list-arr :
    (v : Value) (types : List Value)
    → as_list v ≡ some types
    → (vs : Items) × (v ≡ arr vs) × (items vs ≡ types)
as_list-arr (arr vs) types h = (vs, refl, cc)
as_list-arr null types h = cc
as_list-arr (bool b) types h = cc
as_list-arr (int n) types h = cc
as_list-arr (real t) types h = cc
as_list-arr (str s) types h = cc
as_list-arr (obj fs) types h = cc

denied :
    (policy metadata spec : Fields) (namespace : String)
    → get "kind" policy ≡ str "NetworkPolicy"
    → get "metadata" policy ≡ obj metadata
    → get "namespace" metadata ≡ str namespace
    → get "spec" policy ≡ obj spec
    → denies_by_default metadata spec ≡ ok true
    → IsDefaultDeny policy namespace
unfolding denies_by_default
denied policy metadata spec namespace kind described scoped specified h =
    let named = eq_str (get "name" metadata) "default-deny" in
    let selects = selector_is_universal (get "podSelector" spec) in
    elim (Bool-cases (named && selects)) [
      | inr e ↦ cc (rw e at h)
      | inl e ↦
          let (name, all_pods) = both_true named selects e in
          let (selector, same, labels, expressions) = universal (get "podSelector" spec) all_pods in
          of_types name selector same labels expressions (as_list (get "policyTypes" spec)) refl
            (rw e at h)
    ]
  where
    of_types :
        eq_str (get "name" metadata) "default-deny" ≡ true
        → (selector : Fields) → get "podSelector" spec ≡ obj selector
        → truthy (get "matchLabels" selector) ≡ false
        → truthy (get "matchExpressions" selector) ≡ false
        → (o : Option (List Value)) → as_list (get "policyTypes" spec) ≡ o
        → (elim o [
          | none ↦ ok false
          | some types ↦ names_both types >>= λ both.
              ok (both && (not (truthy (get "ingress" spec)) && not (truthy (get "egress" spec))))
        ])
          ≡ ok true
        → IsDefaultDeny policy namespace
    of_types name selector same labels expressions none listed h = cc
    of_types name selector same labels expressions (some types) listed h =
        let (both, last, run) = returned_by_bind _ (names_both types) true (sym h) in
        let (named_both, closed) = both_true both _ (ok-injective last) in
        let (no_in, no_out) = both_true (not (truthy (get "ingress" spec))) _ closed in
        let named = names_both-holds types (run ∙ ap (λ (b : Bool). ok b) named_both) in
        let (to, from) = both_true (holds_str types "Ingress") _ named in
        let (vs, typed, values) = as_list-arr (get "policyTypes" spec) types listed in
        record {
          kind = kind;
          metadata = metadata;
          described = described;
          named = eq_str→≡ (get "name" metadata) "default-deny" name;
          scoped = scoped;
          spec = spec;
          specified = specified;
          selector = selector;
          selects = same;
          any_label = labels;
          any_expression = expressions;
          types = vs;
          typed = typed;
          ingress = rw values (holds_str-in types "Ingress" to);
          egress = rw values (holds_str-in types "Egress" from);
          no_ingress = off _ no_in;
          no_egress = off _ no_out;
        }

-- The namespaces for which an object counts as a default-deny policy are those that it denies.
pub default_deny_of-IsDefaultDeny :
    (policy : Fields) (namespaces : List String) (namespace : String)
    → default_deny_of policy ≡ ok namespaces
    → namespace ∈ namespaces
    → IsDefaultDeny policy namespace
unfolding default_deny_of
default_deny_of-IsDefaultDeny policy namespaces namespace h m =
    elim (Bool-cases (eq_str (get "kind" policy) "NetworkPolicy")) [
      | inr e ↦ absurd (rw (← ok-injective (rw e at h)) at m)
      | inl e ↦
          of_parts (eq_str→≡ (get "kind" policy) "NetworkPolicy" e) (get "metadata" policy) refl
            (get "spec" policy) refl (rw e at h)
    ]
  where
    of_namespace :
        (metadata spec : Fields) (v : Value)
        → get "kind" policy ≡ str "NetworkPolicy"
        → get "metadata" policy ≡ obj metadata
        → get "spec" policy ≡ obj spec
        → get "namespace" metadata ≡ v
        → (elim (as_str v) [
          | none ↦ ok []
          | some name ↦ denies_by_default metadata spec >>= λ valid. ok (add_if valid name)
        ])
          ≡ ok namespaces
        → IsDefaultDeny policy namespace
    of_namespace metadata spec (str name) kind described specified scoped h =
        let (valid, last, run) =
          returned_by_bind _ (denies_by_default metadata spec) namespaces (sym h) in
        let added : namespace ∈ add_if valid name = rw (ok-injective last) m in
        judged valid run added
      where
        judged :
            (valid : Bool)
            → denies_by_default metadata spec ≡ ok valid
            → namespace ∈ add_if valid name
            → IsDefaultDeny policy namespace
        judged true run (inl e) =
            denied policy metadata spec namespace kind described (scoped ∙ ap str e) specified run
        judged true run (inr n) = absurd n
        judged false run n = absurd n
    of_namespace metadata spec _ kind described specified scoped h =
        absurd (rw (← ok-injective h) at m)

    of_parts :
        get "kind" policy ≡ str "NetworkPolicy"
        → (v : Value) → get "metadata" policy ≡ v
        → (u : Value) → get "spec" policy ≡ u
        → (elim (as_dict v) [
          | none ↦ ok []
          | some metadata ↦ elim (as_dict u) [
            | none ↦ ok []
            | some spec ↦ elim (as_str (get "namespace" metadata)) [
              | none ↦ ok []
              | some name ↦ denies_by_default metadata spec >>= λ valid. ok (add_if valid name)
            ]
          ]
        ])
          ≡ ok namespaces
        → IsDefaultDeny policy namespace
    of_parts kind (obj metadata) described (obj spec) specified h =
        of_namespace metadata spec (get "namespace" metadata) kind described specified refl h
    of_parts kind (obj metadata) described _ specified h = absurd (rw (← ok-injective h) at m)
    of_parts kind _ described _ specified h = absurd (rw (← ok-injective h) at m)
