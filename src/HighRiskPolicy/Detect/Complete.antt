-- ===== src/HighRiskPolicy/Detect/Complete.antt =====
-- No finding of an object is lost on the way into `detect`'s set.
use home_server.Common.{
  ◌∈◌, in-append, in-append_left, in-flat_map, collected, collected_from, Bool-cases, ap,
  returned_by_bind, String, ◌≡◌, refl, sym, inl, inr, true, if◌then◌else◌, List, [], ◌∷◌, ◌++◌, map,
  flat_map, ok, flat_map_py,
}
use home_server.Json.{Value, Fields, get, truthy}
use home_server.YamlDocuments.{iter_kubernetes_objects}
use home_server.YamlDocuments.Objects.{Nested, iter_kubernetes_objects_iff}
use home_server.HighRiskPolicy.Texts.{Library}
use home_server.HighRiskPolicy.Resource.{resource_findings}
use home_server.HighRiskPolicy.Detect.{kinded, document_findings, default_deny_findings, detect}

in-kinded :
    (o : Fields) (objects : List Fields)
    → o ∈ objects
    → truthy (get "kind" o) ≡ true
    → o ∈ kinded objects
unfolding kinded
in-kinded o objects m k = in-flat_map _ o o objects m (rw k (inl refl))

module _ (lib : Library) (o : Fields) where
  -- An object of a document with a kind stands among the pairs of the document, with what the rules
  -- return on it.
  pub document_pair :
      (document : Value) (pairs : List (Fields × List String))
      → document_findings lib document ≡ ok pairs
      → Nested o document
      → truthy (get "kind" o) ≡ true
      → (found : List String) × (resource_findings lib o ≡ ok found) × ((o, found) ∈ pairs)
  unfolding document_findings
  document_pair document pairs h n k =
      let (objects, rest, run) =
        returned_by_bind _ (iter_kubernetes_objects document) pairs (sym h) in
      let member =
        in-kinded o objects ((iter_kubernetes_objects_iff document objects o run).1 n) k in
      let (pair, body, up) = collected _ o (kinded objects) pairs rest member in
      let (found, end, rules) = returned_by_bind _ (resource_findings lib o) pair (sym body) in
      let whole : (o, found) ∷ [] ≡ pair = cc in
      (found, rules, up (o, found) (rw (← whole) (inl refl)))

  kinded-in : (objects : List Fields) → o ∈ kinded objects → o ∈ objects
  unfolding kinded
  kinded-in [] m = m
  kinded-in (x ∷ objects) m =
      elim (in-append o (if truthy (get "kind" x) then x ∷ [] else []) (kinded objects) m) [
        | inl l ↦ elim (Bool-cases (truthy (get "kind" x))) [
          | inl e ↦ elim (rw e at l) [ inl same ↦ inl same | inr none_left ↦ absurd none_left ]
          | inr e ↦ absurd (rw e at l)
        ]
        | inr r ↦ inr (kinded-in objects r)
      ]

  -- Each pair of a document is of an object that stands in it.
  pub pair-Nested :
      (document : Value) (found : List String) (pairs : List (Fields × List String))
      → document_findings lib document ≡ ok pairs
      → (o, found) ∈ pairs
      → Nested o document
  unfolding document_findings
  pair-Nested document found pairs h m =
      let (objects, rest, run) =
        returned_by_bind _ (iter_kubernetes_objects document) pairs (sym h) in
      let (x, zs, i, body, j) = collected_from _ (o, found) (kinded objects) pairs rest m in
      let (judged, last, rules) = returned_by_bind _ (resource_findings lib x) zs (sym body) in
      let whole : zs ≡ (x, judged) ∷ [] = cc in
      let same : x ≡ o = elim (rw whole at j) [
        | inl e ↦ ap (λ (p : Fields × List String). p.0) e
        | inr none_left ↦ absurd none_left
      ] in
      (iter_kubernetes_objects_iff document objects o run).0 (kinded-in objects (rw same at i))

  -- If the scan comes to its end, then each object with a kind that stands in a document was judged, and
  -- all that the rules found on it is among the findings.
  pub detect-resource_findings :
      (documents : List Value) (findings : List String) (document : Value)
      → detect lib documents ≡ ok findings
      → document ∈ documents
      → Nested o document
      → truthy (get "kind" o) ≡ true
      → (found : List String) × (resource_findings lib o ≡ ok found)
        × ((a : String) → a ∈ found → a ∈ findings)
  unfolding detect
  detect-resource_findings documents findings document h m n k =
      let (all_pairs, rest, run) =
        returned_by_bind _ (flat_map_py (document_findings lib) documents) findings (sym h) in
      let (denied, last, policies) =
        returned_by_bind _
          (default_deny_findings lib.render (map (λ (p : Fields × List String). p.0) all_pairs))
          findings (sym rest) in
      let (pairs, scan, up) =
        collected (document_findings lib) document documents all_pairs run m in
      let (found, rules, i) = document_pair document pairs scan n k in
      let whole : flat_map (λ (p : Fields × List String). p.1) all_pairs ++ denied ≡ findings =
        cc in
      (
        found,
        rules,
        λ a j. rw (← whole) (
            in-append_left a _ denied (
              in-flat_map (λ (p : Fields × List String). p.1) a (o, found) all_pairs
                (up (o, found) i) j)),
      )
