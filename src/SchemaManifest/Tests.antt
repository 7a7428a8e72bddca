-- ===== src/SchemaManifest/Tests.antt =====
-- A list that holds a Secret, prepared and written, and a manifest without resources.
use home_server.Common.{
  String, ◌≡◌, refl, inl, inr, [], ◌∷◌, none, some, ok, raise, manifest_error, type_error, Py, ℕ,
  List, Option,
}
use home_server.Json.{Value, Fields, null, str, arr, obj, nil, get, get_or, to_items, to_fields}
use home_server.YamlDocuments.Objects.{whole, inside}
use home_server.SchemaManifest.{
  data_placeholder, string_placeholder, sanitize_secret, prepare, main,
}
use home_server.SchemaManifest.Blanked.{IsBlanked}
use home_server.SchemaManifest.Documents.{prepare-IsBlanked}

abbrev payload : String → String → Fields
payload a b = to_fields (
    ("kind", str "Secret")
    ∷ ("data", obj (to_fields (("k", str a) ∷ [])))
    ∷ ("stringData", obj (to_fields (("t", str b) ∷ [])))
    ∷ [])

abbrev secret : Fields
secret = to_fields (
    ("kind", str "Secret")
    ∷ ("data", obj (to_fields (("k", str "c2VjcmV0") ∷ [])))
    ∷ ("stringData", obj (to_fields (("t", str "open") ∷ [])))
    ∷ ("sops", obj (to_fields (("mac", str "m") ∷ [])))
    ∷ [])

abbrev listing : Fields → Fields
listing o =
    to_fields (("kind", str "SecretList") ∷ ("items", arr (to_items (str "x" ∷ obj o ∷ []))) ∷ [])

abbrev clean : Fields
clean = payload data_placeholder string_placeholder

prepared : prepare (obj (listing secret)) ≡ ok (obj (listing clean))
unfolding prepare sanitize_secret get get_or
prepared = refl

prepare-IsBlanked_example : IsBlanked clean
unfolding get get_or
prepare-IsBlanked_example =
    prepare-IsBlanked clean (obj (listing secret)) (obj (listing clean)) prepared
      (inside (listing clean) (to_items (str "x" ∷ obj clean ∷ [])) (obj clean) refl refl
        (inr (inl refl)) whole)
      refl

abbrev no_text : Value → String
no_text w = "{}"

abbrev run : Py (List Value) → Py (ℕ × List String) × Option String
unfolding main
run documents = main no_text "prepare.py" (λ path. documents) ("a.yaml" ∷ "b" ∷ [])

two_documents :
    run (ok (null ∷ obj secret ∷ str "x" ∷ []))
    ≡ (ok (0, "Prepared 2 resource(s) for schema validation at b." ∷ []), some "{}\n---\n{}\n")
unfolding run
two_documents = refl

no_documents : run (ok (null ∷ [])) ≡ (
  ok (
    1,
    "::error file=a.yaml,title=Cluster validation::rendered manifest contains no resources" ∷ [],
  ),
  some "",
)
unfolding run
no_documents = refl

-- The first document is written, and the kind of the second has no hash.
cut_short :
    run (ok (str "x" ∷ obj (to_fields (("kind", arr nil) ∷ [])) ∷ []))
    ≡ (raise type_error, some "{}\n")
unfolding run get get_or
cut_short = refl

unread :
    run (raise (manifest_error "bad"))
    ≡ (ok (1, "::error file=a.yaml,title=Cluster validation::bad" ∷ []), none)
unfolding run
unread = refl

without_arguments :
    main no_text "prepare.py" (λ path. ok []) ("a.yaml" ∷ [])
    ≡ (ok (2, "usage: prepare.py RENDERED_MANIFEST OUTPUT" ∷ []), none)
unfolding main
without_arguments = refl
