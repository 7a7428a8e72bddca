-- ===== src/GitSourcePins/Pinned.antt =====
-- What holds of the sources of a manifest that passes.
use home_server.Common.{
  ◌∈◌, collected, returned_by_bind, String, str_eq, eq_iff, ◌≡◌, refl, sym, inl, inr, true,
  Bool-cases, List, [], ◌∷◌, Py, ok, raise, provider_error, manifest_error, catalog_error,
  runtime_error, value_error, type_error, attribute_error, key_error, os_error, ◌>>=◌, flat_map_py,
}
use home_server.Common.Regex.{matches}
use home_server.Json.{Value, Fields, str, get}
use home_server.YamlDocuments.{iter_kubernetes_objects}
use home_server.YamlDocuments.Objects.{Nested, iter_kubernetes_objects_iff}
use home_server.HighRiskPolicy.Patterns.{full_git_commit}
use home_server.HighRiskPolicy.Pods.{field_of}
use home_server.GitSourcePins.{
  Library, resolve_remote_tag, resolved_errors, tagged_errors, is_flux_source, source_errors,
  source_identity, validate,
}

-- The URL and the commit are texts, the commit is a full one, and the tag resolves to it.
pub record IsPinned (lib : Library) (tag : String) (url commit : Value) : Type 0 where
  pub url_text : String
  pub commit_text : String
  pub url_is : url ≡ str url_text
  pub commit_is : commit ≡ str commit_text
  pub full : matches full_git_commit commit_text ≡ true
  pub resolves : resolve_remote_tag lib url_text tag ≡ ok (lib.lower commit_text)

nothing_in : {A : Type 0} (xs : List A) → ((a : A) → a ∈ xs → a ∈ []) → xs ≡ []
nothing_in [] h = refl
nothing_in (x ∷ xs) h = absurd (h x (inl refl))

module _ (lib : Library) (source tag : String) where
  same_revision :
      (commit : String) (r : Py String)
      → resolved_errors lib source tag commit r ≡ ok []
      → r ≡ ok (lib.lower commit)
  unfolding resolved_errors
  same_revision commit (ok revision) h = elim (Bool-cases (str_eq revision (lib.lower commit))) [
    | inl e ↦
        let same : revision ≡ lib.lower commit = (eq_iff revision (lib.lower commit)).0 e in rw same
    | inr e ↦ cc (rw e at h)
  ]
  same_revision commit (raise (value_error message)) h = cc
  same_revision commit (raise (provider_error m)) h = cc
  same_revision commit (raise (manifest_error m)) h = cc
  same_revision commit (raise (catalog_error m)) h = cc
  same_revision commit (raise (runtime_error m)) h = cc
  same_revision commit (raise type_error) h = cc
  same_revision commit (raise attribute_error) h = cc
  same_revision commit (raise key_error) h = cc
  same_revision commit (raise os_error) h = cc

  tagged-IsPinned :
      (url commit : Value)
      → tagged_errors lib source tag url commit ≡ ok []
      → IsPinned lib tag url commit
  unfolding tagged_errors
  tagged-IsPinned (str u) (str c) h = elim (Bool-cases (matches full_git_commit c)) [
    | inl e ↦ record {
      url_text = u;
      commit_text = c;
      url_is = refl;
      commit_is = refl;
      full = e;
      resolves = same_revision c (resolve_remote_tag lib u tag) (rw e at h);
    }
    | inr e ↦ cc (rw e at h)
  ]
  tagged-IsPinned (str u) _ h = cc
  tagged-IsPinned _ c h = cc

module _ (lib : Library) (documents : List Value) (document : Value) (resource : Fields) where
  -- A check without errors found none on any object of the documents.
  no_errors_on :
      validate lib documents ≡ ok []
      → document ∈ documents
      → Nested resource document
      → source_errors lib resource ≡ ok []
  unfolding validate
  no_errors_on h m n =
      let body = λ (d : Value). iter_kubernetes_objects d >>= flat_map_py (source_errors lib) in
      let (errors, run, up) = collected body document documents [] h m in
      let none_here = nothing_in errors up in
      let (objects, rest, objects_run) =
        returned_by_bind (flat_map_py (source_errors lib)) (iter_kubernetes_objects document) errors
          (sym run) in
      let member = (iter_kubernetes_objects_iff document objects resource objects_run).1 n in
      let (own, judged, own_up) =
        collected (source_errors lib) resource objects errors rest member in
      let none_own = nothing_in own (λ a i. up a (own_up a i)) in rw none_own at judged

  -- In a manifest for which there is no error, each Flux source with a tag pins a full commit, and the
  -- tag of its URL resolves to that commit.
  pub validate-IsPinned :
      (tag : String)
      → validate lib documents ≡ ok []
      → document ∈ documents
      → Nested resource document
      → is_flux_source lib resource ≡ true
      → field_of "tag" (field_of "ref" (get "spec" resource)) ≡ str tag
      → IsPinned lib tag
          (field_of "url" (get "spec" resource))
          (field_of "commit" (field_of "ref" (get "spec" resource)))
  unfolding source_errors
  validate-IsPinned tag h m n flux tagged =
      tagged-IsPinned lib (source_identity lib resource) tag _ _
        (let e = no_errors_on h m n in rw (flux, tagged) at e)
