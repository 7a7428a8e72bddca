-- ===== src/GitSourcePins.antt =====
-- scripts/ci/validate-git-source-pins.py: a tag of a Flux source resolves to the commit that is pinned.
pub mod Pinned
pub mod Tests
use home_server.Common.{
  ℕ, String, str_eq, concat, show, starts_with, ◌==◌, ◌||◌, ◌&&◌, not, if◌then◌else◌, Bool, true,
  false, List, [], ◌∷◌, ◌++◌, map, flat_map, is_empty, Option, none, some, Py, ok, raise,
  value_error, manifest_error, Error, ◌>>=◌, flat_map_py,
}
use home_server.Common.Lines.{splitlines, partition}
use home_server.Common.Regex.{matches}
use home_server.Json.{
  Value, Fields, str, get, get_or, as_dict, as_str, dict_or_empty, eq_str, str_of,
}
use home_server.YamlDocuments.{iter_kubernetes_objects, github_error}
use home_server.HighRiskPolicy.Patterns.{full_git_commit}
use home_server.HighRiskPolicy.Pods.{field_of}

-- What `git ls-remote` does: it takes more than 30 seconds, or it ends with a code and an output.
pub data LsRemote : Type 0 where
  expired : LsRemote
  completed : ℕ → String → LsRemote

-- `ls_remote url tag_ref peeled_ref` is the run of git; `render` is `str` of a list or a mapping, `repr`
-- that of a text with its quotes, and `lower` is `str.lower`.
pub record Library : Type 0 where
  pub ls_remote : String → String → String → LsRemote
  pub render : Value → String
  pub repr : String → String
  pub lower : String → String

-- revisions.get(ref): the last line with the reference counts
abbrev newer : Option String → Option String → Option String
newer none older = older
newer (some r) older = some r

module _ (lib : Library) where
  abbrev revision_of : String → String → Option String
  unfolding partition matches
  revision_of ref line = elim (partition b'\t' line) [
    | none ↦ none
    | some p ↦ if matches full_git_commit p.0 && str_eq p.1 ref then some (lib.lower p.0) else none
  ]

  unfoldable pub revision_in : String → List String → Option String
  unfolding revision_of
  revision_in ref [] = none
  revision_in ref (line ∷ lines) = newer (revision_in ref lines) (revision_of ref line)

  abbrev resolved : String → Option String → Option String → Py String
  unfolding concat
  resolved tag none none =
      raise (value_error (concat ("remote did not return tag " ∷ lib.repr tag ∷ [])))
  resolved tag none (some revision) = ok revision
  resolved tag (some revision) direct = ok revision

  abbrev read_output : String → String → String → LsRemote → Py String
  unfolding revision_in splitlines concat show
  read_output tag tag_ref peeled_ref expired =
      raise (value_error (concat ("timed out resolving tag " ∷ lib.repr tag ∷ [])))
  read_output tag tag_ref peeled_ref (completed code stdout) =
      if not (code == 0)
      then raise (
          value_error (
            concat (
              "could not resolve tag "
              ∷ lib.repr tag
              ∷ ": git ls-remote exited "
              ∷ show code
              ∷ [])))
      else resolved tag (revision_in peeled_ref (splitlines stdout))
          (revision_in tag_ref (splitlines stdout))

  unfoldable pub resolve_remote_tag : String → String → Py String
  unfolding read_output starts_with concat
  resolve_remote_tag url tag =
      if not (starts_with url "https://")
      then raise (value_error "only HTTPS Git source URLs can be verified")
      else (let tag_ref = concat ("refs/tags/" ∷ tag ∷ []) in
          let peeled_ref = concat (tag_ref ∷ "^{}" ∷ []) in
          read_output tag tag_ref peeled_ref (lib.ls_remote url tag_ref peeled_ref))

  unfoldable pub source_identity : Fields → String
  unfolding get get_or str_of concat
  source_identity document =
      let metadata = dict_or_empty (get "metadata" document) in
      concat (
        str_of lib.render (get_or "apiVersion" (str "unknown") document)
        ∷ "/"
        ∷ str_of lib.render (get_or "kind" (str "unknown") document)
        ∷ " "
        ∷ str_of lib.render (get_or "namespace" (str "default") metadata)
        ∷ "/"
        ∷ str_of lib.render (get_or "name" (str "unnamed") metadata)
        ∷ [])

  -- The errors of one tagged source, from the call of the resolver on; it may raise `ValueError`.
  unfoldable pub resolved_errors : String → String → String → Py String → Py (List String)
  unfolding concat
  resolved_errors source tag commit (ok revision) = ok (
      if str_eq revision (lib.lower commit)
      then []
      else concat (
          source
          ∷ ": tag "
          ∷ lib.repr tag
          ∷ " resolves to "
          ∷ revision
          ∷ ", not declared commit "
          ∷ lib.lower commit
          ∷ [])
        ∷ [])
  resolved_errors source tag commit (raise (value_error message)) =
      ok (concat (source ∷ ": " ∷ message ∷ []) ∷ [])
  resolved_errors source tag commit (raise e) = raise e

  -- the tests on the URL and the commit of a source with a tag
  unfoldable pub tagged_errors : String → String → Value → Value → Py (List String)
  unfolding resolved_errors resolve_remote_tag matches concat
  tagged_errors source tag (str url) (str commit) =
      if matches full_git_commit commit
      then resolved_errors source tag commit (resolve_remote_tag url tag)
      else ok
          (concat (source ∷ ": tag " ∷ lib.repr tag ∷ " lacks a full immutable commit" ∷ []) ∷ [])
  tagged_errors source tag (str url) _ =
      ok (concat (source ∷ ": tag " ∷ lib.repr tag ∷ " lacks a full immutable commit" ∷ []) ∷ [])
  tagged_errors source tag _ commit =
      ok (concat (source ∷ ": tagged source URL is missing" ∷ []) ∷ [])

  unfoldable pub is_flux_source : Fields → Bool
  unfolding get get_or str_of starts_with
  is_flux_source resource =
      eq_str (get "kind" resource) "GitRepository"
      && starts_with (str_of lib.render (get_or "apiVersion" (str "") resource))
          "source.toolkit.fluxcd.io/"

  -- the errors of one object
  unfoldable pub source_errors : Fields → Py (List String)
  unfolding is_flux_source tagged_errors source_identity get field_of
  source_errors resource =
      let spec = get "spec" resource in
      let ref = field_of "ref" spec in
      if is_flux_source resource
      then (elim (as_str (field_of "tag" ref)) [
        | none ↦ ok []
        | some tag ↦
            tagged_errors (source_identity resource) tag (field_of "url" spec)
              (field_of "commit" ref)
      ])
      else ok []

  -- Where the generator and the resolver both raise in one document, the model has the generator's
  -- exception.
  unfoldable pub validate : List Value → Py (List String)
  unfolding source_errors iter_kubernetes_objects
  validate documents =
      flat_map_py (λ document. iter_kubernetes_objects document >>= flat_map_py source_errors)
        documents

  -- The return code and the printed lines.
  unfoldable pub main : String → Py (List Value) → Py (ℕ × List String)
  unfolding validate github_error
  main manifest (raise (manifest_error message)) = ok (1, github_error message (some manifest) ∷ [])
  main manifest (raise e) = raise e
  main manifest (ok documents) = do
    errors ← validate documents
    ok (
        if is_empty errors
        then (0, "Verified all tagged Flux GitRepository commit pins." ∷ [])
        else (1, map (λ error. github_error error (some manifest)) errors))
