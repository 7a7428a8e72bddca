-- ===== src/ServiceCatalog/Outputs/Fresh.antt =====
-- What the check of the generated files finds.
use home_server.Common.{
  ◌∈◌, not, str_eq, eq_iff, ◌≡◌, refl, ap, Bool, true, false, String, List, Option, none, some, Py,
  ok, raise,
}
use home_server.Json.{Fields}
use home_server.ServiceCatalog.Checks.{done, clean_each, silent}
use home_server.ServiceCatalog.Paths.{Repository, FilePath}
use home_server.ServiceCatalog.Outputs.{
  Files, is_stale, stale_check, compared, generated_outputs, validate_generated_outputs,
}

fresh_file :
    (found : Option String) (content : String)
    → is_stale found content ≡ false
    → found ≡ some content
fresh_file none content h = cc
fresh_file (some text) content h =
    ap (λ (s : String). some s) ((eq_iff text content).0 (agree (str_eq text content) h))
  where
    agree : (b : Bool) → not b ≡ false → b ≡ true
    agree true h = refl
    agree false h = cc

module _ (w : Repository) (catalog : Fields) (files : Files) where
  fresh_outputs :
      (made : Py (List (FilePath × String)))
      → compared w files made ≡ done
      → (outputs : List (FilePath × String)) × (made ≡ ok outputs)
        × ((path : FilePath) (content : String)
            → (path, content) ∈ outputs
            → files path ≡ some content)
  unfolding stale_check
  fresh_outputs (raise e) h = cc
  fresh_outputs (ok outputs) h = (
    outputs,
    refl,
    λ path content m.
        fresh_file (files path) content
          (silent _ _ (clean_each (stale_check w files) outputs h (path, content) m)),
  )

  -- A check without errors has found each output in its file.
  pub validate_generated_outputs_fresh :
      validate_generated_outputs w catalog files ≡ done
      → (outputs : List (FilePath × String)) × (generated_outputs w catalog files ≡ ok outputs)
        × ((path : FilePath) (content : String)
            → (path, content) ∈ outputs
            → files path ≡ some content)
  unfolding validate_generated_outputs
  validate_generated_outputs_fresh h = fresh_outputs (generated_outputs w catalog files) h
