-- ===== src/ServiceCatalog/Outputs/RoundTrip.antt =====
-- After a rendering, the generated files are not stale.
use home_server.Common.{
  contains, returned_by_bind, String, eq_refl, ◌≡◌, refl, sym, ◌∙◌, inl, inr, true, false, List, [],
  ◌∷◌, ◌++◌, All, some, Py, ok, raise,
}
use home_server.Common.Feeds.{IsLine}
use home_server.Json.{Fields}
use home_server.ServiceCatalog.Checks.{Check, for_each, done, each_clean}
use home_server.ServiceCatalog.Paths.{Repository, FilePath, path_eq, relative}
use home_server.ServiceCatalog.Regions.Overwrites.{replace_generated_region_overwrites}
use home_server.ServiceCatalog.Structure.{validate_catalog_structure}
use home_server.ServiceCatalog.Outputs.{
  Files, write, write_all, homepage_path, cloudflare_path, blocky_path, blueprints_path,
  worker_path, ddns_start, ddns_end, blocky_start, blocky_end, region_output, split_lines,
  domain_lines, generated_outputs, rendered, rendered_if, render, read_text, stale_check,
  validate_generated_outputs,
}
use home_server.ServiceCatalog.Outputs.Written.{written, write_all-written}
use home_server.ServiceCatalog.Outputs.Made.{outputs_of, made}

path_eq_refl : (p : FilePath) → path_eq p p ≡ true
unfolding path_eq
path_eq_refl [] = refl
path_eq_refl (a ∷ p) = rw (eq_refl a, path_eq_refl p)

-- Two paths below one root are compared below it.
path_eq-append : (root p q : FilePath) → path_eq (root ++ p) (root ++ q) ≡ path_eq p q
unfolding path_eq
path_eq-append [] p q = refl
path_eq-append (a ∷ root) p q = rw (eq_refl a, path_eq-append root p q)

-- The generated lines of a region have no line ends, and none is the end marker.
pub record IsPlain (lines : List String) (marker : String) : Type 0 where
  pub lines_only : All IsLine lines
  pub no_end : contains lines marker ≡ false

module _ (w : Repository) where
  region_again :
      (path : FilePath) (s e : String) (lines : List String) (files after : Files) (out : String)
      → region_output w path s e lines files ≡ ok out
      → IsPlain lines e
      → after path ≡ some out
      → region_output w path s e lines after ≡ ok out
  unfolding region_output
  region_again path s e lines files after out h plain now =
      let (text, replaced, found) = returned_by_bind _ (read_text (files path)) out (sym h) in
      rw now (
        replace_generated_region_overwrites (relative w path) s e lines text out lines replaced
          plain.lines_only plain.no_end
        ∙ replaced)

  not_stale :
      (path : FilePath) (files : Files) (content : String)
      → files path ≡ some content
      → stale_check w files (path, content) ≡ done
  unfolding stale_check
  not_stale path files content h = rw (h, eq_refl content)

  module _ (homepage cloudflare blocky blueprints patch : String) (files : Files) where
    abbrev after : Files
    after = written (outputs_of w homepage cloudflare blocky blueprints patch) files

    -- Each output is read back, since the paths differ below the root.
    at_worker : after (worker_path w) ≡ some patch
    unfolding write path_eq
    at_worker = rw (path_eq-append w.root)

    at_blueprints : after (blueprints_path w) ≡ some blueprints
    unfolding write path_eq
    at_blueprints = rw (path_eq-append w.root) (rw (path_eq-append w.root))

    at_blocky : after (blocky_path w) ≡ some blocky
    unfolding write path_eq
    at_blocky = rw (path_eq-append w.root) (rw (path_eq-append w.root) (rw (path_eq-append w.root)))

    at_cloudflare : after (cloudflare_path w) ≡ some cloudflare
    unfolding write path_eq
    at_cloudflare =
        rw (path_eq-append w.root)
          (rw (path_eq-append w.root) (rw (path_eq-append w.root) (rw (path_eq-append w.root))))

    at_homepage : after (homepage_path w) ≡ some homepage
    unfolding write path_eq
    at_homepage = rw (path_eq-append w.root) (
        rw (path_eq-append w.root)
          (rw (path_eq-append w.root) (rw (path_eq-append w.root) (rw (path_eq-append w.root)))))

    fresh :
        for_each (stale_check w after) (outputs_of w homepage cloudflare blocky blueprints patch)
        ≡ done
    unfolding stale_check
    fresh =
        each_clean (stale_check w after) (outputs_of w homepage cloudflare blocky blueprints patch)
          (λ p m. elim m [
            | inl e ↦ rw (← e) (not_stale (homepage_path w) after homepage at_homepage)
            | inr m ↦ elim m [
              | inl e ↦ rw (← e) (not_stale (cloudflare_path w) after cloudflare at_cloudflare)
              | inr m ↦ elim m [
                | inl e ↦ rw (← e) (not_stale (blocky_path w) after blocky at_blocky)
                | inr m ↦ elim m [
                  | inl e ↦ rw (← e) (not_stale (blueprints_path w) after blueprints at_blueprints)
                  | inr m ↦ elim m [
                    | inl e ↦ rw (← e) (not_stale (worker_path w) after patch at_worker)
                    | inr m ↦ absurd m
                  ]
                ]
              ]
            ]
          ])

  -- The lines of both regions are plain.
  pub record ArePlain (catalog : Fields) : Type 0 where
    pub domains : (lines : List String) → domain_lines catalog ≡ ok lines → IsPlain lines ddns_end
    pub mappings :
        (lines : List String) → split_lines w catalog ≡ ok lines → IsPlain lines blocky_end

  module _ (catalog : Fields) (files : Files) where
    again :
        (outputs : List (FilePath × String))
        → ArePlain catalog
        → generated_outputs w catalog files ≡ ok outputs
        → validate_generated_outputs w catalog (written outputs files) ≡ done
    unfolding generated_outputs validate_generated_outputs
    again outputs plain h =
        let m = made w catalog files outputs h in
        let now = after m.homepage m.cloudflare m.blocky m.blueprints m.patch files in
        let cloudflare =
          region_again (cloudflare_path w) ddns_start ddns_end m.domains files now m.cloudflare
            m.updates (plain.domains m.domains m.resolves)
            (at_cloudflare m.homepage m.cloudflare m.blocky m.blueprints m.patch files) in
        let blocky =
          region_again (blocky_path w) blocky_start blocky_end m.mappings files now m.blocky
            m.blocks (plain.mappings m.mappings m.splits)
            (at_blocky m.homepage m.cloudflare m.blocky m.blueprints m.patch files) in
        rw (← m.all, m.shows, m.resolves, cloudflare, m.splits, blocky, m.signs, m.patches)
          (fresh m.homepage m.cloudflare m.blocky m.blueprints m.patch files)

    module _ (lines : List String) (plain : ArePlain catalog) where
      of_outputs :
          (made : Py (List (FilePath × String)))
          → generated_outputs w catalog files ≡ made
          → (rendered w files made).result ≡ ok lines
          → validate_generated_outputs w catalog (rendered w files made).files ≡ done
      unfolding rendered
      of_outputs (raise e) m h = cc
      of_outputs (ok outputs) m h =
          let (u, last, all) =
            returned_by_bind _ (write_all w.replaces outputs files).1 lines (sym h) in
          rw (write_all-written w.replaces outputs files all) (again outputs plain m)

      of_check :
          (checked : Check (Unit {0}))
          → (rendered_if w catalog files checked).result ≡ ok lines
          → validate_generated_outputs w catalog (rendered_if w catalog files checked).files ≡ done
      unfolding rendered_if
      of_check (raise e) h = cc
      of_check (ok ([], u)) h = of_outputs (generated_outputs w catalog files) refl h
      of_check (ok (e ∷ errors, u)) h = cc

    -- After a rendering that returns, the check of the generated files finds none stale, where the lines
    -- of both generated regions have no line ends and none is the end marker.
    pub validate_generated_outputs-render :
        (lines : List String)
        → ArePlain catalog
        → (render w catalog files).result ≡ ok lines
        → validate_generated_outputs w catalog (render w catalog files).files ≡ done
    unfolding render
    validate_generated_outputs-render lines plain h =
        of_check lines plain (validate_catalog_structure w catalog) h
