-- ===== src/ServiceCatalog/Outputs/Made.antt =====
-- What the outputs of a rendering are made from.
use home_server.Common.{returned_by_bind, ok-injective, String, ◌≡◌, sym, List, [], ◌∷◌, ok}
use home_server.Json.{Fields}
use home_server.ServiceCatalog.Paths.{Repository, FilePath}
use home_server.ServiceCatalog.Blueprints.{authentik_blueprints_document, authentik_worker_patch}
use home_server.ServiceCatalog.Outputs.{
  Files, homepage_path, cloudflare_path, blocky_path, blueprints_path, worker_path, ddns_start,
  ddns_end, blocky_start, blocky_end, region_output, homepage_text, split_lines, domain_lines,
  generated_outputs,
}

module _ (w : Repository) where
  -- The five outputs.
  abbrev pub outputs_of : String → String → String → String → String → List (FilePath × String)
  outputs_of homepage cloudflare blocky blueprints patch =
      (homepage_path w, homepage)
      ∷ (cloudflare_path w, cloudflare)
      ∷ (blocky_path w, blocky)
      ∷ (blueprints_path w, blueprints)
      ∷ (worker_path w, patch)
      ∷ []

  module _ (catalog : Fields) (files : Files) where
    -- What the outputs were made from.
    pub record Made (outputs : List (FilePath × String)) : Type 0 where
      pub homepage : String
      pub cloudflare : String
      pub blocky : String
      pub blueprints : String
      pub patch : String
      pub domains : List String
      pub mappings : List String
      pub shows : homepage_text w catalog ≡ ok homepage
      pub resolves : domain_lines catalog ≡ ok domains
      pub updates :
          region_output w (cloudflare_path w) ddns_start ddns_end domains files ≡ ok cloudflare
      pub splits : split_lines w catalog ≡ ok mappings
      pub blocks :
          region_output w (blocky_path w) blocky_start blocky_end mappings files ≡ ok blocky
      pub signs : authentik_blueprints_document w catalog ≡ ok blueprints
      pub patches : authentik_worker_patch w catalog ≡ ok patch
      pub all : outputs_of homepage cloudflare blocky blueprints patch ≡ outputs

    pub made :
        (outputs : List (FilePath × String))
        → generated_outputs w catalog files ≡ ok outputs
        → Made outputs
    unfolding generated_outputs
    made outputs h =
        let (homepage, shown, shows) =
          returned_by_bind _ (homepage_text w catalog) outputs (sym h) in
        let (domains, named, resolves) =
          returned_by_bind _ (domain_lines catalog) outputs (sym shown) in
        let (cloudflare, updated, updates) =
          returned_by_bind _ (region_output w (cloudflare_path w) ddns_start ddns_end domains files)
            outputs (sym named) in
        let (mappings, split, splits) =
          returned_by_bind _ (split_lines w catalog) outputs (sym updated) in
        let (blocky, blocked, blocks) =
          returned_by_bind _
            (region_output w (blocky_path w) blocky_start blocky_end mappings files) outputs
            (sym split) in
        let (blueprints, signed, signs) =
          returned_by_bind _ (authentik_blueprints_document w catalog) outputs (sym blocked) in
        let (patch, patched, patches) =
          returned_by_bind _ (authentik_worker_patch w catalog) outputs (sym signed) in
        record {
          homepage = homepage;
          cloudflare = cloudflare;
          blocky = blocky;
          blueprints = blueprints;
          patch = patch;
          domains = domains;
          mappings = mappings;
          shows = shows;
          resolves = resolves;
          updates = updates;
          splits = splits;
          blocks = blocks;
          signs = signs;
          patches = patches;
          all = ok-injective patched;
        }
