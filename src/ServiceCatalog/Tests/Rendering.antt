-- ===== src/ServiceCatalog/Tests/Rendering.antt =====
-- The properties of what is rendered, at small files.
use home_server.Common.{String, ◌≡◌, refl, List, [], ◌∷◌, All, ok}
use home_server.Common.Lines.{splitlines}
use home_server.Common.Feeds.{IsLine}
use home_server.ServiceCatalog.Regions.{replace_generated_region}
use home_server.ServiceCatalog.Regions.Overwrites.Framed.{framed, IsFramed}
use home_server.ServiceCatalog.Regions.Overwrites.{
  replace_generated_region_frame, replace_generated_region_overwrites,
}

abbrev before : String
before = "a\nBEGIN\nold\nEND\nb"

abbrev after : String
after = "a\nBEGIN\nnew\nEND\nb\n"

rendered : replace_generated_region "f" "BEGIN" "END" ("new" ∷ []) before ≡ ok after
unfolding replace_generated_region
rendered = refl

plain : All IsLine ("new" ∷ [])
plain = ((refl, (refl, (refl, tt))), tt)

replace_generated_region_frame_example :
    (above region below : List String) × (splitlines before
      ≡ framed above "BEGIN" region "END" below)
    × (splitlines after ≡ framed above "BEGIN" ("new" ∷ []) "END" below)
    × IsFramed "BEGIN" "END" above region
replace_generated_region_frame_example =
    replace_generated_region_frame "f" "BEGIN" "END" ("new" ∷ []) before after rendered plain

replace_generated_region_overwrites_example :
    replace_generated_region "f" "BEGIN" "END" ("newer" ∷ []) after
    ≡ replace_generated_region "f" "BEGIN" "END" ("newer" ∷ []) before
replace_generated_region_overwrites_example =
    replace_generated_region_overwrites "f" "BEGIN" "END" ("new" ∷ []) before after ("newer" ∷ [])
      rendered plain refl
