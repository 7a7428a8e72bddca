-- ===== src/ServiceCatalog/Explain/Parts.antt =====
-- scripts/service_catalog.py: what the parts of `explain` share.
use home_server.Common.{String, Bool, List, [], ◌∷◌, if◌then◌else◌, Py, ok, ◌>>=◌}
use home_server.Json.{Value, get_attr, str_of}
use home_server.ServiceCatalog.Paths.{Repository}

abbrev pub when : Bool → String → List String
when b line = if b then line ∷ [] else []

module _ (w : Repository) where
  -- f"{v.get(k)}"
  unfoldable pub shown : String → Value → Py String
  unfolding str_of
  shown k v = do x ← get_attr v k; ok (str_of w.render x)
