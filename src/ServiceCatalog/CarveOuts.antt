-- ===== src/ServiceCatalog/CarveOuts.antt =====
-- scripts/service_catalog.py: `validate_public_path_carve_outs`.
pub mod Exposure
use home_server.Common.{
  ℕ, suc, String, concat, show, Bool, true, false, not, List, [], ◌∷◌, ◌++◌, contains, any,
  is_empty, flat_map, if◌then◌else◌, Py, ok, raise,
}
use home_server.Json.{
  Value, Fields, null, arr, obj, get, eq_str, holds_str, in_set, str_of, list_or_empty,
}
use home_server.ServiceCatalog.Checks.{Check, pure, run, report_if, for_each, done, ◌>>=◌, ◌>>◌}
use home_server.ServiceCatalog.Routes.{Rule}

-- The list `declared`.
abbrev pub declared_path : Value → List Value
unfolding get
declared_path (obj fs) = get "path" fs ∷ []
declared_path _ = []

module _ (render : Value → String) (hostname : String) (middleware : Value)
    (declared : List Value) where
  -- What one path of an ungated rule adds to `ungated_paths`.
  unfoldable pub exposed_path : ℕ → String → Check (List String)
  unfolding concat show
  exposed_path index value =
      if holds_str declared value
      then pure (value ∷ [])
      else ok (
        concat (
              hostname
              ∷ " private route rule "
              ∷ show index
              ∷ " exposes undeclared public path "
              ∷ value
              ∷ [])
            ∷ [],
        [],
      )

  unfoldable pub exposed_paths : ℕ → List String → Check (List String)
  unfolding exposed_path
  exposed_paths index [] = pure []
  exposed_paths index (value ∷ values) = do
    here ← exposed_path index value
    there ← exposed_paths index values
    pure (here ++ there)

  -- A rule to which the middleware does not apply.
  unfoldable pub ungated_rule : ℕ → Rule → Check (List String)
  unfolding concat show str_of exposed_paths
  ungated_rule index rule =
      if is_empty declared
      then ok (
        concat (
              hostname
              ∷ " private route rule "
              ∷ show index
              ∷ " does not apply access middleware "
              ∷ str_of render middleware
              ∷ [])
            ∷ [],
        [],
      )
      else if is_empty rule.paths
      then ok (
        concat (
              hostname
              ∷ " private route rule "
              ∷ show index
              ∷ " matches every path and cannot be an Internet-reachable public path"
              ∷ [])
            ∷ [],
        [],
      )
      else exposed_paths index rule.paths

  unfoldable pub ungated_rules : ℕ → List Rule → Check (List String)
  unfolding ungated_rule
  ungated_rules index [] = pure []
  ungated_rules index (rule ∷ rules) = do
    gated ← run (in_set middleware rule.filters)
    here ← if gated then pure [] else ungated_rule index rule
    there ← ungated_rules (suc index) rules
    pure (here ++ there)

  -- A declared path that no ungated rule has.
  unfoldable pub unrendered : List String → Value → Check (Unit {0})
  unfolding concat str_of
  unrendered ungated value = report_if (not (any (eq_str value) ungated)) (
      hostname
      ∷ " declared public path "
      ∷ str_of render value
      ∷ " is not rendered without the LAN/VPN allow-list"
      ∷ [])

module _ (render : Value → String) where
  unfoldable pub carve_outs : String → Value → List Rule → List Value → Check (Unit {0})
  unfolding ungated_rules unrendered
  carve_outs hostname middleware rules declared = do
    ungated ← ungated_rules render hostname middleware declared 0 rules
    for_each (unrendered render hostname middleware declared ungated) declared

  abbrev declared_carve_outs : String → Value → List Rule → Value → Check (Unit {0})
  unfolding carve_outs declared_path
  declared_carve_outs hostname middleware rules null = carve_outs hostname middleware rules []
  declared_carve_outs hostname middleware rules (arr vs) =
      carve_outs hostname middleware rules (flat_map declared_path (list_or_empty (arr vs)))
  declared_carve_outs hostname middleware rules _ = done

  unfoldable pub validate_public_path_carve_outs :
      String → Value → List Rule → Fields → Check (Unit {0})
  unfolding get declared_carve_outs
  validate_public_path_carve_outs hostname middleware rules web =
      declared_carve_outs hostname middleware rules (get "publicPaths" web)
