-- ===== src/Common/Tools.antt =====
-- Commands that a script runs.
use mathlib.Core.Bool.{Bool}
use Prim.Native.String.{String}

-- How the run of a command ended.
pub record ToolRun : Type 0 where
  pub failed : Bool
  pub stdout : String
  pub stderr : String
