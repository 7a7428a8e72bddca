-- ===== src/ServiceCatalog/Structure/Service.antt =====
-- `validate_catalog_structure` of scripts/service_catalog.py: the parts of one service but its web part.
use home_server.Common.{
  String, str_eq, concat, starts_with, Bool, true, false, not, ◌&&◌, ◌||◌, List, [], ◌∷◌, ◌++◌, any,
  contains, length, ◌==◌, flat_map, Option, none, some, if◌then◌else◌, Py, ok, raise, type_error,
  pos,
}
use home_server.Json.{
  Value, Fields, bool, int, real, str, arr, obj, end, field, get, get_or, eq_str, in_set, is_false,
  str_of,
}
use home_server.ServiceCatalog.Checks.{
  Check, pure, run, report, report_if, done, require_nonempty_string, reject_unknown, ◌>>=◌, ◌>>◌,
}
use home_server.ServiceCatalog.Paths.{Repository, FilePath, repo_path}
use home_server.ServiceCatalog.References.{
  caught, on_some, is_registered, nested_values, referenced_paths,
}

-- v in {True, False}: a number equals a Boolean
abbrev pub in_bools : Value → Py Bool
in_bools (bool b) = ok true
in_bools (int (pos n)) = ok (n == 0 || n == 1)
in_bools (real t) = ok (contains ("0.0" ∷ "-0.0" ∷ "1.0" ∷ []) t)
in_bools (arr vs) = raise type_error
in_bools (obj fs) = raise type_error
in_bools _ = ok false

-- if v not in names: errors.append(…)
abbrev pub require_member : Value → List String → List String → Check (Unit {0})
require_member v names parts = run (in_set v names) >>= λ found. report_if (not found) parts

abbrev pub require_bool : Value → List String → Check (Unit {0})
require_bool v parts = run (in_bools v) >>= λ found. report_if (not found) parts

-- require_nonempty_string(…), where its result is not used
unfoldable pub require_text : Value → String → Check (Unit {0})
unfolding require_nonempty_string
require_text v label = require_nonempty_string v label >>= λ text. done

abbrev nonempty_text : Value → List String
nonempty_text (str s) = if str_eq s "" then [] else s ∷ []
nonempty_text _ = []

unfoldable pub workload_check : String → Option Fields → Check (Unit {0})
unfolding get concat reject_unknown require_text
workload_check label none = done
workload_check label (some workload) = do
  reject_unknown workload ("app" ∷ "namespace" ∷ "podSelector" ∷ [])
      (concat (label ∷ ".workload" ∷ []))
  require_text (get "namespace" workload) (concat (label ∷ ".workload.namespace" ∷ []))
  report_if
      (not (
        length (nonempty_text (get "app" workload) ++ nonempty_text (get "podSelector" workload))
        == 1))
      (label ∷ ".workload must set exactly one of app or podSelector" ∷ [])

-- isinstance(order, int) and not isinstance(order, bool) and order >= 0
abbrev is_order : Value → Bool
is_order (int (pos n)) = true
is_order _ = false

-- A card that is shown.
unfoldable pub shown_card : List String → String → Fields → Check (Unit {0})
unfolding get get_or concat require_text
shown_card groups label card = do
  report_if (not (any (eq_str (get "group" card)) groups))
      (label ∷ ".homepage.group is not declared" ∷ [])
  report_if (not (is_order (get_or "order" (int (pos 1000)) card)))
      (label ∷ ".homepage.order must be a non-negative integer" ∷ [])
  require_text (get "icon" card) (concat (label ∷ ".homepage.icon" ∷ []))
  require_text (get "description" card) (concat (label ∷ ".homepage.description" ∷ []))
  require_bool (get_or "link" (bool true) card) (label ∷ ".homepage.link must be a boolean" ∷ [])

unfoldable pub card_check : List String → String → Option Fields → Check (Unit {0})
unfolding get get_or concat reject_unknown require_text shown_card
card_check groups label none = done
card_check groups label (some card) = do
  reject_unknown card
      ("description" ∷ "enabled" ∷ "group" ∷ "icon" ∷ "link" ∷ "order" ∷ "reason" ∷ [])
      (concat (label ∷ ".homepage" ∷ []))
  known ← run (in_bools (get_or "enabled" (bool true) card))
  if not known
      then report (concat (label ∷ ".homepage.enabled must be a boolean" ∷ []))
      else if is_false (get_or "enabled" (bool true) card)
      then require_text (get "reason" card) (concat (label ∷ ".homepage.reason" ∷ []))
      else shown_card groups label card

-- The service's directory; the result is the path that is a catalogued application's.
abbrev app_path : String → FilePath → List FilePath
unfolding starts_with
app_path value path = if starts_with value "apps/" then path ∷ [] else []

module _ (w : Repository) where
  unfoldable pub directory_check : List FilePath → String → String → FilePath → Check (Unit {0})
  unfolding concat is_registered
  directory_check roots label value path =
      if w.is_dir path
      then report_if (not (is_registered path roots))
          (label ∷ ".path is not registered by the root Kustomization" ∷ [])
      else report (concat (label ∷ ".path does not exist: " ∷ value ∷ []))

  abbrev placed : List FilePath → String → String → Option FilePath → Check (List FilePath)
  unfolding directory_check app_path
  placed roots label value none = pure []
  placed roots label value (some path) =
      directory_check roots label value path >> pure (app_path value path)

  unfoldable pub path_check : List FilePath → String → Option String → Check (List FilePath)
  unfolding repo_path placed
  path_check roots label none = pure []
  path_check roots label (some value) = do
    path ← caught (repo_path w value)
    placed roots label value path

  abbrev allowed_placement : List String
  allowed_placement = "beelink" ∷ "every-node" ∷ "floating" ∷ "platform" ∷ "raspberrypi" ∷ []

  -- {"kubernetes.io/hostname": mode} == value
  abbrev is_pin : Value → Value → Bool
  is_pin (str mode) (obj (field k v end)) = str_eq k "kubernetes.io/hostname" && eq_str v mode
  is_pin _ _ = false

  abbrev pinned_documents : String → Value → List Value → Check (Unit {0})
  unfolding nested_values str_of
  pinned_documents label mode documents =
      report_if (not (any (is_pin mode) (flat_map (nested_values "nodeSelector") documents))) (
        label
        ∷ ".placement.manifest does not pin kubernetes.io/hostname to "
        ∷ str_of w.render mode
        ∷ [])

  unfoldable pub pin_check : String → Value → String → Check (Unit {0})
  unfolding concat repo_path pinned_documents
  pin_check label mode value = do
    found ← caught (repo_path w value)
    on_some found λ path.
        if w.is_file path
        then (caught (w.load_documents path) >>= λ documents.
            on_some documents (pinned_documents label mode))
        else report (concat (label ∷ ".placement.manifest does not exist: " ∷ value ∷ []))

  unfoldable pub placement_check : String → Option Fields → Check (Unit {0})
  unfolding get concat reject_unknown require_nonempty_string require_text pin_check
  placement_check label none = done
  placement_check label (some placement) = do
    reject_unknown placement ("manifest" ∷ "mode" ∷ "reason" ∷ [])
        (concat (label ∷ ".placement" ∷ []))
    require_member (get "mode" placement) allowed_placement (
        label
        ∷ ".placement.mode must be one of ['beelink', 'every-node', 'floating', 'platform', 'raspberrypi']"
        ∷ [])
    if eq_str (get "mode" placement) "floating"
        then done
        else require_text (get "reason" placement) (concat (label ∷ ".placement.reason" ∷ []))
    pinned ← run (in_set (get "mode" placement) ("beelink" ∷ "raspberrypi" ∷ []))
    if pinned
        then (require_nonempty_string (get "manifest" placement)
              (concat (label ∷ ".placement.manifest" ∷ []))
            >>= λ value. on_some value (pin_check label (get "mode" placement)))
        else done

  unfoldable pub data_check : String → Option Fields → Check (Unit {0})
  unfolding get concat reject_unknown require_text referenced_paths
  data_check label none = done
  data_check label (some storage) = do
    reject_unknown storage ("class" ∷ "manifests" ∷ "note" ∷ "protection" ∷ [])
        (concat (label ∷ ".data" ∷ []))
    require_member (get "class" storage)
        ("longhorn" ∷ "longhorn-observability" ∷ "mixed" ∷ "nfs-reproducible" ∷ "platform"
          ∷ "stateless" ∷ [])
        (label
          ∷ ".data.class must be one of ['longhorn', 'longhorn-observability', 'mixed', 'nfs-reproducible', 'platform', 'stateless']"
          ∷ [])
    require_member (get "protection" storage)
        ("excluded-observability" ∷ "excluded-reproducible" ∷ "longhorn-and-restic-b2"
          ∷ "longhorn-b2" ∷ "not-applicable" ∷ "platform-managed" ∷ [])
        (label
          ∷ ".data.protection must be one of ['excluded-observability', 'excluded-reproducible', 'longhorn-and-restic-b2', 'longhorn-b2', 'not-applicable', 'platform-managed']"
          ∷ [])
    stored ← run (
        in_set (get "class" storage)
          ("longhorn" ∷ "longhorn-observability" ∷ "mixed" ∷ "nfs-reproducible" ∷ "platform" ∷ []))
    if stored
        then referenced_paths w (get "manifests" storage) (concat (label ∷ ".data.manifests" ∷ []))
        else done
    noted ←
        (if eq_str (get "class" storage) "mixed"
          then pure true
          else run (
              in_set (get "protection" storage)
                ("excluded-observability" ∷ "excluded-reproducible" ∷ "platform-managed" ∷ [])))
    if noted then require_text (get "note" storage) (concat (label ∷ ".data.note" ∷ [])) else done

  unfoldable pub observability_check : String → Option Fields → Check (Unit {0})
  unfolding get concat reject_unknown require_text referenced_paths
  observability_check label none = done
  observability_check label (some observability) = do
    reject_unknown observability ("manifests" ∷ "mode" ∷ "reason" ∷ [])
        (concat (label ∷ ".observability" ∷ []))
    require_member (get "mode" observability) ("kubernetes" ∷ "metrics" ∷ "none" ∷ "platform" ∷ [])
        (label ∷ ".observability.mode must be one of ['kubernetes', 'metrics', 'none', 'platform']"
          ∷ [])
    measured ← run (in_set (get "mode" observability) ("metrics" ∷ "platform" ∷ []))
    if measured
        then referenced_paths w (get "manifests" observability)
            (concat (label ∷ ".observability.manifests" ∷ []))
        else done
    if eq_str (get "mode" observability) "none"
        then require_text (get "reason" observability)
            (concat (label ∷ ".observability.reason" ∷ []))
        else done
