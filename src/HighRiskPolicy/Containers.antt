-- ===== src/HighRiskPolicy/Containers.antt =====
-- `pod_spec`, and the generators over the containers of a pod.
use home_server.Common.{
  ℕ, ◌+◌, code, String, concat, show, str_eq, ◌==◌, ◌&&◌, if◌then◌else◌, Bool, true, false, List,
  [], ◌∷◌, ◌++◌, flat_map, Option, none, some,
}
use home_server.Common.Regex.{matches}
use home_server.Json.{
  Value, Fields, obj, end, str, get, get_or, as_dict, as_str, list_or_empty, eq_str,
}
use home_server.HighRiskPolicy.Texts.{text}
use home_server.HighRiskPolicy.Patterns.{image_flag, is_image_environment}

-- value.get(key, {}) if isinstance(value, dict) else {}
abbrev step_into : String → Value → Value
unfolding get_or
step_into key (obj fs) = get_or key (obj end) fs
step_into key _ = obj end

-- value.get("spec") if it is a mapping in a mapping
abbrev spec_of : Value → Option Fields
unfolding get
spec_of (obj fs) = as_dict (get "spec" fs)
spec_of _ = none

abbrev pod_spec_in : Value → Fields → Option Fields
unfolding get_or
pod_spec_in kind spec =
    if eq_str kind "Pod"
    then some spec
    else if eq_str kind "CronJob"
    then spec_of (step_into "template" (step_into "spec" (get_or "jobTemplate" (obj end) spec)))
    else spec_of (get_or "template" (obj end) spec)

unfoldable pub pod_spec : Fields → Option Fields
unfolding get pod_spec_in
pod_spec document = elim (as_dict (get "spec" document)) [
  | none ↦ none
  | some spec ↦ pod_spec_in (get "kind" document) spec
]

-- The mappings of a list, each with its index.
unfoldable pub dicts_from : ℕ → List Value → List (ℕ × Fields)
dicts_from i [] = []
dicts_from i (obj fs ∷ vs) = (i, fs) ∷ dicts_from (i + 1) vs
dicts_from i (_ ∷ vs) = dicts_from (i + 1) vs

abbrev pub named : String → List (ℕ × Fields) → List (String × Fields)
unfolding get show text
named label [] = []
named label ((i, c) ∷ rest) =
    (concat (label ∷ "/" ∷ text (get "name" c) (show i) ∷ []), c) ∷ named label rest

abbrev containers_of : String → String → Fields → List (String × Fields)
unfolding dicts_from get
containers_of key label spec = named label (dicts_from 0 (list_or_empty (get key spec)))

unfoldable pub iter_containers : Fields → List (String × Fields)
unfolding containers_of
iter_containers spec =
    containers_of "containers" "container" spec
    ++ (containers_of "initContainers" "init-container" spec
        ++ containers_of "ephemeralContainers" "ephemeral-container" spec)

-- value.partition("=") where the separator is there
unfoldable pub partition_equals : String → Option (String × String)
partition_equals String.[] = none
partition_equals (String.◌∷◌ c s) =
    let rest = partition_equals s in
    if code c == b'='
    then some ("", s)
    else elim rest [ none ↦ none | some p ↦ some (String.◌∷◌ c p.0, p.1) ]

-- The image of `--…-image=image`.
abbrev pub inline_image : String → Option String
unfolding partition_equals matches
inline_image value = elim (partition_equals value) [
  | none ↦ none
  | some p ↦
      if matches image_flag p.0 && (if str_eq p.1 "" then false else true) then some p.1 else none
]

-- The image of a flag whose image is the next element.
abbrev pub next_image : String → List Value → Option String
unfolding matches
next_image value [] = none
next_image value (next ∷ vs) = if matches image_flag value then as_str next else none

-- The images that the loop yields at one element, which stands before `vs`, and whether it steps over
-- the next element.
module _ (place : String) where
  abbrev argument_location : ℕ → String
  unfolding show
  argument_location index = concat (place ∷ "/" ∷ show index ∷ [])

  abbrev images_at : ℕ → Value → List Value → List (String × String) × Bool
  unfolding show matches partition_equals
  images_at index (str value) vs = elim (inline_image value) [
    | some image ↦ ((argument_location index, image) ∷ [], false)
    | none ↦ elim (next_image value vs) [
      | some image ↦ ((argument_location (index + 1), image) ∷ [], true)
      | none ↦ ([], false)
    ]
  ]
  images_at index _ vs = ([], false)

  -- The loop from `index` on; the Boolean says that the first element is stepped over.
  unfoldable pub arguments_from : ℕ → Bool → List Value → List (String × String)
  unfolding show matches partition_equals
  arguments_from index skipped [] = []
  arguments_from index true (v ∷ vs) = arguments_from (index + 1) false vs
  arguments_from index false (v ∷ vs) =
      let (images, skips) = images_at index v vs in images ++ arguments_from (index + 1) skips vs

unfoldable pub iter_image_arguments : Fields → List (String × String)
unfolding arguments_from get
iter_image_arguments container =
    arguments_from "command" 0 false (list_or_empty (get "command" container))
    ++ arguments_from "args" 0 false (list_or_empty (get "args" container))

-- One variable of the environment: its location and its value, if its name says that it is an image.
abbrev image_variable : ℕ × Fields → List (String × Option String)
unfolding get show text is_image_environment
image_variable (index, variable) = elim (as_str (get "name" variable)) [
  | none ↦ []
  | some name ↦
      if is_image_environment name
      then ((
        concat ("env/" ∷ show index ∷ "/" ∷ text (str name) (show index) ∷ []),
        as_str (get "value" variable),
      )
          ∷ [])
      else []
]

unfoldable pub iter_image_environment : Fields → List (String × Option String)
unfolding image_variable dicts_from get
iter_image_environment container =
    flat_map image_variable (dicts_from 0 (list_or_empty (get "env" container)))
