-- ===== src/HighRiskPolicy/Sources/Walks.antt =====
-- The token of a Git reference, and the values inside a value.
use home_server.Common.{
  ℕ, suc, String, str_eq, concat, join, show, if◌then◌else◌, Bool, false, List, [], ◌∷◌, ◌++◌,
  flat_map, Option, none, some,
}
use home_server.Json.{
  Value, Items, Fields, null, bool, int, real, str, arr, obj, nil, cons, end, field, get, is_null,
}
use home_server.HighRiskPolicy.Texts.{text}

-- git_ref_token
abbrev ref_part : Fields → String → List String
unfolding get concat text
ref_part ref key =
    if is_null (get key ref)
    then []
    else concat (key ∷ "=" ∷ text (get key ref) "<unset>" ∷ []) ∷ []

abbrev token_of_parts : List String → String
unfolding join
token_of_parts [] = "<unset>"
token_of_parts (part ∷ parts) = join "," (part ∷ parts)

unfoldable pub git_ref_token : Value → String
unfolding ref_part token_of_parts
git_ref_token (obj ref) =
    token_of_parts (flat_map (ref_part ref) ("branch" ∷ "tag" ∷ "semver" ∷ "name" ∷ "commit" ∷ []))
git_ref_token _ = "<unset>"

-- walk: the values inside a value, each with its path; the path of the value itself comes first.
unfoldable mutual
  unfolding show

  pub walk : List String → Value → List (List String × Value)
  walk path (obj fs) = (path, obj fs) ∷ walk_fields path fs
  walk path (arr vs) = (path, arr vs) ∷ walk_items path 0 vs
  walk path null = (path, null) ∷ []
  walk path (bool b) = (path, bool b) ∷ []
  walk path (int n) = (path, int n) ∷ []
  walk path (real t) = (path, real t) ∷ []
  walk path (str s) = (path, str s) ∷ []

  pub walk_fields : List String → Fields → List (List String × Value)
  walk_fields path end = []
  walk_fields path (field k v fs) = walk (path ++ k ∷ []) v ++ walk_fields path fs

  pub walk_items : List String → ℕ → Items → List (List String × Value)
  walk_items path index nil = []
  walk_items path index (cons v vs) =
      walk (path ++ show index ∷ []) v ++ walk_items path (suc index) vs

-- path[-1], and path[-2] == name where the path is that long
abbrev pub last_key : List String → Option String
last_key [] = none
last_key (k ∷ []) = some k
last_key (k ∷ j ∷ ks) = last_key (j ∷ ks)

abbrev pub follows : String → List String → Bool
follows name [] = false
follows name (k ∷ []) = false
follows name (k ∷ j ∷ []) = str_eq k name
follows name (k ∷ j ∷ i ∷ ks) = follows name (j ∷ i ∷ ks)
