-- ===== src/Secrets/Rules.antt =====
-- `parse_age_values` and `load_creation_rules`.
pub mod Valid
use home_server.Common.{
  ℕ, suc, Char, code, String, str_eq, concat, show, is_space, ◌==◌, ◌||◌, not, if◌then◌else◌, Bool,
  List, [], ◌∷◌, any, is_empty, flat_map, Option, none, some, Py, ok, raise, manifest_error, ◌>>=◌,
}
use home_server.Common.Regex.{Regex, one, both, text_of, times, between, matches}
use home_server.Json.{Value, Items, Fields, str, arr, obj, nil, cons, items, get, as_str, eq_str}

-- age1[023456789acdefghjklmnpqrstuvwxyz]{58}
abbrev age_code : ℕ → Bool
age_code c =
    c == b'0'
    || between b'2' b'9' c
    || c == b'a'
    || between b'c' b'h' c
    || between b'j' b'n' c
    || between b'p' b'z' c

abbrev pub age_recipient : Regex
age_recipient = both (text_of "age1") (times 58 (one age_code))

-- the entries between commas and white space that are not empty
abbrev keep_entry : String → List String → List String
keep_entry entry rest = if str_eq entry "" then rest else entry ∷ rest

abbrev add_code : Char → String × List String → String × List String
unfolding is_space
add_code c (entry, rest) =
    if code c == b',' || is_space (code c)
    then ("", keep_entry entry rest)
    else (String.◌∷◌ c entry, rest)

unfoldable pub entries_from : String → String × List String
unfolding add_code
entries_from String.[] = ("", [])
entries_from (String.◌∷◌ c s) = add_code c (entries_from s)

abbrev text_entry : Value → List String
text_entry (str s) = keep_entry s []
text_entry _ = []

-- The set of the values, as a list.
unfoldable pub parse_age_values : Value → List String
unfolding entries_from
parse_age_values (str s) = let (entry, rest) = entries_from s in keep_entry entry rest
parse_age_values (arr vs) = flat_map text_entry (items vs)
parse_age_values _ = []

-- A creation rule: the regular expression of its paths, and its recipients.
pub record Rule : Type 0 where
  pub path_regex : String
  pub recipients : List String

-- What `re.error` says where a path's regular expression is none.
module _ (compile_error : String → Option String) (path : String) where
  abbrev at_rule : ℕ → List String → Py Rule
  unfolding show concat
  at_rule index words =
      raise (manifest_error (concat (path ∷ ": creation_rules[" ∷ show index ∷ "]" ∷ words)))

  abbrev checked_recipients : ℕ → Fields → String → List String → Py Rule
  unfolding at_rule matches get
  checked_recipients index rule regex recipients =
      if is_empty recipients || any (λ r. not (matches age_recipient r)) recipients
      then at_rule index (" has invalid age recipients" ∷ [])
      else if not (eq_str (get "encrypted_regex" rule) "^(data|stringData)$")
      then at_rule index (" must encrypt exactly data and stringData" ∷ [])
      else ok (record { path_regex = regex; recipients = recipients })

  abbrev compiled_rule : ℕ → Fields → String → Option String → Py Rule
  unfolding at_rule checked_recipients parse_age_values get
  compiled_rule index rule regex (some error) =
      at_rule index (".path_regex is invalid: " ∷ error ∷ [])
  compiled_rule index rule regex none =
      checked_recipients index rule regex (parse_age_values (get "age" rule))

  abbrev rule_with : ℕ → Fields → Option String → Py Rule
  unfolding at_rule compiled_rule
  rule_with index rule none = at_rule index (" has no path_regex" ∷ [])
  rule_with index rule (some regex) = compiled_rule index rule regex (compile_error regex)

  abbrev rule_of : ℕ → Value → Py Rule
  unfolding rule_with get
  rule_of index (obj rule) = rule_with index rule (as_str (get "path_regex" rule))
  rule_of index _ = at_rule index (" has no path_regex" ∷ [])

  unfoldable pub rules_from : ℕ → Items → Py (List Rule)
  unfolding rule_of
  rules_from index nil = ok []
  rules_from index (cons v vs) = do
    rule ← rule_of index v
    rules ← rules_from (suc index) vs
    ok (rule ∷ rules)

  abbrev rules_of : Value → Py (List Rule)
  unfolding rules_from concat
  rules_of (arr (cons v vs)) = rules_from 0 (cons v vs)
  rules_of _ =
      raise (manifest_error (concat (path ∷ ": creation_rules must be a non-empty list" ∷ [])))

  abbrev one_document : List Value → Py (List Rule)
  unfolding rules_of get concat
  one_document (obj configuration ∷ []) = rules_of (get "creation_rules" configuration)
  one_document _ =
      raise
        (manifest_error (concat (path ∷ ": expected exactly one SOPS configuration document" ∷ [])))

  -- `documents` is what `load_documents` returns for the configuration.
  unfoldable pub load_creation_rules : Py (List Value) → Py (List Rule)
  unfolding one_document
  load_creation_rules documents = documents >>= one_document
