-- ===== src/Secrets/Validate.antt =====
-- `validate_secret`: the errors of one Secret, in the code's order.
pub mod Entries
pub mod Encrypted
use home_server.Common.{
  ℕ, suc, String, str_eq, concat, show, ends_with, length, ◌==◌, ◌||◌, ◌&&◌, not, if◌then◌else◌,
  Bool, true, false, List, [], ◌∷◌, ◌++◌, any, all, contains, is_empty, flat_map, Option, none,
  some,
}
use home_server.Common.Order.{sorted_set}
use home_server.Common.Regex.{Regex, one, both, either, many, text_of, optional, any_char, matches}
use home_server.Json.{
  Value, Items, Fields, null, str, arr, obj, nil, cons, end, field, items, get, has_key, as_str,
  dict_or_empty, eq_str, is_null, is_dict, or_else, str_of,
}
use home_server.HighRiskPolicy.Pods.{add_if, reports}
use home_server.Secrets.Envelopes.{is_encrypted_or_null, valid_age_envelope}
use home_server.Secrets.Rules.{age_recipient}

-- SOPS_FILENAME.search(name): `\.sops\.ya?ml$`
abbrev pub sops_filename : Regex
sops_filename = both (many any_char) (
    both (text_of ".sops.y")
      (both (optional (text_of "a")) (both (text_of "ml") (optional (one (λ c. c == b'\n'))))))

abbrev pub is_recipient : Value → Bool
unfolding matches
is_recipient (str s) = matches age_recipient s
is_recipient _ = false

-- The recipients of `sops.age` that are well formed.
unfoldable pub actual_recipients : Items → List String
unfolding is_recipient get
actual_recipients nil = []
actual_recipients (cons (obj recipient) rest) =
    (elim (as_str (get "recipient" recipient)) [
      | none ↦ []
      | some value ↦ if is_recipient (str value) then value ∷ [] else []
    ])
    ++ actual_recipients rest
actual_recipients (cons _ rest) = actual_recipients rest

-- set(xs) == set(ys)
abbrev same_set : List String → List String → Bool
same_set xs ys = all (contains ys) xs && all (contains xs) ys

module _ (render : Value → String) (document : Fields) where
  -- f"Secret {identity}" and what follows
  abbrev message : List String → String
  unfolding get str_of concat
  message words = concat (
      "Secret "
      ∷ str_of render
          (or_else (get "name" (dict_or_empty (get "metadata" document))) (str "<unnamed>"))
      ∷ words)

  abbrev sops : Fields
  unfolding get
  sops = dict_or_empty (get "sops" document)

  unfoldable pub recipient_errors : ℕ → Items → List String
  unfolding message is_recipient valid_age_envelope get show
  recipient_errors index nil = []
  recipient_errors index (cons (obj recipient) rest) =
      add_if (not (is_recipient (get "recipient" recipient)))
        (message (" has invalid sops.age[" ∷ show index ∷ "].recipient" ∷ []))
      ++ (add_if (not (valid_age_envelope (get "enc" recipient)))
            (message (" has invalid sops.age[" ∷ show index ∷ "].enc armor" ∷ []))
          ++ recipient_errors (suc index) rest)
  recipient_errors index (cons _ rest) =
      message (" has malformed sops.age[" ∷ show index ∷ "] metadata" ∷ [])
      ∷ recipient_errors (suc index) rest

  -- the errors of `sops.age`, and its well-formed recipients
  unfoldable pub age_errors : Value → List String × List String
  unfolding message recipient_errors actual_recipients
  age_errors (arr (cons v vs)) = (recipient_errors 0 (cons v vs), actual_recipients (cons v vs))
  age_errors _ = (message (" has no SOPS age recipient metadata" ∷ []) ∷ [], [])

  unfoldable pub covered_errors : List String → List (List String) → List String
  unfolding message
  covered_errors actual expected =
      if is_empty expected
      then message (" is not covered by any .sops.yaml creation rule" ∷ []) ∷ []
      else if any (same_set actual) expected
      then []
      else message (" age recipients do not match .sops.yaml" ∷ []) ∷ []

  unfoldable pub value_errors : String → Fields → List String
  unfolding message is_encrypted_or_null
  value_errors name end = []
  value_errors name (field key value rest) =
      add_if (not (is_encrypted_or_null value))
        (message (" contains plaintext or malformed " ∷ name ∷ "." ∷ key ∷ []))
      ++ value_errors name rest

  unfoldable pub payload_errors : String → Value → List String
  unfolding message value_errors
  payload_errors name null = []
  payload_errors name (obj payload) = value_errors name payload
  payload_errors name _ = message (" field " ∷ name ∷ " must be a mapping" ∷ []) ∷ []

  -- the tests before those on `sops.age`
  unfoldable pub metadata_tests : String → Bool → List (Bool × String)
  unfolding message sops is_encrypted_or_null matches get
  metadata_tests file_name require_sops_filename =
      (
        require_sops_filename && not (matches sops_filename file_name),
        message (" must use a .sops.yaml or .sops.yml filename" ∷ []),
      )
      ∷ (not (is_dict (get "sops" document)), message (" is missing top-level SOPS metadata" ∷ []))
      ∷ (
        not (eq_str (get "encrypted_regex" sops) "^(data|stringData)$"),
        message (" must encrypt exactly data and stringData via sops.encrypted_regex" ∷ []),
      )
      ∷ (
        not (is_encrypted_or_null (get "mac" sops)) || is_null (get "mac" sops),
        message (" has no encrypted SOPS MAC" ∷ []),
      )
      ∷ []

  abbrev payload_seen : Bool
  unfolding get
  payload_seen = not (is_null (get "data" document)) || not (is_null (get "stringData" document))

  -- the tests behind those on the payload
  unfoldable pub kind_tests : List (Bool × String)
  unfolding message payload_seen get has_key
  kind_tests =
      (
        has_key "binaryData" document,
        message (" uses unsupported binaryData; put encrypted values in data instead" ∷ []),
      )
      ∷ (
        not payload_seen
            && not (eq_str (get "type" document) "kubernetes.io/service-account-token"),
        message (" has neither data nor stringData" ∷ []),
      )
      ∷ []

  -- `expected` is `expected_recipient_sets`, which `main` always passes.
  unfoldable pub validate_secret : String → Bool → List (List String) → List String
  unfolding reports metadata_tests age_errors sops covered_errors payload_errors kind_tests
      sorted_set get
  validate_secret file_name require_sops_filename expected =
      let (envelopes, actual) = age_errors (get "age" sops) in
      reports (metadata_tests file_name require_sops_filename)
      ++ (envelopes
          ++ (add_if (not (length actual == length (sorted_set actual)))
                (message (" has duplicate SOPS age recipients" ∷ []))
              ++ (covered_errors actual expected
                  ++ (payload_errors "data" (get "data" document)
                      ++ (payload_errors "stringData" (get "stringData" document)
                          ++ reports kind_tests)))))
