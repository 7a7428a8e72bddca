-- ===== src/Secrets/Validate/Encrypted.antt =====
-- What a Secret without errors is.
use home_server.Common.{
  String, ◌≡◌, ◌==◌, length, Bool, true, false, not, ◌||◌, List, [], ◌∷◌, ◌++◌, any, All, arith,
}
use home_server.Common.Order.{sorted_set}
use home_server.Json.{
  Value, Items, Fields, null, bool, int, real, str, arr, obj, end, field, fields, get,
  dict_or_empty, is_null, has_key, eq_str, items,
}
use home_server.HighRiskPolicy.Pods.{add_if, reports}
use home_server.Secrets.Envelopes.{is_encrypted_or_null, valid_sops_value}
use home_server.Secrets.Validate.{
  actual_recipients, same_set, age_errors, covered_errors, value_errors, payload_errors,
  metadata_tests, kind_tests, validate_secret, message, sops,
}
use home_server.Secrets.Validate.Entries.{IsEnvelope, no_left, not_added, not_off, age_list}

-- A payload that is encrypted: there is none, or each of its values is an encrypted text or null.
pub data Sealed : Value → Type 0 where
  absent : Sealed null
  mapping :
      (payload : Fields)
      → All (λ (p : String × Value). is_encrypted_or_null p.1 ≡ true) (fields payload)
      → Sealed (obj payload)

-- What holds of a Secret that is accepted.
pub record Accepted (document : Fields) (expected : List (List String)) : Type 0 where
  pub data_sealed : Sealed (get "data" document)
  pub string_data_sealed : Sealed (get "stringData" document)
  pub no_binary_data : has_key "binaryData" document ≡ false
  pub regex :
      eq_str (get "encrypted_regex" (dict_or_empty (get "sops" document))) "^(data|stringData)$"
      ≡ true
  pub mac : valid_sops_value (get "mac" (dict_or_empty (get "sops" document))) ≡ true
  pub recipients : Items
  pub age : get "age" (dict_or_empty (get "sops" document)) ≡ arr recipients
  pub envelopes : All IsEnvelope (items recipients)
  pub covered : any (same_set (actual_recipients recipients)) expected ≡ true

-- Tests that add nothing are false.
tests_off :
    (tests : List (Bool × String))
    → reports tests ≡ []
    → All (λ (t : Bool × String). t.0 ≡ false) tests
unfolding reports
tests_off [] h = tt
tests_off ((test, item) ∷ rest) h =
    let (here, there) = no_left (add_if test item) (reports rest) h in
    (not_added test item here, tests_off rest there)

module _ (render : Value → String) (document : Fields) where
  values-sealed :
      (name : String) (payload : Fields)
      → value_errors render document name payload ≡ []
      → All (λ (p : String × Value). is_encrypted_or_null p.1 ≡ true) (fields payload)
  unfolding value_errors
  values-sealed name end h = tt
  values-sealed name (field k v rest) h =
      let (here, there) =
        no_left (add_if (not (is_encrypted_or_null v)) _) (value_errors render document name rest)
          h in
      let sealed = not_added (not (is_encrypted_or_null v)) _ here in
      (ground arith, values-sealed name rest there)

  payload-Sealed :
      (name : String) (v : Value) → payload_errors render document name v ≡ [] → Sealed v
  unfolding payload_errors
  payload-Sealed name null h = absent
  payload-Sealed name (obj payload) h = mapping payload (values-sealed name payload h)
  payload-Sealed name (bool b) h = cc
  payload-Sealed name (int n) h = cc
  payload-Sealed name (real t) h = cc
  payload-Sealed name (str s) h = cc
  payload-Sealed name (arr vs) h = cc

  covered_set :
      (actual : List String) (expected : List (List String))
      → covered_errors render document actual expected ≡ []
      → any (same_set actual) expected ≡ true
  unfolding covered_errors
  covered_set actual expected h = ground arith

  metadata_tests_off :
      (file_name : String) (require_sops_filename : Bool)
      → reports (metadata_tests render document file_name require_sops_filename) ≡ []
      → (not (
            eq_str
              (get "encrypted_regex" (dict_or_empty (get "sops" document)))
              "^(data|stringData)$")
          ≡ false)
        × ((not (is_encrypted_or_null (get "mac" (dict_or_empty (get "sops" document))))
              || is_null (get "mac" (dict_or_empty (get "sops" document))))
            ≡ false)
  unfolding metadata_tests sops
  metadata_tests_off file_name require_sops_filename h =
      let (name, (metadata, (regex, (mac, _)))) =
        tests_off (metadata_tests render document file_name require_sops_filename) h in
      (regex, mac)

  binary_test : reports (kind_tests render document) ≡ [] → has_key "binaryData" document ≡ false
  unfolding kind_tests
  binary_test h = let (binary, _) = tests_off (kind_tests render document) h in binary

encrypted_text :
    (v : Value) → (not (is_encrypted_or_null v) || is_null v) ≡ false → valid_sops_value v ≡ true
unfolding is_encrypted_or_null
encrypted_text null h = cc
encrypted_text (bool b) h = ground arith
encrypted_text (int n) h = ground arith
encrypted_text (real t) h = ground arith
encrypted_text (str s) h = ground arith
encrypted_text (arr vs) h = ground arith
encrypted_text (obj fs) h = ground arith

-- A Secret for which there is no error has no `binaryData`, each value of its `data` and `stringData` is an
-- encrypted text or null, its SOPS metadata has the required `encrypted_regex` and an encrypted MAC, and
-- each entry of `sops.age` is an age public key with an armored envelope, for one of the expected sets.
pub validate_secret-Accepted :
    (render : Value → String) (document : Fields) (file_name : String)
    (require_sops_filename : Bool) (expected : List (List String))
    → validate_secret render document file_name require_sops_filename expected ≡ []
    → Accepted document expected
unfolding validate_secret sops
validate_secret-Accepted render document file_name require_sops_filename expected h =
    let age = get "age" (dict_or_empty (get "sops" document)) in
    let actual = (age_errors render document age).1 in
    let kinds = reports (kind_tests render document) in
    let strings = payload_errors render document "stringData" (get "stringData" document) in
    let data_errors = payload_errors render document "data" (get "data" document) in
    let coverage = covered_errors render document actual expected in
    let twice =
      add_if (not (length actual == length (sorted_set actual)))
        (message render document (" has duplicate SOPS age recipients" ∷ [])) in
    let (tests, h1) =
      no_left (reports (metadata_tests render document file_name require_sops_filename))
        ((age_errors render document age).0
          ++ (twice ++ (coverage ++ (data_errors ++ (strings ++ kinds)))))
        h in
    let (envelopes, h2) =
      no_left (age_errors render document age).0
        (twice ++ (coverage ++ (data_errors ++ (strings ++ kinds)))) h1 in
    let (_, h3) = no_left twice (coverage ++ (data_errors ++ (strings ++ kinds))) h2 in
    let (covers, h4) = no_left coverage (data_errors ++ (strings ++ kinds)) h3 in
    let (data_free, h5) = no_left data_errors (strings ++ kinds) h4 in
    let (strings_free, h6) = no_left strings kinds h5 in
    let (recipients, list, same, sealed) = age_list render document age envelopes in
    record {
      data_sealed = payload-Sealed render document "data" (get "data" document) data_free;
      string_data_sealed =
          payload-Sealed render document "stringData" (get "stringData" document) strings_free;
      mac =
          encrypted_text (get "mac" (dict_or_empty (get "sops" document)))
            (metadata_tests_off render document file_name require_sops_filename tests).1;
      no_binary_data = binary_test render document h6;
      regex =
          not_off
            (eq_str (get "encrypted_regex" (dict_or_empty (get "sops" document)))
              "^(data|stringData)$")
            (metadata_tests_off render document file_name require_sops_filename tests).0;
      recipients = recipients;
      envelopes = sealed;
      age = list;
      covered = rw (← same) (covered_set render document actual expected covers);
    }
