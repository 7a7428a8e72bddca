-- ===== src/Secrets/Tests.antt =====
-- A sealed Secret in one file, and the theorems at it.
use home_server.Common.{
  Option, none, str_eq, if◌then◌else◌, String, lstrip, rstrip, concat, show, is_space, ◌≡◌, refl,
  Bool, true, false, List, [], ◌∷◌, ok,
}
use home_server.Common.Order.{sorted_set, insert_once, str_lt}
use home_server.Common.Lines.{partition, lines_from, splitlines}
use home_server.Common.Regex.{matches}
use home_server.Json.{
  Value, Fields, str, arr, obj, get_or, get, has_key, str_of, to_items, to_fields,
}
use home_server.HighRiskPolicy.Pods.{reports}
use home_server.Secrets.Envelopes.{
  behind, b64decode, sops_groups, valid_sops_value, is_encrypted_or_null, valid_age_envelope,
}
use home_server.Secrets.Rules.{
  Rule, entries_from, parse_age_values, rules_from, load_creation_rules,
}
use home_server.Secrets.Rules.Valid.{IsConfiguration, load_creation_rules-IsValid}
use home_server.Secrets.Validate.{
  actual_recipients, recipient_errors, age_errors, covered_errors, value_errors, payload_errors,
  metadata_tests, kind_tests, validate_secret,
}
use home_server.Secrets.Scan.{Candidate, Outcome}
use home_server.Secrets.Files.{Worktree}
use Prim.Native.Char.{nul}

abbrev sealed_text : String
sealed_text =
    "ENC[AES256_GCM,data:aGk=,iv:AAECAwQFBgcICQoLDA0ODxAREhMUFRYXGBkaGxwdHh8=,tag:AAECAwQFBgcICQoLDA0ODw==,type:str]"

abbrev recipient : String
recipient = "age1qqqqqqqqqqqqqqqqqqqqqqqqqqqqqqqqqqqqqqqqqqqqqqqqqqqqqqqqqq"

abbrev envelope : String
envelope =
    "-----BEGIN AGE ENCRYPTED FILE-----\nYWdlLWVuY3J5cHRpb24ub3JnL3YxCg==\n-----END AGE ENCRYPTED FILE-----\n"

abbrev sops_metadata : Fields
sops_metadata = to_fields (
    ("encrypted_regex", str "^(data|stringData)$")
    ∷ ("mac", str sealed_text)
    ∷ (
      "age",
      arr (
          to_items
            (obj (to_fields (("recipient", str recipient) ∷ ("enc", str envelope) ∷ [])) ∷ [])),
    )
    ∷ [])

abbrev secret : Fields
secret = to_fields (
    ("kind", str "Secret")
    ∷ ("data", obj (to_fields (("password", str sealed_text) ∷ [])))
    ∷ ("sops", obj sops_metadata)
    ∷ [])

sealed : valid_sops_value (str sealed_text) ≡ true
unfolding valid_sops_value sops_groups partition behind b64decode matches
sealed = refl

opened : valid_sops_value (str "cGFzc3dvcmQ=") ≡ false
unfolding valid_sops_value sops_groups partition behind b64decode matches
opened = refl

armor : valid_age_envelope (str envelope) ≡ true
unfolding valid_age_envelope splitlines lines_from lstrip rstrip is_space b64decode
armor = refl

abbrev no_render : Value → String
no_render v = ""

no_errors : validate_secret no_render secret "a.sops.yaml" true ((recipient ∷ []) ∷ []) ≡ []
unfolding validate_secret reports metadata_tests kind_tests age_errors recipient_errors
    actual_recipients covered_errors payload_errors value_errors is_encrypted_or_null
    valid_sops_value sops_groups partition behind b64decode matches valid_age_envelope splitlines
    lines_from lstrip rstrip is_space get get_or has_key str_of concat show sorted_set insert_once
    str_lt
no_errors = refl

abbrev file : Candidate
file = record {
  path = "apps/a.sops.yaml";
  name = "a.sops.yaml";
  standard_manifest = true;
  is_probably_text = false;
  documents = ok (obj secret ∷ []);
}

abbrev any_path : String → String → Bool
any_path regex path = true

abbrev rules : List Rule
rules = record { path_regex = "apps/"; recipients = recipient ∷ [] } ∷ []

abbrev outcome : Outcome
outcome = record {
  code = 0;
  stdout = "Validated 1 encrypted Kubernetes Secret document(s) across 1 parsed file(s)." ∷ [];
  stderr = [];
}

abbrev configuration : Value
configuration = obj (
    to_fields (
      (
        "creation_rules",
        arr (
            to_items (
              obj (
                to_fields (
                  ("path_regex", str "apps/")
                  ∷ ("age", str recipient)
                  ∷ ("encrypted_regex", str "^(data|stringData)$")
                  ∷ []))
              ∷ [])),
      )
      ∷ []))

abbrev compiles : String → Option String
compiles regex = none

loaded : load_creation_rules compiles ".sops.yaml" (ok (configuration ∷ [])) ≡ ok rules
unfolding load_creation_rules rules_from parse_age_values entries_from is_space matches get get_or
    concat show
loaded = refl

load_creation_rules-IsValid_example :
    (ds : List Value) × (ok (configuration ∷ []) ≡ ok ds) × IsConfiguration compiles ds rules
load_creation_rules-IsValid_example =
    load_creation_rules-IsValid compiles ".sops.yaml" (ok (configuration ∷ [])) rules loaded

-- The repository with that file and its configuration.
abbrev zero_byte : String
zero_byte = String.◌∷◌ nul ""

abbrev listing : String
unfolding concat
listing = concat ("apps/a.sops.yaml" ∷ zero_byte ∷ "apps/gone.yaml" ∷ zero_byte ∷ [])

abbrev worktree : Worktree
worktree = record {
  listing = ok listing;
  exists = λ path. str_eq path "apps/a.sops.yaml";
  bytes = λ path. none;
  load = λ path. if str_eq path ".sops.yaml" then ok (configuration ∷ []) else ok (obj secret ∷ []);
  lower = λ s. s;
  compiles = compiles;
  search = any_path;
  render = no_render;
}
