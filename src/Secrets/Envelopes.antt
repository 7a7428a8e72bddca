-- ===== src/Secrets/Envelopes.antt =====
-- `valid_sops_value` and `valid_age_envelope`: the shapes of what SOPS and age write.
use Prim.Native.String
use home_server.Common.{
  ℕ, ◌+◌, ◌-◌, ◌*◌, ◌/◌, ◌%◌, code, String, str_eq, strip, lstrip, rstrip, is_space, length, ◌==◌,
  ◌&&◌, ◌||◌, if◌then◌else◌, Bool, true, false, List, [], ◌∷◌, ◌++◌, Option, none, some,
}
use home_server.Common.Regex.{
  Regex, one, both, many, text_of, optional, some_of, alphanumeric, between, matches,
}
use home_server.Common.Lines.{partition, splitlines}
use home_server.Json.{Value, str, null}

-- what stands behind a prefix
unfoldable pub behind : String → String → Option String
behind String.[] s = some s
behind (String.◌∷◌ c p) String.[] = none
behind (String.◌∷◌ c p) (String.◌∷◌ d s) = if code c == code d then behind p s else none

abbrev pub base64_code : ℕ → Bool
base64_code c = alphanumeric c || c == b'+' || c == b'/'

abbrev padding : Regex
padding = both (optional (text_of "=")) (optional (text_of "="))

abbrev pub data_pattern : Regex
data_pattern = both (many (one base64_code)) padding

abbrev pub block_pattern : Regex
block_pattern = both (some_of (one base64_code)) padding

-- The value of a base64 character.
abbrev sextet : ℕ → Option ℕ
sextet c =
    if between b'A' b'Z' c
    then some (c - b'A')
    else if between b'a' b'z' c
    then some (c - b'a' + 26)
    else if between b'0' b'9' c
    then some (c - b'0' + 52)
    else if c == b'+'
    then some 62
    else if c == b'/'
    then some 63
    else none

-- The bytes of four values; the two tests say that the third and the fourth character are "=".
abbrev bytes_of : Option ℕ → Option ℕ → Option ℕ → Option ℕ → Bool → Bool → Option (List ℕ)
bytes_of none y z v third fourth = none
bytes_of (some x) none z v third fourth = none
bytes_of (some x) (some y) none v third fourth =
    if third && fourth then some ((x * 4 + y / 16) ∷ []) else none
bytes_of (some x) (some y) (some z) none third fourth =
    if fourth then some ((x * 4 + y / 16) ∷ (y % 16 * 16 + z / 4) ∷ []) else none
bytes_of (some x) (some y) (some z) (some v) third fourth =
    some ((x * 4 + y / 16) ∷ (y % 16 * 16 + z / 4) ∷ (z % 4 * 64 + v) ∷ [])

-- The bytes of four characters; "=" may stand for the last one or two of the text.
abbrev quartet : ℕ → ℕ → ℕ → ℕ → String → Option (List ℕ)
quartet a b c d rest =
    bytes_of (sextet a) (sextet b) (sextet c) (sextet d) (c == b'=') (d == b'=' && str_eq rest "")

abbrev join_bytes : Option (List ℕ) → Option (List ℕ) → Option (List ℕ)
join_bytes none more = none
join_bytes (some bytes) none = none
join_bytes (some bytes) (some more) = some (bytes ++ more)

abbrev only_padding : String → Bool
only_padding String.[] = true
only_padding (String.◌∷◌ c s) = code c == b'=' && only_padding s

-- base64.b64decode(text, validate=True), as in Python 3.11 to 3.13, which pass over any "=" behind four
-- characters that hold three bytes; `none` where it raises
unfoldable pub b64decode : String → Option (List ℕ)
b64decode String.[] = some []
b64decode (String.◌∷◌ a (String.◌∷◌ b (String.◌∷◌ c (String.◌∷◌ d rest)))) =
    let more = b64decode rest in
    join_bytes (quartet (code a) (code b) (code c) (code d) rest)
      (if only_padding rest then some [] else more)
b64decode _ = none

-- The groups "data", "iv" and "tag" of a match. None of them holds a comma.
abbrev and_then : Option String → (String → Option (List String)) → Option (List String)
and_then none f = none
and_then (some s) f = f s

abbrev group :
    Regex → Option (String × String) → (String → Option (List String)) → Option (List String)
unfolding matches
group r none f = none
group r (some (content, rest)) f = elim (f rest) [
  | none ↦ none
  | some groups ↦ if matches r content then some (content ∷ groups) else none
]

unfoldable pub sops_groups : String → Option (List String)
unfolding partition behind group
sops_groups value = and_then (behind "ENC[AES256_GCM,data:" value) λ s.
    group data_pattern (partition b',' s) λ s. and_then (behind "iv:" s) λ s.
      group block_pattern (partition b',' s) λ s. and_then (behind "tag:" s) λ s.
        group block_pattern (partition b',' s) λ s. if str_eq s "type:str]" then some [] else none

abbrev decodes_to : ℕ → String → Bool
unfolding b64decode
decodes_to n s = elim (b64decode s) [ none ↦ false | some bytes ↦ length bytes == n ]

abbrev decodes : String → Bool
unfolding b64decode
decodes s = elim (b64decode s) [ none ↦ false | some bytes ↦ true ]

abbrev groups_decode : List String → Bool
unfolding decodes decodes_to
groups_decode (content ∷ iv ∷ tag ∷ []) = decodes content && (decodes_to 32 iv && decodes_to 16 tag)
groups_decode _ = false

unfoldable pub valid_sops_value : Value → Bool
unfolding sops_groups groups_decode
valid_sops_value (str value) = elim (sops_groups value) [
  | none ↦ false
  | some groups ↦ groups_decode groups
]
valid_sops_value _ = false

unfoldable pub is_encrypted_or_null : Value → Bool
unfolding valid_sops_value
is_encrypted_or_null null = true
is_encrypted_or_null value = valid_sops_value value

-- "age-encryption.org/v1\n" as bytes
abbrev age_magic : List ℕ
age_magic =
    97 ∷ 103 ∷ 101 ∷ 45 ∷ 101 ∷ 110 ∷ 99 ∷ 114 ∷ 121 ∷ 112 ∷ 116 ∷ 105 ∷ 111 ∷ 110 ∷ 46 ∷ 111 ∷ 114
    ∷ 103 ∷ 47 ∷ 118 ∷ 49 ∷ 10 ∷ []

abbrev begins : List ℕ → List ℕ → Bool
begins [] bytes = true
begins (m ∷ magic) [] = false
begins (m ∷ magic) (b ∷ bytes) = m == b && begins magic bytes

-- lines[1:-1] joined, if the last line is the end mark
abbrev payload_of : List String → Option String
payload_of [] = none
payload_of (line ∷ []) = if str_eq line "-----END AGE ENCRYPTED FILE-----" then some "" else none
payload_of (line ∷ next ∷ lines) = elim (payload_of (next ∷ lines)) [
  | none ↦ none
  | some payload ↦ some (String.◌++◌ line payload)
]

abbrev armored : List String → Bool
unfolding b64decode
armored (first ∷ second ∷ third ∷ lines) =
    str_eq first "-----BEGIN AGE ENCRYPTED FILE-----"
    && (elim (payload_of (second ∷ third ∷ lines)) [
      | none ↦ false
      | some payload ↦ elim (b64decode payload) [
        | none ↦ false
        | some bytes ↦ begins age_magic bytes
      ]
    ])
armored _ = false

unfoldable pub valid_age_envelope : Value → Bool
unfolding armored splitlines lstrip rstrip is_space
valid_age_envelope (str value) = armored (splitlines (strip value))
valid_age_envelope _ = false
