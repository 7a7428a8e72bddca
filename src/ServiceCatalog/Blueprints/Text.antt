-- ===== src/ServiceCatalog/Blueprints/Text.antt =====
-- `yaml_string` of scripts/service_catalog.py: `json.dumps` of a text, without the escapes of ASCII only.
use Prim.Native.Nat.{ℕ, ◌/◌, ◌%◌}
use Prim.Native.String
use home_server.Common.{
  Char, code, ltb, ◌==◌, ◌||◌, ◌≡◌, refl, String, concat, Bool, [], ◌∷◌, if◌then◌else◌,
}

abbrev hex_digit : ℕ → String
hex_digit n =
    if n == 0
    then "0"
    else if n == 1
    then "1"
    else if n == 2
    then "2"
    else if n == 3
    then "3"
    else if n == 4
    then "4"
    else if n == 5
    then "5"
    else if n == 6
    then "6"
    else if n == 7
    then "7"
    else if n == 8
    then "8"
    else if n == 9
    then "9"
    else if n == 10
    then "a"
    else if n == 11
    then "b"
    else if n == 12
    then "c"
    else if n == 13
    then "d"
    else if n == 14
    then "e"
    else "f"

-- The escape of a character that is escaped.
abbrev escape_of : ℕ → String
unfolding concat
escape_of c =
    if c == 0x22
    then "\\\""
    else if c == 0x5c
    then "\\\\"
    else if c == 10
    then "\\n"
    else if c == 13
    then "\\r"
    else if c == 9
    then "\\t"
    else if c == 8
    then "\\b"
    else if c == 12
    then "\\f"
    else concat ("\\u00" ∷ hex_digit (c / 16) ∷ hex_digit (c % 16) ∷ [])

abbrev is_escaped : ℕ → Bool
is_escaped c = ltb c 32 || c == 0x22 || c == 0x5c

unfoldable pub json_text : String → String
unfolding escape_of
json_text String.[] = ""
json_text (String.◌∷◌ c s) =
    let rest = json_text s in
    if is_escaped (code c) then String.◌++◌ (escape_of (code c)) rest else String.◌∷◌ c rest

unfoldable pub yaml_string : String → String
unfolding concat json_text
yaml_string value = concat ("\"" ∷ json_text value ∷ "\"" ∷ [])

-- s.rstrip("\n")
abbrev feed_cons : Char → String → String
feed_cons c String.[] = if code c == b'\n' then "" else String.◌∷◌ c ""
feed_cons c (String.◌∷◌ d s) = String.◌∷◌ c (String.◌∷◌ d s)

unfoldable pub rstrip_feed : String → String
rstrip_feed String.[] = ""
rstrip_feed (String.◌∷◌ c s) = feed_cons c (rstrip_feed s)

escapes : yaml_string "a\"b\\\n" ≡ "\"a\\\"b\\\\\\n\""
unfolding yaml_string
escapes = refl
