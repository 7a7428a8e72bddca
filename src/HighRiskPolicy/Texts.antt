-- ===== src/HighRiskPolicy/Texts.antt =====
-- `text`, `resource_id` and `finding`: the parts of a finding, with their separators escaped.
pub mod Escaped
use home_server.Common.{
  String, concat, join, show_int, List, [], ◌∷◌, Option, none, some, Bool, true, false,
}
use home_server.Common.Replace.{replace}
use home_server.Json.{Value, Fields, bool, int, str, get, dict_or_empty}

-- What the script calls of Python's standard library: `str` of a list or a mapping, `str.upper` and
-- `str.lower`, the SHA-256 of a text in hexadecimal, `json.dumps` with sorted keys and no spaces, and
-- the tests on `ipaddress.ip_network(text, strict=False)`, `none` where it raises `ValueError`.
pub record Library : Type 0 where
  pub render : Value → String
  pub upper : String → String
  pub lower : String → String
  pub sha256 : String → String
  pub dumps : Value → String
  -- the network's prefix length is 0
  pub is_default_route : String → Option Bool
  -- it overlaps the first network, or it holds the address
  pub overlaps : String → String → Option Bool
  pub holds_address : String → String → Option Bool

-- `str` is called on texts, integers and Booleans, which are integers.
abbrev pub raw_text : Value → String → String
unfolding show_int
raw_text (str s) fallback = s
raw_text (int n) fallback = show_int n
raw_text (bool true) fallback = "True"
raw_text (bool false) fallback = "False"
raw_text _ fallback = fallback

unfoldable pub escape : String → String
unfolding replace
escape raw = replace b'\n' "%0A" (replace b'\r' "%0D" (replace b'|' "%7C" (replace b'%' "%25" raw)))

unfoldable pub text : Value → String → String
unfolding escape raw_text
text value fallback = escape (raw_text value fallback)

unfoldable pub resource_id : Fields → String
unfolding text get
resource_id document =
    let metadata = dict_or_empty (get "metadata" document) in
    join "|" (
      concat (
        text (get "apiVersion" document) "unknown"
        ∷ "/"
        ∷ text (get "kind" document) "unknown"
        ∷ [])
      ∷ text (get "namespace" metadata) "default"
      ∷ text (get "name" metadata) "unnamed"
      ∷ [])

unfoldable pub finding : String → String → String → String
finding rule identity location = concat (rule ∷ "|" ∷ identity ∷ "|" ∷ location ∷ [])
