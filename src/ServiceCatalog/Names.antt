-- ===== src/ServiceCatalog/Names.antt =====
-- scripts/service_catalog.py: what a name or a generated URL may look like.
pub mod Variables
use Prim.Native.String
use home_server.Common.{
  ℕ, leb, ◌==◌, code, Char, concat, String, str_eq, ends_with, starts_with, size, Bool, false, not,
  ◌&&◌, ◌||◌, List, [], ◌∷◌, all, if◌then◌else◌, Py, ok, ◌>>=◌,
}
use home_server.Common.Regex.{
  Regex, one, both, many, optional, matches, between, digit_code, alphanumeric,
}
use home_server.ServiceCatalog.Paths.{Repository, ParsedUrl}

abbrev lower_or_digit : ℕ → Bool
lower_or_digit c = digit_code c || between b'a' b'z' c

-- DNS_LABEL_PATTERN: the bounds of its repetition bound the length.
abbrev dns_label_pattern : Regex
dns_label_pattern =
    both (one lower_or_digit)
      (optional (both (many (one (λ c. lower_or_digit c || c == b'-'))) (one lower_or_digit)))

unfoldable pub is_dns_label : String → Bool
unfolding matches
is_dns_label s = leb (size s) 63 && matches dns_label_pattern s

-- AUTHENTIK_IDENTIFIER_PATTERN
abbrev authentik_identifier_pattern : Regex
authentik_identifier_pattern = both (one alphanumeric) (
    optional (
      both (many (one (λ c. alphanumeric c || c == b'_' || c == b'.' || c == b':' || c == b'-')))
        (one alphanumeric)))

unfoldable pub is_authentik_identifier : String → Bool
unfolding matches
is_authentik_identifier s = leb (size s) 128 && matches authentik_identifier_pattern s

-- s.split(c), the first part apart from the others
abbrev split_from : ℕ → String → String × List String
split_from c String.[] = ("", [])
split_from c (String.◌∷◌ d s) =
    let (part, others) = split_from c s in
    if code d == c then ("", part ∷ others) else (String.◌∷◌ d part, others)

abbrev pub split : ℕ → String → List String
split c s = let (part, others) = split_from c s in part ∷ others

unfoldable pub is_dns_name : String → Bool
unfolding ends_with is_dns_label
is_dns_name value =
    leb (size value) 253 && not (ends_with value ".") && all is_dns_label (split b'.' value)

abbrev same_host : String → ParsedUrl → Bool
unfolding starts_with
same_host hostname parsed =
    str_eq parsed.scheme "https"
    && str_eq parsed.netloc hostname
    && (str_eq parsed.path "" || starts_with parsed.path "/")
    && str_eq parsed.fragment ""

unfoldable pub is_same_host_https_url : Repository → String → String → Py Bool
unfolding same_host
is_same_host_https_url w value hostname =
    w.urlparse value >>= λ parsed. ok (same_host hostname parsed)

-- re.sub(r"[^A-Z0-9]+", "_", s); the Boolean says whether the last character was replaced
abbrev key_code : ℕ → Bool
key_code c = digit_code c || between b'A' b'Z' c

abbrev key_text : Bool → String → String
key_text replacing String.[] = ""
key_text replacing (String.◌∷◌ c s) =
    let rest = key_text (not (key_code (code c))) s in
    if key_code (code c)
    then String.◌∷◌ c rest
    else if replacing
    then rest
    else String.◌++◌ "_" rest

-- s.strip("_")
abbrev lstrip_bar : String → String
lstrip_bar String.[] = ""
lstrip_bar (String.◌∷◌ c s) = if code c == b'_' then lstrip_bar s else String.◌∷◌ c s

abbrev bar_cons : Char → String → String
bar_cons c String.[] = if code c == b'_' then "" else String.◌∷◌ c ""
bar_cons c (String.◌∷◌ d s) = String.◌∷◌ c (String.◌∷◌ d s)

abbrev rstrip_bar : String → String
rstrip_bar String.[] = ""
rstrip_bar (String.◌∷◌ c s) = bar_cons c (rstrip_bar s)

unfoldable pub authentik_secret_key : Repository → String → String
unfolding concat
authentik_secret_key w service_id = concat (
    "AUTHENTIK_OIDC_"
    ∷ rstrip_bar (lstrip_bar (key_text false (w.upper service_id)))
    ∷ "_CLIENT_SECRET"
    ∷ [])
