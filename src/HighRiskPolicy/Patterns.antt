-- ===== src/HighRiskPolicy/Patterns.antt =====
-- The regular expressions of check-high-risk-policy.py, and `mutable_tag`.
use Prim.Native.String
use home_server.Common.{
  ℕ, code, String, ends_with, ◌==◌, ◌||◌, if◌then◌else◌, Bool, true, false, List, [], ◌∷◌, any,
  contains, Option, none, some,
}
use home_server.Common.Regex.{
  Regex, one, both, either, many, matches, text_of, times, optional, some_of, any_char,
  alphanumeric, digit_code, hex_code, between,
}

-- `search` of a pattern that ends in `$`: anything before it, and a line feed may follow.
abbrev search_at_end : Regex → Regex
search_at_end r = both (many any_char) (both r (optional (one (λ c. c == b'\n'))))

abbrev pub digest_image : Regex
digest_image = both (text_of "@sha256:") (times 64 (one hex_code))

abbrev pub sha256_digest : Regex
sha256_digest = both (text_of "sha256:") (times 64 (one hex_code))

abbrev pub image_flag : Regex
image_flag = both (text_of "--") (
    both (one alphanumeric) (
      both (many (one (λ c. alphanumeric c || c == b'_' || c == b'.' || c == b'-')))
        (text_of "image")))

abbrev pub full_git_commit : Regex
full_git_commit = both (times 40 (one hex_code)) (optional (times 24 (one hex_code)))

abbrev pub full_sha256 : Regex
full_sha256 = both (optional (text_of "sha256:")) (times 64 (one hex_code))

-- 0|[1-9][0-9]*
abbrev numeric : Regex
numeric = either (text_of "0") (both (one (between b'1' b'9')) (many (one digit_code)))

-- [0-9A-Za-z-]+(?:\.[0-9A-Za-z-]+)* behind a mark
abbrev identifiers : String → Regex
identifiers mark =
    let identifier = some_of (one (λ c. alphanumeric c || c == b'-')) in
    both (text_of mark) (both identifier (many (both (text_of ".") identifier)))

abbrev pub exact_semver : Regex
exact_semver = both (optional (text_of "v")) (
    both numeric (
      both (text_of ".") (
        both numeric (
          both (text_of ".")
            (both numeric (both (optional (identifiers "-")) (optional (identifiers "+"))))))))

-- DIGEST_IMAGE.search(image) is not None
unfoldable pub is_digest_image : String → Bool
unfolding matches
is_digest_image image = matches (search_at_end digest_image) image

-- IMAGE_ENVIRONMENT.search(name): `(?:^|_)IMAGE$`
unfoldable pub is_image_environment : String → Bool
unfolding matches
is_image_environment name =
    matches (search_at_end (text_of "_IMAGE")) name
    || matches (both (text_of "IMAGE") (optional (one (λ c. c == b'\n')))) name

abbrev pub mutable_tags : List String
mutable_tags = "develop" ∷ "edge" ∷ "latest" ∷ "main" ∷ "master" ∷ "nightly" ∷ "snapshot" ∷ []

-- What stands behind the last `c`, if there is one.
unfoldable pub behind_last : ℕ → String → Option String
behind_last c String.[] = none
behind_last c (String.◌∷◌ d s) = elim (behind_last c s) [
  | some t ↦ some t
  | none ↦ if code d == c then some s else none
]

-- image.rsplit("/", 1)[-1]
abbrev pub final_component : String → String
unfolding behind_last
final_component image = elim (behind_last b'/' image) [ none ↦ image | some t ↦ t ]

abbrev is_mutable_name : String → Bool
unfolding ends_with
is_mutable_name tag =
    contains mutable_tags tag || any (λ suffix. ends_with tag (String.◌++◌ "-" suffix)) mutable_tags

-- the test on the tag, if the last component has one
abbrev tag_is_mutable : (String → String) → Option String → Bool
tag_is_mutable lower none = true
tag_is_mutable lower (some tag) = is_mutable_name (lower tag)

unfoldable pub mutable_tag : (String → String) → String → Bool
unfolding is_digest_image behind_last ends_with
mutable_tag lower image =
    if is_digest_image image
    then false
    else tag_is_mutable lower (behind_last b':' (final_component image))
