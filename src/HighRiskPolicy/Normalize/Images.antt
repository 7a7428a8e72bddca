-- ===== src/HighRiskPolicy/Normalize/Images.antt =====
-- The pinned references of images in a text.
use home_server.Common.{
  ℕ, ◌-◌, String, concat, prefix, size, ◌==◌, ◌||◌, Bool, false, [], ◌∷◌, none, some,
}
use home_server.Common.Regex.{
  Regex, one, both, many, text_of, times, optional, some_of, alphanumeric, digit_code, hex_code,
  matches, substitute,
}
use home_server.Json.{Value, str}
use home_server.HighRiskPolicy.Patterns.{full_sha256, behind_last, final_component}

abbrev name_char : ℕ → Bool
name_char c = alphanumeric c || c == b'.' || c == b'_' || c == b'-'

-- PINNED_IMAGE_REFERENCE. Neither a name nor a tag holds an "@", so that all matches from one place end
-- behind the same digest.
abbrev pub pinned_image_reference : Regex
pinned_image_reference =
    let component = some_of (one name_char) in
    both
      (many (
        both component
          (both (optional (both (text_of ":") (some_of (one digit_code)))) (text_of "/"))))
      (both component (
        both (optional (both (text_of ":") (both (one alphanumeric) (many (one name_char)))))
          (both (text_of "@sha256:") (times 64 (one hex_code)))))

-- `match.group("name")` and whether there is a `tag`, of what stands before the digest
abbrev before_tag : ℕ → String → String
before_tag n reference = prefix (size reference - n - 1) reference

abbrev pub unpinned : String → String
unfolding behind_last concat
unpinned matched =
    let reference = prefix (size matched - 72) matched in
    elim (behind_last b':' (final_component reference)) [
      | none ↦ concat (reference ∷ "@sha256:<immutable-digest>" ∷ [])
      | some tag ↦
          concat (
            before_tag (size tag) reference
            ∷ ":<immutable-tag>"
            ∷ "@sha256:<immutable-digest>"
            ∷ [])
    ]

unfoldable pub normalize_pinned_image_text : String → String
unfolding unpinned substitute
normalize_pinned_image_text = substitute pinned_image_reference unpinned 0

abbrev pub is_full_sha256 : Value → Bool
unfolding matches
is_full_sha256 (str s) = matches full_sha256 s
is_full_sha256 _ = false
