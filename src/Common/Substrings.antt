-- ===== src/Common/Substrings.antt =====
-- `needle in text` for texts.
use Prim.Native.Nat.{ℕ}
use Prim.Native.String
use Prim.Native.String.{String}
use mathlib.Core.Path.{◌≡◌, refl, sym}
use mathlib.Core.Logic.{◌↔◌, inl, inr}
use mathlib.Core.Bool.{Bool, true, ◌&&◌, ◌||◌}
use native.Mathlib.Omega.{arith}
use text.Mathlib.TextEquality.{Char-path}
use text.Mathlib.TextLemmas.{nil-append, cons-append}
use home_server.Common.Tests.{◌==◌, Bool-cases}
use home_server.Common.Text.{starts_with}

unfoldable pub occurs : String → String → Bool
occurs needle String.[] = starts_with "" needle
occurs needle (String.◌∷◌ c text) = starts_with (String.◌∷◌ c text) needle || occurs needle text

-- The text is made of the needle and what stands before and after it.
pub record IsSubstring (needle text : String) : Type 0 where
  pub before : String
  pub after : String
  pub whole : text ≡ String.◌++◌ before (String.◌++◌ needle after)

prefix_of : (s p : String) → starts_with s p ≡ true → (after : String) × (s ≡ String.◌++◌ p after)
unfolding starts_with
prefix_of s String.[] h = (s, sym (nil-append s))
prefix_of String.[] (String.◌∷◌ d p) h = cc
prefix_of (String.◌∷◌ c s) (String.◌∷◌ d p) h =
    let (same, rest) = both_true h in
    let (after, e) = prefix_of s p rest in (after, rw (cons-append, Char-path c d same, e))
  where
    both_true : {a b : ℕ} {t : Bool} → (a == b && t) ≡ true → (a ≡ b) × (t ≡ true)
    both_true h = ground arith

of_prefix : (p after : String) → starts_with (String.◌++◌ p after) p ≡ true
unfolding starts_with
of_prefix String.[] after = refl
of_prefix (String.◌∷◌ d p) after = rw (cons-append, of_prefix p after) (ground arith)

occurs-IsSubstring : (needle text : String) → occurs needle text ≡ true → IsSubstring needle text
unfolding occurs
occurs-IsSubstring needle String.[] h =
    let (after, e) = prefix_of "" needle h in
    record { before = ""; after = after; whole = rw nil-append e }
occurs-IsSubstring needle (String.◌∷◌ c text) h =
    elim (Bool-cases (starts_with (String.◌∷◌ c text) needle)) [
      | inl e ↦
          let (after, e) = prefix_of (String.◌∷◌ c text) needle e in
          record { before = ""; after = after; whole = rw nil-append e }
      | inr e ↦
          let m = occurs-IsSubstring needle text (rw e at h) in
          record {
            before = String.◌∷◌ c m.before;
            after = m.after;
            whole = rw (cons-append, m.whole);
          }
    ]

occurs_at :
    (needle before after : String)
    → occurs needle (String.◌++◌ before (String.◌++◌ needle after)) ≡ true
unfolding occurs
occurs_at needle String.[] after =
    rw nil-append (occurs_at_start (String.◌++◌ needle after) (of_prefix needle after))
  where
    occurs_at_start : (text : String) → starts_with text needle ≡ true → occurs needle text ≡ true
    occurs_at_start String.[] h = h
    occurs_at_start (String.◌∷◌ c text) h = rw h
occurs_at needle (String.◌∷◌ c before) after =
    rw (cons-append, occurs_at needle before after) (ground arith)

pub occurs-IsSubstring_iff :
    (needle text : String) → (occurs needle text ≡ true) ↔ IsSubstring needle text
occurs-IsSubstring_iff needle text =
    (occurs-IsSubstring needle text, λ m. rw m.whole (occurs_at needle m.before m.after))
