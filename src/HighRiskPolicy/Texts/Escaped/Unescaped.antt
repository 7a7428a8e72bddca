-- ===== src/HighRiskPolicy/Texts/Escaped/Unescaped.antt =====
-- The escape of a part of a finding can be undone.
use Prim.Native.String
use text.Mathlib.TextEquality.{Char-path}
use text.Mathlib.TextLemmas.{nil-append, cons-append, append_assoc}
use home_server.Common.{
  ℕ, Char, code, String, ◌≡◌, refl, sym, ap, ◌∙◌, inl, inr, Bool-cases, false, ◌==◌, if◌then◌else◌,
  arith,
}
use home_server.Common.Replace.{replace}
use home_server.HighRiskPolicy.Texts.{escape}

pub replace-append :
    (c : ℕ) (t x y : String)
    → replace c t (String.◌++◌ x y) ≡ String.◌++◌ (replace c t x) (replace c t y)
unfolding replace
replace-append c t String.[] y = rw (nil-append, nil-append) refl
replace-append c t (String.◌∷◌ d x) y = elim (Bool-cases (code d == c)) [
  | inl e ↦ rw (cons-append d x y, e, replace-append c t x y) (sym (append_assoc t _ _))
  | inr e ↦ rw (cons-append d x y, e, replace-append c t x y) (sym (cons-append d _ _))
]

pub escape-append : (x y : String) → escape (String.◌++◌ x y) ≡ String.◌++◌ (escape x) (escape y)
unfolding escape
escape-append x y =
    rw
      (
        replace-append b'%' "%25" x y,
        replace-append b'|' "%7C" _ _,
        replace-append b'\r' "%0D" _ _,
        replace-append b'\n' "%0A" _ _,
      )
      refl

-- Where the reader of an escaped text is: outside an escape, behind its mark, or behind its first digit.
data Place : Type 0 where
  outside mark : Place
  behind : Char → Place

abbrev decoded : Char → Char → Char
decoded a b =
    if code a == b'2'
    then "%"
    else if code a == b'7'
    then "|"
    else if code b == b'D'
    then "\r"
    else "\n"

unfoldable unescape : Place → String → String
unescape place String.[] = ""
unescape outside (String.◌∷◌ c s) =
    if code c == b'%' then unescape mark s else String.◌∷◌ c (unescape outside s)
unescape mark (String.◌∷◌ a s) = unescape (behind a) s
unescape (behind a) (String.◌∷◌ b s) = String.◌∷◌ (decoded a b) (unescape outside s)

one : Char → String
one c = String.◌∷◌ c ""

three :
    (a b c : Char) (r : String)
    → String.◌++◌ (String.◌∷◌ a (String.◌∷◌ b (String.◌∷◌ c ""))) r
      ≡ String.◌∷◌ a (String.◌∷◌ b (String.◌∷◌ c r))
three a b c r =
    rw
      (
        cons-append a (String.◌∷◌ b (String.◌∷◌ c "")) r,
        cons-append b (String.◌∷◌ c "") r,
        cons-append c "" r,
        nil-append r,
      )
      refl

module _ (r : String) where
  -- One character is read back.
  read_percent :
      unescape outside (String.◌++◌ (escape (one "%")) r) ≡ String.◌∷◌ "%" (unescape outside r)
  unfolding unescape one escape replace
  read_percent = rw (three "%" "2" "5" r) refl

  read_bar :
      unescape outside (String.◌++◌ (escape (one "|")) r) ≡ String.◌∷◌ "|" (unescape outside r)
  unfolding unescape one escape replace
  read_bar = rw (three "%" "7" "C" r) refl

  read_return :
      unescape outside (String.◌++◌ (escape (one "\r")) r) ≡ String.◌∷◌ "\r" (unescape outside r)
  unfolding unescape one escape replace
  read_return = rw (three "%" "0" "D" r) refl

  read_feed :
      unescape outside (String.◌++◌ (escape (one "\n")) r) ≡ String.◌∷◌ "\n" (unescape outside r)
  unfolding unescape one escape replace
  read_feed = rw (three "%" "0" "A" r) refl

  read_plain :
      (c : Char)
      → (code c == b'%') ≡ false
      → (code c == b'|') ≡ false
      → (code c == b'\r') ≡ false
      → (code c == b'\n') ≡ false
      → unescape outside (String.◌++◌ (escape (one c)) r) ≡ String.◌∷◌ c (unescape outside r)
  unfolding unescape one escape replace
  read_plain c e f g h = rw (e, f, g, h, cons-append c "" r, nil-append r, e) refl

read_one :
    (c : Char) (r : String)
    → unescape outside (String.◌++◌ (escape (one c)) r) ≡ String.◌∷◌ c (unescape outside r)
read_one c r = elim (Bool-cases (code c == b'%')) [
  | inl e ↦ rw (Char-path c "%" (ground arith)) (read_percent r)
  | inr e ↦ elim (Bool-cases (code c == b'|')) [
    | inl f ↦ rw (Char-path c "|" (ground arith)) (read_bar r)
    | inr f ↦ elim (Bool-cases (code c == b'\r')) [
      | inl g ↦ rw (Char-path c "\r" (ground arith)) (read_return r)
      | inr g ↦ elim (Bool-cases (code c == b'\n')) [
        | inl h ↦ rw (Char-path c "\n" (ground arith)) (read_feed r)
        | inr h ↦ read_plain r c e f g h
      ]
    ]
  ]
]

unescape-escape : (s : String) → unescape outside (escape s) ≡ s
unfolding one
unescape-escape String.[] = unfold escape replace unescape in refl
unescape-escape (String.◌∷◌ c s) =
    let apart : String.◌∷◌ c s ≡ String.◌++◌ (one c) s =
      sym (cons-append c "" s ∙ ap (String.◌∷◌ c) (nil-append s)) in
    ap (λ x. unescape outside (escape x)) apart
    ∙ ap (unescape outside) (escape-append (one c) s)
    ∙ read_one c (escape s)
    ∙ ap (String.◌∷◌ c) (unescape-escape s)

-- Two texts with one escape are the same.
pub escape-injective : (x y : String) → escape x ≡ escape y → x ≡ y
escape-injective x y e = sym (unescape-escape x) ∙ ap (unescape outside) e ∙ unescape-escape y
