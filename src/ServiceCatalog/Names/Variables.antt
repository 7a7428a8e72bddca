-- ===== src/ServiceCatalog/Names/Variables.antt =====
-- The variable of a client's secret: what the text between its fixed ends may be.
use Prim.Native.String
use Prim.Native.Char.{char}
use text.Mathlib.TextLemmas.{nil-append, cons-append}
use home_server.Common.{
  ap, ◌∙◌, ℕ, ◌==◌, code, Char, concat, String, Bool, Bool-cases, true, false, not, ◌≡◌, refl, ◌⊎◌,
  inl, inr, [], ◌∷◌, arith,
}
use home_server.ServiceCatalog.Paths.{Repository}
use home_server.ServiceCatalog.Names.{
  key_code, key_text, lstrip_bar, bar_cons, rstrip_bar, authentik_secret_key,
}

abbrev IsBar : Char → Type 0
IsBar c = (code c == b'_') ≡ true

-- Capital letters and digits, with single underscores: none at the start where `after` is true.
abbrev Single : Bool → String → Type 0
Single after String.[] = Unit
Single after (String.◌∷◌ c s) =
    ((key_code (code c) ≡ true) × Single false s) ⊎ (IsBar c × (after ≡ false) × Single true s)

abbrev IsSome : String → Type 0
IsSome String.[] = ⊥
IsSome (String.◌∷◌ c s) = Unit

-- The same, and no underscore at the end.
abbrev pub Words : Bool → String → Type 0
Words after String.[] = Unit
Words after (String.◌∷◌ c s) =
    ((key_code (code c) ≡ true) × Words false s)
    ⊎ (IsBar c × (after ≡ false) × IsSome s × Words true s)

abbrev bar : Char
bar = char b'_' tt

bar_first : (s : String) → String.◌++◌ "_" s ≡ String.◌∷◌ bar s
bar_first s = cons-append bar "" s ∙ ap (String.◌∷◌ bar) (nil-append s)

key_text-Single : (replacing : Bool) (s : String) → Single replacing (key_text replacing s)
key_text-Single replacing String.[] = tt
key_text-Single replacing (String.◌∷◌ c s) =
    let rest = key_text-Single (not (key_code (code c))) s in
    elim (Bool-cases (key_code (code c))) [
      | inl e ↦ rw e (inl (e, rw e at rest))
      | inr e ↦ rw e (elim (Bool-cases replacing) [
        | inl r ↦ rw r (rw e at rest)
        | inr r ↦ rw (r, bar_first (key_text true s)) (inr (refl, refl, rw e at rest))
      ])
    ]

key_code-bar : (n : ℕ) → key_code n ≡ true → (n == b'_') ≡ false
key_code-bar n h = ground arith

lstrip_bar-after : (s : String) → Single true s → Single true (lstrip_bar s)
lstrip_bar-after String.[] h = tt
lstrip_bar-after (String.◌∷◌ c s) (inl (e, h)) = rw (key_code-bar (code c) e) (inl (e, h))
lstrip_bar-after (String.◌∷◌ c s) (inr (e, f, h)) = cc

lstrip_bar-Single : (s : String) → Single false s → Single true (lstrip_bar s)
lstrip_bar-Single String.[] h = tt
lstrip_bar-Single (String.◌∷◌ c s) (inl (e, h)) = rw (key_code-bar (code c) e) (inl (e, h))
lstrip_bar-Single (String.◌∷◌ c s) (inr (e, f, h)) = rw e (lstrip_bar-after s h)

rstrip_bar-Words : (after : Bool) (s : String) → Single after s → Words after (rstrip_bar s)
rstrip_bar-Words after String.[] h = tt
rstrip_bar-Words after (String.◌∷◌ c s) (inl (e, h)) =
    bar_cons-key c (rstrip_bar s) e (rstrip_bar-Words false s h)
  where
    bar_cons-key :
        (c : Char) (s : String)
        → key_code (code c) ≡ true
        → Words false s
        → Words after (bar_cons c s)
    bar_cons-key c String.[] e h = rw (key_code-bar (code c) e) (inl (e, tt))
    bar_cons-key c (String.◌∷◌ d s) e h = inl (e, h)
rstrip_bar-Words after (String.◌∷◌ c s) (inr (e, f, h)) =
    bar_cons-bar c (rstrip_bar s) e f (rstrip_bar-Words true s h)
  where
    bar_cons-bar :
        (c : Char) (s : String)
        → IsBar c
        → after ≡ false
        → Words true s
        → Words after (bar_cons c s)
    bar_cons-bar c String.[] e f h = rw e tt
    bar_cons-bar c (String.◌∷◌ d s) e f h = inr (e, f, tt, h)

-- The variable of a service's secret is AUTHENTIK_OIDC_, a text and _CLIENT_SECRET, where the text has
-- capital ASCII letters and digits only, with single underscores between them, whatever the service's id
-- is and whatever its capitals are.
pub authentik_secret_key-Words :
    (w : Repository) (id : String)
    → (core : String) × (authentik_secret_key w id
        ≡ concat ("AUTHENTIK_OIDC_" ∷ core ∷ "_CLIENT_SECRET" ∷ []))
      × Words true core
unfolding authentik_secret_key
authentik_secret_key-Words w id =
    let core = rstrip_bar (lstrip_bar (key_text false (w.upper id))) in
    (
      core,
      refl,
      rstrip_bar-Words true (lstrip_bar (key_text false (w.upper id)))
          (lstrip_bar-Single (key_text false (w.upper id)) (key_text-Single false (w.upper id))),
    )
