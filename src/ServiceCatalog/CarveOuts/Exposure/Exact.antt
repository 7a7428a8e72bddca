-- ===== src/ServiceCatalog/CarveOuts/Exposure/Exact.antt =====
-- The paths that rules expose, and the tests of a text in a list.
use home_server.Common.{
  ◌∈◌, contains, String, str_eq, eq_refl, ◌≡◌, ◌≢◌, refl, inl, inr, Bool-cases, true, false, any,
  List, [], ◌∷◌,
}
use home_server.Json.{Value, str, eq_str, eq_str→≡, holds_str}
use home_server.ServiceCatalog.Routes.{Rule}

pub holds_str→in : (vs : List Value) (s : String) → holds_str vs s ≡ true → str s ∈ vs
holds_str→in [] s h = cc
holds_str→in (v ∷ vs) s h = elim (Bool-cases (eq_str v s)) [
  | inl e ↦ inl (eq_str→≡ v s e)
  | inr e ↦ inr (holds_str→in vs s (rw e at h))
]

pub in→holds_str : (vs : List Value) (s : String) → str s ∈ vs → holds_str vs s ≡ true
in→holds_str [] s m = absurd m
in→holds_str (v ∷ vs) s (inl e) = rw (e, eq_refl s)
in→holds_str (v ∷ vs) s (inr m) = elim (Bool-cases (eq_str v s)) [
  | inl e ↦ rw e
  | inr e ↦ rw e (in→holds_str vs s m)
]

pub any→in :
    (v : Value) (ss : List String)
    → any (eq_str v) ss ≡ true
    → (s : String) × (v ≡ str s) × (s ∈ ss)
any→in v [] h = cc
any→in v (s ∷ ss) h = elim (Bool-cases (eq_str v s)) [
  | inl e ↦ (s, eq_str→≡ v s e, inl refl)
  | inr e ↦ let (t, same, m) = any→in v ss (rw e at h) in (t, same, inr m)
]

pub in→any : (s : String) (ss : List String) → s ∈ ss → any (eq_str (str s)) ss ≡ true
in→any s [] m = absurd m
in→any s (t ∷ ss) (inl e) = rw (e, eq_refl s)
in→any s (t ∷ ss) (inr m) = elim (Bool-cases (str_eq s t)) [
  | inl e ↦ rw e
  | inr e ↦ rw e (in→any s ss m)
]

module _ (m : String) where
  -- A rule that the access middleware does not guard.
  abbrev pub Ungated : Rule → Type 0
  Ungated rule = contains rule.filters m ≡ false

  -- A path that some rule exposes.
  abbrev pub Exposed : List Rule → String → Type 0
  Exposed rules p = (rule : Rule) × (rule ∈ rules) × Ungated rule × (p ∈ rule.paths)

  -- No rule exposes every path, and the exposed paths are the declared ones.
  pub record IsExact (rules : List Rule) (declared : List Value) : Type 0 where
    pub bounded : (rule : Rule) → rule ∈ rules → Ungated rule → rule.paths ≢ []
    pub intended : (p : String) → Exposed rules p → str p ∈ declared
    pub rendered : (v : Value) → v ∈ declared → (p : String) × (v ≡ str p) × Exposed rules p
