-- ===== src/SearchProxy/Results/Valid.antt =====
-- What a result holds, whatever an upstream sends.
use home_server.Common.{
  str_eq, ℕ, suc, ◌+◌, ◌≤◌, String, strip, prefix, size, size-prefix_le, starts_with, eq_iff, ◌≡◌,
  refl, ◌≢◌, inl, inr, true, false, ◌||◌, Bool-cases, List, [], ◌∷◌, All, length, take,
  length-take_le, Option, none, some, arith,
}
use home_server.Json.{Value, Fields, null, str, obj, str_of}
use home_server.SearchProxy.Results.{
  Result, concise, is_web_link, concise_result, accepted, numbered, keep, result_limit,
}

-- An HTTP link, a title that is there, both texts within their limits.
pub record IsValid (r : Result) : Type 0 where
  pub web_link : (starts_with r.link "https://" || starts_with r.link "http://") ≡ true
  pub titled : r.title ≢ ""
  pub title_bound : size r.title ≤ 1_000
  pub snippet_bound : size r.snippet ≤ 4_000

prefix-nonempty : (n : ℕ) (s : String) → s ≢ "" → prefix (suc n) s ≢ ""
prefix-nonempty n String.[] h = λ p. h refl
prefix-nonempty n (String.◌∷◌ c s) h = λ p. cc p

concise-IsValid :
    (render : Value → String) (link title : String) (description : Value) (position : ℕ)
    → is_web_link link ≡ true
    → str_eq (strip title) "" ≡ false
    → IsValid (concise render link title description position)
concise-IsValid render link title description position web titled = record {
  web_link = web;
  titled = prefix-nonempty 999 (strip title) (λ e. cc ((eq_iff (strip title) "").1 e));
  title_bound = size-prefix_le 1_000 (strip title);
  snippet_bound = size-prefix_le 4_000 (strip (str_of render description));
}

accepted-IsValid :
    (render : Value → String) (link title description : Value) (position : ℕ) (r : Result)
    → accepted render link title description position ≡ some r
    → IsValid r × (r.position ≡ position)
unfolding accepted
accepted-IsValid render (str l) (str t) d p r h = elim (Bool-cases (is_web_link l)) [
  | inl web ↦ elim (Bool-cases (str_eq (strip t) "")) [
    | inl blank ↦ cc (rw (web, blank) at h)
    | inr titled ↦
        let e : concise render l t d p ≡ r = cc (rw (web, titled) at h) in
        rw (← e) (concise-IsValid render l t d p web titled, refl)
  ]
  | inr other ↦ cc (rw other at h)
]
accepted-IsValid render (str l) null d p r h = cc
accepted-IsValid render _ _ d p r h = cc

pub concise_result-IsValid :
    (render : Value → String) (item : Fields) (position : ℕ) (r : Result)
    → concise_result render item position ≡ some r
    → IsValid r × (r.position ≡ position)
unfolding concise_result
concise_result-IsValid render item position r h = accepted-IsValid render _ _ _ position r h

-- Positions from `low` on, growing, below `high`.
abbrev pub Positions : ℕ → ℕ → List Result → Type 0
Positions low high [] = low ≤ high
Positions low high (r ∷ rs) = (low ≤ r.position) × Positions (suc r.position) high rs

-- A list of results that a search may return.
abbrev pub Fit : List Result → Type 0
Fit rs = All IsValid rs × Positions 1 11 rs × (length rs ≤ 10)

Positions-lower :
    (low low' high : ℕ) (rs : List Result)
    → low ≤ low'
    → Positions low' high rs
    → Positions low high rs
Positions-lower low low' high [] h k = omega arith
Positions-lower low low' high (r ∷ rs) h k = (omega arith, k.1)

Positions-upper :
    (low high high' : ℕ) (rs : List Result)
    → high ≤ high'
    → Positions low high rs
    → Positions low high' rs
Positions-upper low high high' [] h k = omega arith
Positions-upper low high high' (r ∷ rs) h k = (k.0, Positions-upper _ high high' rs h k.1)

Positions-length :
    (low high : ℕ) (rs : List Result) → Positions low high rs → low + length rs ≤ high
Positions-length low high [] k = omega arith
Positions-length low high (r ∷ rs) k = omega (arith, Positions-length _ high rs k.1)

-- What the callback makes of an item is valid and has the item's number.
abbrev pub Numbers : (Fields → ℕ → Option Result) → Type 0
Numbers concise =
    (item : Fields) (i : ℕ) (r : Result) → concise item i ≡ some r → IsValid r × (r.position ≡ i)

module _ (concise : Fields → ℕ → Option Result) (good : Numbers concise) where
  keep-Fit :
      (i high : ℕ) (o : Option Result) (rs : List Result)
      → ((r : Result) → o ≡ some r → IsValid r × (r.position ≡ i))
      → All IsValid rs × Positions (suc i) high rs
      → All IsValid (keep o rs) × Positions i high (keep o rs)
  keep-Fit i high none rs h k = (k.0, Positions-lower i (suc i) high rs (omega arith) k.1)
  keep-Fit i high (some r) rs h k = let (v, e) = h r refl in ((v, k.0), (omega arith, rw e k.1))

  next_number :
      (i : ℕ) (vs : List Value) (rs : List Result)
      → All IsValid rs × Positions (i + 1) (i + 1 + length vs) rs
      → All IsValid rs × Positions (suc i) (i + suc (length vs)) rs
  next_number i vs rs k =
      let end : i + 1 + length vs ≡ i + suc (length vs) = omega arith in
      let one : i + 1 ≡ suc i = omega arith in (k.0, rw (← one, ← end) k.1)

  numbered-Positions :
      (i : ℕ) (vs : List Value)
      → All IsValid (numbered concise i vs) × Positions i (i + length vs) (numbered concise i vs)
  unfolding numbered
  numbered-Positions i [] = (tt, omega arith)
  numbered-Positions i (obj item ∷ vs) =
      keep-Fit i (i + suc (length vs)) (concise item i) (numbered concise (i + 1) vs) (good item i)
        (next_number i vs _ (numbered-Positions (i + 1) vs))
  numbered-Positions i (_ ∷ vs) =
      let (v, p) = next_number i vs _ (numbered-Positions (i + 1) vs) in
      (v, Positions-lower i (suc i) _ _ (omega arith) p)

  -- At most ten results come of any list of candidates, each valid, with growing positions.
  pub numbered-Fit : (vs : List Value) → Fit (numbered concise 1 (take result_limit vs))
  numbered-Fit vs =
      let (v, p) = numbered-Positions 1 (take result_limit vs) in
      let bound = length-take_le result_limit vs in
      (v, Positions-upper 1 _ 11 _ (omega arith) p, omega (arith, Positions-length 1 _ _ p))
