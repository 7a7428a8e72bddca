-- ===== src/ServiceCatalog/Regions/Overwrites/Framed.antt =====
-- A text of lines with a generated region between two markers.
use home_server.Common.{
  contains, arith, ℕ, suc, ◌+◌, ◌<◌, String, str_eq, eq_iff, eq_refl, ◌≡◌, refl, sym, ap, ◌∙◌, inl,
  inr, Bool-cases, false, ◌||◌, List, [], ◌∷◌, ◌++◌, append_assoc, length, take, Option, none, some,
}
use home_server.ServiceCatalog.Regions.{index_of, next, drop}

-- A file: lines, the start marker, the region, the end marker, lines.
abbrev pub framed : List String → String → List String → String → List String → List String
framed above s region e below = above ++ (s ∷ (region ++ (e ∷ below)))

pub take-framed :
    (above : List String) (s : String) (more : List String)
    → take (length above + 1) (above ++ (s ∷ more)) ≡ above ++ (s ∷ [])
take-framed [] s more = refl
take-framed (a ∷ above) s more =
    rw (suc_plus (length above)) (ap (λ (x : List String). a ∷ x) (take-framed above s more))
  where
    suc_plus : (n : ℕ) → suc n + 1 ≡ suc (n + 1)
    suc_plus n = omega arith

pub drop-append : (xs ys : List String) → drop (length xs) (xs ++ ys) ≡ ys
drop-append [] ys = refl
drop-append (x ∷ xs) ys = drop-append xs ys

pub index_of-append :
    (m : String) (xs ys : List String)
    → contains xs m ≡ false
    → index_of m (xs ++ (m ∷ ys)) ≡ some (length xs)
unfolding index_of
index_of-append m [] ys h = rw (eq_refl m)
index_of-append m (x ∷ xs) ys h = elim (Bool-cases (str_eq x m)) [
  | inl e ↦ cc (rw e at h)
  | inr e ↦ rw (e, index_of-append m xs ys (rw e at h))
]

-- Where the first marker is.
pub index_of-found :
    (m : String) (xs : List String) (n : ℕ)
    → index_of m xs ≡ some n
    → (above below : List String) × (xs ≡ above ++ (m ∷ below))
      × (contains above m ≡ false)
      × (length above ≡ n)
unfolding index_of
index_of-found m [] n h = cc
index_of-found m (x ∷ xs) n h = elim (Bool-cases (str_eq x m)) [
  | inl e ↦
      let same : x ≡ m = (eq_iff x m).0 e in
      let zeroth : Path (Option ℕ) (some 0) (some n) = rw e at h in
      ([], xs, ap (λ (y : String). y ∷ xs) same, refl, cc)
  | inr e ↦
      let (k, found, shifted) = step (index_of m xs) n (rw e at h) in
      let (above, below, whole, absent, size) = index_of-found m xs k found in
      (
        x ∷ above,
        below,
        ap (λ (l : List String). x ∷ l) whole,
        rw (e, absent),
        ap suc size ∙ shifted,
      )
]
  where
    step : (o : Option ℕ) (n : ℕ) → next o ≡ some n → (k : ℕ) × (o ≡ some k) × (suc k ≡ n)
    step none n h = cc
    step (some k) n h = (k, refl, cc)

-- The second of two places in a list, cut at the first.
pub cut :
    (above : List String) (s : String) (rest upto : List String) (e : String) (below : List String)
    → above ++ (s ∷ rest) ≡ upto ++ (e ∷ below)
    → length above < length upto
    → (region : List String) × (upto ≡ above ++ (s ∷ region)) × (rest ≡ region ++ (e ∷ below))
cut [] s rest [] e below h l = absurd (omega arith)
cut [] s rest (u ∷ upto) e below h l = (upto, cc, cc)
cut (a ∷ above) s rest [] e below h l = absurd (omega arith)
cut (a ∷ above) s rest (u ∷ upto) e below h l =
    let (region, one, two) = cut above s rest upto e below (cc) (omega arith) in (region, cc, two)

pub contains-append :
    (xs ys : List String) (a : String) → contains (xs ++ ys) a ≡ (contains xs a || contains ys a)
contains-append [] ys a = refl
contains-append (x ∷ xs) ys a = elim (Bool-cases (str_eq x a)) [
  | inl e ↦ rw e
  | inr e ↦ rw e (contains-append xs ys a)
]

-- The first start marker stands before the first end marker.
pub record IsFramed (s e : String) (above region : List String) : Type 0 where
  pub no_start : contains above s ≡ false
  pub no_end : contains (above ++ (s ∷ region)) e ≡ false

pub assembled :
    (above : List String) (s : String) (generated : List String) (e : String) (below : List String)
    → ((above ++ (s ∷ [])) ++ generated) ++ (e ∷ below) ≡ framed above s generated e below
assembled above s generated e below = simp append_assoc

pub two_parts :
    (above : List String) (s : String) (region : List String) (e : String) (below : List String)
    → framed above s region e below ≡ (above ++ (s ∷ region)) ++ (e ∷ below)
two_parts above s region e below = sym (append_assoc above (s ∷ region) (e ∷ below))
