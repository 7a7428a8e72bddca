-- ===== src/Common/Errors.antt =====
-- Exceptions as values. A function that may raise returns `Py`; `do` blocks stop at the first raise.
use mathlib.Core.Path.{◌≡◌, refl, ap, sym, ◌∙◌}
use mathlib.Core.Logic.{inl, inr}
use home_server.Common.Members.{◌∈◌, in-append, in-append_left, in-append_right}
use mathlib.Core.List.{List, [], ◌∷◌, ◌++◌}
use Prim.Native.String.{String}

-- The exceptions that the modelled code raises or lets pass, with the message where a handler reads it.
pub data Error : Type 0 where
  -- `ProviderError` of search_provider_proxy.py
  provider_error : String → Error
  -- `ManifestError` of yaml_documents.py
  manifest_error : String → Error
  -- `CatalogError` of service_catalog.py
  catalog_error : String → Error
  runtime_error : String → Error
  value_error : String → Error
  -- an unhashable value in a set or as a key, or a missing attribute of a value that is no mapping
  type_error attribute_error : Error
  -- a missing key of a mapping
  key_error : Error
  -- an `OSError`, such as that of a missing file
  os_error : Error

pub data Py {ℓ} (A : Type ℓ) : Type ℓ where
  ok : A → Py A
  raise : Error → Py A

module _ {ℓ κ} {A : Type ℓ} {B : Type κ} where
  infixl 5 ◌>>=◌ ◌>>◌
  abbrev pub ◌>>=◌ : Py A → (A → Py B) → Py B
  (raise e) >>= f = raise e
  (ok a) >>= f = f a

  abbrev pub ◌>>◌ : Py A → Py B → Py B
  first >> second = first >>= λ a. second

module _ {ℓ κ} {A : Type ℓ} {B : Type κ} where
  -- A loop whose body may raise, its results collected.
  abbrev pub flat_map_py : (A → Py (List B)) → List A → Py (List B)
  flat_map_py f [] = ok []
  flat_map_py f (x ∷ xs) = do ys ← f x; zs ← flat_map_py f xs; ok (ys ++ zs)

  -- What a block returns is what its rest returns, from what its first action returns.
  pub returned_by_bind :
      (f : A → Py B) (r : Py A) (y : B) → ok y ≡ (r >>= f) → (x : A) × (f x ≡ ok y) × (r ≡ ok x)
  returned_by_bind f (raise e) y h = cc
  returned_by_bind f (ok x) y h = (x, sym h, refl)

-- A block whose first action is known goes on with what it returns.
pub after_known :
    {A B : Type 0} (f : A → Py B) (r : Py A) (x : A) (y : B)
    → r ≡ ok x
    → (r >>= f) ≡ ok y
    → f x ≡ ok y
after_known f r x y e h = sym (ap (λ q. q >>= f) e) ∙ h

-- What holds where each part of a block returns holds where the block does.
pub inverted :
    {A B P : Type 0} (f : A → Py B) (r : Py A) (y : B)
    → (r >>= f) ≡ ok y
    → ((x : A) → r ≡ ok x → f x ≡ ok y → P)
    → P
inverted f r y h next = let (x, rest, first) = returned_by_bind f r y (sym h) in next x first rest

pub ok-injective : {A : Type 0} {a b : A} → Path (Py A) (ok a) (ok b) → a ≡ b
ok-injective h = cc

module _ {A B : Type 0} (f : A → Py (List B)) where
  -- A loop that comes to its end ran its body on each element, and collected what it returned.
  pub collected :
      (x : A) (xs : List A) (ys : List B)
      → flat_map_py f xs ≡ ok ys
      → x ∈ xs
      → (zs : List B) × (f x ≡ ok zs) × ((b : B) → b ∈ zs → b ∈ ys)
  collected x [] ys h m = absurd m
  collected x (y ∷ xs) ys h m =
      let (first, rest, here) = returned_by_bind _ (f y) ys (sym h) in
      let (others, last, there) = returned_by_bind _ (flat_map_py f xs) ys (sym rest) in
      let whole : first ++ others ≡ ys = cc in
      elim m [
        | inl e ↦ (first, rw (← e) here, λ b i. rw (← whole) (in-append_left b first others i))
        | inr n ↦
            let (zs, runs, up) = collected x xs others there n in
            (zs, runs, λ b i. rw (← whole) (in-append_right b first others (up b i)))
      ]

  -- What such a loop collected was returned on some element.
  pub collected_from :
      (b : B) (xs : List A) (ys : List B)
      → flat_map_py f xs ≡ ok ys
      → b ∈ ys
      → (x : A) × (zs : List B) × (x ∈ xs) × (f x ≡ ok zs) × (b ∈ zs)
  collected_from b [] [] h m = absurd m
  collected_from b [] (y ∷ ys) h m = cc
  collected_from b (x ∷ xs) ys h m =
      let (first, rest, here) = returned_by_bind _ (f x) ys (sym h) in
      let (others, last, there) = returned_by_bind _ (flat_map_py f xs) ys (sym rest) in
      let whole : ys ≡ first ++ others = cc in
      elim (in-append b first others (rw whole at m)) [
        | inl l ↦ (x, first, inl refl, here, l)
        | inr r ↦
            let (z, zs, i, runs, j) = collected_from b xs others there r in (z, zs, inr i, runs, j)
      ]
