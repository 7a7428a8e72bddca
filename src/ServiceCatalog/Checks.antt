-- ===== src/ServiceCatalog/Checks.antt =====
-- scripts/service_catalog.py: functions that append to a list `errors`, and the small checks that
-- the validators are made of.
use home_server.Common.{
  String, str_eq, concat, strip, ◌≡◌, refl, Bool, true, false, not, List, [], ◌∷◌, ◌++◌, ◌∈◌, inl,
  inr, contains, Option, none, some, Py, ok, raise, if◌then◌else◌,
}
use home_server.Common.Order.{sort}
use home_server.Json.{Value, Fields, str, obj, end, field}

-- An action returns the errors that it appends and its result, or raises.
abbrev pub Check {ℓ} : Type ℓ → Type ℓ
Check A = Py (List String × A)

module _ {ℓ} {A : Type ℓ} where
  abbrev pub prepend : List String → Check A → Check A
  prepend errors (raise e) = raise e
  prepend errors (ok (more, a)) = ok (errors ++ more, a)

  abbrev pub pure : A → Check A
  pure a = ok ([], a)

  -- An action that appends nothing.
  abbrev pub run : Py A → Check A
  run (raise e) = raise e
  run (ok a) = ok ([], a)

module _ {ℓ κ} {A : Type ℓ} {B : Type κ} where
  infixl 5 ◌>>=◌ ◌>>◌
  unfoldable pub ◌>>=◌ : Check A → (A → Check B) → Check B
  (raise e) >>= f = raise e
  (ok (errors, a)) >>= f = prepend errors (f a)

  abbrev pub ◌>>◌ : Check A → Check B → Check B
  first >> second = first >>= λ a. second

abbrev pub done : Check (Unit {0})
done = ok ([], tt)

-- errors.append(message)
abbrev pub report : String → Check (Unit {0})
report message = ok (message ∷ [], tt)

-- if test: errors.append(message)
abbrev pub report_if : Bool → List String → Check (Unit {0})
report_if true parts = report (concat parts)
report_if false parts = done

-- f"ERROR: {error}"
unfoldable pub error_line : String → String
unfolding concat
error_line error = concat ("ERROR: " ∷ error ∷ [])

module _ {ℓ} {A : Type ℓ} where
  -- for x in xs: …
  abbrev pub for_each : (A → Check (Unit {0})) → List A → Check (Unit {0})
  for_each body [] = done
  for_each body (x ∷ xs) = body x >> for_each body xs

abbrev pub require_mapping : Value → String → Check (Option Fields)
require_mapping (obj fs) label = pure (some fs)
require_mapping v label = ok (concat (label ∷ " must be a mapping" ∷ []) ∷ [], none)

abbrev pub nonempty_string : String → String → Check (Option String)
nonempty_string s label =
    if str_eq (strip s) ""
    then ok (concat (label ∷ " must be a non-empty string" ∷ []) ∷ [], none)
    else pure (some s)

unfoldable pub require_nonempty_string : Value → String → Check (Option String)
unfolding concat
require_nonempty_string (str s) label = nonempty_string s label
require_nonempty_string v label =
    ok (concat (label ∷ " must be a non-empty string" ∷ []) ∷ [], none)

-- The keys of a mapping that are not in a set. A mapping lists its keys once each.
abbrev pub unknown_keys : Fields → List String → List String
unknown_keys end allowed = []
unknown_keys (field k v fs) allowed =
    let rest = unknown_keys fs allowed in if contains allowed k then rest else k ∷ rest

unfoldable pub reject_unknown : Fields → List String → String → Check (Unit {0})
unfolding sort concat
reject_unknown fs allowed label =
    for_each (λ key. report (concat (label ∷ " contains unknown field: " ∷ key ∷ [])))
      (sort (unknown_keys fs allowed))

module _ {ℓ} {A : Type ℓ} where
  pub clean_prepend : (m : Check A) (a : A) → prepend [] m ≡ ok ([], a) → m ≡ ok ([], a)
  clean_prepend (raise e) a h = cc
  clean_prepend (ok (more, c)) a h = h

-- A block that appends nothing is made of actions that append nothing.
module _ {ℓ κ} {A : Type ℓ} {B : Type κ} where
  pub clean_bind :
      (m : Check A) (f : A → Check B) (b : B)
      → (m >>= f) ≡ ok ([], b)
      → (a : A) × (m ≡ ok ([], a)) × (f a ≡ ok ([], b))
  unfolding ◌>>=◌
  clean_bind (raise e) f b h = cc
  clean_bind (ok ([], a)) f b h = (a, refl, clean_prepend (f a) b h)
  clean_bind (ok (e ∷ errors, a)) f b h = absurd (dirty (f a) h)
    where
      dirty : (m : Check B) → ¬ (prepend (e ∷ errors) m ≡ ok ([], b))
      dirty (raise e) h = cc
      dirty (ok (more, c)) h = cc

module _ {A : Type 0} (body : A → Check (Unit {0})) where
  -- A loop appends nothing exactly when its body appends nothing on each element.
  pub clean_each : (xs : List A) → for_each body xs ≡ done → (x : A) → x ∈ xs → body x ≡ done
  clean_each [] h x m = absurd m
  clean_each (y ∷ xs) h x m =
      let (u, first, rest) = clean_bind (body y) (λ _. for_each body xs) tt h in
      elim m [ inl e ↦ rw (← e) first | inr n ↦ clean_each xs rest x n ]

  pub each_clean : (xs : List A) → ((x : A) → x ∈ xs → body x ≡ done) → for_each body xs ≡ done
  unfolding ◌>>=◌
  each_clean [] h = refl
  each_clean (x ∷ xs) h = rw (h x (inl refl)) (rw (each_clean xs (λ y m. h y (inr m))))

module _ {A : Type 0} where
  pub result_of_pure : (a b : A) → pure a ≡ ok ([], b) → a ≡ b
  result_of_pure a b h = cc

-- A test that reports nothing did not hold.
pub silent : (b : Bool) (parts : List String) → report_if b parts ≡ done → b ≡ false
silent true parts h = cc
silent false parts h = refl

pub silent_not : (b : Bool) (parts : List String) → report_if (not b) parts ≡ done → b ≡ true
silent_not true parts h = refl
silent_not false parts h = cc

-- What a lookup in a set gave, where the block behind it appended nothing.
pub clean_run :
    {A B : Type 0} (m : Py A) (f : A → Check B) (b : B)
    → (run m >>= f) ≡ ok ([], b)
    → (a : A) × (m ≡ ok a) × (f a ≡ ok ([], b))
unfolding ◌>>=◌
clean_run (raise e) f b h = cc
clean_run (ok a) f b h = (a, refl, clean_prepend (f a) b h)
