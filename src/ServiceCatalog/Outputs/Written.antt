-- ===== src/ServiceCatalog/Outputs/Written.antt =====
-- What the loop over the outputs leaves.
use home_server.Common.{
  ◌∈◌, ◌≡◌, ◌⊎◌, refl, ap, ap₂, ◌∙◌, inl, inr, Bool-cases, true, String, str_eq, eq_iff, List, [],
  ◌∷◌, some, Py, ok, raise,
}
use home_server.ServiceCatalog.Paths.{FilePath, path_eq}
use home_server.ServiceCatalog.Outputs.{Files, write, write_all}

-- All outputs, written one after the other.
abbrev pub written : List (FilePath × String) → Files → Files
written [] files = files
written ((path, content) ∷ outputs) files = written outputs (write path content files)

-- A loop that returns has written all outputs.
pub write_all-written :
    (replaces : FilePath → Py (Unit {0})) (outputs : List (FilePath × String)) (files : Files)
    → (write_all replaces outputs files).1 ≡ ok tt
    → (write_all replaces outputs files).0 ≡ written outputs files
write_all-written replaces [] files h = refl
write_all-written replaces ((path, content) ∷ outputs) files h =
    split (replaces path) h (write_all-written replaces outputs (write path content files))
  where
    split :
        (r : Py (Unit {0}))
        → (elim r as (λ x. Files × Py (Unit {0})) [
          | ok u ↦ write_all replaces outputs (write path content files)
          | raise e ↦ (files, raise e)
        ]).1
          ≡ ok tt
        → ((write_all replaces outputs (write path content files)).1 ≡ ok tt
            → (write_all replaces outputs (write path content files)).0
              ≡ written outputs (write path content files))
        → (elim r as (λ x. Files × Py (Unit {0})) [
          | ok u ↦ write_all replaces outputs (write path content files)
          | raise e ↦ (files, raise e)
        ]).0
          ≡ written outputs (write path content files)
    split (ok u) h next = next h
    split (raise e) h next = cc

path_eq→≡ : (p q : FilePath) → path_eq p q ≡ true → p ≡ q
unfolding path_eq
path_eq→≡ [] [] h = refl
path_eq→≡ [] (b ∷ q) h = cc
path_eq→≡ (a ∷ p) [] h = cc
path_eq→≡ (a ∷ p) (b ∷ q) h = elim (Bool-cases (str_eq a b)) [
  | inl e ↦
      ap₂ (λ (s : String) (r : FilePath). s ∷ r) ((eq_iff a b).0 e) (path_eq→≡ p q (rw e at h))
  | inr e ↦ cc (rw e at h)
]

-- The file of the path is as it was, or it has the content of an output for the path.
abbrev pub Changed : FilePath → List (FilePath × String) → Files → Files → Type 0
Changed path outputs files after =
    (after path ≡ files path)
    ⊎ ((content : String) × ((path, content) ∈ outputs) × (after path ≡ some content))

module _ (path target : FilePath) (content : String) (outputs : List (FilePath × String))
    (files after : Files) where
  one_write :
      after path ≡ write target content files path
      → Changed path ((target, content) ∷ outputs) files after
  unfolding write
  one_write e = elim (Bool-cases (path_eq target path)) [
    | inl same ↦ inr (
      content,
      inl (ap (λ (p : FilePath). (p, content)) (path_eq→≡ target path same)),
      e ∙ rw same refl,
    )
    | inr other ↦ inl (e ∙ rw other refl)
  ]

  behind_one :
      Changed path outputs (write target content files) after
      → Changed path ((target, content) ∷ outputs) files after
  behind_one (inl same) = one_write same
  behind_one (inr (c, m, now)) = inr (c, inr m, now)

-- After the loop, however it ends, a file is as it was, or it has the content of an output for its path.
pub write_all-cases :
    (replaces : FilePath → Py (Unit {0})) (path : FilePath) (outputs : List (FilePath × String))
    (files : Files)
    → Changed path outputs files (write_all replaces outputs files).0
write_all-cases replaces path [] files = inl refl
write_all-cases replaces path ((target, content) ∷ outputs) files =
    split (replaces target) (write_all-cases replaces path outputs (write target content files))
  where
    split :
        (r : Py (Unit {0}))
        → Changed path outputs
            (write target content files)
            (write_all replaces outputs (write target content files)).0
        → Changed path
            ((target, content) ∷ outputs)
            files
            (elim r as (λ x. Files × Py (Unit {0})) [
              | ok u ↦ write_all replaces outputs (write target content files)
              | raise e ↦ (files, raise e)
            ]).0
    split (raise e) next = inl refl
    split (ok u) next =
        behind_one path target content outputs files
          (write_all replaces outputs (write target content files)).0 next
