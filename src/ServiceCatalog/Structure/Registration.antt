-- ===== src/ServiceCatalog/Structure/Registration.antt =====
-- The applications that the root Kustomization registers, the catalogued and the excluded ones.
use home_server.Common.{
  ◌∈◌, in-kept, kept, String, concat, ◌≡◌, ◌↔◌, ◌⊎◌, refl, inl, inr, Bool, Bool-cases, true, false,
  not, ◌&&◌, List, [], ◌∷◌,
}
use home_server.ServiceCatalog.Checks.{Check, for_each, report, done, clean_bind, ◌>>=◌}
use home_server.ServiceCatalog.Paths.{
  Repository, relative, FilePath, holds_path, sorted_paths, insert_path, path_eq, path_lt,
}
use home_server.ServiceCatalog.Structure.{report_paths, registration_check}

-- Each active application is catalogued or excluded, and the excluded ones are active and not catalogued.
pub record IsRegistered (active excluded cataloged : List FilePath) : Type 0 where
  pub covered :
      (p : FilePath) → p ∈ active → (holds_path cataloged p ≡ true) ⊎ (holds_path excluded p ≡ true)
  pub excluded_active : (p : FilePath) → p ∈ excluded → holds_path active p ≡ true
  pub excluded_only : (p : FilePath) → p ∈ excluded → holds_path cataloged p ≡ false

insert_path_nonempty : (p : FilePath) (paths : List FilePath) → ¬ (insert_path p paths ≡ [])
unfolding insert_path
insert_path_nonempty p [] h = cc
insert_path_nonempty p (q ∷ paths) h = elim (Bool-cases (path_eq p q)) [
  | inl e ↦ cc (rw e at h)
  | inr e ↦ elim (Bool-cases (path_lt q p)) [
    | inl l ↦ cc (rw (e, l) at h)
    | inr l ↦ cc (rw (e, l) at h)
  ]
]

sorted_paths-empty : (paths : List FilePath) → sorted_paths paths ≡ [] → paths ≡ []
unfolding sorted_paths
sorted_paths-empty [] h = refl
sorted_paths-empty (p ∷ paths) h = absurd (insert_path_nonempty p (sorted_paths paths) h)

module _ (w : Repository) (message : String) where
  clean_paths : (paths : List FilePath) → report_paths w message paths ≡ done → paths ≡ []
  unfolding report_paths
  clean_paths paths h = sorted_paths-empty paths (none_reported (sorted_paths paths) h)
    where
      line : FilePath → Check (Unit {0})
      line path = report (concat (message ∷ ": " ∷ relative w path ∷ []))

      none_reported : (ps : List FilePath) → for_each line ps ≡ done → ps ≡ []
      none_reported [] h = refl
      none_reported (p ∷ ps) h =
          let (u, first, rest) = clean_bind (line p) (λ _. for_each line ps) tt h in cc

  paths_clean : (paths : List FilePath) → paths ≡ [] → report_paths w message paths ≡ done
  unfolding report_paths sorted_paths
  paths_clean paths h = rw h

none_kept :
    (p : FilePath → Bool) (xs : List FilePath)
    → kept p xs ≡ []
    → (x : FilePath) → x ∈ xs
    → p x ≡ false
none_kept p xs h x m = elim (Bool-cases (p x)) [
  | inl e ↦ absurd (rw h at (in-kept p x xs m e))
  | inr e ↦ e
]

kept_none :
    (p : FilePath → Bool) (xs : List FilePath)
    → ((x : FilePath) → x ∈ xs → p x ≡ false)
    → kept p xs ≡ []
kept_none p [] h = refl
kept_none p (x ∷ xs) h = rw (h x (inl refl), kept_none p xs (λ y m. h y (inr m)))

module _ (w : Repository) (active excluded cataloged : List FilePath) where
  IsRegistered-of_clean :
      registration_check w active excluded cataloged ≡ done → IsRegistered active excluded cataloged
  unfolding registration_check
  IsRegistered-of_clean h =
      let (u, one, more) = clean_bind _ _ tt h in
      let (v, two, three) = clean_bind _ _ tt more in
      let stray = none_kept (λ p. not (holds_path active p)) excluded (clean_paths w _ _ one) in
      let both = none_kept (λ p. holds_path cataloged p) excluded (clean_paths w _ _ two) in
      let missing =
        none_kept (λ p. not (holds_path cataloged p) && not (holds_path excluded p)) active
          (clean_paths w _ _ three) in
      record {
        covered = λ p m. one_of (holds_path cataloged p) (holds_path excluded p) (missing p m);
        excluded_active = λ p m. not_false (holds_path active p) (stray p m);
        excluded_only = both;
      }
    where
      one_of : (a b : Bool) → (not a && not b) ≡ false → (a ≡ true) ⊎ (b ≡ true)
      one_of true b h = inl refl
      one_of false true h = inr refl
      one_of false false h = cc

      not_false : (b : Bool) → not b ≡ false → b ≡ true
      not_false true h = refl
      not_false false h = cc

  clean-of_IsRegistered :
      IsRegistered active excluded cataloged → registration_check w active excluded cataloged ≡ done
  unfolding registration_check ◌>>=◌
  clean-of_IsRegistered r =
      let stray =
        kept_none (λ p. not (holds_path active p)) excluded (λ p m. rw (r.excluded_active p m)) in
      let both = kept_none (λ p. holds_path cataloged p) excluded r.excluded_only in
      let missing =
        kept_none (λ p. not (holds_path cataloged p) && not (holds_path excluded p)) active
          (λ p m. elim (r.covered p m) [
            | inl e ↦ rw e
            | inr e ↦ rw e (and_false (not (holds_path cataloged p)))
          ]) in
      rw (paths_clean w _ _ stray) (rw (paths_clean w _ _ both) (rw (paths_clean w _ _ missing)))
    where
      and_false : (b : Bool) → (b && false) ≡ false
      and_false true = refl
      and_false false = refl

  -- The check of the registration appends no error exactly when each active application is catalogued or
  -- excluded, and each excluded one is active and not catalogued.
  pub registration_check-IsRegistered_iff :
      (registration_check w active excluded cataloged ≡ done)
      ↔ IsRegistered active excluded cataloged
  registration_check-IsRegistered_iff = (IsRegistered-of_clean, clean-of_IsRegistered)
