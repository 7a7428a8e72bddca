-- ===== src/Secrets/Validate/Entries.antt =====
-- The entries of `sops.age` of a Secret without errors.
use home_server.Common.{ℕ, suc, String, ◌≡◌, refl, Bool, true, false, not, List, [], ◌∷◌, ◌++◌, All}
use home_server.Json.{
  Value, Items, Fields, null, bool, int, real, str, arr, obj, nil, cons, get, items,
}
use home_server.Common.Regex.{matches}
use home_server.Secrets.Rules.{age_recipient}
use home_server.HighRiskPolicy.Pods.{add_if}
use home_server.Secrets.Envelopes.{valid_age_envelope}
use home_server.Secrets.Validate.{actual_recipients, age_errors, is_recipient, recipient_errors}

-- One entry of `sops.age`: an age public key, with an armored envelope.
pub record IsEnvelope (v : Value) : Type 0 where
  pub entry : Fields
  pub mapping : v ≡ obj entry
  pub recipient : String
  pub named : get "recipient" entry ≡ str recipient
  pub key : matches age_recipient recipient ≡ true
  pub armor : valid_age_envelope (get "enc" entry) ≡ true

pub no_left : {A : Type 0} (xs ys : List A) → xs ++ ys ≡ [] → (xs ≡ []) × (ys ≡ [])
no_left [] ys h = (refl, h)
no_left (x ∷ xs) ys h = cc

pub not_added : (b : Bool) (item : String) → add_if b item ≡ [] → b ≡ false
not_added true item h = cc
not_added false item h = refl

pub not_off : (b : Bool) → not b ≡ false → b ≡ true
not_off true h = refl
not_off false h = cc

-- A recipient that is judged well formed is a text.
recipient_text :
    (v : Value)
    → is_recipient v ≡ true
    → (s : String) × (v ≡ str s) × (matches age_recipient s ≡ true)
unfolding matches
recipient_text (str s) h = (s, refl, h)
recipient_text null h = cc
recipient_text (bool b) h = cc
recipient_text (int n) h = cc
recipient_text (real t) h = cc
recipient_text (arr vs) h = cc
recipient_text (obj fs) h = cc

module _ (render : Value → String) (document : Fields) where
  entry-IsEnvelope :
      (entry : Fields)
      → is_recipient (get "recipient" entry) ≡ true
      → valid_age_envelope (get "enc" entry) ≡ true
      → IsEnvelope (obj entry)
  entry-IsEnvelope entry key armor =
      let (s, text, matched) = recipient_text (get "recipient" entry) key in
      record {
        entry = entry;
        mapping = refl;
        recipient = s;
        named = text;
        key = matched;
        armor = armor;
      }

  entries-IsEnvelope :
      (index : ℕ) (vs : Items)
      → recipient_errors render document index vs ≡ []
      → All IsEnvelope (items vs)
  unfolding recipient_errors
  entries-IsEnvelope index nil h = tt
  entries-IsEnvelope index (cons (obj entry) vs) h =
      let (no_key, more) = no_left (add_if (not (is_recipient (get "recipient" entry))) _) _ h in
      let (no_armor, rest) =
        no_left (add_if (not (valid_age_envelope (get "enc" entry))) _)
          (recipient_errors render document (suc index) vs) more in
      (
        entry-IsEnvelope entry
            (not_off (is_recipient (get "recipient" entry)) (not_added _ _ no_key))
            (not_off (valid_age_envelope (get "enc" entry)) (not_added _ _ no_armor)),
        entries-IsEnvelope (suc index) vs rest,
      )
  entries-IsEnvelope index (cons null vs) h = cc
  entries-IsEnvelope index (cons (bool b) vs) h = cc
  entries-IsEnvelope index (cons (int n) vs) h = cc
  entries-IsEnvelope index (cons (real t) vs) h = cc
  entries-IsEnvelope index (cons (str s) vs) h = cc
  entries-IsEnvelope index (cons (arr us) vs) h = cc

-- The recipients of `sops.age`, if it is a list that is not empty.
pub age_list :
    (render : Value → String) (document : Fields) (v : Value)
    → (age_errors render document v).0 ≡ []
    → (recipients : Items) × (v ≡ arr recipients)
      × ((age_errors render document v).1 ≡ actual_recipients recipients)
      × All IsEnvelope (items recipients)
unfolding age_errors
age_list render document (arr (cons v vs)) h =
    (cons v vs, refl, refl, entries-IsEnvelope render document 0 (cons v vs) h)
age_list render document (arr nil) h = cc
age_list render document null h = cc
age_list render document (bool b) h = cc
age_list render document (int n) h = cc
age_list render document (real t) h = cc
age_list render document (str s) h = cc
age_list render document (obj fs) h = cc
