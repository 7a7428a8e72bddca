-- ===== src/SchemaManifest/Blanked.antt =====
-- What sanitize_secret leaves of a Secret.
use home_server.Common.{
  String, str_eq, eq_iff, ◌≡◌, refl, sym, ap, inl, inr, Bool-cases, true, false, All, ok, arith,
}
use home_server.Json.{
  Value, Fields, null, bool, int, real, str, arr, obj, end, field, fields, get, get_or, eq_str,
  in_set, is_dict,
}
use home_server.YamlDocuments.{list_kinds}
use home_server.SchemaManifest.{
  data_placeholder, string_placeholder, fill, blank, blanked_field, sanitize_secret, sanitized,
}

-- Each value of the mapping is the placeholder; a value that is no mapping holds none.
pub data IsBlank (placeholder : String) : Value → Type 0 where
  mapping :
      (fs : Fields)
      → All (λ (p : String × Value). p.1 ≡ str placeholder) (fields fs)
      → IsBlank placeholder (obj fs)
  no_mapping : (v : Value) → is_dict v ≡ false → IsBlank placeholder v

pub record IsBlanked (secret : Fields) : Type 0 where
  pub sops : get "sops" secret ≡ null
  pub data_values : IsBlank data_placeholder (get "data" secret)
  pub string_values : IsBlank string_placeholder (get "stringData" secret)

filled :
    (placeholder : String) (fs : Fields)
    → All (λ (p : String × Value). p.1 ≡ str placeholder) (fields (fill placeholder fs))
filled placeholder end = tt
filled placeholder (field k v fs) = (refl, filled placeholder fs)

blank-IsBlank : (placeholder : String) (v : Value) → IsBlank placeholder (blank placeholder v)
blank-IsBlank placeholder (obj fs) = mapping (fill placeholder fs) (filled placeholder fs)
blank-IsBlank placeholder null = no_mapping null refl
blank-IsBlank placeholder (bool b) = no_mapping (bool b) refl
blank-IsBlank placeholder (int n) = no_mapping (int n) refl
blank-IsBlank placeholder (real t) = no_mapping (real t) refl
blank-IsBlank placeholder (str s) = no_mapping (str s) refl
blank-IsBlank placeholder (arr vs) = no_mapping (arr vs) refl

sanitize-sops : (fs : Fields) → get "sops" (sanitize_secret fs) ≡ null
unfolding sanitize_secret get get_or
sanitize-sops end = refl
sanitize-sops (field k v fs) = ground (arith, sanitize-sops fs)

blanked_null : (key : String) → blanked_field key null ≡ null
blanked_null key = elim (Bool-cases (str_eq key "data")) [
  | inl e ↦ rw e
  | inr e ↦ elim (Bool-cases (str_eq key "stringData")) [ inl f ↦ rw (e, f) | inr f ↦ rw (e, f) ]
]

pub differs : (k a b : String) → str_eq a b ≡ false → str_eq k a ≡ true → str_eq k b ≡ false
differs k a b h e = let same : k ≡ a = (eq_iff k a).0 e in rw same h

-- Any other field than "sops" is the one that it was, blanked.
sanitize-get :
    (key : String) (fs : Fields)
    → str_eq "sops" key ≡ false
    → get key (sanitize_secret fs) ≡ blanked_field key (get key fs)
unfolding sanitize_secret get get_or
sanitize-get key end h = sym (blanked_null key)
sanitize-get key (field k v fs) h = elim (Bool-cases (str_eq k "sops")) [
  | inl e ↦ rw (e, differs k "sops" key h e) (sanitize-get key fs h)
  | inr e ↦ elim (Bool-cases (str_eq k key)) [
    | inl f ↦
        let same : k ≡ key = (eq_iff k key).0 f in
        rw (e, f) (ap (λ (x : String). blanked_field x v) same)
    | inr f ↦ rw (e, f) (sanitize-get key fs h)
  ]
]

sanitize-IsBlanked : (fs : Fields) → IsBlanked (sanitize_secret fs)
sanitize-IsBlanked fs = record {
  sops = sanitize-sops fs;
  data_values = rw (sanitize-get "data" fs refl) (blank-IsBlank data_placeholder (get "data" fs));
  string_values =
      rw (sanitize-get "stringData" fs refl)
        (blank-IsBlank string_placeholder (get "stringData" fs));
}

pub sanitized-kind : (fs : Fields) → get "kind" (sanitized fs) ≡ get "kind" fs
unfolding sanitized
sanitized-kind fs = elim (Bool-cases (eq_str (get "kind" fs) "Secret")) [
  | inl e ↦ rw e (sanitize-get "kind" fs refl)
  | inr e ↦ rw e
]

pub sanitized-IsBlanked :
    (fs : Fields) → eq_str (get "kind" (sanitized fs)) "Secret" ≡ true → IsBlanked (sanitized fs)
unfolding sanitized
sanitized-IsBlanked fs h =
    let e : eq_str (get "kind" fs) "Secret" ≡ true = rw (sanitized-kind fs) at h in
    rw e (sanitize-IsBlanked fs)

pub no_list_kind : (v : Value) → in_set v list_kinds ≡ ok true → eq_str v "Secret" ≡ true → ⊥
no_list_kind (str s) h e = let same : s ≡ "Secret" = (eq_iff s "Secret").0 e in cc (rw same at h)
no_list_kind null h e = cc
no_list_kind (bool b) h e = cc
no_list_kind (int n) h e = cc
no_list_kind (real t) h e = cc
no_list_kind (arr vs) h e = cc
no_list_kind (obj fs) h e = cc
