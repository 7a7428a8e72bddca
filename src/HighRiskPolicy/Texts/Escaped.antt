-- ===== src/HighRiskPolicy/Texts/Escaped.antt =====
-- What the parts of a finding lack, whatever the manifest holds.
pub mod Unescaped
use Prim.Native.String
use package.text.Mathlib.TextLemmas.{
  nil-append, cons-append, head-eq_of_cons-eq, tail-eq_of_cons-eq,
}
use home_server.Common.{
  Char, code, String, concat, join, ◌≡◌, ◌≢◌, refl, sym, ap, ap₂, ◌∙◌, [], ◌∷◌, arith,
}
use home_server.Common.Replace.{replace, Lacks, Lacks-append, replace-Lacks, Lacks-replace}
use home_server.HighRiskPolicy.Texts.Escaped.Unescaped.{escape-append, escape-injective}
use home_server.Json.{Value, Fields, get, dict_or_empty}
use home_server.HighRiskPolicy.Texts.{raw_text, escape, text, resource_id}

-- The text holds no separator of findings, and no end of a line of the baseline or of the log.
pub record IsField (s : String) : Type 0 where
  pub no_bar : Lacks b'|' s
  pub no_feed : Lacks b'\n' s
  pub no_return : Lacks b'\r' s

-- A part of a finding is one field, whatever the value and the fallback.
pub text-IsField : (value : Value) (fallback : String) → IsField (text value fallback)
unfolding text escape
text-IsField value fallback =
    let one = replace b'%' "%25" (raw_text value fallback) in
    let two = replace b'|' "%7C" one in
    let three = replace b'\r' "%0D" two in
    record {
      no_bar = Lacks-replace b'|' b'\n' "%0A" three (ground arith) (
          Lacks-replace b'|' b'\r' "%0D" two (ground arith)
            (replace-Lacks b'|' "%7C" one (ground arith)));
      no_feed = replace-Lacks b'\n' "%0A" three (ground arith);
      no_return =
          Lacks-replace b'\r' b'\n' "%0A" three (ground arith)
            (replace-Lacks b'\r' "%0D" two (ground arith));
    }

abbrev barred : String → String → String
barred s t = String.◌++◌ s (String.◌++◌ "|" t)

barred-nil : (t : String) → barred "" t ≡ String.◌∷◌ "|" t
barred-nil t = rw (nil-append, cons-append, nil-append)

barred-cons : (c : Char) (s t : String) → barred (String.◌∷◌ c s) t ≡ String.◌∷◌ c (barred s t)
barred-cons c s t = cons-append c s (String.◌++◌ "|" t)

not_first :
    (c : Char) (s t t' : String) → code c ≢ b'|' → ¬ (barred "" t ≡ barred (String.◌∷◌ c s) t')
not_first c s t t' h e =
    let head = head-eq_of_cons-eq (sym (barred-nil t) ∙ e ∙ barred-cons c s t') in
    h (ap code (sym head))

-- Where the first field holds no bar, the bar behind it can be told from any other.
barred_unique :
    (s s' t t' : String)
    → Lacks b'|' s
    → Lacks b'|' s'
    → barred s t ≡ barred s' t'
    → (s ≡ s') × (t ≡ t')
barred_unique String.[] String.[] t t' h k e =
    (refl, tail-eq_of_cons-eq (sym (barred-nil t) ∙ e ∙ barred-nil t'))
barred_unique String.[] (String.◌∷◌ d s') t t' h k e = absurd (not_first d s' t t' k.0 e)
barred_unique (String.◌∷◌ c s) String.[] t t' h k e = absurd (not_first c s t' t h.0 (sym e))
barred_unique (String.◌∷◌ c s) (String.◌∷◌ d s') t t' h k e =
    let p = sym (barred-cons c s t) ∙ e ∙ barred-cons d s' t' in
    let (same, rest) = barred_unique s s' t t' h.1 k.1 (tail-eq_of_cons-eq p) in
    (ap₂ String.◌∷◌ (head-eq_of_cons-eq p) same, rest)

-- The three texts of an object's identity.
abbrev type_text : Fields → String
unfolding text get concat
type_text d =
    concat (text (get "apiVersion" d) "unknown" ∷ "/" ∷ text (get "kind" d) "unknown" ∷ [])

abbrev namespace_text : Fields → String
unfolding text get
namespace_text d = text (get "namespace" (dict_or_empty (get "metadata" d))) "default"

abbrev name_text : Fields → String
unfolding text get
name_text d = text (get "name" (dict_or_empty (get "metadata" d))) "unnamed"

type_text-Lacks : (d : Fields) → Lacks b'|' (type_text d)
unfolding type_text concat
type_text-Lacks d =
    Lacks-append b'|' (text (get "apiVersion" d) "unknown") _
      (text-IsField (get "apiVersion" d) "unknown").no_bar
      (Lacks-append b'|' "/" _ (ground arith) (
        Lacks-append b'|' (text (get "kind" d) "unknown") ""
          (text-IsField (get "kind" d) "unknown").no_bar tt))

resource_id-barred :
    (d : Fields) → resource_id d ≡ barred (type_text d) (barred (namespace_text d) (name_text d))
unfolding resource_id type_text namespace_text name_text join
resource_id-barred d = refl

-- The texts of an object before they are escaped: its API version and kind, its namespace and its name.
abbrev pub raw_type : Fields → String
unfolding raw_text get concat
raw_type d =
    concat (raw_text (get "apiVersion" d) "unknown" ∷ "/" ∷ raw_text (get "kind" d) "unknown" ∷ [])

abbrev pub raw_namespace : Fields → String
unfolding raw_text get
raw_namespace d = raw_text (get "namespace" (dict_or_empty (get "metadata" d))) "default"

abbrev pub raw_name : Fields → String
unfolding raw_text get
raw_name d = raw_text (get "name" (dict_or_empty (get "metadata" d))) "unnamed"

escape_slash : escape "/" ≡ "/"
unfolding escape replace
escape_slash = refl

escape_empty : escape "" ≡ ""
unfolding escape replace
escape_empty = refl

type_text-escape : (d : Fields) → type_text d ≡ escape (raw_type d)
unfolding type_text raw_type text concat
type_text-escape d =
    let kind = raw_text (get "kind" d) "unknown" in
    sym (
      escape-append (raw_text (get "apiVersion" d) "unknown")
        (String.◌++◌ "/" (String.◌++◌ kind ""))
      ∙ ap (String.◌++◌ (escape (raw_text (get "apiVersion" d) "unknown"))) (
          escape-append "/" (String.◌++◌ kind "")
          ∙ ap₂ String.◌++◌ escape_slash
              (escape-append kind "" ∙ ap (String.◌++◌ (escape kind)) escape_empty)))

-- Two objects have one identity only if their API version and kind as one text, their namespace and their
-- name are the same, before they are escaped and with what stands for a missing one: no value of a
-- manifest can forge a separator or the escape of another value.
pub resource_id-injective :
    (a b : Fields)
    → resource_id a ≡ resource_id b
    → (raw_type a ≡ raw_type b) × (raw_namespace a ≡ raw_namespace b) × (raw_name a ≡ raw_name b)
unfolding namespace_text name_text raw_namespace raw_name text
resource_id-injective a b e =
    let p = sym (resource_id-barred a) ∙ e ∙ resource_id-barred b in
    let (types, rest) =
      barred_unique (type_text a) (type_text b) _ _ (type_text-Lacks a) (type_text-Lacks b) p in
    let (namespaces, names) =
      barred_unique (namespace_text a) (namespace_text b) _ _
        (text-IsField (get "namespace" (dict_or_empty (get "metadata" a))) "default").no_bar
        (text-IsField (get "namespace" (dict_or_empty (get "metadata" b))) "default").no_bar rest in
    (
      escape-injective (raw_type a) (raw_type b)
          (sym (type_text-escape a) ∙ types ∙ type_text-escape b),
      escape-injective (raw_namespace a) (raw_namespace b) namespaces,
      escape-injective (raw_name a) (raw_name b) names,
    )
