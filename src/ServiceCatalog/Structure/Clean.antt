-- ===== src/ServiceCatalog/Structure/Clean.antt =====
-- What the services of a catalog are like for which the check appends no error.
use home_server.Common.{
  ◌∈◌, ◌≢◌, String, str_eq, concat, ◌≡◌, refl, sym, ap, ◌∙◌, inl, inr, Bool, Bool-cases, true,
  false, not, ◌&&◌, strip, List, [], ◌∷◌, contains, Option, some, ok,
}
use home_server.Json.{
  Value, Fields, null, bool, int, real, str, arr, obj, get, eq_str, eq_str→≡, in_set,
}
use home_server.Json.Structure.{in_set-str}
use home_server.ServiceCatalog.Checks.{
  report_if, done, require_mapping, require_nonempty_string, clean_bind, clean_run, result_of_pure,
  silent, silent_not,
}
use home_server.ServiceCatalog.Paths.{Repository}
use home_server.ServiceCatalog.Names.{is_dns_name}
use home_server.ServiceCatalog.Structure.Settings
use home_server.ServiceCatalog.Structure.Service.{require_member, require_text}
use home_server.ServiceCatalog.Structure.Auth.{
  auth_check, auth_by_mode, plain_part, plain_check, mode_text,
}
use home_server.ServiceCatalog.Structure.Web.{
  WebNames, hostname_check, middleware_check, web_fields, web_mapping,
}

-- A text that is required is there.
pub clean_text :
    (v : Value) (label : String) (result : Option String)
    → require_nonempty_string v label ≡ ok ([], result)
    → (s : String) × (v ≡ str s) × (result ≡ some s) × (str_eq (strip s) "" ≡ false)
unfolding require_nonempty_string
clean_text (str s) label result h = elim (Bool-cases (str_eq (strip s) "")) [
  | inl e ↦ cc (rw e at h)
  | inr e ↦ (s, refl, sym (result_of_pure (some s) result (rw e at h)), e)
]
clean_text null label result h = cc
clean_text (bool b) label result h = cc
clean_text (int n) label result h = cc
clean_text (real t) label result h = cc
clean_text (arr vs) label result h = cc
clean_text (obj fs) label result h = cc

pub clean_mapping :
    (v : Value) (label : String) (result : Option Fields)
    → require_mapping v label ≡ ok ([], result)
    → (fs : Fields) × (v ≡ obj fs) × (result ≡ some fs)
clean_mapping (obj fs) label result h = (fs, refl, sym (result_of_pure (some fs) result h))
clean_mapping null label result h = cc
clean_mapping (bool b) label result h = cc
clean_mapping (int n) label result h = cc
clean_mapping (real t) label result h = cc
clean_mapping (str s) label result h = cc
clean_mapping (arr vs) label result h = cc

clean_hostname :
    (domain : Option String) (label : String) (seen : List String) (hostname : String)
    (added : List String)
    → hostname_check domain label seen (some hostname) ≡ ok ([], added)
    → (contains seen hostname ≡ false) × (hostname ∷ [] ≡ added) × (is_dns_name hostname ≡ true)
unfolding hostname_check
clean_hostname domain label seen hostname added h =
    let (u, first, rest) = clean_bind _ _ added h in
    let (v, second, last) = clean_bind _ _ added rest in
    (
      silent _ _ first,
      result_of_pure (hostname ∷ []) added last,
      elim (Bool-cases (is_dns_name hostname)) [ inl e ↦ e | inr e ↦ cc (rw e at second) ],
    )

clean_plain :
    (w : Repository) (settings : Settings.Settings) (label : String)
    (service_id hostname : Option String) (visibility : Value) (auth : Fields)
    → plain_check w settings label service_id hostname visibility auth ≡ done
    → (eq_str visibility "public" && eq_str (get "mode" auth) "none") ≡ false
unfolding plain_check
clean_plain w settings label service_id hostname visibility auth h =
    let (u, first, rest) = clean_bind _ _ tt h in
    let (v, second, last) = clean_bind _ _ tt rest in silent _ _ last

abbrev pub auth_modes : List String
auth_modes = "forward-auth" ∷ "native" ∷ "none" ∷ "oidc" ∷ []

clean_member :
    (v : Value) (names parts : List String)
    → require_member v names parts ≡ done
    → in_set v names ≡ ok true
clean_member v names parts h =
    let (found, known, last) = clean_run (in_set v names) (λ b. report_if (not b) parts) tt h in
    rw (silent_not found parts last) at known

module _ (w : Repository) (settings : Settings.Settings) (label : String)
    (service_id hostname : Option String) where
  clean_plain_part :
      (visibility : Value) (auth : Fields)
      → plain_part w settings label service_id hostname visibility auth ≡ done
      → get "mode" auth ≡ str "none"
      → (eq_str visibility "public" && eq_str (get "mode" auth) "none") ≡ false
  unfolding plain_part
  clean_plain_part visibility auth h mode =
      let named : contains ("native" ∷ "none" ∷ []) (mode_text (get "mode" auth)) ≡ true =
        rw mode in
      clean_plain w settings label service_id hostname visibility auth (rw named at h)

  -- What an accepted authentication is like: its mode is a known one, and a public service has one.
  clean_auth :
      (visibility : Value) (seen clients : List String) (auth : Fields)
      → auth_check w settings label service_id hostname visibility seen (some auth)
        ≡ ok ([], clients)
      → (in_set (get "mode" auth) auth_modes ≡ ok true)
        × ((eq_str visibility "public" && eq_str (get "mode" auth) "none") ≡ false)
  unfolding auth_check auth_by_mode
  clean_auth visibility seen clients auth h =
      let (u, known, by_mode) = clean_bind _ _ clients h in
      let (v, plain, others) = clean_bind _ _ clients by_mode in
      (
        clean_member (get "mode" auth) auth_modes _ known,
        elim (Bool-cases (eq_str (get "mode" auth) "none")) [
          | inr e ↦ rw e (and_false (eq_str visibility "public"))
          | inl e ↦ clean_plain_part visibility auth plain (eq_str→≡ (get "mode" auth) "none" e)
        ],
      )
    where
      and_false : (b : Bool) → (b && false) ≡ false
      and_false true = refl
      and_false false = refl

clean_middleware :
    (label : String) (visibility middleware : Value)
    → middleware_check label visibility middleware ≡ done
    → eq_str visibility "private" ≡ true
    → (s : String) × (middleware ≡ str s) × (str_eq (strip s) "" ≡ false)
unfolding middleware_check require_text
clean_middleware label visibility middleware h private =
    let required = rw private at h in
    let (result, found, last) =
      clean_bind
        (require_nonempty_string middleware (concat (label ∷ ".web.accessMiddleware" ∷ []))) _ tt
        required in
    let (s, text, same, full) = clean_text middleware _ result found in (s, text, full)

-- The web part of an accepted service.
pub record IsSoundWeb (web : Fields) : Type 0 where
  pub hostname : String
  pub named : get "hostname" web ≡ str hostname
  pub is_name : is_dns_name hostname ≡ true
  pub visible : in_set (get "visibility" web) ("private" ∷ "public" ∷ []) ≡ ok true
  pub restricted :
      eq_str (get "visibility" web) "private" ≡ true
      → (s : String) × (get "accessMiddleware" web ≡ str s) × (str_eq (strip s) "" ≡ false)
  pub auth : Fields
  pub login : get "auth" web ≡ obj auth
  pub mode : String
  pub moded : get "mode" auth ≡ str mode
  pub known : mode ∈ auth_modes
  pub authenticated : eq_str (get "visibility" web) "public" ≡ true → mode ≢ "none"

not_open_mode :
    (visibility mode : Value)
    → (eq_str visibility "public" && eq_str mode "none") ≡ false
    → eq_str visibility "public" ≡ true
    → ¬ (mode ≡ str "none")
not_open_mode visibility mode h p e = cc (rw (p, e) at h)

module _ (w : Repository) (settings : Settings.Settings) (label : String)
    (service_id : Option String) where
  clean_fields :
      (hostname : Option String) (web : Fields)
      → web_fields w settings label service_id hostname web ≡ done
      → (in_set (get "visibility" web) ("private" ∷ "public" ∷ []) ≡ ok true)
        × (middleware_check label (get "visibility" web) (get "accessMiddleware" web) ≡ done)
  unfolding web_fields
  clean_fields hostname web h =
      let (route, a, more) = clean_bind _ _ tt h in
      let (u, b, rest) = clean_bind _ _ tt more in
      let (v, visible, others) = clean_bind _ _ tt rest in
      let (x, middleware, last) = clean_bind _ _ tt others in
      (clean_member (get "visibility" web) ("private" ∷ "public" ∷ []) _ visible, middleware)

  pub clean_web :
      (hostnames client_ids : List String) (web : Fields) (names : WebNames)
      → web_mapping w settings label service_id hostnames client_ids web ≡ ok ([], names)
      → (sound : IsSoundWeb web) × (contains hostnames sound.hostname ≡ false)
        × (names.hostnames ≡ sound.hostname ∷ [])
  unfolding web_mapping
  clean_web hostnames client_ids web names h =
      let (u, a, more) = clean_bind _ _ names h in
      let (hostname, found, rest) = clean_bind _ _ names more in
      let (added, unique, others) = clean_bind _ _ names rest in
      let (v, others_clean, behind) = clean_bind _ _ names others in
      let (auth, mapping, last) = clean_bind _ _ names behind in
      let (clients, login, built) = clean_bind _ _ names last in
      let (s, text, same, full) = clean_text (get "hostname" web) _ hostname found in
      let (fs, object, whole) = clean_mapping (get "auth" web) _ auth mapping in
      let (absent, added_one, is_name) =
        clean_hostname settings.domain label hostnames s added (rw same at unique) in
      let (visible, middleware) = clean_fields hostname web others_clean in
      let result = result_of_pure _ names built in
      let (mode_known, not_open) =
        clean_auth w settings label service_id hostname (get "visibility" web) client_ids clients fs
          (rw whole at login) in
      let (mode, moded, known) = in_set-str (get "mode" fs) auth_modes mode_known in
      (
        record {
          hostname = s;
          named = text;
          is_name = is_name;
          visible = visible;
          restricted =
              clean_middleware label (get "visibility" web) (get "accessMiddleware" web) middleware;
          auth = fs;
          login = object;
          mode = mode;
          moded = moded;
          known = known;
          authenticated = λ p n.
              not_open_mode (get "visibility" web) (get "mode" fs) not_open p (moded ∙ ap str n);
        },
        absent,
        ap (λ (n : WebNames). n.hostnames) (sym result) ∙ sym added_one,
      )
