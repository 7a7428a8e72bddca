-- ===== src/ServiceCatalog/Structure/Unique.antt =====
-- The services of an accepted catalog are told apart by their ids and by their hostnames.
pub mod Sound
use home_server.Common.{
  ok-injective, ◌∈◌, contains→in, ℕ, suc, String, str_eq, eq_refl, ◌≡◌, refl, sym, ap, ◌∙◌, inl,
  inr, ◌⊎◌, Bool, Bool-cases, true, false, not, ◌||◌, List, [], ◌∷◌, ◌++◌, contains, flat_map,
  Option, some, ok,
}
use home_server.Json.{Value, Fields, null, bool, int, real, str, arr, obj, get, dict_or_empty}
use home_server.ServiceCatalog.Checks.{done, clean_bind, clean_run, result_of_pure, silent}
use home_server.ServiceCatalog.Paths.{Repository, FilePath}
use home_server.ServiceCatalog.Names.{is_dns_label}
use home_server.ServiceCatalog.References.{at_index}
use home_server.ServiceCatalog.Routes.{text_in}
use home_server.ServiceCatalog.Structure.{
  Seen, id_check, service_label, service_parts, service_check, services_check, nothing_seen,
  validate_catalog_structure,
}
use home_server.ServiceCatalog.Rendered.{services}
use home_server.ServiceCatalog.Structure.Settings
use home_server.ServiceCatalog.Structure.Settings.{distinct}
use home_server.ServiceCatalog.Structure.Web.{WebNames, web_check}
use home_server.ServiceCatalog.Structure.Clean.{clean_text, IsSoundWeb, clean_web}
use home_server.ServiceCatalog.Structure.Unique.Sound.{
  IsNew, IsNew-cons, service_ids, service_hostnames, IsSound, clean_id,
}

module _ (w : Repository) (settings : Settings.Settings) (roots : List FilePath) where
  clean_parts :
      (label : String) (service_id : Option String) (seen : Seen) (service : Fields)
      (apps : List FilePath) (names : WebNames)
      → service_parts w settings roots label service_id seen service ≡ ok ([], (apps, names))
      → web_check w settings label service_id seen.hostnames seen.client_ids (get "web" service)
        ≡ ok ([], names)
  unfolding service_parts
  clean_parts label service_id seen service apps names h =
      let (path, a, h) = clean_bind _ _ (apps, names) h in
      let (here, b, h) = clean_bind _ _ (apps, names) h in
      let (workload, c, h) = clean_bind _ _ (apps, names) h in
      let (u, d, h) = clean_bind _ _ (apps, names) h in
      let (card, e, h) = clean_bind _ _ (apps, names) h in
      let (v, f, h) = clean_bind _ _ (apps, names) h in
      let (found, web, h) = clean_bind _ _ (apps, names) h in
      let (placement, i, h) = clean_bind _ _ (apps, names) h in
      let (x, j, h) = clean_bind _ _ (apps, names) h in
      let (storage, k, h) = clean_bind _ _ (apps, names) h in
      let (y, l, h) = clean_bind _ _ (apps, names) h in
      let (observability, m, h) = clean_bind _ _ (apps, names) h in
      let (z, n, h) = clean_bind _ _ (apps, names) h in
      let same : names ≡ found =
        ap (λ (p : List FilePath × WebNames). p.1) (sym (result_of_pure _ (apps, names) h)) in
      rw same web

  clean_web_check :
      (label : String) (service_id : Option String) (hostnames client_ids : List String) (v : Value)
      (names : WebNames)
      → web_check w settings label service_id hostnames client_ids v ≡ ok ([], names)
      → ((v ≡ null) × (names.hostnames ≡ []))
        ⊎ ((web : Fields) × (sound : IsSoundWeb web) × (v ≡ obj web)
            × (contains hostnames sound.hostname ≡ false)
            × (names.hostnames ≡ sound.hostname ∷ []))
  unfolding web_check
  clean_web_check label service_id hostnames client_ids null names h =
      inl (refl, ap (λ (n : WebNames). n.hostnames) (sym (result_of_pure _ names h)))
  clean_web_check label service_id hostnames client_ids (obj web) names h =
      let (sound, fresh, added) =
        clean_web w settings label service_id hostnames client_ids web names h in
      inr (web, sound, refl, fresh, added)
  clean_web_check label service_id hostnames client_ids (bool b) names h = cc
  clean_web_check label service_id hostnames client_ids (int n) names h = cc
  clean_web_check label service_id hostnames client_ids (real t) names h = cc
  clean_web_check label service_id hostnames client_ids (str s) names h = cc
  clean_web_check label service_id hostnames client_ids (arr vs) names h = cc

  -- What one service adds to what was seen.
  record IsStep (seen : Seen) (v : Value) (now : Seen) : Type 0 where
    sound : IsSound v
    own_id : service_ids v ≡ sound.id ∷ []
    fresh_id : contains seen.ids sound.id ≡ false
    ids : now.ids ≡ sound.id ∷ seen.ids
    hostnames :
        ((service_hostnames v ≡ []) × (now.hostnames ≡ seen.hostnames))
        ⊎ ((h : String) × (service_hostnames v ≡ h ∷ [])
            × (contains seen.hostnames h ≡ false)
            × (now.hostnames ≡ h ∷ seen.hostnames))

  clean_service :
      (index : ℕ) (seen : Seen) (v : Value) (now : Seen)
      → service_check w settings roots index seen v ≡ ok ([], now)
      → IsStep seen v now
  unfolding service_check
  clean_service index seen (obj service) now h =
      let (u, a, h) = clean_bind _ _ now h in
      let (service_id, found, h) = clean_bind _ _ now h in
      let (v, b, h) = clean_bind _ _ now h in
      let (ids, known, h) = clean_bind _ _ now h in
      let ((apps, names), parts, h) = clean_bind _ _ now h in
      let (id, text, same, full) = clean_text (get "id" service) _ service_id found in
      let (label, fresh, added) =
        clean_id (at_index "catalog.services" index) seen.ids id ids (rw same at known) in
      let web =
        clean_web_check _ service_id seen.hostnames seen.client_ids (get "web" service) names (
          clean_parts
            (service_label (at_index "catalog.services" index) service_id (get "_source" service))
            service_id seen service apps names parts) in
      let result = sym (result_of_pure _ now h) in
      record {
        sound = record {
          service = service;
          mapping = refl;
          id = id;
          named = text;
          label = label;
          web = elim web [
            | inl n ↦ inl n.0
            | inr (fields, sound, object, fresh_host, one) ↦ inr (fields, object, sound)
          ];
        };
        own_id = rw text;
        fresh_id = fresh;
        ids = ap (λ (s : Seen). s.ids) result ∙ ap (λ (l : List String). l ++ seen.ids) added;
        hostnames = hosts names web (ap (λ (s : Seen). s.hostnames) result);
      }
    where
      hosts :
          (names : WebNames)
          → ((get "web" service ≡ null) × (names.hostnames ≡ []))
            ⊎ ((web : Fields) × (sound : IsSoundWeb web) × (get "web" service ≡ obj web)
                × (contains seen.hostnames sound.hostname ≡ false)
                × (names.hostnames ≡ sound.hostname ∷ []))
          → now.hostnames ≡ names.hostnames ++ seen.hostnames
          → ((service_hostnames (obj service) ≡ []) × (now.hostnames ≡ seen.hostnames))
            ⊎ ((h : String) × (service_hostnames (obj service) ≡ h ∷ [])
                × (contains seen.hostnames h ≡ false)
                × (now.hostnames ≡ h ∷ seen.hostnames))
      hosts names (inl (absent, empty)) all =
          inl (rw absent, all ∙ ap (λ (l : List String). l ++ seen.hostnames) empty)
      hosts names (inr (web, sound, object, fresh, one)) all = inr (
        sound.hostname,
        rw (object, sound.named),
        fresh,
        all ∙ ap (λ (l : List String). l ++ seen.hostnames) one,
      )
  clean_service index seen null now h = cc
  clean_service index seen (bool b) now h = cc
  clean_service index seen (int n) now h = cc
  clean_service index seen (real t) now h = cc
  clean_service index seen (str s) now h = cc
  clean_service index seen (arr vs) now h = cc

  hostnames-IsNew :
      (seen : Seen) (v : Value) (now : Seen) (rest : List String)
      → ((service_hostnames v ≡ []) × (now.hostnames ≡ seen.hostnames))
        ⊎ ((h : String) × (service_hostnames v ≡ h ∷ [])
            × (contains seen.hostnames h ≡ false)
            × (now.hostnames ≡ h ∷ seen.hostnames))
      → IsNew now.hostnames rest
      → IsNew seen.hostnames (service_hostnames v ++ rest)
  hostnames-IsNew seen v now rest (inl (empty, same)) n = rw empty (rw same at n)
  hostnames-IsNew seen v now rest (inr (h, one, fresh, more)) n =
      rw one (IsNew-cons seen.hostnames rest h fresh (rw more at n))

  -- Each service is sound, and the ids and the hostnames are distinct and were not seen before.
  services_check-IsSound :
      (index : ℕ) (seen : Seen) (services : List Value) (last : Seen)
      → services_check w settings roots index seen services ≡ ok ([], last)
      → ((v : Value) → v ∈ services → IsSound v)
        × IsNew seen.ids (flat_map service_ids services)
        × IsNew seen.hostnames (flat_map service_hostnames services)
  unfolding services_check
  services_check-IsSound index seen [] last h = (
    λ v m. absurd m,
    record { fresh = λ x m. absurd m; once = refl },
    record { fresh = λ x m. absurd m; once = refl },
  )
  services_check-IsSound index seen (service ∷ services) last h =
      let (now, here, rest) = clean_bind _ _ last h in
      let step = clean_service index seen service now here in
      let (sounds, ids, hostnames) = services_check-IsSound (suc index) now services last rest in
      (
        λ v m. elim m [ inl e ↦ rw (← e) step.sound | inr n ↦ sounds v n ],
        rw step.own_id (
            IsNew-cons seen.ids (flat_map service_ids services) step.sound.id step.fresh_id
              (rw step.ids at ids)),
        hostnames-IsNew seen service now (flat_map service_hostnames services) step.hostnames
            hostnames,
      )

-- Each service is sound, and no two share an id or a hostname.
pub record IsSoundCatalog (services : List Value) : Type 0 where
  pub sound : (v : Value) → v ∈ services → IsSound v
  pub ids : distinct (flat_map service_ids services) ≡ true
  pub hostnames : distinct (flat_map service_hostnames services) ≡ true

-- When the check of a catalog's structure comes to its end and appends no error, each service is a
-- mapping whose id is a DNS label, no two services share an id or a hostname, and the web part of a
-- service, if it has one, is sound: its hostname is a DNS name, its visibility is private or public, a
-- private one names its middleware, and the mode of its
-- authentication is forward-auth, native, none or oidc, but not none for a public one.
pub validate_catalog_structure-IsSoundCatalog :
    (w : Repository) (catalog : Fields) (listed : List Value)
    → validate_catalog_structure w catalog ≡ done
    → services catalog ≡ ok listed
    → IsSoundCatalog listed
unfolding validate_catalog_structure
validate_catalog_structure-IsSoundCatalog w catalog listed h found =
    let (known, a, h) = clean_bind _ _ tt h in
    let (roots, b, h) = clean_bind _ _ tt h in
    let (all, c, h) = clean_run (services catalog) _ tt h in
    let (last, checked, h) = clean_bind _ _ tt h in
    let same : all ≡ listed = ok-injective (sym c ∙ found) in
    let (sounds, ids, hostnames) =
      services_check-IsSound w known roots 0 nothing_seen listed last (rw same at checked) in
    record { sound = sounds; ids = ids.once; hostnames = hostnames.once }
