-- ===== src/ApplicationState/Owned.antt =====
-- What the check of the applications' state accepts.
use home_server.Common.{
  ◌∈◌, ◌≡◌, ◌↔◌, refl, ap, ◌∙◌, ok-injective, inl, inr, Bool-cases, false, String, [], ◌∷◌, Py, ok,
  raise,
}
use home_server.Common.Substrings.{occurs, IsSubstring, occurs-IsSubstring_iff}
use home_server.ServiceCatalog.Checks.{
  Check, for_each, done, ◌>>=◌, clean_bind, clean_run, clean_each, each_clean, silent, silent_not,
}
use home_server.ApplicationState.{
  Tree, TextRule, retired, open_webui, audiobookshelf, mcphub, package_image, code_image,
  retired_check, forbidden_check, required_check, holds_none, holds_all, ownership, Verdict,
  reported, main,
}

-- The file of the rule is read and holds none of its texts.
pub record HoldsNone (tree : Tree) (rule : TextRule) : Type 0 where
  pub content : String
  pub reads : tree.read rule.file ≡ ok content
  pub free : (text : String) → text ∈ rule.texts → ¬ IsSubstring text content

-- The file of the rule is read and holds each of its texts.
pub record HoldsAll (tree : Tree) (rule : TextRule) : Type 0 where
  pub content : String
  pub reads : tree.read rule.file ≡ ok content
  pub full : (text : String) → text ∈ rule.texts → IsSubstring text content

pub record IsOwned (tree : Tree) : Type 0 where
  pub gone : (path : String) → path ∈ retired → tree.exists path ≡ false
  pub web_ui : HoldsNone tree open_webui
  pub books : HoldsNone tree audiobookshelf
  pub hub : HoldsNone tree mcphub
  pub packages : HoldsAll tree package_image
  pub code : HoldsAll tree code_image

module _ (needle text : String) where
  lacks : occurs needle text ≡ false → ¬ IsSubstring needle text
  lacks h m = let t = (occurs-IsSubstring_iff needle text).1 m in cc

  lacking : ¬ IsSubstring needle text → occurs needle text ≡ false
  lacking h = elim (Bool-cases (occurs needle text)) [
    | inl e ↦ absurd (h ((occurs-IsSubstring_iff needle text).0 e))
    | inr e ↦ e
  ]

module _ (tree : Tree) (rule : TextRule) where
  holds_none-HoldsNone : holds_none tree rule ≡ done → HoldsNone tree rule
  unfolding holds_none forbidden_check
  holds_none-HoldsNone h =
      let (content, reads, rest) = clean_run (tree.read rule.file) _ tt h in
      record {
        content = content;
        reads = reads;
        free = λ text m. lacks text content (
            silent (occurs text content) _
              (clean_each (forbidden_check rule.message content) rule.texts rest text m));
      }

  HoldsNone-holds_none : HoldsNone tree rule → holds_none tree rule ≡ done
  unfolding holds_none ◌>>=◌ forbidden_check
  HoldsNone-holds_none p = rw p.reads (
      rw (
        each_clean (forbidden_check rule.message p.content) rule.texts
          (λ text m. rw (lacking text p.content (p.free text m)))))

  holds_all-HoldsAll : holds_all tree rule ≡ done → HoldsAll tree rule
  unfolding holds_all required_check
  holds_all-HoldsAll h =
      let (content, reads, rest) = clean_run (tree.read rule.file) _ tt h in
      record {
        content = content;
        reads = reads;
        full = λ text m. (occurs-IsSubstring_iff text content).0 (
            silent_not (occurs text content) _
              (clean_each (required_check rule.message content) rule.texts rest text m));
      }

  HoldsAll-holds_all : HoldsAll tree rule → holds_all tree rule ≡ done
  unfolding holds_all ◌>>=◌ required_check
  HoldsAll-holds_all p = rw p.reads (
      rw (
        each_clean (required_check rule.message p.content) rule.texts
          (λ text m. rw ((occurs-IsSubstring_iff text p.content).1 (p.full text m)))))

module _ (tree : Tree) where
  ownership-IsOwned : ownership tree ≡ done → IsOwned tree
  unfolding ownership
  ownership-IsOwned h =
      let (u, gone, h) = clean_bind (for_each (retired_check tree) retired) _ tt h in
      let (u, web_ui, h) = clean_bind (holds_none tree open_webui) _ tt h in
      let (u, books, h) = clean_bind (holds_none tree audiobookshelf) _ tt h in
      let (u, hub, h) = clean_bind (holds_none tree mcphub) _ tt h in
      let (u, packages, code) = clean_bind (holds_all tree package_image) _ tt h in
      record {
        gone = λ path m.
            silent (tree.exists path) _ (clean_each (retired_check tree) retired gone path m);
        web_ui = holds_none-HoldsNone tree open_webui web_ui;
        books = holds_none-HoldsNone tree audiobookshelf books;
        hub = holds_none-HoldsNone tree mcphub hub;
        packages = holds_all-HoldsAll tree package_image packages;
        code = holds_all-HoldsAll tree code_image code;
      }

  IsOwned-ownership : IsOwned tree → ownership tree ≡ done
  unfolding ownership ◌>>=◌
  IsOwned-ownership p =
      let gone = each_clean (retired_check tree) retired (λ path m. rw (p.gone path m)) in
      rw (
        gone,
        HoldsNone-holds_none tree open_webui p.web_ui,
        HoldsNone-holds_none tree audiobookshelf p.books,
        HoldsNone-holds_none tree mcphub p.hub,
        HoldsAll-holds_all tree package_image p.packages,
        HoldsAll-holds_all tree code_image p.code,
      )

-- The check returns, with the status of success.
pub Passes : Py Verdict → Type 0
Passes result = (report : Verdict) × (result ≡ ok report) × (report.status ≡ 0)

reported_zero : (checked : Check (Unit {0})) → Passes (reported checked) ↔ (checked ≡ done)
unfolding Passes reported
reported_zero (raise e) = (λ p. cc, λ p. cc)
reported_zero (ok ([], u)) = (λ p. refl, λ p. (_, refl, refl))
reported_zero (ok (e ∷ errors, u)) = (
  λ p.
      let (report, same, zero) = p in
      let wrong : 1 ≡ 0 = ap (λ (r : Verdict). r.status) (ok-injective same) ∙ zero in cc,
  λ p. cc,
)

-- The check ends with status 0 exactly when no retired file exists, and each file of a rule is read and
-- holds none, or all, of the rule's texts.
pub main-IsOwned_iff : (tree : Tree) → Passes (main tree) ↔ IsOwned tree
unfolding main
main-IsOwned_iff tree =
    let (back, on) = reported_zero (ownership tree) in
    (λ p. ownership-IsOwned tree (back p), λ p. on (IsOwned-ownership tree p))
