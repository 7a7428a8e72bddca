-- ===== src/SearchProxy/Results.antt =====
-- `concise_result` and the list comprehension that numbers the candidates.
pub mod Valid
use home_server.Common.{
  ℕ, ◌+◌, Bool, String, str_eq, strip, prefix, starts_with, ◌||◌, if◌then◌else◌, List, [], ◌∷◌,
  Option, none, some,
}
use home_server.Json.{Value, Fields, str, obj, get, or_else, str_of}

abbrev pub result_limit : ℕ
result_limit = 10

pub record Result : Type 0 where
  pub link : String
  pub title : String
  pub snippet : String
  pub position : ℕ

abbrev is_web_link : String → Bool
is_web_link link = starts_with link "https://" || starts_with link "http://"

module _ (render : Value → String) where
  abbrev concise : String → String → Value → ℕ → Result
  concise link title description position = record {
    link = link;
    title = prefix 1_000 (strip title);
    snippet = prefix 4_000 (strip (str_of render description));
    position = position;
  }

  -- the type tests on the link and the title
  accepted : Value → Value → Value → ℕ → Option Result
  accepted (str link) (str title) description position =
      if is_web_link link
      then (if str_eq (strip title) ""
          then none
          else some (concise link title description position))
      else none
  accepted _ _ description position = none

  unfoldable pub concise_result : Fields → ℕ → Option Result
  unfolding accepted
  concise_result item position =
      let link = or_else (get "url" item) (get "link" item) in
      let description = or_else (or_else (get "description" item) (get "snippet" item)) (str "") in
      accepted link (get "title" item) description position

abbrev keep : Option Result → List Result → List Result
keep none rest = rest
keep (some r) rest = r ∷ rest

-- `[result for index, item in enumerate(candidates, start=index) if …]`
unfoldable pub numbered : (Fields → ℕ → Option Result) → ℕ → List Value → List Result
numbered concise index [] = []
numbered concise index (obj item ∷ candidates) =
    keep (concise item index) (numbered concise (index + 1) candidates)
numbered concise index (_ ∷ candidates) = numbered concise (index + 1) candidates
