-- ===== src/SearchProxy/Providers/Sanitized.antt =====
-- The search text that SearXNG parses: a user's query cannot choose an engine.
use text.Mathlib.TextLemmas.{nil-append, cons-append, append-nil, append_assoc}
use Prim.Native.String
use home_server.Common.{
  Char, code, String, str_eq, eq_iff, concat, join, is_space, ◌≡◌, refl, ap, ◌≢◌, inl, inr, false,
  Bool-cases, List, [], ◌∷◌, map, All, arith,
}
use home_server.SearchProxy.Providers.{
  push, extend, tokens, split, strip_bangs, safe_query, engine_query,
}

-- No character is white space.
abbrev pub IsWord : String → Type 0
IsWord String.[] = Unit
IsWord (String.◌∷◌ c s) = (is_space (code c) ≡ false) × IsWord s

-- The text does not begin with "!".
abbrev pub NoBang : String → Type 0
NoBang String.[] = Unit
NoBang (String.◌∷◌ c s) = code c ≢ b'!'

All-push : (P : String → Type 0) (t : String) (r : List String) → P t → All P r → All P (push t r)
All-push P t r h k = elim (Bool-cases (str_eq t "")) [ inl e ↦ rw e k | inr e ↦ rw e (h, k) ]

extend-IsWord :
    (c : Char) (t : String) (r : List String)
    → IsWord t
    → All IsWord r
    → IsWord (extend c (t, r)).0 × All IsWord (extend c (t, r)).1
extend-IsWord c t r h k = elim (Bool-cases (is_space (code c))) [
  | inl e ↦ rw e (tt, All-push IsWord t r h k)
  | inr e ↦ rw e ((e, h), k)
]

tokens-IsWord : (s : String) → IsWord (tokens s).0 × All IsWord (tokens s).1
unfolding tokens
tokens-IsWord String.[] = (tt, tt)
tokens-IsWord (String.◌∷◌ c s) =
    let (h, k) = tokens-IsWord s in extend-IsWord c (tokens s).0 (tokens s).1 h k

split-IsWord : (s : String) → All IsWord (split s)
unfolding split
split-IsWord s = let (h, k) = tokens-IsWord s in All-push IsWord (tokens s).0 (tokens s).1 h k

strip_bangs-NoBang : (s : String) → NoBang (strip_bangs s)
unfolding strip_bangs
strip_bangs-NoBang String.[] = tt
strip_bangs-NoBang (String.◌∷◌ c s) = ground (arith, strip_bangs-NoBang s)

strip_bangs-IsWord : (s : String) → IsWord s → IsWord (strip_bangs s)
unfolding strip_bangs
strip_bangs-IsWord String.[] h = tt
strip_bangs-IsWord (String.◌∷◌ c s) h = ground (arith, strip_bangs-IsWord s)

-- A word before a space is the first token.
tokens-word_space :
    (word s : String)
    → IsWord word
    → tokens (String.◌++◌ word (String.◌++◌ " " s)) ≡ (word, split s)
unfolding tokens split is_space
tokens-word_space String.[] s h = rw (nil-append, cons-append, nil-append)
tokens-word_space (String.◌∷◌ c word) s (plain, h) =
    rw (cons-append, tokens-word_space word s h, plain)

tokens-word : (word : String) → IsWord word → tokens word ≡ (word, [])
unfolding tokens
tokens-word String.[] h = refl
tokens-word (String.◌∷◌ c word) (plain, h) = rw (tokens-word word h, plain)

split-word_space :
    (word s : String)
    → IsWord word
    → split (String.◌++◌ word (String.◌++◌ " " s)) ≡ push word (split s)
unfolding split
split-word_space word s h =
    ap (λ (p : String × List String). push p.0 p.1) (tokens-word_space word s h)

split-join-NoBang :
    (ws : List String) → All IsWord ws → All NoBang ws → All NoBang (split (join " " ws))
unfolding join split tokens
split-join-NoBang [] h k = tt
split-join-NoBang (w ∷ []) h k =
    let e : split w ≡ push w [] =
      ap (λ (p : String × List String). push p.0 p.1) (tokens-word w h.0) in
    rw e (All-push NoBang w [] k.0 tt)
split-join-NoBang (w ∷ v ∷ ws) h k =
    rw (split-word_space w (join " " (v ∷ ws)) h.0)
      (All-push NoBang w _ k.0 (split-join-NoBang (v ∷ ws) h.1 k.1))

stripped :
    (ws : List String)
    → All IsWord ws
    → All IsWord (map strip_bangs ws) × All NoBang (map strip_bangs ws)
stripped [] h = (tt, tt)
stripped (w ∷ ws) h =
    let (a, b) = stripped ws h.1 in ((strip_bangs-IsWord w h.0, a), (strip_bangs-NoBang w, b))

safe_query-NoBang : (query : String) → All NoBang (split (safe_query query))
unfolding safe_query
safe_query-NoBang query =
    let (a, b) = stripped (split query) (split-IsWord query) in split-join-NoBang _ a b

bang-IsWord : (s : String) → IsWord s → IsWord (String.◌++◌ "!" s)
unfolding is_space
bang-IsWord s h = rw (cons-append, nil-append) (refl, h)

push-bang : (s : String) (r : List String) → push (String.◌++◌ "!" s) r ≡ String.◌++◌ "!" s ∷ r
push-bang s r =
    rw (cons-append, nil-append)
      (elim (Bool-cases (str_eq (String.◌∷◌ "!" s) "")) [
        | inl e ↦ let p : String.◌∷◌ "!" s ≡ String.[] = (eq_iff (String.◌∷◌ "!" s) "").0 e in cc
        | inr e ↦ rw e
      ])

engine_query-tokens :
    (shortcut query : String)
    → IsWord shortcut
    → split (engine_query shortcut query) ≡ String.◌++◌ "!" shortcut ∷ split (safe_query query)
unfolding engine_query concat
engine_query-tokens shortcut query h =
    let token = String.◌++◌ "!" shortcut in
    let is_word : IsWord token = bang-IsWord shortcut h in
    rw
      (
        append-nil (safe_query query),
        ← append_assoc "!" shortcut (String.◌++◌ " " (safe_query query)),
        split-word_space token (safe_query query) is_word,
      )
      (push-bang shortcut (split (safe_query query)))

-- SearXNG reads a token that begins with "!" as the choice of an engine. In the text that it is sent
-- the shortcut is the first token, and no other begins with "!", whatever the query.
pub engine_query-split :
    (shortcut query : String)
    → IsWord shortcut
    → (rest : List String) × (split (engine_query shortcut query) ≡ String.◌++◌ "!" shortcut ∷ rest)
      × All NoBang rest
engine_query-split shortcut query h =
    (split (safe_query query), engine_query-tokens shortcut query h, safe_query-NoBang query)
