-- ===== src/YamlDocuments/Annotations.antt =====
-- An annotation is one line, whatever a manifest or a path holds.
use home_server.Common.{ℕ, String, concat, List, [], ◌∷◌, Option, none, some, All, arith}
use home_server.Common.Replace.{replace, Lacks, Lacks-append, replace-Lacks, Lacks-replace}
use home_server.YamlDocuments.{escape_message, escape_path, github_error}

-- The text has no line break of the log's lines.
abbrev pub OneLine : String → Type 0
OneLine s = Lacks b'\n' s × Lacks b'\r' s

OneLine-concat : (parts : List String) → All OneLine parts → OneLine (concat parts)
unfolding concat
OneLine-concat [] h = (tt, tt)
OneLine-concat (s ∷ parts) h =
    let (a, b) = OneLine-concat parts h.1 in
    (Lacks-append _ s (concat parts) h.0.0 a, Lacks-append _ s (concat parts) h.0.1 b)

OneLine-replace : (c : ℕ) (t s : String) → OneLine t → OneLine s → OneLine (replace c t s)
OneLine-replace c t s h k = (Lacks-replace _ c t s h.0 k.0, Lacks-replace _ c t s h.1 k.1)

escape_message-OneLine : (message : String) → OneLine (escape_message message)
unfolding escape_message
escape_message-OneLine message =
    let first = replace b'%' "%25" message in
    let second = replace b'\r' "%0D" first in
    (
      replace-Lacks b'\n' "%0A" second (ground arith),
      Lacks-replace b'\r' b'\n' "%0A" second (ground arith)
          (replace-Lacks b'\r' "%0D" first (ground arith)),
    )

escape_path-OneLine : (path : String) → OneLine (escape_path path)
unfolding escape_path
escape_path-OneLine path =
    OneLine-replace b',' "%2C" _ (ground arith) (
      OneLine-replace b':' "%3A" (escape_message path) (ground arith) (escape_message-OneLine path))

-- Whatever the message and the path, the annotation is one line, so that neither can begin a workflow
-- command of its own.
pub github_error-OneLine :
    (message : String) (path : Option String) → OneLine (github_error message path)
unfolding github_error
github_error-OneLine message none =
    OneLine-concat _ (ground arith, (escape_message-OneLine message, tt))
github_error-OneLine message (some path) =
    OneLine-concat _ (
      ground arith,
      (escape_path-OneLine path, (ground arith, (escape_message-OneLine message, tt))),
    )
