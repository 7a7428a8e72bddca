-- ===== src/ServiceCatalog/Blueprints/Parts.antt =====
-- scripts/service_catalog.py: what the blueprints share.
use home_server.Common.{
  String, concat, join, List, [], ◌∷◌, Option, none, some, Py, ok, raise, key_error, type_error,
  ◌>>=◌,
}
use home_server.Json.{Value, obj, find, str_of}
use home_server.ServiceCatalog.Paths.{Repository}

-- v[k] of a value
abbrev pub or_missing : Option Value → Py Value
or_missing none = raise key_error
or_missing (some v) = ok v

abbrev pub item : String → Value → Py Value
item k (obj fs) = or_missing (find k fs)
item k v = raise type_error

abbrev pub head_lines : String → List String
head_lines name_line =
    "version: 1" ∷ "metadata:" ∷ name_line ∷ "  labels:"
    ∷ "    blueprints.goauthentik.io/instantiate: \"true\"" ∷ "entries:" ∷ []

-- "\n".join(lines) + "\n"
unfoldable pub ended : List String → String
unfolding concat join
ended lines = concat (join "\n" lines ∷ "\n" ∷ [])

module _ (w : Repository) where
  -- str(v), and str(v[k])
  unfoldable pub text_of : Value → String
  unfolding str_of
  text_of = str_of w.render

  unfoldable pub text_item : String → Value → Py String
  unfolding text_of
  text_item k v = do x ← item k v; ok (text_of x)
