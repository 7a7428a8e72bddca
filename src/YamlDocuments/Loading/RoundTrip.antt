-- ===== src/YamlDocuments/Loading/RoundTrip.antt =====
-- What is loaded from documents that are printed a line each.
use home_server.Common.{
  ℕ, suc, strip, String, str_eq, ◌≡◌, refl, true, false, List, [], ◌∷◌, map, ok,
}
use home_server.Common.Lines.{splitlines}
use home_server.Common.Feeds.{IsLine, feeds, splitlines-feed}
use home_server.Common.Tools.{ToolRun}
use home_server.Json.{Value}
use home_server.YamlDocuments.Loading.{
  json, Tools, parse_lines, load_documents, decoded, output_of, require_command,
}

module _ (tools : Tools) (print : Value → String) where
  -- A document is printed as one line, not blank, that json.loads reads back.
  pub record IsPrinted (document : Value) : Type 0 where
    pub line : IsLine (print document)
    pub inked : str_eq (strip (print document)) "" ≡ false
    pub reads : tools.loads (print document) ≡ json document

  abbrev pub ArePrinted : List Value → Type 0
  ArePrinted [] = Unit
  ArePrinted (document ∷ documents) = IsPrinted document × ArePrinted documents

  parsed :
      (path : String) (number : ℕ) (documents : List Value)
      → ArePrinted documents
      → parse_lines tools path number (splitlines (feeds (map print documents) "")) ≡ ok documents
  unfolding parse_lines splitlines decoded
  parsed path number [] h = refl
  parsed path number (document ∷ documents) (h, rest) =
      rw
        (splitlines-feed (print document) (feeds (map print documents) "") h.line, h.inked, h.reads)
        (rw (parsed path (suc number) documents rest))

  -- Where yq is installed, ends well and prints each document as a line, that is not blank and that
  -- json.loads reads back, the documents are loaded.
  pub load_documents-printed :
      (yq : ToolRun) (path : String) (documents : List Value)
      → tools.has_command "yq" ≡ true
      → yq.failed ≡ false
      → yq.stdout ≡ feeds (map print documents) ""
      → ArePrinted documents
      → load_documents tools yq path ≡ ok documents
  unfolding load_documents output_of require_command
  load_documents-printed yq path documents installed ended printed h =
      rw (installed, ended, printed) (parsed path 1 documents h)
