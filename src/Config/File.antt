-- ===== src/Config/File.antt =====
-- How every store of firmware/src/config begins to read its file: the file is absent (`none`), empty,
-- malformed, or a document.
use x4_printer.Prelude.{◌≡◌, refl, ◌∙◌, ◌≢◌, Option, none, some, [], ◌∷◌}
use x4_printer.Prelude.Text.{Text}
use x4_printer.Store.Json.{Json, IsJson, Document}

module _ {Doc Obj : Type 0} (json : Json Doc Obj) where
  unfoldable pub read_doc : Option Text → Option Doc
  read_doc none = none
  read_doc (some []) = none
  read_doc (some (c ∷ raw)) = json.deserialize (c ∷ raw)

  read_text : (text : Text) → text ≢ [] → read_doc (some text) ≡ json.deserialize text
  unfolding read_doc
  read_text [] h = absurd (h refl)
  read_text (c ∷ text) h = refl

  -- A saved document is read back.
  pub read_doc-serialize :
      (ok : IsJson json) (d : Document) → read_doc (some (json.serialize d)) ≡ some (ok.doc_of d)
  read_doc-serialize ok d = read_text (json.serialize d) (ok.serialize_some d) ∙ ok.reads_back d
