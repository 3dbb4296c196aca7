-- ===== src/Ui/Web/UploadXtc/Refused.antt =====
-- Uploads that are refused: one without a session reaches no store, and one that finds the inbox full
-- removes the file of the upload before it.
use x4_printer.Prelude.{
  ℕ, ◌≡◌, refl, sym, ap, subst, ◌∙◌, true, false, Option, none, List, [], ◌∷◌, if◌then◌else◌,
}
use x4_printer.Prelude.Text.{Text, codes, text_eq}
use x4_printer.Store.Card.{SdCard, IsSdCard}
use x4_printer.Store.Json.{Json}
use x4_printer.Store.Jobs.{full}
use x4_printer.Net.Client.Download.{PartFile}
use x4_printer.Xtc.Reader.{File}
use x4_printer.Ui.Web.{
  Response, unauthorized, Upload, WebRequest, Server, request_has_valid_session, mark_activity,
}
use x4_printer.Ui.Web.UploadXtc.{
  file_end, reset, start_xtc, write_chunk, handle_upload_xtc_data, complete_xtc,
  handle_upload_xtc_complete, write_all, upload_xtc, with_xtc, xtc_refused, error_body, error_text,
  max_xtc_upload_bytes,
}

write_chunk-refused :
    {C : Type 0} (file : PartFile C) (limit : ℕ) (bs : List ℕ) (u : Upload) (c : C)
    → u.authorized ≡ false
    → write_chunk file limit bs u c ≡ (u, c)
unfolding write_chunk
write_chunk-refused file limit bs u c h = rw h refl

module _ {C Doc Obj : Type 0} (card : SdCard C) (json : Json Doc Obj)
    (open_file : C → Text → Option File) (file : PartFile C) (r : WebRequest) where
  -- Chunks of an upload that was refused at its start are dropped.
  pub write_all-refused :
      (chunks : List (List ℕ)) (s : Server C)
      → s.xtc.authorized ≡ false
      → write_all card json open_file file r chunks s ≡ s
  unfolding write_all handle_upload_xtc_data
  write_all-refused [] s h = refl
  write_all-refused (bs ∷ chunks) s h =
      ap (λ x. write_all card json open_file file r chunks (with_xtc s x))
        (write_chunk-refused file max_xtc_upload_bytes bs s.xtc s.card h)
      ∙ write_all-refused chunks s h

  -- The members after a start that was refused with an error.
  abbrev refused_with : Text → Upload → Upload
  refused_with error u = record (reset u) { error = error; file_open = false }

  upload_xtc-refused :
      (chunks : List (List ℕ)) (s : Server C) (error : Text)
      → start_xtc file r s ≡ with_xtc s (record (reset s.xtc) { error = error }, s.card)
      → upload_xtc card json open_file file r chunks s
        ≡ handle_upload_xtc_complete card json open_file r
            (mark_activity (with_xtc s (refused_with error s.xtc, s.card)))
  unfolding upload_xtc handle_upload_xtc_data
  upload_xtc-refused chunks s error start =
      ap
        (λ x.
          handle_upload_xtc_complete card json open_file r
            (mark_activity (handle_upload_xtc_data file r file_end x)))
        (ap (write_all card json open_file file r chunks) start
          ∙ write_all-refused chunks (with_xtc s (record (reset s.xtc) { error = error }, s.card))
              refl)

  complete-closed :
      (s : Server C)
      → request_has_valid_session r s ≡ false
      → handle_upload_xtc_complete card json open_file r s ≡ (unauthorized, s)
  unfolding handle_upload_xtc_complete
  complete-closed s closed = rw closed refl

  complete-refused :
      (error : Text) (s : Server C)
      → request_has_valid_session r s ≡ true
      → s.xtc.authorized ≡ false
      → s.xtc.error ≡ error
      → handle_upload_xtc_complete card json open_file r s
        ≡ xtc_refused card
            (if text_eq error (codes "inbox_full") then 409 else 400)
            (error_body card json open_file (error_text error))
            s
  unfolding handle_upload_xtc_complete complete_xtc
  complete-refused error s session closed e = rw (session, closed, e) refl

  -- An upload without a session is answered 401, whatever it sends, and changes nothing of the server
  -- and the card but the mark of activity and the members of the upload, which then allow none.
  pub upload_xtc-without_session :
      (chunks : List (List ℕ)) (s : Server C)
      → request_has_valid_session r s ≡ false
      → let (answer, after) = upload_xtc card json open_file file r chunks s in
        (answer ≡ unauthorized)
        × (after ≡ record s { activity = true; xtc = after.xtc })
        × (after.xtc.authorized ≡ false)
  unfolding start_xtc handle_upload_xtc_complete request_has_valid_session
  upload_xtc-without_session chunks s closed =
      let start : start_xtc file r s
          ≡ with_xtc s (record (reset s.xtc) { error = codes "unauthorized" }, s.card) =
        rw closed refl in
      let s' = mark_activity (with_xtc s (refused_with (codes "unauthorized") s.xtc, s.card)) in
      subst
        (λ (x : Response × Server C).
          (x.0 ≡ unauthorized)
          × (x.1 ≡ record s { activity = true; xtc = x.1.xtc })
          × (x.1.xtc.authorized ≡ false))
        (sym (upload_xtc-refused chunks s (codes "unauthorized") start ∙ complete-closed s' closed))
        (refl, refl, refl)

  -- An upload with a session that finds the inbox full is answered 409 and leaves the inbox as it is, but
  -- removes the file that the last upload wrote, whose path is still in its member, where the card lets it.
  pub upload_xtc-loses_file :
      (good : IsSdCard card) (chunks : List (List ℕ)) (s : Server C)
      → request_has_valid_session r s ≡ true
      → full s.jobs ≡ true
      → (card.remove s.card s.xtc.path).0 ≡ true
      → let (answer, after) = upload_xtc card json open_file file r chunks s in
        (answer.code ≡ 409) × (after.jobs ≡ s.jobs) × (card.content after.card s.xtc.path ≡ none)
  unfolding start_xtc handle_upload_xtc_complete complete_xtc request_has_valid_session
  upload_xtc-loses_file good chunks s session no_room removed =
      let start : start_xtc file r s
          ≡ with_xtc s (record (reset s.xtc) { error = codes "inbox_full" }, s.card) =
        rw (session, no_room) refl in
      let s' = mark_activity (with_xtc s (refused_with (codes "inbox_full") s.xtc, s.card)) in
      subst
        (λ (x : Response × Server C).
          (x.0.code ≡ 409) × (x.1.jobs ≡ s.jobs) × (card.content x.1.card s.xtc.path ≡ none))
        (sym (
          upload_xtc-refused chunks s (codes "inbox_full") start
          ∙ complete-refused (codes "inbox_full") s' session refl refl))
        (refl, refl, good.remove_done s.card s.xtc.path removed)
