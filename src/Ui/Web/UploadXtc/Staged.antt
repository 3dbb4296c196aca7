-- ===== src/Ui/Web/UploadXtc/Staged.antt =====
-- What the events of an upload leave in the members of the server.
use x4_printer.Prelude.{
  ℕ, ◌+◌, ◌≤◌, ◌≡◌, ◌⊎◌, inl, inr, refl, subst, ◌∙◌, Bool, true, false, not, Option, List, [], ◌∷◌,
  length, if_cases, arith,
}
use x4_printer.Prelude.Text.{Text}
use x4_printer.Store.Card.{SdCard}
use x4_printer.Store.Json.{Json}
use x4_printer.Store.Jobs.{full}
use x4_printer.Net.Client.Download.{PartFile}
use x4_printer.Xtc.Reader.{File}
use x4_printer.Ui.Web.{Upload, WebRequest, Server, request_has_valid_session}
use x4_printer.Ui.Web.UploadXtc.{
  reset, start_xtc, write_chunk, handle_upload_xtc_data, write_all, with_xtc, opened,
  max_xtc_upload_bytes, xtc_path_of,
}

-- The length of all chunks.
abbrev pub total : List (List ℕ) → ℕ
total [] = 0
total (bs ∷ chunks) = length bs + total chunks

-- The chunks `sent` so far are on the card, unless the upload is too large.
abbrev pub IsStaged : ℕ → Upload → Type 0
IsStaged sent u =
    (u.authorized ≡ true)
    × (u.file_open ≡ true)
    × ((u.too_large ≡ true) ⊎ ((u.bytes ≡ sent) × (u.bytes ≤ max_xtc_upload_bytes)))

write_chunk-IsStaged :
    {C : Type 0} (file : PartFile C) (bs : List ℕ) (sent : ℕ) (u : Upload) (c : C)
    → IsStaged sent u
    → IsStaged (sent + length bs) (write_chunk file max_xtc_upload_bytes bs u c).0
      × ((write_chunk file max_xtc_upload_bytes bs u c).0.job_id ≡ u.job_id)
unfolding write_chunk
write_chunk-IsStaged file bs sent u c (allowed, there, inl large) = ground arith
write_chunk-IsStaged file bs sent u c (allowed, there, inr (size, small)) = ground arith

module _ {C Doc Obj : Type 0} (card : SdCard C) (json : Json Doc Obj)
    (open_file : C → Text → Option File) (file : PartFile C) (r : WebRequest) where
  pub write_all-IsStaged :
      (chunks : List (List ℕ)) (sent : ℕ) (s : Server C)
      → IsStaged sent s.xtc
      → let after = write_all card json open_file file r chunks s in
        IsStaged (sent + total chunks) after.xtc
        × (after.xtc.job_id ≡ s.xtc.job_id)
        × (after.jobs ≡ s.jobs)
  unfolding write_all handle_upload_xtc_data
  write_all-IsStaged [] sent s h = (subst (λ n. IsStaged n s.xtc) (omega arith) h, refl, refl)
  write_all-IsStaged (bs ∷ chunks) sent s h =
      let (here, named) = write_chunk-IsStaged file bs sent s.xtc s.card h in
      let next = with_xtc s (write_chunk file max_xtc_upload_bytes bs s.xtc s.card) in
      let (staged, named', same) = write_all-IsStaged chunks (sent + length bs) next here in
      (
        subst (λ n. IsStaged n (write_all card json open_file file r chunks next).xtc) (omega arith)
            staged,
        named' ∙ named,
        same,
      )

  -- A start that allows the upload has cleared the members and drawn an identifier.
  abbrev pub IsStarted : Server C → Server C → Type 0
  IsStarted s after =
      (after.jobs ≡ s.jobs)
      × ((after.xtc.authorized ≡ false)
          ⊎ (IsStaged 0 after.xtc × (after.xtc.job_id ≡ r.random_hex)))

  opened-IsStarted :
      (s : Server C) (u : Upload) (o : Bool × C)
      → u.authorized ≡ false
      → u.too_large ≡ false
      → u.bytes ≡ 0
      → u.job_id ≡ r.random_hex
      → IsStarted s (with_xtc s (opened u o))
  opened-IsStarted s u (true, c) closed small none' named =
      (refl, inr ((refl, refl, inr (none', omega (arith, none'))), named))
  opened-IsStarted s u (false, c) closed small none' named = (refl, inl closed)

  pub start_xtc-IsStarted : (s : Server C) → IsStarted s (start_xtc file r s)
  unfolding start_xtc
  start_xtc-IsStarted s =
      if_cases (IsStarted s) (not (request_has_valid_session r s)) _ _ (λ closed. (refl, inl refl))
        (λ session.
          if_cases (IsStarted s) (full s.jobs) _ _ (λ no_room. (refl, inl refl))
            (λ room.
              opened-IsStarted s
                (record (reset s.xtc) { job_id = r.random_hex; path = xtc_path_of r.random_hex }) _
                refl refl refl refl))
