-- ===== src/Net/Client/Download/Verified.antt =====
-- What a download that reports success left on the card.
use x4_printer.Prelude.{
  ℕ, ◌^◌, ◌<◌, ◌≡◌, ◌≢◌, ◌⊎◌, inl, inr, refl, sym, ap, subst, ◌∙◌, Bool, true, false, not, ◌&&◌,
  ◌||◌, ◌==◌, Option, none, some, List, [], ◌++◌, All, length, length-append, if_cases, Bool-cases,
  arith,
}
use x4_printer.Prelude.Int.{pos, pos_part, ltb_ℤ}
use x4_printer.Prelude.Text.{Text, codes, same_upto}
use x4_printer.Store.Card.{SdCard, IsSdCard}
use x4_printer.Config.Device.{DeviceConfigData}
use x4_printer.Sync.Requests.{pi, Variant}
use x4_printer.Net.Http.{
  Http, Device, Request, Trust, Answer, ask, configure_client, with_trust, with_answer,
  endpoint_configured, Read, is_code, sha256_hex_of,
}
use x4_printer.Net.Client.Download.{
  PartFile, Loop, tmp_part, verify, without, rename_or_discard, stream_to, download_body,
  download_job_to_sd, download_request, on_world,
}
use x4_printer.Net.Client.Download.Hashed.{IsPartFile, IsRead, IsHttp, stream_loop-IsHashed}

longer : (xs ys : Text) → 0 < length ys → xs ≢ xs ++ ys
longer xs ys h e = absurd (omega (arith, h, ap length e, length-append xs ys))

-- The file at `dest` holds the bytes that were promised.
abbrev pub IsVerified : {C : Type 0} → SdCard C → (List ℕ → List ℕ) → Text → Text → ℕ → C → Type 0
IsVerified card sha256 dest expected_hex expected c =
    (bytes : List ℕ) × (card.content c dest ≡ some bytes)
    × (length bytes ≡ expected)
    × (same_upto 64 (sha256_hex_of (sha256 bytes)) expected_hex ≡ true)

-- What an answer promises about the card: the file is verified, or it is as before or gone.
abbrev pub IsKept : {C : Type 0} → SdCard C → Text → C → C → Type 0
IsKept card dest c c' = (card.content c' dest ≡ card.content c dest) ⊎ (card.content c' dest ≡ none)

abbrev pub IsOutcome :
    {C : Type 0} → SdCard C → (List ℕ → List ℕ) → Text → Text → ℕ → C → Bool × C → Type 0
IsOutcome card sha256 dest expected_hex expected c (true, c') =
    IsVerified card sha256 dest expected_hex expected c'
IsOutcome card sha256 dest expected_hex expected c (false, c') = IsKept card dest c c'

module _ {C : Type 0} (card : SdCard C) (good : IsSdCard card) (file : PartFile C)
    (ok : IsPartFile card file) (sha256 : List ℕ → List ℕ) (http : Http C) (cfg : DeviceConfigData)
    (dest expected_hex : Text) (expected : ℕ) where
  abbrev Outcome : C → Bool × C → Type 0
  Outcome = IsOutcome card sha256 dest expected_hex expected

  abbrev tmp : Text
  tmp = tmp_part dest

  dest_else : dest ≢ tmp
  dest_else = longer dest (codes ".part") (omega arith)

  discarded :
      (c c' : C)
      → card.content c' dest ≡ card.content c dest
      → Outcome c (false, (card.remove c' tmp).1)
  discarded c c' same = inl (good.remove_else c' tmp dest dest_else ∙ same)

  without_lem :
      (c : C)
      → (card.content (without card dest c) tmp ≡ card.content c tmp)
        × IsKept card dest c (without card dest c)
  without_lem c =
      if_cases (λ t. (card.content t tmp ≡ card.content c tmp) × IsKept card dest c t)
        (card.exists c dest) (card.remove c dest).1 c
        (λ there. (
          good.remove_else c dest tmp (λ e. dest_else (sym e)),
          elim (Bool-cases (card.remove c dest).0) [
            | inl gone ↦ inr (good.remove_done c dest gone)
            | inr left ↦ inl (good.remove_failed c dest left)
          ],
        ))
        (λ absent. (refl, inl refl))

  renamed :
      (c w : C) (bytes : List ℕ)
      → card.content w tmp ≡ some bytes
      → card.content w dest ≡ card.content c dest
      → length bytes ≡ expected
      → same_upto 64 (sha256_hex_of (sha256 bytes)) expected_hex ≡ true
      → Outcome c (rename_or_discard card tmp (card.rename (without card dest w) tmp dest))
  renamed c w bytes there same size right =
      let start = without card dest w in
      let end = (card.rename start tmp dest).1 in
      let (kept, outcome) = without_lem w in
      let outcome_of = (λ (b : Bool). Outcome c (rename_or_discard card tmp (b, end))) in
      elim (Bool-cases (card.rename start tmp dest).0) [
        | inl done ↦
            subst outcome_of (sym done)
              (bytes, good.rename_done start tmp dest done ∙ kept ∙ there, size, right)
        | inr unmoved ↦
            let gone =
              good.remove_else end tmp dest dest_else
              ∙ good.rename_failed start tmp dest dest unmoved in
            subst outcome_of (sym unmoved) (elim outcome [
              | inl same' ↦ inl (gone ∙ same' ∙ same)
              | inr none' ↦ inr (gone ∙ none')
            ])
      ]

  verify-IsOutcome :
      (c : C) (l : Loop C)
      → (l.io_error ≡ false
          → (card.content l.world tmp ≡ some l.hashed) × (l.total_read ≡ length l.hashed))
      → card.content l.world dest ≡ card.content c dest
      → Outcome c (verify card file sha256 dest expected_hex expected l)
  unfolding verify
  verify-IsOutcome c l whole same =
      if_cases (Outcome c) (l.io_error || not (l.total_read == expected)) _ _
        (λ bad. discarded c l.world same)
        (λ good'.
          if_cases (Outcome c) (not (same_upto 64 (sha256_hex_of (sha256 l.hashed)) expected_hex)) _
            _ (λ wrong. discarded c l.world same)
            (λ right.
              let fine : l.io_error ≡ false = ground (arith, good') in
              let (there, size) = whole fine in
              renamed c l.world l.hashed there same (ground (arith, good', size))
                (ground (arith, right))))

  module _ (small : expected < 2 ^ 31) where
    streamed :
        (reads : List Read) (c : C)
        → All IsRead reads
        → Outcome c
            (stream_to card file sha256 dest expected_hex expected reads (file.open_part tmp c))
    streamed reads c h =
        let c' = (file.open_part tmp c).1 in
        let same = ok.opened_else tmp dest c dest_else in
        let outcome_of = (λ (b : Bool).
          Outcome c (stream_to card file sha256 dest expected_hex expected reads (b, c'))) in
        elim (Bool-cases (file.open_part tmp c).0) [
          | inl opened ↦
              let (holds, same') =
                stream_loop-IsHashed card file ok tmp dest dest_else expected small reads 0 [] c' h
                  (omega arith) (ok.opened tmp c opened) refl in
              subst outcome_of (sym opened) (verify-IsOutcome c _ holds (same' ∙ same))
          | inr shut ↦ subst outcome_of (sym shut) (inl same)
        ]

    download_body-IsOutcome :
        (a : Answer) (c : C)
        → All IsRead a.reads
        → Outcome c (download_body card file sha256 dest expected_hex expected a c)
    unfolding download_body
    download_body-IsOutcome a c h =
        if_cases (Outcome c) (not (is_code 200 a)) _ _ (λ bad. inl refl)
          (λ fine.
            if_cases (Outcome c) (ltb_ℤ (pos 0) a.size && not (pos_part a.size == expected)) _ _
              (λ bad. inl refl) (λ sized. streamed a.reads c h))

    module _ (web : IsHttp card http) where
      abbrev OnDevice : C → Bool × Device C → Type 0
      OnDevice c (b, d) = Outcome c (b, d.world)

      moved :
          (c c' : C) (r : Bool × C)
          → card.content c' dest ≡ card.content c dest
          → Outcome c' r
          → Outcome c r
      moved c c' (true, w) same h = h
      moved c c' (false, w) same (inl h) = inl (h ∙ same)
      moved c c' (false, w) same (inr h) = inr h

      abbrev body_of : Answer → Device C → Bool × Device C
      body_of a d = on_world d (download_body card file sha256 dest expected_hex expected a d.world)

      answered :
          (d : Device C) (o : Option Answer) (c : C)
          → card.content c dest ≡ card.content d.world dest
          → ((a : Answer) → o ≡ some a → All IsRead a.reads)
          → OnDevice d.world (with_answer false body_of d (o, c))
      answered d none c same h = inl same
      answered d (some a) c same h = moved d.world c _ same (download_body-IsOutcome a c (h a refl))

      trusted :
          (request : Trust → Request) (c : C) (o : Option Trust) (d : Device C)
          → d.world ≡ c
          → OnDevice c (with_trust card http cfg false request body_of (o, d))
      trusted request c none d e = inl (ap (λ w. card.content w dest) e)
      trusted request c (some trust) d e =
          subst (λ w. OnDevice w (with_trust card http cfg false request body_of (some trust, d))) e
            (answered d (http.send (request trust) d.world).0 (http.send (request trust) d.world).1
              (web.files (request trust) d.world dest) (web.in_reads (request trust) d.world))

      -- A download of less than 2 GB. On success the file at `destPath` has the promised number of bytes
      -- and the promised hash, whatever the network did; on failure it is as it was, or gone.
      pub download_job_to_sd-IsOutcome :
          (job_id : Text) (variant : Variant) (d : Device C)
          → let (b, d') =
              download_job_to_sd card file sha256 http cfg job_id dest expected_hex expected variant
                d in
            IsOutcome card sha256 dest expected_hex expected d.world (b, d'.world)
      unfolding download_job_to_sd ask configure_client
      download_job_to_sd-IsOutcome job_id variant d =
          if_cases (OnDevice d.world) (endpoint_configured cfg pi) _ _
            (λ up. trusted (download_request cfg job_id variant) d.world _ _ refl)
            (λ down. inl refl)
