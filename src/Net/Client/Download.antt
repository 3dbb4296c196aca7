-- ===== src/Net/Client/Download.antt =====
-- firmware/src/net/SyncClient.cpp: `downloadJobToSd`. The open file and SHA-256 are parameters; the
-- bytes that the hash has seen are the model's.
pub mod Hashed
pub mod Verified
use x4_printer.Prelude.{
  ℕ, ◌+◌, ◌*◌, ◌%◌, ◌^◌, ◌≡◌, ◌≢◌, Bool, true, false, not, ◌&&◌, ◌||◌, ◌==◌, leb, Option, none,
  some, List, [], ◌∷◌, ◌++◌, length, if◌then◌else◌,
}
use x4_printer.Prelude.Int.{ℤ, pos, pos_part, ltb_ℤ}
use x4_printer.Prelude.Text.{Text, codes, same_upto}
use x4_printer.Store.Card.{SdCard}
use x4_printer.Config.Device.{DeviceConfigData}
use x4_printer.Sync.Requests.{pi, Variant, normal, landscape}
use x4_printer.Net.Http.{
  Http, Device, Trust, Request, get, Answer, Read, timed_out, failed, chunk, ask, is_code,
  pi_headers, sha256_hex_of,
}

-- The file that the body is written to: `open` with `O_WRONLY | O_CREAT | O_TRUNC`, and `write`, which
-- gives the number of bytes that it wrote.
pub record PartFile (C : Type 0) : Type 0 where
  pub open_part : Text → C → Bool × C
  pub write_part : Text → List ℕ → C → ℕ × C

-- What the loop leaves behind.
pub record Loop (C : Type 0) : Type 0 where
  pub io_error : Bool
  pub total_read : ℕ
  pub hashed : List ℕ
  pub world : C

abbrev pub tmp_part : Text → Text
tmp_part dest = dest ++ codes ".part"

abbrev pub variant_query : Variant → Text
variant_query normal = []
variant_query landscape = codes "?variant=landscape"

module _ {C : Type 0} (file : PartFile C) (path : Text) (expected : ℕ) where
  abbrev stop : Bool → ℕ → List ℕ → C → Loop C
  stop io_error total hashed c = record {
    io_error = io_error;
    total_read = total;
    hashed = hashed;
    world = c;
  }

  -- `while (http.connected() && totalRead < expectedBytes)`. A `read` of no bytes is an error.
  unfoldable pub stream_loop : List Read → ℕ → List ℕ → C → Loop C
  stream_loop [] total hashed c = stop false total hashed c
  stream_loop (timed_out ∷ reads) total hashed c = stop (not (leb expected total)) total hashed c
  stream_loop (failed ∷ reads) total hashed c = stop (not (leb expected total)) total hashed c
  stream_loop (chunk [] ∷ reads) total hashed c = stop (not (leb expected total)) total hashed c
  stream_loop (chunk (b ∷ bs) ∷ reads) total hashed c =
      let (n, c') = file.write_part path (b ∷ bs) c in
      let rest = stream_loop reads ((total + length (b ∷ bs)) % 2 ^ 32) (hashed ++ b ∷ bs) c' in
      if leb expected total
      then stop false total hashed c
      else if n == length (b ∷ bs)
      then rest
      else stop true total hashed c'

module _ {C : Type 0} (card : SdCard C) where
  -- `SdMan.remove(tmpPath)` and the answer false.
  abbrev pub discard : Text → C → Bool × C
  discard tmp c = (false, (card.remove c tmp).1)

  abbrev pub without : Text → C → C
  without dest c = if card.exists c dest then (card.remove c dest).1 else c

  abbrev pub rename_or_discard : Text → Bool × C → Bool × C
  rename_or_discard tmp (true, c) = (true, c)
  rename_or_discard tmp (false, c) = discard tmp c

abbrev pub on_world : {C : Type 0} → Device C → Bool × C → Bool × Device C
on_world d (b, c) = (b, record d { world = c })

abbrev pub download_request : DeviceConfigData → Text → Variant → Trust → Request
download_request cfg job_id variant trust = record {
  trust = trust;
  url = cfg.pi_base_url ++ (codes "/jobs/" ++ (job_id ++ (codes "/xtc" ++ variant_query variant)));
  headers = pi_headers cfg;
  body = get;
}

module _ {C : Type 0} (card : SdCard C) (file : PartFile C) (sha256 : List ℕ → List ℕ) where
  -- From the end of the loop on.
  unfoldable pub verify : Text → Text → ℕ → Loop C → Bool × C
  verify dest expected_hex expected l =
      let tmp = tmp_part dest in
      if l.io_error || not (l.total_read == expected)
      then discard card tmp l.world
      else if not (same_upto 64 (sha256_hex_of (sha256 l.hashed)) expected_hex)
      then discard card tmp l.world
      else rename_or_discard card tmp (card.rename (without card dest l.world) tmp dest)

  abbrev pub stream_to : Text → Text → ℕ → List Read → Bool × C → Bool × C
  stream_to dest expected_hex expected reads (false, c) = (false, c)
  stream_to dest expected_hex expected reads (true, c) =
      verify dest expected_hex expected (stream_loop file (tmp_part dest) expected reads 0 [] c)

  -- From the response on.
  unfoldable pub download_body : Text → Text → ℕ → Answer → C → Bool × C
  unfolding verify stream_loop
  download_body dest expected_hex expected a c =
      if not (is_code 200 a)
      then (false, c)
      else if ltb_ℤ (pos 0) a.size && not (pos_part a.size == expected)
      then (false, c)
      else stream_to dest expected_hex expected a.reads (file.open_part (tmp_part dest) c)

  unfoldable pub download_job_to_sd :
      Http C → DeviceConfigData → Text → Text → Text → ℕ → Variant → Device C → Bool × Device C
  unfolding download_body
  download_job_to_sd http cfg job_id dest expected_hex expected variant =
      ask card http cfg pi false (download_request cfg job_id variant)
        (λ a d. on_world d (download_body dest expected_hex expected a d.world))
