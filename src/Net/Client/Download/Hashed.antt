-- ===== src/Net/Client/Download/Hashed.antt =====
-- What the loop over the body writes and hashes, and what is relied on of the open file and the
-- network.
use x4_printer.Prelude.{
  ℕ, ◌+◌, ◌%◌, ◌^◌, ◌≤◌, ◌<◌, ◌≡◌, ◌≢◌, refl, ◌∙◌, true, false, ◌==◌, ==_iff, leb, some, List, [],
  ◌∷◌, ◌++◌, All, length, length-append, if_cases, arith,
}
use x4_printer.Prelude.Text.{Text}
use x4_printer.Store.Card.{SdCard}
use x4_printer.Net.Http.{Http, Request, Answer, Read, timed_out, failed, chunk}
use x4_printer.Net.Client.Download.{PartFile, Loop, stream_loop}

-- What the code relies on: an open file is empty, a write of all the bytes appends them, and neither
-- touches another file.
pub record IsPartFile {C : Type 0} (card : SdCard C) (file : PartFile C) : Type 0 where
  pub opened :
      (p : Text) (c : C)
      → (file.open_part p c).0 ≡ true
      → card.content (file.open_part p c).1 p ≡ some []
  pub opened_else :
      (p q : Text) (c : C) → q ≢ p → card.content (file.open_part p c).1 q ≡ card.content c q
  pub written :
      (p : Text) (old bs : List ℕ) (c : C)
      → card.content c p ≡ some old
      → (file.write_part p bs c).0 ≡ length bs
      → card.content (file.write_part p bs c).1 p ≡ some (old ++ bs)
  pub written_else :
      (p q : Text) (bs : List ℕ) (c : C)
      → q ≢ p
      → card.content (file.write_part p bs c).1 q ≡ card.content c q

-- `read` gives no more bytes than the buffer holds, `kStreamChunkBytes`.
abbrev pub IsRead : Read → Type 0
IsRead timed_out = Unit
IsRead failed = Unit
IsRead (chunk bs) = length bs ≤ 2048

-- The network touches no file, and gives the body in reads.
pub record IsHttp {C : Type 0} (card : SdCard C) (http : Http C) : Type 0 where
  pub files : (r : Request) (c : C) (p : Text) → card.content (http.send r c).1 p ≡ card.content c p
  pub in_reads :
      (r : Request) (c : C) (a : Answer) → (http.send r c).0 ≡ some a → All IsRead a.reads

module _ {C : Type 0} (card : SdCard C) (file : PartFile C) (ok : IsPartFile card file) where
  module _ (path other : Text) (apart : other ≢ path) (expected : ℕ)
      (small : expected < 2 ^ 31) where
    -- Without an error, the file holds the bytes that were hashed, which `totalRead` counts; the file
    -- `other` is as it was.
    abbrev pub IsHashed : C → Loop C → Type 0
    IsHashed c l =
        (l.io_error ≡ false
          → (card.content l.world path ≡ some l.hashed) × (l.total_read ≡ length l.hashed))
        × (card.content l.world other ≡ card.content c other)

    pub stream_loop-IsHashed :
        (reads : List Read) (total : ℕ) (hashed : List ℕ) (c : C)
        → All IsRead reads
        → total < expected + 2048
        → card.content c path ≡ some hashed
        → total ≡ length hashed
        → IsHashed c (stream_loop file path expected reads total hashed c)
    unfolding stream_loop
    stream_loop-IsHashed [] total hashed c h fits at e = ((λ k. (at, e)), refl)
    stream_loop-IsHashed (timed_out ∷ reads) total hashed c h fits at e = ((λ k. (at, e)), refl)
    stream_loop-IsHashed (failed ∷ reads) total hashed c h fits at e = ((λ k. (at, e)), refl)
    stream_loop-IsHashed (chunk [] ∷ reads) total hashed c h fits at e = ((λ k. (at, e)), refl)
    stream_loop-IsHashed (chunk (b ∷ bs) ∷ reads) total hashed c h fits at e =
        let c' = (file.write_part path (b ∷ bs) c).1 in
        let n = (file.write_part path (b ∷ bs) c).0 in
        let kept = ok.written_else path other (b ∷ bs) c apart in
        if_cases (IsHashed c) (leb expected total) _ _ (λ full. ((λ k. (at, e)), refl))
          (λ more.
            if_cases (IsHashed c) (n == length (b ∷ bs)) _ _
              (λ whole.
                let size : n ≡ length (b ∷ bs) = (==_iff n (length (b ∷ bs))).0 whole in
                let less : total < expected = ground (arith, more) in
                let next : (total + length (b ∷ bs)) % 2 ^ 32 ≡ length (hashed ++ b ∷ bs) =
                  omega (arith, less, small, e, h.0, length-append hashed (b ∷ bs)) in
                let (holds, same) =
                  stream_loop-IsHashed reads ((total + length (b ∷ bs)) % 2 ^ 32) (hashed ++ b ∷ bs)
                    c' h.1 (omega (arith, less, small, h.0))
                    (ok.written path hashed (b ∷ bs) c at size) next in
                (holds, same ∙ kept))
              (λ cut. ((λ k. absurd (ground (arith, k))), kept)))
