-- ===== src/Xtc/Decoder/Overread.antt =====
-- Where a sum wraps, the bounds check lets a read outside the buffer through.
use x4_printer.Prelude.{ℕ, ◌+◌, ◌≤◌, ◌<◌, ◌^◌, ◌≡◌, Bool, some, length, arith}
use x4_printer.Xtc.Access.{ok, fault, Bytes, byte_at-fault}
use x4_printer.Xtc.Format.{XtcHeader, parse_xtc_header, parse_index_entry, read_le64, read_le32}
use x4_printer.Xtc.Decoder.{decode_header, decode_page, entry_offset}

parse_index_entry-fault : (bs : Bytes) (p : ℕ) → length bs ≤ p → parse_index_entry bs p ≡ fault
unfolding parse_index_entry read_le64 read_le32
parse_index_entry-fault bs p h = rw (byte_at-fault bs p h)

-- A file of fewer than 2^32 bytes whose header puts the index in the last 16 bytes of the 64-bit range
-- passes the check of `entryOffset`, and the decoder reads its page 0 outside the buffer.
pub decode_page_overread :
    (malloc : ℕ → Bool) (bs : Bytes) (header : XtcHeader)
    → 56 ≤ length bs
    → length bs < 2 ^ 32
    → parse_xtc_header bs 0 ≡ ok header
    → 0 < header.page_count
    → 2 ^ 64 ≤ header.index_offset + 16
    → header.index_offset < 2 ^ 64
    → decode_page malloc (some bs) 0 ≡ fault
unfolding decode_page decode_header
decode_page_overread malloc bs header long short read pages late fits =
    ground (arith, read, parse_index_entry-fault bs (entry_offset header 0))
