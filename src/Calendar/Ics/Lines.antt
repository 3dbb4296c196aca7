-- ===== src/Calendar/Ics/Lines.antt =====
-- The lines of the feed in IcsParser.cpp: `feed`, `handlePhysicalLine`, `processLogicalLine` and
-- `finish`.
pub mod Chunks
pub mod Keeps
pub mod Window
use x4_printer.Prelude.{
  ℕ, zero, suc, ◌+◌, ◌-◌, ◌%◌, Bool, true, false, ◌&&◌, ◌||◌, not, ltb, leb, ◌==◌, Option, none,
  some, List, [], ◌∷◌, ◌++◌, length, if◌then◌else◌,
}
use x4_printer.Prelude.Int.{ℤ, pos, negsuc, ltb_ℤ, eq_ℤ}
use x4_printer.Prelude.Text.{Text, codes, text_eq}
use x4_printer.Calendar.Ics.Strings.{is_empty, cut, cut_colon, upper_case}
use x4_printer.Calendar.Ics.State.{
  EventStatus, Event, VtzRule, Vtz, empty_vtz, RawEvent, empty_raw, Setup, Output, Section,
  no_section, standard, daylight, Blocks, IcsParser, max_logical_line, max_vtimezones,
}
use x4_printer.Calendar.Ics.Zones.{handle_vtz_prop}
use x4_printer.Calendar.Ics.Emit.{in_window, push_event}
use x4_printer.Calendar.Ics.Events.{handle_event_prop, is_cancelled, end_event}

-- BEGIN
unfoldable pub begin_block : Text → Blocks → Blocks
begin_block value b =
    if text_eq value (codes "VEVENT")
    then record b { in_event = true; skip_depth = 0; raw = empty_raw }
    else if b.in_event
    then record b { skip_depth = b.skip_depth + 1 }
    else if text_eq value (codes "VTIMEZONE")
    then record b { in_vtz = true; vtz_section = no_section; cur_vtz = empty_vtz }
    else if b.in_vtz && text_eq value (codes "STANDARD")
    then record b { vtz_section = standard }
    else if b.in_vtz && text_eq value (codes "DAYLIGHT")
    then record b { vtz_section = daylight }
    else b

abbrev has_month : VtzRule → Bool
has_month r = not (eq_ℤ r.month (pos 0))

abbrev closed_vtz : Vtz → Vtz
closed_vtz z = record z { has_dst = z.dst.valid && has_month z.dst && has_month z.std }

-- END:VTIMEZONE
unfoldable pub end_vtz : Blocks → Blocks
end_vtz b =
    let z = closed_vtz b.cur_vtz in
    if not (is_empty b.cur_vtz.tzid)
      && b.cur_vtz.std.valid
      && ltb (length b.vtimezones) max_vtimezones
    then record b { in_vtz = false; cur_vtz = z; vtimezones = b.vtimezones ++ (z ∷ []) }
    else record b { in_vtz = false }

abbrev leave_event : Blocks → Blocks
leave_event b = record b { in_event = false }

-- END
unfoldable pub end_block : Setup → Text → Blocks → Blocks
end_block s value b =
    if b.in_event && ltb 0 b.skip_depth
    then record b { skip_depth = b.skip_depth - 1 }
    else if text_eq value (codes "VEVENT") && b.in_event
    then leave_event (end_event s b)
    else if b.in_vtz && (text_eq value (codes "STANDARD") || text_eq value (codes "DAYLIGHT"))
    then record b { vtz_section = no_section }
    else if text_eq value (codes "VTIMEZONE") && b.in_vtz
    then end_vtz b
    else b

unfoldable pub handle_prop : Setup → Text → Text → Text → Blocks → Blocks
handle_prop s name params value b =
    if text_eq name (codes "BEGIN")
    then begin_block value b
    else if text_eq name (codes "END")
    then end_block s value b
    else if b.in_event && b.skip_depth == 0
    then record b { raw = handle_event_prop s b.vtimezones name params value b.raw }
    else if b.in_vtz
    then record b { cur_vtz = handle_vtz_prop b.vtz_section name value b.cur_vtz }
    else b

-- The name before a ';', and the parameters with it.
abbrev split_head : Text → Option (Text × Text) → Text × Text
split_head head none = (head, [])
split_head head (some (name, params)) = (name, b';' ∷ params)

unfoldable pub handle_split : Setup → Option (Text × Text) → Blocks → Blocks
handle_split s none b = b
handle_split s (some (head, value)) b =
    let (name, params) = split_head head (cut b';' head) in
    handle_prop s (upper_case name) params value b

unfoldable pub process_logical_line : Setup → Text → Blocks → Blocks
process_logical_line s line b = handle_split s (cut_colon false line) b

abbrev is_folded : Text → Bool
is_folded [] = false
is_folded (c ∷ t) = c == b' ' || c == 9

abbrev rest_of : Text → Text
rest_of [] = []
rest_of (c ∷ t) = t

-- `processLogicalLine(logical_)` if a line is pending.
unfoldable pub process_pending : Setup → IcsParser → Blocks
process_pending s p =
    if p.lines.have_pending then process_logical_line s p.lines.logical p.blocks else p.blocks

-- A continuation is added to the pending line; any other line takes its place.
unfoldable pub handle_physical_line : Setup → IcsParser → IcsParser
handle_physical_line s p =
    let l = p.lines in
    if is_folded l.line_buf
    then (if l.have_pending && ltb (length l.logical) max_logical_line
        then record p { lines = record l { logical = l.logical ++ rest_of l.line_buf } }
        else p)
    else record p {
      blocks = process_pending s p;
      lines = record l { logical = l.line_buf; have_pending = true };
    }

abbrev pub clear_line : IcsParser → IcsParser
clear_line p = record p { lines = record (p.lines) { line_buf = [] } }

unfoldable pub add_byte : ℕ → IcsParser → IcsParser
add_byte c p =
    if ltb (length p.lines.line_buf) max_logical_line
    then record p { lines = record (p.lines) { line_buf = p.lines.line_buf ++ (c ∷ []) } }
    else p

-- One byte of `feed`.
unfoldable pub feed_byte : Setup → IcsParser → ℕ → IcsParser
feed_byte s p c =
    if c == 10 then clear_line (handle_physical_line s p) else if c == 13 then p else add_byte c p

unfoldable pub feed : Setup → IcsParser → List ℕ → IcsParser
feed s p [] = p
feed s p (c ∷ bytes) = feed s (feed_byte s p c) bytes

abbrev pub replaces : Event → Event → Bool
replaces ov e = not e.is_override && text_eq e.uid ov.uid && eq_ℤ e.start ov.recurrence_id

-- The base occurrence that an override replaces, erased: the first that matches.
unfoldable pub erase_base : Event → List Event → List Event
erase_base ov [] = []
erase_base ov (e ∷ es) = let rest = erase_base ov es in if replaces ov e then es else e ∷ rest

unfoldable pub apply_override : Setup → Event → Output → Output
apply_override s ov o =
    let o' = record o { events = erase_base ov o.events } in
    if is_cancelled ov.status
    then o'
    else if in_window s ov.start ov.end
    then push_event s ov o'
    else o'

unfoldable pub apply_overrides : Setup → List Event → Output → Output
apply_overrides s [] o = o
apply_overrides s (ov ∷ ovs) o = apply_overrides s ovs (apply_override s ov o)

-- The lines that are still held.
unfoldable pub flush : Setup → IcsParser → IcsParser
flush s p =
    let p' = handle_physical_line s p in
    record p' { blocks = process_pending s p'; lines = record (p'.lines) { have_pending = false } }

unfoldable pub finish : Setup → IcsParser → IcsParser
finish s p =
    let p' = flush s p in
    record p' {
      blocks = record (p'.blocks) {
        output = apply_overrides s p'.blocks.overrides p'.blocks.output;
        overrides = [];
      };
    }
