-- ===== src/Store/Outbox/Persist.antt =====
-- firmware/src/store/ApprovalOutbox.cpp: the outbox's file, as the text that `writeFileAtomic` writes
-- and that `readFile` reads; `none` is a file that does not exist.
use x4_printer.Prelude.{
  ◌+◌, ◌^◌, ◌≤◌, ◌<◌, ◌≡◌, ◌≢◌, refl, sym, ap, ◌∙◌, Bool, true, false, Option, none, some, List, [],
  ◌∷◌, ◌++◌, map, All, length, length-append, append_assoc, append-nil, take, take-all,
  if◌then◌else◌, arith,
}
use x4_printer.Prelude.Text.{Text, codes, text_eq}
use x4_printer.Table.{id_len}
use x4_printer.Store.Json.{Json, IsJson, Object, str, num, flag, rows, num_of}
use x4_printer.Store.Outbox.{
  ApprovalAction, print, keep, delete, ApprovalEntry, Outbox, max_outbox_entries, append,
  approval_action_name, or_same,
}

unfoldable pub entry_object : ApprovalEntry → Object
entry_object e =
    (codes "approval_id", str e.approval_id)
    ∷ (codes "job_id", str e.job_id)
    ∷ (codes "action", str (approval_action_name e.action))
    ∷ (codes "created_at", num e.created_at)
    ∷ (codes "synced", flag e.synced)
    ∷ []

-- Any other text than these two is Keep.
unfoldable pub action_of : Text → ApprovalAction
action_of s =
    if text_eq s (codes "print") then print else if text_eq s (codes "delete") then delete else keep

module _ {Doc Obj : Type 0} (json : Json Doc Obj) where
  -- The text of `saveApprovalOutbox`.
  unfoldable pub outbox_text : Outbox → Text
  outbox_text o = json.serialize (rows (codes "approvals") (map entry_object o))

  -- The entry that a round of the loop builds, with its `strncpy` calls.
  unfoldable pub entry_of : Obj → ApprovalEntry
  entry_of a = record {
    approval_id = take id_len (json.str_or a (codes "approval_id") []);
    job_id = take id_len (json.str_or a (codes "job_id") []);
    action = action_of (json.str_or a (codes "action") (codes "keep"));
    created_at = json.num_or a (codes "created_at") 0;
    synced = json.flag_or a (codes "synced") false;
  }

  -- An entry with no id is skipped; the answer of `append` is ignored.
  unfoldable pub add_entry : ApprovalEntry → Outbox → Outbox
  add_entry e o = if text_eq e.approval_id [] then o else or_same (append e o) o

  unfoldable pub add_entries : List Obj → Outbox → Outbox
  unfolding add_entry
  add_entries [] o = o
  add_entries (a ∷ as') o = add_entries as' (add_entry (entry_of a) o)

  -- The answer of `loadApprovalOutbox`, and the outbox after it, which is cleared first.
  unfoldable pub load_outbox : Option Text → Bool × Outbox
  unfolding add_entries
  load_outbox none = (false, [])
  load_outbox (some []) = (false, [])
  load_outbox (some (c ∷ raw)) = elim (json.deserialize (c ∷ raw)) [
    | none ↦ (false, [])
    | some doc ↦ (true, add_entries (json.objects (codes "approvals") doc) [])
  ]

  -- An entry that the file can hold: ids of at most 32 bytes, the approval's not empty, and a time
  -- before 2^31.
  pub record IsStorable (e : ApprovalEntry) : Type 0 where
    pub id_fits : length e.approval_id ≤ id_len
    pub id_some : text_eq e.approval_id [] ≡ false
    pub job_fits : length e.job_id ≤ id_len
    pub time_fits : e.created_at < 2 ^ 31

  add_new :
      (e : ApprovalEntry) (o : Outbox)
      → text_eq e.approval_id [] ≡ false
      → length o < max_outbox_entries
      → add_entry e o ≡ o ++ e ∷ []
  unfolding add_entry append
  add_new e o h room = ground arith

  action_back : (a : ApprovalAction) → action_of (approval_action_name a) ≡ a
  unfolding action_of approval_action_name
  action_back print = refl
  action_back keep = refl
  action_back delete = refl

  module _ (ok : IsJson json) where
    entry_back : (e : ApprovalEntry) → IsStorable e → entry_of (ok.obj_of (entry_object e)) ≡ e
    unfolding entry_of entry_object
    entry_back e fits =
        let o = entry_object e in
        let i =
          ap (take id_len) (ok.str_read o (codes "approval_id") [])
          ∙ take-all id_len e.approval_id fits.id_fits in
        let j =
          ap (take id_len) (ok.str_read o (codes "job_id") [])
          ∙ take-all id_len e.job_id fits.job_fits in
        let a =
          ap action_of (ok.str_read o (codes "action") (codes "keep")) ∙ action_back e.action in
        let small : num_of (some (num e.created_at)) 0 ≡ e.created_at =
          ground (arith, fits.time_fits) in
        let t = ok.num_read o (codes "created_at") 0 ∙ small in
        let s = ok.flag_read o (codes "synced") false in cc

    add_entries-back :
        (es o : Outbox)
        → All IsStorable es
        → length o + length es ≤ max_outbox_entries
        → add_entries (map ok.obj_of (map entry_object es)) o ≡ o ++ es
    unfolding add_entries add_entry append
    add_entries-back [] o fits room = sym (append-nil o)
    add_entries-back (e ∷ es) o fits room =
        let later = map ok.obj_of (map entry_object es) in
        ap (λ x. add_entries later (add_entry x o)) (entry_back e fits.0)
        ∙ ap (add_entries later) (add_new e o fits.0.id_some (omega arith))
        ∙ add_entries-back es (o ++ e ∷ []) fits.1 (omega (arith, length-append o (e ∷ [])))
        ∙ append_assoc o (e ∷ []) es

    load_text :
        (text : Text) (doc : Doc)
        → text ≢ []
        → json.deserialize text ≡ some doc
        → load_outbox (some text) ≡ (true, add_entries (json.objects (codes "approvals") doc) [])
    unfolding load_outbox
    load_text [] doc h e = absurd (h refl)
    load_text (c ∷ text) doc h e = rw (e, load_outbox) refl

    -- An outbox of at most `kMaxOutboxEntries` entries that the file can hold is loaded just as it
    -- was saved, in order.
    pub load_outbox-roundtrip :
        (o : Outbox)
        → All IsStorable o
        → length o ≤ max_outbox_entries
        → load_outbox (some (outbox_text o)) ≡ (true, o)
    unfolding outbox_text
    load_outbox-roundtrip o fits room =
        let d = rows (codes "approvals") (map entry_object o) in
        load_text (json.serialize d) (ok.doc_of d) (ok.serialize_some d) (ok.reads_back d)
        ∙ ap (λ x. (true, add_entries x []))
            (ok.objects_rows (codes "approvals") (map entry_object o))
        ∙ ap (λ x. (true, x)) (add_entries-back o [] fits (omega arith))
