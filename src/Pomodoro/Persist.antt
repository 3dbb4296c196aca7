-- ===== src/Pomodoro/Persist.antt =====
-- firmware/src/pomodoro/PomodoroSession.cpp: the session's file, as the text that `writeFileAtomic`
-- writes and that `readFile` reads; `none` is a file that does not exist.
use x4_printer.Prelude.{
  ℕ, ◌==◌, ◌≢◌, ap, ◌∙◌, ◌%◌, ◌^◌, ◌≤◌, ◌<◌, ◌≡◌, refl, Bool, true, false, Option, none, some, [],
  ◌∷◌, if◌then◌else◌, arith,
}
use x4_printer.Prelude.Text.{Text, codes}
use x4_printer.Store.Json.{Json, IsJson, Object, num, flat, num_of, value_at}
use x4_printer.Pomodoro.{Phase, idle, work, break, long_break, State}

abbrev pub phase_code : Phase → ℕ
phase_code idle = 0
phase_code work = 1
phase_code break = 2
phase_code long_break = 3

-- A value that no enumerator has is Idle.
abbrev pub phase_of : ℕ → Phase
phase_of n = if n == 1 then work else if n == 2 then break else if n == 3 then long_break else idle

unfoldable pub session_object : State → Object
session_object s =
    (codes "phase", num (phase_code s.phase))
    ∷ (codes "phase_start", num (s.phase_start % 2 ^ 32))
    ∷ (codes "phase_end", num (s.phase_end % 2 ^ 32))
    ∷ (codes "completed_work_sessions", num s.completed_work_sessions)
    ∷ (codes "work_minutes", num s.config.work_minutes)
    ∷ (codes "break_minutes", num s.config.break_minutes)
    ∷ (codes "long_break_minutes", num s.config.long_break_minutes)
    ∷ (codes "sessions_before_long_break", num s.config.sessions_before_long_break)
    ∷ (codes "checkpoint_minutes", num s.config.checkpoint_minutes)
    ∷ []

phase_back : (p : Phase) → phase_of (num_of (some (num (phase_code p))) 0 % 2 ^ 8) ≡ p
phase_back idle = refl
phase_back work = refl
phase_back break = refl
phase_back long_break = refl

-- A time, and a count, on the way out and back.
time_back : (n : ℕ) → n < 2 ^ 31 → num_of (some (num (n % 2 ^ 32))) 0 ≡ n
time_back n h = ground arith

count_back : (n d : ℕ) → n < 2 ^ 16 → num_of (some (num n)) d % 2 ^ 16 ≡ n
count_back n d h = ground arith

time_dropped : (n : ℕ) → 2 ^ 31 ≤ n → n < 2 ^ 32 → num_of (some (num (n % 2 ^ 32))) 0 ≡ 0
time_dropped n h k = ground arith

module _ {Doc Obj : Type 0} (json : Json Doc Obj) where
  -- The text of `savePomodoroSession`.
  unfoldable pub session_text : State → Text
  session_text s = json.serialize (flat (session_object s))

  -- The members of `s` in `loadPomodoroSession`, narrowed to their types.
  unfoldable pub session_of : Obj → State
  session_of o = record {
    phase = phase_of (json.num_or o (codes "phase") 0 % 2 ^ 8);
    phase_start = json.num_or o (codes "phase_start") 0;
    phase_end = json.num_or o (codes "phase_end") 0;
    completed_work_sessions = json.num_or o (codes "completed_work_sessions") 0 % 2 ^ 16;
    config = record {
      work_minutes = json.num_or o (codes "work_minutes") 25 % 2 ^ 16;
      break_minutes = json.num_or o (codes "break_minutes") 5 % 2 ^ 16;
      long_break_minutes = json.num_or o (codes "long_break_minutes") 15 % 2 ^ 16;
      sessions_before_long_break = json.num_or o (codes "sessions_before_long_break") 4 % 2 ^ 16;
      checkpoint_minutes = json.num_or o (codes "checkpoint_minutes") 5 % 2 ^ 16;
    };
  }

  -- The answer of `loadPomodoroSession`, and the session after it.
  unfoldable pub load_session : Option Text → State → Bool × State
  load_session none s = (false, s)
  load_session (some []) s = (false, s)
  load_session (some (c ∷ raw)) s = elim (json.deserialize (c ∷ raw)) [
    | none ↦ (false, s)
    | some doc ↦ (true, session_of (json.root doc))
  ]

  module _ (ok : IsJson json) where
    load_text :
        (text : Text) (doc : Doc) (s : State)
        → text ≢ []
        → json.deserialize text ≡ some doc
        → load_session (some text) s ≡ (true, session_of (json.root doc))
    unfolding load_session
    load_text [] doc s h e = absurd (h refl)
    load_text (c ∷ text) doc s h e = rw (e, load_session) refl

    -- What `loadPomodoroSession` makes of a file that `savePomodoroSession` wrote.
    pub load_session-text :
        (s s0 : State)
        → load_session (some (session_text s)) s0
          ≡ (true, session_of (ok.obj_of (session_object s)))
    unfolding session_text
    load_session-text s s0 =
        rw
          (
            load_text (json.serialize (flat (session_object s)))
                (ok.doc_of (flat (session_object s))) s0
                (ok.serialize_some (flat (session_object s)))
                (ok.reads_back (flat (session_object s))),
            ok.root_flat (session_object s),
          )
          refl

    -- A session with times below 2^31 and counts below 2^16 is loaded just as it was saved.
    pub load_session-roundtrip :
        (s s0 : State)
        → s.phase_start < 2 ^ 31
        → s.phase_end < 2 ^ 31
        → s.completed_work_sessions < 2 ^ 16
        → s.config.work_minutes < 2 ^ 16
        → s.config.break_minutes < 2 ^ 16
        → s.config.long_break_minutes < 2 ^ 16
        → s.config.sessions_before_long_break < 2 ^ 16
        → s.config.checkpoint_minutes < 2 ^ 16
        → load_session (some (session_text s)) s0 ≡ (true, s)
    unfolding session_of session_object
    load_session-roundtrip s s0 hs he hc h1 h2 h3 h4 h5 =
        let o = session_object s in
        let count : (k : Text) (n d : ℕ)
            → value_at o k ≡ some (num n)
            → n < 2 ^ 16
            → json.num_or (ok.obj_of o) k d % 2 ^ 16 ≡ n =
          λ k n d at h.
            ap (λ m. m % 2 ^ 16) (ok.num_read o k d ∙ ap (λ v. num_of v d) at) ∙ count_back n d h in
        let p =
          ap (λ m. phase_of (m % 2 ^ 8)) (ok.num_read o (codes "phase") 0) ∙ phase_back s.phase in
        let t0 = ok.num_read o (codes "phase_start") 0 ∙ time_back s.phase_start hs in
        let t1 = ok.num_read o (codes "phase_end") 0 ∙ time_back s.phase_end he in
        let c0 = count (codes "completed_work_sessions") s.completed_work_sessions 0 refl hc in
        let c1 = count (codes "work_minutes") s.config.work_minutes 25 refl h1 in
        let c2 = count (codes "break_minutes") s.config.break_minutes 5 refl h2 in
        let c3 = count (codes "long_break_minutes") s.config.long_break_minutes 15 refl h3 in
        let c4 =
          count (codes "sessions_before_long_break") s.config.sessions_before_long_break 4 refl
            h4 in
        let c5 = count (codes "checkpoint_minutes") s.config.checkpoint_minutes 5 refl h5 in
        rw (load_session-text s s0) (ap (λ x. (true, x)) cc)

    -- A phase that ends at or after 2^31 seconds (in January 2038), and before 2^32, is loaded with
    -- its end at 0.
    pub phase_end_lost :
        (s s0 : State)
        → 2 ^ 31 ≤ s.phase_end
        → s.phase_end < 2 ^ 32
        → (load_session (some (session_text s)) s0).1.phase_end ≡ 0
    unfolding session_of session_object
    phase_end_lost s s0 late fits =
        rw (load_session-text s s0) (
          ok.num_read (session_object s) (codes "phase_end") 0 ∙ time_dropped s.phase_end late fits)
