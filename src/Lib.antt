-- ===== src/Lib.antt =====
-- The firmware of a pocket print inbox for the Xteink X4 e-reader, and its XTC page format.
--
-- The device downloads print jobs from a Pi, the user approves each of them (print, keep or delete),
-- and the approvals go back at the next sync; in between it shows a timeline and runs pomodoro
-- sessions, and it sleeps as long as nothing is due.
--
-- The parts, and the files that model them:
--   * Prelude: Boolean tests, lists, C strings (a `char[n + 1]` that is kept NUL-terminated is the
--     list of its bytes) and integers. Nothing of the program.
--   * Table: the fixed-capacity index that firmware/src/store/JobStore.h and PlannerStore.h each
--     write out (`find`, `upsert`, `remove`, a write through `find`). The list is the live prefix of
--     the array, so `count_` is its length; capacities are 64 jobs, 64 tasks and 32 approvals.
--   * Store.Jobs, Store.Planner: `JobIndex` and `TaskIndex`, on Table.
--   * Store.Outbox: firmware/src/store/ApprovalOutbox.h, `ApprovalOutboxIndex` and
--     `enqueueApproval`. `compactSynced` is modelled on the array, by index.
--   * Store.Card: firmware/src/store/AtomicJsonFile.cpp, `writeFileAtomic`. The SD card driver is a
--     parameter with its documented behaviour as hypotheses (IsSdCard); the card after each call is
--     kept, since power may be lost there.
--   * Store.Json: ArduinoJson, a parameter; a document that was serialized reads back, and `|` with an
--     `int` default gives the default for a number that no `int` holds. On it stand
--     Store.Jobs.Persist, Store.Outbox.Persist, Store.Planner.Persist and Pomodoro.Persist: the load
--     and save functions of firmware/src/store/JobStore.cpp, ApprovalOutbox.cpp, PlannerStore.cpp and
--     firmware/src/pomodoro/PomodoroSession.cpp, as the text of the file.
--   * Pomodoro: firmware/src/pomodoro/PomodoroSession.h, `start`, `stop`, `advance`,
--     `remainingSeconds` and `secondsUntilNextCheckpoint`. `advance` has the source's own bound of
--     1000 rounds; each round moves the end of the phase by a minute at least, which is why 1000
--     minutes are always caught up with.
--   * Calendar.Wake: firmware/src/calendar/WakeSchedule.cpp, `computeWakeDecision`.
--   * Calendar.TimeUtil: firmware/src/calendar/TimeUtil.h and the date arithmetic of
--     firmware/src/calendar/IcsParser.cpp. Calendar.Ics: the rest of that file, the parser of a feed:
--     Strings (texts), Rules (RRULE, offsets and durations), State (IcsParser.h and Event.h), Zones
--     (`tzOffsetFor`, `civilToEpoch`, `parseDateTime`, `handleVtzProp`), Emit (`emitOccurrence`), Expand
--     (`expandRecurrence`), Events (`handleEventProp`, `endEvent`) and Lines (`feed`,
--     `handlePhysicalLine`, `processLogicalLine`, `finish`). The loops over days, months and years
--     have the source's own bounds as fuel, the loop of a duration the length of its text, of which
--     each round takes a byte. `mktime` is a parameter, and so is what memory holds outside the table
--     of the months' lengths, which a malformed month can reach.
--   * Calendar.Feeds: `syncCalendars` of firmware/src/calendar/CalendarSync.cpp and `fetchIcs` of
--     firmware/src/net/IcsFetch.cpp. What the HTTP client answers for a feed is a parameter.
--   * Device.Sleep: `nextWakeIntervalSeconds` of firmware/src/main.cpp and `sleepUntilNextEvent` of
--     firmware/src/power/SleepManager.cpp.
--   * Sync: firmware/src/sync/SyncManager.cpp. Sync.Requests is the interface of
--     firmware/src/net/SyncClient.h and of what else a sync calls, over any type of worlds, so that
--     every answer of the network is covered; Download, Upload and Drain are the three passes, and
--     Sync itself is `runFullSync`. Every request is logged with its answer, last one first. The
--     loops run as many rounds as the index or outbox has entries, whose number they do not change.
--     Sync.Config is `syncDeviceConfig`, on the stores of Config and the card.
--   * Net: firmware/src/net/SyncClient.cpp. Net.Http has the certificates and what every request has
--     in common, Net.Client the requests, which fill the interface of Sync.Requests (`client_of`), and
--     Net.Client.Download the download that is checked by length and hash. Net.Client.Pinned lists the
--     requests to the Pi. HTTPClient, TLS, SHA-256
--     and the open file are parameters. The loop over the body goes along the list of its reads,
--     which ends where the connection does.
--   * Config: firmware/src/config. Settings, Cache, Calendars, Device and Wifi (on Table) are the five
--     stores, each with the text of its file; Wifi.Password is the obfuscation of a password, with
--     base64 and the address of the device as parameters.
--   * Ui.Timeline: firmware/src/ui/TimelineMerge.h; Ui.CategoryStyle: firmware/src/ui/CategoryStyle.cpp.
--   * Ui.Web: firmware/src/ui/WebUiServer.cpp. Objects has the lists as JSON, Pages the
--     handlers, UploadXtc and UploadOriginal the two uploads, whose events and chunks are a list. What
--     a handler reads of a request, of the clock and of the random generator is a record.
--   * Xtc.Format: firmware/src/xtc/XtcFormat.h; Xtc.Decoder: tools/xtc-wasm/xtc_decoder.cpp. A read
--     outside the buffer is a `fault`, sums of `uint64_t` wrap.
--   * Xtc.Encoder: tools/xtc-wasm/xtc_encoder.cpp, on rows of pixels; `float` is a parameter (Floats).
--   * Xtc.Reader: firmware/src/xtc/XtcReader.cpp. The open file is a parameter; a write outside the
--     framebuffer is a `fault`. The chunk loop has the number of bytes left as fuel, of which each
--     round takes one at least; out of fuel it is a `fault` too, as is a read of more
--     bytes than its buffer has room for.
--   * Examples: runs at concrete inputs.
--
-- The parts meet as in the source: `enqueueApproval` and the sync work on the same JobIndex and
-- outbox; `nextWakeIntervalSeconds` asks the wake schedule and the session; the timeline reads the
-- tasks and the next event, which the calendar sync caches.
--
-- Numbers are unbounded where the source cannot overflow, and carry `% 2 ^ w` where it can. Times of
-- a session are natural numbers, since the clock starts at 0; times of the calendar are integers.
--
-- The parser's `int` and `long` are integers; where seconds since 1970 are summed in a `long` of 32
-- bits, they wrap. Other overflow of signed numbers, undefined in C, is not modelled, nor is a NUL
-- byte inside a feed.
--
-- Not modelled: Wi-Fi and the radio (with it the two ways to start the web interface), the e-ink
-- screens, the boot sequence of firmware/src/main.cpp, and the servers in Python.
pub mod Prelude
pub mod Table
pub mod Store
pub mod Pomodoro
pub mod Calendar
pub mod Net
pub mod Sync
pub mod Device
pub mod Ui
pub mod Xtc
pub mod Config
pub mod Examples
