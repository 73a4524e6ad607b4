-- ===== src/Storage/Accounting.antt =====
-- What the counts of the log come to.
use esp32_monitor.Base.{
  ℕ, suc, ◌+◌, ◌%◌, ◌^◌, ◌≡◌, refl, ap, arith, Bool, true, false, if◌then◌else◌, not, ◌&&◌, Option,
  none, some, List, [], ◌∷◌, ◌++◌, if_either, length, length-append,
}
use esp32_monitor.Esp.{EspErr, is_esp_ok}
use esp32_monitor.Storage.{
  LogEntry, StorageState, storage_log, note_written_entry, note_dropped_entry, set_storage_state,
}
use esp32_monitor.Storage.LogPolicy.{bucket_key}
use esp32_monitor.Storage.Writer.{
  Card, Writer, new_writer, write_entry, handle_entry, write_round, mount_card, give_up,
  open_log_file, rotate, enter_bucket, written_line, write_to_bucket,
}

-- There is a queue, written_entries is the number of the lines that the card has printed, and the
-- other entries of the n that were logged are counted as dropped or wait, all in 32 bits.
pub record Counts (n lines : ℕ) (state : StorageState) : Type 0 where
  pub queue : List LogEntry
  pub there : state.log_queue ≡ some queue
  pub printed : state.written_entries % 2 ^ 32 ≡ lines % 2 ^ 32
  pub exact : (lines + state.dropped_entries + length queue) % 2 ^ 32 ≡ n % 2 ^ 32

-- What happens to the log: an entry is logged, a round of the task, a card that is mounted, or the
-- end of the task's loop.
pub data Happening : Type 0 where
  logged : (entry : LogEntry) → Happening
  written : (card : Card) → Happening
  mounted_card : (result : EspErr) (directories : Bool) → Happening
  gave_up : Happening

-- xQueueSend: it puts the entry at the end or refuses it.
abbrev pub IsQueue : (List LogEntry → LogEntry → Option (List LogEntry)) → Type 0
IsQueue send =
    (queue : List LogEntry) (entry : LogEntry) (queue' : List LogEntry)
    → send queue entry ≡ some queue'
    → queue' ≡ queue ++ entry ∷ []

module _ (send : List LogEntry → LogEntry → Option (List LogEntry)) (boot_id : ℕ) where
  abbrev pub happen : Happening → Writer × StorageState → Writer × StorageState
  happen (logged entry) (writer, state) = (writer, (storage_log send entry state).0)
  happen (written card) (writer, state) = write_round card boot_id writer state
  happen (mounted_card result directories) (writer, state) =
      (new_writer, (mount_card result directories state).0)
  happen gave_up (writer, state) = (writer, give_up state)

  abbrev pub happen_all : List Happening → Writer × StorageState → Writer × StorageState
  happen_all [] log = log
  happen_all (h ∷ hs) log = happen_all hs (happen h log)

  -- How many entries were logged.
  abbrev pub logs : List Happening → ℕ
  logs [] = 0
  logs (logged entry ∷ hs) = suc (logs hs)
  logs (written card ∷ hs) = logs hs
  logs (mounted_card result directories ∷ hs) = logs hs
  logs (gave_up ∷ hs) = logs hs

  -- Whether fprintf prints the line.
  abbrev is_printed : Option ℕ → Bool
  is_printed none = false
  is_printed (some bytes) = true

  -- Whether the card prints the line of an entry: there is a bucket, its file opens, and fprintf
  -- does not fail.
  abbrev prints : Card → LogEntry → Option (List ℕ) → Writer → Bool
  prints card entry none writer = false
  prints card entry (some bucket) writer =
      (open_log_file card boot_id entry (rotate entry (enter_bucket bucket writer))).file_open
      && is_printed (card.print_line entry)

  abbrev as_number : Bool → ℕ
  as_number true = 1
  as_number false = 0

  -- The lines that a round prints, by what waits before it, and those of all the happenings.
  abbrev lines_of : Card → Writer → Option (List LogEntry) → ℕ
  lines_of card writer none = 0
  lines_of card writer (some []) = 0
  lines_of card writer (some (entry ∷ queue)) =
      as_number (prints card entry (bucket_key card.localtime entry.epoch) writer)

  abbrev pub all_lines : List Happening → Writer × StorageState → ℕ
  all_lines [] log = 0
  all_lines (written card ∷ hs) log =
      lines_of card log.0 log.1.log_queue + all_lines hs (happen (written card) log)
  all_lines (logged entry ∷ hs) log = all_lines hs (happen (logged entry) log)
  all_lines (mounted_card result directories ∷ hs) log =
      all_lines hs (happen (mounted_card result directories) log)
  all_lines (gave_up ∷ hs) log = all_lines hs (happen gave_up log)

  -- One entry more is counted, as written where it was printed and else as dropped, and the queue is
  -- the same.
  Finishes : Bool → StorageState → StorageState → Type 0
  Finishes printed before after =
      (after.log_queue ≡ before.log_queue)
      × (after.written_entries % 2 ^ 32 ≡ (before.written_entries + as_number printed) % 2 ^ 32)
      × ((after.dropped_entries + as_number printed) % 2 ^ 32
          ≡ (before.dropped_entries + 1) % 2 ^ 32)

  dropped-Finishes : (state : StorageState) → Finishes false state (note_dropped_entry state)
  unfolding note_dropped_entry Finishes
  dropped-Finishes state = (refl, omega arith, omega arith)

  written-Finishes : (state : StorageState) → Finishes true state (note_written_entry state)
  unfolding note_written_entry Finishes
  written-Finishes state = (refl, omega arith, omega arith)

  written_line-Finishes :
      (card : Card) (answer : Option ℕ) (writer : Writer) (state : StorageState)
      → Finishes (is_printed answer) state (written_line card boot_id answer writer state).1
  written_line-Finishes card none writer state = dropped-Finishes state
  written_line-Finishes card (some bytes) writer state = written-Finishes state

  opened-Finishes :
      (card : Card) (is_open : Bool) (answer : Option ℕ) (writer : Writer) (state : StorageState)
      → Finishes
          (is_open && is_printed answer)
          state
          (if is_open
            then written_line card boot_id answer writer state
            else (writer, note_dropped_entry state)).1
  opened-Finishes card true answer writer state = written_line-Finishes card answer writer state
  opened-Finishes card false answer writer state = dropped-Finishes state

  write_to_bucket-Finishes :
      (card : Card) (entry : LogEntry) (bucket : Option (List ℕ)) (writer : Writer)
      (state : StorageState)
      → Finishes
          (prints card entry bucket writer)
          state
          (write_to_bucket card boot_id entry bucket writer state).1
  unfolding write_entry
  write_to_bucket-Finishes card entry none writer state = dropped-Finishes state
  write_to_bucket-Finishes card entry (some bucket) writer state =
      let w = open_log_file card boot_id entry (rotate entry (enter_bucket bucket writer)) in
      opened-Finishes card w.file_open (card.print_line entry) w state

  written-Counts :
      (card : Card) (n lines : ℕ) (queue : List LogEntry) (writer : Writer) (state : StorageState)
      → state.log_queue ≡ some queue
      → state.written_entries % 2 ^ 32 ≡ lines % 2 ^ 32
      → (lines + state.dropped_entries + length queue) % 2 ^ 32 ≡ n % 2 ^ 32
      → Counts n
          (lines + lines_of card writer state.log_queue)
          (write_round card boot_id writer state).1
  unfolding write_round handle_entry Finishes
  written-Counts card n lines [] writer state t p e =
      rw t
        (record { queue = []; there = refl; printed = omega (arith, p); exact = omega (arith, e) })
  written-Counts card n lines (entry ∷ queue) writer state t p e =
      let popped = record state { log_queue = some queue } in
      let f =
        write_to_bucket-Finishes card entry (bucket_key card.localtime entry.epoch) writer popped in
      rw t (record {
        queue = queue;
        there = f.0;
        printed = omega (arith, f.1, p);
        exact = omega (arith, f.2, e);
      })

  logged-Counts :
      (entry : LogEntry) (n lines : ℕ) (queue : List LogEntry) (answer : Option (List LogEntry))
      (state : StorageState)
      → IsQueue send
      → send queue entry ≡ answer
      → state.log_queue ≡ some queue
      → state.written_entries % 2 ^ 32 ≡ lines % 2 ^ 32
      → (lines + state.dropped_entries + length queue) % 2 ^ 32 ≡ n % 2 ^ 32
      → Counts (n + 1) lines (storage_log send entry state).0
  unfolding storage_log note_dropped_entry
  logged-Counts entry n lines queue none state q a t p e =
      rw (t, storage_log, a)
        (record { queue = queue; there = t; printed = p; exact = omega (arith, e) })
  logged-Counts entry n lines queue (some queue') state q a t p e =
      let size = ap (λ (xs : List LogEntry). length xs) (q queue entry queue' a) in
      rw (t, storage_log, a)
        (record {
          queue = queue';
          there = refl;
          printed = p;
          exact = omega (arith, e, size, length-append queue (entry ∷ []));
        })

  same-Counts :
      (n m lines lines' : ℕ) (state : StorageState)
      → n ≡ m
      → lines ≡ lines'
      → Counts n lines state
      → Counts m lines' state
  same-Counts n m lines lines' state e l c = record {
    queue = c.queue;
    there = c.there;
    printed = omega (arith, l, c.printed);
    exact = omega (arith, e, l, c.exact);
  }

  mounted-Counts :
      (result : EspErr) (directories : Bool) (n lines : ℕ) (state : StorageState)
      → Counts n lines state
      → Counts n lines (mount_card result directories state).0
  unfolding mount_card set_storage_state
  mounted-Counts result directories n lines state c =
      let P : StorageState × EspErr → Type 0 = λ out. Counts n lines out.0 in
      if_either P (not (is_esp_ok result))
        (record { queue = c.queue; there = c.there; printed = c.printed; exact = c.exact })
        (if_either P (not directories)
          (record { queue = c.queue; there = c.there; printed = c.printed; exact = c.exact })
          (record { queue = c.queue; there = c.there; printed = c.printed; exact = c.exact }))

  gave_up-Counts :
      (n lines : ℕ) (state : StorageState) → Counts n lines state → Counts n lines (give_up state)
  unfolding give_up set_storage_state
  gave_up-Counts n lines state c = record {
    queue = c.queue;
    there = c.there;
    printed = c.printed;
    exact = c.exact;
  }

  -- With a queue that takes an entry at its end or refuses it, and whatever the card does,
  -- written_entries counts the lines that the card has printed, and these, dropped_entries and the
  -- entries that wait come to the number of entries logged, in 32 bits.
  pub happen_all-Counts :
      (hs : List Happening) (n lines : ℕ) (log : Writer × StorageState)
      → IsQueue send
      → Counts n lines log.1
      → Counts (n + logs hs) (lines + all_lines hs log) (happen_all hs log).1
  happen_all-Counts [] n lines log q c =
      same-Counts n (n + 0) lines (lines + 0) log.1 (omega arith) (omega arith) c
  happen_all-Counts (logged entry ∷ hs) n lines (writer, state) q c =
      let next : Writer × StorageState = (writer, (storage_log send entry state).0) in
      same-Counts (n + 1 + logs hs) (n + suc (logs hs)) (lines + all_lines hs next)
        (lines + all_lines hs next) _ (omega arith) refl
        (happen_all-Counts hs (n + 1) lines next q (
          logged-Counts entry n lines c.queue (send c.queue entry) state q refl c.there c.printed
            c.exact))
  happen_all-Counts (written card ∷ hs) n lines (writer, state) q c =
      let next = write_round card boot_id writer state in
      let new = lines_of card writer state.log_queue in
      same-Counts (n + logs hs) (n + logs hs) (lines + new + all_lines hs next)
        (lines + (new + all_lines hs next)) _ refl (omega arith)
        (happen_all-Counts hs n (lines + new) next q
          (written-Counts card n lines c.queue writer state c.there c.printed c.exact))
  happen_all-Counts (mounted_card result directories ∷ hs) n lines (writer, state) q c =
      happen_all-Counts hs n lines (new_writer, (mount_card result directories state).0) q
        (mounted-Counts result directories n lines state c)
  happen_all-Counts (gave_up ∷ hs) n lines (writer, state) q c =
      happen_all-Counts hs n lines (writer, give_up state) q (gave_up-Counts n lines state c)
