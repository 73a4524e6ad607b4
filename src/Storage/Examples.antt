-- ===== src/Storage/Examples.antt =====
-- The log at concrete entries, and its theorems there.
use mathlib.Core.Option.{some-injective}
use esp32_monitor.Base.{
  ◌↔◌, ◌⊎◌, sym, ◌≡◌, refl, ◌+◌, ◌*◌, ◌≤◌, arith, true, none, some, [], ◌∷◌, ◌++◌, text, List,
  Option,
}
use esp32_monitor.Storage.{LogEntry, StorageState, log_info, initial_storage}
use esp32_monitor.Storage.LogPolicy.{
  content_public, content_private, normalize_message, normalize_bytes, should_rotate, make_filename,
  bucket_key,
}
use esp32_monitor.Storage.Writer.{Card, new_writer}
use esp32_monitor.Storage.Normal.{IsNormal, normalize_message-IsNormal, should_rotate-sum}
use esp32_monitor.Storage.Accounting.{Counts, logged, written, happen_all, happen_all-Counts}

abbrev append : List LogEntry → LogEntry → Option (List LogEntry)
append queue entry = some (queue ++ entry ∷ [])

abbrev card : Card
card = record {
  localtime = λ epoch. some (record { year = 2026; month = 7; day = 4 });
  open_append = λ path. some 0;
  print_line = λ entry. some 40;
  flushes = true;
}

abbrev hello : LogEntry
hello = record {
  epoch = 1780000000;
  uptime_ms = 5;
  level = log_info;
  tag = 68 ∷ [];
  message = 104 ∷ [];
}

abbrev running : StorageState
running = record initial_storage { log_queue = some []; task_started = true }

cleaned : normalize_message content_public (some (65 ∷ 10 ∷ 66 ∷ [])) 8 ≡ 65 ∷ 32 ∷ 66 ∷ []
unfolding normalize_message normalize_bytes
cleaned = refl

named :
    make_filename card.localtime (text "/l") 1780000000 0x1A2B 7 160
    ≡ some (text "/l/desk-20260704-00001a2b-007.log")
unfolding make_filename bucket_key
named = refl

normalize_message-IsNormal_example :
    IsNormal 8 (normalize_message content_private (some (65 ∷ [])) 8)
    × (content_private ≡ content_private
        → normalize_message content_private (some (65 ∷ [])) 8
          ≡ normalize_message content_private none 8)
normalize_message-IsNormal_example =
    normalize_message-IsNormal content_private (some (65 ∷ [])) none 8 (omega arith)

should_rotate-sum_example :
    (should_rotate 2097000 200 (2 * 1024 * 1024) ≡ true)
    ↔ ((2 * 1024 * 1024 ≡ 0) ⊎ (2 * 1024 * 1024 ≤ 2097000 + 200))
should_rotate-sum_example = should_rotate-sum 2097000 200 (2 * 1024 * 1024)

happen_all-Counts_example :
    Counts 2 1
      (happen_all append 9
        (logged hello ∷ logged hello ∷ written card ∷ [])
        (new_writer, running)).1
unfolding esp32_monitor.Storage.storage_log bucket_key esp32_monitor.Storage.Writer.open_log_file
    make_filename
happen_all-Counts_example =
    happen_all-Counts append 9 (logged hello ∷ logged hello ∷ written card ∷ []) 0 0
      (new_writer, running) (λ queue entry queue' e. taken queue entry queue' e)
      (record { queue = []; there = refl; printed = refl; exact = refl })
  where
    taken :
        (queue : List LogEntry) (entry : LogEntry) (queue' : List LogEntry)
        → append queue entry ≡ some queue'
        → queue' ≡ queue ++ entry ∷ []
    taken queue entry queue' e = sym (some-injective (queue ++ entry ∷ []) queue' e)
