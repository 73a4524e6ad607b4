-- ===== src/Storage/Lines.antt =====
-- The line of an entry in the file: format_entry_time, log_level_text and write_log_entry of
-- components/storage/storage.c.
use esp32_monitor.Base.{
  ℕ, ◌/◌, ◌%◌, ◌<◌, ◌≤◌, Option, none, some, List, ◌∷◌, ◌++◌, leb, if◌then◌else◌, if_cases, length,
  length-append, length-take, text, bounded, arith,
}
use esp32_monitor.Base.Options.{Every}
use esp32_monitor.Storage.{LogEntry, LogLevel, log_debug, log_info, log_warning, log_error}
use esp32_monitor.Storage.LogPolicy.{padded, valid_clock_minimum_epoch}
use esp32_monitor.Storage.Writer.{estimated_bytes}

unfoldable pub log_level_text : LogLevel → List ℕ
log_level_text log_debug = text "DEBUG"
log_level_text log_info = text "INFO"
log_level_text log_warning = text "WARN"
log_level_text log_error = text "ERROR"

abbrev pub time_capacity : ℕ
time_capacity = 32

abbrev pub uptime_text : ℕ → List ℕ
uptime_text uptime_ms =
    bounded time_capacity
      (43 ∷ (padded 10 0 (uptime_ms / 1000) ++ 46 ∷ padded 10 3 (uptime_ms % 1000)))

abbrev pub date_or : List ℕ → Option (List ℕ) → List ℕ
date_or uptime none = uptime
date_or uptime (some date) = date

module _ (date_of : ℕ → Option (List ℕ)) where
  -- With what localtime_r and strftime make of a time.
  unfoldable pub format_entry_time : LogEntry → List ℕ
  format_entry_time entry =
      let date = date_or (uptime_text entry.uptime_ms) (date_of entry.epoch) in
      if leb valid_clock_minimum_epoch entry.epoch then date else uptime_text entry.uptime_ms

  -- What fprintf writes.
  unfoldable pub line_text : LogEntry → List ℕ
  line_text entry =
      format_entry_time entry
      ++ (text " ["
          ++ (log_level_text entry.level
              ++ (text "] " ++ (entry.tag ++ (text ": " ++ (entry.message ++ text "\n"))))))

  log_level_text_le : (level : LogLevel) → length (log_level_text level) ≤ 5
  unfolding log_level_text
  log_level_text_le log_debug = omega arith
  log_level_text_le log_info = omega arith
  log_level_text_le log_warning = omega arith
  log_level_text_le log_error = omega arith

  date_or-lt :
      (uptime_ms : ℕ) (date : Option (List ℕ))
      → Every (λ (s : List ℕ). length s < time_capacity) date
      → length (date_or (uptime_text uptime_ms) date) < time_capacity
  date_or-lt uptime_ms none h = omega (
    arith,
    length-take 31 (43 ∷ (padded 10 0 (uptime_ms / 1000) ++ 46 ∷ padded 10 3 (uptime_ms % 1000))),
  )
  date_or-lt uptime_ms (some date) h = h

  module _
      (date_fits : (time : ℕ)
        → Every (λ (s : List ℕ). length s < time_capacity) (date_of time)) where
    format_entry_time-lt : (entry : LogEntry) → length (format_entry_time entry) < time_capacity
    unfolding format_entry_time
    format_entry_time-lt entry =
        let P : List ℕ → Type 0 = λ s. length s < time_capacity in
        if_cases P (leb valid_clock_minimum_epoch entry.epoch)
          (λ _. date_or-lt entry.uptime_ms (date_of entry.epoch) (date_fits entry.epoch))
          (λ _. date_or-lt entry.uptime_ms none tt)

    -- With a date that fits its buffer, a line is no longer than the bytes that are counted for it
    -- before it is written, so a file that is not rotated stays within the limit.
    pub line_text-le : (entry : LogEntry) → length (line_text entry) ≤ estimated_bytes entry
    unfolding line_text
    line_text-le entry =
        let end : List ℕ = entry.message ++ text "\n" in
        let from_tag : List ℕ = entry.tag ++ (text ": " ++ end) in
        let from_level : List ℕ = log_level_text entry.level ++ (text "] " ++ from_tag) in
        omega (
          arith,
          format_entry_time-lt entry,
          log_level_text_le entry.level,
          length-append entry.message (text "\n"),
          length-append entry.tag (text ": " ++ end),
          length-append (log_level_text entry.level) (text "] " ++ from_tag),
          length-append (format_entry_time entry) (text " [" ++ from_level),
        )
