-- ===== src/Logger/Laws.antt =====
-- The lines of the log: src/logger.c and src/utils.c.
use game_bloat.Prelude.{
  ◌/◌, ◌%◌, ◌==◌, zero, suc, ℕ, ◌+◌, ◌≤◌, ◌<◌, ◌≡◌, inl, inr, refl, ap, ◌∙◌, arith, none, some, [],
  ◌∷◌, ◌++◌, false, ltb, leb, if◌then◌else◌, lt→ltb, Bool-cases,
}
use game_bloat.Logger.{
  Logger, LogFile, absent, opened, closed, log, log_line, cleanup_log_files, close_file, fault,
  log_level_to_str, write_line, log_formatted, format_message, format_log_message, set_log_level,
  silent, printed, string_at,
}
use game_bloat.Logger.Printf.{Text, length, take, snprintf, length-++, snprintf_lem}
use game_bloat.Logger.Timestamp.{
  Clock, strftime, get_milliseconds, thousandths, behind_first, get_current_timestamp,
  format_arg_string, store_formatted,
}

-- The local time, a point, and three digits.
abbrev pub timestamp : Clock → Text
timestamp clock = clock.local_time ++ behind_first (thousandths (get_milliseconds clock))

length-timestamp : (clock : Clock) → length (timestamp clock) ≡ length clock.local_time + 4
unfolding behind_first thousandths length
length-timestamp clock =
    let digits = length-++ clock.local_time (behind_first (thousandths (get_milliseconds clock))) in
    omega arith

strftime_lem : (text : Text) → length text < 20 → strftime 20 text ≡ (length text, text)
unfolding strftime
strftime_lem text fits = rw (lt→ltb (length text) 20 fits)

thousandths-printed : (n : ℕ) → snprintf 6 (thousandths n) ≡ (5, thousandths n)
unfolding snprintf thousandths length take
thousandths-printed n = refl

-- The checks of both sizes succeed, and nothing is cut off.
get_current_timestamp_lem :
    (clock : Clock)
    → 0 < length clock.local_time
    → length clock.local_time < 20
    → get_current_timestamp clock ≡ some (length clock.local_time + 4, timestamp clock)
unfolding get_current_timestamp
get_current_timestamp_lem clock some_time fits =
    let total = length-timestamp clock in
    let stored = snprintf_lem (length clock.local_time + 5) (timestamp clock) (omega arith) in
    rw (strftime_lem clock.local_time fits, thousandths-printed (get_milliseconds clock), stored)
      (rw (length-timestamp clock) (ground arith))

length-log_line :
    (stamp level message : Text)
    → length (log_line stamp level message) ≡ length stamp + length message + length level + 6
unfolding log_line length
length-log_line stamp level message =
    let end = length-++ message (10 ∷ []) in
    let text = length-++ level (58 ∷ 32 ∷ message ++ (10 ∷ [])) in
    let whole = length-++ stamp (93 ∷ 32 ∷ level ++ (58 ∷ 32 ∷ message ++ (10 ∷ []))) in omega arith

format_arg_string_lem :
    (c : ℕ) (text : Text) → format_arg_string (some (c ∷ text)) ≡ some (c ∷ text)
unfolding format_arg_string store_formatted
format_arg_string_lem c text =
    ap (λ printed. some printed.1) (snprintf_lem (length (c ∷ text) + 1) (c ∷ text) (omega arith))

not-above : (current level : ℕ) → level ≤ current → ltb current level ≡ false
not-above current level enabled = ground arith

-- What a call of `Log` with a message does at any level.
log_lem :
    (clock : Clock) (l : Logger) (level c : ℕ) (text : Text)
    → 0 < length clock.local_time
    → length clock.local_time < 20
    → log clock l level (some (c ∷ text)) ≡ (
        if ltb l.current_log_level level
        then silent
        else write_line l.log_file (log_line (timestamp clock) (log_level_to_str level) (c ∷ text)))
unfolding log format_log_message format_message log_formatted
log_lem clock l level c text some_time fits =
    let size = length-log_line (timestamp clock) (log_level_to_str level) (c ∷ text) in
    let stamp = length-timestamp clock in
    let line =
      snprintf_lem
        (length clock.local_time + 4 + length (c ∷ text) + length (log_level_to_str level) + 6 + 1)
        (log_line (timestamp clock) (log_level_to_str level) (c ∷ text)) (omega arith) in
    elim (Bool-cases (ltb l.current_log_level level)) [
      | inl above ↦ rw above
      | inr enabled ↦
          rw
            (
              enabled,
              get_current_timestamp_lem clock some_time fits,
              format_arg_string_lem c text,
              line,
            )
            (ground (arith, size, stamp))
    ]

-- "TEST_FAIL", "TEST_PASS", "TEST_INFO", "ERROR", "WARN", "DEBUG", and nothing for any other level.
abbrev pub level_name : ℕ → Text
level_name level =
    if level == 0
    then 84 ∷ 69 ∷ 83 ∷ 84 ∷ 95 ∷ 70 ∷ 65 ∷ 73 ∷ 76 ∷ []
    else if level == 1
    then 84 ∷ 69 ∷ 83 ∷ 84 ∷ 95 ∷ 80 ∷ 65 ∷ 83 ∷ 83 ∷ []
    else if level == 2
    then 84 ∷ 69 ∷ 83 ∷ 84 ∷ 95 ∷ 73 ∷ 78 ∷ 70 ∷ 79 ∷ []
    else if level == 3
    then 69 ∷ 82 ∷ 82 ∷ 79 ∷ 82 ∷ []
    else if level == 4
    then 87 ∷ 65 ∷ 82 ∷ 78 ∷ []
    else if level == 5
    then 68 ∷ 69 ∷ 66 ∷ 85 ∷ 71 ∷ []
    else []

-- A point and the three digits of a number below 1000, the hundreds first.
abbrev pub decimals : ℕ → Text
decimals n = 46 ∷ (48 + n / 100) ∷ (48 + n % 100 / 10) ∷ (48 + n % 10) ∷ []

-- `[2024-01-02 03:04:05.678] WARN: No ROM` and a newline.
abbrev pub whole_line : (local_time : Text) (milliseconds level : ℕ) (message : Text) → Text
whole_line local_time milliseconds level message =
    91 ∷ (local_time ++ decimals milliseconds)
    ++ (93 ∷ 32 ∷ level_name level ++ (58 ∷ 32 ∷ message ++ (10 ∷ [])))

log_level_to_str-level_name : (level : ℕ) → log_level_to_str level ≡ level_name level
unfolding log_level_to_str string_at
log_level_to_str-level_name zero = refl
log_level_to_str-level_name (suc zero) = refl
log_level_to_str-level_name (suc (suc zero)) = refl
log_level_to_str-level_name (suc (suc (suc zero))) = refl
log_level_to_str-level_name (suc (suc (suc (suc zero)))) = refl
log_level_to_str-level_name (suc (suc (suc (suc (suc zero))))) = refl
log_level_to_str-level_name (suc (suc (suc (suc (suc (suc n)))))) = ground arith

log_line-whole :
    (local_time : Text) (milliseconds level : ℕ) (message : Text)
    → log_line (local_time ++ decimals milliseconds) (level_name level) message
      ≡ whole_line local_time milliseconds level message
unfolding log_line
log_line-whole local_time milliseconds level message = refl

write_line-where :
    (file : LogFile) (line : Text)
    → write_line file line ≡ elim file [
      | absent ↦ printed line none
      | opened ↦ printed line (some line)
      | closed ↦ fault
    ]
unfolding write_line
write_line-where absent line = refl
write_line-where opened line = refl
write_line-where closed line = refl

timestamp-decimals :
    (clock : Clock)
    → clock.tv_usec < 1000000
    → timestamp clock ≡ clock.local_time ++ decimals (clock.tv_usec / 1000)
unfolding behind_first thousandths get_milliseconds
timestamp-decimals clock second =
    let n = clock.tv_usec / 1000 in
    let hundreds : n / 100 % 10 ≡ n / 100 = omega arith in
    let tens : n / 10 % 10 ≡ n % 100 / 10 = omega arith in rw (hundreds, tens) refl

-- Where the clock's local time has 1 to 19 bytes and its microseconds are below a million, and the
-- message is not empty, a call of `Log` behind `SetLogLevel(n)` does nothing at a level above the
-- current one, which is `n` if `n` is 0 to 5, and the one before if it is not. At any other level it
-- writes the whole line: in brackets the local time, a point and the three digits of the milliseconds,
-- then the level's name, a colon, the message and a newline. The line goes to stdout, and to the log
-- file where one is open; a log file that was closed makes the call a fault. No size check fails, and no
-- text is cut off.
pub log-set_log_level :
    (clock : Clock) (l : Logger) (n level c : ℕ) (text : Text)
    → 0 < length clock.local_time
    → length clock.local_time < 20
    → clock.tv_usec < 1000000
    → log clock (set_log_level n l).1 level (some (c ∷ text)) ≡ (
        let line = whole_line clock.local_time (clock.tv_usec / 1000) level (c ∷ text) in
        if ltb (if leb n 5 then n else l.current_log_level) level
        then silent
        else elim (l.log_file) [
          | absent ↦ printed line none
          | opened ↦ printed line (some line)
          | closed ↦ fault
        ])
unfolding set_log_level
log-set_log_level clock l n level c text some_time fits second =
    let line = whole_line clock.local_time (clock.tv_usec / 1000) level (c ∷ text) in
    let stamp = timestamp-decimals clock second in
    let name = log_level_to_str-level_name level in
    let same : log_line (timestamp clock) (log_level_to_str level) (c ∷ text) ≡ line =
      rw (stamp, name) (log_line-whole clock.local_time (clock.tv_usec / 1000) level (c ∷ text)) in
    elim (Bool-cases (leb n 5)) [
      | inl is_level ↦ rw is_level (
          log_lem clock (record l { current_log_level = n }) level c text some_time fits
          ∙ rw (same, write_line-where l.log_file line) refl)
      | inr other ↦ rw other (
          log_lem clock l level c text some_time fits
          ∙ rw (same, write_line-where l.log_file line) refl)
    ]

close_file-closed :
    (file : LogFile) (l l' : Logger)
    → close_file file l ≡ some l'
    → (l'.log_file ≡ closed) × (l'.current_log_level ≡ l.current_log_level)
unfolding close_file
close_file-closed absent l l' done = absurd (ground arith)
close_file-closed closed l l' done = absurd (ground arith)
close_file-closed opened l l' done = (ground arith, ground arith)

-- Where the clock's local time has 1 to 19 bytes, two calls of `Log` at an enabled level are faults:
-- that with an empty message, for which no message is stored, and that with a message behind
-- `CleanupLogFiles`, which leaves the pointer to the file it closed.
pub log_faults :
    (clock : Clock) (l l' : Logger) (level c : ℕ) (text : Text)
    → 0 < length clock.local_time
    → length clock.local_time < 20
    → level ≤ l.current_log_level
    → cleanup_log_files l ≡ some l'
    → (log clock l level (some []) ≡ fault) × (log clock l' level (some (c ∷ text)) ≡ fault)
unfolding log format_log_message format_message log_formatted format_arg_string store_formatted
    write_line cleanup_log_files
log_faults clock l l' level c text some_time fits enabled cleaned =
    let stamp = get_current_timestamp_lem clock some_time fits in
    let whole = log_lem clock l' level c text some_time fits in
    let allowed = not-above l.current_log_level level enabled in
    let (is_closed, same) = close_file-closed l.log_file l l' cleaned in
    (rw (allowed, stamp), whole ∙ rw (same, allowed, is_closed))
