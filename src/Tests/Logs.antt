-- ===== src/Tests/Logs.antt =====
-- The log at a concrete clock and a concrete directory.
use game_bloat.Prelude.{
  ◌/◌, ◌≡◌, refl, arith, none, some, [], ◌∷◌, true, false, ltb, leb, if◌then◌else◌,
}
use game_bloat.Logger.{
  printed, Logger, Host, absent, opened, closed, made, exists, refused, log, silent, fault,
  set_log_level, create_logfile, init_log_files, cleanup_log_files, close_file, initial_logger,
  default_logfile_name,
}
use game_bloat.Logger.Printf.{Text, length}
use game_bloat.Logger.Timestamp.{Clock}
use game_bloat.Logger.Laws.{log-set_log_level, log_faults, whole_line}
use game_bloat.Logger.Files.{init_log_files-create_logfile, log_path, prefix_of, directory_of}

-- "2024-01-02 03:04:05" and 678 milliseconds.
abbrev clock : Clock
clock = record {
  local_time =
      50 ∷ 48 ∷ 50 ∷ 52 ∷ 45 ∷ 48 ∷ 49 ∷ 45 ∷ 48 ∷ 50 ∷ 32 ∷ 48 ∷ 51 ∷ 58 ∷ 48 ∷ 52 ∷ 58 ∷ 48 ∷ 53
      ∷ [];
  tv_usec = 678000;
}

-- "No ROM".
abbrev message : Text
message = 111 ∷ 32 ∷ 82 ∷ 79 ∷ 77 ∷ []

-- "logs" is there already, and every file can be opened; the time is "1700000000".
abbrev host : Host
host = record {
  mkdir = λ path. exists;
  can_access = λ path. false;
  fopen = λ path. true;
  unix_time = 49 ∷ 55 ∷ 48 ∷ 48 ∷ 48 ∷ 48 ∷ 48 ∷ 48 ∷ 48 ∷ 48 ∷ [];
}

abbrev logging : Logger
logging = record initial_logger { log_file = opened }

log-set_log_level_example : log clock (set_log_level 4 logging).1 3 (some (78 ∷ message)) ≡ (
    let line = whole_line clock.local_time (clock.tv_usec / 1000) 3 (78 ∷ message) in
    if ltb (if leb 4 5 then 4 else logging.current_log_level) 3
    then silent
    else elim (logging.log_file) [
      | absent ↦ printed line none
      | opened ↦ printed line (some line)
      | closed ↦ fault
    ])
unfolding length
log-set_log_level_example =
    log-set_log_level clock logging 4 3 78 message (omega arith) (omega arith) (omega arith)

init_log_files-create_logfile_example :
    let path = log_path (prefix_of none) host.unix_time in
    let ready = record initial_logger {
      log_file_path = some path;
      log_file = if host.fopen path then opened else absent;
    } in
    (init_log_files host none initial_logger ≡ elim (host.mkdir (directory_of none)) [
      | made ↦ ready
      | exists ↦ ready
      | refused ↦ initial_logger
    ])
    × ((create_logfile host default_logfile_name (prefix_of none)).1
        ≡ (if host.can_access path then none else some path))
init_log_files-create_logfile_example = init_log_files-create_logfile host none initial_logger

log_faults_example :
    (log clock logging 3 (some []) ≡ fault)
    × (log clock
          (record logging { log_file = closed; log_file_path = none })
          3
          (some (78 ∷ message))
        ≡ fault)
unfolding cleanup_log_files close_file length
log_faults_example =
    log_faults clock logging (record logging { log_file = closed; log_file_path = none }) 3 78
      message (omega arith) (omega arith) (omega arith) refl
