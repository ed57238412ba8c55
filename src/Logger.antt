-- ===== src/Logger.antt =====
-- src/logger.c: the log file, the level and the lines of the log; src/utils.c has the time stamp and
-- the formatting of the arguments. What the code writes to stderr is left out. The operating system
-- is a parameter, `Host`.
pub mod Printf
pub mod Timestamp
pub mod Laws
pub mod Files
use game_bloat.Prelude.{
  ℕ, ◌+◌, ◌-◌, Option, none, some, List, [], ◌∷◌, ◌++◌, Bool, true, false, not, ltb, leb, ◌==◌,
  if◌then◌else◌, zero, suc,
}
use game_bloat.Logger.Printf.{Text, length, snprintf}
use game_bloat.Logger.Timestamp.{Clock, get_current_timestamp, format_arg_string}

abbrev pub e_error : ℕ
e_error = 3

abbrev pub e_debug : ℕ
e_debug = 5

-- "TEST_FAIL", "TEST_PASS", "TEST_INFO", "ERROR", "WARN" and "DEBUG".
abbrev pub log_level_strings : List Text
log_level_strings =
    (84 ∷ 69 ∷ 83 ∷ 84 ∷ 95 ∷ 70 ∷ 65 ∷ 73 ∷ 76 ∷ [])
    ∷ (84 ∷ 69 ∷ 83 ∷ 84 ∷ 95 ∷ 80 ∷ 65 ∷ 83 ∷ 83 ∷ [])
    ∷ (84 ∷ 69 ∷ 83 ∷ 84 ∷ 95 ∷ 73 ∷ 78 ∷ 70 ∷ 79 ∷ [])
    ∷ (69 ∷ 82 ∷ 82 ∷ 79 ∷ 82 ∷ [])
    ∷ (87 ∷ 65 ∷ 82 ∷ 78 ∷ [])
    ∷ (68 ∷ 69 ∷ 66 ∷ 85 ∷ 71 ∷ [])
    ∷ []

-- "logs/", "logs", "gamebloat_log" and ".txt".
abbrev pub default_logfile_directory : Text
default_logfile_directory = 108 ∷ 111 ∷ 103 ∷ 115 ∷ 47 ∷ []

abbrev pub default_directory_name : Text
default_directory_name = 108 ∷ 111 ∷ 103 ∷ 115 ∷ []

abbrev pub default_logfile_name : Text
default_logfile_name = 103 ∷ 97 ∷ 109 ∷ 101 ∷ 98 ∷ 108 ∷ 111 ∷ 97 ∷ 116 ∷ 95 ∷ 108 ∷ 111 ∷ 103 ∷ []

abbrev pub default_logfile_extension : Text
default_logfile_extension = 46 ∷ 116 ∷ 120 ∷ 116 ∷ []

-- `closed` is the pointer behind `fclose`, which does not clear it.
pub data LogFile : Type 0 where
  absent opened closed : LogFile

pub record Logger : Type 0 where
  pub log_file : LogFile
  pub log_file_path : Option Text
  pub current_log_level : ℕ

pub data Directory : Type 0 where
  made exists refused : Directory

-- The operating system's answers; `can_access` is `access(path, F_OK) == 0`.
pub record Host : Type 0 where
  pub mkdir : Text → Directory
  pub can_access : Text → Bool
  pub fopen : Text → Bool
  pub unix_time : Text

-- What `Log` does: nothing, a line on stdout and one in the file where it is open, or a fault.
pub data Logged : Type 0 where
  silent : Logged
  printed : (line : Text) (file : Option Text) → Logged
  fault : Logged

pub data Formatted : Type 0 where
  formatted : (size : ℕ) (message : Text) → Formatted
  failed dereferenced : Formatted

unfoldable pub get_current_unix_time_as_string : Text → Text
get_current_unix_time_as_string time =
    let (count, _) = snprintf 0 time in (snprintf (count + 1) time).1

unfoldable pub full_name : (dir_path name timestamp : Text) → Text
full_name dir_path name timestamp =
    dir_path ++ name ++ (95 ∷ timestamp ++ default_logfile_extension)

-- The path, and what is handed to `remove`.
unfoldable pub create_logfile : Host → (name dir_path : Text) → Text × Option Text
create_logfile host name dir_path =
    let timestamp = get_current_unix_time_as_string host.unix_time in
    let logfile_name_length =
      length dir_path + length name + length timestamp + length default_logfile_extension + 1 in
    let path = (snprintf (logfile_name_length + 1) (full_name dir_path name timestamp)).1 in
    (path, if host.can_access path then none else some path)

abbrev pub file_of : Bool → LogFile
file_of is_open = if is_open then opened else absent

unfoldable pub open_logfile : Host → (dir_path : Text) → Logger → Directory → Logger
open_logfile host dir_path l refused = l
open_logfile host dir_path l made =
    let path = (create_logfile host default_logfile_name dir_path).0 in
    record l { log_file_path = some path; log_file = file_of (host.fopen path) }
open_logfile host dir_path l exists =
    let path = (create_logfile host default_logfile_name dir_path).0 in
    record l { log_file_path = some path; log_file = file_of (host.fopen path) }

unfoldable pub init_log_files : Host → (in_file_path : Option Text) → Logger → Logger
init_log_files host none l =
    open_logfile host default_logfile_directory l (host.mkdir default_directory_name)
init_log_files host (some path) l = open_logfile host path l (host.mkdir path)

-- `fclose` of a null or a closed file is a fault.
unfoldable pub close_file : LogFile → Logger → Option Logger
close_file opened l = some (record l { log_file = closed; log_file_path = none })
close_file absent l = none
close_file closed l = none

unfoldable pub cleanup_log_files : Logger → Option Logger
cleanup_log_files l = close_file l.log_file l

unfoldable pub string_at : List Text → ℕ → Text
string_at [] n = []
string_at (text ∷ texts) zero = text
string_at (text ∷ texts) (suc n) = string_at texts n

unfoldable pub log_level_to_str : ℕ → Text
log_level_to_str level = if leb level e_debug then string_at log_level_strings level else []

-- "[%s] %s: %s\n".
unfoldable pub log_line : (timestamp level message : Text) → Text
log_line timestamp level message =
    91 ∷ timestamp ++ (93 ∷ 32 ∷ level ++ (58 ∷ 32 ∷ message ++ (10 ∷ [])))

-- The time stamp comes first: without one, a null message is not read.
unfoldable pub format_message : (level : ℕ) → Option Text → Option (ℕ × Text) → Formatted
format_message level message none = failed
format_message level none (some _) = dereferenced
format_message level (some message) (some (timestamp_bytes, timestamp)) =
    let level_str = log_level_to_str level in
    let log_buffer_size = timestamp_bytes + length message + length level_str + 6 + 1 in
    let (size, line) = snprintf log_buffer_size (log_line timestamp level_str message) in
    if size == log_buffer_size - 1 then formatted size line else failed

unfoldable pub format_log_message : Clock → (level : ℕ) → Option Text → Formatted
format_log_message clock level message = format_message level message (get_current_timestamp clock)

-- `fprintf` to a closed file is a fault.
unfoldable pub write_line : LogFile → Text → Logged
write_line absent line = printed line none
write_line opened line = printed line (some line)
write_line closed line = fault

unfoldable pub log_formatted : LogFile → Formatted → Logged
log_formatted file failed = silent
log_formatted file dereferenced = fault
log_formatted file (formatted size line) = if size == 0 then silent else write_line file line

-- `args` is what the format and the arguments come to; `none` where `vsnprintf` fails.
unfoldable pub log : Clock → Logger → (level : ℕ) → (args : Option Text) → Logged
log clock l level args =
    if ltb l.current_log_level level
    then silent
    else log_formatted l.log_file (format_log_message clock level (format_arg_string args))

unfoldable pub set_log_level : ℕ → Logger → Bool × Logger
set_log_level level l =
    if leb level e_debug then (true, record l { current_log_level = level }) else (false, l)

-- `logFile`, `logFilePath` and `currentLogLevel` as they are declared.
abbrev pub initial_logger : Logger
initial_logger = record { log_file = absent; log_file_path = none; current_log_level = e_error }
