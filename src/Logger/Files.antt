-- ===== src/Logger/Files.antt =====
-- src/logger.c: the path and the file of the log.
use game_bloat.Prelude.{
  Option, ◌+◌, ◌≡◌, refl, ap, ◌∙◌, arith, none, some, [], ◌∷◌, ◌++◌, if◌then◌else◌,
}
use game_bloat.Logger.{
  Logger, Host, Directory, absent, opened, made, exists, refused, default_logfile_name,
  default_logfile_extension, create_logfile, open_logfile, init_log_files, full_name,
  get_current_unix_time_as_string,
}
use game_bloat.Logger.Printf.{Text, length, snprintf, length-++, take-length, snprintf_lem}

get_current_unix_time_as_string_lem : (time : Text) → get_current_unix_time_as_string time ≡ time
unfolding get_current_unix_time_as_string snprintf
get_current_unix_time_as_string_lem time = take-length _ time (omega arith)

length-full_name :
    (dir_path name stamp : Text)
    → length (full_name dir_path name stamp)
      ≡ length dir_path + length name + length stamp + length default_logfile_extension + 1
unfolding full_name length
length-full_name dir_path name stamp =
    let inner = length-++ (95 ∷ stamp) default_logfile_extension in
    let front = length-++ dir_path name in
    let whole : length (full_name dir_path name stamp)
        ≡ length (dir_path ++ name) + length (95 ∷ stamp ++ default_logfile_extension) =
      length-++ (dir_path ++ name) (95 ∷ stamp ++ default_logfile_extension) in
    omega arith

-- The buffer holds the whole path.
create_logfile_lem :
    (host : Host) (name dir_path : Text)
    → create_logfile host name dir_path ≡ (
      full_name dir_path name host.unix_time,
      if host.can_access (full_name dir_path name host.unix_time)
          then none
          else some (full_name dir_path name host.unix_time),
    )
unfolding create_logfile
create_logfile_lem host name dir_path =
    let size = length-full_name dir_path name host.unix_time in
    let stored =
      snprintf_lem
        (length dir_path
          + length name
          + length host.unix_time
          + length default_logfile_extension
          + 1
          + 1)
        (full_name dir_path name host.unix_time) (omega arith) in
    rw (get_current_unix_time_as_string_lem host.unix_time, stored)

-- "gamebloat_log_", the time and ".txt", behind the directory's text.
abbrev pub log_path : (dir_path time : Text) → Text
log_path dir_path time =
    dir_path
    ++ (103 ∷ 97 ∷ 109 ∷ 101 ∷ 98 ∷ 108 ∷ 111 ∷ 97 ∷ 116 ∷ 95 ∷ 108 ∷ 111 ∷ 103 ∷ [])
    ++ (95 ∷ time ++ (46 ∷ 116 ∷ 120 ∷ 116 ∷ []))

-- The directory that is made, and the text in front of the file's name: "logs" and "logs/", or the
-- argument for both.
abbrev pub directory_of : Option Text → Text
directory_of none = 108 ∷ 111 ∷ 103 ∷ 115 ∷ []
directory_of (some path) = path

abbrev pub prefix_of : Option Text → Text
prefix_of none = 108 ∷ 111 ∷ 103 ∷ 115 ∷ 47 ∷ []
prefix_of (some path) = path

open_logfile_lem :
    (host : Host) (dir_path : Text) (l : Logger) (answer : Directory)
    → let path = log_path dir_path host.unix_time in
      let ready = record l {
        log_file_path = some path;
        log_file = if host.fopen path then opened else absent;
      } in
      open_logfile host dir_path l answer
      ≡ elim answer [ made ↦ ready | exists ↦ ready | refused ↦ l ]
unfolding open_logfile full_name
open_logfile_lem host dir_path l refused = refl
open_logfile_lem host dir_path l made = rw (create_logfile_lem host default_logfile_name dir_path)
open_logfile_lem host dir_path l exists = rw (create_logfile_lem host default_logfile_name dir_path)

init_log_files-open :
    (host : Host) (in_file_path : Option Text) (l : Logger)
    → init_log_files host in_file_path l
      ≡ open_logfile host (prefix_of in_file_path) l (host.mkdir (directory_of in_file_path))
unfolding init_log_files
init_log_files-open host none l = refl
init_log_files-open host (some path) l = refl

full_name-log_path :
    (dir_path time : Text) → full_name dir_path default_logfile_name time ≡ log_path dir_path time
unfolding full_name
full_name-log_path dir_path time = refl

-- `InitLogFiles(NULL)`, and a call with a directory's text, which is then also the text in front of the
-- file's name. Where the directory is made or is there already, the file that is opened has as path that
-- text, `logs/` for NULL, then `gamebloat_log_`, the time in seconds and `.txt`, in a buffer that holds
-- it whole; the log file is open exactly if `fopen` succeeds, and the level stays. Where the directory
-- is refused, nothing changes. The only file that `CreateLogfile` hands to `remove` is one that `access`
-- does not find.
pub init_log_files-create_logfile :
    (host : Host) (in_file_path : Option Text) (l : Logger)
    → let path = log_path (prefix_of in_file_path) host.unix_time in
      let ready = record l {
        log_file_path = some path;
        log_file = if host.fopen path then opened else absent;
      } in
      (init_log_files host in_file_path l ≡ elim (host.mkdir (directory_of in_file_path)) [
        | made ↦ ready
        | exists ↦ ready
        | refused ↦ l
      ])
      × ((create_logfile host default_logfile_name (prefix_of in_file_path)).1
          ≡ (if host.can_access path then none else some path))
init_log_files-create_logfile host in_file_path l =
    let prefix = prefix_of in_file_path in
    let path = full_name-log_path prefix host.unix_time in
    (
      init_log_files-open host in_file_path l
          ∙ open_logfile_lem host prefix l (host.mkdir (directory_of in_file_path)),
      ap (λ made_path. made_path.1) (create_logfile_lem host default_logfile_name prefix)
          ∙ rw path refl,
    )
