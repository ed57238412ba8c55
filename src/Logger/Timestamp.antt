-- ===== src/Logger/Timestamp.antt =====
-- src/utils.c: the time stamp of a line of the log, and the formatting of its arguments.
use game_bloat.Prelude.{
  ℕ, ◌+◌, ◌-◌, ◌/◌, ◌%◌, Option, none, some, [], ◌∷◌, ◌++◌, ltb, ◌==◌, if◌then◌else◌,
}
use game_bloat.Logger.Printf.{Text, length, snprintf}

-- What the system's clock says: the local time in the format of the code, and the microseconds.
pub record Clock : Type 0 where
  pub local_time : Text
  pub tv_usec : ℕ

-- 0 where the text and its terminating zero do not fit.
unfoldable pub strftime : (size : ℕ) (text : Text) → ℕ × Text
strftime size text = if ltb (length text) size then (length text, text) else (0, [])

unfoldable pub get_milliseconds : Clock → ℕ
get_milliseconds clock = clock.tv_usec / 1000

-- "%.3f" of a thousandth of a number below 10000.
unfoldable pub thousandths : ℕ → Text
thousandths n = (48 + n / 1000) ∷ 46 ∷ (48 + n / 100 % 10) ∷ (48 + n / 10 % 10) ∷ (48 + n % 10) ∷ []

-- `millisBuf + 1`.
unfoldable pub behind_first : Text → Text
behind_first [] = []
behind_first (c ∷ text) = text

-- `none` where the function returns 0; else the size it returns and the text.
unfoldable pub get_current_timestamp : Clock → Option (ℕ × Text)
get_current_timestamp clock =
    let (time_str_bytes, time_buffer) = strftime 20 clock.local_time in
    let (millis_size, millis_buf) = snprintf 6 (thousandths (get_milliseconds clock)) in
    let (millis_str_bytes, timestamp) =
      snprintf (time_str_bytes + 5) (time_buffer ++ behind_first millis_buf) in
    if time_str_bytes == 0
    then none
    else if millis_size == 5
    then (if millis_str_bytes == millis_size + time_str_bytes - 1
        then some (millis_str_bytes, timestamp)
        else none)
    else none

unfoldable pub store_formatted : Text → Option Text
store_formatted [] = none
store_formatted (c ∷ text) = some (snprintf (length (c ∷ text) + 1) (c ∷ text)).1

-- No message is stored where `vsnprintf` fails or the text is empty.
unfoldable pub format_arg_string : Option Text → Option Text
format_arg_string none = none
format_arg_string (some text) = store_formatted text
