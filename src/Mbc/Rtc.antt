-- ===== src/Mbc/Rtc.antt =====
-- src/MBC/MBC3.c: the real time clock. `now` is what `time(NULL)` returns during the call, a
-- number of seconds that is not negative; timestamps that are computed are signed.
pub mod Laws
use game_bloat.Prelude.{
  ℕ, zero, suc, ◌+◌, ◌-◌, ◌*◌, ◌/◌, ◌%◌, ◌^◌, Option, none, some, Bool, true, false, ltb, ◌==◌,
  if◌then◌else◌, truthy, bit_and, bit_or, bit_xor, u8, ◌<<<◌, ◌>>>◌, complement8,
}
use game_bloat.Prelude.Int.{ℤ, pos, negsuc, pos_part, ◌+ℤ◌, ◌-ℤ◌, quot, rem, scale, low_part}

-- `struct ClockRegisters`; the two day counters are the bytes of `dayCounter`.
pub record ClockRegisters : Type 0 where
  pub seconds : ℕ
  pub minutes : ℕ
  pub hours : ℕ
  pub lower_day_counter : ℕ
  pub upper_day_counter : ℕ

pub record Rtc : Type 0 where
  pub register_select : ℕ
  pub halt_timestamp : ℕ
  pub base_timestamp : ℤ
  pub clock : ClockRegisters

abbrev pub initial_rtc : Rtc
initial_rtc = record {
  register_select = 0;
  halt_timestamp = 0;
  base_timestamp = pos 0;
  clock = record {
    seconds = 0;
    minutes = 0;
    hours = 0;
    lower_day_counter = 0;
    upper_day_counter = 0;
  };
}

abbrev pub day_counter_msb : ℕ
day_counter_msb = 0x01

abbrev pub halt_flag : ℕ
halt_flag = 0x40

abbrev pub day_counter_carry_flag : ℕ
day_counter_carry_flag = 0x80

abbrev pub day : ℕ
day = 86400

abbrev pub day_counter_overflow : ℕ
day_counter_overflow = 0x1FF * day

abbrev pub days_upper_unit : ℕ
days_upper_unit = 256

unfoldable pub determine_timestamp : ℕ → Rtc → ℕ
determine_timestamp now r =
    if truthy (bit_and r.clock.upper_day_counter halt_flag) then r.halt_timestamp else now

unfoldable pub update_base_timestamp : (now unit_as_seconds unit value : ℕ) → Rtc → Rtc
update_base_timestamp now unit_as_seconds unit value r =
    let old_timestamp = pos (determine_timestamp now r) in
    let old_unit = rem (quot (old_timestamp -ℤ r.base_timestamp) unit_as_seconds) unit in
    let base = r.base_timestamp +ℤ scale old_unit unit_as_seconds in
    let written = if unit == days_upper_unit then bit_and value 0x1 <<< 8 else value in
    record r { base_timestamp = base -ℤ pos (written * unit_as_seconds) }

-- The last statement of the case RTC_DAY_UPPER.
unfoldable pub update_halt : (now value : ℕ) → Rtc → Rtc
update_halt now value r =
    if truthy (bit_and (bit_xor r.clock.upper_day_counter value) halt_flag)
    then (if truthy (bit_xor value halt_flag)
        then record r { halt_timestamp = now }
        else record r { base_timestamp = r.base_timestamp +ℤ (pos now -ℤ pos r.halt_timestamp) })
    else r

unfoldable pub write_to_rtc_register : (now value : ℕ) → Rtc → ℕ × Rtc
write_to_rtc_register now value r =
    if r.register_select == 0x08
    then (1, update_base_timestamp now 1 60 value r)
    else if r.register_select == 0x09
    then (1, update_base_timestamp now 60 60 value r)
    else if r.register_select == 0x0A
    then (1, update_base_timestamp now 3600 24 value r)
    else if r.register_select == 0x0B
    then (1, update_base_timestamp now day 255 value r)
    else if r.register_select == 0x0C
    then (1, update_halt now value (update_base_timestamp now day days_upper_unit value r))
    else (0, r)

unfoldable pub read_rtc_register : Rtc → ℕ
read_rtc_register r =
    if r.register_select == 0x08
    then r.clock.seconds
    else if r.register_select == 0x09
    then r.clock.minutes
    else if r.register_select == 0x0A
    then r.clock.hours
    else if r.register_select == 0x0B
    then r.clock.lower_day_counter
    else if r.register_select == 0x0C
    then r.clock.upper_day_counter
    else 0

-- What one round of the `do` loop takes off the elapsed time.
abbrev pub overflow_step : ℕ
overflow_step = day_counter_overflow * day

-- The `do` loop on fuel; `none` means that the fuel ran out.
unfoldable pub overflow_loop : ℕ → (elapsed base : ℤ) → Option (ℤ × ℤ)
overflow_loop zero elapsed base = none
overflow_loop (suc fuel) elapsed base =
    let elapsed' = elapsed -ℤ pos overflow_step in
    let base' = base +ℤ pos overflow_step in
    let rest = overflow_loop fuel elapsed' base' in
    if ltb overflow_step (pos_part elapsed') then rest else some (elapsed', base')

-- The registers for an elapsed time.
unfoldable pub clock_of : ℤ → ClockRegisters
clock_of elapsed =
    let in_day = rem elapsed day in
    let in_hour = rem in_day 3600 in
    record {
      seconds = low_part (rem in_hour 60) 256;
      minutes = low_part (quot in_hour 60) 256;
      hours = low_part (quot in_day 3600) 256;
      lower_day_counter = low_part (quot elapsed day) 256;
      upper_day_counter = low_part (quot elapsed day) 512 >>> 8;
    }

unfoldable pub latch_rtc : ℕ → Rtc → Option Rtc
latch_rtc now r =
    let elapsed = determine_timestamp now r in
    if ltb day_counter_overflow elapsed
    then (elim (overflow_loop (suc (elapsed / overflow_step)) (pos elapsed) r.base_timestamp) [
      | none ↦ none
      | some (e, base) ↦ some (record r { base_timestamp = base; clock = clock_of e })
    ])
    else some (record r { clock = clock_of (pos elapsed) })
