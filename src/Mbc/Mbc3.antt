-- ===== src/Mbc/Mbc3.antt =====
-- src/MBC/MBC3.c: banks, external RAM, and the way to the clock of Rtc.antt.
pub mod Laws
use game_bloat.Prelude.{
  ℕ, ◌-◌, ◌*◌, ◌%◌, ◌^◌, Option, none, some, Bool, leb, ◌==◌, ◌&&◌, if◌then◌else◌, truthy, bit_and,
  u16, u32, ◌<<<◌,
}
use game_bloat.Prelude.Buffer.{Buffer, load, store}
use game_bloat.Mbc.Bank.{shift_bank, ◌>>=◌}
use game_bloat.Mbc.Rtc.{Rtc, initial_rtc, read_rtc_register, write_to_rtc_register, latch_rtc}

-- The static variables of the file; `RTCRegisterSelect` and the clock's are in `rtc`.
pub record Mbc3 : Type 0 where
  pub ram_timer_enable : ℕ
  pub rom_bank_number : ℕ
  pub ram_bank_number : ℕ
  pub latch_clock_sequence : ℕ
  pub rtc_access_mode : ℕ
  pub rtc : Rtc

abbrev pub ram_mode : ℕ
ram_mode = 0

abbrev pub rtc_mode : ℕ
rtc_mode = 1

abbrev pub initial : Mbc3
initial = record {
  ram_timer_enable = 0;
  rom_bank_number = 1;
  ram_bank_number = 0;
  latch_clock_sequence = 255;
  rtc_access_mode = 0;
  rtc = initial_rtc;
}

abbrev pub in_external_ram : ℕ → Bool
in_external_ram address = leb 0xA000 address && leb address 0xBFFF

unfoldable pub read_byte : Mbc3 → (rom ram : Buffer) → ℕ → Option ℕ
read_byte m rom ram address =
    if leb address 0x3FFF
    then load rom address
    else if leb address 0x7FFF
    then shift_bank (address - 0x4000) m.rom_bank_number >>= load rom
    else if in_external_ram address && truthy m.ram_timer_enable
    then (if m.rtc_access_mode == ram_mode
        then shift_bank (address - 0xA000) m.ram_bank_number >>= load ram
        else if m.rtc_access_mode == rtc_mode
        then some (read_rtc_register m.rtc)
        else some 0)
    else some 0

-- The write to `cartridge.ram`: the index is an `unsigned short`, and the status is 0, since
-- the branch runs into the `return 0x00` behind it.
unfoldable pub write_ram : Mbc3 → Buffer → ℕ → ℕ → Option (ℕ × Mbc3 × Buffer)
write_ram m ram address value = do
  index ← shift_bank (address - 0xA000) m.ram_bank_number
  ram' ← store ram (u16 index) value
  some (0, m, ram')

unfoldable pub write_external : ℕ → Mbc3 → Buffer → ℕ → ℕ → Option (ℕ × Mbc3 × Buffer)
write_external now m ram address value =
    if truthy m.ram_timer_enable
    then (if m.rtc_access_mode == ram_mode
        then write_ram m ram address value
        else if m.rtc_access_mode == rtc_mode
        then (let (status, rtc') = write_to_rtc_register now value m.rtc in
            some (status, record m { rtc = rtc' }, ram))
        else some (0, m, ram))
    else some (0, m, ram)

-- 0x4000-0x5FFF: a RAM bank, or a clock register.
unfoldable pub select_bank : Mbc3 → ℕ → ℕ × Mbc3
select_bank m value =
    if leb value 0x07
    then (1, record m { ram_bank_number = value; rtc_access_mode = ram_mode })
    else if leb 0x08 value && leb value 0x0C
    then (
      1,
      record m { rtc = record (m.rtc) { register_select = value }; rtc_access_mode = rtc_mode },
    )
    else (0, m)

-- 0x6000-0x7FFF: 0 and then 1 latches the clock.
unfoldable pub latch : ℕ → Mbc3 → ℕ → Option Mbc3
latch now m value =
    if m.rtc_access_mode == rtc_mode
    then (if m.latch_clock_sequence == 0x00 && value == 0x01
        then (do
          rtc' ← latch_rtc now m.rtc
          some (record m { rtc = rtc'; latch_clock_sequence = value }))
        else some (record m { latch_clock_sequence = value }))
    else some m

unfoldable pub write_byte : ℕ → Mbc3 → Buffer → ℕ → ℕ → Option (ℕ × Mbc3 × Buffer)
write_byte now m ram address value =
    if leb address 0x1FFF
    then some (1, record m { ram_timer_enable = if bit_and value 0x0A == 0x0A then 1 else 0 }, ram)
    else if leb address 0x3FFF
    then (let seven = bit_and value 0x7F in
        some (1, record m { rom_bank_number = if seven == 0x00 then 0x01 else seven }, ram))
    else if leb address 0x5FFF
    then (let (status, m') = select_bank m value in some (status, m', ram))
    else if leb address 0x7FFF
    then (do m' ← latch now m value; some (1, m', ram))
    else if in_external_ram address
    then write_external now m ram address value
    else some (0, m, ram)
