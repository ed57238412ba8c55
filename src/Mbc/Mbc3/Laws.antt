-- ===== src/Mbc/Mbc3/Laws.antt =====
-- src/MBC/MBC3.c: bank registers in range, external RAM, and the end of the latch.
use game_bloat.Prelude.{
  ℕ, zero, suc, ◌-◌, ◌*◌, ◌^◌, ◌<◌, ◌≤◌, ◌≡◌, ◌≢◌, some, arith, ◌==◌, if◌then◌else◌, update, ◌&&◌,
  leb, bit_and,
}
use game_bloat.Prelude.Buffer.{Buffer}
use game_bloat.Prelude.Bytes.{bit_and-masks}
use game_bloat.Mbc.Rtc.Laws.{IsRunning, latch_rtc-total, write_to_rtc_register-clock}
use game_bloat.Mbc.Mbc3.{
  Mbc3, read_byte, write_byte, write_external, select_bank, latch, write_ram, initial,
}

pub record IsValid (m : Mbc3) : Type 0 where
  pub rom_bank_set : m.rom_bank_number ≢ 0
  pub rom_bank_bits : m.rom_bank_number ≤ 127
  pub ram_bank_bits : m.ram_bank_number ≤ 7
  pub mode_bit : m.rtc_access_mode ≤ 1
  pub running : IsRunning m.rtc

pub initial-IsValid : IsValid initial
initial-IsValid = omega arith

select_bank-IsValid : (m : Mbc3) (value : ℕ) → IsValid m → IsValid (select_bank m value).1
unfolding select_bank
select_bank-IsValid m value v = ground arith

latch-IsValid :
    (now : ℕ) (m : Mbc3) (value : ℕ)
    → IsValid m
    → (m' : Mbc3) × (latch now m value ≡ some m') × IsValid m'
unfolding latch
latch-IsValid now m value v =
    let (rtc', done, run) = latch_rtc-total now m.rtc in
    (
      if m.rtc_access_mode == 1
          then record m {
            rtc = if m.latch_clock_sequence == 0x00 && value == 0x01 then rtc' else m.rtc;
            latch_clock_sequence = value;
          }
          else m,
      ground arith,
      ground arith,
    )

write_external-IsValid :
    (now : ℕ) (m : Mbc3) (ram : Buffer) (address value : ℕ) {status : ℕ} {m' : Mbc3} {ram' : Buffer}
    → IsValid m
    → write_external now m ram address value ≡ some (status, m', ram')
    → IsValid m'
unfolding write_external write_ram
write_external-IsValid now m ram address value v done =
    ground (arith, write_to_rtc_register-clock now value m.rtc)

-- No write takes a bank number or the mode out of its range, selects ROM bank 0, or lets the
-- clock be halted.
pub write_byte-IsValid :
    (now : ℕ) (m : Mbc3) (ram : Buffer) (address value : ℕ) {status : ℕ} {m' : Mbc3} {ram' : Buffer}
    → IsValid m
    → value < 256
    → write_byte now m ram address value ≡ some (status, m', ram')
    → IsValid m'
unfolding write_byte
write_byte-IsValid now m ram address value {status} {m'} {ram'} v fits done = ground (
  arith,
  bit_and-masks value fits,
  select_bank-IsValid m value v,
  latch-IsValid now m value v,
  write_external-IsValid now m ram address value {status = status} {m' = m'} {ram' = ram'} v,
)

-- A write to the registers below 0x8000 returns, the latch of the clock included, and leaves the
-- cartridge's RAM as it is.
pub write_byte-registers :
    (now : ℕ) (m : Mbc3) (ram : Buffer) (address value : ℕ)
    → IsValid m
    → address < 0x8000
    → (status : ℕ) × (m' : Mbc3) × (write_byte now m ram address value ≡ some (status, m', ram))
unfolding write_byte
write_byte-registers now m ram address value v low =
    let (m', done, valid) = latch-IsValid now m value v in
    (
      if leb address 0x3FFF then 1 else if leb address 0x5FFF then (select_bank m value).0 else 1,
      if leb address 0x1FFF
          then record m { ram_timer_enable = if bit_and value 0x0A == 0x0A then 1 else 0 }
          else if leb address 0x3FFF
          then record m {
            rom_bank_number = if bit_and value 0x7F == 0x00 then 0x01 else bit_and value 0x7F;
          }
          else if leb address 0x5FFF
          then (select_bank m value).1
          else m',
      ground arith,
    )

shifted_fits : (offset bank : ℕ) → offset ≤ 0x1FFF → bank ≤ 3 → offset * 2 ^ bank < 65536
shifted_fits offset zero top small = omega arith
shifted_fits offset (suc zero) top small = omega arith
shifted_fits offset (suc (suc zero)) top small = omega arith
shifted_fits offset (suc (suc (suc zero))) top small = omega arith
shifted_fits offset (suc (suc (suc (suc bank)))) top small = absurd (omega arith)

-- With RAM enabled, RAM mode, a bank of 0 to 3 and an index inside the cartridge's RAM, a read of
-- 0xA000-0xBFFF gives back what was written there, though the write's status is 0.
pub read_byte-write_external :
    (now : ℕ) (m : Mbc3) (rom ram : Buffer) (address value : ℕ)
    → m.ram_timer_enable ≡ 1
    → m.rtc_access_mode ≡ 0
    → m.ram_bank_number ≤ 3
    → 0xA000 ≤ address
    → address ≤ 0xBFFF
    → (address - 0xA000) * 2 ^ m.ram_bank_number < ram.size
    → (ram' : Buffer) × (write_byte now m ram address value ≡ some (0, m, ram'))
      × (read_byte m rom ram' address ≡ some value)
unfolding read_byte write_byte write_external write_ram
read_byte-write_external now m rom ram address value on mode bank lo hi inside =
    let fits = shifted_fits (address - 0xA000) m.ram_bank_number (omega arith) bank in
    (
      record ram { cells = update ram.cells ((address - 0xA000) * 2 ^ m.ram_bank_number) value },
      ground arith,
      ground arith,
    )
