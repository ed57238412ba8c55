-- ===== src/Mbc/Mbc1/Laws.antt =====
-- src/MBC/MBC1.c: bank registers in range, external RAM, and writes that are refused.
use game_bloat.Prelude.{ℕ, zero, suc, ◌-◌, ◌*◌, ◌^◌, ◌<◌, ◌≤◌, ◌≡◌, some, arith, update}
use game_bloat.Prelude.Buffer.{Buffer}
use game_bloat.Prelude.Bytes.{bit_and-masks}
use game_bloat.Mbc.Mbc1.{Mbc1, read_byte, write_byte, ram_index, initial}

pub record IsInRange (m : Mbc1) : Type 0 where
  pub enable_bit : m.ram_enable ≤ 1
  pub low_bits : m.rom_bank_low ≤ 31
  pub upper_bits : m.ram_bank_rom_bank_upper ≤ 3

initial-IsInRange : IsInRange initial
initial-IsInRange = omega arith

-- No write takes a bank register out of its range.
write_byte-IsInRange :
    (m : Mbc1) (ram : Buffer) (address value : ℕ) {status : ℕ} {m' : Mbc1} {ram' : Buffer}
    → IsInRange m
    → value < 256
    → write_byte m ram address value ≡ some (status, m', ram')
    → IsInRange m'
unfolding write_byte
write_byte-IsInRange m ram address value v fits done = ground (arith, bit_and-masks value fits)

shifted_fits : (offset bank : ℕ) → offset ≤ 0x1FFF → bank ≤ 3 → offset * 2 ^ bank < 65536
shifted_fits offset zero top small = omega arith
shifted_fits offset (suc zero) top small = omega arith
shifted_fits offset (suc (suc zero)) top small = omega arith
shifted_fits offset (suc (suc (suc zero))) top small = omega arith
shifted_fits offset (suc (suc (suc (suc bank)))) top small = absurd (omega arith)

-- An offset shifted by a RAM bank number still fits 16 bits.
ram_index-lt :
    (m : Mbc1) (address i : ℕ)
    → IsInRange m
    → address ≤ 0xBFFF
    → ram_index m address ≡ some i
    → i < 65536
ram_index-lt m address i v top found =
    ground (arith, shifted_fits (address - 0xA000) m.ram_bank_rom_bank_upper)

-- With RAM enabled and an index inside the cartridge's RAM, a write to 0xA000-0xBFFF succeeds
-- and a read of the same address gives the value back.
read_byte-write_ram :
    (m : Mbc1) (rom ram : Buffer) (address value i : ℕ)
    → IsInRange m
    → m.ram_enable ≡ 1
    → 0xA000 ≤ address
    → address ≤ 0xBFFF
    → ram_index m address ≡ some i
    → i < ram.size
    → (ram' : Buffer) × (write_byte m ram address value ≡ some (1, m, ram'))
      × (read_byte m rom ram' address ≡ some value)
unfolding read_byte write_byte
read_byte-write_ram m rom ram address value i v on lo hi found inside =
    let narrow = ram_index-lt m address i v hi found in
    (record ram { cells = update ram.cells i value }, ground arith, ground arith)

-- With RAM disabled, a write to 0xA000-0xBFFF answers 0 and changes nothing, and a read gives 0.
disabled_ram :
    (m : Mbc1) (rom ram : Buffer) (address value : ℕ)
    → m.ram_enable ≡ 0
    → 0xA000 ≤ address
    → address ≤ 0xBFFF
    → (write_byte m ram address value ≡ some (0, m, ram)) × (read_byte m rom ram address ≡ some 0)
unfolding read_byte write_byte
disabled_ram m rom ram address value off lo hi = ground arith
