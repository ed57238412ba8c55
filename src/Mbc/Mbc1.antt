-- ===== src/Mbc/Mbc1.antt =====
-- src/MBC/MBC1.c.
pub mod Laws
use game_bloat.Prelude.{
  ℕ, ◌+◌, ◌-◌, ◌*◌, ◌%◌, ◌^◌, Option, none, some, Bool, leb, ◌==◌, ◌&&◌, ◌||◌, if◌then◌else◌,
  truthy, bit_and, bit_or, u8, u16, u32, ◌<<<◌,
}
use game_bloat.Prelude.Buffer.{Buffer, load, store}
use game_bloat.Mbc.Bank.{shift_bank, ◌>>=◌}

-- The static variables of the file.
pub record Mbc1 : Type 0 where
  pub ram_enable : ℕ
  pub access_mode : ℕ
  pub rom_bank_low : ℕ
  pub ram_bank_rom_bank_upper : ℕ

abbrev pub rom_mode : ℕ
rom_mode = 0x00

abbrev pub ram_mode : ℕ
ram_mode = 0x01

abbrev pub initial : Mbc1
initial = record { ram_enable = 0; access_mode = 0; rom_bank_low = 0; ram_bank_rom_bank_upper = 0 }

abbrev pub in_external_ram : ℕ → Bool
in_external_ram address = leb 0xA000 address && leb address 0xBFFF

-- The index into `cartridge.ram`.
abbrev pub ram_index : Mbc1 → ℕ → Option ℕ
ram_index m address =
    if m.access_mode == ram_mode
    then shift_bank (address - 0xA000) m.ram_bank_rom_bank_upper
    else some (address - 0xA000)

unfoldable pub read_byte : Mbc1 → (rom ram : Buffer) → ℕ → Option ℕ
read_byte m rom ram address =
    if leb address 0x3FFF
    then load rom address
    else if leb address 0x7FFF
    then (let bank =
          if m.access_mode == rom_mode
          then bit_or m.rom_bank_low (u8 (m.ram_bank_rom_bank_upper <<< 4))
          else m.rom_bank_low in
        shift_bank (address - 0x4000) bank >>= load rom)
    else if in_external_ram address && truthy m.ram_enable
    then ram_index m address >>= load ram
    else some 0

-- The write to `cartridge.ram`; the index is an `unsigned short` here.
write_ram : Mbc1 → Buffer → ℕ → ℕ → Option (ℕ × Mbc1 × Buffer)
write_ram m ram address value = do
  index ← ram_index m address
  ram' ← store ram (u16 index) value
  some (1, m, ram')

abbrev low_bank : ℕ → ℕ
low_bank value =
    let five = bit_and value 0x1F in
    if five == 0x00
    then 0x01
    else if five == 0x20 || five == 0x40 || five == 0x60
    then five + 1
    else five

unfoldable pub write_byte : Mbc1 → Buffer → ℕ → ℕ → Option (ℕ × Mbc1 × Buffer)
unfolding write_ram
write_byte m ram address value =
    if leb address 0x1FFF
    then some (1, record m { ram_enable = if bit_and value 0x0A == 0x0A then 1 else 0 }, ram)
    else if leb address 0x3FFF
    then some (1, record m { rom_bank_low = low_bank value }, ram)
    else if leb address 0x5FFF
    then some (1, record m { ram_bank_rom_bank_upper = bit_and value 0x03 }, ram)
    else if leb address 0x7FFF
    then some (1, record m { access_mode = value }, ram)
    else if in_external_ram address
    then (if truthy m.ram_enable then write_ram m ram address value else some (0, m, ram))
    else some (0, m, ram)
