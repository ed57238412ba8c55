-- ===== src/Mbc/RomOnly.antt =====
-- src/MBC/MBCNone.c: a cartridge with no controller.
use game_bloat.Prelude.{ℕ, ◌-◌, Option, some, Bool, leb, ◌&&◌, if◌then◌else◌}
use game_bloat.Prelude.Buffer.{Buffer, load, store}
use game_bloat.Mbc.Bank.{◌>>=◌}

abbrev pub in_external_ram : ℕ → Bool
in_external_ram address = leb 0xA000 address && leb address 0xBFFF

unfoldable pub read_byte : (rom ram : Buffer) → ℕ → Option ℕ
read_byte rom ram address =
    if leb address 0x7FFF
    then load rom address
    else if in_external_ram address
    then load ram (address - 0xA000)
    else some 0

-- The status and the RAM after the write.
unfoldable pub write_byte : Buffer → ℕ → ℕ → Option (ℕ × Buffer)
write_byte ram address value =
    if in_external_ram address
    then (do ram' ← store ram (address - 0xA000) value; some (1, ram'))
    else some (1, ram)
