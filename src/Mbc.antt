-- ===== src/Mbc.antt =====
-- src/MBC.c and src/MBC/: the memory bank controllers behind `cartridge.mbc`.
pub mod Bank
pub mod RomOnly
pub mod Mbc1
pub mod Rtc
pub mod Mbc3
use game_bloat.Prelude.{ℕ, Option, none, some, Bool, leb, ◌==◌, ◌&&◌, ◌||◌, if◌then◌else◌}
use game_bloat.Prelude.Buffer.{Buffer}
use game_bloat.Mbc.Bank.{◌>>=◌}
use game_bloat.Mbc.Mbc1.{Mbc1 as Mbc1State}
use game_bloat.Mbc.Mbc3.{Mbc3 as Mbc3State}

-- The pairs of functions that `MBC.readByte` and `MBC.writeByte` can point to.
pub data Controller : Type 0 where
  rom_only mbc1 mbc2 mbc3 mbc4 mbc5 : Controller

-- The cartridge behind its controller: both blocks, the static variables of the controllers and
-- `now`, the answer of `time(NULL)`, which no code writes. No controller stands for a NULL pointer.
pub record Cartridge : Type 0 where
  pub rom : Buffer
  pub ram : Buffer
  pub controller : Option Controller
  pub bank1 : Mbc1State
  pub bank3 : Mbc3State
  pub now : ℕ

abbrev between : ℕ → ℕ → ℕ → Bool
between lo hi x = leb lo x && leb x hi

-- The status of `setMBCType`, and the functions that are set; `none` leaves them as they are.
unfoldable pub set_mbc_type : ℕ → ℕ × Option Controller
set_mbc_type cart_mbc =
    if cart_mbc == 0x00
    then (1, some rom_only)
    else if between 0x01 0x03 cart_mbc
    then (1, some mbc1)
    else if between 0x05 0x06 cart_mbc
    then (1, some mbc2)
    else if between 0x08 0x09 cart_mbc
    then (0, some rom_only)
    else if between 0x0B 0x0D cart_mbc
    then (0, none)
    else if between 0x0F 0x13 cart_mbc
    then (1, some mbc3)
    else if between 0x15 0x17 cart_mbc
    then (1, some mbc4)
    else if between 0x1A 0x1E cart_mbc
    then (1, some mbc5)
    else (0, none)

-- `cartridge.mbc->readByte(address)`. MBC2, MBC4 and MBC5 are stubs that answer 1.
unfoldable pub read_controller : Controller → Cartridge → ℕ → Option ℕ
read_controller rom_only c address = RomOnly.read_byte c.rom c.ram address
read_controller mbc1 c address = Mbc1.read_byte c.bank1 c.rom c.ram address
read_controller mbc2 c address = some 1
read_controller mbc3 c address = Mbc3.read_byte c.bank3 c.rom c.ram address
read_controller mbc4 c address = some 1
read_controller mbc5 c address = some 1

-- `cartridge.mbc->writeByte(address, value)`.
unfoldable pub write_controller : Controller → Cartridge → ℕ → ℕ → Option (ℕ × Cartridge)
write_controller rom_only c address value = do
  (status, ram') ← RomOnly.write_byte c.ram address value
  some (status, record c { ram = ram' })
write_controller mbc1 c address value = do
  (status, m, ram') ← Mbc1.write_byte c.bank1 c.ram address value
  some (status, record c { bank1 = m; ram = ram' })
write_controller mbc2 c address value = some (1, c)
write_controller mbc3 c address value = do
  (status, m, ram') ← Mbc3.write_byte c.now c.bank3 c.ram address value
  some (status, record c { bank3 = m; ram = ram' })
write_controller mbc4 c address value = some (1, c)
write_controller mbc5 c address value = some (1, c)

-- A call through a NULL pointer is undefined.
unfoldable pub mbc_read_byte : Cartridge → ℕ → Option ℕ
unfolding read_controller
mbc_read_byte c address = c.controller >>= λ k. read_controller k c address

unfoldable pub mbc_write_byte : Cartridge → ℕ → ℕ → Option (ℕ × Cartridge)
unfolding write_controller
mbc_write_byte c address value = c.controller >>= λ k. write_controller k c address value
