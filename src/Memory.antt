-- ===== src/Memory.antt =====
-- src/memory.c: the memory map.
pub mod Ram
pub mod Map
use game_bloat.Prelude.{
  ℕ, ◌+◌, ◌-◌, ◌*◌, ◌/◌, ◌%◌, ◌^◌, Option, none, some, ltb, leb, ◌==◌, ◌&&◌, if◌then◌else◌, bit_and,
  bit_or, u8, u16, update, ◌<<<◌, ◌>>>◌,
}
use game_bloat.Interrupt.{InterruptRegisters, write_interrupt}
use game_bloat.Gpu.Tiles.{gpu_read_byte, gpu_write_byte}
use game_bloat.Gpu.Control.{gpu_read_register, gpu_write_register}
use game_bloat.Gpu.State.{GpuRegisters}
use game_bloat.Mbc.{Cartridge, mbc_read_byte, mbc_write_byte}
use game_bloat.Machine.{Machine, Command, ◌>>=◌, pure, gpu_write_vram_to_file}

unfoldable pub initialize_memory : Machine → Machine
initialize_memory m = record m {
  work_ram = λ _. 0;
  oam = λ _. 0;
  io_ports = λ _. 0;
  high_ram = λ _. 0;
}

-- 0xFF00-0xFF7F: the two devices that answer; all other ports read as 0.
unfoldable pub read_io : InterruptRegisters → GpuRegisters → ℕ → ℕ
read_io i r address =
    if address == 0xFF0F
    then i.request
    else if leb 0xFF40 address && leb address 0xFF4B
    then gpu_read_register address r
    else 0

-- `cartridge.mbc->readByte(address)`, cut to a byte.
unfoldable pub read_cartridge : Cartridge → ℕ → Option ℕ
read_cartridge c address = elim (mbc_read_byte c address) [ none ↦ none | some v ↦ some (u8 v) ]

-- The last test of the source, `address == 0xFFFF`, holds where it is reached.
unfoldable pub read_memory : Machine → ℕ → Option ℕ
read_memory m address =
    if ltb address 0x8000
    then read_cartridge m.cartridge address
    else if ltb address 0xA000
    then some (gpu_read_byte m.gpu.vram address)
    else if ltb address 0xC000
    then read_cartridge m.cartridge address
    else if ltb address 0xE000
    then some (m.work_ram (address - 0xC000))
    else if ltb address 0xFE00
    then some (m.work_ram (address - 0xE000))
    else if ltb address 0xFEA0
    then some (m.oam (address - 0xFE00))
    else if ltb address 0xFF00
    then some 0
    else if ltb address 0xFF80
    then some (read_io m.interrupts m.gpu.registers address)
    else if ltb address 0xFFFF
    then some (m.high_ram (address - 0xFF80))
    else if address == 0xFFFF
    then some m.interrupts.enable
    else some 0

-- No read changes the machine.
unfoldable pub mmu_read_byte : ℕ → Command ℕ
mmu_read_byte address m = elim (read_memory m address) [ none ↦ none | some v ↦ some (v, m) ]

unfoldable pub mmu_read_short : ℕ → Command ℕ
mmu_read_short address = do
  low ← mmu_read_byte address
  high ← mmu_read_byte (u16 (address + 1))
  pure (bit_or low (high <<< 8))

unfoldable pub write_io : ℕ → ℕ → Machine → Machine
write_io address value m =
    if address == 0xFF0F
    then record m { interrupts = write_interrupt address value m.interrupts }
    else if leb 0xFF40 address && leb address 0xFF4B
    then record m { gpu = gpu_write_register address value m.gpu }
    else record m { io_ports = update m.io_ports (address - 0xFF00) value }

unfoldable pub write_cartridge : ℕ → ℕ → Command ℕ
write_cartridge address value m = elim (mbc_write_byte m.cartridge address value) [
  | none ↦ none
  | some (status, c) ↦ some (status, record m { cartridge = c })
]

-- `gpuWriteByte` with the dump in front of its `return 1`.
unfoldable pub write_video : ℕ → ℕ → Command ℕ
write_video address value m =
    let (status, g) = gpu_write_byte address value m.gpu in
    let m1 = record m { gpu = g } in
    if status == 1
    then elim (gpu_write_vram_to_file m1) [ none ↦ none | some (_, m2) ↦ some (status, m2) ]
    else some (status, m1)

unfoldable pub mmu_write_byte : ℕ → ℕ → Command ℕ
mmu_write_byte address value m =
    if ltb address 0x8000
    then write_cartridge address value m
    else if ltb address 0xA000
    then write_video address value m
    else if ltb address 0xC000
    then write_cartridge address value m
    else if ltb address 0xE000
    then some (1, record m { work_ram = update m.work_ram (address - 0xC000) value })
    else if ltb address 0xFE00
    then some (1, record m { work_ram = update m.work_ram (address - 0xE000) value })
    else if ltb address 0xFEA0
    then some (1, record m { oam = update m.oam (address - 0xFE00) value })
    else if ltb address 0xFF00
    then some (0, m)
    else if ltb address 0xFF80
    then some (1, write_io address value m)
    else if ltb address 0xFFFF
    then some (1, record m { high_ram = update m.high_ram (address - 0xFF80) value })
    else if address == 0xFFFF
    then some (1, record m { interrupts = write_interrupt address value m.interrupts })
    else some (0, m)

unfoldable pub mmu_write_short : ℕ → ℕ → Command ℕ
mmu_write_short address value = do
  _ ← mmu_write_byte address (bit_and value 0xFF)
  mmu_write_byte (u16 (address + 1)) (bit_and value 0xFF00 >>> 8)
