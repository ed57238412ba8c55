-- ===== src/Memory/Map.antt =====
-- src/memory.c: the regions behind a device, and what a write can reach.
use game_bloat.Prelude.{
  ℕ, ◌+◌, ◌-◌, ◌*◌, ◌/◌, ◌%◌, ◌<◌, ◌≤◌, ◌≡◌, ◌≢◌, refl, arith, some, true, ◌==◌, ◌⊎◌, update,
  bit_and, bit_or, u16, ◌<<<◌, ◌>>>◌, inl, inr, ==_iff, ◌∙◌,
}
use game_bloat.Prelude.Bytes.{all_below, all_below_sound, bit_and-low_byte, bit_and-high_byte_word}
use game_bloat.Gpu.Tiles.{gpu_read_byte, gpu_write_byte}
use game_bloat.Gpu.Control.{gpu_write_register}
use game_bloat.Gpu.Step.Laws.{IsValid}
use game_bloat.Gpu.Invariant.{gpu_write_byte-IsValid, gpu_write_register-IsValid}
use game_bloat.Mbc.{Cartridge, mbc_write_byte}
use game_bloat.Machine.{Machine}
use game_bloat.Memory.{
  read_memory, read_io, write_io, write_cartridge, write_video, mmu_write_byte, mmu_read_byte,
  mmu_read_short, mmu_write_short,
}
use game_bloat.Memory.Ram.{
  is_ram, canonical, store_ram, mmu_write_byte-ram, read_memory_self, read_memory_other,
}

-- Every read of video memory gives 0, whatever the memory holds: `gpuReadByte` is handed the
-- address on the bus, which is never below 0x2000.
read_memory-video : (a : ℕ) (m : Machine) → 0x8000 ≤ a → a < 0xA000 → read_memory m a ≡ some 0
unfolding read_memory gpu_read_byte
read_memory-video a m lo hi = ground arith

-- 0xFEA0-0xFEFF refuses a write, changes nothing, and reads as 0.
unusable_region :
    (a v : ℕ) (m : Machine)
    → 0xFEA0 ≤ a
    → a < 0xFF00
    → (mmu_write_byte a v m ≡ some (0, m)) × (read_memory m a ≡ some 0)
unfolding read_memory mmu_write_byte
unusable_region a v m lo hi = ground arith

-- A port with no device behind it takes a write and reads as 0.
write_io-lost :
    (a v : ℕ) (m : Machine)
    → 0xFF00 ≤ a
    → a < 0xFF80
    → a ≢ 0xFF0F
    → (a < 0xFF40) ⊎ (0xFF4B < a)
    → (m' : Machine) × (mmu_write_byte a v m ≡ some (1, m'))
      × (read_memory m' a ≡ some 0)
      × (m'.interrupts ≡ m.interrupts)
      × (m'.gpu ≡ m.gpu)
unfolding read_memory mmu_write_byte write_io read_io
write_io-lost a v m lo hi ne no_gpu = (
  record m { io_ports = update m.io_ports (a - 0xFF00) v },
  ground arith,
  ground arith,
  ground arith,
  ground arith,
)

rom_write_controller :
    (c : Cartridge) (a v : ℕ) {s : ℕ} {c' : Cartridge}
    → mbc_write_byte c a v ≡ some (s, c')
    → c'.rom ≡ c.rom
unfolding mbc_write_byte
rom_write_controller c a v done = ground arith

-- The three things that can happen to the GPU.
gpu_after :
    (a v : ℕ) (m : Machine) {s : ℕ} {m' : Machine}
    → mmu_write_byte a v m ≡ some (s, m')
    → (m'.gpu ≡ m.gpu)
      ⊎ (m'.gpu ≡ (gpu_write_byte a v m.gpu).1)
      ⊎ (m'.gpu ≡ gpu_write_register a v m.gpu)
unfolding mmu_write_byte write_video write_cartridge write_io
gpu_after a v m done = ground arith

rest_after :
    (a v : ℕ) (m : Machine) {s : ℕ} {m' : Machine}
    → mmu_write_byte a v m ≡ some (s, m')
    → (m'.registers ≡ m.registers)
      × (m'.tick_counter ≡ m.tick_counter)
      × (m'.cartridge.rom ≡ m.cartridge.rom)
unfolding mmu_write_byte write_video write_cartridge write_io
rest_after a v m {s} {m'} done =
    ground (arith, rom_write_controller m.cartridge a v {s = s} {c' = m'.cartridge})

-- A write, at whatever address, leaves the registers, the ROM and the tick counter as they are,
-- and the GPU valid.
pub mmu_write_byte-safe :
    (a v : ℕ) (m : Machine) {s : ℕ} {m' : Machine}
    → a < 65536
    → v < 256
    → IsValid m.gpu
    → mmu_write_byte a v m ≡ some (s, m')
    → (m'.registers ≡ m.registers)
      × (m'.tick_counter ≡ m.tick_counter)
      × (m'.cartridge.rom ≡ m.cartridge.rom)
      × IsValid m'.gpu
mmu_write_byte-safe a v m {s} {m'} low fits valid done =
    let (registers, ticks, rom) = rest_after a v m done in
    let gpu : IsValid m'.gpu = elim (gpu_after a v m done) [
      | inl same ↦ rw same valid
      | inr (inl video) ↦ rw video (gpu_write_byte-IsValid a v m.gpu low fits valid)
      | inr (inr register) ↦ rw register (gpu_write_register-IsValid a v m.gpu fits valid)
    ] in
    (registers, ticks, rom, gpu)

bytes_table :
    all_below 256 (λ lo. all_below 256 (λ hi. bit_or lo (hi * 256) == hi * 256 + lo)) ≡ true
unfolding all_below
bytes_table = refl

pub bit_or-bytes : (lo hi : ℕ) → lo < 256 → hi < 256 → bit_or lo (hi <<< 8) ≡ hi * 256 + lo
bit_or-bytes lo hi l h =
    (==_iff _ _).0 (all_below_sound 256 _ hi (all_below_sound 256 _ lo bytes_table l) h)

-- A 16-bit value written to two cells of RAM is read back, low byte first.
mmu_read_short-write_short :
    (a w : ℕ) (m : Machine)
    → w < 65536
    → is_ram a ≡ true
    → is_ram (u16 (a + 1)) ≡ true
    → (m' : Machine) × (mmu_write_short a w m ≡ some (1, m'))
      × (read_memory m' a ≡ some (w % 256))
      × (mmu_read_short a m' ≡ some (w, m'))
unfolding mmu_write_short mmu_read_short mmu_read_byte
mmu_read_short-write_short a w m fits here next =
    let m1 = store_ram a (w % 256) m in
    let m2 = store_ram (u16 (a + 1)) (w / 256) m1 in
    let low : bit_and w 0xFF ≡ w % 256 = bit_and-low_byte w fits in
    let high : bit_and w 0xFF00 >>> 8 ≡ w / 256 = omega (arith, bit_and-high_byte_word w fits) in
    let first : mmu_write_byte a (w % 256) m ≡ some (1, m1) =
      mmu_write_byte-ram a (w % 256) m here in
    let second : mmu_write_byte (u16 (a + 1)) (w / 256) m1 ≡ some (1, m2) =
      mmu_write_byte-ram (u16 (a + 1)) (w / 256) m1 next in
    let apart : canonical (u16 (a + 1)) ≢ canonical a = ground arith in
    let read_low : read_memory m2 a ≡ some (w % 256) =
      read_memory_other (u16 (a + 1)) a (w / 256) m1 next apart
      ∙ read_memory_self a (w % 256) m here in
    let read_high : read_memory m2 (u16 (a + 1)) ≡ some (w / 256) =
      read_memory_self (u16 (a + 1)) (w / 256) m1 next in
    let whole : bit_or (w % 256) ((w / 256) <<< 8) ≡ w =
      bit_or-bytes (w % 256) (w / 256) (omega arith) (omega arith) ∙ omega arith in
    (m2, ground arith, read_low, ground arith)
