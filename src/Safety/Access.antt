-- ===== src/Safety/Access.antt =====
-- src/memory.c: reads and writes keep the machine's invariant.
use game_bloat.Prelude.{
  ℕ, ◌+◌, ◌-◌, ◌<◌, ◌≡◌, ◌≢◌, refl, arith, Option, none, some, Bool, true, u16, Bool-cases, inl,
  inr,
}
use game_bloat.Gpu.Control.{gpu_read_register}
use game_bloat.Gpu.Tiles.{gpu_read_byte}
use game_bloat.Mbc.{Cartridge, mbc_read_byte, read_controller}
use game_bloat.Mbc.RomOnly
use game_bloat.Machine.{Machine}
use game_bloat.Memory.{read_memory, read_cartridge, read_io, mmu_read_byte, mmu_read_short}
use game_bloat.Memory.Map.{bit_or-bytes}
use game_bloat.Safety.{IsWell, Outcome, undefined, returned, after, has_room, room_of}

-- A cartridge with room is read everywhere.
mbc_read_byte-room :
    (c : Cartridge) (address : ℕ)
    → has_room c.controller c.rom.size c.ram.size ≡ true
    → mbc_read_byte c address ≢ none
unfolding has_room mbc_read_byte read_controller RomOnly.read_byte
mbc_read_byte-room c address room fails = ground arith

read_io-lt :
    {free : Bool} (m : Machine) (address : ℕ)
    → IsWell free m
    → read_io m.interrupts m.gpu.registers address < 256
unfolding read_io gpu_read_register
read_io-lt m address well = let b = well.gpu_bytes in let r = well.request_fits in ground arith

read_memory-lt :
    {free : Bool} (m : Machine) (address value : ℕ)
    → IsWell free m
    → read_memory m address ≡ some value
    → value < 256
unfolding read_memory read_cartridge gpu_read_byte
read_memory-lt m address value well read =
    let e = well.enable_fits in
    ground (
      arith,
      well.work_ram_bytes (address - 0xC000),
      well.work_ram_bytes (address - 0xE000),
      well.oam_bytes (address - 0xFE00),
      well.high_ram_bytes (address - 0xFF80),
      read_io-lt m address well,
    )

read_memory-none :
    {free : Bool} (m : Machine) (address : ℕ)
    → IsWell free m
    → read_memory m address ≡ none
    → free ≡ true
unfolding read_memory read_cartridge
read_memory-none {free} m address well fails = elim (Bool-cases free) [
  | inl is_free ↦ is_free
  | inr bound ↦
      absurd
        (let r = mbc_read_byte-room m.cartridge address (room_of well bound) in ground (arith, r))
]

read_outcome :
    {free : Bool} (x : Option ℕ) (m : Machine)
    → ((v : ℕ) → x ≡ some v → v < 256)
    → (x ≡ none → free ≡ true)
    → IsWell free m
    → Outcome free (λ v. v < 256) (elim x [ none ↦ none | some v ↦ some (v, m) ])
read_outcome none m byte free well = undefined (free refl)
read_outcome (some v) m byte free well = returned (byte v refl) well

-- A read gives a byte and keeps the invariant.
mmu_read_byte-Outcome :
    {free : Bool} (address : ℕ) {m : Machine}
    → IsWell free m
    → Outcome free (λ v. v < 256) (mmu_read_byte address m)
unfolding mmu_read_byte
mmu_read_byte-Outcome address {m} well =
    read_outcome (read_memory m address) m (λ v. read_memory-lt m address v well)
      (read_memory-none m address well) well

pub mmu_read_short-Outcome :
    {free : Bool} (address : ℕ) {m : Machine}
    → IsWell free m
    → Outcome free (λ v. v < 65536) (mmu_read_short address m)
unfolding mmu_read_short
mmu_read_short-Outcome address well =
    after (mmu_read_byte-Outcome address well) λ low m low_fits well1.
      after (mmu_read_byte-Outcome (u16 (address + 1)) well1) λ high m' high_fits well2.
        returned (let whole = bit_or-bytes low high low_fits high_fits in omega arith) well2

read_then :
    {free : Bool} {B : Type 0} {Q : B → Type 0} (x : Option ℕ) (m : Machine)
    (f : ℕ → Machine → Option (B × Machine))
    → ((v : ℕ) → x ≡ some v → v < 256)
    → (x ≡ none → free ≡ true)
    → ((v : ℕ) → v < 256 → Outcome free Q (f v m))
    → Outcome free Q
        (elim (elim x as (λ _. Option (ℕ × Machine)) [ none ↦ none | some v ↦ some (v, m) ]) [
          | none ↦ none
          | some (v, m') ↦ f v m'
        ])
read_then none m f byte nothing next = undefined (nothing refl)
read_then (some v) m f byte nothing next = next v (byte v refl)

-- What follows a read works on the same machine.
pub after_read :
    {free : Bool} {B : Type 0} {Q : B → Type 0} (address : ℕ) {m : Machine}
    (f : ℕ → Machine → Option (B × Machine))
    → IsWell free m
    → ((v : ℕ) → v < 256 → Outcome free Q (f v m))
    → Outcome free Q (elim (mmu_read_byte address m) [ none ↦ none | some (v, m') ↦ f v m' ])
unfolding mmu_read_byte
after_read address {m} f well next =
    read_then (read_memory m address) m f (λ v. read_memory-lt m address v well)
      (read_memory-none m address well) next
