-- ===== src/Memory/Ram.antt =====
-- src/memory.c: work RAM and its echo, the object attributes and high RAM, as one store of cells.
use game_bloat.Prelude.{
  ℕ, ◌-◌, ◌≡◌, ◌≢◌, refl, arith, some, Bool, true, ltb, leb, ◌==◌, ◌&&◌, ◌||◌, if◌then◌else◌,
  update,
}
use game_bloat.Registers.{Registers}
use game_bloat.Machine.{Machine}
use game_bloat.Memory.{read_memory, mmu_write_byte}

-- The addresses of RAM on the console itself.
abbrev pub is_ram : ℕ → Bool
is_ram a = leb 0xC000 a && ltb a 0xFEA0 || leb 0xFF80 a && ltb a 0xFFFF

-- The address that a RAM address stands for: 0xE000-0xFDFF repeats 0xC000-0xDDFF.
abbrev pub canonical : ℕ → ℕ
canonical a = if leb 0xE000 a && ltb a 0xFE00 then a - 0x2000 else a

-- The machine with `v` in the cell of `a`.
pub store_ram : ℕ → ℕ → Machine → Machine
store_ram a v m =
    if ltb a 0xFE00
    then record m { work_ram = update m.work_ram (canonical a - 0xC000) v }
    else if ltb a 0xFEA0
    then record m { oam = update m.oam (a - 0xFE00) v }
    else record m { high_ram = update m.high_ram (a - 0xFF80) v }

pub mmu_write_byte-ram :
    (a v : ℕ) (m : Machine) → is_ram a ≡ true → mmu_write_byte a v m ≡ some (1, store_ram a v m)
unfolding mmu_write_byte store_ram
mmu_write_byte-ram a v m ram = ground arith

-- Everything outside the three arrays stays.
store_ram-frame :
    (a v : ℕ) (m : Machine)
    → let m' = store_ram a v m in
      (m'.registers ≡ m.registers)
      × (m'.interrupts ≡ m.interrupts)
      × (m'.gpu ≡ m.gpu)
      × (m'.cartridge ≡ m.cartridge)
      × (m'.tick_counter ≡ m.tick_counter)
unfolding store_ram
store_ram-frame a v m = ground arith

pub store_ram-interrupts : (a v : ℕ) (m : Machine) → (store_ram a v m).interrupts ≡ m.interrupts
unfolding store_ram
store_ram-interrupts a v m = ground arith

pub store_ram-registers : (a v : ℕ) (m : Machine) → (store_ram a v m).registers ≡ m.registers
store_ram-registers a v m = (store_ram-frame a v m).0

-- A store into RAM commutes with a change of the registers.
pub store_ram-set_registers :
    (a v : ℕ) (m : Machine) (r : Registers)
    → record (store_ram a v m) { registers = r } ≡ store_ram a v (record m { registers = r })
unfolding store_ram
store_ram-set_registers a v m r = ground arith

pub read_memory-set_registers :
    (b : ℕ) (m : Machine) (r : Registers)
    → read_memory (record m { registers = r }) b ≡ read_memory m b
unfolding read_memory
read_memory-set_registers b m r = refl

-- After a write to RAM, a read of any address gives the value if it is the same cell, the echo
-- included, and what it gave before otherwise.
read_memory-store_ram :
    (a b v : ℕ) (m : Machine)
    → is_ram a ≡ true
    → read_memory (store_ram a v m) b
      ≡ (if canonical a == canonical b then some v else read_memory m b)
unfolding read_memory store_ram
read_memory-store_ram a b v m ram = ground arith

pub read_memory_self :
    (a v : ℕ) (m : Machine) → is_ram a ≡ true → read_memory (store_ram a v m) a ≡ some v
read_memory_self a v m ram = ground (arith, read_memory-store_ram a a v m ram)

pub read_memory_other :
    (a b v : ℕ) (m : Machine)
    → is_ram a ≡ true
    → canonical a ≢ canonical b
    → read_memory (store_ram a v m) b ≡ read_memory m b
read_memory_other a b v m ram ne = ground (arith, read_memory-store_ram a b v m ram)

-- A write to RAM succeeds, and then a read of any address gives the value if it is the same cell,
-- the echo included, and what it gave before otherwise.
pub read_memory-write_byte :
    (a b v : ℕ) (m : Machine)
    → is_ram a ≡ true
    → (m' : Machine) × (mmu_write_byte a v m ≡ some (1, m'))
      × (read_memory m' b ≡ (if canonical a == canonical b then some v else read_memory m b))
read_memory-write_byte a b v m ram =
    (store_ram a v m, mmu_write_byte-ram a v m ram, read_memory-store_ram a b v m ram)
