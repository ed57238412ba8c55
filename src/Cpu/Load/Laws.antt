-- ===== src/Cpu/Load/Laws.antt =====
-- src/cpu.c: the loads that step HL, over RAM.
use game_bloat.Prelude.{◌≡◌, arith, some, true}
use game_bloat.Registers.{hl}
use game_bloat.Machine.{Machine}
use game_bloat.Memory.{mmu_read_byte}
use game_bloat.Memory.Ram.{
  is_ram, store_ram, mmu_write_byte-ram, store_ram-registers, read_memory_self,
}
use game_bloat.Cpu.Load.{ldi_mhl_a, ldd_mhl_a, ldi_a_mhl, ldd_a_mhl, step_hl}

-- LDI (HL),A and LDD (HL),A put A in the byte at HL, where HL points to RAM, and move HL by one
-- up or down, modulo 65536; LDI A,(HL) and LDD A,(HL) then read that byte back from where HL was.
stepped_loads :
    (m : Machine)
    → is_ram (hl m.registers) ≡ true
    → let stored = store_ram (hl m.registers) m.registers.a m in
      (ldi_mhl_a m ≡ some (tt, record stored { registers = step_hl 1 m.registers }))
      × (ldd_mhl_a m ≡ some (tt, record stored { registers = step_hl 0xFFFF m.registers }))
      × (ldi_a_mhl stored ≡ some (tt, record stored { registers = step_hl 1 m.registers }))
      × (ldd_a_mhl stored ≡ some (tt, record stored { registers = step_hl 0xFFFF m.registers }))
unfolding ldi_mhl_a ldd_mhl_a ldi_a_mhl ldd_a_mhl mmu_read_byte
stepped_loads m ram =
    let write = mmu_write_byte-ram (hl m.registers) m.registers.a m ram in
    let back = read_memory_self (hl m.registers) m.registers.a m ram in
    let same = store_ram-registers (hl m.registers) m.registers.a m in
    (ground arith, ground arith, ground arith, ground arith)
