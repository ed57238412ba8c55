-- ===== src/Cpu/Reset.antt =====
-- src/cpu.c: `cpuReset`, with the tables of src/cpu_constants.c.
pub mod Laws
use game_bloat.Prelude.{ℕ, List, [], ◌∷◌}
use game_bloat.Registers.{WordRegister, set16}
use game_bloat.Machine.{Command, ◌>>◌, pure, on_registers}
use game_bloat.Memory.{mmu_write_byte}

abbrev pub reset_addresses : List ℕ
reset_addresses =
    0xFF05 ∷ 0xFF06 ∷ 0xFF07 ∷ 0xFF10 ∷ 0xFF11 ∷ 0xFF12 ∷ 0xFF14 ∷ 0xFF16 ∷ 0xFF17 ∷ 0xFF19 ∷ 0xFF1A
    ∷ 0xFF1B ∷ 0xFF1C ∷ 0xFF1E ∷ 0xFF20 ∷ 0xFF21 ∷ 0xFF22 ∷ 0xFF23 ∷ 0xFF24 ∷ 0xFF25 ∷ 0xFF26
    ∷ 0xFF40 ∷ 0xFF42 ∷ 0xFF43 ∷ 0xFF45 ∷ 0xFF47 ∷ 0xFF48 ∷ 0xFF49 ∷ 0xFF4A ∷ 0xFF4B ∷ []

abbrev pub reset_values : List ℕ
reset_values =
    0x00 ∷ 0x00 ∷ 0x00 ∷ 0x80 ∷ 0xBF ∷ 0xF3 ∷ 0xBF ∷ 0x3F ∷ 0x00 ∷ 0xBF ∷ 0x7F ∷ 0xFF ∷ 0x9F ∷ 0xBF
    ∷ 0xFF ∷ 0x00 ∷ 0x00 ∷ 0xBF ∷ 0x77 ∷ 0xF3 ∷ 0xF1 ∷ 0x91 ∷ 0x00 ∷ 0x00 ∷ 0x00 ∷ 0xFC ∷ 0xFF
    ∷ 0xFF ∷ 0x00 ∷ 0x00 ∷ []

-- The loop over the two tables, which have the same number of entries.
unfoldable pub write_reset_values : (addresses values : List ℕ) → Command (Unit {0})
write_reset_values [] _ = pure tt
write_reset_values (_ ∷ _) [] = pure tt
write_reset_values (address ∷ addresses) (value ∷ values) =
    mmu_write_byte address value >> write_reset_values addresses values

unfoldable pub cpu_reset : Command (Unit {0})
unfolding write_reset_values
cpu_reset = do
  on_registers λ r.
      let r1 = set16 WordRegister.reg_af 0x01B0 r in
      let r2 = set16 WordRegister.reg_bc 0x0013 r1 in
      let r3 = set16 WordRegister.reg_de 0x00D8 r2 in
      let r4 = set16 WordRegister.reg_hl 0x014D r3 in record r4 { sp = 0xFFFE; pc = 0x0100 }
  write_reset_values reset_addresses reset_values
  λ m. pure tt (record m { interrupts = record (m.interrupts) { enable = 0 }; tick_counter = 0 })
