-- ===== src/Cpu/Load.antt =====
-- src/cpu.c: the 8-bit loads, and the 16-bit loads that set no flag.
pub mod Laws
use game_bloat.Prelude.{ℕ, ◌+◌, ◌%◌, ◌^◌, u8, u16}
use game_bloat.Registers.{Registers, ByteRegister, WordRegister, set8, set16, hl}
use game_bloat.Cpu.Flags.{flag_carry, check_flag}
use game_bloat.Machine.{Command, ◌>>=◌, ◌>>◌, pure, on_registers, get_registers}
use game_bloat.Memory.{mmu_read_byte, mmu_write_byte, mmu_write_short}

unfoldable pub ld_r_s : ByteRegister → ℕ → Command (Unit {0})
ld_r_s r n = on_registers (set8 r n)

-- `mmuWriteByte` with its result dropped.
abbrev pub store : (address value : ℕ) → Command (Unit {0})
store address value = mmu_write_byte address value >> pure tt

unfoldable pub ld_d_r : ℕ → Command (Unit {0})
ld_d_r r = do x ← get_registers; store (hl x) r

unfoldable pub ld_d_n : ℕ → Command (Unit {0})
ld_d_n n = do x ← get_registers; store (hl x) n

unfoldable pub ld_a_ss : ℕ → Command (Unit {0})
ld_a_ss address = do v ← mmu_read_byte address; on_registers λ r. record r { a = v }

unfoldable pub ld_dd_a : ℕ → Command (Unit {0})
ld_dd_a address = do r ← get_registers; store address r.a

-- The port is chosen by the carry flag.
unfoldable pub ld_a_c : Command (Unit {0})
ld_a_c = do
  r ← get_registers
  v ← mmu_read_byte (0xFF00 + check_flag flag_carry r)
  on_registers λ r'. record r' { a = v }

unfoldable pub ld_c_a : Command (Unit {0})
ld_c_a = do r ← get_registers; store (0xFF00 + check_flag flag_carry r) r.a

-- `registers.HL -= 1` and `registers.HL += 1`.
abbrev pub step_hl : ℕ → Registers → Registers
step_hl n r = set16 WordRegister.reg_hl (u16 (hl r + n)) r

unfoldable pub ldd_a_mhl : Command (Unit {0})
ldd_a_mhl = do
  r ← get_registers
  v ← mmu_read_byte (hl r)
  on_registers (λ r'. record r' { a = v })
  on_registers (step_hl 0xFFFF)

unfoldable pub ldd_mhl_a : Command (Unit {0})
ldd_mhl_a = do r ← get_registers; store (hl r) r.a; on_registers (step_hl 0xFFFF)

unfoldable pub ldi_a_mhl : Command (Unit {0})
ldi_a_mhl = do
  r ← get_registers
  v ← mmu_read_byte (hl r)
  on_registers (λ r'. record r' { a = v })
  on_registers (step_hl 1)

unfoldable pub ldi_mhl_a : Command (Unit {0})
ldi_mhl_a = do r ← get_registers; store (hl r) r.a; on_registers (step_hl 1)

unfoldable pub ldh_n_a : ℕ → Command (Unit {0})
ldh_n_a n = do r ← get_registers; store (0xFF00 + n) r.a

unfoldable pub ldh_a_n : ℕ → Command (Unit {0})
ldh_a_n n = do v ← mmu_read_byte (0xFF00 + n); on_registers λ r. record r { a = v }

unfoldable pub ld_dd_nn : WordRegister → ℕ → Command (Unit {0})
ld_dd_nn dd nn = on_registers (set16 dd nn)

unfoldable pub ld_nn_sp : ℕ → Command (Unit {0})
ld_nn_sp nn = do r ← get_registers; mmu_write_short nn r.sp; pure tt

unfoldable pub ld_sp_hl : Command (Unit {0})
ld_sp_hl = on_registers λ r. record r { sp = hl r }
