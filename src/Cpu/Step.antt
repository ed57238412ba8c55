-- ===== src/Cpu/Step.antt =====
-- src/cpu.c: `DetermineOpcode`, `DetermineOperand`, `ExecuteOpcode` and `cpuStep`, and the bodies
-- of the functions in the opcode tables.
pub mod Laws
pub mod Arithmetic
use game_bloat.Prelude.{
  ℕ, ◌+◌, ◌-◌, ◌%◌, ◌^◌, List, [], ◌∷◌, Option, none, some, ◌==◌, if◌then◌else◌, zero, suc, u8, u16,
  u32,
}
use game_bloat.Registers.{Registers, get8, get16, hl}
use game_bloat.Machine.{
  Machine, Command, ◌>>=◌, ◌>>◌, pure, on_registers, get_registers, gpu_write_vram_to_file,
}
use game_bloat.Memory.{mmu_read_byte, mmu_read_short}
use game_bloat.Cpu.Opcode.{Opcode, Instruction, OperandType, Operand, Address, operand_bytes, op}
use game_bloat.Cpu.Opcode.Base.{base_opcode_table, base_opcode_ticks}
use game_bloat.Cpu.Opcode.Cb.{cb_opcode_table, cb_opcode_ticks}
use game_bloat.Cpu.Alu.{
  add_s, adc_s, sub_s, sbc_s, and_s, or_s, xor_s, cmp_s, inc_s, dec_s, daa, cpl, ccf, scf,
}
use game_bloat.Cpu.Shift.{
  rlc_a, rl_a, rrc_a, rr_a, rlc_s, rl_s, rrc_s, rr_s, sla_s, sra_s, srl_s, swap_s, bit_b_s, set_b_s,
  res_b_s,
}
use game_bloat.Cpu.Wide.{add_hl_ss, add_sp_e, ld_hl_sp_e, inc_ss, dec_ss}
use game_bloat.Cpu.Load.{
  ld_r_s, ld_d_r, ld_d_n, ld_a_ss, ld_dd_a, ldd_a_mhl, ldd_mhl_a, ldi_a_mhl, ldi_mhl_a, ldh_n_a,
  ldh_a_n, ld_a_c, ld_dd_nn, ld_nn_sp, ld_sp_hl,
}
use game_bloat.Cpu.Control.{
  add_ticks, jp_nn, jp_hl, jp_cc_nn, jr_e, jr_cc_e, call_nn, call_cc_nn, rst_f, ret, ret_cc, di, ei,
  reti, halt, stop, push_ss, pop_dd,
}
use game_bloat.Cpu.Indirect.{
  inc_shl, dec_shl, swap_shl, rlc_shl, rl_shl, rrc_shl, rr_shl, sla_shl, sra_shl, srl_shl,
  bit_b_shl, set_b_shl, res_b_shl,
}

abbrev pub read_operand : Operand → ℕ → Command ℕ
read_operand (Operand.reg r) n = get_registers >>= λ x. pure (get8 r x)
read_operand (Operand.at w) n = get_registers >>= λ x. mmu_read_byte (get16 w x)
read_operand Operand.immediate n = pure n

abbrev pub read_address : Address → ℕ → Command ℕ
read_address (Address.pair w) n = get_registers >>= λ x. pure (get16 w x)
read_address Address.immediate_address n = pure n

-- The call of a function in a table with its operand.
unfoldable pub execute : Instruction → ℕ → Command (Unit {0})
execute Instruction.nop n = pure tt
execute Instruction.undefined n = pure tt
execute Instruction.ext_ops n = pure tt
execute Instruction.stop n = stop
execute Instruction.halt n = halt
execute Instruction.daa n = on_registers daa
execute Instruction.cpl n = on_registers cpl
execute Instruction.scf n = on_registers scf
execute Instruction.ccf n = on_registers ccf
execute Instruction.di n = di
execute Instruction.ei n = ei
execute Instruction.reti n = reti
execute Instruction.ret n = ret
execute Instruction.rlc_a n = on_registers rlc_a
execute Instruction.rl_a n = on_registers rl_a
execute Instruction.rrc_a n = on_registers rrc_a
execute Instruction.rr_a n = on_registers rr_a
execute Instruction.ldi_a_mhl n = ldi_a_mhl
execute Instruction.ldi_mhl_a n = ldi_mhl_a
execute Instruction.ldd_a_mhl n = ldd_a_mhl
execute Instruction.ldd_mhl_a n = ldd_mhl_a
execute Instruction.ld_d_n n = ld_d_n n
execute Instruction.ldh_a_n n = ldh_a_n n
execute Instruction.ld_nn_sp n = ld_nn_sp n
execute Instruction.ld_sp_hl n = ld_sp_hl
execute Instruction.ld_hl_sp_e n = on_registers (ld_hl_sp_e n)
execute Instruction.add_sp_e n = on_registers (add_sp_e n)
execute Instruction.jr_e n = jr_e n
execute Instruction.jp_nn n = jp_nn n
execute Instruction.jp_mhl n = get_registers >>= λ r. mmu_read_short (hl r) >>= jp_nn
execute Instruction.jp_hl n = jp_hl
execute Instruction.ld_a_c n = ld_a_c
execute Instruction.call_nn n = call_nn n
execute Instruction.inc_shl n = inc_shl
execute Instruction.dec_shl n = dec_shl
execute Instruction.swap_shl n = swap_shl
execute Instruction.rlc_shl n = rlc_shl
execute Instruction.rl_shl n = rl_shl
execute Instruction.rrc_shl n = rrc_shl
execute Instruction.rr_shl n = rr_shl
execute Instruction.sla_shl n = sla_shl
execute Instruction.sra_shl n = sra_shl
execute Instruction.srl_shl n = srl_shl
execute (Instruction.add_s s) n = read_operand s n >>= λ v. on_registers (add_s v)
execute (Instruction.adc_s s) n = read_operand s n >>= λ v. on_registers (adc_s v)
execute (Instruction.sub_s s) n = read_operand s n >>= λ v. on_registers (sub_s v)
execute (Instruction.sbc_s s) n = read_operand s n >>= λ v. on_registers (sbc_s v)
execute (Instruction.and_s s) n = read_operand s n >>= λ v. on_registers (and_s v)
execute (Instruction.or_s s) n = read_operand s n >>= λ v. on_registers (or_s v)
execute (Instruction.xor_s s) n = read_operand s n >>= λ v. on_registers (xor_s v)
execute (Instruction.cmp_s s) n = read_operand s n >>= λ v. on_registers (cmp_s v)
execute (Instruction.ld_d_r r) n = get_registers >>= λ x. ld_d_r (get8 r x)
execute (Instruction.inc_s r) n = on_registers (inc_s r)
execute (Instruction.dec_s r) n = on_registers (dec_s r)
execute (Instruction.swap_s r) n = on_registers (swap_s r)
execute (Instruction.rlc_s r) n = on_registers (rlc_s r)
execute (Instruction.rl_s r) n = on_registers (rl_s r)
execute (Instruction.rrc_s r) n = on_registers (rrc_s r)
execute (Instruction.rr_s r) n = on_registers (rr_s r)
execute (Instruction.sla_s r) n = on_registers (sla_s r)
execute (Instruction.sra_s r) n = on_registers (sra_s r)
execute (Instruction.srl_s r) n = on_registers (srl_s r)
execute (Instruction.ld_dd_nn w) n = ld_dd_nn w n
execute (Instruction.push_ss w) n = get_registers >>= λ x. push_ss (get16 w x)
execute (Instruction.pop_dd w) n = pop_dd w
execute (Instruction.add_hl_ss w) n = get_registers >>= λ x. on_registers (add_hl_ss (get16 w x))
execute (Instruction.inc_ss w) n = on_registers (inc_ss w)
execute (Instruction.dec_ss w) n = on_registers (dec_ss w)
execute (Instruction.ld_r_s r s) n = read_operand s n >>= ld_r_s r
execute (Instruction.ldh_n_a s) n = read_operand s n >>= ldh_n_a
execute (Instruction.ld_dd_a a) n = read_address a n >>= ld_dd_a
execute (Instruction.ld_a_ss a) n = read_address a n >>= ld_a_ss
execute (Instruction.jr_cc_e flag condition) n = jr_cc_e n flag condition
execute (Instruction.jp_cc_nn flag condition) n = jp_cc_nn n flag condition
execute (Instruction.call_cc_nn flag condition) n = call_cc_nn n flag condition
execute (Instruction.ret_cc flag condition) n = ret_cc flag condition
execute (Instruction.rst_f f) n = rst_f f
execute (Instruction.bit_b_shl b) n = bit_b_shl b
execute (Instruction.set_b_shl b) n = set_b_shl b
execute (Instruction.res_b_shl b) n = res_b_shl b
execute (Instruction.bit_b_s b r) n = on_registers (bit_b_s b r)
execute (Instruction.set_b_s b r) n = on_registers (set_b_s b r)
execute (Instruction.res_b_s b r) n = on_registers (res_b_s b r)

-- `table[i]`, or `otherwise` past the end.
unfoldable pub entry {ℓ} : {A : Type ℓ} → A → List A → ℕ → A
entry otherwise [] i = otherwise
entry otherwise (x ∷ xs) zero = x
entry otherwise (x ∷ xs) (suc i) = entry otherwise xs i

abbrev pub no_opcode : Opcode
no_opcode = op OperandType.no_operands Instruction.undefined

-- `mmuReadByte(registers.PC++)`.
abbrev pub fetch : Command ℕ
fetch = do
  r ← get_registers
  on_registers (λ r'. record r' { pc = u16 (r'.pc + 1) })
  mmu_read_byte r.pc

abbrev look_up : List Opcode → List ℕ → ℕ → Command Opcode
look_up table ticks i = do add_ticks (entry 0 ticks i); pure (entry no_opcode table i)

unfoldable pub determine_opcode : Command Opcode
unfolding entry
determine_opcode = do
  i ← fetch
  (if i == 0xCB
      then fetch >>= look_up cb_opcode_table cb_opcode_ticks
      else look_up base_opcode_table base_opcode_ticks i)

abbrev pub read_immediate : OperandType → ℕ → Command ℕ
read_immediate OperandType.no_operands address = pure 0
read_immediate OperandType.operand_char address = mmu_read_byte address
read_immediate OperandType.operand_short address = mmu_read_short address

unfoldable pub determine_operand : Opcode → Command ℕ
determine_operand o = do
  r ← get_registers
  n ← read_immediate o.operand_type r.pc
  on_registers (λ r'. record r' { pc = u16 (r'.pc + operand_bytes o.operand_type) })
  pure n

unfoldable pub execute_opcode : Opcode → ℕ → Command (Unit {0})
unfolding execute
execute_opcode o n = elim (o.operand_type) [
  | OperandType.operand_char ↦ execute o.function (u8 n)
  | OperandType.operand_short ↦ execute o.function n
  | OperandType.no_operands ↦ execute o.function 0
]

-- `cpuStep` behind its dump: the ticks used, an `int` as its 32 bits.
unfoldable pub next_instruction : Command ℕ
unfolding determine_opcode determine_operand execute_opcode
next_instruction m =
    (do
      o ← determine_opcode
      n ← determine_operand o
      execute_opcode o n
      λ m'. pure (u32 (m'.tick_counter + 2 ^ 64 - m.tick_counter)) m')
      m

-- At one address the tiles are dumped first.
unfoldable pub cpu_step : Command ℕ
unfolding next_instruction
cpu_step m =
    if m.registers.pc == 0x282A
    then (gpu_write_vram_to_file >> next_instruction) m
    else next_instruction m
