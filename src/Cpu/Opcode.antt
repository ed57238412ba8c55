-- ===== src/Cpu/Opcode.antt =====
-- include/opcode.h: an entry of the opcode tables. `Instruction` names the body of the entry's
-- function: the function of src/cpu.c that it calls, and the arguments of the call.
pub mod Base
pub mod Cb
pub mod Decode
pub mod Operands
use game_bloat.Prelude.{ℕ}
use game_bloat.Registers.{ByteRegister, WordRegister}

pub data OperandType : Type 0 where
  no_operands operand_char operand_short : OperandType

-- The bytes of operand that follow the instruction.
abbrev pub operand_bytes : OperandType → ℕ
operand_bytes no_operands = 0
operand_bytes operand_char = 1
operand_bytes operand_short = 2

-- The conditions of include/opcode.h.
abbrev pub flag_not_set : ℕ
flag_not_set = 0

abbrev pub flag_set : ℕ
flag_set = 1

-- `registers.B`, `mmuReadByte(registers.HL)`, or the function's parameter.
pub data Operand : Type 0 where
  reg : ByteRegister → Operand
  at : WordRegister → Operand
  immediate : Operand

-- `registers.BC`, or the function's parameter.
pub data Address : Type 0 where
  pair : WordRegister → Address
  immediate_address : Address

pub data Instruction : Type 0 where
  nop undefined ext_ops stop halt daa cpl scf ccf di ei reti ret rlc_a rl_a rrc_a rr_a ldi_a_mhl
        ldi_mhl_a ldd_a_mhl ldd_mhl_a ld_d_n ldh_a_n ld_nn_sp ld_sp_hl ld_hl_sp_e add_sp_e jr_e
        jp_nn jp_mhl jp_hl ld_a_c call_nn inc_shl dec_shl swap_shl rlc_shl rl_shl rrc_shl rr_shl
        sla_shl sra_shl srl_shl :
      Instruction
  add_s adc_s sub_s sbc_s and_s or_s xor_s cmp_s : Operand → Instruction
  ld_d_r inc_s dec_s swap_s rlc_s rl_s rrc_s rr_s sla_s sra_s srl_s : ByteRegister → Instruction
  ld_dd_nn push_ss pop_dd add_hl_ss inc_ss dec_ss : WordRegister → Instruction
  ld_r_s : ByteRegister → Operand → Instruction
  ldh_n_a : Operand → Instruction
  ld_dd_a ld_a_ss : Address → Instruction
  jr_cc_e jp_cc_nn call_cc_nn ret_cc : (flag condition : ℕ) → Instruction
  rst_f bit_b_shl set_b_shl res_b_shl : ℕ → Instruction
  bit_b_s set_b_s res_b_s : ℕ → ByteRegister → Instruction

pub record Opcode : Type 0 where
  pub operand_type : OperandType
  pub function : Instruction

abbrev pub op : OperandType → Instruction → Opcode
op t i = record { operand_type = t; function = i }
