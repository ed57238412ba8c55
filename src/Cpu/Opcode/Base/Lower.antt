-- ===== src/Cpu/Opcode/Base/Lower.antt =====
-- src/BaseOpcodeTable.c: the functions of the codes 0x00 to 0x7F.
use game_bloat.Prelude.{List, ◌∷◌}
use game_bloat.Registers.{
  reg_a, reg_b, reg_c, reg_d, reg_e, reg_h, reg_l, reg_bc, reg_de, reg_hl, reg_sp,
}
use game_bloat.Cpu.Flags.{flag_zero, flag_carry}
use game_bloat.Cpu.Opcode.{
  Opcode, Instruction, op, no_operands, operand_char, operand_short, reg, at, immediate, pair,
  flag_set, flag_not_set,
}

-- The functions of the codes 0x00 to 0x3F, in front of the entries that follow.
abbrev pub base_opcodes_00 : List Opcode → List Opcode
base_opcodes_00 rest =
    op no_operands Instruction.nop
    ∷ op operand_short (Instruction.ld_dd_nn reg_bc)
    ∷ op no_operands (Instruction.ld_dd_a (pair reg_bc))
    ∷ op no_operands (Instruction.inc_ss reg_bc)
    ∷ op no_operands (Instruction.inc_s reg_b)
    ∷ op no_operands (Instruction.dec_s reg_b)
    ∷ op operand_char (Instruction.ld_r_s reg_b immediate)
    ∷ op no_operands Instruction.rlc_a
    ∷ op operand_short Instruction.ld_nn_sp
    ∷ op no_operands (Instruction.add_hl_ss reg_bc)
    ∷ op no_operands (Instruction.ld_a_ss (pair reg_bc))
    ∷ op no_operands (Instruction.dec_ss reg_bc)
    ∷ op no_operands (Instruction.inc_s reg_c)
    ∷ op no_operands (Instruction.dec_s reg_c)
    ∷ op operand_char (Instruction.ld_r_s reg_c immediate)
    ∷ op no_operands Instruction.rrc_a
    ∷ op no_operands Instruction.stop
    ∷ op operand_short (Instruction.ld_dd_nn reg_de)
    ∷ op no_operands (Instruction.ld_dd_a (pair reg_de))
    ∷ op no_operands (Instruction.inc_ss reg_de)
    ∷ op no_operands (Instruction.inc_s reg_d)
    ∷ op no_operands (Instruction.dec_s reg_d)
    ∷ op operand_char (Instruction.ld_r_s reg_d immediate)
    ∷ op no_operands Instruction.rl_a
    ∷ op operand_char Instruction.jr_e
    ∷ op no_operands (Instruction.add_hl_ss reg_de)
    ∷ op no_operands (Instruction.ld_r_s reg_a (at reg_de))
    ∷ op no_operands (Instruction.dec_ss reg_de)
    ∷ op no_operands (Instruction.inc_s reg_e)
    ∷ op no_operands (Instruction.inc_s reg_e)
    ∷ op operand_char (Instruction.ld_r_s reg_e immediate)
    ∷ op no_operands Instruction.rr_a
    ∷ op operand_char (Instruction.jr_cc_e flag_zero flag_not_set)
    ∷ op operand_short (Instruction.ld_dd_nn reg_hl)
    ∷ op no_operands Instruction.ldi_mhl_a
    ∷ op no_operands (Instruction.inc_ss reg_hl)
    ∷ op no_operands (Instruction.inc_s reg_h)
    ∷ op no_operands (Instruction.dec_s reg_h)
    ∷ op operand_char (Instruction.ld_r_s reg_h immediate)
    ∷ op no_operands Instruction.daa
    ∷ op operand_char (Instruction.jr_cc_e flag_zero flag_set)
    ∷ op no_operands (Instruction.add_hl_ss reg_hl)
    ∷ op no_operands Instruction.ldi_a_mhl
    ∷ op no_operands (Instruction.dec_ss reg_hl)
    ∷ op no_operands (Instruction.inc_s reg_l)
    ∷ op no_operands (Instruction.dec_s reg_l)
    ∷ op operand_char (Instruction.ld_r_s reg_l immediate)
    ∷ op no_operands Instruction.cpl
    ∷ op operand_char (Instruction.jr_cc_e flag_carry flag_not_set)
    ∷ op operand_short (Instruction.ld_dd_nn reg_sp)
    ∷ op no_operands Instruction.ldd_mhl_a
    ∷ op no_operands (Instruction.inc_ss reg_sp)
    ∷ op no_operands Instruction.inc_shl
    ∷ op no_operands Instruction.dec_shl
    ∷ op operand_char Instruction.ld_d_n
    ∷ op no_operands Instruction.scf
    ∷ op operand_char (Instruction.jr_cc_e flag_carry flag_set)
    ∷ op no_operands (Instruction.add_hl_ss reg_sp)
    ∷ op no_operands Instruction.ldd_a_mhl
    ∷ op no_operands (Instruction.dec_ss reg_sp)
    ∷ op no_operands (Instruction.inc_s reg_a)
    ∷ op no_operands (Instruction.dec_s reg_a)
    ∷ op operand_char (Instruction.ld_r_s reg_a immediate)
    ∷ op no_operands Instruction.ccf
    ∷ rest

-- The functions of the codes 0x40 to 0x7F, in front of the entries that follow.
abbrev pub base_opcodes_40 : List Opcode → List Opcode
base_opcodes_40 rest =
    op no_operands (Instruction.ld_r_s reg_b (reg reg_b))
    ∷ op no_operands (Instruction.ld_r_s reg_b (reg reg_c))
    ∷ op no_operands (Instruction.ld_r_s reg_b (reg reg_d))
    ∷ op no_operands (Instruction.ld_r_s reg_b (reg reg_e))
    ∷ op no_operands (Instruction.ld_r_s reg_b (reg reg_h))
    ∷ op no_operands (Instruction.ld_r_s reg_b (reg reg_l))
    ∷ op no_operands (Instruction.ld_r_s reg_b (at reg_hl))
    ∷ op no_operands (Instruction.ld_r_s reg_b (reg reg_a))
    ∷ op no_operands (Instruction.ld_r_s reg_c (reg reg_b))
    ∷ op no_operands (Instruction.ld_r_s reg_c (reg reg_c))
    ∷ op no_operands (Instruction.ld_r_s reg_c (reg reg_d))
    ∷ op no_operands (Instruction.ld_r_s reg_c (reg reg_e))
    ∷ op no_operands (Instruction.ld_r_s reg_c (reg reg_h))
    ∷ op no_operands (Instruction.ld_r_s reg_c (reg reg_l))
    ∷ op no_operands (Instruction.ld_r_s reg_c (at reg_hl))
    ∷ op no_operands (Instruction.ld_r_s reg_c (reg reg_a))
    ∷ op no_operands (Instruction.ld_r_s reg_d (reg reg_b))
    ∷ op no_operands (Instruction.ld_r_s reg_d (reg reg_c))
    ∷ op no_operands (Instruction.ld_r_s reg_d (reg reg_d))
    ∷ op no_operands (Instruction.ld_r_s reg_d (reg reg_e))
    ∷ op no_operands (Instruction.ld_r_s reg_d (reg reg_h))
    ∷ op no_operands (Instruction.ld_r_s reg_d (reg reg_l))
    ∷ op no_operands (Instruction.ld_r_s reg_d (at reg_hl))
    ∷ op no_operands (Instruction.ld_r_s reg_d (reg reg_a))
    ∷ op no_operands (Instruction.ld_r_s reg_e (reg reg_b))
    ∷ op no_operands (Instruction.ld_r_s reg_e (reg reg_c))
    ∷ op no_operands (Instruction.ld_r_s reg_e (reg reg_d))
    ∷ op no_operands (Instruction.ld_r_s reg_e (reg reg_e))
    ∷ op no_operands (Instruction.ld_r_s reg_e (reg reg_h))
    ∷ op no_operands (Instruction.ld_r_s reg_e (reg reg_l))
    ∷ op no_operands (Instruction.ld_r_s reg_e (at reg_hl))
    ∷ op no_operands (Instruction.ld_r_s reg_e (reg reg_a))
    ∷ op no_operands (Instruction.ld_r_s reg_h (reg reg_b))
    ∷ op no_operands (Instruction.ld_r_s reg_h (reg reg_c))
    ∷ op no_operands (Instruction.ld_r_s reg_h (reg reg_d))
    ∷ op no_operands (Instruction.ld_r_s reg_h (reg reg_e))
    ∷ op no_operands (Instruction.ld_r_s reg_h (reg reg_h))
    ∷ op no_operands (Instruction.ld_r_s reg_h (reg reg_l))
    ∷ op no_operands (Instruction.ld_r_s reg_h (at reg_hl))
    ∷ op no_operands (Instruction.ld_r_s reg_h (reg reg_a))
    ∷ op no_operands (Instruction.ld_r_s reg_l (reg reg_b))
    ∷ op no_operands (Instruction.ld_r_s reg_l (reg reg_c))
    ∷ op no_operands (Instruction.ld_r_s reg_l (reg reg_d))
    ∷ op no_operands (Instruction.ld_r_s reg_l (reg reg_e))
    ∷ op no_operands (Instruction.ld_r_s reg_l (reg reg_h))
    ∷ op no_operands (Instruction.ld_r_s reg_l (reg reg_l))
    ∷ op no_operands (Instruction.ld_r_s reg_l (at reg_hl))
    ∷ op no_operands (Instruction.ld_r_s reg_l (reg reg_a))
    ∷ op no_operands (Instruction.ld_d_r reg_b)
    ∷ op no_operands (Instruction.ld_d_r reg_c)
    ∷ op no_operands (Instruction.ld_d_r reg_d)
    ∷ op no_operands (Instruction.ld_d_r reg_e)
    ∷ op no_operands (Instruction.ld_d_r reg_h)
    ∷ op no_operands (Instruction.ld_d_r reg_l)
    ∷ op no_operands Instruction.halt
    ∷ op no_operands (Instruction.ld_d_r reg_a)
    ∷ op no_operands (Instruction.ld_r_s reg_a (reg reg_b))
    ∷ op no_operands (Instruction.ld_r_s reg_a (reg reg_c))
    ∷ op no_operands (Instruction.ld_r_s reg_a (reg reg_d))
    ∷ op no_operands (Instruction.ld_r_s reg_a (reg reg_e))
    ∷ op no_operands (Instruction.ld_r_s reg_a (reg reg_h))
    ∷ op no_operands (Instruction.ld_r_s reg_a (reg reg_l))
    ∷ op no_operands (Instruction.ld_r_s reg_a (at reg_hl))
    ∷ op no_operands (Instruction.ld_r_s reg_a (reg reg_a))
    ∷ rest
