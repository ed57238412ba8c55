-- ===== src/Cpu/Opcode/Base/Upper.antt =====
-- src/BaseOpcodeTable.c: the functions of the codes 0x80 to 0xFF.
use game_bloat.Prelude.{List, ◌∷◌}
use game_bloat.Registers.{
  reg_a, reg_b, reg_c, reg_d, reg_e, reg_h, reg_l, reg_af, reg_bc, reg_de, reg_hl,
}
use game_bloat.Cpu.Flags.{flag_zero, flag_carry}
use game_bloat.Cpu.Opcode.{
  Opcode, Instruction, op, no_operands, operand_char, operand_short, reg, at, immediate,
  immediate_address, flag_set, flag_not_set,
}

-- The functions of the codes 0x80 to 0xBF, in front of the entries that follow.
abbrev pub base_opcodes_80 : List Opcode → List Opcode
base_opcodes_80 rest =
    op no_operands (Instruction.add_s (reg reg_b))
    ∷ op no_operands (Instruction.add_s (reg reg_c))
    ∷ op no_operands (Instruction.add_s (reg reg_d))
    ∷ op no_operands (Instruction.add_s (reg reg_e))
    ∷ op no_operands (Instruction.add_s (reg reg_h))
    ∷ op no_operands (Instruction.add_s (reg reg_l))
    ∷ op no_operands (Instruction.add_s (at reg_hl))
    ∷ op no_operands (Instruction.add_s (reg reg_a))
    ∷ op no_operands (Instruction.adc_s (reg reg_b))
    ∷ op no_operands (Instruction.adc_s (reg reg_c))
    ∷ op no_operands (Instruction.adc_s (reg reg_d))
    ∷ op no_operands (Instruction.adc_s (reg reg_e))
    ∷ op no_operands (Instruction.adc_s (reg reg_h))
    ∷ op no_operands (Instruction.adc_s (reg reg_l))
    ∷ op no_operands (Instruction.adc_s (at reg_hl))
    ∷ op no_operands (Instruction.adc_s (reg reg_a))
    ∷ op no_operands (Instruction.sub_s (reg reg_b))
    ∷ op no_operands (Instruction.sub_s (reg reg_c))
    ∷ op no_operands (Instruction.sub_s (reg reg_d))
    ∷ op no_operands (Instruction.sub_s (reg reg_e))
    ∷ op no_operands (Instruction.sub_s (reg reg_h))
    ∷ op no_operands (Instruction.sub_s (reg reg_l))
    ∷ op no_operands (Instruction.sub_s (at reg_hl))
    ∷ op no_operands (Instruction.sub_s (reg reg_a))
    ∷ op no_operands (Instruction.sbc_s (reg reg_b))
    ∷ op no_operands (Instruction.sbc_s (reg reg_c))
    ∷ op no_operands (Instruction.sbc_s (reg reg_d))
    ∷ op no_operands (Instruction.sbc_s (reg reg_e))
    ∷ op no_operands (Instruction.sbc_s (reg reg_h))
    ∷ op no_operands (Instruction.sbc_s (reg reg_l))
    ∷ op no_operands (Instruction.sbc_s (at reg_hl))
    ∷ op no_operands (Instruction.sbc_s (reg reg_a))
    ∷ op no_operands (Instruction.and_s (reg reg_b))
    ∷ op no_operands (Instruction.and_s (reg reg_c))
    ∷ op no_operands (Instruction.and_s (reg reg_d))
    ∷ op no_operands (Instruction.and_s (reg reg_e))
    ∷ op no_operands (Instruction.and_s (reg reg_h))
    ∷ op no_operands (Instruction.and_s (reg reg_l))
    ∷ op no_operands (Instruction.and_s (at reg_hl))
    ∷ op no_operands (Instruction.and_s (reg reg_a))
    ∷ op no_operands (Instruction.xor_s (reg reg_b))
    ∷ op no_operands (Instruction.xor_s (reg reg_c))
    ∷ op no_operands (Instruction.xor_s (reg reg_d))
    ∷ op no_operands (Instruction.xor_s (reg reg_e))
    ∷ op no_operands (Instruction.xor_s (reg reg_h))
    ∷ op no_operands (Instruction.xor_s (reg reg_l))
    ∷ op no_operands (Instruction.xor_s (at reg_hl))
    ∷ op no_operands (Instruction.xor_s (reg reg_a))
    ∷ op no_operands (Instruction.or_s (reg reg_b))
    ∷ op no_operands (Instruction.or_s (reg reg_c))
    ∷ op no_operands (Instruction.or_s (reg reg_d))
    ∷ op no_operands (Instruction.or_s (reg reg_e))
    ∷ op no_operands (Instruction.or_s (reg reg_h))
    ∷ op no_operands (Instruction.or_s (reg reg_l))
    ∷ op no_operands (Instruction.or_s (at reg_hl))
    ∷ op no_operands (Instruction.or_s (reg reg_a))
    ∷ op no_operands (Instruction.cmp_s (reg reg_b))
    ∷ op no_operands (Instruction.cmp_s (reg reg_c))
    ∷ op no_operands (Instruction.cmp_s (reg reg_d))
    ∷ op no_operands (Instruction.cmp_s (reg reg_e))
    ∷ op no_operands (Instruction.cmp_s (reg reg_h))
    ∷ op no_operands (Instruction.cmp_s (reg reg_l))
    ∷ op no_operands (Instruction.cmp_s (at reg_hl))
    ∷ op no_operands (Instruction.cmp_s (reg reg_a))
    ∷ rest

-- The functions of the codes 0xC0 to 0xFF, in front of the entries that follow.
abbrev pub base_opcodes_c0 : List Opcode → List Opcode
base_opcodes_c0 rest =
    op no_operands (Instruction.ret_cc flag_zero flag_not_set)
    ∷ op no_operands (Instruction.pop_dd reg_bc)
    ∷ op operand_short (Instruction.jp_cc_nn flag_zero flag_not_set)
    ∷ op operand_short Instruction.jp_nn
    ∷ op operand_short (Instruction.call_cc_nn flag_zero flag_not_set)
    ∷ op no_operands (Instruction.push_ss reg_bc)
    ∷ op operand_char (Instruction.add_s immediate)
    ∷ op no_operands (Instruction.rst_f 0x00)
    ∷ op no_operands (Instruction.ret_cc flag_zero flag_set)
    ∷ op no_operands Instruction.ret
    ∷ op operand_short (Instruction.jp_cc_nn flag_zero flag_set)
    ∷ op operand_char Instruction.ext_ops
    ∷ op operand_short (Instruction.call_cc_nn flag_zero flag_set)
    ∷ op operand_short Instruction.call_nn
    ∷ op operand_char (Instruction.adc_s immediate)
    ∷ op no_operands (Instruction.rst_f 0x08)
    ∷ op no_operands (Instruction.ret_cc flag_carry flag_not_set)
    ∷ op no_operands (Instruction.pop_dd reg_de)
    ∷ op operand_short (Instruction.jp_cc_nn flag_carry flag_not_set)
    ∷ op no_operands Instruction.undefined
    ∷ op operand_short (Instruction.call_cc_nn flag_carry flag_not_set)
    ∷ op no_operands (Instruction.push_ss reg_de)
    ∷ op operand_char (Instruction.sub_s immediate)
    ∷ op no_operands (Instruction.rst_f 0x10)
    ∷ op no_operands (Instruction.ret_cc flag_carry flag_set)
    ∷ op no_operands Instruction.reti
    ∷ op operand_short (Instruction.jp_cc_nn flag_carry flag_set)
    ∷ op no_operands Instruction.undefined
    ∷ op operand_short (Instruction.call_cc_nn flag_carry flag_not_set)
    ∷ op no_operands Instruction.undefined
    ∷ op operand_char (Instruction.sbc_s immediate)
    ∷ op no_operands (Instruction.rst_f 0x18)
    ∷ op operand_char (Instruction.ldh_n_a immediate)
    ∷ op no_operands (Instruction.pop_dd reg_hl)
    ∷ op no_operands (Instruction.ldh_n_a (reg reg_c))
    ∷ op no_operands Instruction.undefined
    ∷ op no_operands Instruction.undefined
    ∷ op no_operands (Instruction.push_ss reg_hl)
    ∷ op operand_char (Instruction.and_s immediate)
    ∷ op no_operands (Instruction.rst_f 0x20)
    ∷ op operand_char Instruction.add_sp_e
    ∷ op no_operands Instruction.jp_mhl
    ∷ op operand_short (Instruction.ld_dd_a immediate_address)
    ∷ op no_operands Instruction.undefined
    ∷ op no_operands Instruction.undefined
    ∷ op no_operands Instruction.undefined
    ∷ op operand_char (Instruction.xor_s immediate)
    ∷ op no_operands (Instruction.rst_f 0x28)
    ∷ op operand_char Instruction.ldh_a_n
    ∷ op no_operands (Instruction.pop_dd reg_af)
    ∷ op no_operands Instruction.undefined
    ∷ op no_operands Instruction.di
    ∷ op no_operands Instruction.undefined
    ∷ op no_operands (Instruction.push_ss reg_af)
    ∷ op operand_char (Instruction.or_s immediate)
    ∷ op no_operands (Instruction.rst_f 0x30)
    ∷ op operand_char Instruction.ld_hl_sp_e
    ∷ op no_operands Instruction.ld_sp_hl
    ∷ op operand_short (Instruction.ld_a_ss immediate_address)
    ∷ op no_operands Instruction.ei
    ∷ op no_operands Instruction.undefined
    ∷ op no_operands Instruction.undefined
    ∷ op operand_char (Instruction.cmp_s immediate)
    ∷ op no_operands (Instruction.rst_f 0x38)
    ∷ rest
