-- ===== src/Cpu/Opcode/Cb/Upper.antt =====
-- src/CBOpcodeTable.c: the functions of the codes 0x80 to 0xFF behind 0xCB.
use game_bloat.Prelude.{List, ◌∷◌}
use game_bloat.Registers.{reg_a, reg_b, reg_c, reg_d, reg_e, reg_h, reg_l}
use game_bloat.Cpu.Opcode.{Opcode, Instruction, op, no_operands}

-- The functions of the codes 0x80 to 0xBF, in front of the entries that follow.
abbrev pub cb_opcodes_80 : List Opcode → List Opcode
cb_opcodes_80 rest =
    op no_operands (Instruction.res_b_s 0 reg_b)
    ∷ op no_operands (Instruction.res_b_s 0 reg_c)
    ∷ op no_operands (Instruction.res_b_s 0 reg_d)
    ∷ op no_operands (Instruction.res_b_s 0 reg_e)
    ∷ op no_operands (Instruction.res_b_s 0 reg_h)
    ∷ op no_operands (Instruction.res_b_s 0 reg_l)
    ∷ op no_operands (Instruction.res_b_shl 0)
    ∷ op no_operands (Instruction.res_b_s 0 reg_a)
    ∷ op no_operands (Instruction.res_b_s 1 reg_b)
    ∷ op no_operands (Instruction.res_b_s 1 reg_c)
    ∷ op no_operands (Instruction.res_b_s 1 reg_d)
    ∷ op no_operands (Instruction.res_b_s 1 reg_e)
    ∷ op no_operands (Instruction.res_b_s 1 reg_h)
    ∷ op no_operands (Instruction.res_b_s 1 reg_l)
    ∷ op no_operands (Instruction.res_b_shl 1)
    ∷ op no_operands (Instruction.res_b_s 1 reg_a)
    ∷ op no_operands (Instruction.res_b_s 2 reg_b)
    ∷ op no_operands (Instruction.res_b_s 2 reg_c)
    ∷ op no_operands (Instruction.res_b_s 2 reg_d)
    ∷ op no_operands (Instruction.res_b_s 2 reg_e)
    ∷ op no_operands (Instruction.res_b_s 2 reg_h)
    ∷ op no_operands (Instruction.res_b_s 2 reg_l)
    ∷ op no_operands (Instruction.res_b_shl 2)
    ∷ op no_operands (Instruction.res_b_s 2 reg_a)
    ∷ op no_operands (Instruction.res_b_s 3 reg_b)
    ∷ op no_operands (Instruction.res_b_s 3 reg_c)
    ∷ op no_operands (Instruction.res_b_s 3 reg_d)
    ∷ op no_operands (Instruction.res_b_s 3 reg_e)
    ∷ op no_operands (Instruction.res_b_s 3 reg_h)
    ∷ op no_operands (Instruction.res_b_s 3 reg_l)
    ∷ op no_operands (Instruction.res_b_shl 3)
    ∷ op no_operands (Instruction.res_b_s 3 reg_a)
    ∷ op no_operands (Instruction.res_b_s 4 reg_b)
    ∷ op no_operands (Instruction.res_b_s 4 reg_c)
    ∷ op no_operands (Instruction.res_b_s 4 reg_d)
    ∷ op no_operands (Instruction.res_b_s 4 reg_e)
    ∷ op no_operands (Instruction.res_b_s 4 reg_h)
    ∷ op no_operands (Instruction.res_b_s 4 reg_l)
    ∷ op no_operands (Instruction.res_b_shl 4)
    ∷ op no_operands (Instruction.res_b_s 4 reg_a)
    ∷ op no_operands (Instruction.res_b_s 5 reg_b)
    ∷ op no_operands (Instruction.res_b_s 5 reg_c)
    ∷ op no_operands (Instruction.res_b_s 5 reg_d)
    ∷ op no_operands (Instruction.res_b_s 5 reg_e)
    ∷ op no_operands (Instruction.res_b_s 5 reg_h)
    ∷ op no_operands (Instruction.res_b_s 5 reg_l)
    ∷ op no_operands (Instruction.res_b_shl 5)
    ∷ op no_operands (Instruction.res_b_s 5 reg_a)
    ∷ op no_operands (Instruction.res_b_s 6 reg_b)
    ∷ op no_operands (Instruction.res_b_s 6 reg_c)
    ∷ op no_operands (Instruction.res_b_s 6 reg_d)
    ∷ op no_operands (Instruction.res_b_s 6 reg_e)
    ∷ op no_operands (Instruction.res_b_s 6 reg_h)
    ∷ op no_operands (Instruction.res_b_s 6 reg_l)
    ∷ op no_operands (Instruction.res_b_shl 6)
    ∷ op no_operands (Instruction.res_b_s 6 reg_a)
    ∷ op no_operands (Instruction.res_b_s 7 reg_b)
    ∷ op no_operands (Instruction.res_b_s 7 reg_c)
    ∷ op no_operands (Instruction.res_b_s 7 reg_d)
    ∷ op no_operands (Instruction.res_b_s 7 reg_e)
    ∷ op no_operands (Instruction.res_b_s 7 reg_h)
    ∷ op no_operands (Instruction.res_b_s 7 reg_l)
    ∷ op no_operands (Instruction.res_b_shl 7)
    ∷ op no_operands (Instruction.res_b_s 7 reg_a)
    ∷ rest

-- The functions of the codes 0xC0 to 0xFF, in front of the entries that follow.
abbrev pub cb_opcodes_c0 : List Opcode → List Opcode
cb_opcodes_c0 rest =
    op no_operands (Instruction.set_b_s 0 reg_b)
    ∷ op no_operands (Instruction.set_b_s 0 reg_c)
    ∷ op no_operands (Instruction.set_b_s 0 reg_d)
    ∷ op no_operands (Instruction.set_b_s 0 reg_e)
    ∷ op no_operands (Instruction.set_b_s 0 reg_h)
    ∷ op no_operands (Instruction.set_b_s 0 reg_l)
    ∷ op no_operands (Instruction.set_b_shl 0)
    ∷ op no_operands (Instruction.set_b_s 0 reg_a)
    ∷ op no_operands (Instruction.set_b_s 1 reg_b)
    ∷ op no_operands (Instruction.set_b_s 1 reg_c)
    ∷ op no_operands (Instruction.set_b_s 1 reg_d)
    ∷ op no_operands (Instruction.set_b_s 1 reg_e)
    ∷ op no_operands (Instruction.set_b_s 1 reg_h)
    ∷ op no_operands (Instruction.set_b_s 1 reg_l)
    ∷ op no_operands (Instruction.set_b_shl 1)
    ∷ op no_operands (Instruction.set_b_s 1 reg_a)
    ∷ op no_operands (Instruction.set_b_s 2 reg_b)
    ∷ op no_operands (Instruction.set_b_s 2 reg_c)
    ∷ op no_operands (Instruction.set_b_s 2 reg_d)
    ∷ op no_operands (Instruction.set_b_s 2 reg_e)
    ∷ op no_operands (Instruction.set_b_s 2 reg_h)
    ∷ op no_operands (Instruction.set_b_s 2 reg_l)
    ∷ op no_operands (Instruction.set_b_shl 2)
    ∷ op no_operands (Instruction.set_b_s 2 reg_a)
    ∷ op no_operands (Instruction.set_b_s 3 reg_b)
    ∷ op no_operands (Instruction.set_b_s 3 reg_c)
    ∷ op no_operands (Instruction.set_b_s 3 reg_d)
    ∷ op no_operands (Instruction.set_b_s 3 reg_e)
    ∷ op no_operands (Instruction.set_b_s 3 reg_h)
    ∷ op no_operands (Instruction.set_b_s 3 reg_l)
    ∷ op no_operands (Instruction.set_b_shl 3)
    ∷ op no_operands (Instruction.set_b_s 3 reg_a)
    ∷ op no_operands (Instruction.set_b_s 4 reg_b)
    ∷ op no_operands (Instruction.set_b_s 4 reg_c)
    ∷ op no_operands (Instruction.set_b_s 4 reg_d)
    ∷ op no_operands (Instruction.set_b_s 4 reg_e)
    ∷ op no_operands (Instruction.set_b_s 4 reg_h)
    ∷ op no_operands (Instruction.set_b_s 4 reg_l)
    ∷ op no_operands (Instruction.set_b_shl 4)
    ∷ op no_operands (Instruction.set_b_s 4 reg_a)
    ∷ op no_operands (Instruction.set_b_s 5 reg_b)
    ∷ op no_operands (Instruction.set_b_s 5 reg_c)
    ∷ op no_operands (Instruction.set_b_s 5 reg_d)
    ∷ op no_operands (Instruction.set_b_s 5 reg_e)
    ∷ op no_operands (Instruction.set_b_s 5 reg_h)
    ∷ op no_operands (Instruction.set_b_s 5 reg_l)
    ∷ op no_operands (Instruction.set_b_shl 5)
    ∷ op no_operands (Instruction.set_b_s 5 reg_a)
    ∷ op no_operands (Instruction.set_b_s 6 reg_b)
    ∷ op no_operands (Instruction.set_b_s 6 reg_c)
    ∷ op no_operands (Instruction.set_b_s 6 reg_d)
    ∷ op no_operands (Instruction.set_b_s 6 reg_e)
    ∷ op no_operands (Instruction.set_b_s 6 reg_h)
    ∷ op no_operands (Instruction.set_b_s 6 reg_l)
    ∷ op no_operands (Instruction.set_b_shl 6)
    ∷ op no_operands (Instruction.set_b_s 6 reg_a)
    ∷ op no_operands (Instruction.set_b_s 7 reg_b)
    ∷ op no_operands (Instruction.set_b_s 7 reg_c)
    ∷ op no_operands (Instruction.set_b_s 7 reg_d)
    ∷ op no_operands (Instruction.set_b_s 7 reg_e)
    ∷ op no_operands (Instruction.set_b_s 7 reg_h)
    ∷ op no_operands (Instruction.set_b_s 7 reg_l)
    ∷ op no_operands (Instruction.set_b_shl 7)
    ∷ op no_operands (Instruction.set_b_s 7 reg_a)
    ∷ rest
