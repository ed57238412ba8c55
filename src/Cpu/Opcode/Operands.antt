-- ===== src/Cpu/Opcode/Operands.antt =====
-- include/opcode.h: the operand type of an entry against the parameter of its function, which the
-- call through `void *function` relies on; and the ticks of the 0xCB table.
use game_bloat.Prelude.{
  ℕ, ◌%◌, ◌<◌, ◌≡◌, refl, arith, List, Bool, true, ltb, ◌==◌, ◌||◌, ◌≢◌, ==_iff, if◌then◌else◌,
}
use game_bloat.Prelude.Bytes.{all_below, all_below_sound}
use game_bloat.Cpu.Opcode.{Opcode, Instruction, OperandType, Operand, Address, operand_bytes}
use game_bloat.Cpu.Opcode.Base.{base_opcode_table}
use game_bloat.Cpu.Opcode.Cb.{cb_opcode_table, cb_opcode_ticks}
use game_bloat.Cpu.Step.{entry, no_opcode}

unfoldable pub operand_parameter : Operand → OperandType
operand_parameter Operand.immediate = OperandType.operand_char
operand_parameter (Operand.reg r) = OperandType.no_operands
operand_parameter (Operand.at w) = OperandType.no_operands

unfoldable pub address_parameter : Address → OperandType
address_parameter Address.immediate_address = OperandType.operand_short
address_parameter (Address.pair w) = OperandType.no_operands

-- The parameter of the C function with that body.
unfoldable pub parameter : Instruction → OperandType
unfolding operand_parameter address_parameter
parameter Instruction.ld_d_n = OperandType.operand_char
parameter Instruction.ldh_a_n = OperandType.operand_char
parameter Instruction.ld_nn_sp = OperandType.operand_short
parameter Instruction.ld_hl_sp_e = OperandType.operand_char
parameter Instruction.add_sp_e = OperandType.operand_char
parameter Instruction.jr_e = OperandType.operand_char
parameter Instruction.jp_nn = OperandType.operand_short
parameter Instruction.call_nn = OperandType.operand_short
parameter (Instruction.add_s s) = operand_parameter s
parameter (Instruction.adc_s s) = operand_parameter s
parameter (Instruction.sub_s s) = operand_parameter s
parameter (Instruction.sbc_s s) = operand_parameter s
parameter (Instruction.and_s s) = operand_parameter s
parameter (Instruction.or_s s) = operand_parameter s
parameter (Instruction.xor_s s) = operand_parameter s
parameter (Instruction.cmp_s s) = operand_parameter s
parameter (Instruction.ld_r_s r s) = operand_parameter s
parameter (Instruction.ldh_n_a s) = operand_parameter s
parameter (Instruction.ld_dd_nn w) = OperandType.operand_short
parameter (Instruction.ld_dd_a a) = address_parameter a
parameter (Instruction.ld_a_ss a) = address_parameter a
parameter (Instruction.jr_cc_e f c) = OperandType.operand_char
parameter (Instruction.jp_cc_nn f c) = OperandType.operand_short
parameter (Instruction.call_cc_nn f c) = OperandType.operand_short
parameter _ = OperandType.no_operands

or_right : (i : ℕ) (x y : ℕ) → i ≢ 0xCB → ((i == 0xCB) || (x == y)) ≡ true → x ≡ y
or_right i x y ne h = ground arith

abbrev fits_at : List Opcode → ℕ → Bool
fits_at table i =
    let o = entry no_opcode table i in
    operand_bytes o.operand_type == operand_bytes (parameter o.function)

base_fits : all_below 256 (λ i. (i == 0xCB) || fits_at base_opcode_table i) ≡ true
unfolding all_below entry parameter
base_fits = refl

cb_fits : all_below 256 (λ i. fits_at cb_opcode_table i) ≡ true
unfolding all_below entry parameter
cb_fits = refl

-- The entry of every byte in the base table has as many bytes of operand as its function's
-- parameter takes, but for 0xCB, whose entry is not executed.
pub base_operand_type-parameter :
    (i : ℕ)
    → i < 256
    → i ≢ 0xCB
    → operand_bytes (entry no_opcode base_opcode_table i).operand_type
      ≡ operand_bytes (parameter (entry no_opcode base_opcode_table i).function)
base_operand_type-parameter i lt not_ext =
    or_right i _ _ not_ext
      (all_below_sound 256 (λ i. (i == 0xCB) || fits_at base_opcode_table i) i base_fits lt)

-- The entry of every byte in the 0xCB table has as many bytes of operand as its function's
-- parameter takes.
pub cb_operand_type-parameter :
    (i : ℕ)
    → i < 256
    → operand_bytes (entry no_opcode cb_opcode_table i).operand_type
      ≡ operand_bytes (parameter (entry no_opcode cb_opcode_table i).function)
cb_operand_type-parameter i lt =
    (==_iff _ _).0 (all_below_sound 256 (λ i. fits_at cb_opcode_table i) i cb_fits lt)

-- The ticks of the 0xCB table: 8 on a register; on the byte at HL 16 in the block of rotates, and
-- 12 in the blocks of BIT, RES and SET.
cb_opcode_ticks-blocks :
    (i : ℕ)
    → i < 256
    → entry 0 cb_opcode_ticks i ≡ (if i % 8 == 6 then (if ltb i 0x40 then 16 else 12) else 8)
unfolding entry all_below
cb_opcode_ticks-blocks i lt = (==_iff _ _).0 (
    all_below_sound 256
      (λ i.
        entry 0 cb_opcode_ticks i == (if i % 8 == 6 then (if ltb i 0x40 then 16 else 12) else 8))
      i refl lt)
