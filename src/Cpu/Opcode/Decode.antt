-- ===== src/Cpu/Opcode/Decode.antt =====
-- src/BaseOpcodeTable.c and src/CBOpcodeTable.c against the fields of the instruction byte, as
-- Documentation/gbcpuman(1).pdf lists the instructions.
use game_bloat.Prelude.{
  ℕ, zero, suc, ◌+◌, ◌-◌, ◌*◌, ◌/◌, ◌%◌, ◌<◌, ◌≡◌, ◌∙◌, refl, sym, ap, arith, List, [], ◌∷◌, ltb,
  ◌==◌, if◌then◌else◌,
}
use game_bloat.Registers.{
  ByteRegister, WordRegister, reg_a, reg_b, reg_c, reg_d, reg_e, reg_h, reg_l, reg_af, reg_bc,
  reg_de, reg_hl, reg_sp,
}
use game_bloat.Cpu.Flags.{flag_zero, flag_carry}
use game_bloat.Cpu.Opcode.{
  Opcode, Instruction, Operand, reg, at, immediate, pair, immediate_address,
}
use game_bloat.Cpu.Opcode.Base.{base_opcode_table}
use game_bloat.Cpu.Opcode.Cb.{cb_opcode_table}
use game_bloat.Cpu.Step.{entry, no_opcode}

abbrev choose {ℓ} : {A : Type ℓ} → A → List A → ℕ → A
choose = entry

-- The codes of the fields. Code 6 of a register is the byte at HL.
abbrev pub register_code : ℕ → ByteRegister
register_code = choose reg_a (reg_b ∷ reg_c ∷ reg_d ∷ reg_e ∷ reg_h ∷ reg_l ∷ reg_a ∷ [])

abbrev operand_code : ℕ → Operand
operand_code z = if z == 6 then at reg_hl else reg (register_code z)

abbrev pair_code : ℕ → WordRegister
pair_code = choose reg_sp (reg_bc ∷ reg_de ∷ reg_hl ∷ [])

abbrev stack_code : ℕ → WordRegister
stack_code = choose reg_af (reg_bc ∷ reg_de ∷ reg_hl ∷ [])

-- NZ, Z, NC and C, for an instruction that takes a flag and the value it must have.
abbrev condition_code : (ℕ → ℕ → Instruction) → ℕ → Instruction
condition_code f y = f (if ltb y 2 then flag_zero else flag_carry) (y % 2)

abbrev pub arithmetic_code : ℕ → Operand → Instruction
arithmetic_code = choose Instruction.cmp_s (
    Instruction.add_s ∷ Instruction.adc_s ∷ Instruction.sub_s ∷ Instruction.sbc_s
    ∷ Instruction.and_s ∷ Instruction.xor_s ∷ Instruction.or_s ∷ [])

-- An instruction on a register, or its namesake on the byte at HL.
abbrev on_code : (ByteRegister → Instruction) → Instruction → ℕ → Instruction
on_code on_register on_cell y = if y == 6 then on_cell else on_register (register_code y)

abbrev misc_block : (y z : ℕ) → Instruction
misc_block y z =
    if z == 0
    then (if ltb y 4
        then choose Instruction.jr_e
            (Instruction.nop ∷ Instruction.ld_nn_sp ∷ Instruction.stop ∷ []) y
        else condition_code Instruction.jr_cc_e (y - 4))
    else if z == 1
    then if y % 2 == 0
      then Instruction.ld_dd_nn (pair_code (y / 2))
      else Instruction.add_hl_ss (pair_code (y / 2))
    else if z == 2
    then choose Instruction.ldd_a_mhl
        (Instruction.ld_dd_a (pair reg_bc)
          ∷ Instruction.ld_a_ss (pair reg_bc)
          ∷ Instruction.ld_dd_a (pair reg_de)
          ∷ Instruction.ld_a_ss (pair reg_de)
          ∷ Instruction.ldi_mhl_a
          ∷ Instruction.ldi_a_mhl
          ∷ Instruction.ldd_mhl_a
          ∷ [])
        y
    else if z == 3
    then if y % 2 == 0
      then Instruction.inc_ss (pair_code (y / 2))
      else Instruction.dec_ss (pair_code (y / 2))
    else if z == 4
    then on_code Instruction.inc_s Instruction.inc_shl y
    else if z == 5
    then on_code Instruction.dec_s Instruction.dec_shl y
    else if z == 6
    then on_code (λ r. Instruction.ld_r_s r immediate) Instruction.ld_d_n y
    else choose Instruction.ccf
        (Instruction.rlc_a ∷ Instruction.rrc_a ∷ Instruction.rl_a ∷ Instruction.rr_a
          ∷ Instruction.daa ∷ Instruction.cpl ∷ Instruction.scf ∷ [])
        y

abbrev load_block : (y z : ℕ) → Instruction
load_block y z =
    if y == 6
    then if z == 6 then Instruction.halt else Instruction.ld_d_r (register_code z)
    else Instruction.ld_r_s (register_code y) (operand_code z)

abbrev control_block : (y z : ℕ) → Instruction
control_block y z =
    if z == 0
    then (if ltb y 4
        then condition_code Instruction.ret_cc y
        else choose Instruction.ld_hl_sp_e
            (Instruction.ldh_n_a immediate ∷ Instruction.add_sp_e ∷ Instruction.ldh_a_n ∷ [])
            (y - 4))
    else if z == 1
    then (if y % 2 == 0
        then Instruction.pop_dd (stack_code (y / 2))
        else choose Instruction.ld_sp_hl
            (Instruction.ret ∷ Instruction.reti ∷ Instruction.jp_hl ∷ []) (y / 2))
    else if z == 2
    then (if ltb y 4
        then condition_code Instruction.jp_cc_nn y
        else choose (Instruction.ld_a_ss immediate_address)
            (Instruction.ldh_n_a (reg reg_c)
              ∷ Instruction.ld_dd_a immediate_address
              ∷ Instruction.ld_a_c
              ∷ [])
            (y - 4))
    else if z == 3
    then choose Instruction.ei
        (Instruction.jp_nn ∷ Instruction.ext_ops ∷ Instruction.undefined ∷ Instruction.undefined
          ∷ Instruction.undefined ∷ Instruction.undefined ∷ Instruction.di ∷ [])
        y
    else if z == 4
    then if ltb y 4 then condition_code Instruction.call_cc_nn y else Instruction.undefined
    else if z == 5
    then (if y % 2 == 0
        then Instruction.push_ss (stack_code (y / 2))
        else if y == 1
        then Instruction.call_nn
        else Instruction.undefined)
    else if z == 6
    then arithmetic_code y immediate
    else Instruction.rst_f (y * 8)

-- The instruction of a byte: two bits for the block, three and three for the operands.
unfoldable pub decode_base : ℕ → Instruction
unfolding entry
decode_base i =
    let y = i / 8 % 8 in
    let z = i % 8 in
    if i / 64 == 0
    then misc_block y z
    else if i / 64 == 1
    then load_block y z
    else if i / 64 == 2
    then arithmetic_code y (operand_code z)
    else control_block y z

abbrev rotate_code : ℕ → ℕ → Instruction
rotate_code y z =
    choose (on_code Instruction.srl_s Instruction.srl_shl z)
      (on_code Instruction.rlc_s Instruction.rlc_shl z
        ∷ on_code Instruction.rrc_s Instruction.rrc_shl z
        ∷ on_code Instruction.rl_s Instruction.rl_shl z
        ∷ on_code Instruction.rr_s Instruction.rr_shl z
        ∷ on_code Instruction.sla_s Instruction.sla_shl z
        ∷ on_code Instruction.sra_s Instruction.sra_shl z
        ∷ on_code Instruction.swap_s Instruction.swap_shl z
        ∷ [])
      y

-- The instruction of a byte behind 0xCB.
unfoldable pub decode_cb : ℕ → Instruction
unfolding entry
decode_cb i =
    let y = i / 8 % 8 in
    let z = i % 8 in
    if i / 64 == 0
    then rotate_code y z
    else if i / 64 == 1
    then on_code (Instruction.bit_b_s y) (Instruction.bit_b_shl y) z
    else if i / 64 == 2
    then on_code (Instruction.res_b_s y) (Instruction.res_b_shl y) z
    else on_code (Instruction.set_b_s y) (Instruction.set_b_shl y) z

-- `f 0`, `f 1`, ..., so many of them.
unfoldable pub tabulate_from {ℓ} : {A : Type ℓ} → (ℕ → A) → (first many : ℕ) → List A
tabulate_from f first zero = []
tabulate_from f first (suc many) = f first ∷ tabulate_from f (suc first) many

pub entry-tabulate_from {ℓ} :
    {A : Type ℓ} (x : A) (f : ℕ → A) (first many i : ℕ)
    → i < many
    → entry x (tabulate_from f first many) i ≡ f (first + i)
unfolding entry tabulate_from
entry-tabulate_from x f first zero i lt = absurd (omega arith)
entry-tabulate_from x f first (suc many) zero lt = ap f (omega arith)
entry-tabulate_from x f first (suc many) (suc i) lt =
    entry-tabulate_from x f (suc first) many i (omega arith) ∙ ap f (omega arith)

zero_first : (i : ℕ) → 0 + i ≡ i
zero_first i = omega arith

functions : List Opcode → List Instruction
functions [] = []
functions (o ∷ os) = o.function ∷ functions os

entry-functions :
    (os : List Opcode) (i : ℕ)
    → entry Instruction.undefined (functions os) i ≡ (entry no_opcode os i).function
unfolding entry functions
entry-functions [] i = refl
entry-functions (o ∷ os) zero = refl
entry-functions (o ∷ os) (suc i) = entry-functions os i

-- The entries that differ from the decoding.
abbrev listed_base : ℕ → Instruction
listed_base i =
    if i == 0x1A
    then Instruction.ld_r_s reg_a (at reg_de)
    else if i == 0x1D
    then Instruction.inc_s reg_e
    else if i == 0xDC
    then Instruction.call_cc_nn flag_carry 0
    else if i == 0xE9
    then Instruction.jp_mhl
    else if i == 0xF2
    then Instruction.undefined
    else decode_base i

abbrev listed_cb : ℕ → Instruction
listed_cb i =
    if i == 0x07
    then Instruction.rlc_a
    else if i == 0x0F
    then Instruction.rrc_a
    else if i == 0x17
    then Instruction.rl_a
    else if i == 0x1F
    then Instruction.rr_a
    else decode_cb i

base_listed : functions base_opcode_table ≡ tabulate_from listed_base 0 256
unfolding functions tabulate_from decode_base
base_listed = refl

cb_listed : functions cb_opcode_table ≡ tabulate_from listed_cb 0 256
unfolding functions tabulate_from decode_cb
cb_listed = refl

-- Each entry of the base table is the instruction that the fields of its byte encode, but for
-- five: 0x1A, which loads A from the byte at DE by another function; 0x1D, DEC E, which increments
-- E; 0xDC, CALL C, which calls when the carry is not set; 0xE9, the jump to the address in HL, which
-- jumps to the word in memory at that address; and 0xF2, LD A,(C), which does nothing.
pub base_opcode_table-decode_base :
    (i : ℕ)
    → i < 256
    → (entry no_opcode base_opcode_table i).function ≡ (
        if i == 0x1A
        then Instruction.ld_r_s reg_a (at reg_de)
        else if i == 0x1D
        then Instruction.inc_s reg_e
        else if i == 0xDC
        then Instruction.call_cc_nn flag_carry 0
        else if i == 0xE9
        then Instruction.jp_mhl
        else if i == 0xF2
        then Instruction.undefined
        else decode_base i)
base_opcode_table-decode_base i lt =
    sym (entry-functions base_opcode_table i)
    ∙ ap (λ l. entry Instruction.undefined l i) base_listed
    ∙ entry-tabulate_from Instruction.undefined listed_base 0 256 i lt
    ∙ ap listed_base (zero_first i)

-- Each entry of the 0xCB table is the instruction that the fields of its byte encode, but for the
-- four rotates of A, which are those of the base table: they clear the zero flag.
pub cb_opcode_table-decode_cb :
    (i : ℕ)
    → i < 256
    → (entry no_opcode cb_opcode_table i).function ≡ (
        if i == 0x07
        then Instruction.rlc_a
        else if i == 0x0F
        then Instruction.rrc_a
        else if i == 0x17
        then Instruction.rl_a
        else if i == 0x1F
        then Instruction.rr_a
        else decode_cb i)
cb_opcode_table-decode_cb i lt =
    sym (entry-functions cb_opcode_table i)
    ∙ ap (λ l. entry Instruction.undefined l i) cb_listed
    ∙ entry-tabulate_from Instruction.undefined listed_cb 0 256 i lt
    ∙ ap listed_cb (zero_first i)
