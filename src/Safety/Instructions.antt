-- ===== src/Safety/Instructions.antt =====
-- src/cpu.c: every instruction of the tables keeps the machine's invariant.
use game_bloat.Prelude.{ℕ, ◌<◌, ◌≡◌, arith, Option, some, none, Bool, true, ltb}
use game_bloat.Registers.{get8-lt, set8-IsWidth}
use game_bloat.Machine.{Machine}
use game_bloat.Cpu.Opcode.{Instruction, OperandType, Operand, Address}
use game_bloat.Cpu.Opcode.Operands.{parameter, operand_parameter, address_parameter}
use game_bloat.Cpu.Load.{ld_r_s, ld_dd_nn}
use game_bloat.Cpu.Control.{stop}
use game_bloat.Cpu.Step.{execute, read_operand, read_address}
use game_bloat.Safety.{IsWell, Outcome, returned, after}
use game_bloat.Safety.Access.{after_read, mmu_read_short-Outcome}
use game_bloat.Safety.Width.{
  add_s-IsWidth, adc_s-IsWidth, sub_s-IsWidth, sbc_s-IsWidth, and_s-IsWidth, or_s-IsWidth,
  xor_s-IsWidth, cmp_s-IsWidth, cpl-IsWidth, scf-IsWidth, rlc_a-IsWidth, rl_a-IsWidth, rr_a-IsWidth,
  ccf-IsWidth, rrc_a-IsWidth, daa-IsWidth, bit_b_s-IsWidth, set_b_s-IsWidth, res_b_s-IsWidth,
  inc_s-IsWidth, rlc_s-IsWidth, rl_s-IsWidth, rr_s-IsWidth, sla_s-IsWidth, sra_s-IsWidth,
  swap_s-IsWidth, rrc_s-IsWidth, dec_s-IsWidth, srl_s-IsWidth, get16-lt, set16-IsWidth,
  add_hl_ss-IsWidth, add_sp_e-IsWidth, ld_hl_sp_e-IsWidth, inc_ss-IsWidth, dec_ss-IsWidth,
}
use game_bloat.Safety.Commands.{
  Keeps, stop-Keeps, on_registers-Keeps, jp_nn-Keeps, jp_hl-Keeps, jr_e-Keeps, rst_f-Keeps,
  call_nn-Keeps, ret-Keeps, push_ss-Keeps, pop_dd-Keeps, halt-Keeps, di-Keeps, ei-Keeps,
  jp_cc_nn-Keeps, jr_cc_e-Keeps, call_cc_nn-Keeps, ret_cc-Keeps, reti-Keeps,
}
use game_bloat.Safety.Loads.{
  ld_d_r-Keeps, ld_d_n-Keeps, ld_a_ss-Keeps, ld_dd_a-Keeps, ldd_a_mhl-Keeps, ldi_a_mhl-Keeps,
  ldd_mhl_a-Keeps, ldi_mhl_a-Keeps, ldh_n_a-Keeps, ldh_a_n-Keeps, ld_a_c-Keeps, ld_nn_sp-Keeps,
  ld_sp_hl-Keeps,
}
use game_bloat.Safety.Indirect.{
  inc_shl-Keeps, dec_shl-Keeps, swap_shl-Keeps, rlc_shl-Keeps, rl_shl-Keeps, sla_shl-Keeps,
  rr_shl-Keeps, rrc_shl-Keeps, sra_shl-Keeps, srl_shl-Keeps, bit_b_shl-Keeps, set_b_shl-Keeps,
  res_b_shl-Keeps,
}

-- The values of an operand of that type, as `ExecuteOpcode` passes it.
abbrev pub limit : OperandType → ℕ
limit OperandType.no_operands = 1
limit OperandType.operand_char = 256
limit OperandType.operand_short = 65536

-- The constant of `rstF` is a byte.
unfoldable pub has_vector : Instruction → Bool
has_vector (Instruction.rst_f f) = ltb f 256
has_vector _ = true

module _ {free : Bool} {m : Machine} (well : IsWell free m) where
  operand_then :
      {Q : Unit {0} → Type 0} (s : Operand) (n : ℕ) (f : ℕ → Machine → Option (Unit {0} × Machine))
      → n < limit (operand_parameter s)
      → ((v : ℕ) → v < 256 → Outcome free Q (f v m))
      → Outcome free Q (elim (read_operand s n m) [ none ↦ none | some (v, m') ↦ f v m' ])
  unfolding operand_parameter
  operand_then (Operand.reg r) n f fits next = next _ (get8-lt r well.width)
  operand_then (Operand.at w) n f fits next = after_read _ f well next
  operand_then Operand.immediate n f fits next = next n fits

  address_then :
      {Q : Unit {0} → Type 0} (a : Address) (n : ℕ) (f : ℕ → Machine → Option (Unit {0} × Machine))
      → n < limit (address_parameter a)
      → ((v : ℕ) → v < 65536 → Outcome free Q (f v m))
      → Outcome free Q (elim (read_address a n m) [ none ↦ none | some (v, m') ↦ f v m' ])
  unfolding address_parameter
  address_then (Address.pair w) n f fits next = next _ (get16-lt w well.width)
  address_then Address.immediate_address n f fits next = next n fits

module _ {free : Bool} {m : Machine} (well : IsWell free m) where
  -- The call of any instruction with an operand of its parameter's type keeps the invariant.
  pub execute-Keeps :
      (i : Instruction) (n : ℕ)
      → has_vector i ≡ true
      → n < limit (parameter i)
      → Keeps free (execute i n) m
  unfolding execute parameter has_vector ld_r_s ld_dd_nn stop
  execute-Keeps Instruction.nop n v fits = returned tt well
  execute-Keeps Instruction.undefined n v fits = returned tt well
  execute-Keeps Instruction.ext_ops n v fits = returned tt well
  execute-Keeps Instruction.stop n v fits = stop-Keeps well
  execute-Keeps Instruction.halt n v fits = halt-Keeps well
  execute-Keeps Instruction.di n v fits = di-Keeps well
  execute-Keeps Instruction.ei n v fits = ei-Keeps well
  execute-Keeps Instruction.reti n v fits = reti-Keeps well
  execute-Keeps Instruction.ret n v fits = ret-Keeps well
  execute-Keeps Instruction.ldi_a_mhl n v fits = ldi_a_mhl-Keeps well
  execute-Keeps Instruction.ldi_mhl_a n v fits = ldi_mhl_a-Keeps well
  execute-Keeps Instruction.ldd_a_mhl n v fits = ldd_a_mhl-Keeps well
  execute-Keeps Instruction.ldd_mhl_a n v fits = ldd_mhl_a-Keeps well
  execute-Keeps Instruction.ld_sp_hl n v fits = ld_sp_hl-Keeps well
  execute-Keeps Instruction.inc_shl n v fits = inc_shl-Keeps well
  execute-Keeps Instruction.dec_shl n v fits = dec_shl-Keeps well
  execute-Keeps Instruction.swap_shl n v fits = swap_shl-Keeps well
  execute-Keeps Instruction.rlc_shl n v fits = rlc_shl-Keeps well
  execute-Keeps Instruction.rl_shl n v fits = rl_shl-Keeps well
  execute-Keeps Instruction.rrc_shl n v fits = rrc_shl-Keeps well
  execute-Keeps Instruction.rr_shl n v fits = rr_shl-Keeps well
  execute-Keeps Instruction.sla_shl n v fits = sla_shl-Keeps well
  execute-Keeps Instruction.sra_shl n v fits = sra_shl-Keeps well
  execute-Keeps Instruction.srl_shl n v fits = srl_shl-Keeps well
  execute-Keeps Instruction.daa n v fits = on_registers-Keeps well (daa-IsWidth well.width)
  execute-Keeps Instruction.cpl n v fits = on_registers-Keeps well (cpl-IsWidth well.width)
  execute-Keeps Instruction.scf n v fits = on_registers-Keeps well (scf-IsWidth well.width)
  execute-Keeps Instruction.ccf n v fits = on_registers-Keeps well (ccf-IsWidth well.width)
  execute-Keeps Instruction.rlc_a n v fits = on_registers-Keeps well (rlc_a-IsWidth well.width)
  execute-Keeps Instruction.rl_a n v fits = on_registers-Keeps well (rl_a-IsWidth well.width)
  execute-Keeps Instruction.rrc_a n v fits = on_registers-Keeps well (rrc_a-IsWidth well.width)
  execute-Keeps Instruction.rr_a n v fits = on_registers-Keeps well (rr_a-IsWidth well.width)
  execute-Keeps Instruction.ld_d_n n v fits = ld_d_n-Keeps well n fits
  execute-Keeps Instruction.ld_nn_sp n v fits = ld_nn_sp-Keeps well n fits
  execute-Keeps Instruction.jp_nn n v fits = jp_nn-Keeps well n fits
  execute-Keeps Instruction.call_nn n v fits = call_nn-Keeps well n fits
  execute-Keeps Instruction.ldh_a_n n v fits = ldh_a_n-Keeps well n
  execute-Keeps Instruction.jr_e n v fits = jr_e-Keeps well n
  execute-Keeps Instruction.ld_hl_sp_e n v fits =
      on_registers-Keeps well (ld_hl_sp_e-IsWidth well.width n)
  execute-Keeps Instruction.add_sp_e n v fits =
      on_registers-Keeps well (add_sp_e-IsWidth well.width n)
  execute-Keeps Instruction.jp_hl n v fits = jp_hl-Keeps well
  execute-Keeps Instruction.ld_a_c n v fits = ld_a_c-Keeps well
  execute-Keeps Instruction.jp_mhl n v fits =
      after (mmu_read_short-Outcome _ well) λ nn m' low well'. jp_nn-Keeps well' nn low
  execute-Keeps (Instruction.add_s s) n v fits =
      operand_then well s n _ fits λ o _. on_registers-Keeps well (add_s-IsWidth well.width o)
  execute-Keeps (Instruction.adc_s s) n v fits =
      operand_then well s n _ fits λ o _. on_registers-Keeps well (adc_s-IsWidth well.width o)
  execute-Keeps (Instruction.sub_s s) n v fits =
      operand_then well s n _ fits λ o _. on_registers-Keeps well (sub_s-IsWidth well.width o)
  execute-Keeps (Instruction.sbc_s s) n v fits =
      operand_then well s n _ fits λ o _. on_registers-Keeps well (sbc_s-IsWidth well.width o)
  execute-Keeps (Instruction.cmp_s s) n v fits =
      operand_then well s n _ fits λ o _. on_registers-Keeps well (cmp_s-IsWidth well.width o)
  execute-Keeps (Instruction.and_s s) n v fits =
      operand_then well s n _ fits λ o low. on_registers-Keeps well (and_s-IsWidth well.width o low)
  execute-Keeps (Instruction.or_s s) n v fits =
      operand_then well s n _ fits λ o low. on_registers-Keeps well (or_s-IsWidth well.width o low)
  execute-Keeps (Instruction.xor_s s) n v fits =
      operand_then well s n _ fits λ o low. on_registers-Keeps well (xor_s-IsWidth well.width o low)
  execute-Keeps (Instruction.ld_d_r r) n v fits = ld_d_r-Keeps well _ (get8-lt r well.width)
  execute-Keeps (Instruction.inc_s r) n v fits =
      on_registers-Keeps well (inc_s-IsWidth r well.width)
  execute-Keeps (Instruction.dec_s r) n v fits =
      on_registers-Keeps well (dec_s-IsWidth r well.width)
  execute-Keeps (Instruction.swap_s r) n v fits =
      on_registers-Keeps well (swap_s-IsWidth r well.width)
  execute-Keeps (Instruction.rlc_s r) n v fits =
      on_registers-Keeps well (rlc_s-IsWidth r well.width)
  execute-Keeps (Instruction.rl_s r) n v fits = on_registers-Keeps well (rl_s-IsWidth r well.width)
  execute-Keeps (Instruction.rrc_s r) n v fits =
      on_registers-Keeps well (rrc_s-IsWidth r well.width)
  execute-Keeps (Instruction.rr_s r) n v fits = on_registers-Keeps well (rr_s-IsWidth r well.width)
  execute-Keeps (Instruction.sla_s r) n v fits =
      on_registers-Keeps well (sla_s-IsWidth r well.width)
  execute-Keeps (Instruction.sra_s r) n v fits =
      on_registers-Keeps well (sra_s-IsWidth r well.width)
  execute-Keeps (Instruction.srl_s r) n v fits =
      on_registers-Keeps well (srl_s-IsWidth r well.width)
  execute-Keeps (Instruction.ld_dd_nn w) n v fits =
      on_registers-Keeps well (set16-IsWidth w n well.width)
  execute-Keeps (Instruction.push_ss w) n v fits = push_ss-Keeps well _ (get16-lt w well.width)
  execute-Keeps (Instruction.pop_dd w) n v fits = pop_dd-Keeps well w
  execute-Keeps (Instruction.add_hl_ss w) n v fits =
      on_registers-Keeps well (add_hl_ss-IsWidth well.width _)
  execute-Keeps (Instruction.inc_ss w) n v fits =
      on_registers-Keeps well (inc_ss-IsWidth well.width w)
  execute-Keeps (Instruction.dec_ss w) n v fits =
      on_registers-Keeps well (dec_ss-IsWidth well.width w)
  execute-Keeps (Instruction.ld_r_s r s) n v fits =
      operand_then well s n _ fits λ o _. on_registers-Keeps well (set8-IsWidth r o well.width)
  execute-Keeps (Instruction.ldh_n_a s) n v fits =
      operand_then well s n _ fits λ o low. ldh_n_a-Keeps well o low
  execute-Keeps (Instruction.ld_dd_a a) n v fits =
      address_then well a n _ fits λ o low. ld_dd_a-Keeps well o low
  execute-Keeps (Instruction.ld_a_ss a) n v fits =
      address_then well a n _ fits λ o _. ld_a_ss-Keeps well o
  execute-Keeps (Instruction.jr_cc_e flag condition) n v fits = jr_cc_e-Keeps well n flag condition
  execute-Keeps (Instruction.jp_cc_nn flag condition) n v fits =
      jp_cc_nn-Keeps well n flag condition fits
  execute-Keeps (Instruction.call_cc_nn flag condition) n v fits =
      call_cc_nn-Keeps well n flag condition fits
  execute-Keeps (Instruction.ret_cc flag condition) n v fits = ret_cc-Keeps well flag condition
  execute-Keeps (Instruction.rst_f f) n v fits = rst_f-Keeps well f (ground arith)
  execute-Keeps (Instruction.bit_b_shl b) n v fits = bit_b_shl-Keeps well b
  execute-Keeps (Instruction.set_b_shl b) n v fits = set_b_shl-Keeps well b
  execute-Keeps (Instruction.res_b_shl b) n v fits = res_b_shl-Keeps well b
  execute-Keeps (Instruction.bit_b_s b r) n v fits =
      on_registers-Keeps well (bit_b_s-IsWidth well.width b r)
  execute-Keeps (Instruction.set_b_s b r) n v fits =
      on_registers-Keeps well (set_b_s-IsWidth well.width b r)
  execute-Keeps (Instruction.res_b_s b r) n v fits =
      on_registers-Keeps well (res_b_s-IsWidth well.width b r)
