-- ===== src/Tests/Instructions.antt =====
-- The instructions, the stack and the interrupts on one machine.
use game_bloat.Prelude.{
  ◌+◌, ◌/◌, ◌%◌, ◌≡◌, refl, arith, none, some, ltb, ◌==◌, if◌then◌else◌, bit_and,
}
use game_bloat.Registers.{ByteRegister, get8, set16, reg_a, reg_e, reg_de, reg_bc}
use game_bloat.Machine.{Machine, ◌>>◌}
use game_bloat.Memory.{read_memory}
use game_bloat.Memory.Ram.{store_ram}
use game_bloat.Interrupt.Step.{interrupt_step}
use game_bloat.Interrupt.Step.Laws.{
  interrupt_step_lem, reti-serviced, first_pending, service_order, serviced, entering,
}
use game_bloat.Cpu.Flags.{flag_zero, flag_carry, check_flag}
use game_bloat.Cpu.Alu.{inc_s, dec_s}
use game_bloat.Cpu.Shift.{
  rlc_s, rl_s, rrc_s, rr_s, sla_s, sra_s, srl_s, swap_s, bit_b_s, set_b_s, res_b_s,
}
use game_bloat.Cpu.Indirect.{
  inc_shl, dec_shl, swap_shl, rlc_shl, rl_shl, rrc_shl, rr_shl, sla_shl, sra_shl, srl_shl,
  bit_b_shl, set_b_shl, res_b_shl,
}
use game_bloat.Cpu.Indirect.Laws.{indirect_lem, in_cell}
use game_bloat.Cpu.Control.{before, ret, reti, push_ss, pop_dd, sign_extend}
use game_bloat.Cpu.Control.Laws.{
  HasStack, KeepsFrame, called, call_nn-called, ret-called, pop_dd-push_ss,
}
use game_bloat.Cpu.Opcode.{Instruction, operand_bytes, at}
use game_bloat.Cpu.Opcode.Base.{base_opcode_table}
use game_bloat.Cpu.Opcode.Cb.{cb_opcode_table}
use game_bloat.Cpu.Opcode.Decode.{
  decode_base, decode_cb, base_opcode_table-decode_base, cb_opcode_table-decode_cb, register_code,
}
use game_bloat.Cpu.Opcode.Operands.{parameter, base_operand_type-parameter}
use game_bloat.Cpu.Step.{entry, no_opcode, cpu_step}
use game_bloat.Cpu.Step.Laws.{advanced, cpu_step-jr_cc, dump_fails}
use game_bloat.Cpu.Step.Arithmetic.{operation, cpu_step-arithmetic}
use game_bloat.Tests.Data.{machine, adding, jumping}

stacked : HasStack machine
stacked = record { sp_fits = omega arith; upper = refl; lower = refl }

-- A subroutine that changed A.
abbrev entered : Machine
entered = let c = called 0x4000 machine in record c { registers = record (c.registers) { a = 1 } }

kept : KeepsFrame (called 0x4000 machine) entered
unfolding read_memory
kept = record { same_sp = refl; same_low = refl; same_high = refl }

-- An interrupt handler that changed A.
abbrev handling : Machine
handling =
    let c = serviced 1 (entering 1 machine) in
    record c { registers = record (c.registers) { a = 1 } }

enters : interrupt_step machine ≡ some (tt, serviced 1 (entering 1 machine))
unfolding first_pending service_order
enters = interrupt_step_lem machine stacked (omega arith) (omega arith)

held : KeepsFrame (serviced 1 (entering 1 machine)) handling
unfolding read_memory serviced
held = record { same_sp = refl; same_low = refl; same_high = refl }

cpu_step-arithmetic_example : cpu_step adding ≡ (
    if dump_fails adding
    then none
    else some (
      4,
      (let m' = advanced 1 4 adding in
          record m' { registers = operation 0 (get8 (register_code 0) m'.registers) m'.registers }),
    ))
unfolding read_memory
cpu_step-arithmetic_example =
    cpu_step-arithmetic adding 0 0 (omega arith) (omega arith) (omega arith) refl (omega arith)

interrupt_step_lem_example : interrupt_step machine ≡ (
    let flags = bit_and machine.interrupts.enable machine.interrupts.request in
    if machine.interrupts.master_enable == 1
    then (if ltb 0 flags
        then elim (first_pending service_order flags) [
          | some mask ↦ some (tt, serviced mask (entering mask machine))
          | none ↦ some (
            tt,
            record machine { interrupts = record (machine.interrupts) { master_enable = 0 } },
          )
        ]
        else some (tt, machine))
    else some (tt, machine))
interrupt_step_lem_example = interrupt_step_lem machine stacked (omega arith) (omega arith)

ret-called_example :
    ret entered
    ≡ some (
      tt,
      record entered {
        registers = record (entered.registers) {
          pc = machine.registers.pc;
          sp = machine.registers.sp;
        };
      },
    )
ret-called_example =
    ret-called 0x4000 machine (called 0x4000 machine) entered stacked (omega arith)
      (call_nn-called 0x4000 machine stacked (omega arith)) kept

base_opcode_table-decode_base_example : (entry no_opcode base_opcode_table 0x87).function ≡ (
    if 0x87 == 0x1A
    then Instruction.ld_r_s reg_a (at reg_de)
    else if 0x87 == 0x1D
    then Instruction.inc_s reg_e
    else if 0x87 == 0xDC
    then Instruction.call_cc_nn flag_carry 0
    else if 0x87 == 0xE9
    then Instruction.jp_mhl
    else if 0x87 == 0xF2
    then Instruction.undefined
    else decode_base 0x87)
base_opcode_table-decode_base_example = base_opcode_table-decode_base 0x87 (omega arith)

indirect_lem_example :
    (inc_shl machine ≡ some (tt, in_cell inc_s 0 machine))
    × (dec_shl machine ≡ some (tt, in_cell dec_s 0 machine))
    × (swap_shl machine ≡ some (tt, in_cell swap_s 0 machine))
    × (rlc_shl machine ≡ some (tt, in_cell rlc_s 0 machine))
    × (rl_shl machine ≡ some (tt, in_cell rl_s 0 machine))
    × (rrc_shl machine ≡ some (tt, in_cell rrc_s 0 machine))
    × (rr_shl machine ≡ some (tt, in_cell rr_s 0 machine))
    × (sla_shl machine ≡ some (tt, in_cell sla_s 0 machine))
    × (sra_shl machine ≡ some (tt, in_cell sra_s 0 machine))
    × (srl_shl machine ≡ some (tt, in_cell srl_s 0 machine))
    × (set_b_shl 3 machine ≡ some (tt, in_cell (set_b_s 3) 0 machine))
    × (res_b_shl 3 machine ≡ some (tt, in_cell (res_b_s 3) 0 machine))
    × (bit_b_shl 3 machine
        ≡ some (
          tt,
          record machine {
            registers = record (machine.registers) {
              f = (bit_b_s 3 ByteRegister.reg_b (record (machine.registers) { b = 0 })).f;
            };
          },
        ))
unfolding read_memory
indirect_lem_example = indirect_lem machine 0 3 refl refl (omega arith) (omega arith)

cpu_step-jr_cc_example :
    let taken = check_flag (if ltb 0 2 then flag_zero else flag_carry) jumping.registers == 0 % 2 in
    cpu_step jumping ≡ (
      if dump_fails jumping
      then none
      else some (
        if taken then 12 else 8,
        advanced (if taken then 2 + sign_extend 0xFE else 2) (if taken then 12 else 8) jumping,
      ))
unfolding read_memory
cpu_step-jr_cc_example =
    cpu_step-jr_cc jumping 0 0xFE (omega arith) refl refl (omega arith) (omega arith)

cb_opcode_table-decode_cb_example : (entry no_opcode cb_opcode_table 0x37).function ≡ (
    if 0x37 == 0x07
    then Instruction.rlc_a
    else if 0x37 == 0x0F
    then Instruction.rrc_a
    else if 0x37 == 0x17
    then Instruction.rl_a
    else if 0x37 == 0x1F
    then Instruction.rr_a
    else decode_cb 0x37)
cb_opcode_table-decode_cb_example = cb_opcode_table-decode_cb 0x37 (omega arith)

base_operand_type-parameter_example :
    operand_bytes (entry no_opcode base_opcode_table 0x06).operand_type
    ≡ operand_bytes (parameter (entry no_opcode base_opcode_table 0x06).function)
base_operand_type-parameter_example = base_operand_type-parameter 0x06 (omega arith) (omega arith)

reti-serviced_example :
    reti handling
    ≡ some (
      tt,
      record handling {
        registers = record (handling.registers) {
          pc = if 1 == 8 then 0x50 else machine.registers.pc;
          sp = machine.registers.sp;
        };
        interrupts = record (handling.interrupts) { master_enable = 1 };
      },
    )
unfolding first_pending service_order
reti-serviced_example =
    reti-serviced 1 machine (serviced 1 (entering 1 machine)) handling stacked (omega arith)
      (omega arith) refl refl enters held

pop_dd-push_ss_example :
    let m1 = store_ram (before machine.registers.sp) (0x1234 % 256) machine in
    let m2 = store_ram (before (before machine.registers.sp)) (0x1234 / 256) m1 in
    (push_ss 0x1234 >> pop_dd reg_bc) machine
    ≡ some (tt, record m2 { registers = set16 reg_bc (0x1234 % 256) machine.registers })
pop_dd-push_ss_example = pop_dd-push_ss 0x1234 reg_bc machine stacked (omega arith)
