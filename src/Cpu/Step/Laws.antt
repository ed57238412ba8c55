-- ===== src/Cpu/Step/Laws.antt =====
-- src/cpu.c: `cpuStep` on an instruction in memory, from the fetch to the ticks used.
use game_bloat.Prelude.{
  ◌&&◌, not, ℕ, zero, suc, ◌+◌, ◌-◌, ◌*◌, ◌%◌, ◌^◌, ◌<◌, ◌≡◌, ◌≢◌, ◌∙◌, refl, ap, arith, Option,
  none, some, Bool, true, false, ltb, ◌==◌, if◌then◌else◌, u8, u16, u32,
}
use game_bloat.Machine.{Machine, Command, ◌>>=◌, ◌>>◌, pure}
use game_bloat.Memory.{read_memory, mmu_read_byte}
use game_bloat.Memory.Ram.{read_memory-set_registers}
use game_bloat.Cpu.Flags.{flag_zero, flag_carry, check_flag}
use game_bloat.Cpu.Control.{sign_extend, jr_e, jr_cc_e, add_ticks}
use game_bloat.Cpu.Opcode.{Opcode, op, Instruction, OperandType}
use game_bloat.Cpu.Opcode.Base.{base_opcode_table, base_opcode_ticks}
use game_bloat.Cpu.Step.{
  entry, no_opcode, determine_opcode, determine_operand, execute_opcode, execute, cpu_step,
  next_instruction,
}

-- The machine with the program counter and the ticks moved.
abbrev pub advanced : (bytes ticks : ℕ) → Machine → Machine
advanced bytes ticks m = record m {
  registers = record (m.registers) { pc = u16 (m.registers.pc + bytes) };
  tick_counter = (m.tick_counter + ticks) % 2 ^ 64;
}

determine_opcode-base :
    (m : Machine) (i : ℕ)
    → read_memory m m.registers.pc ≡ some i
    → i ≢ 0xCB
    → determine_opcode m
      ≡ some (entry no_opcode base_opcode_table i, advanced 1 (entry 0 base_opcode_ticks i) m)
unfolding determine_opcode mmu_read_byte
determine_opcode-base m i cell ne = ground (
  arith,
  read_memory-set_registers m.registers.pc m
      (record (m.registers) { pc = u16 (m.registers.pc + 1) }),
)

read_memory-advanced :
    (bytes ticks : ℕ) (m : Machine) (a : ℕ)
    → read_memory (advanced bytes ticks m) a ≡ read_memory m a
unfolding read_memory
read_memory-advanced bytes ticks m a = refl

-- The rest of `cpuStep` once the opcode is known.
abbrev finished : Machine → Opcode → Command ℕ
finished m o = do
  n ← determine_operand o
  execute_opcode o n
  λ m'. pure (u32 (m'.tick_counter + 2 ^ 64 - m.tick_counter)) m'

pub next_instruction-base :
    (m : Machine) (i : ℕ) (o : Opcode) (ticks : ℕ)
    → read_memory m m.registers.pc ≡ some i
    → i ≢ 0xCB
    → entry no_opcode base_opcode_table i ≡ o
    → entry 0 base_opcode_ticks i ≡ ticks
    → next_instruction m ≡ finished m o (advanced 1 ticks m)
unfolding next_instruction
next_instruction-base m i o ticks cell ne at_table at_ticks =
    ap
      (λ (x : Option (Opcode × Machine)). elim x as (λ _. Option (ℕ × Machine)) [
        | none ↦ none
        | some (o', m') ↦ finished m o' m'
      ])
      (determine_opcode-base m i cell ne)
    ∙ ap (λ t. finished m (entry no_opcode base_opcode_table i) (advanced 1 t m)) at_ticks
    ∙ ap (λ o'. finished m o' (advanced 1 ticks m)) at_table

operand_char_step :
    (m : Machine) (function : Instruction) (e : ℕ)
    → read_memory m m.registers.pc ≡ some e
    → determine_operand (op OperandType.operand_char function) m
      ≡ some (e, record m { registers = record (m.registers) { pc = u16 (m.registers.pc + 1) } })
unfolding determine_operand mmu_read_byte
operand_char_step m function e cell = ground (arith, cell)

finished_char :
    (m m' : Machine) (function : Instruction) (e : ℕ)
    → read_memory m' m'.registers.pc ≡ some e
    → finished m (op OperandType.operand_char function) m'
      ≡ (execute function (u8 e)
            >> (λ m''. pure (u32 (m''.tick_counter + 2 ^ 64 - m.tick_counter)) m''))
          (record m' { registers = record (m'.registers) { pc = u16 (m'.registers.pc + 1) } })
unfolding execute_opcode
finished_char m m' function e cell =
    ap
      (λ (x : Option (ℕ × Machine)). elim x as (λ _. Option (ℕ × Machine)) [
        | none ↦ none
        | some (n, m2) ↦
            (execute function (u8 n)
                >> (λ m''. pure (u32 (m''.tick_counter + 2 ^ 64 - m.tick_counter)) m''))
              m2
      ])
      (operand_char_step m' function e cell)

-- The two ends of a conditional JR, at the machine after the operand.
jr_end :
    (m : Machine) (e : ℕ) (taken : Bool)
    → e < 256
    → m.tick_counter < 2 ^ 64
    → let m2 = record (advanced 1 8 m) {
      registers = record (m.registers) { pc = u16 (u16 (m.registers.pc + 1) + 1) };
    } in
      ((λ (m' : Machine). if taken then (jr_e (u8 e) >> add_ticks 4) m' else pure tt m')
          >> (λ m''. pure (u32 (m''.tick_counter + 2 ^ 64 - m.tick_counter)) m''))
        m2
      ≡ some (
        if taken then 12 else 8,
        advanced (if taken then 2 + sign_extend e else 2) (if taken then 12 else 8) m,
      )
unfolding jr_e
jr_end m e true fits clock = ground arith
jr_end m e false fits clock = ground arith

jr_step :
    (m : Machine) (i e flag condition : ℕ)
    → read_memory m m.registers.pc ≡ some i
    → i ≢ 0xCB
    → entry no_opcode base_opcode_table i
      ≡ op OperandType.operand_char (Instruction.jr_cc_e flag condition)
    → entry 0 base_opcode_ticks i ≡ 8
    → read_memory m (u16 (m.registers.pc + 1)) ≡ some e
    → e < 256
    → m.tick_counter < 2 ^ 64
    → let taken = check_flag flag m.registers == condition in
      next_instruction m
      ≡ some (
        if taken then 12 else 8,
        advanced (if taken then 2 + sign_extend e else 2) (if taken then 12 else 8) m,
      )
unfolding execute jr_cc_e
jr_step m i e flag condition cell ne at_table at_ticks operand fits clock =
    next_instruction-base m i _ 8 cell ne at_table at_ticks
    ∙ finished_char m (advanced 1 8 m) (Instruction.jr_cc_e flag condition) e
        (read_memory-advanced 1 8 m (u16 (m.registers.pc + 1)) ∙ operand)
    ∙ jr_end m e (check_flag flag m.registers == condition) fits clock

-- The dump in front of an instruction is undefined: at the one address, if the file cannot be opened.
abbrev pub dump_fails : Machine → Bool
dump_fails m = (m.registers.pc == 0x282A) && not m.tile_file

dump_cases :
    (here opens : Bool) (m : Machine)
    → (if here
        then (λ (x : Option (Unit {0} × Machine)). elim x as (λ _. Option (ℕ × Machine)) [
          | none ↦ none
          | some (_, m') ↦ next_instruction m'
        ])
            (if opens then some (tt, m) else none)
        else next_instruction m)
      ≡ (if here && not opens then none else next_instruction m)
dump_cases false opens m = refl
dump_cases true false m = refl
dump_cases true true m = refl

pub after_dump :
    (m : Machine) (result : Option (ℕ × Machine))
    → next_instruction m ≡ result
    → cpu_step m ≡ (if dump_fails m then none else result)
unfolding cpu_step
after_dump m result done =
    dump_cases (m.registers.pc == 0x282A) m.tile_file m
    ∙ ap (λ x. if dump_fails m then none else x) done

-- A conditional JR at 0x20, 0x28, 0x30 or 0x38, from memory: the four test Z for 0, Z for 1, C
-- for 0 and C for 1. When the test fails the program counter moves by 2 and 8 ticks are used; when it
-- holds, by 2 and the signed displacement, and 12 ticks are used. Nothing else changes. At 0x282A
-- the step is undefined if the file of the tiles cannot be opened.
pub cpu_step-jr_cc :
    (m : Machine) (k e : ℕ)
    → k < 4
    → read_memory m m.registers.pc ≡ some (0x20 + k * 8)
    → read_memory m (u16 (m.registers.pc + 1)) ≡ some e
    → e < 256
    → m.tick_counter < 2 ^ 64
    → let taken = check_flag (if ltb k 2 then flag_zero else flag_carry) m.registers == k % 2 in
      cpu_step m ≡ (
        if dump_fails m
        then none
        else some (
          if taken then 12 else 8,
          advanced (if taken then 2 + sign_extend e else 2) (if taken then 12 else 8) m,
        ))
unfolding entry
cpu_step-jr_cc m zero e low cell operand fits clock =
    after_dump m _ (jr_step m 0x20 e flag_zero 0 cell (omega arith) refl refl operand fits clock)
cpu_step-jr_cc m (suc zero) e low cell operand fits clock =
    after_dump m _ (jr_step m 0x28 e flag_zero 1 cell (omega arith) refl refl operand fits clock)
cpu_step-jr_cc m (suc (suc zero)) e low cell operand fits clock =
    after_dump m _ (jr_step m 0x30 e flag_carry 0 cell (omega arith) refl refl operand fits clock)
cpu_step-jr_cc m (suc (suc (suc zero))) e low cell operand fits clock =
    after_dump m _ (jr_step m 0x38 e flag_carry 1 cell (omega arith) refl refl operand fits clock)
cpu_step-jr_cc m (suc (suc (suc (suc k)))) e low cell operand fits clock = absurd (omega arith)
