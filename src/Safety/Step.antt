-- ===== src/Safety/Step.antt =====
-- src/cpu.c: `cpuStep` keeps the machine's invariant.
use game_bloat.Prelude.{
  ℕ, ◌+◌, ◌^◌, ◌<◌, ◌≡◌, ◌≢◌, refl, arith, some, none, Bool, true, false, ◌==◌, ◌&&◌, u8, u16,
  Bool-cases, inl, inr, sym,
}
use game_bloat.Prelude.Bytes.{all_below, all_below_sound}
use game_bloat.Machine.{Machine}
use game_bloat.Cpu.Opcode.{Opcode, Instruction, OperandType, operand_bytes}
use game_bloat.Cpu.Opcode.Base.{base_opcode_table}
use game_bloat.Cpu.Opcode.Cb.{cb_opcode_table}
use game_bloat.Cpu.Opcode.Operands.{
  parameter, base_operand_type-parameter, cb_operand_type-parameter,
}
use game_bloat.Cpu.Step.{
  read_immediate, entry, no_opcode, determine_opcode, determine_operand, execute_opcode, cpu_step,
  next_instruction,
}
use game_bloat.Cpu.Step.Laws.{dump_fails, after_dump}
use game_bloat.Safety.{IsWell, Outcome, undefined, returned, after, registers-IsWell}
use game_bloat.Safety.Access.{after_read, mmu_read_short-Outcome}
use game_bloat.Safety.Width.{pc-IsWidth}
use game_bloat.Safety.Commands.{Keeps, ticks-IsWell}
use game_bloat.Safety.Instructions.{limit, has_vector, execute-Keeps}

vector_table :
    all_below 256 (λ i.
      has_vector (entry no_opcode base_opcode_table i).function
      && has_vector (entry no_opcode cb_opcode_table i).function)
    ≡ true
unfolding all_below entry has_vector
vector_table = refl

-- An entry whose operand is of its function's parameter's type.
abbrev pub IsEntry : Opcode → Type 0
IsEntry o =
    (operand_bytes o.operand_type ≡ operand_bytes (parameter o.function))
    × (has_vector o.function ≡ true)

base-IsEntry : (i : ℕ) → i < 256 → i ≢ 0xCB → IsEntry (entry no_opcode base_opcode_table i)
base-IsEntry i byte ne = (
  base_operand_type-parameter i byte ne,
  let h = all_below_sound 256 _ i vector_table byte in ground (arith, h),
)

cb-IsEntry : (i : ℕ) → i < 256 → IsEntry (entry no_opcode cb_opcode_table i)
cb-IsEntry i byte = (
  cb_operand_type-parameter i byte,
  let h = all_below_sound 256 _ i vector_table byte in ground (arith, h),
)

limit-operand_bytes : (t u : OperandType) → operand_bytes t ≡ operand_bytes u → limit t ≡ limit u
limit-operand_bytes t u same = ground arith

within : (t u : OperandType) (n : ℕ) → operand_bytes t ≡ operand_bytes u → n < limit t → n < limit u
within t u n same fits = rw (sym (limit-operand_bytes t u same)) fits

module _ {free : Bool} {m : Machine} (well : IsWell free m) where
  operand_of :
      (t : OperandType) (bytes : ℕ)
      → Outcome free
          (λ n. n < limit t)
          (elim (read_immediate t m.registers.pc m) [
            | none ↦ none
            | some (n, m') ↦ some (
              n,
              record m' {
                registers = record (m'.registers) { pc = u16 (m'.registers.pc + bytes) };
              },
            )
          ])
  operand_of OperandType.no_operands bytes =
      returned (omega arith) (registers-IsWell well (pc-IsWidth _ (omega arith) well.width))
  operand_of OperandType.operand_char bytes =
      after_read _ _ well
        λ n fits. returned fits (registers-IsWell well (pc-IsWidth _ (omega arith) well.width))
  operand_of OperandType.operand_short bytes =
      after (mmu_read_short-Outcome _ well) λ n m' fits well'.
        returned fits (registers-IsWell well' (pc-IsWidth _ (omega arith) well'.width))

  determine_opcode-Outcome : Outcome free IsEntry (determine_opcode m)
  unfolding determine_opcode
  determine_opcode-Outcome =
      let first =
        registers-IsWell well (pc-IsWidth (u16 (m.registers.pc + 1)) (omega arith) well.width) in
      after_read _ _ first λ i byte. elim (Bool-cases (i == 0xCB)) [
        | inl ext ↦ rw ext (
            let second =
              registers-IsWell first
                (pc-IsWidth (u16 (u16 (m.registers.pc + 1) + 1)) (omega arith) first.width) in
            after_read _ _ second λ j byte'. returned (cb-IsEntry j byte') (ticks-IsWell second _))
        | inr base ↦
            rw base (
              returned (base-IsEntry i byte (λ same. absurd (ground arith))) (ticks-IsWell first _))
      ]

  determine_operand-Outcome :
      (o : Opcode) → Outcome free (λ n. n < limit o.operand_type) (determine_operand o m)
  unfolding determine_operand
  determine_operand-Outcome o = operand_of o.operand_type (operand_bytes o.operand_type)

  by_type :
      (t : OperandType) (function : Instruction) (n : ℕ)
      → operand_bytes t ≡ operand_bytes (parameter function)
      → has_vector function ≡ true
      → n < limit t
      → Keeps free (execute_opcode (record { operand_type = t; function = function }) n) m
  unfolding execute_opcode
  by_type OperandType.no_operands function n bytes vector fits =
      execute-Keeps well function 0 vector (within OperandType.no_operands _ 0 bytes (omega arith))
  by_type OperandType.operand_char function n bytes vector fits =
      execute-Keeps well function (u8 n) vector
        (within OperandType.operand_char _ (u8 n) bytes (omega arith))
  by_type OperandType.operand_short function n bytes vector fits =
      execute-Keeps well function n vector (within OperandType.operand_short _ n bytes fits)

  execute_opcode-Keeps :
      (o : Opcode) (n : ℕ)
      → IsEntry o
      → n < limit o.operand_type
      → Keeps free (execute_opcode o n) m
  unfolding execute_opcode
  execute_opcode-Keeps o n (bytes, vector) fits =
      by_type o.operand_type o.function n bytes vector fits

next_instruction-Outcome :
    {free : Bool} (m : Machine)
    → IsWell free m
    → Outcome free (λ ticks. ticks < 2 ^ 32) (next_instruction m)
unfolding next_instruction
next_instruction-Outcome m well = after (determine_opcode-Outcome well) λ o m1 is_entry well1.
    after (determine_operand-Outcome well1 o) λ n m2 fits well2.
      after (execute_opcode-Keeps well2 o n is_entry fits)
        λ _ m3 _ well3. returned (omega arith) well3

unopened : {free : Bool} {m : Machine} → IsWell free m → m.tile_file ≡ false → free ≡ true
unopened well fails = let dump = well.dump in ground arith

-- A step of the CPU from a well-formed machine is defined where the cartridge has room and the file of
-- the tiles can be opened, and leaves a well-formed machine; the ticks that it returns are 32 bits.
pub cpu_step-Outcome :
    {free : Bool} (m : Machine)
    → IsWell free m
    → Outcome free (λ ticks. ticks < 2 ^ 32) (cpu_step m)
cpu_step-Outcome m well =
    rw (after_dump m (next_instruction m) refl) (elim (Bool-cases (dump_fails m)) [
      | inl fails ↦ rw fails (undefined (unopened well (ground (arith, fails))))
      | inr runs ↦ rw runs (next_instruction-Outcome m well)
    ])
