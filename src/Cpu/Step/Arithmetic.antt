-- ===== src/Cpu/Step/Arithmetic.antt =====
-- src/cpu.c: `cpuStep` on the block 0x80-0xBF, the arithmetic of A with a register.
use game_bloat.Prelude.{
  none, if◌then◌else◌, ℕ, zero, suc, ◌+◌, ◌-◌, ◌*◌, ◌/◌, ◌%◌, ◌^◌, ◌<◌, ◌≡◌, ◌≢◌, ◌∙◌, refl, sym,
  ap, arith, List, [], ◌∷◌, Option, none, some, true, false, ◌==◌, ◌||◌, u16, u32,
}
use game_bloat.Prelude.Bytes.{all_below, all_below_sound}
use game_bloat.Registers.{Registers, ByteRegister, get8}
use game_bloat.Machine.{Machine, on_registers}
use game_bloat.Memory.{read_memory}
use game_bloat.Cpu.Alu.{add_s, adc_s, sub_s, sbc_s, and_s, or_s, xor_s, cmp_s}
use game_bloat.Cpu.Opcode.{op, Instruction, OperandType, reg}
use game_bloat.Cpu.Opcode.Base.{base_opcode_table, base_opcode_ticks}
use game_bloat.Cpu.Opcode.Decode.{
  decode_base, tabulate_from, entry-tabulate_from, register_code, arithmetic_code,
}
use game_bloat.Cpu.Step.{
  entry, no_opcode, determine_operand, execute_opcode, execute, cpu_step, next_instruction,
}
use game_bloat.Cpu.Step.Laws.{advanced, next_instruction-base, dump_fails, after_dump}

-- The operation that the three bits in the middle select.
pub operation : ℕ → ℕ → Registers → Registers
operation zero = add_s
operation (suc zero) = adc_s
operation (suc (suc zero)) = sub_s
operation (suc (suc (suc zero))) = sbc_s
operation (suc (suc (suc (suc zero)))) = and_s
operation (suc (suc (suc (suc (suc zero))))) = xor_s
operation (suc (suc (suc (suc (suc (suc zero)))))) = or_s
operation _ = cmp_s

run_entry :
    (m : Machine) (i : ℕ) (r : ByteRegister) (f : ℕ → Registers → Registers)
    (instruction : Instruction)
    → read_memory m m.registers.pc ≡ some i
    → i ≢ 0xCB
    → entry no_opcode base_opcode_table i ≡ op OperandType.no_operands instruction
    → entry 0 base_opcode_ticks i ≡ 4
    → ((m' : Machine) → execute instruction 0 m' ≡ on_registers (λ x. f (get8 r x) x) m')
    → m.tick_counter < 2 ^ 64
    → next_instruction m
      ≡ some (
        4,
        (let m' = advanced 1 4 m in record m' { registers = f (get8 r m'.registers) m'.registers }),
      )
unfolding determine_operand execute_opcode
run_entry m i r f instruction cell ne at_table at_ticks run clock =
    let landed : ℕ → Option (ℕ × Machine) = λ pc.
      let x = record (m.registers) { pc = pc } in
      some (
        u32 ((m.tick_counter + 4) % 2 ^ 64 + 2 ^ 64 - m.tick_counter),
        record (advanced 1 4 m) { registers = f (get8 r x) x },
      ) in
    let used : u32 ((m.tick_counter + 4) % 2 ^ 64 + 2 ^ 64 - m.tick_counter) ≡ 4 = ground arith in
    let same : u16 (u16 (m.registers.pc + 1) + 0) ≡ u16 (m.registers.pc + 1) = omega arith in
    next_instruction-base m i _ 4 cell ne at_table at_ticks
    ∙ ap
        (λ (x : Option (Unit {0} × Machine)). elim x as (λ _. Option (ℕ × Machine)) [
          | none ↦ none
          | some (_, m') ↦ some (u32 (m'.tick_counter + 2 ^ 64 - m.tick_counter), m')
        ])
        (run (record (advanced 1 4 m) {
          registers = record (m.registers) { pc = u16 (u16 (m.registers.pc + 1) + 0) };
        }))
    ∙ ap landed same
    ∙ ap
        (λ t. some (
          t,
          (let m' = advanced 1 4 m in
              record m' { registers = f (get8 r m'.registers) m'.registers }),
        ))
        used

drop {ℓ} : {A : Type ℓ} → ℕ → List A → List A
drop zero xs = xs
drop (suc n) [] = []
drop (suc n) (x ∷ xs) = drop n xs

firsts {ℓ} : {A : Type ℓ} → ℕ → List A → List A
firsts zero xs = []
firsts (suc n) [] = []
firsts (suc n) (x ∷ xs) = x ∷ firsts n xs

entry-drop {ℓ} :
    {A : Type ℓ} (x : A) (n i : ℕ) (xs : List A) → entry x (drop n xs) i ≡ entry x xs (n + i)
unfolding entry drop
entry-drop x zero i xs = let same : i ≡ 0 + i = omega arith in ap (entry x xs) same
entry-drop x (suc n) i [] = let same : suc (n + i) ≡ suc n + i = omega arith in ap (entry x []) same
entry-drop x (suc n) i (y ∷ xs) =
    let same : suc (n + i) ≡ suc n + i = omega arith in
    entry-drop x n i xs ∙ ap (entry x (y ∷ xs)) same

entry-firsts {ℓ} :
    {A : Type ℓ} (x : A) (n i : ℕ) (xs : List A) → i < n → entry x (firsts n xs) i ≡ entry x xs i
unfolding entry firsts
entry-firsts x zero i xs lt = absurd (omega arith)
entry-firsts x (suc n) i [] lt = refl
entry-firsts x (suc n) zero (y ∷ xs) lt = refl
entry-firsts x (suc n) (suc i) (y ∷ xs) lt = entry-firsts x n i xs (omega arith)

block :
    firsts 64 (drop 0x80 base_opcode_table)
    ≡ tabulate_from (λ i. op OperandType.no_operands (decode_base i)) 0x80 64
unfolding firsts drop tabulate_from decode_base
block = refl

block_entry :
    (j : ℕ)
    → j < 64
    → entry no_opcode base_opcode_table (0x80 + j)
      ≡ op OperandType.no_operands (decode_base (0x80 + j))
block_entry j lt =
    sym (entry-drop no_opcode 0x80 j base_opcode_table)
    ∙ sym (entry-firsts no_opcode 64 j (drop 0x80 base_opcode_table) lt)
    ∙ ap (λ l. entry no_opcode l j) block
    ∙ entry-tabulate_from no_opcode (λ i. op OperandType.no_operands (decode_base i)) 0x80 64 j lt

block_ticks : all_below 64 (λ j. (j % 8 == 6) || (entry 0 base_opcode_ticks (0x80 + j) == 4)) ≡ true
unfolding all_below entry
block_ticks = refl

four_ticks : (j t : ℕ) → j % 8 ≢ 6 → ((j % 8 == 6) || (t == 4)) ≡ true → t ≡ 4
four_ticks j t ne h = ground arith

decoded :
    (y z : ℕ)
    → y < 8
    → z < 8
    → z ≢ 6
    → decode_base (0x80 + (y * 8 + z)) ≡ arithmetic_code y (reg (register_code z))
unfolding decode_base
decoded y z hy hz ne =
    let i = 0x80 + (y * 8 + z) in
    let e1 : i / 64 ≡ 2 = omega arith in
    let e2 : i / 8 % 8 ≡ y = omega arith in
    let e3 : i % 8 ≡ z = omega arith in
    let e4 : (z == 6) ≡ false = ground arith in rw (e1, e2, e3, e4) refl

runs :
    (y : ℕ) (r : ByteRegister) (m : Machine)
    → y < 8
    → execute (arithmetic_code y (reg r)) 0 m ≡ on_registers (λ x. operation y (get8 r x) x) m
unfolding execute operation entry
runs zero r m lt = refl
runs (suc zero) r m lt = refl
runs (suc (suc zero)) r m lt = refl
runs (suc (suc (suc zero))) r m lt = refl
runs (suc (suc (suc (suc zero)))) r m lt = refl
runs (suc (suc (suc (suc (suc zero))))) r m lt = refl
runs (suc (suc (suc (suc (suc (suc zero)))))) r m lt = refl
runs (suc (suc (suc (suc (suc (suc (suc zero))))))) r m lt = refl
runs (suc (suc (suc (suc (suc (suc (suc (suc y)))))))) r m lt = absurd (omega arith)

-- An instruction of the block 0x80-0xBF on a register, from memory: the bits in the middle choose
-- the operation and the low bits the register; the program counter moves by 1, 4 ticks are used, and
-- the registers are what the operation makes of them. Nothing outside the registers changes but the
-- tick counter. At 0x282A the step is undefined if the file of the tiles cannot be opened.
pub cpu_step-arithmetic :
    (m : Machine) (y z : ℕ)
    → y < 8
    → z < 8
    → z ≢ 6
    → read_memory m m.registers.pc ≡ some (0x80 + (y * 8 + z))
    → m.tick_counter < 2 ^ 64
    → cpu_step m ≡ (
        if dump_fails m
        then none
        else some (
          4,
          (let m' = advanced 1 4 m in
              record m' {
                registers = operation y (get8 (register_code z) m'.registers) m'.registers;
              }),
        ))
cpu_step-arithmetic m y z hy hz ne cell clock =
    let j = y * 8 + z in
    let lt : j < 64 = omega arith in
    let not6 : j % 8 ≢ 6 = ground arith in
    let not_ext : 0x80 + j ≢ 0xCB = omega arith in
    let at_table : entry no_opcode base_opcode_table (0x80 + j)
        ≡ op OperandType.no_operands (arithmetic_code y (reg (register_code z))) =
      block_entry j lt ∙ ap (op OperandType.no_operands) (decoded y z hy hz ne) in
    let at_ticks : entry 0 base_opcode_ticks (0x80 + j) ≡ 4 = four_ticks j _ not6 (
      all_below_sound 64 (λ j. (j % 8 == 6) || (entry 0 base_opcode_ticks (0x80 + j) == 4)) j
        block_ticks lt) in
    after_dump m _ (
      run_entry m (0x80 + j) (register_code z) (operation y)
        (arithmetic_code y (reg (register_code z))) cell not_ext at_table at_ticks
        (λ m'. runs y (register_code z) m' hy) clock)
