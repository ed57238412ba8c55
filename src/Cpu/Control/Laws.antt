-- ===== src/Cpu/Control/Laws.antt =====
-- src/cpu.c: calls and returns, and the stack operations.
use game_bloat.Prelude.{
  ℕ, ◌+◌, ◌/◌, ◌%◌, ◌<◌, ◌≡◌, ◌≢◌, ◌∙◌, ap, refl, sym, arith, Option, none, some, true, bit_and,
  bit_or, u16, ◌<<<◌, ◌>>>◌,
}
use mathlib.Core.Path.{subst}
use game_bloat.Prelude.Bytes.{bit_and-low_byte, bit_and-high_byte_word}
use game_bloat.Registers.{Registers, WordRegister, set16}
use game_bloat.Machine.{Machine, ◌>>◌}
use game_bloat.Memory.{read_memory, mmu_read_byte}
use game_bloat.Memory.Ram.{
  is_ram, canonical, store_ram, mmu_write_byte-ram, read_memory_self, read_memory_other,
  store_ram-registers, store_ram-interrupts, store_ram-set_registers, read_memory-set_registers,
}
use game_bloat.Memory.Map.{bit_or-bytes}
use game_bloat.Cpu.Control.{before, call_nn, ret, rst_f, push_ss, pop_dd}

-- Two cells of RAM below the stack pointer.
pub record HasStack (m : Machine) : Type 0 where
  pub sp_fits : m.registers.sp < 65536
  pub upper : is_ram (before m.registers.sp) ≡ true
  pub lower : is_ram (before (before m.registers.sp)) ≡ true

high_byte_of : (w : ℕ) → w < 65536 → bit_and w 0xFF00 >>> 8 ≡ w / 256
high_byte_of w h = omega (arith, bit_and-high_byte_word w h)

-- The machine after `call_nn`: the return address on the stack, high byte above low byte.
pub called : ℕ → Machine → Machine
called nn m =
    let r = m.registers in
    let m1 = store_ram (before r.sp) (r.pc / 256) m in
    let m2 = store_ram (before (before r.sp)) (r.pc % 256) m1 in
    record m2 { registers = record r { pc = nn; sp = before (before r.sp) } }

pub called-interrupts : (nn : ℕ) (m : Machine) → (called nn m).interrupts ≡ m.interrupts
unfolding called
called-interrupts nn m =
    let r = m.registers in
    let m1 = store_ram (before r.sp) (r.pc / 256) m in
    store_ram-interrupts (before (before r.sp)) (r.pc % 256) m1
    ∙ store_ram-interrupts (before r.sp) (r.pc / 256) m

pub call_nn-called :
    (nn : ℕ) (m : Machine)
    → HasStack m
    → m.registers.pc < 65536
    → call_nn nn m ≡ some (tt, called nn m)
unfolding call_nn called
call_nn-called nn m s fits =
    let r = m.registers in
    let m1 = store_ram (before r.sp) (r.pc / 256) m in
    ground (
      arith,
      high_byte_of r.pc fits,
      bit_and-low_byte r.pc fits,
      mmu_write_byte-ram (before r.sp) (r.pc / 256) m s.upper,
      mmu_write_byte-ram (before (before r.sp)) (r.pc % 256) m1 s.lower,
      store_ram-registers (before r.sp) (r.pc / 256) m,
      store_ram-registers (before (before r.sp)) (r.pc % 256) m1,
    )

-- What a subroutine owes its caller: the stack pointer and the two cells of the return address.
pub record KeepsFrame (m0 m : Machine) : Type 0 where
  pub same_sp : m.registers.sp ≡ m0.registers.sp
  pub same_low : read_memory m m0.registers.sp ≡ read_memory m0 m0.registers.sp
  pub same_high :
      read_memory m (u16 (m0.registers.sp + 1)) ≡ read_memory m0 (u16 (m0.registers.sp + 1))

pub before_lem :
    (sp : ℕ)
    → sp < 65536
    → (before sp < 65536) × (u16 (before (before sp) + 1) ≡ before sp) × (u16 (before sp + 1) ≡ sp)
before_lem sp h = ground arith

pub called-frame :
    (nn : ℕ) (m : Machine)
    → HasStack m
    → ((called nn m).registers.sp ≡ before (before m.registers.sp))
      × (read_memory (called nn m) (before (before m.registers.sp)) ≡ some (m.registers.pc % 256))
      × (read_memory (called nn m) (before m.registers.sp) ≡ some (m.registers.pc / 256))
unfolding called
called-frame nn m s =
    let r = m.registers in
    let m1 = store_ram (before r.sp) (r.pc / 256) m in
    let m2 = store_ram (before (before r.sp)) (r.pc % 256) m1 in
    let r' = record r { pc = nn; sp = before (before r.sp) } in
    let fits = s.sp_fits in
    let apart : canonical (before (before r.sp)) ≢ canonical (before r.sp) =
      ground (arith, s.upper, s.lower) in
    (
      refl,
      read_memory-set_registers _ m2 r'
          ∙ read_memory_self (before (before r.sp)) (r.pc % 256) m1 s.lower,
      read_memory-set_registers _ m2 r'
          ∙ read_memory_other (before (before r.sp)) (before r.sp) (r.pc % 256) m1 s.lower apart
          ∙ read_memory_self (before r.sp) (r.pc / 256) m s.upper,
    )

-- The return from a frame that holds the address `pc`, to the stack pointer `sp`.
pub ret-frame :
    (pc sp : ℕ) (m' : Machine)
    → pc < 65536
    → sp < 65536
    → m'.registers.sp ≡ before (before sp)
    → read_memory m' (before (before sp)) ≡ some (pc % 256)
    → read_memory m' (before sp) ≡ some (pc / 256)
    → ret m' ≡ some (tt, record m' { registers = record (m'.registers) { pc = pc; sp = sp } })
unfolding ret mmu_read_byte
ret-frame pc sp m' fits sp_fits sp' low' high' =
    let (b, up, top) = before_lem sp sp_fits in
    let low_byte : bit_and (pc % 256) 0xFF ≡ pc % 256 =
      bit_and-low_byte (pc % 256) (omega arith) ∙ omega arith in
    let high_byte : bit_and (pc / 256) 0xFF ≡ pc / 256 =
      bit_and-low_byte (pc / 256) (omega arith) ∙ omega arith in
    let whole : bit_or (pc % 256) ((pc / 256) <<< 8) ≡ pc =
      bit_or-bytes (pc % 256) (pc / 256) (omega arith) (omega arith) ∙ omega arith in
    let kept : (r : Registers)
        → read_memory (record m' { registers = r }) (before sp) ≡ some (pc / 256) =
      λ r. read_memory-set_registers (before sp) m' r ∙ high' in
    ground (
      arith,
      read_memory-set_registers (before sp) m'
          (record (m'.registers) { pc = bit_and (pc % 256) 0xFF }),
    )

call_nn-same :
    (nn : ℕ) (m m0 : Machine)
    → HasStack m
    → m.registers.pc < 65536
    → call_nn nn m ≡ some (tt, m0)
    → called nn m ≡ m0
call_nn-same nn m m0 s fits done =
    let there = sym (call_nn-called nn m s fits) ∙ done in
    ap (λ (x : Option (Unit {0} × Machine)). elim x [ none ↦ m | some (_, m1) ↦ m1 ]) there

-- A subroutine that `call_nn` enters and that keeps its frame, which is the stack pointer and the two
-- cells above it, returns by `ret` to the address after the call, with the caller's stack pointer, and
-- `ret` changes nothing else. The stack is in RAM, and the program counter fits 16 bits.
pub ret-called :
    (nn : ℕ) (m m0 m' : Machine)
    → HasStack m
    → m.registers.pc < 65536
    → call_nn nn m ≡ some (tt, m0)
    → KeepsFrame m0 m'
    → ret m'
      ≡ some (
        tt,
        record m' {
          registers = record (m'.registers) { pc = m.registers.pc; sp = m.registers.sp };
        },
      )
ret-called nn m m0 m' s fits done k =
    let same = call_nn-same nn m m0 s fits done in
    let k' : KeepsFrame (called nn m) m' = subst (λ x. KeepsFrame x m') (sym same) k in
    let (sp, low, high) = called-frame nn m s in
    let (b, up, top) = before_lem m.registers.sp s.sp_fits in
    ret-frame m.registers.pc m.registers.sp m' fits s.sp_fits (k'.same_sp ∙ sp)
      (cc (k'.same_low, sp, low)) (cc (k'.same_high, sp, up, high))

-- `call_nn` and then `ret` come back to the caller: only the two cells below the stack differ.
call_nn-ret :
    (nn : ℕ) (m : Machine)
    → HasStack m
    → m.registers.pc < 65536
    → (call_nn nn >> ret) m ≡ some (tt, record (called nn m) { registers = m.registers })
unfolding called
call_nn-ret nn m s fits =
    let back : ret (called nn m) ≡ some (tt, record (called nn m) { registers = m.registers }) =
      ret-called nn m (called nn m) (called nn m) s fits (call_nn-called nn m s fits)
        (record { same_sp = refl; same_low = refl; same_high = refl }) in
    let there : call_nn nn m ≡ some (tt, called nn m) = call_nn-called nn m s fits in
    ap (λ (x : Option (Unit {0} × Machine)). elim x [ none ↦ none | some (a, m') ↦ ret m' ]) there
    ∙ back

-- A restart is a call of the low byte of its operand.
rst_f-call_nn : (f : ℕ) (m : Machine) → rst_f f m ≡ call_nn (bit_and f 0xFF) m
unfolding rst_f call_nn
rst_f-call_nn f m = refl

-- A pair pushed and popped comes back as its low byte alone: `push_ss` stores the low byte above
-- the high byte, and `pop_dd` overwrites the byte it reads first.
pub pop_dd-push_ss :
    (ss : ℕ) (dd : WordRegister) (m : Machine)
    → HasStack m
    → ss < 65536
    → let m1 = store_ram (before m.registers.sp) (ss % 256) m in
      let m2 = store_ram (before (before m.registers.sp)) (ss / 256) m1 in
      (push_ss ss >> pop_dd dd) m
      ≡ some (tt, record m2 { registers = set16 dd (ss % 256) m.registers })
unfolding push_ss pop_dd mmu_read_byte
pop_dd-push_ss ss dd m s fits =
    let sp = m.registers.sp in
    let (b, up, top) = before_lem sp s.sp_fits in
    let r1 = record (m.registers) { sp = before sp } in
    let r2 = record (m.registers) { sp = before (before sp) } in
    let m1 = store_ram (before sp) (ss % 256) m in
    let m2 = store_ram (before (before sp)) (ss / 256) m1 in
    let apart : canonical (before (before sp)) ≢ canonical (before sp) =
      ground (arith, s.upper, s.lower) in
    let read_top : read_memory m2 (before (before sp)) ≡ some (ss / 256) =
      read_memory_self (before (before sp)) (ss / 256) m1 s.lower in
    let read_low : read_memory m2 (before sp) ≡ some (ss % 256) =
      read_memory_other (before (before sp)) (before sp) (ss / 256) m1 s.lower apart
      ∙ read_memory_self (before sp) (ss % 256) m s.upper in
    let low : bit_and ss 0xFF ≡ ss % 256 = bit_and-low_byte ss fits in
    let high : bit_and ss 0xFF00 >>> 8 ≡ ss / 256 = high_byte_of ss fits in
    ground (
      arith,
      mmu_write_byte-ram (before sp) (ss % 256) (record m { registers = r1 }) s.upper,
      mmu_write_byte-ram (before (before sp)) (ss / 256) (record m1 { registers = r2 }) s.lower,
      store_ram-set_registers (before sp) (ss % 256) m r1,
      store_ram-set_registers (before (before sp)) (ss / 256) m1 r2,
      read_memory-set_registers (before (before sp)) m2 r2,
      read_memory-set_registers (before sp) m2 r1,
    )
