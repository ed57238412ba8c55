-- ===== src/Cpu/Control.antt =====
-- src/cpu.c: jumps, calls, returns, the stack, and the interrupt switches.
pub mod Laws
use game_bloat.Prelude.{
  ℕ, ◌+◌, ◌*◌, ◌/◌, ◌%◌, ◌^◌, ltb, ◌==◌, if◌then◌else◌, bit_and, bit_or, u8, u16, ◌<<<◌, ◌>>>◌,
  truthy,
}
use game_bloat.Registers.{Registers, WordRegister, set16, hl}
use game_bloat.Cpu.Flags.{check_flag}
use game_bloat.Machine.{Machine, Command, ◌>>=◌, ◌>>◌, pure, on_registers, get_registers}
use game_bloat.Memory.{mmu_read_byte, mmu_write_byte}

-- `(char)e` as a 16-bit displacement; `char` is signed on the targets of the build.
abbrev pub sign_extend : ℕ → ℕ
sign_extend e = if ltb e 0x80 then e else e + 0xFF00

-- `tickCounter += n` on an `unsigned long` of 64 bits.
abbrev pub add_ticks : ℕ → Command (Unit {0})
add_ticks n m = pure tt (record m { tick_counter = (m.tick_counter + n) % 2 ^ 64 })

-- `registers.SP -= 1`, as the value of an `unsigned short`.
abbrev pub before : ℕ → ℕ
before address = u16 (address + 0xFFFF)

unfoldable pub jp_nn : ℕ → Command (Unit {0})
jp_nn nn = on_registers λ r. record r { pc = nn }

unfoldable pub jp_cc_nn : (nn flag condition : ℕ) → Command (Unit {0})
unfolding jp_nn
jp_cc_nn nn flag condition m =
    if check_flag flag m.registers == condition then (jp_nn nn >> add_ticks 4) m else pure tt m

unfoldable pub jp_hl : Command (Unit {0})
jp_hl = on_registers λ r. record r { pc = hl r }

unfoldable pub jr_e : ℕ → Command (Unit {0})
jr_e e = on_registers λ r. record r { pc = u16 (r.pc + sign_extend e) }

unfoldable pub jr_cc_e : (e flag condition : ℕ) → Command (Unit {0})
unfolding jr_e
jr_cc_e e flag condition m =
    if check_flag flag m.registers == condition then (jr_e e >> add_ticks 4) m else pure tt m

unfoldable pub call_nn : ℕ → Command (Unit {0})
call_nn nn = do
  r ← get_registers
  mmu_write_byte (before r.sp) (bit_and r.pc 0xFF00 >>> 8)
  mmu_write_byte (before (before r.sp)) (bit_and r.pc 0x00FF)
  on_registers λ r'. record r' { pc = nn; sp = before (before r.sp) }

unfoldable pub call_cc_nn : (nn flag condition : ℕ) → Command (Unit {0})
unfolding call_nn
call_cc_nn nn flag condition m =
    if check_flag flag m.registers == condition then (call_nn nn >> add_ticks 12) m else pure tt m

unfoldable pub rst_f : ℕ → Command (Unit {0})
rst_f f = do
  r ← get_registers
  mmu_write_byte (before r.sp) (bit_and r.pc 0xFF00 >>> 8)
  mmu_write_byte (before (before r.sp)) (bit_and r.pc 0x00FF)
  on_registers λ r'. record r' { pc = bit_and f 0x00FF; sp = before (before r.sp) }

unfoldable pub ret : Command (Unit {0})
ret = do
  r ← get_registers
  low ← mmu_read_byte r.sp
  on_registers (λ r'. record r' { pc = bit_and low 0x00FF })
  high ← mmu_read_byte (u16 (r.sp + 1))
  on_registers λ r'. record r' {
    pc = bit_or r'.pc (bit_and high 0x00FF <<< 8);
    sp = u16 (u16 (r.sp + 1) + 1);
  }

unfoldable pub ret_cc : (flag condition : ℕ) → Command (Unit {0})
unfolding ret
ret_cc flag condition m =
    if check_flag flag m.registers == condition then (ret >> add_ticks 12) m else pure tt m

-- Both switches write the master enable.
abbrev pub set_master : ℕ → Command (Unit {0})
set_master v m = pure tt (record m { interrupts = record (m.interrupts) { master_enable = v } })

unfoldable pub di : Command (Unit {0})
di = set_master 0

unfoldable pub ei : Command (Unit {0})
ei = set_master 1

unfoldable pub reti : Command (Unit {0})
unfolding ret ei
reti = ret >> ei

unfoldable pub halt : Command (Unit {0})
halt m =
    if truthy m.interrupts.master_enable
    then pure tt m
    else on_registers (λ r. record r { pc = u16 (r.pc + 1) }) m

unfoldable pub stop : Command (Unit {0})
stop m = pure tt (record m { stopped = 1 })

unfoldable pub push_ss : ℕ → Command (Unit {0})
push_ss ss = do
  on_registers (λ r. record r { sp = before r.sp })
  r1 ← get_registers
  mmu_write_byte r1.sp (bit_and ss 0xFF)
  on_registers (λ r. record r { sp = before r.sp })
  r2 ← get_registers
  mmu_write_byte r2.sp (bit_and ss 0xFF00 >>> 8)
  pure tt

-- The first byte read is overwritten by the second.
unfoldable pub pop_dd : WordRegister → Command (Unit {0})
pop_dd dd = do
  r1 ← get_registers
  _ ← mmu_read_byte r1.sp
  on_registers (λ r. record r { sp = u16 (r.sp + 1) })
  r2 ← get_registers
  pair ← mmu_read_byte r2.sp
  on_registers (λ r. record r { sp = u16 (r.sp + 1) })
  on_registers (set16 dd pair)
