-- ===== src/Interrupt/Step/Laws.antt =====
-- src/interrupt.c: which interrupt is serviced, and the return from it.
use game_bloat.Prelude.{
  ℕ, ◌+◌, ◌%◌, ◌^◌, ◌<◌, ◌≡◌, arith, Option, none, some, List, [], ◌∷◌, ltb, ◌==◌, if◌then◌else◌,
  truthy, bit_and, ◌-◌, ◌&&◌, Bool, true, complement8, refl, Bool-cases, inl, inr, ◌∙◌, ap, ==_iff,
  sym, false,
}
use game_bloat.Prelude.Bytes.{all_below, all_below_sound}
use game_bloat.Machine.{Machine}
use game_bloat.Interrupt.{
  vblank_interrupt, lcd_interrupt, serial_interrupt, timer_interrupt, joypad_interrupt,
}
use game_bloat.Interrupt.Step.{
  handle_interrupt, dispatch, interrupt_step, clear_request, timer_overflow_intr,
}
use mathlib.Core.Path.{subst}
use game_bloat.Memory.{read_memory}
use game_bloat.Memory.Ram.{is_ram}
use game_bloat.Cpu.Control.{before, reti}
use game_bloat.Cpu.Control.Laws.{
  HasStack, KeepsFrame, called, call_nn-called, called-interrupts, called-frame, before_lem,
  ret-frame,
}

-- The first mask of a list that has a bit of `flags`.
unfoldable pub first_pending : List ℕ → ℕ → Option ℕ
first_pending [] flags = none
first_pending (mask ∷ masks) flags =
    if truthy (bit_and flags mask) then some mask else first_pending masks flags

-- The order of service: the bits 0, 1, 3, 2 and 4.
unfoldable pub service_order : List ℕ
service_order = 1 ∷ 2 ∷ 8 ∷ 4 ∷ 16 ∷ []

-- A number without one of its bits.
unfoldable pub without_bit : ℕ → ℕ → ℕ
without_bit mask n = if truthy (bit_and n mask) then n - mask else n

-- The machine when the handler is called: the master enable is off; for bit 3 the program counter is
-- 0x50, and the bit of the request register is cleared already.
unfoldable pub entering : ℕ → Machine → Machine
entering mask m = record m {
  registers = record (m.registers) { pc = if mask == 8 then 0x50 else m.registers.pc };
  interrupts = record (m.interrupts) {
    request = if mask == 8 then without_bit 8 m.interrupts.request else m.interrupts.request;
    master_enable = 0;
  };
}

-- A call to the address `mask`, that one bit of the request register cleared, 20 ticks.
unfoldable pub serviced : ℕ → Machine → Machine
serviced mask m =
    let c = called mask m in
    record c {
      interrupts = record (m.interrupts) { request = without_bit mask m.interrupts.request };
      tick_counter = (c.tick_counter + 20) % 2 ^ 64;
    }

-- What `clear_request` does to a byte, and to a byte without the bit.
abbrev is_cleared : ℕ → ℕ → Bool
is_cleared mask n =
    (bit_and n (complement8 mask) == without_bit mask n)
    && (bit_and (without_bit mask n) (complement8 mask) == without_bit mask (without_bit mask n))

clear_table :
    all_below 256
      (λ n. is_cleared 1 n && is_cleared 2 n && is_cleared 8 n && is_cleared 4 n && is_cleared 16 n)
    ≡ true
unfolding all_below without_bit
clear_table = refl

handle_interrupt-serviced :
    (mask : ℕ) (m : Machine)
    → HasStack m
    → m.registers.pc < 65536
    → handle_interrupt mask m
      ≡ some (
        tt,
        let c = called mask m in
            record c {
              interrupts = clear_request mask m.interrupts;
              tick_counter = (c.tick_counter + 20) % 2 ^ 64;
            },
      )
unfolding handle_interrupt
handle_interrupt-serviced mask m s fits =
    ground (arith, call_nn-called mask m s fits, called-interrupts mask m)

abbrev off : Machine → Machine
off m = record m { interrupts = record (m.interrupts) { master_enable = 0 } }

off-serviced :
    (mask : ℕ) (m : Machine)
    → HasStack m
    → m.registers.pc < 65536
    → (mask == 8) ≡ false
    → bit_and m.interrupts.request (complement8 mask) ≡ without_bit mask m.interrupts.request
    → handle_interrupt mask (off m) ≡ some (tt, serviced mask (entering mask m))
unfolding serviced entering
off-serviced mask m s fits other cleared =
    let s' : HasStack (off m) = record { sp_fits = s.sp_fits; upper = s.upper; lower = s.lower } in
    rw (other, sym cleared) (handle_interrupt-serviced mask (off m) s' fits)

timer-serviced :
    (m : Machine)
    → HasStack m
    → bit_and m.interrupts.request (complement8 8) ≡ without_bit 8 m.interrupts.request
    → bit_and (without_bit 8 m.interrupts.request) (complement8 8)
      ≡ without_bit 8 (without_bit 8 m.interrupts.request)
    → handle_interrupt timer_interrupt (record (off m) {
      registers = record (m.registers) { pc = timer_overflow_intr };
      interrupts = clear_request timer_interrupt (off m).interrupts;
    })
      ≡ some (tt, serviced 8 (entering 8 m))
unfolding serviced entering
timer-serviced m s once again =
    let entered = entering 8 m in
    let s' : HasStack entered = record { sp_fits = s.sp_fits; upper = s.upper; lower = s.lower } in
    rw (once, sym again) (handle_interrupt-serviced timer_interrupt entered s' (omega arith))

-- With the master enable at 1 and a bit in both the enable and the request register, the first
-- interrupt that is pending in the order of the bits 0, 1, 3, 2 and 4 (VBlank, LCD, timer, serial and
-- joypad, by the source's names) is serviced: the master enable is cleared; the return address is pushed
-- and the program counter is the bit's value, 1, 2, 8, 4 or 16; exactly that bit of the request register
-- is cleared; 20 ticks are added. For bit 3 the address that is pushed is 0x50. With none of the five
-- pending only the master enable is cleared. With no bit in both registers, or with the master enable at
-- another value, nothing changes. The stack is in RAM, and the registers hold what fits them.
pub interrupt_step_lem :
    (m : Machine)
    → HasStack m
    → m.registers.pc < 65536
    → m.interrupts.request < 256
    → interrupt_step m ≡ (
        let flags = bit_and m.interrupts.enable m.interrupts.request in
        if m.interrupts.master_enable == 1
        then (if ltb 0 flags
            then elim (first_pending service_order flags) [
              | some mask ↦ some (tt, serviced mask (entering mask m))
              | none ↦
                  some (tt, record m { interrupts = record (m.interrupts) { master_enable = 0 } })
            ]
            else some (tt, m))
        else some (tt, m))
unfolding interrupt_step dispatch first_pending service_order
interrupt_step_lem m s fits byte =
    let cleared = all_below_sound 256 _ m.interrupts.request clear_table byte in
    let one = off-serviced vblank_interrupt m s fits refl (ground (arith, cleared)) in
    let two = off-serviced lcd_interrupt m s fits refl (ground (arith, cleared)) in
    let four = off-serviced serial_interrupt m s fits refl (ground (arith, cleared)) in
    let sixteen = off-serviced joypad_interrupt m s fits refl (ground (arith, cleared)) in
    let eight = timer-serviced m s (ground (arith, cleared)) (ground (arith, cleared)) in
    ground (arith, one, two, four, sixteen, eight)

entering-HasStack : (mask : ℕ) (m : Machine) → HasStack m → HasStack (entering mask m)
unfolding entering
entering-HasStack mask m s = record { sp_fits = s.sp_fits; upper = s.upper; lower = s.lower }

nothing_pending : (flags : ℕ) → ltb 0 flags ≡ false → first_pending service_order flags ≡ none
unfolding first_pending service_order
nothing_pending flags zero = let none_set : flags ≡ 0 = ground (arith, zero) in rw none_set refl

-- The machine behind `interrupt_step` where `mask` is the first that is pending.
interrupt_step-same :
    (mask : ℕ) (m m0 : Machine)
    → HasStack m
    → m.registers.pc < 65536
    → m.interrupts.request < 256
    → m.interrupts.master_enable ≡ 1
    → first_pending service_order (bit_and m.interrupts.enable m.interrupts.request) ≡ some mask
    → interrupt_step m ≡ some (tt, m0)
    → serviced mask (entering mask m) ≡ m0
interrupt_step-same mask m m0 s fits byte on pending done =
    let flags = bit_and m.interrupts.enable m.interrupts.request in
    let raised : ltb 0 flags ≡ true = elim (Bool-cases (ltb 0 flags)) [
      | inl some_set ↦ some_set
      | inr zero ↦ absurd (ground (arith, sym pending ∙ nothing_pending flags zero))
    ] in
    let enabled : (m.interrupts.master_enable == 1) ≡ true = (==_iff _ _).1 on in
    let there : interrupt_step m ≡ some (tt, serviced mask (entering mask m)) =
      interrupt_step_lem m s fits byte ∙ rw (enabled, raised, pending) refl in
    ap (λ (x : Option (Unit {0} × Machine)). elim x [ none ↦ m | some (_, m1) ↦ m1 ])
      (sym there ∙ done)

serviced-read :
    (mask a : ℕ) (m : Machine)
    → is_ram a ≡ true
    → read_memory (serviced mask m) a ≡ read_memory (called mask m) a
unfolding serviced read_memory
serviced-read mask a m ram = ground arith

-- A handler that `interruptStep` enters for the first pending interrupt, and that keeps the frame of the
-- call, which is the stack pointer and the two cells above it, ends by `reti` with the master enable at
-- 1 and the stack pointer of the interrupted program, at the program's next instruction; but for bit 3
-- at address 0x50, since `interruptStep` sets the program counter before it is pushed. The stack is in
-- RAM, and the registers hold what fits them.
pub reti-serviced :
    (mask : ℕ) (m m0 m' : Machine)
    → HasStack m
    → m.registers.pc < 65536
    → m.interrupts.request < 256
    → m.interrupts.master_enable ≡ 1
    → first_pending service_order (bit_and m.interrupts.enable m.interrupts.request) ≡ some mask
    → interrupt_step m ≡ some (tt, m0)
    → KeepsFrame m0 m'
    → reti m'
      ≡ some (
        tt,
        record m' {
          registers = record (m'.registers) {
            pc = if mask == 8 then 0x50 else m.registers.pc;
            sp = m.registers.sp;
          };
          interrupts = record (m'.interrupts) { master_enable = 1 };
        },
      )
unfolding reti serviced entering
reti-serviced mask m m0 m' s fits byte on pending done kept =
    let same = interrupt_step-same mask m m0 s fits byte on pending done in
    let k : KeepsFrame (serviced mask (entering mask m)) m' =
      subst (λ x. KeepsFrame x m') (sym same) kept in
    let s' = entering-HasStack mask m s in
    let pc' = if mask == 8 then 0x50 else m.registers.pc in
    let (sp, low, high) = called-frame mask (entering mask m) s' in
    let (b, up, top) = before_lem m.registers.sp s.sp_fits in
    let low' = serviced-read mask (before (before m.registers.sp)) (entering mask m) s.lower in
    let high' = serviced-read mask (before m.registers.sp) (entering mask m) s.upper in
    let back =
      ret-frame pc' m.registers.sp m' (ground arith) s.sp_fits (k.same_sp ∙ sp)
        (cc (k.same_low, sp, low, low')) (cc (k.same_high, sp, up, high, high')) in
    ground (arith, back)
