-- ===== src/Interrupt/Step.antt =====
-- src/interrupt.c: `handleInterrupt` and `interruptStep`. The lines of the log change nothing.
pub mod Laws
use game_bloat.Prelude.{ℕ, ◌==◌, ltb, if◌then◌else◌, truthy, bit_and, complement8}
use game_bloat.Machine.{Machine, Command, ◌>>=◌, ◌>>◌, pure, on_registers}
use game_bloat.Interrupt.{
  InterruptRegisters, vblank_interrupt, lcd_interrupt, serial_interrupt, timer_interrupt,
  joypad_interrupt,
}
use game_bloat.Cpu.Control.{call_nn, add_ticks}

abbrev pub on_interrupts : (InterruptRegisters → InterruptRegisters) → Command (Unit {0})
on_interrupts f m = pure tt (record m { interrupts = f m.interrupts })

abbrev pub clear_request : ℕ → InterruptRegisters → InterruptRegisters
clear_request mask i = record i { request = bit_and i.request (complement8 mask) }

-- The second argument of the source, the vector's address, is not used there.
unfoldable pub handle_interrupt : ℕ → Command (Unit {0})
handle_interrupt mask = do call_nn mask; on_interrupts (clear_request mask); add_ticks 20

abbrev pub timer_overflow_intr : ℕ
timer_overflow_intr = 0x50

-- The chain of tests on `flags`.
unfoldable pub dispatch : ℕ → Command (Unit {0})
dispatch flags m =
    if truthy (bit_and flags vblank_interrupt)
    then handle_interrupt vblank_interrupt m
    else if truthy (bit_and flags lcd_interrupt)
    then handle_interrupt lcd_interrupt m
    else if truthy (bit_and flags timer_interrupt)
    then (on_registers (λ r. record r { pc = timer_overflow_intr })
          >> on_interrupts (clear_request timer_interrupt)
          >> handle_interrupt timer_interrupt)
        m
    else if truthy (bit_and flags serial_interrupt)
    then handle_interrupt serial_interrupt m
    else if truthy (bit_and flags joypad_interrupt)
    then handle_interrupt joypad_interrupt m
    else pure tt m

unfoldable pub interrupt_step : Command (Unit {0})
interrupt_step m =
    let flags = bit_and m.interrupts.enable m.interrupts.request in
    if m.interrupts.master_enable == 1
    then (if ltb 0 flags
        then dispatch flags (record m { interrupts = record (m.interrupts) { master_enable = 0 } })
        else pure tt m)
    else pure tt m
