-- ===== src/Safety/Interrupts.antt =====
-- src/interrupt.c: `interruptStep` keeps the machine's invariant.
use game_bloat.Prelude.{ℕ, ◌-◌, ◌<◌, ◌≡◌, refl, arith, Bool, true, ltb, bit_and}
use game_bloat.Prelude.Bytes.{all_below, all_below_sound}
use game_bloat.Machine.{Machine}
use game_bloat.Interrupt.{
  vblank_interrupt, lcd_interrupt, serial_interrupt, timer_interrupt, joypad_interrupt,
}
use game_bloat.Interrupt.Step.{clear_request, handle_interrupt, dispatch, interrupt_step}
use game_bloat.Safety.{IsWell, returned, after, registers-IsWell}
use game_bloat.Safety.Width.{pc-IsWidth}
use game_bloat.Safety.Commands.{Keeps, if-Outcome, ticks-IsWell, interrupts-IsWell, call_nn-Keeps}

clear_table : all_below 8 (λ x. all_below 17 (λ mask. ltb (bit_and x (255 - mask)) 8)) ≡ true
unfolding all_below
clear_table = refl

clear_request-IsWell :
    {free : Bool} {m : Machine} (mask : ℕ)
    → mask < 17
    → IsWell free m
    → IsWell free (record m { interrupts = clear_request mask m.interrupts })
clear_request-IsWell {m = m} mask small well =
    let row = all_below_sound 8 _ m.interrupts.request clear_table well.request_fits in
    let cell =
      all_below_sound 17 (λ mask. ltb (bit_and m.interrupts.request (255 - mask)) 8) mask row
        small in
    interrupts-IsWell well _ (ground (arith, cell)) well.enable_fits

handle_interrupt-Keeps :
    {free : Bool} {m : Machine} (mask : ℕ)
    → mask < 17
    → IsWell free m
    → Keeps free (handle_interrupt mask) m
unfolding handle_interrupt
handle_interrupt-Keeps mask small well =
    after (call_nn-Keeps well mask (omega arith))
      λ _ m1 _ well1. returned tt (ticks-IsWell (clear_request-IsWell mask small well1) 20)

dispatch-Keeps :
    {free : Bool} {m : Machine} (flags : ℕ) → IsWell free m → Keeps free (dispatch flags) m
unfolding dispatch
dispatch-Keeps flags well =
    if-Outcome _ (handle_interrupt-Keeps vblank_interrupt (omega arith) well) (
      if-Outcome _ (handle_interrupt-Keeps lcd_interrupt (omega arith) well) (
        if-Outcome _
          (handle_interrupt-Keeps timer_interrupt (omega arith) (
            clear_request-IsWell timer_interrupt (omega arith)
              (registers-IsWell well (pc-IsWidth _ (omega arith) well.width))))
          (if-Outcome _ (handle_interrupt-Keeps serial_interrupt (omega arith) well) (
            if-Outcome _ (handle_interrupt-Keeps joypad_interrupt (omega arith) well)
              (returned tt well)))))

-- Servicing an interrupt keeps the invariant.
pub interrupt_step-Keeps : {free : Bool} {m : Machine} → IsWell free m → Keeps free interrupt_step m
unfolding interrupt_step
interrupt_step-Keeps well =
    if-Outcome _
      (if-Outcome _ (dispatch-Keeps _ (interrupts-IsWell well _ well.request_fits well.enable_fits))
        (returned tt well))
      (returned tt well)
