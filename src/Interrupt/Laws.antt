-- ===== src/Interrupt/Laws.antt =====
-- src/interrupt.c: which writes reach the interrupt registers.
use game_bloat.Prelude.{ℕ, ◌≡◌, arith, bit_or, ltb, if◌then◌else◌}
use game_bloat.Interrupt.{
  InterruptRegisters, validate_interrupt, write_interrupt, timer_interrupt, joypad_interrupt,
}

pub validate_interrupt-lt_five : (bit : ℕ) → validate_interrupt bit ≡ (if ltb bit 5 then 1 else 0)
unfolding validate_interrupt
validate_interrupt-lt_five bit = ground arith

-- A write to 0xFF0F or 0xFFFF adds the bits of a value below 5 to the register at that address,
-- and a value of 5 or more is dropped; the master enable never changes.
write_interrupt_lem :
    (value : ℕ) (i : InterruptRegisters)
    → (write_interrupt 0xFF0F value i
        ≡ record i { request = if ltb value 5 then bit_or i.request value else i.request })
      × (write_interrupt 0xFFFF value i
          ≡ record i { enable = if ltb value 5 then bit_or i.enable value else i.enable })
unfolding write_interrupt
write_interrupt_lem value i = (
  ground (arith, validate_interrupt-lt_five value),
  ground (arith, validate_interrupt-lt_five value),
)

-- So the timer's and the joypad's bit can be neither requested nor enabled.
write_interrupt_dropped :
    (address : ℕ) (i : InterruptRegisters)
    → (write_interrupt address timer_interrupt i ≡ i)
      × (write_interrupt address joypad_interrupt i ≡ i)
unfolding write_interrupt
write_interrupt_dropped address i = (
  ground (arith, validate_interrupt-lt_five timer_interrupt),
  ground (arith, validate_interrupt-lt_five joypad_interrupt),
)
