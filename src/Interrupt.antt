-- ===== src/Interrupt.antt =====
-- src/interrupt.c: the interrupt registers and the writes to them. `interruptStep` calls into the
-- CPU and stands in Interrupt/Step.antt.
pub mod Laws
pub mod Step
use game_bloat.Prelude.{ℕ, zero, suc, ◌+◌, bit_or, ◌==◌, if◌then◌else◌, truthy}

pub record InterruptRegisters : Type 0 where
  pub request : ℕ
  pub enable : ℕ
  pub master_enable : ℕ

abbrev pub vblank_interrupt : ℕ
vblank_interrupt = 1

abbrev pub lcd_interrupt : ℕ
lcd_interrupt = 2

abbrev pub serial_interrupt : ℕ
serial_interrupt = 4

abbrev pub timer_interrupt : ℕ
timer_interrupt = 8

abbrev pub joypad_interrupt : ℕ
joypad_interrupt = 16

-- The loop at `bit`, with so many entries of `interruptBits` left: it compares the index.
unfoldable pub validate_loop : (left bit interrupt_bit : ℕ) → ℕ
validate_loop zero bit interrupt_bit = 0
validate_loop (suc left) bit interrupt_bit =
    let rest = validate_loop left (bit + 1) interrupt_bit in
    if bit == interrupt_bit then 1 else rest

unfoldable pub validate_interrupt : ℕ → ℕ
unfolding validate_loop
validate_interrupt interrupt_bit = validate_loop 5 0 interrupt_bit

unfoldable pub write_interrupt :
    (address interrupt_bit : ℕ) → InterruptRegisters → InterruptRegisters
write_interrupt address interrupt_bit i =
    if truthy (validate_interrupt interrupt_bit)
    then (if address == 0xFF0F
        then record i { request = bit_or i.request interrupt_bit }
        else if address == 0xFFFF
        then record i { enable = bit_or i.enable interrupt_bit }
        else i)
    else i
