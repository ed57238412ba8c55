-- ===== src/Safety/Video.antt =====
-- src/gpu.c: a step of the GPU keeps the widths of its registers and of the interrupt requests.
use game_bloat.Prelude.{
  ℕ, ◌-◌, ◌<◌, ◌≤◌, ◌≡◌, refl, arith, Option, some, none, Bool, true, false, if◌then◌else◌, bit_and,
  bit_or,
}
use mathlib.Core.Path.{subst}
use game_bloat.Interrupt.{InterruptRegisters, write_interrupt, lcd_interrupt, vblank_interrupt}
use game_bloat.Gpu.State.{Gpu, Mode, hblank, vblank, oam_scanline, vram_scanline, mode_number}
use game_bloat.Gpu.Render.{render_scan}
use game_bloat.Gpu.Step.{
  Video, next_line, next_scanline, mode_interrupts, handle_lcd_mode_change, mode_step, gpu_step,
  hblank_action, vblank_action, oam_action, vram_action, with_clock,
}
use game_bloat.Safety.{HasBytes}
use game_bloat.Safety.Write.{write_interrupt-lt}
use game_bloat.Safety.Bits.{bit_and-lt, bit_or-lt, literal}

pub record IsNarrow (v : Video) : Type 0 where
  pub registers : HasBytes v.gpu.registers
  pub line : v.gpu.registers.lcd_y_coordinate ≤ 153
  pub request_fits : v.interrupts.request < 8
  pub enable_fits : v.interrupts.enable < 8

next_scanline-IsNarrow : (v : Video) → IsNarrow v → IsNarrow (next_scanline v)
unfolding next_scanline next_line
next_scanline-IsNarrow v n =
    let b = n.registers in
    let line = n.line in
    let set = bit_or-lt v.gpu.registers.lcd_status 0x04 b.lcd_status_fits (literal _ refl) in
    let cleared = bit_and-lt v.gpu.registers.lcd_status 251 b.lcd_status_fits (literal _ refl) in
    let requested =
      write_interrupt-lt 0xFF0F lcd_interrupt v.interrupts n.request_fits n.enable_fits in
    record {
      registers = ground arith;
      line = ground arith;
      request_fits = ground arith;
      enable_fits = ground arith;
    }

mode_interrupts-lt :
    (mode : Mode) (status : ℕ) (i : InterruptRegisters)
    → i.request < 8
    → i.enable < 8
    → ((mode_interrupts mode status i).request < 8) × ((mode_interrupts mode status i).enable < 8)
unfolding mode_interrupts
mode_interrupts-lt mode status i r e =
    let lcd = write_interrupt-lt 0xFF0F lcd_interrupt i r e in
    let both =
      write_interrupt-lt 0xFF0F vblank_interrupt (write_interrupt 0xFF0F lcd_interrupt i) lcd.0
        lcd.1 in
    let blank = write_interrupt-lt 0xFF0F vblank_interrupt i r e in ground (arith, lcd, both, blank)

handle-IsNarrow : (mode : Mode) (v : Video) → IsNarrow v → IsNarrow (handle_lcd_mode_change mode v)
unfolding handle_lcd_mode_change
handle-IsNarrow mode v n =
    let b = n.registers in
    let line = n.line in
    let cleared = bit_and-lt v.gpu.registers.lcd_status 0xFC b.lcd_status_fits (literal _ refl) in
    let number : mode_number mode < 256 = ground arith in
    let status = bit_or-lt _ (mode_number mode) cleared number in
    let (request, enable) =
      mode_interrupts-lt mode (bit_or (bit_and v.gpu.registers.lcd_status 0xFC) (mode_number mode))
        v.interrupts n.request_fits n.enable_fits in
    record { registers = omega arith; line = n.line; request_fits = request; enable_fits = enable }

-- What an action leaves, if it ends.
data Narrows : Option Video → Type 0 where
  undefined : Narrows none
  returned : {v : Video} → IsNarrow v → Narrows (some v)

returned-IsNarrow : {v : Video} → Narrows (some v) → IsNarrow v
returned-IsNarrow (returned n) = n

if-Narrows : (b : Bool) {x y : Option Video} → Narrows x → Narrows y → Narrows (if b then x else y)
if-Narrows true first second = first
if-Narrows false first second = second

if-IsNarrow : (b : Bool) {x y : Video} → IsNarrow x → IsNarrow y → IsNarrow (if b then x else y)
if-IsNarrow true first second = first
if-IsNarrow false first second = second

with_clock-IsNarrow : (clock : ℕ) {v : Video} → IsNarrow v → IsNarrow (with_clock clock v)
with_clock-IsNarrow clock n = record {
  registers = n.registers;
  line = n.line;
  request_fits = n.request_fits;
  enable_fits = n.enable_fits;
}

render_scan-registers : (g g' : Gpu) → render_scan g ≡ some g' → g'.registers ≡ g.registers
unfolding render_scan
render_scan-registers g g' drawn = ground arith

drawn :
    (v : Video) (x : Option Gpu)
    → IsNarrow v
    → ((g : Gpu) → x ≡ some g → g.registers ≡ v.gpu.registers)
    → Narrows (elim x as (λ _. Option Video) [
      | none ↦ none
      | some g ↦ some (handle_lcd_mode_change hblank (record v { gpu = g }))
    ])
drawn v none n same = undefined
drawn v (some g) n same =
    let kept = same g refl in
    returned (
      handle-IsNarrow hblank (record v { gpu = g })
        (record {
          registers = rw kept n.registers;
          line = rw kept n.line;
          request_fits = n.request_fits;
          enable_fits = n.enable_fits;
        }))

vram_action-Narrows : (v : Video) → IsNarrow v → Narrows (vram_action v)
unfolding vram_action
vram_action-Narrows v n = drawn v (render_scan v.gpu) n (λ g. render_scan-registers v.gpu g)

mode_step-Narrows : (mode : Mode) (v : Video) → IsNarrow v → Narrows (mode_step mode v)
unfolding mode_step hblank_action vblank_action oam_action
mode_step-Narrows hblank v n =
    if-Narrows _
      (returned (handle-IsNarrow _ _ (next_scanline-IsNarrow _ (with_clock-IsNarrow _ n))))
      (returned n)
mode_step-Narrows vblank v n =
    let next = next_scanline-IsNarrow _ (with_clock-IsNarrow (v.gpu.mode_clock - 456) n) in
    if-Narrows _ (returned (if-IsNarrow _ (handle-IsNarrow oam_scanline _ next) next)) (returned n)
mode_step-Narrows oam_scanline v n =
    if-Narrows _ (returned (handle-IsNarrow vram_scanline _ (with_clock-IsNarrow _ n))) (returned n)
mode_step-Narrows vram_scanline v n =
    if-Narrows _ (vram_action-Narrows _ (with_clock-IsNarrow _ n)) (returned n)

gpu_step-Narrows : (ticks : ℕ) (v : Video) → IsNarrow v → Narrows (gpu_step ticks v)
unfolding gpu_step
gpu_step-Narrows ticks v n =
    if-Narrows _ (returned n) (mode_step-Narrows v.gpu.mode _ (with_clock-IsNarrow _ n))

-- A step of the GPU that ends keeps the widths.
pub gpu_step-IsNarrow :
    (ticks : ℕ) (v v' : Video) → IsNarrow v → gpu_step ticks v ≡ some v' → IsNarrow v'
gpu_step-IsNarrow ticks v v' n done =
    returned-IsNarrow (subst Narrows done (gpu_step-Narrows ticks v n))
