-- ===== src/Gpu/Step.antt =====
-- src/gpu.c: `NextScanline`, `HandleLCDModeChange` and `gpuStep`.
pub mod Laws
use game_bloat.Prelude.{
  u8, ℕ, ◌+◌, ◌-◌, ◌%◌, ◌^◌, Option, none, some, Bool, leb, ◌==◌, if◌then◌else◌, truthy, bit_and,
  bit_or, u32, complement8,
}
use game_bloat.Interrupt.{InterruptRegisters, write_interrupt, lcd_interrupt, vblank_interrupt}
use game_bloat.Gpu.State.{
  Gpu, GpuRegisters, Mode, hblank, vblank, oam_scanline, vram_scanline, mode_number,
}
use game_bloat.Gpu.Render.{render_scan}

-- The GPU beside the interrupt registers that it writes.
pub record Video : Type 0 where
  pub gpu : Gpu
  pub interrupts : InterruptRegisters

abbrev set_registers : GpuRegisters → Video → Video
set_registers r v = record v { gpu = record (v.gpu) { registers = r } }

abbrev request_lcd : Bool → InterruptRegisters → InterruptRegisters
request_lcd test i = if test then write_interrupt 0xFF0F lcd_interrupt i else i

abbrev pub status_lyc_equals_ly : ℕ
status_lyc_equals_ly = 0x04

unfoldable pub next_line : ℕ → ℕ
next_line y = if y == 153 then 0 else u8 (y + 1)

unfoldable pub next_scanline : Video → Video
unfolding next_line
next_scanline v =
    let r = record (v.gpu.registers) {
      lcd_y_coordinate = next_line v.gpu.registers.lcd_y_coordinate;
    } in
    if r.lcd_y_coordinate == r.lcd_ly_compare
    then (let status = bit_or r.lcd_status status_lyc_equals_ly in
        record {
          gpu = record (v.gpu) { registers = record r { lcd_status = status } };
          interrupts = request_lcd (truthy (bit_and status 0x40)) v.interrupts;
        })
    else set_registers
        (record r { lcd_status = bit_and r.lcd_status (complement8 status_lyc_equals_ly) }) v

-- The `switch` of `HandleLCDModeChange` on the new mode and status.
unfoldable pub mode_interrupts : Mode → (status : ℕ) → InterruptRegisters → InterruptRegisters
mode_interrupts oam_scanline status i = request_lcd (truthy (bit_and status 0x20)) i
mode_interrupts hblank status i = request_lcd (truthy (bit_and status 0x10)) i
mode_interrupts vblank status i =
    write_interrupt 0xFF0F vblank_interrupt (request_lcd (truthy (bit_and status 0x08)) i)
mode_interrupts vram_scanline status i = i

unfoldable pub handle_lcd_mode_change : Mode → Video → Video
handle_lcd_mode_change mode' v =
    let status = bit_or (bit_and v.gpu.registers.lcd_status 0xFC) (mode_number mode') in
    record {
      gpu = record (v.gpu) {
        mode = mode';
        registers = record (v.gpu.registers) { lcd_status = status };
      };
      interrupts = mode_interrupts mode' status v.interrupts;
    }

abbrev pub with_clock : ℕ → Video → Video
with_clock clock v = record v { gpu = record (v.gpu) { mode_clock = clock } }

-- The body of a `case`: nothing below the mode's cycles, else the action on the rest of the clock.
abbrev pub after_cycles : ℕ → (Video → Option Video) → Video → Option Video
after_cycles cycles action v =
    if leb cycles v.gpu.mode_clock
    then action (with_clock (v.gpu.mode_clock - cycles) v)
    else some v

unfoldable pub hblank_action : Video → Option Video
hblank_action v =
    let v1 = next_scanline v in
    some (
      handle_lcd_mode_change
        (if v1.gpu.registers.lcd_y_coordinate == 144 then vblank else oam_scanline) v1)

unfoldable pub vblank_action : Video → Option Video
vblank_action v =
    let v1 = next_scanline v in
    some (
      if v1.gpu.registers.lcd_y_coordinate == 0 then handle_lcd_mode_change oam_scanline v1 else v1)

unfoldable pub oam_action : Video → Option Video
oam_action v = some (handle_lcd_mode_change vram_scanline v)

unfoldable pub vram_action : Video → Option Video
vram_action v = elim (render_scan v.gpu) [
  | none ↦ none
  | some g ↦ some (handle_lcd_mode_change hblank (record v { gpu = g }))
]

-- The `switch` of `gpuStep`.
unfoldable pub mode_step : Mode → Video → Option Video
mode_step hblank v = after_cycles 204 hblank_action v
mode_step vblank v = after_cycles 456 vblank_action v
mode_step oam_scanline v = after_cycles 80 oam_action v
mode_step vram_scanline v = after_cycles 172 vram_action v

unfoldable pub gpu_step : ℕ → Video → Option Video
gpu_step tick v =
    if bit_and v.gpu.registers.lcd_control 0x80 == 0
    then some v
    else mode_step v.gpu.mode (with_clock (u32 (v.gpu.mode_clock + tick)) v)
