-- ===== src/Gpu/Control/Laws.antt =====
-- src/gpu.c: reading a register back after a write, and switching the display.
use game_bloat.Prelude.{
  ℕ, ◌*◌, ◌/◌, ◌≡◌, ◌<◌, arith, ltb, if◌then◌else◌, bit_and, true, ◌==◌, ==_iff, refl,
}
use game_bloat.Prelude.Bytes.{all_below, all_below_sound}
use game_bloat.Gpu.State.{Gpu, GpuRegisters, hblank}
use game_bloat.Gpu.Control.{
  gpu_read_register, gpu_write_register, store_register, update_lcd_control_register,
  switch_display, update_bit, lcd_display_enable,
}

-- The registers that are stored and read back at one address: status, line compare, both object
-- palettes. The scroll and window pairs are crossed: the address of one half reads what was
-- written to the address of the other. A write to the line register reads back as 0.
gpu_read_register-store :
    (value : ℕ) (r : GpuRegisters)
    → (gpu_read_register 0xFF41 (store_register 0xFF41 value r) ≡ value)
      × (gpu_read_register 0xFF45 (store_register 0xFF45 value r) ≡ value)
      × (gpu_read_register 0xFF48 (store_register 0xFF48 value r) ≡ value)
      × (gpu_read_register 0xFF49 (store_register 0xFF49 value r) ≡ value)
      × (gpu_read_register 0xFF42 (store_register 0xFF43 value r) ≡ value)
      × (gpu_read_register 0xFF43 (store_register 0xFF42 value r) ≡ value)
      × (gpu_read_register 0xFF4A (store_register 0xFF4B value r) ≡ value)
      × (gpu_read_register 0xFF4B (store_register 0xFF4A value r) ≡ value)
      × (gpu_read_register 0xFF44 (store_register 0xFF44 value r) ≡ 0)
unfolding gpu_read_register store_register
gpu_read_register-store value r = (refl, refl, refl, refl, refl, refl, refl, refl, refl)

-- A write to a scroll or window address does not show when that address is read.
gpu_read_register-store_crossed :
    (value : ℕ) (r : GpuRegisters)
    → (gpu_read_register 0xFF42 (store_register 0xFF42 value r) ≡ gpu_read_register 0xFF42 r)
      × (gpu_read_register 0xFF43 (store_register 0xFF43 value r) ≡ gpu_read_register 0xFF43 r)
      × (gpu_read_register 0xFF4A (store_register 0xFF4A value r) ≡ gpu_read_register 0xFF4A r)
      × (gpu_read_register 0xFF4B (store_register 0xFF4B value r) ≡ gpu_read_register 0xFF4B r)
unfolding gpu_read_register store_register
gpu_read_register-store_crossed value r = (refl, refl, refl, refl)

enable_table :
    all_below 256 (λ c. all_below 256 (λ v.
      bit_and (update_bit c lcd_display_enable (bit_and v lcd_display_enable)) lcd_display_enable
      == v / 128 * 128))
    ≡ true
unfolding all_below update_bit
enable_table = refl

-- A write to the control register stores the value. One that clears the display bit puts the GPU
-- at the start of line 0, in the horizontal blank, with an empty clock; any other keeps the line,
-- the mode and the clock.
write_control :
    (value : ℕ) (g : Gpu)
    → value < 256
    → g.registers.lcd_control < 256
    → let g' = gpu_write_register 0xFF40 value g in
      (g'.registers.lcd_control ≡ value)
      × (g'.registers.lcd_y_coordinate
          ≡ (if ltb value 128 then 0 else g.registers.lcd_y_coordinate))
      × (g'.mode ≡ (if ltb value 128 then hblank else g.mode))
      × (g'.mode_clock ≡ (if ltb value 128 then 0 else g.mode_clock))
unfolding gpu_write_register update_lcd_control_register switch_display
write_control value g fits old =
    let bit : bit_and
          (update_bit g.registers.lcd_control lcd_display_enable (bit_and value lcd_display_enable))
          lcd_display_enable
        ≡ value / 128 * 128 =
      (==_iff _ _).0 (
        all_below_sound 256 _ value (all_below_sound 256 _ g.registers.lcd_control enable_table old)
          fits) in
    (refl, ground arith, ground arith, ground arith)
