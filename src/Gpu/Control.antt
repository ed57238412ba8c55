-- ===== src/Gpu/Control.antt =====
-- src/gpu.c: `gpuReadRegister`, `gpuWriteRegister`, `UpdateLcdControlRegister`; src/utils.c:
-- `UpdateBit`.
pub mod Laws
use game_bloat.Prelude.{ℕ, ◌==◌, if◌then◌else◌, truthy, bit_and, bit_or, complement8}
use game_bloat.Gpu.State.{Gpu, GpuRegisters, Mode, hblank, mode_number}

abbrev pub lcd_display_enable : ℕ
lcd_display_enable = 0x80

-- The byte that `UpdateBit` leaves; its result is not used.
unfoldable pub update_bit : (byte bit_position bit_value : ℕ) → ℕ
update_bit byte bit_position bit_value = bit_or (bit_and byte (complement8 bit_position)) bit_value

-- One call `UpdateBit(&GPU.registers.lcdControl, BIT, (value & BIT))`.
abbrev update_control : (bit value : ℕ) → Gpu → Gpu
update_control bit value g = record g {
  registers = record (g.registers) {
    lcd_control = update_bit g.registers.lcd_control bit (bit_and value bit);
  };
}

-- The two branches on LCD_DISPLAY_ENABLE.
unfoldable pub switch_display : Gpu → Gpu
switch_display g =
    if bit_and g.registers.lcd_control lcd_display_enable == 0
    then record g {
      registers = record (g.registers) {
        lcd_y_coordinate = 0;
        lcd_status = bit_and g.registers.lcd_status 0xF8;
      };
      mode_clock = 0;
      mode = hblank;
    }
    else record g {
      registers = record (g.registers) {
        lcd_status = bit_or (bit_and g.registers.lcd_status 0xF8) (mode_number g.mode);
      };
    }

unfoldable pub update_lcd_control_register : ℕ → Gpu → Gpu
update_lcd_control_register value g =
    let g1 = update_control lcd_display_enable value g in
    let g2 = switch_display g1 in
    let g3 = update_control 0x40 value g2 in
    let g4 = update_control 0x20 value g3 in
    let g5 = update_control 0x10 value g4 in
    let g6 = update_control 0x08 value g5 in
    let g7 = update_control 0x04 value g6 in
    let g8 = update_control 0x02 value g7 in update_control 0x01 value g8

unfoldable pub gpu_read_register : ℕ → GpuRegisters → ℕ
gpu_read_register address r =
    if address == 0xFF40
    then r.lcd_control
    else if address == 0xFF41
    then r.lcd_status
    else if address == 0xFF42
    then r.scroll_x
    else if address == 0xFF43
    then r.scroll_y
    else if address == 0xFF44
    then r.lcd_y_coordinate
    else if address == 0xFF45
    then r.lcd_ly_compare
    else if address == 0xFF47
    then 0
    else if address == 0xFF48
    then r.obj_palette0
    else if address == 0xFF49
    then r.obj_palette1
    else if address == 0xFF4A
    then r.lcd_window_y
    else if address == 0xFF4B
    then r.lcd_window_x
    else 0

abbrev set_control : ℕ → Gpu → Gpu
set_control value g = record g { registers = record (g.registers) { lcd_control = value } }

-- The stores of one register each; the status is always 1.
unfoldable pub store_register : ℕ → ℕ → GpuRegisters → GpuRegisters
store_register address value r =
    if address == 0xFF41
    then record r { lcd_status = value }
    else if address == 0xFF42
    then record r { scroll_y = value }
    else if address == 0xFF43
    then record r { scroll_x = value }
    else if address == 0xFF44
    then record r { lcd_y_coordinate = 0 }
    else if address == 0xFF45
    then record r { lcd_ly_compare = value }
    else if address == 0xFF48
    then record r { obj_palette0 = value }
    else if address == 0xFF49
    then record r { obj_palette1 = value }
    else if address == 0xFF4A
    then record r { lcd_window_x = value }
    else if address == 0xFF4B
    then record r { lcd_window_y = value }
    else r

unfoldable pub gpu_write_register : ℕ → ℕ → Gpu → Gpu
unfolding store_register
gpu_write_register address value g =
    if address == 0xFF40
    then set_control value (update_lcd_control_register value g)
    else record g { registers = store_register address value g.registers }
