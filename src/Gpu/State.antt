-- ===== src/Gpu/State.antt =====
-- include/gpu.h and src/gpu.c: the state of the GPU and its reset.
use game_bloat.Prelude.{ℕ}

pub record BasicColour : Type 0 where
  pub red : ℕ
  pub green : ℕ
  pub blue : ℕ

pub record GpuRegisters : Type 0 where
  pub lcd_control : ℕ
  pub lcd_status : ℕ
  pub scroll_x : ℕ
  pub scroll_y : ℕ
  pub lcd_y_coordinate : ℕ
  pub lcd_ly_compare : ℕ
  pub oam_dma_source_address : ℕ
  pub background_palette : ℕ
  pub obj_palette0 : ℕ
  pub obj_palette1 : ℕ
  pub lcd_window_y : ℕ
  pub lcd_window_x : ℕ

-- `enum GpuMode`; `mode` holds no other value.
pub data Mode : Type 0 where
  hblank vblank oam_scanline vram_scanline : Mode

abbrev pub mode_number : Mode → ℕ
mode_number hblank = 0
mode_number vblank = 1
mode_number oam_scanline = 2
mode_number vram_scanline = 3

-- `struct GPU` with the static variables of the file; arrays are functions of their indices.
pub record Gpu : Type 0 where
  pub registers : GpuRegisters
  pub vram : ℕ → ℕ
  pub tiles : ℕ → ℕ → ℕ → ℕ
  pub mode : Mode
  pub mode_clock : ℕ
  pub frame_buffer : ℕ → BasicColour

unfoldable pub init_gpu : Gpu → Gpu
init_gpu g = record g {
  registers = record (g.registers) {
    lcd_control = 0;
    lcd_status = 0;
    scroll_x = 0;
    scroll_y = 0;
    lcd_y_coordinate = 153;
    lcd_ly_compare = 0;
    oam_dma_source_address = 0;
    obj_palette0 = 0;
    obj_palette1 = 0;
    lcd_window_y = 0;
    lcd_window_x = 0;
  };
  vram = λ _. 0;
  tiles = λ _ _ _. 0;
}

unfoldable pub gpu_reset : Gpu → Gpu
unfolding init_gpu
gpu_reset g = init_gpu (record g { mode = vblank; mode_clock = 116 })
