-- ===== src/Gpu/Render.antt =====
-- src/gpu.c: `renderScan`. `none` is an access out of the bounds of an array.
pub mod Laws
use game_bloat.Prelude.{
  ℕ, zero, suc, ◌+◌, ◌*◌, ◌/◌, ◌%◌, ◌^◌, Option, none, some, Bool, ltb, ◌==◌, ◌&&◌, not,
  if◌then◌else◌, truthy, bit_and, u8, u16, ◌>>>◌,
}
use game_bloat.Gpu.State.{BasicColour, Gpu, GpuRegisters}
use game_bloat.Gpu.Tiles.{gpu_read_byte}

abbrev pub frame_size : ℕ
frame_size = 160 * 144

-- `Palette[colour]`.
unfoldable pub palette : ℕ → Option BasicColour
palette colour =
    if colour == 0
    then some (record { red = 255; green = 255; blue = 255 })
    else if colour == 1
    then some (record { red = 192; green = 192; blue = 192 })
    else if colour == 2
    then some (record { red = 96; green = 96; blue = 96 })
    else if colour == 3
    then some (record { red = 0; green = 0; blue = 0 })
    else none

-- The local variables that the loop changes, and the frame buffer.
pub record Pen : Type 0 where
  pub x : ℕ
  pub canvas_offset : ℕ
  pub line_offset : ℕ
  pub tile : ℕ
  pub frame : ℕ → BasicColour

-- `tiles[tile][y][x]`.
unfoldable pub tile_colour : (ℕ → ℕ → ℕ → ℕ) → (tile y x : ℕ) → Option ℕ
tile_colour tiles tile y x =
    if ltb tile 384 && (ltb y 8 && ltb x 8) then some (tiles tile y x) else none

-- One pixel: the three stores into `frameBuffer[canvasOffset]`.
unfoldable pub plot : (ℕ → ℕ → ℕ → ℕ) → ℕ → Pen → Option (ℕ → BasicColour)
plot tiles y p = elim (tile_colour tiles p.tile y p.x) [
  | none ↦ none
  | some colour ↦ elim (palette colour) [
    | none ↦ none
    | some shade ↦
        if ltb p.canvas_offset frame_size
        then some (λ i. if p.canvas_offset == i then shade else p.frame i)
        else none
  ]
]

abbrev pub select_tile : (control tile : ℕ) → ℕ
select_tile control tile =
    if truthy (bit_and control 0x10) && ltb tile 128 then tile + 256 else tile

-- The end of a round: the next pixel, and at the end of a tile the next one.
unfoldable pub advance : (control map_offset : ℕ) → (ℕ → ℕ) → Pen → Pen
advance control map_offset vram p =
    let line' = bit_and (p.line_offset + 1) 31 in
    if p.x + 1 == 8
    then record p {
      x = 0;
      canvas_offset = p.canvas_offset + 1;
      line_offset = line';
      tile = select_tile control (gpu_read_byte vram (map_offset + line'));
    }
    else record p { x = p.x + 1; canvas_offset = p.canvas_offset + 1 }

-- The loop with so many pixels left. After a tile above 383 it returns; the test stands only
-- where the tile was moved up, at the start of a tile.
unfoldable pub render_loop :
    ℕ
    → (control map_offset y : ℕ) → (vram : ℕ → ℕ) → (ℕ → ℕ → ℕ → ℕ)
    → Pen
    → Option (ℕ → BasicColour)
render_loop zero control map_offset y vram tiles p = some p.frame
render_loop (suc left) control map_offset y vram tiles p = elim (plot tiles y p) [
  | none ↦ none
  | some frame' ↦
      let p' = advance control map_offset vram (record p { frame = frame' }) in
      let rest = render_loop left control map_offset y vram tiles p' in
      if p'.x == 0 && (truthy (bit_and control 0x10) && ltb 383 p'.tile) then some frame' else rest
]

-- `lineStart`, `mapOffset` and the other variables at the head of `renderScan`.
abbrev pub line_start : Gpu → ℕ
line_start g = u8 (g.registers.lcd_y_coordinate + g.registers.scroll_y)

unfoldable pub map_offset : Gpu → ℕ
map_offset g =
    (if truthy (bit_and g.registers.lcd_control 0x08) then 0x1C00 else 0x1800)
    + (bit_and (line_start g) 0xFF >>> 3)

unfoldable pub first_pen : Gpu → Pen
first_pen g = record {
  x = bit_and g.registers.scroll_x 7;
  canvas_offset = g.registers.lcd_y_coordinate * 160;
  line_offset = g.registers.scroll_x >>> 3;
  tile =
      select_tile g.registers.lcd_control
        (gpu_read_byte g.vram (map_offset g + (g.registers.scroll_x >>> 3)));
  frame = g.frame_buffer;
}

unfoldable pub draw_line : Gpu → Option (ℕ → BasicColour)
draw_line g =
    render_loop 160 g.registers.lcd_control (map_offset g) (bit_and (line_start g) 7) g.vram g.tiles
      (first_pen g)

unfoldable pub render_scan : Gpu → Option Gpu
render_scan g = if ltb 383 (first_pen g).tile then some g else elim (draw_line g) [
  | none ↦ none
  | some frame' ↦ some (record g { frame_buffer = frame' })
]
