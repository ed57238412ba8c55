-- ===== src/Gpu/Render/Laws.antt =====
-- src/gpu.c: a scan line stays inside the arrays.
use game_bloat.Prelude.{
  ℕ, zero, suc, ◌+◌, ◌<◌, ◌≤◌, ◌≡◌, refl, arith, some, ◌==◌, bit_and, if◌then◌else◌, ◌>>>◌,
}
use game_bloat.Prelude.Bytes.{bit_and-low_masks}
use game_bloat.Gpu.State.{BasicColour, Gpu}
use game_bloat.Gpu.Tiles.{gpu_read_byte}
use game_bloat.Gpu.Render.{
  Pen, frame_size, palette, tile_colour, plot, advance, select_tile, render_loop, render_scan,
  map_offset, line_start, first_pen, draw_line,
}

-- Video memory holds bytes, tiles hold colour numbers.
pub record IsDrawable (vram : ℕ → ℕ) (tiles : ℕ → ℕ → ℕ → ℕ) : Type 0 where
  pub bytes : (a : ℕ) → vram a < 256
  pub colours : (i j k : ℕ) → tiles i j k < 4

-- A pen with so many pixels left to draw.
record IsPlaced (left : ℕ) (p : Pen) : Type 0 where
  in_tile : p.x < 8
  in_map : p.line_offset < 32
  in_tiles : p.tile < 384
  in_frame : p.canvas_offset + left ≤ frame_size

gpu_read_byte-lt : (vram : ℕ → ℕ) (a : ℕ) → vram a < 256 → gpu_read_byte vram a < 256
unfolding gpu_read_byte
gpu_read_byte-lt vram a h = ground arith

select_tile-lt : (control tile : ℕ) → tile < 256 → select_tile control tile < 384
select_tile-lt control tile h = ground arith

tile_colour-some :
    (tiles : ℕ → ℕ → ℕ → ℕ) (tile y x : ℕ)
    → tile < 384
    → y < 8
    → x < 8
    → tile_colour tiles tile y x ≡ some (tiles tile y x)
unfolding tile_colour
tile_colour-some tiles tile y x ht hy hx = ground arith

abbrev grey : ℕ → BasicColour
grey n = record { red = n; green = n; blue = n }

palette-some :
    (colour : ℕ)
    → colour < 4
    → palette colour
      ≡ some (
          grey (
            if colour == 0
            then 255
            else if colour == 1
            then 192
            else if colour == 2
            then 96
            else 0))
unfolding palette
palette-some colour h = ground arith

plot-total :
    {vram : ℕ → ℕ} {tiles : ℕ → ℕ → ℕ → ℕ} (y left : ℕ) (p : Pen)
    → IsDrawable vram tiles
    → y < 8
    → IsPlaced (suc left) p
    → (frame' : ℕ → BasicColour) × (plot tiles y p ≡ some frame')
unfolding plot
plot-total {tiles = tiles} y left p d row h =
    let colour = tiles p.tile y p.x in
    (
      λ i.
          if p.canvas_offset == i
          then grey (
              if colour == 0
              then 255
              else if colour == 1
              then 192
              else if colour == 2
              then 96
              else 0)
          else p.frame i,
      ground (
        arith,
        tile_colour-some tiles p.tile y p.x,
        palette-some colour (d.colours p.tile y p.x),
      ),
    )

advance-IsPlaced :
    (control map_offset : ℕ) {vram : ℕ → ℕ} {tiles : ℕ → ℕ → ℕ → ℕ} (frame' : ℕ → BasicColour)
    (left : ℕ) (p : Pen)
    → IsDrawable vram tiles
    → IsPlaced (suc left) p
    → IsPlaced left (advance control map_offset vram (record p { frame = frame' }))
unfolding advance
advance-IsPlaced control map_offset {vram} frame' left p d h =
    let line' = bit_and (p.line_offset + 1) 31 in
    let tile = gpu_read_byte vram (map_offset + line') in
    ground (
      arith,
      bit_and-low_masks (p.line_offset + 1),
      select_tile-lt control tile,
      gpu_read_byte-lt vram (map_offset + line'),
      d.bytes (map_offset + line'),
    )

-- The loop draws every pixel that is left.
render_loop-total :
    (left control map_offset y : ℕ) {vram : ℕ → ℕ} {tiles : ℕ → ℕ → ℕ → ℕ} (p : Pen)
    → IsDrawable vram tiles
    → y < 8
    → IsPlaced left p
    → (frame' : ℕ → BasicColour) × (render_loop left control map_offset y vram tiles p
        ≡ some frame')
unfolding render_loop
render_loop-total zero control map_offset y p d row h = (p.frame, refl)
render_loop-total (suc left) control map_offset y {vram} {tiles} p d row h =
    let (frame', drawn) = plot-total y left p d row h in
    let p' = advance control map_offset vram (record p { frame = frame' }) in
    let placed : IsPlaced left p' = advance-IsPlaced control map_offset frame' left p d h in
    let (frame'', done) = render_loop-total left control map_offset y p' d row placed in
    (frame'', ground arith)

first_pen-IsPlaced :
    (g : Gpu)
    → IsDrawable g.vram g.tiles
    → g.registers.scroll_x < 256
    → g.registers.lcd_y_coordinate < 144
    → IsPlaced 160 (first_pen g)
unfolding first_pen
first_pen-IsPlaced g d scroll line =
    let at = map_offset g + (g.registers.scroll_x >>> 3) in
    record {
      in_tile = omega (arith, bit_and-low_masks g.registers.scroll_x scroll);
      in_map = omega arith;
      in_tiles =
          select_tile-lt g.registers.lcd_control (gpu_read_byte g.vram at)
            (gpu_read_byte-lt g.vram at (d.bytes at));
      in_frame = omega arith;
    }

-- On a visible line `renderScan` reads and writes inside its arrays, and changes the frame buffer
-- alone.
pub render_scan-total :
    (g : Gpu)
    → IsDrawable g.vram g.tiles
    → g.registers.scroll_x < 256
    → g.registers.lcd_y_coordinate < 144
    → (frame' : ℕ → BasicColour) × (render_scan g ≡ some (record g { frame_buffer = frame' }))
unfolding render_scan draw_line
render_scan-total g d scroll line =
    let placed = first_pen-IsPlaced g d scroll line in
    let row : bit_and (line_start g) 7 < 8 =
      omega (arith, bit_and-low_masks (line_start g) (omega arith)) in
    let (frame', done) =
      render_loop-total 160 g.registers.lcd_control (map_offset g) (bit_and (line_start g) 7)
        (first_pen g) d row placed in
    let small : (first_pen g).tile < 384 = placed.in_tiles in (frame', ground arith)
