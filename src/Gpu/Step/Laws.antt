-- ===== src/Gpu/Step/Laws.antt =====
-- src/gpu.c: the invariant of the mode machine.
use game_bloat.Prelude.{
  ℕ, ◌-◌, ◌<◌, ◌≤◌, ◌≡◌, ◌≢◌, refl, arith, Option, some, ◌==◌, leb, bit_and, if◌then◌else◌,
  Bool-cases, inl, inr,
}
use game_bloat.Gpu.State.{Gpu, Mode, hblank, vblank, oam_scanline, vram_scanline}
use game_bloat.Gpu.Render.Laws.{IsDrawable, render_scan-total}
use game_bloat.Gpu.Step.{
  Video, next_line, next_scanline, handle_lcd_mode_change, mode_step, gpu_step, with_clock,
  after_cycles, hblank_action, vblank_action, oam_action, vram_action,
}

-- The line is one of 154, and outside the vertical blank one of the 144 visible ones.
pub record IsTimed (g : Gpu) : Type 0 where
  pub line_fits : g.registers.lcd_y_coordinate ≤ 153
  pub visible : g.mode ≢ vblank → g.registers.lcd_y_coordinate < 144
  pub scroll_fits : g.registers.scroll_x < 256

pub record IsValid (g : Gpu) : Type 0 where
  pub drawable : IsDrawable g.vram g.tiles
  pub timed : IsTimed g

-- What no step of the machine touches.
record IsSameMemory (g g' : Gpu) : Type 0 where
  vram_same : g'.vram ≡ g.vram
  tiles_same : g'.tiles ≡ g.tiles
  scroll_same : g'.registers.scroll_x ≡ g.registers.scroll_x

next_scanline_lem :
    (v : Video)
    → let g' = (next_scanline v).gpu in
      IsSameMemory v.gpu g'
      × (g'.mode ≡ v.gpu.mode)
      × (g'.registers.lcd_y_coordinate ≡ next_line v.gpu.registers.lcd_y_coordinate)
unfolding next_scanline
next_scanline_lem v = ground arith

handle_lem :
    (mode' : Mode) (v : Video)
    → let g' = (handle_lcd_mode_change mode' v).gpu in
      IsSameMemory v.gpu g'
      × (g'.mode ≡ mode')
      × (g'.registers.lcd_y_coordinate ≡ v.gpu.registers.lcd_y_coordinate)
unfolding handle_lcd_mode_change
handle_lem mode' v = ground arith

IsDrawable-same :
    {g g' : Gpu} → IsSameMemory g g' → IsDrawable g.vram g.tiles → IsDrawable g'.vram g'.tiles
IsDrawable-same same d = rw (same.vram_same, same.tiles_same) d

IsValid-change :
    {g g' : Gpu}
    → IsSameMemory g g'
    → IsValid g
    → g'.registers.lcd_y_coordinate ≤ 153
    → (g'.mode ≢ vblank → g'.registers.lcd_y_coordinate < 144)
    → IsValid g'
IsValid-change same v line visible = record {
  drawable = IsDrawable-same same v.drawable;
  timed = record { line_fits = line; visible = visible; scroll_fits = ground arith };
}

trans_same : {g h k : Gpu} → IsSameMemory g h → IsSameMemory h k → IsSameMemory g k
trans_same p q = ground arith

-- A step that returns a valid GPU.
abbrev Steps : Option Video → Type 0
Steps result = (v' : Video) × (result ≡ some v') × IsValid v'.gpu

hblank_action-Steps : (v : Video) → IsValid v.gpu → v.gpu.mode ≡ hblank → Steps (hblank_action v)
unfolding hblank_action next_line
hblank_action-Steps v h mode =
    let v1 = next_scanline v in
    let mode' = if v1.gpu.registers.lcd_y_coordinate == 144 then vblank else oam_scanline in
    let (same, kept, line) = next_scanline_lem v in
    let (same', set, line') = handle_lem mode' v1 in
    let low : v.gpu.registers.lcd_y_coordinate < 144 = h.timed.visible (cc) in
    (
      handle_lcd_mode_change mode' v1,
      refl,
      IsValid-change (trans_same same same') h (ground arith) (ground arith),
    )

vblank_action-Steps : (v : Video) → IsValid v.gpu → v.gpu.mode ≡ vblank → Steps (vblank_action v)
unfolding vblank_action next_line
vblank_action-Steps v h mode =
    let v1 = next_scanline v in
    let (same, kept, line) = next_scanline_lem v in
    let (same', set, line') = handle_lem oam_scanline v1 in
    elim (Bool-cases (v1.gpu.registers.lcd_y_coordinate == 0)) [
      | inl top ↦ (
        handle_lcd_mode_change oam_scanline v1,
        ground arith,
        IsValid-change (trans_same same same') h (ground arith) (ground arith),
      )
      | inr low ↦ (v1, ground arith, IsValid-change same h (ground arith) (ground arith))
    ]

oam_action-Steps : (v : Video) → IsValid v.gpu → v.gpu.mode ≡ oam_scanline → Steps (oam_action v)
unfolding oam_action
oam_action-Steps v h mode =
    let (same, set, line) = handle_lem vram_scanline v in
    let low : v.gpu.registers.lcd_y_coordinate < 144 = h.timed.visible (cc) in
    (
      handle_lcd_mode_change vram_scanline v,
      refl,
      IsValid-change same h (ground arith) (ground arith),
    )

vram_action-Steps : (v : Video) → IsValid v.gpu → v.gpu.mode ≡ vram_scanline → Steps (vram_action v)
unfolding vram_action
vram_action-Steps v h mode =
    let low : v.gpu.registers.lcd_y_coordinate < 144 = h.timed.visible (cc) in
    let (frame', drawn) = render_scan-total v.gpu h.drawable h.timed.scroll_fits low in
    let v1 = record v { gpu = record (v.gpu) { frame_buffer = frame' } } in
    let (same, set, line) = handle_lem hblank v1 in
    (
      handle_lcd_mode_change hblank v1,
      ground arith,
      IsValid-change
          (record {
            vram_same = same.vram_same;
            tiles_same = same.tiles_same;
            scroll_same = same.scroll_same;
          })
          h (ground arith) (ground arith),
    )

clock-IsValid : (clock : ℕ) (v : Video) → IsValid v.gpu → IsValid (with_clock clock v).gpu
clock-IsValid clock v h = record {
  drawable = h.drawable;
  timed = record {
    line_fits = h.timed.line_fits;
    visible = h.timed.visible;
    scroll_fits = h.timed.scroll_fits;
  };
}

after_cycles-Steps :
    (cycles : ℕ) (action : Video → Option Video) (v : Video)
    → IsValid v.gpu
    → Steps (action (with_clock (v.gpu.mode_clock - cycles) v))
    → Steps (after_cycles cycles action v)
after_cycles-Steps cycles action v h (v', done, valid) =
    elim (Bool-cases (leb cycles v.gpu.mode_clock)) [
      | inl full ↦ (v', rw full done, valid)
      | inr short ↦ (v, rw short, h)
    ]

mode_step-Steps :
    (mode : Mode) (v : Video) → IsValid v.gpu → v.gpu.mode ≡ mode → Steps (mode_step mode v)
unfolding mode_step
mode_step-Steps hblank v h e =
    after_cycles-Steps 204 hblank_action v h (hblank_action-Steps _ (clock-IsValid _ v h) e)
mode_step-Steps vblank v h e =
    after_cycles-Steps 456 vblank_action v h (vblank_action-Steps _ (clock-IsValid _ v h) e)
mode_step-Steps oam_scanline v h e =
    after_cycles-Steps 80 oam_action v h (oam_action-Steps _ (clock-IsValid _ v h) e)
mode_step-Steps vram_scanline v h e =
    after_cycles-Steps 172 vram_action v h (vram_action-Steps _ (clock-IsValid _ v h) e)

-- `gpuStep` returns from every valid state, with no access outside an array, and its result is
-- valid again.
pub gpu_step-Steps :
    (tick : ℕ) (v : Video)
    → IsValid v.gpu
    → (v' : Video) × (gpu_step tick v ≡ some v') × IsValid v'.gpu
unfolding gpu_step
gpu_step-Steps tick v h = elim (Bool-cases (bit_and v.gpu.registers.lcd_control 0x80 == 0)) [
  | inl off ↦ (v, rw off, h)
  | inr on ↦ rw on (mode_step-Steps v.gpu.mode _ (clock-IsValid _ v h) refl)
]
