-- ===== src/Gpu/Invariant.antt =====
-- src/gpu.c: writes by the CPU keep the GPU's invariant.
use game_bloat.Prelude.{
  ℕ, ◌-◌, ◌<◌, ◌≡◌, refl, arith, ltb, leb, ◌&&◌, Bool-cases, inl, inr, ◌==◌, if◌then◌else◌,
}
use game_bloat.Gpu.State.{Gpu, gpu_reset}
use game_bloat.Gpu.Control.{
  gpu_write_register, store_register, update_lcd_control_register, switch_display,
}
use game_bloat.Gpu.Tiles.{gpu_write_byte}
use game_bloat.Gpu.Step.Laws.{IsTimed, IsValid}

-- After a reset the GPU is valid, whatever it held.
pub gpu_reset-IsValid : (g : Gpu) → IsValid (gpu_reset g)
unfolding gpu_reset
gpu_reset-IsValid g = record {
  drawable = record { bytes = λ _. omega arith; colours = λ _ _ _. omega arith };
  timed = record {
    line_fits = omega arith;
    visible = λ ne. absurd (ne refl);
    scroll_fits = omega arith;
  };
}

IsTimed-store_register :
    (address value : ℕ) (g : Gpu)
    → value < 256
    → IsTimed g
    → IsTimed (record g { registers = store_register address value g.registers })
unfolding store_register
IsTimed-store_register address value g fits t = ground arith

IsTimed-write_control :
    (value : ℕ) (g : Gpu) → IsTimed g → IsTimed (gpu_write_register 0xFF40 value g)
unfolding gpu_write_register update_lcd_control_register switch_display
IsTimed-write_control value g t = ground arith

control_memory :
    (value : ℕ) (g : Gpu)
    → let g' = update_lcd_control_register value g in (g'.vram ≡ g.vram) × (g'.tiles ≡ g.tiles)
unfolding update_lcd_control_register switch_display
control_memory value g = ground arith

-- No write to a register, at any address, takes the line or the scroll out of range.
pub gpu_write_register-IsValid :
    (address value : ℕ) (g : Gpu)
    → value < 256
    → IsValid g
    → IsValid (gpu_write_register address value g)
unfolding gpu_write_register
gpu_write_register-IsValid address value g fits v = elim (Bool-cases (address == 0xFF40)) [
  | inl control ↦
      let (vram, tiles) = control_memory value g in
      rw control (record {
        drawable = rw (vram, tiles) v.drawable;
        timed = IsTimed-write_control value g v.timed;
      })
  | inr other ↦ rw other (record {
    drawable = v.drawable;
    timed = IsTimed-store_register address value g fits v.timed;
  })
]

-- The branch of `gpuWriteByte` that would refresh a tile is never taken: no write to video memory
-- changes the tiles that `renderScan` draws, and the write itself goes to `VRAM`.
gpu_write_byte-tiles :
    (address value : ℕ) (g : Gpu)
    → address < 65536
    → let (status, g') = gpu_write_byte address value g in
      (g'.tiles ≡ g.tiles)
      × ((j : ℕ)
          → g'.vram j ≡ (
              if (address - 0x8000 == j) && (leb 0x8000 address && ltb address 0xA000)
              then value
              else g.vram j))
      × (status ≡ (if leb 0x8000 address && ltb address 0xA000 then 1 else 0))
unfolding gpu_write_byte
gpu_write_byte-tiles address value g fits = (ground arith, λ j. ground arith, ground arith)

gpu_write_byte-IsTimed :
    (address value : ℕ) (g : Gpu)
    → address < 65536
    → IsTimed g
    → IsTimed (gpu_write_byte address value g).1
unfolding gpu_write_byte
gpu_write_byte-IsTimed address value g low t = ground arith

pub gpu_write_byte-IsValid :
    (address value : ℕ) (g : Gpu)
    → address < 65536
    → value < 256
    → IsValid g
    → IsValid (gpu_write_byte address value g).1
gpu_write_byte-IsValid address value g low fits v =
    let (tiles, cells, status) = gpu_write_byte-tiles address value g low in
    record {
      drawable = record {
        bytes = λ j. ground (arith, cells j, v.drawable.bytes j);
        colours = rw tiles v.drawable.colours;
      };
      timed = gpu_write_byte-IsTimed address value g low v.timed;
    }
