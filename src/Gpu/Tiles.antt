-- ===== src/Gpu/Tiles.antt =====
-- src/gpu.c: `gpuReadByte`, `gpuWriteByte` and `updateTile`. The dump of a tile to the file
-- tile0.bin is output only.
use game_bloat.Prelude.{
  ℕ, zero, suc, ◌+◌, ◌-◌, ltb, ◌==◌, ◌&&◌, if◌then◌else◌, truthy, bit_and, u16, ◌<<<◌, ◌>>>◌,
}
use game_bloat.Gpu.State.{Gpu}

unfoldable pub gpu_read_byte : (ℕ → ℕ) → ℕ → ℕ
gpu_read_byte vram address = if ltb address 0x2000 then vram address else 0

abbrev pub set_pixel : (ℕ → ℕ → ℕ → ℕ) → (tile row pixel value : ℕ) → ℕ → ℕ → ℕ → ℕ
set_pixel tiles tile row pixel value i j k =
    if i == tile && (j == row && k == pixel) then value else tiles i j k

-- The colour number of a pixel from the two bytes of its row.
unfoldable pub pixel_value : (lsb msb pixel : ℕ) → ℕ
pixel_value lsb msb pixel =
    let bit_index = 1 <<< (7 - pixel) in
    (if truthy (bit_and lsb bit_index) then 1 else 0)
    + (if truthy (bit_and msb bit_index) then 2 else 0)

-- The loop over the pixels of a row, from `pixel`, with so many left.
unfoldable pub tile_loop : (left pixel tile row lsb msb : ℕ) → (ℕ → ℕ → ℕ → ℕ) → ℕ → ℕ → ℕ → ℕ
tile_loop zero pixel tile row lsb msb tiles = tiles
tile_loop (suc left) pixel tile row lsb msb tiles =
    tile_loop left (pixel + 1) tile row lsb msb
      (set_pixel tiles tile row pixel (pixel_value lsb msb pixel))

unfoldable pub update_tile : ℕ → Gpu → Gpu
unfolding tile_loop
update_tile addr g =
    let base = bit_and addr 0x1FFE in
    let tile = bit_and (base >>> 4) 0x1FF in
    let row = bit_and (base >>> 1) 7 in
    let lsb = gpu_read_byte g.vram base in
    let msb = gpu_read_byte g.vram (base + 1) in
    record g { tiles = tile_loop 8 0 tile row lsb msb g.tiles }

abbrev pub set_vram : ℕ → ℕ → Gpu → Gpu
set_vram i value g = record g { vram = λ j. if i == j then value else g.vram j }

-- The status and the GPU after `gpuWriteByte`. The dump in front of its `return 1` is made by
-- `write_video` in Memory.antt.
unfoldable pub gpu_write_byte : ℕ → ℕ → Gpu → ℕ × Gpu
gpu_write_byte address value g =
    let modified = u16 (address + 65536 - 0x8000) in
    if ltb modified 0x2000
    then (let g1 = set_vram modified value g in
        (1, if ltb address 0x1800 then update_tile modified g1 else g1))
    else (0, g)
