-- ===== src/Safety/Write.antt =====
-- src/memory.c: a write, at whatever address, keeps the machine's invariant.
use game_bloat.Prelude.{
  ℕ, ◌+◌, ◌<◌, ◌≡◌, ◌≢◌, refl, arith, Option, none, some, Bool, true, false, ltb, ◌==◌, ◌&&◌, ◌||◌,
  u16, Bool-cases, inl, inr, bit_and, bit_or,
}
use game_bloat.Prelude.Bytes.{all_below, all_below_sound, bit_and-low_byte, bit_and-high_byte_word}
use game_bloat.Interrupt.{InterruptRegisters, write_interrupt}
use game_bloat.Interrupt.Laws.{validate_interrupt-lt_five}
use game_bloat.Gpu.State.{Gpu, GpuRegisters, mode_number}
use game_bloat.Gpu.Control.{
  gpu_write_register, store_register, update_lcd_control_register, switch_display,
}
use game_bloat.Gpu.Tiles.{gpu_write_byte}
use game_bloat.Mbc.{Cartridge, mbc_write_byte, write_controller}
use game_bloat.Mbc.RomOnly
use game_bloat.Machine.{Machine}
use game_bloat.Memory.{mmu_write_byte, mmu_write_short, write_cartridge, write_video, write_io}
use game_bloat.Memory.Map.{mmu_write_byte-safe}
use game_bloat.Safety.{
  IsWell, HasBytes, Outcome, undefined, returned, Anything, after, has_room, room_of, dump_of,
}

or_table : all_below 8 (λ x. all_below 5 (λ v. ltb (bit_or x v) 8)) ≡ true
unfolding all_below
or_table = refl

-- A write to an interrupt register leaves the bits of the three lowest interrupts alone.
pub write_interrupt-lt :
    (address value : ℕ) (i : InterruptRegisters)
    → i.request < 8
    → i.enable < 8
    → ((write_interrupt address value i).request < 8)
      × ((write_interrupt address value i).enable < 8)
unfolding write_interrupt
write_interrupt-lt address value i request enable =
    let five = validate_interrupt-lt_five value in
    let a = λ (x : ℕ) (small : x < 8) (low : value < 5).
      all_below_sound 5 _ value (all_below_sound 8 _ x or_table small) low in
    (
      ground (arith, five, a i.request request, a i.enable enable),
      ground (arith, five, a i.request request, a i.enable enable),
    )

status_table :
    all_below 256
      (λ x. all_below 4 (λ v. ltb (bit_or (bit_and x 0xF8) v) 256) && ltb (bit_and x 0xF8) 256)
    ≡ true
unfolding all_below
status_table = refl

store_register-HasBytes :
    (address value : ℕ) (r : GpuRegisters)
    → value < 256
    → HasBytes r
    → HasBytes (store_register address value r)
unfolding store_register
store_register-HasBytes address value r fits b = ground arith

status-lt :
    (x mode : ℕ)
    → x < 256
    → mode < 4
    → (bit_or (bit_and x 0xF8) mode < 256) × (bit_and x 0xF8 < 256)
status-lt x mode fits small =
    let at_x = all_below_sound 256 _ x status_table fits in
    let at_mode =
      all_below_sound 4 (λ v. ltb (bit_or (bit_and x 0xF8) v) 256) mode (ground (arith, at_x))
        small in
    ground (arith, at_x, at_mode)

-- Only the control register, which is stored again, the line and the status change.
control-HasBytes :
    (value : ℕ) (g : Gpu)
    → value < 256
    → HasBytes g.registers
    → HasBytes (gpu_write_register 0xFF40 value g).registers
unfolding gpu_write_register update_lcd_control_register switch_display
control-HasBytes value g fits b =
    let mode : mode_number g.mode < 4 = ground arith in
    let status = status-lt g.registers.lcd_status (mode_number g.mode) b.lcd_status_fits mode in
    ground (arith, status)

other-HasBytes :
    (address value : ℕ) (g : Gpu)
    → value < 256
    → (address == 0xFF40) ≡ false
    → HasBytes g.registers
    → HasBytes (gpu_write_register address value g).registers
unfolding gpu_write_register
other-HasBytes address value g fits other b =
    rw other (store_register-HasBytes address value g.registers fits b)

gpu_write_register-HasBytes :
    (address value : ℕ) (g : Gpu)
    → value < 256
    → HasBytes g.registers
    → HasBytes (gpu_write_register address value g).registers
gpu_write_register-HasBytes address value g fits b = elim (Bool-cases (address == 0xFF40)) [
  | inl control ↦
      let same : address ≡ 0xFF40 = ground arith in rw same (control-HasBytes value g fits b)
  | inr other ↦ other-HasBytes address value g fits other b
]

gpu_write_byte-registers :
    (address value : ℕ) (g : Gpu) → (gpu_write_byte address value g).1.registers ≡ g.registers
unfolding gpu_write_byte
gpu_write_byte-registers address value g = ground arith

-- What a cartridge with room takes, and that it has room still.
mbc_write_byte-room :
    (c : Cartridge) (address value : ℕ)
    → has_room c.controller c.rom.size c.ram.size ≡ true
    → mbc_write_byte c address value ≢ none
unfolding has_room mbc_write_byte write_controller RomOnly.write_byte
mbc_write_byte-room c address value room fails = ground arith

mbc_write_byte-kept :
    (c : Cartridge) (address value : ℕ) {status : ℕ} {c' : Cartridge}
    → has_room c.controller c.rom.size c.ram.size ≡ true
    → mbc_write_byte c address value ≡ some (status, c')
    → has_room c'.controller c'.rom.size c'.ram.size ≡ true
unfolding has_room mbc_write_byte write_controller RomOnly.write_byte
mbc_write_byte-kept c address value room done = ground arith

mmu_write_byte-none :
    {free : Bool} (address value : ℕ) (m : Machine)
    → IsWell free m
    → mmu_write_byte address value m ≡ none
    → free ≡ true
unfolding mmu_write_byte write_cartridge write_video
mmu_write_byte-none {free} address value m well fails = elim (Bool-cases free) [
  | inl is_free ↦ is_free
  | inr bound ↦ absurd (
      let r = mbc_write_byte-room m.cartridge address value (room_of well bound) in
      let file = dump_of well bound in ground (arith, r, file))
]

module _ {free : Bool} (address value : ℕ) (m : Machine) {status : ℕ} {m' : Machine}
    (fits : value < 256) (well : IsWell free m)
    (done : mmu_write_byte address value m ≡ some (status, m')) where
  written_arrays :
      ((i : ℕ) → m'.work_ram i < 256) × ((i : ℕ) → m'.oam i < 256) × ((i : ℕ) → m'.high_ram i < 256)
  unfolding mmu_write_byte write_cartridge write_video write_io
  written_arrays = (
    (λ i. ground (arith, well.work_ram_bytes i)),
    (λ i. ground (arith, well.oam_bytes i)),
    λ i. ground (arith, well.high_ram_bytes i),
  )

  written_interrupts : (m'.interrupts.request < 8) × (m'.interrupts.enable < 8)
  unfolding mmu_write_byte write_cartridge write_video write_io
  written_interrupts =
      let kept = write_interrupt-lt address value m.interrupts well.request_fits well.enable_fits in
      let r = well.request_fits in let e = well.enable_fits in ground (arith, kept)

  written_gpu : HasBytes m'.gpu.registers
  unfolding mmu_write_byte write_cartridge write_video write_io
  written_gpu =
      let register = gpu_write_register-HasBytes address value m.gpu fits well.gpu_bytes in
      let video = gpu_write_byte-registers address value m.gpu in
      let b = well.gpu_bytes in ground (arith, register, video)

  written_room :
      (free || has_room m'.cartridge.controller m'.cartridge.rom.size m'.cartridge.ram.size) ≡ true
  unfolding mmu_write_byte write_cartridge write_video write_io
  written_room = elim (Bool-cases free) [
    | inl is_free ↦ ground arith
    | inr bound ↦
        let room = room_of well bound in
        ground (
          arith,
          mbc_write_byte-kept m.cartridge address value {status = status} {c' = m'.cartridge} room,
        )
  ]

written_dump :
    {free : Bool} (address value : ℕ) (m : Machine) {status : ℕ} {m' : Machine}
    → IsWell free m
    → mmu_write_byte address value m ≡ some (status, m')
    → (free || m'.tile_file) ≡ true
unfolding mmu_write_byte write_cartridge write_video write_io
written_dump address value m well done = let dump = well.dump in ground arith

write_outcome :
    {free : Bool} (x : Option (ℕ × Machine))
    → (x ≡ none → free ≡ true)
    → ((status : ℕ) (m' : Machine) → x ≡ some (status, m') → IsWell free m')
    → Outcome free Anything x
write_outcome none nothing well = undefined (nothing refl)
write_outcome (some (status, m')) nothing well = returned tt (well status m' refl)

-- A write of a byte keeps the invariant, and is defined where the cartridge has room.
pub mmu_write_byte-Outcome :
    {free : Bool} (address value : ℕ) {m : Machine}
    → address < 65536
    → value < 256
    → IsWell free m
    → Outcome free Anything (mmu_write_byte address value m)
mmu_write_byte-Outcome address value {m} low fits well =
    write_outcome (mmu_write_byte address value m) (mmu_write_byte-none address value m well)
      λ status m' done.
        let (registers, ticks, _, gpu) =
          mmu_write_byte-safe address value m low fits well.gpu_valid done in
        let (work, oam, high) = written_arrays address value m fits well done in
        let (request, enable) = written_interrupts address value m fits well done in
        record {
          width = rw registers well.width;
          work_ram_bytes = work;
          oam_bytes = oam;
          high_ram_bytes = high;
          request_fits = request;
          enable_fits = enable;
          gpu_valid = gpu;
          gpu_bytes = written_gpu address value m fits well done;
          ticks_fit = rw ticks well.ticks_fit;
          room = written_room address value m fits well done;
          dump = written_dump address value m well done;
        }

pub mmu_write_short-Outcome :
    {free : Bool} (address value : ℕ) {m : Machine}
    → address < 65536
    → value < 65536
    → IsWell free m
    → Outcome free Anything (mmu_write_short address value m)
unfolding mmu_write_short
mmu_write_short-Outcome address value low fits well =
    let first = bit_and-low_byte value fits in
    let second = bit_and-high_byte_word value fits in
    after (mmu_write_byte-Outcome address (bit_and value 0xFF) low (omega arith) well)
      λ _ m _ well'. mmu_write_byte-Outcome (u16 (address + 1)) _ (omega arith) (omega arith) well'
