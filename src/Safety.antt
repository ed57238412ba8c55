-- ===== src/Safety.antt =====
-- The invariant of the whole machine, and the outcome of commands that keep it.
pub mod Access
pub mod Commands
pub mod Loads
pub mod Reset
pub mod Interrupts
pub mod Video
pub mod Step
pub mod Instructions
pub mod Indirect
pub mod Bits
pub mod Width
pub mod Write
use game_bloat.Prelude.{
  ℕ, ◌+◌, ◌*◌, ◌%◌, ◌^◌, ◌<◌, ◌≡◌, refl, arith, Option, none, some, Bool, true, false, ltb,
  if◌then◌else◌, ◌||◌,
}
use game_bloat.Registers.{Registers, IsWidth, hl}
use game_bloat.Interrupt.{InterruptRegisters}
use game_bloat.Gpu.State.{Gpu, GpuRegisters}
use game_bloat.Gpu.Step.Laws.{IsValid}
use game_bloat.Mbc.{Cartridge, Controller, rom_only, mbc1, mbc2, mbc3, mbc4, mbc5}
use game_bloat.Machine.{Machine, Command, ◌>>=◌, ◌>>◌, pure, on_registers, get_registers}

-- The GPU's registers hold bytes.
pub record HasBytes (r : GpuRegisters) : Type 0 where
  pub lcd_control_fits : r.lcd_control < 256
  pub lcd_status_fits : r.lcd_status < 256
  pub scroll_x_fits : r.scroll_x < 256
  pub scroll_y_fits : r.scroll_y < 256
  pub line_fits : r.lcd_y_coordinate < 256
  pub compare_fits : r.lcd_ly_compare < 256
  pub source_fits : r.oam_dma_source_address < 256
  pub background_fits : r.background_palette < 256
  pub palette0_fits : r.obj_palette0 < 256
  pub palette1_fits : r.obj_palette1 < 256
  pub window_y_fits : r.lcd_window_y < 256
  pub window_x_fits : r.lcd_window_x < 256

-- A cartridge that no access leads out of its blocks: one without a controller, with 32 KiB of ROM
-- and 8 KiB of RAM, or one of the three controllers whose functions are stubs.
unfoldable pub has_room : Option Controller → (rom_size ram_size : ℕ) → Bool
has_room none rom_size ram_size = false
has_room (some rom_only) rom_size ram_size =
    if ltb rom_size 0x8000 then false else if ltb ram_size 0x2000 then false else true
has_room (some mbc1) rom_size ram_size = false
has_room (some mbc2) rom_size ram_size = true
has_room (some mbc3) rom_size ram_size = false
has_room (some mbc4) rom_size ram_size = true
has_room (some mbc5) rom_size ram_size = true

-- A `free` machine's cartridge and file of tiles may be any; another's cartridge has room, and its file
-- can be opened.
pub record IsWell (free : Bool) (m : Machine) : Type 0 where
  pub width : IsWidth m.registers
  pub work_ram_bytes : (i : ℕ) → m.work_ram i < 256
  pub oam_bytes : (i : ℕ) → m.oam i < 256
  pub high_ram_bytes : (i : ℕ) → m.high_ram i < 256
  pub request_fits : m.interrupts.request < 8
  pub enable_fits : m.interrupts.enable < 8
  pub gpu_valid : IsValid m.gpu
  pub gpu_bytes : HasBytes m.gpu.registers
  pub ticks_fit : m.tick_counter < 2 ^ 64
  pub room :
      (free || has_room m.cartridge.controller m.cartridge.rom.size m.cartridge.ram.size) ≡ true
  pub dump : (free || m.tile_file) ≡ true

pub room_of :
    {free : Bool} {m : Machine}
    → IsWell free m
    → free ≡ false
    → has_room m.cartridge.controller m.cartridge.rom.size m.cartridge.ram.size ≡ true
room_of well bound = let room = well.room in ground arith

pub dump_of : {free : Bool} {m : Machine} → IsWell free m → free ≡ false → m.tile_file ≡ true
dump_of well bound = let dump = well.dump in ground arith

-- The result of a command: undefined behaviour only where the machine is free, else a value with
-- the property and a machine with the invariant.
pub data Outcome (free : Bool) {A : Type 0} (P : A → Type 0) : Option (A × Machine) → Type 0 where
  undefined : free ≡ true → Outcome free P none
  returned : {a : A} {m : Machine} → P a → IsWell free m → Outcome free P (some (a, m))

abbrev pub Anything : {A : Type 0} → A → Type 0
Anything a = Unit {0}

-- What follows a command, from the outcome of the command.
pub after :
    {free : Bool} {A B : Type 0} {P : A → Type 0} {Q : B → Type 0} {x : Option (A × Machine)}
    {f : A → Machine → Option (B × Machine)}
    → Outcome free P x
    → ((a : A) (m : Machine) → P a → IsWell free m → Outcome free Q (f a m))
    → Outcome free Q (elim x [ none ↦ none | some (a, m') ↦ f a m' ])
after (undefined is_free) next = undefined is_free
after (returned {a} {m} p well) next = next a m p well

module _ {free : Bool} where
  pub registers-IsWell :
      {m : Machine} {r : Registers}
      → IsWell free m
      → IsWidth r
      → IsWell free (record m { registers = r })
  registers-IsWell well width = record {
    width = width;
    work_ram_bytes = well.work_ram_bytes;
    oam_bytes = well.oam_bytes;
    high_ram_bytes = well.high_ram_bytes;
    request_fits = well.request_fits;
    enable_fits = well.enable_fits;
    gpu_valid = well.gpu_valid;
    gpu_bytes = well.gpu_bytes;
    ticks_fit = well.ticks_fit;
    room = well.room;
    dump = well.dump;
  }
