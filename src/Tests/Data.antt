-- ===== src/Tests/Data.antt =====
-- A machine, a cartridge and registers to run the code on.
use game_bloat.Prelude.{
  ℕ, zero, suc, ◌-◌, none, some, List, [], ◌∷◌, Bool, true, false, if◌then◌else◌, ◌==◌, ltb, leb,
  ◌&&◌, ◌≡◌, ◌<◌, refl,
}
use game_bloat.Bios.{nintendo_logo_bitmap}
use game_bloat.Cartridge.{Board}
use game_bloat.Cartridge.File.{Allocator, Stream}
use game_bloat.Cartridge.Fields.{Header}
use game_bloat.Console.{Console}
use game_bloat.Server.{Server, init_globals, waiting, load_restart}
use game_bloat.Prelude.Buffer.{Buffer}
use game_bloat.Registers.{Registers, IsWidth}
use game_bloat.Interrupt.{InterruptRegisters}
use game_bloat.Gpu.State.{Gpu, Mode, gpu_reset}
use game_bloat.Gpu.Step.{Video}
use game_bloat.Mbc.{Cartridge, rom_only}
use game_bloat.Mbc.Mbc1
use game_bloat.Mbc.Mbc3
use native.Mathlib.Omega.{arith}
use game_bloat.Machine.{Machine}

abbrev pub registers : Registers
registers = record {
  a = 0x47;
  f = 0x10;
  b = 0x3A;
  c = 0x02;
  d = 0x03;
  e = 0x04;
  h = 0xC1;
  l = 0x00;
  sp = 0xDFF0;
  pc = 0xC000;
}

abbrev pub blank_gpu : Gpu
blank_gpu = record {
  registers = record {
    lcd_control = 0x91;
    lcd_status = 0;
    scroll_x = 0;
    scroll_y = 0;
    lcd_y_coordinate = 0;
    lcd_ly_compare = 0;
    oam_dma_source_address = 0;
    background_palette = 0;
    obj_palette0 = 0;
    obj_palette1 = 0;
    lcd_window_y = 0;
    lcd_window_x = 0;
  };
  vram = λ _. 0;
  tiles = λ _ _ _. 0;
  mode = Mode.vblank;
  mode_clock = 0;
  frame_buffer = λ _. record { red = 0; green = 0; blue = 0 };
}

abbrev pub gpu : Gpu
gpu = gpu_reset blank_gpu

abbrev pub interrupts : InterruptRegisters
interrupts = record { request = 0x05; enable = 0x05; master_enable = 1 }

abbrev pub video : Video
video = record { gpu = gpu; interrupts = interrupts }

abbrev pub rom : Buffer
rom = record { size = 0x8000; cells = λ i. i }

abbrev pub ram : Buffer
ram = record { size = 0x2000; cells = λ _. 0 }

abbrev pub bank1 : Mbc1.Mbc1
bank1 = record { ram_enable = 1; access_mode = 1; rom_bank_low = 1; ram_bank_rom_bank_upper = 0 }

abbrev pub bank3 : Mbc3.Mbc3
bank3 = record (Mbc3.initial) { ram_timer_enable = 1 }

abbrev pub cartridge : Cartridge
cartridge = record {
  rom = rom;
  ram = ram;
  controller = none;
  bank1 = Mbc1.initial;
  bank3 = Mbc3.initial;
  now = 1000;
}

abbrev pub machine : Machine
machine = record {
  registers = registers;
  interrupts = interrupts;
  gpu = gpu;
  work_ram = λ _. 0;
  oam = λ _. 0;
  io_ports = λ _. 0;
  high_ram = λ _. 0;
  cartridge = cartridge;
  tick_counter = 100;
  stopped = 0;
  tile_file = true;
}

-- The machine with two bytes at the program counter.
abbrev pub running : ℕ → ℕ → Machine
running x y = record machine { work_ram = λ i. if i == 0 then x else if i == 1 then y else 0 }

-- ADD A,B.
abbrev pub adding : Machine
adding = running 0x80 0

-- JR NZ,-2.
abbrev pub jumping : Machine
jumping = running 0x20 0xFE

-- The entry of a list, or 0 past its end.
abbrev nth : List ℕ → ℕ → ℕ
nth [] i = 0
nth (x ∷ xs) zero = x
nth (x ∷ xs) (suc i) = nth xs i

-- A file of 32 KiB with the logo, no controller and the flag of 32 KiB of RAM.
abbrev pub game : Buffer
game = record {
  size = 0x8000;
  cells = λ i.
      if leb 0x104 i && ltb i 0x134
      then nth nintendo_logo_bitmap (i - 0x104)
      else if i == 0x149
      then 3
      else 0;
}

abbrev pub game_stream : Stream
game_stream = record { file = game; position = 0 }

abbrev pub malloc : Allocator
malloc size = some (λ _. 0xAA)

abbrev pub blank_stack : ℕ → ℕ
blank_stack i = 0xCC

abbrev pub blank_header : Header
blank_header = record {
  entry_point = λ _. 0;
  nintendo_logo = λ _. 0;
  title = λ _. 0;
  new_licensee_code = λ _. 0;
  sgb_flag = 0;
  cartridge_type = 0;
  rom_size = 0;
  ram_size = 0;
  destination_code = 0;
  old_licensee_code = 0;
  mask_rom_version_number = 0;
  header_checksum = 0;
  global_checksum = λ _. 0;
}

abbrev pub blank_board : Board
blank_board = record { header = blank_header; functions = none; attached = false; slot = cartridge }

abbrev pub console : Console
console = record { machine = machine; header = blank_header; functions = none; attached = false }

-- A console with a cartridge that has room.
abbrev pub ready : Console
ready = record {
  machine = record machine {
    cartridge = record cartridge { controller = some rom_only; rom = rom; ram = ram };
  };
  header = blank_header;
  functions = some rom_only;
  attached = true;
}

-- The server's thread when it waits, and at the head of its loop with a step asked for.
abbrev pub waiting_server : Server
waiting_server = record (init_globals ready) { point = waiting }

abbrev pub looping : Server
looping = record (init_globals ready) { ws_connected = true; step = true; point = load_restart }

pub widths : IsWidth registers
widths = omega arith

abbrev all_bytes : List ℕ → Bool
all_bytes [] = true
all_bytes (x ∷ xs) = ltb x 256 && all_bytes xs

nth-lt : (xs : List ℕ) (i : ℕ) → all_bytes xs ≡ true → nth xs i < 256
nth-lt [] i bytes = omega arith
nth-lt (x ∷ xs) zero bytes = ground arith
nth-lt (x ∷ xs) (suc i) bytes = nth-lt xs i (ground arith)

pub game-bytes : (i : ℕ) → game.cells i < 256
game-bytes i = let logo = nth-lt nintendo_logo_bitmap (i - 0x104) refl in ground (arith, logo)
