-- ===== src/Console/Start.antt =====
-- src/Platforms/main_server.c and main_debug.c: what a reset of a game establishes.
use game_bloat.Prelude.{
  ℕ, ◌≡◌, refl, arith, some, Bool, true, false, leb, ◌==◌, ◌&&◌, ◌||◌, ap, truthy, Bool-cases, inl,
  inr, ◌∙◌,
}
use mathlib.Core.Path.{subst}
use game_bloat.Prelude.Buffer.{Buffer}
use game_bloat.Mbc.{Cartridge, set_mbc_type}
use game_bloat.Machine.{Machine}
use game_bloat.Memory.{initialize_memory}
use game_bloat.Gpu.State.{gpu_reset}
use game_bloat.Gpu.Invariant.{gpu_reset-IsValid}
use game_bloat.Cpu.Reset.{cpu_reset}
use game_bloat.Cpu.Reset.Laws.{cpu_reset-IsValid}
use game_bloat.Cartridge.{Board, load_cartridge, ram_bytes}
use game_bloat.Cartridge.File.{Allocator}
use game_bloat.Cartridge.Laws.{is_loadable}
use game_bloat.Cartridge.Loaded.{is_loadable-bounds, load_cartridge-IsLoaded}
use game_bloat.Bios.{validate_cart}
use game_bloat.Safety.{IsWell, Outcome, has_room, dump_of}
use game_bloat.Safety.Reset.{IsPowered, cpu_reset-Keeps}
use game_bloat.Console.{
  Console, board, with_board, load_rom, reset_video, reset_game_server, run_cycles,
}
use game_bloat.Console.Cycle.{returned-IsWell, run_cycles-total}

-- The types and RAM sizes that leave a cartridge with room: no controller and 32 KiB of RAM, or one of
-- the types MBC2, MBC4 and MBC5.
unfoldable pub is_roomy : Buffer → Bool
is_roomy file =
    let kind = file.cells 0x147 in
    (kind == 0x00 && file.cells 0x149 == 0x03)
    || ((leb 0x05 kind && leb kind 0x06)
        || ((leb 0x15 kind && leb kind 0x17) || (leb 0x1A kind && leb kind 0x1E)))

load_cartridge-room :
    (malloc : Allocator) (file : Buffer) (b : Board)
    → is_loadable malloc file ≡ true
    → is_roomy file ≡ true
    → let slot = (load_cartridge malloc (some file) b).1.slot in
      has_room slot.controller slot.rom.size slot.ram.size ≡ true
unfolding is_roomy has_room set_mbc_type ram_bytes
load_cartridge-room malloc file b loadable roomy =
    let (large, small) = is_loadable-bounds malloc file loadable in
    let loaded = load_cartridge-IsLoaded malloc file b (omega arith) small loadable in
    let block = loaded.ram_block 0x8000 in
    let rom = loaded.rom_size in
    let controller = loaded.controller in
    elim (Bool-cases (file.cells 0x147 == 0)) [
      | inl bare ↦
          let flag : file.cells 0x149 ≡ 0x03 = ground arith in
          let (ram, _) = block (ap ram_bytes flag) (omega arith) in
          ground (arith, rom, controller, ram)
      | inr other ↦ ground (arith, controller)
    ]

-- Another cartridge behind the same machine.
cartridge-IsWell :
    {m : Machine} (slot : Cartridge)
    → IsWell true m
    → has_room slot.controller slot.rom.size slot.ram.size ≡ true
    → m.tile_file ≡ true
    → IsWell false (record m { cartridge = slot })
cartridge-IsWell slot well room opens = record {
  width = well.width;
  work_ram_bytes = well.work_ram_bytes;
  oam_bytes = well.oam_bytes;
  high_ram_bytes = well.high_ram_bytes;
  request_fits = well.request_fits;
  enable_fits = well.enable_fits;
  gpu_valid = well.gpu_valid;
  gpu_bytes = well.gpu_bytes;
  ticks_fit = well.ticks_fit;
  room = room;
  dump = opens;
}

reset_machine :
    (m : Machine)
    → IsPowered true m
    → (m' : Machine) × (cpu_reset (initialize_memory m) ≡ some (tt, m'))
      × (m'.tile_file ≡ m.tile_file)
      × IsWell true m'
unfolding initialize_memory
reset_machine m powered =
    let (m', done, _, _, _, _, file, _) =
      cpu_reset-IsValid (initialize_memory m) powered.gpu_valid in
    (
      m',
      done,
      file,
      returned-IsWell (subst (Outcome true (λ _. Unit {0})) done (cpu_reset-Keeps m powered)),
    )

-- `loadROM` answers 0, and behind it the machine is well-formed and its cartridge has room, where the
-- file can be loaded and is of such a type.
load_rom-IsWell :
    (malloc : Allocator) (file : Buffer) (c : Console)
    → IsPowered true c.machine
    → c.machine.tile_file ≡ true
    → is_loadable malloc file ≡ true
    → is_roomy file ≡ true
    → (c' : Console) × (load_rom malloc (some file) c ≡ some (0, c')) × IsWell false c'.machine
unfolding load_rom
load_rom-IsWell malloc file c powered opens loadable roomy =
    let (m, done, file_same, well) = reset_machine c.machine powered in
    let b = (load_cartridge malloc (some file) (board (record c { machine = m }))).1 in
    (
      with_board b m,
      rw (load_rom, done) refl,
      cartridge-IsWell b.slot well
          (load_cartridge-room malloc file (board (record c { machine = m })) loadable roomy)
          (file_same ∙ opens),
    )

-- A reset of the GPU keeps the invariant, if its background palette holds a byte.
reset_video-IsWell :
    {free : Bool} {m : Machine} → IsWell free m → IsWell free (record m { gpu = gpu_reset m.gpu })
unfolding gpu_reset
reset_video-IsWell {m = m} well = record {
  width = well.width;
  work_ram_bytes = well.work_ram_bytes;
  oam_bytes = well.oam_bytes;
  high_ram_bytes = well.high_ram_bytes;
  request_fits = well.request_fits;
  enable_fits = well.enable_fits;
  gpu_valid = gpu_reset-IsValid m.gpu;
  gpu_bytes = let b = well.gpu_bytes in omega arith;
  ticks_fit = well.ticks_fit;
  room = well.room;
  dump = well.dump;
}

-- From any machine whose devices are in range and which can open the file of the tiles, a reset by the server with a file that passes the boot
-- checks, loads, and is of a type that leaves room, returns; and from there any number of cycles of
-- the emulator end, without undefined behaviour and with the invariant.
pub reset_game_server-total :
    (stack : ℕ → ℕ) (malloc : Allocator) (file : Buffer) (c : Console) (n : ℕ)
    → IsPowered true c.machine
    → c.machine.tile_file ≡ true
    → (validate_cart stack (some file) c.header).0 ≡ 1
    → is_loadable malloc file ≡ true
    → is_roomy file ≡ true
    → (c' : Console) × (m' : Machine) × (reset_game_server stack malloc (some file) c ≡ some c')
      × (run_cycles n c'.machine ≡ some (tt, m'))
      × IsWell false m'
unfolding reset_game_server
reset_game_server-total stack malloc file c n powered opens valid loadable roomy =
    let c1 = record c { header = (validate_cart stack (some file) c.header).1 } in
    let (c2, loaded, well) = load_rom-IsWell malloc file c1 powered opens loadable roomy in
    let (m', ran, well') = run_cycles-total n (reset_video c2).machine (reset_video-IsWell well) in
    (reset_video c2, m', rw (reset_game_server, valid, loaded) refl, ran, well')

IsPowered-IsWell : {m : Machine} → IsWell false m → IsPowered true m
IsPowered-IsWell well = record {
  request_fits = well.request_fits;
  enable_fits = well.enable_fits;
  gpu_valid = well.gpu_valid;
  gpu_bytes = well.gpu_bytes;
  ticks_fit = well.ticks_fit;
  room = refl;
  dump = refl;
}

-- A reset of a running game returns and keeps the invariant, whether or not the boot checks pass.
pub reset_game_server-IsWell :
    (stack : ℕ → ℕ) (malloc : Allocator) (file : Buffer) (c : Console)
    → is_loadable malloc file ≡ true
    → is_roomy file ≡ true
    → IsWell false c.machine
    → (c' : Console) × (reset_game_server stack malloc (some file) c ≡ some c')
      × IsWell false c'.machine
unfolding reset_game_server
reset_game_server-IsWell stack malloc file c loadable roomy well =
    let c1 = record c { header = (validate_cart stack (some file) c.header).1 } in
    elim (Bool-cases (truthy (validate_cart stack (some file) c.header).0)) [
      | inl valid ↦
          let (c2, loaded, well') =
            load_rom-IsWell malloc file c1 (IsPowered-IsWell well) (dump_of well refl) loadable
              roomy in
          (reset_video c2, rw (reset_game_server, valid, loaded) refl, reset_video-IsWell well')
      | inr refused ↦ (c1, rw (reset_game_server, refused) refl, well)
    ]
