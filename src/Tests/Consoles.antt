-- ===== src/Tests/Consoles.antt =====
-- The cartridge's loader, the boot checks, the cycle and the server at a concrete file.
use game_bloat.Prelude.{
  ◌+◌, ◌%◌, ◌<◌, ◌≤◌, ◌^◌, ◌≡◌, ◌↔◌, ◌⊎◌, refl, arith, Option, none, some, ◌∷◌, Bool, true, false,
  ltb, if◌then◌else◌,
}
use game_bloat.Machine.{Machine}
use game_bloat.Memory.{read_memory, mmu_write_byte, write_io, initialize_memory}
use game_bloat.Gpu.State.{gpu_reset}
use game_bloat.Gpu.Invariant.{gpu_reset-IsValid}
use game_bloat.Mbc.{set_mbc_type}
use game_bloat.Cpu.Reset.{cpu_reset, write_reset_values}
use game_bloat.Cpu.Step.{cpu_step}
use game_bloat.Cartridge.{load_cartridge, expected_rom_size, ram_bytes}
use game_bloat.Cartridge.File.{fread}
use game_bloat.Cartridge.Fields.{header_byte, set_header_values}
use game_bloat.Cartridge.Fields.Laws.{set_header_values_lem}
use game_bloat.Cartridge.Laws.{is_loadable}
use game_bloat.Cartridge.Loaded.{has_reader, load_cartridge-read_memory}
use game_bloat.Bios.{validate_cart, check_logo, match_logo, check_header_values, add_values}
use game_bloat.Bios.Laws.{HasLogo, header_sum, validate_cart_lem}
use game_bloat.Safety.{IsWell, HasBytes, Outcome, has_room}
use game_bloat.Safety.Step.{cpu_step-Outcome}
use game_bloat.Safety.Reset.{IsPowered}
use game_bloat.Console.{
  Console, load_rom, reset_game_server, reset_game_debug, run_cycles, step_video, loop_cycle,
}
use game_bloat.Console.Cycle.{run_cycles-IsWell, run_cycles-total}
use game_bloat.Console.Start.{is_roomy, reset_game_server-total}
use game_bloat.Console.Display.{reset_game-display}
use game_bloat.Server.{
  Server, Event, reset, start, step_once, store_connected, store_client, signal, message, waiting,
  reset_game, step_cycle, load_restart, load_connected, init_globals, thread_step, thread_step_from,
  run_alone, handle, Reach, here, next, emulator, outside,
}
use game_bloat.Server.Loop.{steps_of, one_pass, run_alone-one_pass, commands_lost, signal_lost}
use game_bloat.Server.Safety.{Reach-IsWell}
use game_bloat.Server.Quiet.{behind_connection, Reach-quiet}
use game_bloat.Tests.Data.{
  machine, blank_gpu, widths, game, game_stream, game-bytes, malloc, blank_stack, blank_header,
  blank_board, console, ready, waiting_server, looping,
}

gpu-HasBytes : HasBytes machine.gpu.registers
unfolding gpu_reset
gpu-HasBytes = omega arith

powered : IsPowered true machine
powered = record {
  request_fits = omega arith;
  enable_fits = omega arith;
  gpu_valid = gpu_reset-IsValid blank_gpu;
  gpu_bytes = gpu-HasBytes;
  ticks_fit = omega arith;
  room = refl;
  dump = refl;
}

well_ready : IsWell false ready.machine
unfolding has_room
well_ready = record {
  width = widths;
  work_ram_bytes = λ _. omega arith;
  oam_bytes = λ _. omega arith;
  high_ram_bytes = λ _. omega arith;
  request_fits = omega arith;
  enable_fits = omega arith;
  gpu_valid = gpu_reset-IsValid blank_gpu;
  gpu_bytes = gpu-HasBytes;
  ticks_fit = omega arith;
  room = refl;
  dump = refl;
}

well_machine : IsWell true machine
well_machine = record {
  width = widths;
  work_ram_bytes = λ _. omega arith;
  oam_bytes = λ _. omega arith;
  high_ram_bytes = λ _. omega arith;
  request_fits = omega arith;
  enable_fits = omega arith;
  gpu_valid = gpu_reset-IsValid blank_gpu;
  gpu_bytes = gpu-HasBytes;
  ticks_fit = omega arith;
  room = refl;
  dump = refl;
}

well_free : IsWell true ready.machine
well_free = record {
  width = widths;
  work_ram_bytes = λ _. omega arith;
  oam_bytes = λ _. omega arith;
  high_ram_bytes = λ _. omega arith;
  request_fits = omega arith;
  enable_fits = omega arith;
  gpu_valid = gpu_reset-IsValid blank_gpu;
  gpu_bytes = gpu-HasBytes;
  ticks_fit = omega arith;
  room = refl;
  dump = refl;
}

game-valid : (validate_cart blank_stack (some game) blank_header).0 ≡ 1
unfolding validate_cart check_logo match_logo check_header_values add_values fread
game-valid = refl

-- The console behind each reset.
unfoldable after_server : Console
after_server = elim (reset_game_server blank_stack malloc (some game) console) [
  | none ↦ console
  | some c ↦ c
]

unfoldable after_debug : Console
after_debug = elim (reset_game_debug blank_stack malloc (some game) console) [
  | none ↦ console
  | some c ↦ c
]

server-done : reset_game_server blank_stack malloc (some game) console ≡ some after_server
unfolding after_server reset_game_server load_rom validate_cart check_logo match_logo
    check_header_values add_values fread initialize_memory cpu_reset write_reset_values
    mmu_write_byte write_io
server-done = refl

debug-done : reset_game_debug blank_stack malloc (some game) console ≡ some after_debug
unfolding after_debug reset_game_debug load_rom validate_cart check_logo match_logo
    check_header_values add_values fread initialize_memory cpu_reset write_reset_values
    mmu_write_byte write_io
debug-done = refl

anything : Event → Bool
anything e = true

unfoldable no_connection : Event → Bool
no_connection store_connected = false
no_connection _ = true

started : Reach blank_stack malloc (some game) anything (init_globals ready) waiting_server
unfolding thread_step thread_step_from handle anything
started = next (next here (outside signal refl refl)) (emulator refl)

started_quietly :
    Reach blank_stack malloc (some game) no_connection (init_globals ready) waiting_server
unfolding thread_step thread_step_from handle no_connection
started_quietly = next (next here (outside signal refl refl)) (emulator refl)

reset_game_server-total_example :
    (c' : Console) × (m' : Machine) × (reset_game_server blank_stack malloc (some game) console
      ≡ some c')
    × (run_cycles 3 c'.machine ≡ some (tt, m'))
    × IsWell false m'
unfolding is_loadable expected_rom_size ram_bytes set_mbc_type is_roomy
reset_game_server-total_example =
    reset_game_server-total blank_stack malloc game console 3 powered refl game-valid refl refl

run_cycles-IsWell_example : IsWell true (run_cycles-total 2 ready.machine well_ready).0
run_cycles-IsWell_example =
    run_cycles-IsWell 2 ready.machine (run_cycles-total 2 ready.machine well_ready).0 well_free
      (run_cycles-total 2 ready.machine well_ready).1

Reach-IsWell_example :
    IsWell false waiting_server.console.machine
    × ((waiting_server.point ≡ waiting)
        ⊎ ((s' : Server) × (thread_step blank_stack malloc (some game) waiting_server ≡ some s')))
unfolding is_loadable expected_rom_size ram_bytes set_mbc_type is_roomy
Reach-IsWell_example =
    Reach-IsWell blank_stack malloc game anything ready refl refl well_ready started

run_alone-one_pass_example :
    (0 < steps_of looping)
    × (steps_of looping ≤ 9)
    × (run_alone blank_stack malloc (some game) (steps_of looping) looping
        ≡ one_pass blank_stack malloc (some game) looping)
run_alone-one_pass_example = run_alone-one_pass blank_stack malloc (some game) looping refl

load_cartridge-read_memory_example :
    read_memory
      (record machine { cartridge = (load_cartridge malloc (some game) blank_board).1.slot })
      0x0104
    ≡ some (game.cells 0x0104)
unfolding is_loadable expected_rom_size ram_bytes set_mbc_type has_reader
load_cartridge-read_memory_example =
    load_cartridge-read_memory malloc game blank_board machine 0x0104 refl refl (omega arith)
      (omega arith)

validate_cart_lem_example :
    ((validate_cart blank_stack (some game) blank_header).0 ≡ 1)
    ↔ ((0x14F ≤ game.size) × HasLogo game × ((header_sum game + 0x19) % 2 ≡ 0))
validate_cart_lem_example = validate_cart_lem blank_stack game blank_header game-bytes

set_header_values_lem_example : header_byte (set_header_values blank_header game_stream).0 0x149 ≡ (
    if ltb 0x149 game_stream.file.size
    then game_stream.file.cells 0x149
    else header_byte blank_header 0x149)
set_header_values_lem_example =
    set_header_values_lem blank_header game_stream 0x149 (omega arith) (omega arith)

reset_game-display_example :
    (after_server.machine.gpu.registers.lcd_control ≡ 0)
    × (step_video 456 after_server.machine ≡ some (tt, after_server.machine))
    × (after_debug.machine.gpu.registers.lcd_control ≡ 0x91)
reset_game-display_example =
    reset_game-display blank_stack malloc (some game) console after_server after_debug 456
      game-valid server-done debug-done

cpu_step-Outcome_example : Outcome true (λ ticks. ticks < 2 ^ 32) (cpu_step machine)
cpu_step-Outcome_example = cpu_step-Outcome machine well_machine

Reach-quiet_example :
    (waiting_server.ws_connected ≡ false) × (behind_connection waiting_server.point ≡ false)
unfolding no_connection behind_connection
Reach-quiet_example =
    Reach-quiet blank_stack malloc (some game) no_connection ready refl started_quietly

commands_lost_example :
    let stepping = record looping { point = step_cycle } in
    let resetting = record looping { point = reset_game } in
    let cycled_once = elim (loop_cycle looping.console.machine) as (λ _. Option Server) [
      | none ↦ none
      | some (_, m) ↦ some (record looping {
        console = record (looping.console) { machine = m };
        step = false;
        point = load_restart;
        sent = looping.ws_client ∷ looping.sent;
      })
    ] in
    let reset_once =
      elim (reset_game_server blank_stack malloc (some game) looping.console)
        as (λ _. Option Server) [
          | none ↦ none
          | some c ↦ some (record looping {
            console = c;
            restart_game = false;
            start_game = false;
            point = load_connected;
            sent = looping.ws_client ∷ looping.sent;
          })
        ] in
    (run_alone blank_stack malloc (some game) 2 (handle (message step_once) stepping) ≡ cycled_once)
    × (run_alone blank_stack malloc (some game) 3 (handle (message start) resetting) ≡ reset_once)
    × (run_alone blank_stack malloc (some game) 3 (handle (message reset) resetting) ≡ reset_once)
commands_lost_example = commands_lost blank_stack malloc (some game) looping

signal_lost_example :
    (s' : Server) × (thread_step blank_stack malloc
        (some game)
        (handle signal (handle (store_client 1) (handle store_connected (init_globals ready))))
      ≡ some s')
    × (s'.ws_connected ≡ true)
    × (thread_step blank_stack malloc (some game) s' ≡ none)
    × (thread_step blank_stack malloc (some game) (handle (message step_once) s') ≡ none)
signal_lost_example =
    signal_lost blank_stack malloc (some game) (init_globals ready) 1 step_once refl
