-- ===== src/Console.antt =====
-- src/cpu.c: `loadROM`; src/Platforms/main_server.c and main_debug.c: the reset of a game and the cycle.
pub mod Cycle
pub mod Start
pub mod Display
use game_bloat.Prelude.{ℕ, zero, suc, Option, none, some, Bool, truthy, if◌then◌else◌}
use game_bloat.Prelude.Buffer.{Buffer}
use game_bloat.Interrupt.Step.{interrupt_step}
use game_bloat.Gpu.State.{gpu_reset}
use game_bloat.Gpu.Step.{Video, gpu_step}
use game_bloat.Mbc.{Controller}
use game_bloat.Machine.{Machine, Command, ◌>>=◌, ◌>>◌, pure}
use game_bloat.Memory.{initialize_memory}
use game_bloat.Cpu.Reset.{cpu_reset}
use game_bloat.Cpu.Step.{cpu_step}
use game_bloat.Cartridge.{Board, load_cartridge}
use game_bloat.Cartridge.File.{Allocator}
use game_bloat.Cartridge.Fields.{Header}
use game_bloat.Bios.{validate_cart}

-- `gpuStep` on the machine's GPU.
unfoldable pub step_video : ℕ → Command (Unit {0})
step_video ticks m = elim (gpu_step ticks (record { gpu = m.gpu; interrupts = m.interrupts })) [
  | none ↦ none
  | some v ↦ some (tt, record m { gpu = v.gpu; interrupts = v.interrupts })
]

-- The three steps of `LoopCycle`, which the loop of main_debug.c has too. What the server's `LoopCycle`
-- sends behind them is in Server.antt.
unfoldable pub loop_cycle : Command (Unit {0})
unfolding step_video
loop_cycle = do ticks ← cpu_step; step_video ticks; interrupt_step

-- So many cycles.
unfoldable pub run_cycles : ℕ → Command (Unit {0})
unfolding loop_cycle
run_cycles zero = pure tt
run_cycles (suc n) = loop_cycle >> run_cycles n

-- The machine and the rest of `cartridge`.
pub record Console : Type 0 where
  pub machine : Machine
  pub header : Header
  pub functions : Option Controller
  pub attached : Bool

abbrev pub board : Console → Board
board c = record {
  header = c.header;
  functions = c.functions;
  attached = c.attached;
  slot = c.machine.cartridge;
}

abbrev pub with_board : Board → Machine → Console
with_board b m = record {
  machine = record m { cartridge = b.slot };
  header = b.header;
  functions = b.functions;
  attached = b.attached;
}

-- The status is 0, whatever `loadCartridge` answers.
unfoldable pub load_rom : Allocator → Option Buffer → Console → Option (ℕ × Console)
load_rom malloc file c = elim (cpu_reset (initialize_memory c.machine)) [
  | none ↦ none
  | some (_, m) ↦
      let b = (load_cartridge malloc file (board (record c { machine = m }))).1 in
      some (0, with_board b m)
]

abbrev pub reset_video : Console → Console
reset_video c = record c { machine = record (c.machine) { gpu = gpu_reset c.machine.gpu } }

-- `ResetGame` of main_server.c: the GPU is reset last.
unfoldable pub reset_game_server :
    (stack : ℕ → ℕ) → Allocator → Option Buffer → Console → Option Console
unfolding load_rom
reset_game_server stack malloc file c =
    let (valid, header) = validate_cart stack file c.header in
    let c1 = record c { header = header } in
    if truthy valid
    then elim (load_rom malloc file c1) [ none ↦ none | some (_, c2) ↦ some (reset_video c2) ]
    else some c1

-- `resetGame` of main_debug.c: the GPU is reset first.
unfoldable pub reset_game_debug :
    (stack : ℕ → ℕ) → Allocator → Option Buffer → Console → Option Console
unfolding load_rom
reset_game_debug stack malloc file c =
    let (valid, header) = validate_cart stack file c.header in
    let c1 = record c { header = header } in
    if truthy valid
    then elim (load_rom malloc file (reset_video c1)) [ none ↦ none | some (_, c2) ↦ some c2 ]
    else some c1
