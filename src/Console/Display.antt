-- ===== src/Console/Display.antt =====
-- src/Platforms/main_server.c and main_debug.c: the display behind a reset of a game.
use game_bloat.Prelude.{ℕ, ◌≡◌, refl, arith, Option, some, none, ap, sym, ◌∙◌}
use game_bloat.Prelude.Buffer.{Buffer}
use game_bloat.Machine.{Machine}
use game_bloat.Memory.{initialize_memory}
use game_bloat.Gpu.State.{gpu_reset}
use game_bloat.Gpu.Step.{gpu_step}
use game_bloat.Cpu.Reset.{cpu_reset, write_reset_values}
use game_bloat.Memory.{mmu_write_byte, write_io}
use game_bloat.Gpu.Control.{gpu_write_register, store_register}
use game_bloat.Cartridge.{load_cartridge}
use game_bloat.Cartridge.File.{Allocator}
use game_bloat.Bios.{validate_cart}
use game_bloat.Console.{
  step_video, Console, board, with_board, load_rom, reset_video, reset_game_server,
  reset_game_debug,
}

display_of : Option (Unit {0} × Machine) → Option ℕ
display_of none = none
display_of (some (_, m)) = some m.gpu.registers.lcd_control

cpu_reset-display : (m : Machine) → display_of (cpu_reset m) ≡ some 0x91
unfolding cpu_reset write_reset_values mmu_write_byte write_io gpu_write_register store_register
    display_of
cpu_reset-display m = refl

console_display : Option (ℕ × Console) → Option ℕ
console_display none = none
console_display (some (_, c)) = some c.machine.gpu.registers.lcd_control

load_rom-display :
    (malloc : Allocator) (file : Option Buffer) (c : Console)
    → console_display (load_rom malloc file c) ≡ some 0x91
unfolding load_rom console_display display_of
load_rom-display malloc file c =
    elim (cpu_reset (initialize_memory c.machine))
      as (λ r.
        console_display (elim r as (λ _. Option (ℕ × Console)) [
          | none ↦ none
          | some (_, m) ↦
              some
                (0, with_board (load_cartridge malloc file (board (record c { machine = m }))).1 m)
        ])
        ≡ display_of r) [ none ↦ refl | some (_, m) ↦ refl ]
    ∙ cpu_reset-display (initialize_memory c.machine)

control_of : Option Console → ℕ
control_of none = 0
control_of (some c) = c.machine.gpu.registers.lcd_control

-- What the two programs do with the result of `loadROM`.
server_end :
    (x : Option (ℕ × Console)) (c : Console)
    → elim x as (λ _. Option Console) [ none ↦ none | some (_, c2) ↦ some (reset_video c2) ]
      ≡ some c
    → c.machine.gpu.registers.lcd_control ≡ 0
unfolding gpu_reset control_of
server_end none c done = absurd (ground arith)
server_end (some (_, c2)) c done = sym (ap control_of done)

debug_end :
    (x : Option (ℕ × Console)) (c : Console)
    → console_display x ≡ some 0x91
    → elim x as (λ _. Option Console) [ none ↦ none | some (_, c2) ↦ some c2 ] ≡ some c
    → c.machine.gpu.registers.lcd_control ≡ 0x91
unfolding console_display control_of
debug_end none c shown done = absurd (ground arith)
debug_end (some (_, c2)) c shown done =
    let same : c.machine.gpu.registers.lcd_control ≡ c2.machine.gpu.registers.lcd_control =
      sym (ap control_of done) in
    ground arith

server_valid :
    (stack : ℕ → ℕ) (malloc : Allocator) (file : Option Buffer) (c cs : Console)
    → (validate_cart stack file c.header).0 ≡ 1
    → reset_game_server stack malloc file c ≡ some cs
    → elim (load_rom malloc file (record c { header = (validate_cart stack file c.header).1 }))
        as (λ _. Option Console) [ none ↦ none | some (_, c2) ↦ some (reset_video c2) ]
      ≡ some cs
unfolding reset_game_server
server_valid stack malloc file c cs valid server = sym (rw (reset_game_server, valid) refl) ∙ server

debug_valid :
    (stack : ℕ → ℕ) (malloc : Allocator) (file : Option Buffer) (c cd : Console)
    → (validate_cart stack file c.header).0 ≡ 1
    → reset_game_debug stack malloc file c ≡ some cd
    → elim (load_rom malloc file
          (reset_video (record c { header = (validate_cart stack file c.header).1 })))
        as (λ _. Option Console) [ none ↦ none | some (_, c2) ↦ some c2 ]
      ≡ some cd
unfolding reset_game_debug
debug_valid stack malloc file c cd valid debug = sym (rw (reset_game_debug, valid) refl) ∙ debug

-- With the display off the GPU stands still.
step_video-off :
    (ticks : ℕ) (m : Machine) → m.gpu.registers.lcd_control ≡ 0 → step_video ticks m ≡ some (tt, m)
unfolding step_video gpu_step
step_video-off ticks m off = rw (step_video, gpu_step, off) refl

-- The two programs reset in another order: behind the server's reset of a valid game the LCD control
-- is 0, and the GPU stands still however many ticks pass; behind the debugger's it is 0x91.
pub reset_game-display :
    (stack : ℕ → ℕ) (malloc : Allocator) (file : Option Buffer) (c cs cd : Console) (ticks : ℕ)
    → (validate_cart stack file c.header).0 ≡ 1
    → reset_game_server stack malloc file c ≡ some cs
    → reset_game_debug stack malloc file c ≡ some cd
    → (cs.machine.gpu.registers.lcd_control ≡ 0)
      × (step_video ticks cs.machine ≡ some (tt, cs.machine))
      × (cd.machine.gpu.registers.lcd_control ≡ 0x91)
reset_game-display stack malloc file c cs cd ticks valid server debug =
    let c1 = record c { header = (validate_cart stack file c.header).1 } in
    let off =
      server_end (load_rom malloc file c1) cs (server_valid stack malloc file c cs valid server) in
    let on =
      debug_end (load_rom malloc file (reset_video c1)) cd
        (load_rom-display malloc file (reset_video c1))
        (debug_valid stack malloc file c cd valid debug) in
    (off, step_video-off ticks cs.machine off, on)
