-- ===== src/Machine.antt =====
-- The state of the emulator: the global variables of src/registers.c, src/memory.c,
-- src/interrupt.c, src/gpu.c, src/cartridge.c and src/cpu.c, and the commands over it. `tile_file` is
-- not the program's: it says whether `fopen` opens tile0.bin for writing.
use game_bloat.Prelude.{ℕ, Option, none, some, Bool, if◌then◌else◌}
use game_bloat.Registers.{Registers}
use game_bloat.Interrupt.{InterruptRegisters}
use game_bloat.Gpu.State.{Gpu}
use game_bloat.Mbc.{Cartridge}

pub record Machine : Type 0 where
  pub registers : Registers
  pub interrupts : InterruptRegisters
  pub gpu : Gpu
  pub work_ram : ℕ → ℕ
  pub oam : ℕ → ℕ
  pub io_ports : ℕ → ℕ
  pub high_ram : ℕ → ℕ
  pub cartridge : Cartridge
  pub tick_counter : ℕ
  pub stopped : ℕ
  pub tile_file : Bool

-- A command; `none` is undefined behaviour of the C program.
abbrev pub Command : Type 0 → Type 0
Command A = Machine → Option (A × Machine)

abbrev pub pure : {A : Type 0} → A → Command A
pure a m = some (a, m)

infixl 5 ◌>>=◌ ◌>>◌
abbrev pub ◌>>=◌ : {A B : Type 0} → Command A → (A → Command B) → Command B
◌>>=◌ c f m = elim (c m) [ none ↦ none | some (a, m') ↦ f a m' ]

abbrev pub ◌>>◌ : {A B : Type 0} → Command A → Command B → Command B
c >> d = c >>= λ _. d

-- Code that touches the registers alone.
abbrev pub on_registers : (Registers → Registers) → Command (Unit {0})
on_registers f m = some (tt, record m { registers = f m.registers })

abbrev pub get_registers : Command Registers
get_registers m = some (m.registers, m)

-- `gpuWriteVramToFile`: `fwrite` and `fclose` on a stream that `fopen` did not open are undefined.
abbrev pub gpu_write_vram_to_file : Command (Unit {0})
gpu_write_vram_to_file m = if m.tile_file then some (tt, m) else none
