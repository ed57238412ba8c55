-- ===== src/Safety/Reset.antt =====
-- src/cpu.c: `cpuReset` establishes the machine's invariant.
use game_bloat.Prelude.{ℕ, ◌<◌, ◌^◌, ◌≡◌, refl, arith, List, [], ◌∷◌, Bool, true, ltb, ◌&&◌, ◌||◌}
use game_bloat.Gpu.Step.Laws.{IsValid}
use game_bloat.Machine.{Machine}
use game_bloat.Memory.{initialize_memory}
use game_bloat.Cpu.Reset.{cpu_reset, write_reset_values, reset_addresses, reset_values}
use game_bloat.Safety.{IsWell, HasBytes, returned, after, has_room}
use game_bloat.Safety.Write.{mmu_write_byte-Outcome}
use game_bloat.Safety.Commands.{Keeps}

abbrev in_range : List ℕ → List ℕ → Bool
in_range [] values = true
in_range (a ∷ addresses) [] = true
in_range (a ∷ addresses) (v ∷ values) = ltb a 65536 && ltb v 256 && in_range addresses values

write_reset_values-Keeps :
    {free : Bool} {m : Machine} (addresses values : List ℕ)
    → in_range addresses values ≡ true
    → IsWell free m
    → Keeps free (write_reset_values addresses values) m
unfolding write_reset_values
write_reset_values-Keeps [] values range well = returned tt well
write_reset_values-Keeps (a ∷ addresses) [] range well = returned tt well
write_reset_values-Keeps (a ∷ addresses) (v ∷ values) range well =
    after (mmu_write_byte-Outcome a v (ground arith) (ground arith) well)
      λ _ m' _ well'. write_reset_values-Keeps addresses values (ground arith) well'

-- What `cpuReset` does not set: the devices' registers, which are in range when the program starts
-- and stay so.
pub record IsPowered (free : Bool) (m : Machine) : Type 0 where
  pub request_fits : m.interrupts.request < 8
  pub enable_fits : m.interrupts.enable < 8
  pub gpu_valid : IsValid m.gpu
  pub gpu_bytes : HasBytes m.gpu.registers
  pub ticks_fit : m.tick_counter < 2 ^ 64
  pub room :
      (free || has_room m.cartridge.controller m.cartridge.rom.size m.cartridge.ram.size) ≡ true
  pub dump : (free || m.tile_file) ≡ true

-- A reset behind `initializeMemory` needs nothing of the registers and the memory.
pub cpu_reset-Keeps :
    {free : Bool} (m : Machine) → IsPowered free m → Keeps free cpu_reset (initialize_memory m)
unfolding cpu_reset initialize_memory
cpu_reset-Keeps m powered =
    after
      (write_reset_values-Keeps reset_addresses reset_values refl (record {
        width = omega arith;
        work_ram_bytes = λ _. omega arith;
        oam_bytes = λ _. omega arith;
        high_ram_bytes = λ _. omega arith;
        request_fits = powered.request_fits;
        enable_fits = powered.enable_fits;
        gpu_valid = powered.gpu_valid;
        gpu_bytes = powered.gpu_bytes;
        ticks_fit = powered.ticks_fit;
        room = powered.room;
        dump = powered.dump;
      }))
      λ _ m' _ well. returned tt (record {
        width = well.width;
        work_ram_bytes = well.work_ram_bytes;
        oam_bytes = well.oam_bytes;
        high_ram_bytes = well.high_ram_bytes;
        request_fits = well.request_fits;
        enable_fits = omega arith;
        gpu_valid = well.gpu_valid;
        gpu_bytes = well.gpu_bytes;
        ticks_fit = omega arith;
        room = well.room;
        dump = well.dump;
      })
