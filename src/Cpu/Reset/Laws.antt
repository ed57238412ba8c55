-- ===== src/Cpu/Reset/Laws.antt =====
-- src/cpu.c: the state after `cpuReset`.
use game_bloat.Prelude.{
  ℕ, ◌<◌, ◌≤◌, ◌≡◌, ◌∙◌, refl, arith, List, [], ◌∷◌, Option, none, some, Bool, true, ltb, leb, ◌&&◌,
  ap,
}
use game_bloat.Machine.{Machine}
use game_bloat.Gpu.Step.Laws.{IsValid}
use game_bloat.Memory.{mmu_write_byte, write_io}
use game_bloat.Memory.Map.{mmu_write_byte-safe}
use game_bloat.Cpu.Reset.{cpu_reset, write_reset_values, reset_addresses, reset_values}

-- The addresses of a list are ports, and as many bytes go to them.
abbrev to_ports : List ℕ → List ℕ → Bool
to_ports [] [] = true
to_ports [] (v ∷ ys) = true
to_ports (a ∷ xs) [] = true
to_ports (a ∷ xs) (v ∷ ys) = leb 0xFF00 a && ltb a 0xFF80 && ltb v 256 && to_ports xs ys

-- What the loop keeps.
record IsKept (m m' : Machine) : Type 0 where
  registers_same : m'.registers ≡ m.registers
  cartridge_same : m'.cartridge ≡ m.cartridge
  file_same : m'.tile_file ≡ m.tile_file
  gpu_valid : IsValid m'.gpu

write_port :
    (a v : ℕ) (m : Machine)
    → 0xFF00 ≤ a
    → a < 0xFF80
    → (mmu_write_byte a v m ≡ some (1, write_io a v m))
      × ((write_io a v m).cartridge ≡ m.cartridge)
      × ((write_io a v m).tile_file ≡ m.tile_file)
unfolding mmu_write_byte write_io
write_port a v m lo hi = (ground arith, ground arith, ground arith)

write_reset_values-IsKept :
    (xs ys : List ℕ) (m : Machine)
    → to_ports xs ys ≡ true
    → IsValid m.gpu
    → (m' : Machine) × (write_reset_values xs ys m ≡ some (tt, m')) × IsKept m m'
unfolding write_reset_values
write_reset_values-IsKept [] ys m ports valid = (
  m,
  refl,
  record { registers_same = refl; cartridge_same = refl; file_same = refl; gpu_valid = valid },
)
write_reset_values-IsKept (a ∷ xs) [] m ports valid = (
  m,
  refl,
  record { registers_same = refl; cartridge_same = refl; file_same = refl; gpu_valid = valid },
)
write_reset_values-IsKept (a ∷ xs) (v ∷ ys) m ports valid =
    let lo : 0xFF00 ≤ a = ground arith in
    let hi : a < 0xFF80 = ground arith in
    let byte : v < 256 = ground arith in
    let rest : to_ports xs ys ≡ true = ground arith in
    let (done, cartridge, file) = write_port a v m lo hi in
    let (registers, ticks, rom, gpu) = mmu_write_byte-safe a v m (omega arith) byte valid done in
    let (m', more, kept) = write_reset_values-IsKept xs ys (write_io a v m) rest gpu in
    (
      m',
      ap
            (λ (x : Option (ℕ × Machine)). elim x as (λ _. Option (Unit {0} × Machine)) [
              | none ↦ none
              | some (_, m2) ↦ write_reset_values xs ys m2
            ])
            done
          ∙ more,
      record {
        registers_same = kept.registers_same ∙ registers;
        cartridge_same = kept.cartridge_same ∙ cartridge;
        file_same = kept.file_same ∙ file;
        gpu_valid = kept.gpu_valid;
      },
    )

-- `cpuReset` returns from every state with a valid GPU: the registers are the ones that the boot
-- program leaves, no interrupt is enabled, the tick counter is 0, the cartridge and whether the
-- file of the tiles can be opened are as before, and the GPU is valid.
pub cpu_reset-IsValid :
    (m : Machine)
    → IsValid m.gpu
    → (m' : Machine) × (cpu_reset m ≡ some (tt, m'))
      × (m'.registers ≡ record {
        a = 0x01;
        f = 0xB0;
        b = 0x00;
        c = 0x13;
        d = 0x00;
        e = 0xD8;
        h = 0x01;
        l = 0x4D;
        sp = 0xFFFE;
        pc = 0x0100;
      })
      × (m'.interrupts.enable ≡ 0)
      × (m'.tick_counter ≡ 0)
      × (m'.cartridge ≡ m.cartridge)
      × (m'.tile_file ≡ m.tile_file)
      × IsValid m'.gpu
unfolding cpu_reset
cpu_reset-IsValid m valid =
    let start = record m {
      registers = record {
        a = 0x01;
        f = 0xB0;
        b = 0x00;
        c = 0x13;
        d = 0x00;
        e = 0xD8;
        h = 0x01;
        l = 0x4D;
        sp = 0xFFFE;
        pc = 0x0100;
      };
    } in
    let (m', done, kept) =
      write_reset_values-IsKept reset_addresses reset_values start refl valid in
    (
      record m' { interrupts = record (m'.interrupts) { enable = 0 }; tick_counter = 0 },
      ap
          (λ (x : Option (Unit {0} × Machine)). elim x as (λ _. Option (Unit {0} × Machine)) [
            | none ↦ none
            | some (_, m2) ↦ some (
              tt,
              record m2 { interrupts = record (m2.interrupts) { enable = 0 }; tick_counter = 0 },
            )
          ])
          done,
      kept.registers_same,
      refl,
      refl,
      kept.cartridge_same,
      kept.file_same,
      kept.gpu_valid,
    )
