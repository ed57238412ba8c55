-- ===== src/Console/Cycle.antt =====
-- src/Platforms/main_server.c: every cycle of the three components keeps the machine's invariant.
use game_bloat.Prelude.{ℕ, zero, suc, ◌≡◌, refl, arith, Option, some, Bool, true, false}
use mathlib.Core.Path.{subst}
use game_bloat.Machine.{Machine}
use game_bloat.Gpu.Step.{Video}
use game_bloat.Gpu.Step.Laws.{gpu_step-Steps}
use game_bloat.Safety.{IsWell, Outcome, undefined, returned, after}
use game_bloat.Safety.Commands.{Keeps}
use game_bloat.Safety.Step.{cpu_step-Outcome}
use game_bloat.Safety.Video.{IsNarrow, gpu_step-IsNarrow}
use game_bloat.Safety.Interrupts.{interrupt_step-Keeps}
use game_bloat.Console.{step_video, loop_cycle, run_cycles}

abbrev screen : Machine → Video
screen m = record { gpu = m.gpu; interrupts = m.interrupts }

screen-IsNarrow : {free : Bool} {m : Machine} → IsWell free m → IsNarrow (screen m)
screen-IsNarrow well = record {
  registers = well.gpu_bytes;
  line = well.gpu_valid.timed.line_fits;
  request_fits = well.request_fits;
  enable_fits = well.enable_fits;
}

step_video-Keeps :
    {free : Bool} {m : Machine} (ticks : ℕ) → IsWell free m → Keeps free (step_video ticks) m
unfolding step_video
step_video-Keeps {m = m} ticks well =
    let (v, done, valid) = gpu_step-Steps ticks (screen m) well.gpu_valid in
    let narrow = gpu_step-IsNarrow ticks (screen m) v (screen-IsNarrow well) done in
    rw (step_video, done)
      (returned tt (record {
        width = well.width;
        work_ram_bytes = well.work_ram_bytes;
        oam_bytes = well.oam_bytes;
        high_ram_bytes = well.high_ram_bytes;
        request_fits = narrow.request_fits;
        enable_fits = narrow.enable_fits;
        gpu_valid = valid;
        gpu_bytes = narrow.registers;
        ticks_fit = well.ticks_fit;
        room = well.room;
        dump = well.dump;
      }))

pub loop_cycle-Keeps : {free : Bool} {m : Machine} → IsWell free m → Keeps free loop_cycle m
unfolding loop_cycle
loop_cycle-Keeps {m = m} well = after (cpu_step-Outcome m well) λ ticks m1 _ well1.
    after (step_video-Keeps ticks well1) λ _ m2 _ well2. interrupt_step-Keeps well2

run_cycles-Keeps : {free : Bool} {m : Machine} (n : ℕ) → IsWell free m → Keeps free (run_cycles n) m
unfolding run_cycles
run_cycles-Keeps zero well = returned tt well
run_cycles-Keeps (suc n) well =
    after (loop_cycle-Keeps well) λ _ m' _ well'. run_cycles-Keeps n well'

pub returned-IsWell :
    {free : Bool} {m : Machine} → Outcome free (λ _. Unit {0}) (some (tt, m)) → IsWell free m
returned-IsWell (returned _ well) = well

pub returned-total :
    {x : Option (Unit {0} × Machine)}
    → Outcome false (λ _. Unit {0}) x
    → (m : Machine) × (x ≡ some (tt, m)) × IsWell false m
returned-total (undefined is_free) = absurd (ground arith)
returned-total (returned {a} {m} _ well) = (m, refl, well)

-- Any number of cycles that end keep the invariant, whatever the cartridge: every register holds a
-- value of its width, every memory cell and GPU register a byte, only the three lowest interrupts are
-- requested or enabled, and the GPU's scanline, scroll and tiles are in range.
pub run_cycles-IsWell :
    (n : ℕ) (m m' : Machine) → IsWell true m → run_cycles n m ≡ some (tt, m') → IsWell true m'
run_cycles-IsWell n m m' well done =
    returned-IsWell (subst (Outcome true (λ _. Unit {0})) done (run_cycles-Keeps n well))

-- With a cartridge that has room, any number of cycles end: none of them reads or writes out of
-- bounds or calls through a NULL pointer, and the invariant holds behind them.
pub run_cycles-total :
    (n : ℕ) (m : Machine)
    → IsWell false m
    → (m' : Machine) × (run_cycles n m ≡ some (tt, m')) × IsWell false m'
run_cycles-total n m well = returned-total (run_cycles-Keeps n well)
