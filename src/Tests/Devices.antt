-- ===== src/Tests/Devices.antt =====
-- The memory, the GPU, the interrupt registers and the controllers at concrete inputs.
use game_bloat.Prelude.{ℕ, ◌+◌, ◌%◌, ◌≡◌, refl, arith, some, ◌==◌, if◌then◌else◌}
use game_bloat.Prelude.Buffer.{Buffer}
use game_bloat.Gpu.Step.{Video, gpu_step}
use game_bloat.Gpu.Step.Laws.{IsValid, gpu_step-Steps}
use game_bloat.Gpu.Invariant.{gpu_reset-IsValid}
use game_bloat.Mbc.Mbc3
use game_bloat.Mbc.Mbc3.Laws.{
  initial-IsValid, write_byte-IsValid, write_byte-registers, read_byte-write_external,
}
use game_bloat.Mbc.Rtc.{Rtc, initial_rtc, latch_rtc, write_to_rtc_register, determine_timestamp}
use game_bloat.Mbc.Rtc.Laws.{
  IsRunning, latch_rtc-total, latch_rtc-late, write_to_rtc_register-running,
}
use game_bloat.Cpu.Reset.{cpu_reset}
use game_bloat.Cpu.Reset.Laws.{cpu_reset-IsValid}
use game_bloat.Machine.{Machine}
use game_bloat.Memory.{read_memory, mmu_write_byte}
use game_bloat.Memory.Ram.{canonical, read_memory-write_byte}
use game_bloat.Tests.Data.{machine, video, blank_gpu, rom, ram, bank3}

gpu_step-Steps_example : (v' : Video) × (gpu_step 456 video ≡ some v') × IsValid v'.gpu
gpu_step-Steps_example = gpu_step-Steps 456 video (gpu_reset-IsValid blank_gpu)

read_memory-write_byte_example :
    (m' : Machine) × (mmu_write_byte 0xC010 7 machine ≡ some (1, m'))
    × (read_memory m' 0xE010
        ≡ (if canonical 0xC010 == canonical 0xE010 then some 7 else read_memory machine 0xE010))
read_memory-write_byte_example = read_memory-write_byte 0xC010 0xE010 7 machine refl

latch_rtc-total_example : (r' : Rtc) × (latch_rtc 1000 initial_rtc ≡ some r') × IsRunning r'
latch_rtc-total_example = latch_rtc-total 1000 initial_rtc

cpu_reset-IsValid_example :
    (m' : Machine) × (cpu_reset machine ≡ some (tt, m'))
    × (m'.registers ≡ record {
      a = 0x01;
      f = 0xB0;
      b = 0x00;
      c = 0x13;
      d = 0x00;
      e = 0xD8;
      h = 0x01;
      l = 0x4D;
      sp = 0xFFFE;
      pc = 0x0100;
    })
    × (m'.interrupts.enable ≡ 0)
    × (m'.tick_counter ≡ 0)
    × (m'.cartridge ≡ machine.cartridge)
    × (m'.tile_file ≡ machine.tile_file)
    × IsValid m'.gpu
cpu_reset-IsValid_example = cpu_reset-IsValid machine (gpu_reset-IsValid blank_gpu)

write_byte-IsValid_example : Mbc3.Laws.IsValid (record (Mbc3.initial) { rom_bank_number = 5 })
unfolding Mbc3.write_byte
write_byte-IsValid_example =
    write_byte-IsValid 1000 Mbc3.initial ram 0x2000 5 initial-IsValid (omega arith) refl

read_byte-write_external_example :
    (ram' : Buffer) × (Mbc3.write_byte 1000 bank3 ram 0xA010 9 ≡ some (0, bank3, ram'))
    × (Mbc3.read_byte bank3 rom ram' 0xA010 ≡ some 9)
read_byte-write_external_example =
    read_byte-write_external 1000 bank3 rom ram 0xA010 9 refl refl (omega arith) (omega arith)
      (omega arith) (omega arith)

write_byte-registers_example :
    (status : ℕ) × (m' : Mbc3.Mbc3) × (Mbc3.write_byte 1000 Mbc3.initial ram 0x6000 1
      ≡ some (status, m', ram))
write_byte-registers_example =
    write_byte-registers 1000 Mbc3.initial ram 0x6000 1 initial-IsValid (omega arith)

latch_rtc-late_example :
    (r' : Rtc) × (latch_rtc 44150401 initial_rtc ≡ some r')
    × (r'.clock.seconds ≡ 196 + 44150401 % 60)
latch_rtc-late_example =
    latch_rtc-late 44150401 initial_rtc (omega arith) (omega arith) (omega arith) (omega arith)

write_to_rtc_register-running_example :
    let (status, r') = write_to_rtc_register 1000 0x40 initial_rtc in
    (r'.clock ≡ initial_rtc.clock) × (determine_timestamp 2000 r' ≡ 2000)
write_to_rtc_register-running_example =
    write_to_rtc_register-running 1000 2000 0x40 initial_rtc (omega arith)
