-- ===== src/Tests/Arithmetic.antt =====
-- The arithmetic, the logic and the shifts on one register file.
use game_bloat.Prelude.{◌+◌, ◌/◌, ◌%◌, ◌≡◌, refl, arith, inl, true, false, ltb, ◌==◌, u8}
use game_bloat.Registers.{get8, set8, reg_b}
use game_bloat.Cpu.Flags.{flag_byte}
use game_bloat.Cpu.Alu.{add_s, adc_s, sbc_s, daa}
use game_bloat.Cpu.Alu.Laws.{add_s_lem}
use game_bloat.Cpu.Alu.Adc.{adc_s_wraps}
use game_bloat.Cpu.Alu.Decimal.{bcd, daa-add_s, daa-add_s_lost}
use game_bloat.Cpu.Shift.{srl_s}
use game_bloat.Cpu.Shift.Laws.{srl_s_lem}
use game_bloat.Tests.Data.{registers, widths}

add_s_lem_example : add_s 0xC6 registers ≡ record registers {
  a = u8 (registers.a + 0xC6);
  f =
      flag_byte
        (u8 (registers.a + 0xC6) == 0)
        false
        (ltb 15 (registers.a % 16 + 0xC6 % 16))
        (ltb 255 (registers.a + 0xC6))
        (registers.f % 16);
}
add_s_lem_example = add_s_lem 0xC6 registers (omega arith) (omega arith) (omega arith)

adc_s_wraps_example :
    (adc_s 0xFF registers
      ≡ record registers { f = flag_byte (registers.a == 0) false false false (registers.f % 16) })
    × (sbc_s 0xFF registers
        ≡ record registers { f = flag_byte (registers.a == 0) true false false (registers.f % 16) })
adc_s_wraps_example = adc_s_wraps registers (omega arith) (omega arith) refl

daa-add_s_example : (daa (add_s (bcd 38) registers)).a ≡ bcd ((47 + 38) % 100)
daa-add_s_example =
    daa-add_s 47 38 registers (omega arith) (omega arith) refl (omega arith) (inl (omega arith))

daa-add_s_lost_example :
    ((daa (add_s (bcd 77) (record registers { a = 0x85 }))).a ≡ (85 + 77) % 10)
    × ((85 + 77) % 100 / 10 ≡ 6)
daa-add_s_lost_example =
    daa-add_s_lost 85 77 (record registers { a = 0x85 }) (omega arith) (omega arith) refl
      (omega arith) refl (omega arith) (omega arith)

srl_s_lem_example :
    srl_s reg_b registers
    ≡ set8 reg_b (get8 reg_b registers / 2) (record registers {
      f = flag_byte (get8 reg_b registers / 2 == 0) false false true (registers.f % 16);
    })
srl_s_lem_example = srl_s_lem reg_b registers widths
