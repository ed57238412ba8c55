-- ===== src/Cpu/Alu/Adc.antt =====
-- src/cpu.c: `adc_s` and `sbc_s` add the carry to the operand before it is used, as a byte.
use game_bloat.Prelude.{ℕ, ◌+◌, ◌-◌, ◌%◌, ◌<◌, ◌≡◌, arith, ltb, ◌==◌, u8, false, true}
use game_bloat.Registers.{Registers}
use game_bloat.Cpu.Flags.{
  flag_carry, flag_laws, flag_byte, has_flag, flag_byte-has_flag, check_flag-carry, bit,
  has_flag-carry, flag_byte-lt, set_flag, flag_negative,
}
use game_bloat.Cpu.Alu.{add_s, adc_s, sub_s, sbc_s}
use game_bloat.Cpu.Alu.Laws.{add_s_lem, sub_s_lem}

-- The carry flag as a number.
abbrev pub carry : Registers → ℕ
carry r = bit (has_flag flag_carry r.f)

adc_s-add_s : (s : ℕ) (r : Registers) → r.f < 256 → adc_s s r ≡ add_s (u8 (s + carry r)) r
unfolding adc_s add_s
adc_s-add_s s r hf = rw (check_flag-carry r hf)

set_negative-carry : (r : Registers) → r.f < 256 → carry (set_flag flag_negative r) ≡ carry r
set_negative-carry r hf =
    let small : r.f % 16 < 16 = omega arith in
    rw (flag_byte-has_flag _ hf) (simp (flag_laws, has_flag-carry, small))

set_negative-fits : (r : Registers) → r.f < 256 → (set_flag flag_negative r).f < 256
set_negative-fits r hf =
    let small : r.f % 16 < 16 = omega arith in
    rw (flag_byte-has_flag _ hf) (simp (flag_laws, small) (flag_byte-lt _ _ _ _ _ small))

sbc_s-sub_s : (s : ℕ) (r : Registers) → r.f < 256 → sbc_s s r ≡ sub_s (u8 (s + carry r)) r
unfolding sbc_s sub_s
sbc_s-sub_s s r hf =
    let kept = set_negative-carry r hf in
    rw (check_flag-carry (set_flag flag_negative r) (set_negative-fits r hf), kept)

-- Unless the carry ripples through the low nibble of the operand, `adc_s` adds operand and
-- carry: A, Z, H and C are those of the exact sum, N is clear, the rest is as before.
adc_s-exact :
    (s : ℕ) (r : Registers)
    → r.a < 256
    → r.f < 256
    → s < 256
    → s % 16 + carry r < 16
    → adc_s s r ≡ record r {
      a = u8 (r.a + s + carry r);
      f =
          flag_byte
            (u8 (r.a + s + carry r) == 0)
            false
            (ltb 15 (r.a % 16 + s % 16 + carry r))
            (ltb 255 (r.a + s + carry r))
            (r.f % 16);
    }
adc_s-exact s r ha hf hs nibble =
    let fits : u8 (s + carry r) < 256 = omega arith in
    ground (arith, adc_s-add_s s r hf, add_s_lem (u8 (s + carry r)) r ha hf fits)

-- With the carry set, `adc_s` of 0xFF adds 0: A stays, and the carry out is lost; `sbc_s` of
-- 0xFF takes 0 away, with no borrow.
pub adc_s_wraps :
    (r : Registers)
    → r.a < 256
    → r.f < 256
    → carry r ≡ 1
    → (adc_s 0xFF r ≡ record r { f = flag_byte (r.a == 0) false false false (r.f % 16) })
      × (sbc_s 0xFF r ≡ record r { f = flag_byte (r.a == 0) true false false (r.f % 16) })
adc_s_wraps r ha hf set = (
  ground (arith, adc_s-add_s 0xFF r hf, add_s_lem 0 r ha hf),
  ground (arith, sbc_s-sub_s 0xFF r hf, sub_s_lem 0 r ha hf),
)

-- Below 0xFF, or with the carry clear, `sbc_s` takes operand and carry away from A, and C is the
-- exact borrow.
sbc_s-exact :
    (s : ℕ) (r : Registers)
    → r.a < 256
    → r.f < 256
    → s + carry r < 256
    → ((sbc_s s r).a ≡ (r.a + 256 - (s + carry r)) % 256)
      × ((sbc_s s r).f
          ≡ flag_byte
              (r.a == s + carry r)
              true
              (ltb (r.a % 16) ((s + carry r) % 16))
              (ltb r.a (s + carry r))
              (r.f % 16))
sbc_s-exact s r ha hf small = (
  ground (arith, sbc_s-sub_s s r hf, sub_s_lem (s + carry r) r ha hf),
  ground (arith, sbc_s-sub_s s r hf, sub_s_lem (s + carry r) r ha hf),
)
