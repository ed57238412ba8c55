-- ===== src/Cpu/Alu/Decimal.antt =====
-- src/cpu.c: `daa`.
use game_bloat.Prelude.{
  ℕ, ◌+◌, ◌-◌, ◌*◌, ◌%◌, ◌/◌, ◌<◌, ◌≤◌, ◌≡◌, ◌⊎◌, ◌≢◌, arith, ltb, ◌==◌, ==_iff, u8, false, true,
  refl, Bool, bit_and, ◌||◌, if◌then◌else◌,
}
use game_bloat.Prelude.Bytes.{all_below, all_below_sound, bit_and-low_nibble, bit_and-low_byte}
use game_bloat.Registers.{Registers}
use game_bloat.Cpu.Flags.{
  flag_carry, put_bits, flag_zero, flag_laws, flag_byte, has_flag, flag_byte-has_flag, flag_byte-lt,
  flag_negative, has_flag-negative, test-negative, test-half_carry, test-carry, low-flag_byte,
}
use game_bloat.Cpu.Alu.{add_s, daa, daa_adjust}
use game_bloat.Cpu.Alu.Laws.{add_s_lem}

ninth_bit_table : all_below 256 (λ x. bit_and x 0x100 == 0) ≡ true
unfolding all_below
ninth_bit_table = refl

ninth_bit : (x : ℕ) → x < 256 → bit_and x 0x100 ≡ 0
ninth_bit x h = (==_iff _ _).0 (all_below_sound 256 _ x ninth_bit_table h)

pub daa_adjust-lt : (r : Registers) → r.a < 256 → daa_adjust r < 256
unfolding daa_adjust
daa_adjust-lt r ha = ground (arith, bit_and-low_byte (r.a + 256 - 6))

daa_flags :
    (x f : ℕ)
    → x < 256
    → f < 256
    → bit_and (put_bits flag_zero (x == 0) (put_bits flag_carry (bit_and x 0x100 == 0x100) f)) 0xDF
      ≡ flag_byte (x == 0) (has_flag flag_negative f) false false (f % 16)
daa_flags x f hx hf =
    let small : f % 16 < 16 = omega arith in
    rw (ninth_bit x hx, flag_byte-has_flag f hf)
      (simp (flag_laws, has_flag-negative, low-flag_byte, small))

-- `daa` clears C and H on every input, sets Z by the new A and keeps N.
daa_lem :
    (r : Registers)
    → r.a < 256
    → r.f < 256
    → daa r ≡ record r {
      a = daa_adjust r;
      f = flag_byte (daa_adjust r == 0) (has_flag flag_negative r.f) false false (r.f % 16);
    }
unfolding daa
daa_lem r ha hf = rw (daa_flags (daa_adjust r) r.f (daa_adjust-lt r ha) hf)

-- A decimal number below 100, two digits to a byte.
abbrev pub bcd : ℕ → ℕ
bcd n = n / 10 * 16 + n % 10

-- `daa` after an addition, with the flags read off.
abbrev adjusted : (half carry : Bool) → ℕ → ℕ
adjusted h c a =
    let a1 = if h || ltb 9 (a % 16) then u8 (a + 6) else a in
    if c || ltb 0x9F a1 then u8 (a1 + 0x60) else a1

daa_adjust-add :
    (z h c : Bool) (l : ℕ) (r : Registers)
    → l < 16
    → r.a < 256
    → r.f ≡ flag_byte z false h c l
    → daa_adjust r ≡ adjusted h c r.a
unfolding daa_adjust
daa_adjust-add z h c l r small ha hf = ground (
  arith,
  test-negative z false h c l,
  test-half_carry z false h c l,
  test-carry z false h c l,
  bit_and-low_nibble r.a,
)

decimal_sum :
    (p q s t : ℕ)
    → p < 10
    → q < 10
    → s < 10
    → t < 10
    → (p + s ≢ 15) ⊎ (q + t < 10) ⊎ (16 ≤ q + t)
    → adjusted (ltb 15 (q + t)) (ltb 255 ((p + s) * 16 + (q + t))) (u8 ((p + s) * 16 + (q + t)))
      ≡ bcd ((p * 10 + q + (s * 10 + t)) % 100)
decimal_sum p q s t hp hq hs ht ok = ground arith

-- After `add_s` of two decimal bytes `daa` makes A the decimal byte of the sum modulo 100,
-- unless the tens add up to 15 and the units to between 10 and 15.
pub daa-add_s :
    (x y : ℕ) (r : Registers)
    → x < 100
    → y < 100
    → r.a ≡ bcd x
    → r.f < 256
    → (x / 10 + y / 10 ≢ 15) ⊎ (x % 10 + y % 10 < 10) ⊎ (16 ≤ x % 10 + y % 10)
    → (daa (add_s (bcd y) r)).a ≡ bcd ((x + y) % 100)
daa-add_s x y r hx hy ha hf ok = ground (
  arith,
  add_s_lem (bcd y) r,
  daa_lem (add_s (bcd y) r),
  flag_byte-lt (u8 (r.a + bcd y) == 0) false (ltb 15 (r.a % 16 + bcd y % 16))
      (ltb 255 (r.a + bcd y)) (r.f % 16),
  daa_adjust-add (u8 (r.a + bcd y) == 0) (ltb 15 (r.a % 16 + bcd y % 16)) (ltb 255 (r.a + bcd y))
      (r.f % 16) (add_s (bcd y) r),
  decimal_sum (x / 10) (x % 10) (y / 10) (y % 10),
)

decimal_sum_lost :
    (p q s t : ℕ)
    → p < 10
    → q < 10
    → s < 10
    → t < 10
    → p + s ≡ 15
    → 10 ≤ q + t
    → q + t < 16
    → adjusted (ltb 15 (q + t)) (ltb 255 ((p + s) * 16 + (q + t))) (u8 ((p + s) * 16 + (q + t)))
      ≡ q + t - 10
decimal_sum_lost p q s t hp hq hs ht tens lo hi = ground arith

-- Where the tens add up to 15 and the units to between 10 and 15, `daa` leaves only the units
-- of the sum in A: the tens digit, 6 in the exact sum, is 0.
pub daa-add_s_lost :
    (x y : ℕ) (r : Registers)
    → x < 100
    → y < 100
    → r.a ≡ bcd x
    → r.f < 256
    → x / 10 + y / 10 ≡ 15
    → 10 ≤ x % 10 + y % 10
    → x % 10 + y % 10 < 16
    → ((daa (add_s (bcd y) r)).a ≡ (x + y) % 10) × ((x + y) % 100 / 10 ≡ 6)
daa-add_s_lost x y r hx hy ha hf tens lo hi = ground (
  arith,
  add_s_lem (bcd y) r,
  daa_lem (add_s (bcd y) r),
  flag_byte-lt (u8 (r.a + bcd y) == 0) false (ltb 15 (r.a % 16 + bcd y % 16))
      (ltb 255 (r.a + bcd y)) (r.f % 16),
  daa_adjust-add (u8 (r.a + bcd y) == 0) (ltb 15 (r.a % 16 + bcd y % 16)) (ltb 255 (r.a + bcd y))
      (r.f % 16) (add_s (bcd y) r),
  decimal_sum_lost (x / 10) (x % 10) (y / 10) (y % 10),
)
