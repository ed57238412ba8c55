-- ===== src/Cpu/Alu/Laws.antt =====
-- src/cpu.c: what the 8-bit arithmetic computes, as equations on the whole register file.
use game_bloat.Prelude.{
  ℕ, ◌+◌, ◌-◌, ◌%◌, ◌<◌, ◌≡◌, arith, ltb, ◌==◌, u8, false, true, truthy, bit_and, bit_or, bit_xor,
}
use game_bloat.Prelude.Bytes.{bit_and-low_nibble, bit_and-low_byte, bit_and-high_byte_word}
use game_bloat.Registers.{Registers, ByteRegister, reg_a, get8, set8, IsWidth, get8-lt}
use game_bloat.Cpu.Flags.{
  flag_zero, flag_negative, flag_half_carry, flag_carry, flag_laws, flag_byte, has_flag,
  flag_byte-has_flag, low-flag_byte, has_flag-carry,
}
use game_bloat.Cpu.Alu.{add_s, sub_s, cmp_s, and_s, or_s, xor_s, inc_s, dec_s}

-- The tests of the source, as arithmetic on a sum that fits 16 bits.
pub carry_test : (x : ℕ) → x < 65536 → truthy (bit_and x 0xFF00) ≡ ltb 255 x
carry_test x h = rw (bit_and-high_byte_word x h) (ground arith)

pub low_byte_test : (x : ℕ) → x < 65536 → u8 (bit_and x 0x00FF) ≡ u8 x
low_byte_test x h = rw (bit_and-low_byte x h) (omega arith)

pub ruleset alu_laws = (flag_laws, carry_test, low_byte_test, bit_and-low_nibble, low-flag_byte)

-- `add_s` stores the sum's low byte, sets Z, H and C by the exact sums, clears N, and changes
-- nothing else.
pub add_s_lem :
    (s : ℕ) (r : Registers)
    → r.a < 256
    → r.f < 256
    → s < 256
    → add_s s r ≡ record r {
      a = u8 (r.a + s);
      f =
          flag_byte
            (u8 (r.a + s) == 0)
            false
            (ltb 15 (r.a % 16 + s % 16))
            (ltb 255 (r.a + s))
            (r.f % 16);
    }
unfolding add_s
add_s_lem s r ha hf hs =
    let small : r.f % 16 < 16 = omega arith in
    let wide : r.a + s < 65536 = omega arith in
    rw (flag_byte-has_flag _ hf) (simp (alu_laws, small, wide, ha, hs))

-- `sub_s` takes the operand from A modulo 256, sets Z on equality and H and C by the exact borrows,
-- sets N, and changes nothing else.
pub sub_s_lem :
    (s : ℕ) (r : Registers)
    → r.a < 256
    → r.f < 256
    → s < 256
    → sub_s s r ≡ record r {
      a = u8 (r.a + 256 - s);
      f = flag_byte (r.a == s) true (ltb (r.a % 16) (s % 16)) (ltb r.a s) (r.f % 16);
    }
unfolding sub_s
sub_s_lem s r ha hf hs =
    let small : r.f % 16 < 16 = omega arith in
    let same : (u8 (r.a + 256 - s) == 0) ≡ (r.a == s) = ground arith in
    rw (flag_byte-has_flag _ hf) (simp (alu_laws, small, ha, hs, same))

-- `cmp_s` is `sub_s` that keeps A.
cmp_s-sub_s :
    (s : ℕ) (r : Registers)
    → r.a < 256
    → r.f < 256
    → s < 256
    → cmp_s s r ≡ record r { f = (sub_s s r).f }
unfolding cmp_s
cmp_s-sub_s s r ha hf hs =
    let small : r.f % 16 < 16 = omega arith in
    rw (sub_s_lem s r ha hf hs) (rw (flag_byte-has_flag _ hf) (simp (alu_laws, small, ha, hs)))

-- The bitwise operations clear N and C, and set H for `and` only.
logic_lem :
    (s : ℕ) (r : Registers)
    → r.f < 256
    → (and_s s r ≡ record r {
      a = bit_and r.a s;
      f = flag_byte (bit_and r.a s == 0) false true false (r.f % 16);
    })
      × (or_s s r ≡ record r {
        a = bit_or r.a s;
        f = flag_byte (bit_or r.a s == 0) false false false (r.f % 16);
      })
      × (xor_s s r ≡ record r {
        a = bit_xor r.a s;
        f = flag_byte (bit_xor r.a s == 0) false false false (r.f % 16);
      })
unfolding and_s or_s xor_s
logic_lem s r hf =
    let small : r.f % 16 < 16 = omega arith in
    (
      rw (flag_byte-has_flag _ hf) (simp (alu_laws, small)),
      rw (flag_byte-has_flag _ hf) (simp (alu_laws, small)),
      rw (flag_byte-has_flag _ hf) (simp (alu_laws, small)),
    )

-- `inc_s` adds 1 modulo 256, sets Z and H, clears N, and keeps C.
pub inc_s_lem :
    (p : ByteRegister) (r : Registers)
    → IsWidth r
    → inc_s p r
      ≡ set8 p (get8 p r + 1) (record r {
        f =
            flag_byte
              (u8 (get8 p r + 1) == 0)
              false
              (get8 p r % 16 == 15)
              (has_flag flag_carry r.f)
              (r.f % 16);
      })
unfolding inc_s
inc_s_lem reg_a r w =
    let small : r.f % 16 < 16 = omega arith in
    rw (flag_byte-has_flag _ w.f_fits) (simp (alu_laws, small, get8-lt reg_a w, has_flag-carry))
inc_s_lem p r w =
    let small : r.f % 16 < 16 = omega arith in
    rw (flag_byte-has_flag _ w.f_fits) (simp (alu_laws, small, get8-lt p w, has_flag-carry))

-- `dec_s` takes 1 away modulo 256, sets Z, H and N, and keeps C.
pub dec_s_lem :
    (p : ByteRegister) (r : Registers)
    → IsWidth r
    → dec_s p r
      ≡ set8 p (get8 p r + 255) (record r {
        f =
            flag_byte
              (u8 (get8 p r + 255) == 0)
              true
              (get8 p r % 16 == 0)
              (has_flag flag_carry r.f)
              (r.f % 16);
      })
unfolding dec_s
dec_s_lem reg_a r w =
    let small : r.f % 16 < 16 = omega arith in
    rw (flag_byte-has_flag _ w.f_fits) (simp (alu_laws, small, get8-lt reg_a w, has_flag-carry))
dec_s_lem p r w =
    let small : r.f % 16 < 16 = omega arith in
    rw (flag_byte-has_flag _ w.f_fits) (simp (alu_laws, small, get8-lt p w, has_flag-carry))
