-- ===== src/Cpu/Shift/Bits.antt =====
-- src/cpu.c: `bit_b_s`, `set_b_s` and `res_b_s` act on one bit.
use game_bloat.Prelude.{
  ℕ, ◌%◌, ◌/◌, ◌^◌, ◌<◌, ◌≡◌, ◌==◌, arith, false, Bool, true, refl, u8, not, ◌&&◌, ◌||◌, bit_and,
  bit_or, complement8, ◌<<<◌,
}
use game_bloat.Prelude.Bytes.{all_below, all_below_sound}
use game_bloat.Registers.{Registers, ByteRegister, get8, IsWidth, get8-lt, get8-set8, reg_a}
use game_bloat.Cpu.Flags.{
  flag_laws, flag_byte, has_flag, flag_carry, flag_byte-has_flag, low-flag_byte, has_flag-carry,
}
use game_bloat.Cpu.Shift.{bit_b_s, set_b_s, res_b_s}

-- The binary digit `j` of `v`.
abbrev pub has_bit : ℕ → ℕ → Bool
has_bit j v = v / 2 ^ j % 2 == 1

abbrev same : Bool → Bool → Bool
same true b = b
same false b = not b

same_eq : (a b : Bool) → same a b ≡ true → a ≡ b
same_eq true b h = ground arith
same_eq false b h = ground arith

set_table :
    all_below 8 (λ i. all_below 8 (λ j.
      all_below 256 (λ v. same (has_bit j (u8 (bit_or v (1 <<< i)))) (j == i || has_bit j v))))
    ≡ true
unfolding all_below
set_table = refl

res_table :
    all_below 8 (λ i. all_below 8 (λ j. all_below 256 (λ v.
      same (has_bit j (u8 (bit_and v (complement8 (1 <<< i))))) (not (j == i) && has_bit j v))))
    ≡ true
unfolding all_below
res_table = refl

test_table :
    all_below 8 (λ i. all_below 256 (λ v. same (bit_and v (1 <<< i) == 0) (not (has_bit i v))))
    ≡ true
unfolding all_below
test_table = refl

module _ (i : ℕ) (s : ByteRegister) (r : Registers) (in_byte : i < 8) (w : IsWidth r) where
  -- `set_b_s` sets bit `i` and `res_b_s` clears it; both leave each other bit `j` of the byte.
  set_res-bits :
      (j : ℕ)
      → j < 8
      → (has_bit j (get8 s (set_b_s i s r)) ≡ (j == i || has_bit j (get8 s r)))
        × (has_bit j (get8 s (res_b_s i s r)) ≡ (not (j == i) && has_bit j (get8 s r)))
  unfolding set_b_s res_b_s
  set_res-bits j lt = (
    rw get8-set8 (
        same_eq _ _ (
          all_below_sound 256 _ (get8 s r)
            (all_below_sound 8 _ j (all_below_sound 8 _ i set_table in_byte) lt) (get8-lt s w))),
    rw get8-set8 (
        same_eq _ _ (
          all_below_sound 256 _ (get8 s r)
            (all_below_sound 8 _ j (all_below_sound 8 _ i res_table in_byte) lt) (get8-lt s w))),
  )

  bit_test : (bit_and (get8 s r) (1 <<< i) == 0) ≡ not (has_bit i (get8 s r))
  bit_test =
      same_eq _ _
        (all_below_sound 256 _ (get8 s r) (all_below_sound 8 _ i test_table in_byte) (get8-lt s w))

-- `bit_b_s` changes F alone: Z is the complement of bit `i`, N is clear, H is set, C is kept.
bit_b_s_lem :
    (i : ℕ) (s : ByteRegister) (r : Registers)
    → i < 8
    → IsWidth r
    → bit_b_s i s r ≡ record r {
      f = flag_byte (not (has_bit i (get8 s r))) false true (has_flag flag_carry r.f) (r.f % 16);
    }
unfolding bit_b_s
bit_b_s_lem i reg_a r in_byte w =
    let small : r.f % 16 < 16 = omega arith in
    rw (flag_byte-has_flag _ w.f_fits)
      (simp (flag_laws, low-flag_byte, has_flag-carry, small, bit_test i reg_a r in_byte w))
bit_b_s_lem i s r in_byte w =
    let small : r.f % 16 < 16 = omega arith in
    rw (flag_byte-has_flag _ w.f_fits)
      (simp (flag_laws, low-flag_byte, has_flag-carry, small, bit_test i s r in_byte w))
