-- ===== src/Cpu/Shift/Laws.antt =====
-- src/cpu.c: what the rotates, shifts and bit operations do to a byte and to C.
use game_bloat.Prelude.{
  ℕ, ◌+◌, ◌*◌, ◌%◌, ◌/◌, ◌<◌, ◌≡◌, arith, ◌==◌, ==_iff, u8, false, true, Bool, truthy, bit_and,
  refl, bit_or, ◌<<<◌, ◌>>>◌, if◌then◌else◌,
}
use game_bloat.Prelude.Bytes.{all_below, all_below_sound}
use game_bloat.Registers.{Registers, ByteRegister, reg_a, get8, set8, IsWidth, get8-lt}
use game_bloat.Cpu.Flags.{
  flag_laws, flag_byte, flag_byte-has_flag, low-flag_byte, has_flag-carry, test-carry, bit,
  flag_digits,
}
use game_bloat.Cpu.Shift.{rlc_s, rrc_s, rl_s, sla_s, srl_s, swap_s, swap_nibbles}

-- `rl_s` is `sla_s`: the old carry does not enter the byte.
rl_s-sla_s : (s : ByteRegister) (r : Registers) → rl_s s r ≡ sla_s s r
unfolding rl_s sla_s
rl_s-sla_s s r = refl

low_bit_table : all_below 256 (λ v. bit_and v 0x01 == v % 2) ≡ true
unfolding all_below
low_bit_table = refl

bit_and-low_bit : (v : ℕ) → v < 256 → bit_and v 0x01 ≡ v % 2
bit_and-low_bit v h = (==_iff _ _).0 (all_below_sound 256 _ v low_bit_table h)

top_bit_table : all_below 128 (λ v. bit_or v 0x80 == v + 128) ≡ true
unfolding all_below
top_bit_table = refl

pub bit_or-top_bit : (v : ℕ) → v < 128 → bit_or v 0x80 ≡ v + 128
bit_or-top_bit v h = (==_iff _ _).0 (all_below_sound 128 _ v top_bit_table h)

bit_and-top_bit : (v : ℕ) → v < 256 → bit_and v 0x80 ≡ v / 128 * 128
bit_and-top_bit v h = ground (arith, flag_digits v h)

carry_of_top : (v : ℕ) → v < 256 → truthy (v / 128 * 128) ≡ (v / 128 == 1)
carry_of_top v h = ground arith

carry_of_low : (v : ℕ) → truthy (v % 2) ≡ (v % 2 == 1)
carry_of_low v = ground arith

nonzero_bit : (c : Bool) → truthy (if c then 1 else 0) ≡ c
nonzero_bit true = refl
nonzero_bit false = refl

same_branches {ℓ} : {A : Type ℓ} (t : Bool) (x : A) → (if t then x else x) ≡ x
same_branches true x = refl
same_branches false x = refl

swap_table : all_below 256 (λ v. swap_nibbles v == v % 16 * 16 + v / 16) ≡ true
unfolding all_below swap_nibbles
swap_table = refl

swap_nibbles_lem : (v : ℕ) → v < 256 → swap_nibbles v ≡ v % 16 * 16 + v / 16
swap_nibbles_lem v h = (==_iff _ _).0 (all_below_sound 256 _ v swap_table h)

swapped_zero : (v : ℕ) → v < 256 → (v % 16 * 16 + v / 16 == 0) ≡ (v == 0)
swapped_zero v h = ground arith

swapped_fits : (v : ℕ) → v < 256 → (v % 16 * 16 + v / 16) % 256 ≡ v % 16 * 16 + v / 16
swapped_fits v h = omega arith

pub halved : (v : ℕ) → v < 256 → u8 (v / 2) ≡ v / 2
halved v h = omega arith

carry_test : (c : Bool) → truthy (bit c * 16) ≡ c
carry_test true = refl
carry_test false = refl

rotated_left :
    (v : ℕ) → v < 256 → u8 (u8 (v <<< 1) + (if v / 128 == 1 then 1 else 0)) ≡ v * 2 % 256 + v / 128
rotated_left v h = ground arith

rotated_left_zero : (v : ℕ) → v < 256 → (v * 2 % 256 + v / 128 == 0) ≡ (v == 0)
rotated_left_zero v h = ground arith

rotated_left_fits : (v : ℕ) → v < 256 → (v * 2 % 256 + v / 128) % 256 ≡ v * 2 % 256 + v / 128
rotated_left_fits v h = omega arith

rotated_right_fits : (v : ℕ) → v < 256 → (v / 2 + v % 2 * 128) % 256 ≡ v / 2 + v % 2 * 128
rotated_right_fits v h = omega arith

rotated_right_zero : (v : ℕ) → v < 256 → (v / 2 + v % 2 * 128 == 0) ≡ (v == 0)
rotated_right_zero v h = ground arith

rotated_right :
    (v : ℕ)
    → v < 256
    → u8 (if v % 2 == 1 then bit_or (u8 (v >>> 1)) 0x80 else u8 (v >>> 1)) ≡ v / 2 + v % 2 * 128
rotated_right v h = ground (arith, bit_or-top_bit (v / 2))

ruleset shift_laws = (
  flag_laws, low-flag_byte, bit_and-top_bit, bit_and-low_bit, carry_of_top, carry_of_low,
  carry_test, test-carry, rotated_left, rotated_left_zero, rotated_left_fits, nonzero_bit,
  rotated_right, rotated_right_zero, rotated_right_fits, has_flag-carry,
)

-- `rlc_s` moves every bit up by one and the top bit to the bottom, C is that bit, Z tells whether
-- the byte is 0, and N and H are clear.
pub rlc_s_lem :
    (s : ByteRegister) (r : Registers)
    → IsWidth r
    → rlc_s s r
      ≡ set8 s
          (get8 s r * 2 % 256 + get8 s r / 128)
          (record r { f = flag_byte (get8 s r == 0) false false (get8 s r / 128 == 1) (r.f % 16) })
unfolding rlc_s
rlc_s_lem reg_a r w =
    let small : r.f % 16 < 16 = omega arith in
    rw (flag_byte-has_flag _ w.f_fits) (simp (shift_laws, small, get8-lt reg_a w))
rlc_s_lem s r w =
    let small : r.f % 16 < 16 = omega arith in
    rw (flag_byte-has_flag _ w.f_fits) (simp (shift_laws, small, get8-lt s w))

-- `rrc_s` moves every bit down by one and the low bit to the top, C is that bit, Z tells whether
-- the byte is 0, and N and H are clear.
pub rrc_s_lem :
    (s : ByteRegister) (r : Registers)
    → IsWidth r
    → rrc_s s r
      ≡ set8 s
          (get8 s r / 2 + get8 s r % 2 * 128)
          (record r { f = flag_byte (get8 s r == 0) false false (get8 s r % 2 == 1) (r.f % 16) })
unfolding rrc_s
rrc_s_lem reg_a r w =
    let small : r.f % 16 < 16 = omega arith in
    rw (flag_byte-has_flag _ w.f_fits) (simp (shift_laws, small, get8-lt reg_a w))
rrc_s_lem s r w =
    let small : r.f % 16 < 16 = omega arith in
    rw (flag_byte-has_flag _ w.f_fits) (simp (shift_laws, small, get8-lt s w))

-- `srl_s` sets C whatever bit it shifts out, and puts 0 at the top.
pub srl_s_lem :
    (s : ByteRegister) (r : Registers)
    → IsWidth r
    → srl_s s r
      ≡ set8 s
          (get8 s r / 2)
          (record r { f = flag_byte (get8 s r / 2 == 0) false false true (r.f % 16) })
unfolding srl_s
srl_s_lem reg_a r w =
    let small : r.f % 16 < 16 = omega arith in
    rw (flag_byte-has_flag _ w.f_fits)
      (simp (shift_laws, same_branches, halved, small, get8-lt reg_a w))
srl_s_lem s r w =
    let small : r.f % 16 < 16 = omega arith in
    rw (flag_byte-has_flag _ w.f_fits)
      (simp (shift_laws, same_branches, halved, small, get8-lt s w))

-- `sla_s` doubles the byte modulo 256, and C is the bit shifted out.
sla_s_lem :
    (s : ByteRegister) (r : Registers)
    → IsWidth r
    → sla_s s r
      ≡ set8 s (get8 s r * 2) (record r {
        f = flag_byte (get8 s r * 2 % 256 == 0) false false (get8 s r / 128 == 1) (r.f % 16);
      })
unfolding sla_s
sla_s_lem reg_a r w =
    let small : r.f % 16 < 16 = omega arith in
    rw (flag_byte-has_flag _ w.f_fits) (simp (shift_laws, small, get8-lt reg_a w))
sla_s_lem s r w =
    let small : r.f % 16 < 16 = omega arith in
    rw (flag_byte-has_flag _ w.f_fits) (simp (shift_laws, small, get8-lt s w))

-- `swap_s` exchanges the nibbles, sets Z by the result and clears N, H and C.
pub swap_s_lem :
    (s : ByteRegister) (r : Registers)
    → IsWidth r
    → swap_s s r
      ≡ set8 s
          (get8 s r % 16 * 16 + get8 s r / 16)
          (record r { f = flag_byte (get8 s r == 0) false false false (r.f % 16) })
unfolding swap_s
swap_s_lem reg_a r w =
    let small : r.f % 16 < 16 = omega arith in
    rw (flag_byte-has_flag _ w.f_fits)
      (simp (shift_laws, swap_nibbles_lem, swapped_zero, swapped_fits, small, get8-lt reg_a w))
swap_s_lem s r w =
    let small : r.f % 16 < 16 = omega arith in
    rw (flag_byte-has_flag _ w.f_fits)
      (simp (shift_laws, swap_nibbles_lem, swapped_zero, swapped_fits, small, get8-lt s w))
