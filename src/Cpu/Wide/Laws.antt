-- ===== src/Cpu/Wide/Laws.antt =====
-- src/cpu.c: the 16-bit arithmetic, against addition.
use game_bloat.Prelude.{
  ℕ, ◌+◌, ◌-◌, ◌*◌, ◌/◌, ◌%◌, ◌<◌, ◌≡◌, ◌∙◌, arith, bit_and, true, false, ltb, ◌==◌, ==_iff, truthy,
  if◌then◌else◌, refl,
}
use mathlib.Core.Path.{subst}
use game_bloat.Prelude.Bytes.{all_below, all_below_sound}
use game_bloat.Registers.{Registers, WordRegister, get16, set16, hl}
use game_bloat.Cpu.Flags.{
  flag_zero, has_flag, flag_laws, flag_byte, flag_byte-has_flag, low-flag_byte, has_flag-zero,
}
use game_bloat.Cpu.Wide.{add_hl_ss, add_sp_e, ld_hl_sp_e, inc_ss, dec_ss}

high_word_table :
    all_below 512
      (λ hi. all_below 256 (λ lo. bit_and (hi * 256 + lo) 0xFFFF0000 == hi / 256 * 65536))
    ≡ true
unfolding all_below
high_word_table = refl

high_word_parts :
    (hi lo : ℕ) → hi < 512 → lo < 256 → bit_and (hi * 256 + lo) 0xFFFF0000 ≡ hi / 256 * 65536
high_word_parts hi lo h l =
    (==_iff _ _).0 (all_below_sound 256 _ lo (all_below_sound 512 _ hi high_word_table h) l)

bit_and-high_word : (x : ℕ) → x < 131072 → bit_and x 0xFFFF0000 ≡ x / 65536 * 65536
bit_and-high_word x h =
    let parts : x / 256 * 256 + x % 256 ≡ x = omega arith in
    let same : x / 256 / 256 * 65536 ≡ x / 65536 * 65536 = omega arith in
    subst (λ y. bit_and y 0xFFFF0000 ≡ x / 65536 * 65536) parts
      (high_word_parts (x / 256) (x % 256) (omega arith) (omega arith) ∙ same)

wide_carry : (x : ℕ) → x < 131072 → truthy (bit_and x 0xFFFF0000) ≡ ltb 65535 x
wide_carry x h = ground (arith, bit_and-high_word x h)

low_nibble_table :
    all_below 256 (λ hi. all_below 256 (λ lo. bit_and (hi * 256 + lo) 0x0F == lo % 16)) ≡ true
unfolding all_below
low_nibble_table = refl

bit_and-low_nibble_word : (x : ℕ) → x < 65536 → bit_and x 0x0F ≡ x % 16
bit_and-low_nibble_word x h =
    let parts : x / 256 * 256 + x % 256 ≡ x = omega arith in
    let same : x % 256 % 16 ≡ x % 16 = omega arith in
    subst (λ y. bit_and y 0x0F ≡ x % 16) parts
      ((==_iff _ _).0 (
          all_below_sound 256 _ (x % 256)
            (all_below_sound 256 _ (x / 256) low_nibble_table (omega arith)) (omega arith))
        ∙ same)

-- HL gets the sum modulo 65536, and C tells whether it passed 65535; Z is kept, N cleared, and H
-- is the carry out of bit 3.
add_hl_ss_lem :
    (ss : ℕ) (r : Registers)
    → hl r < 65536
    → ss < 65536
    → r.f < 256
    → add_hl_ss ss r
      ≡ set16 WordRegister.reg_hl ((hl r + ss) % 65536) (record r {
        f =
            flag_byte
              (has_flag flag_zero r.f)
              false
              (ltb 15 (hl r % 16 + ss % 16))
              (ltb 65535 (hl r + ss))
              (r.f % 16);
      })
unfolding add_hl_ss
add_hl_ss_lem ss r fits small hf =
    let nibble : r.f % 16 < 16 = omega arith in
    let sum : hl r + ss < 131072 = omega arith in
    rw (flag_byte-has_flag _ hf) (
      simp (
        flag_laws, low-flag_byte, has_flag-zero, wide_carry, bit_and-low_nibble_word, nibble, fits,
        small, sum,
      ))

-- The stack pointer moves by the displacement as a signed byte, and `ld_HL_SP_e` stores the same
-- sum in HL and leaves the stack pointer.
add_sp_e-sum :
    (e : ℕ) (r : Registers)
    → e < 256
    → ((add_sp_e e r).sp
        ≡ (if ltb e 128 then (r.sp + e) % 65536 else (r.sp + 65536 - (256 - e)) % 65536))
      × (hl (ld_hl_sp_e e r) ≡ (add_sp_e e r).sp)
      × ((ld_hl_sp_e e r).sp ≡ r.sp)
unfolding add_sp_e ld_hl_sp_e
add_sp_e-sum e r fits = (ground arith, ground arith, ground arith)

-- `inc_ss` and `dec_ss` undo each other on a register pair of two bytes.
dec_ss-inc_ss :
    (ss : WordRegister) (r : Registers)
    → get16 ss r < 65536
    → (get16 ss (dec_ss ss (inc_ss ss r)) ≡ get16 ss r)
      × (get16 ss (inc_ss ss (dec_ss ss r)) ≡ get16 ss r)
      × ((inc_ss ss r).pc ≡ r.pc)
unfolding inc_ss dec_ss
dec_ss-inc_ss WordRegister.reg_af r fits = ground arith
dec_ss-inc_ss WordRegister.reg_bc r fits = ground arith
dec_ss-inc_ss WordRegister.reg_de r fits = ground arith
dec_ss-inc_ss WordRegister.reg_hl r fits = ground arith
dec_ss-inc_ss WordRegister.reg_sp r fits = ground arith
