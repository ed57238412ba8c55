-- ===== src/Cpu/Wide.antt =====
-- src/cpu.c: the 16-bit arithmetic.
pub mod Laws
use game_bloat.Prelude.{ℕ, ◌+◌, ◌%◌, ◌/◌, ◌^◌, bit_and, bit_or, ltb, truthy, u8, u16, ◌>>>◌}
use game_bloat.Registers.{Registers, WordRegister, get16, set16, hl}
use game_bloat.Cpu.Flags.{
  flag_zero, flag_negative, flag_half_carry, flag_carry, remove_flag, put_flag,
}
use game_bloat.Cpu.Control.{sign_extend}

-- `unsigned int sum`: two 16-bit values do not wrap.
unfoldable pub add_hl_ss : ℕ → Registers → Registers
add_hl_ss ss r =
    let r1 = remove_flag flag_negative r in
    let sum = hl r1 + ss in
    let r2 = put_flag flag_carry (truthy (bit_and sum 0xFFFF0000)) r1 in
    let r3 = put_flag flag_half_carry (ltb 0x0F (bit_and (hl r2) 0x0F + bit_and ss 0x0F)) r2 in
    set16 WordRegister.reg_hl (u16 sum) r3

unfoldable pub add_sp_e : ℕ → Registers → Registers
add_sp_e e r =
    let r1 = remove_flag (bit_or flag_zero flag_negative) r in
    let sum = u16 (r1.sp + sign_extend e) in
    let r2 =
      put_flag flag_carry (ltb 0xFFFF (bit_and r1.sp 0xFFFF + bit_and (sign_extend e) 0xFFFF)) r1 in
    let r3 = put_flag flag_half_carry (ltb 0x0F (bit_and sum 0x0F + bit_and r2.sp 0x0F)) r2 in
    record r3 { sp = sum }

unfoldable pub ld_hl_sp_e : ℕ → Registers → Registers
ld_hl_sp_e e r =
    let value = u16 (r.sp + sign_extend e) in
    let r1 =
      put_flag flag_carry (ltb 0xFFFF (bit_and r.sp 0xFFFF + bit_and (sign_extend e) 0xFFFF)) r in
    let r2 =
      put_flag flag_half_carry (ltb 0x0F (bit_and r1.sp 0x0F + bit_and (sign_extend e) 0x0F)) r1 in
    let r3 = remove_flag (bit_or flag_zero flag_negative) r2 in set16 WordRegister.reg_hl value r3

unfoldable pub inc_ss : WordRegister → Registers → Registers
inc_ss ss r = set16 ss (u16 (get16 ss r + 1)) r

unfoldable pub dec_ss : WordRegister → Registers → Registers
dec_ss ss r = set16 ss (u16 (get16 ss r + 0xFFFF)) r
