-- ===== src/Cpu/Shift.antt =====
-- src/cpu.c: rotates, shifts, nibble swap and bit operations on a register.
pub mod Laws
pub mod Inverse
pub mod Bits
use game_bloat.Prelude.{
  ℕ, ◌+◌, ◌*◌, ◌/◌, ◌%◌, ◌^◌, bit_and, bit_or, ◌==◌, truthy, u8, if◌then◌else◌, complement8, ◌<<<◌,
  ◌>>>◌,
}
use game_bloat.Registers.{Registers, ByteRegister, get8, set8}
use game_bloat.Cpu.Flags.{
  flag_zero, flag_negative, flag_half_carry, flag_carry, set_flag, remove_flag, check_flag,
  put_flag,
}
use game_bloat.Cpu.Alu.{put_zero}

abbrev zero_negative_half : ℕ
zero_negative_half = bit_or flag_zero (bit_or flag_negative flag_half_carry)

abbrev negative_half : ℕ
negative_half = bit_or flag_negative flag_half_carry

unfoldable pub rlc_a : Registers → Registers
rlc_a r =
    let r1 = remove_flag zero_negative_half r in
    let r2 = put_flag flag_carry (truthy (bit_and r1.a 0x80)) r1 in
    let r3 = record r2 { a = u8 (r2.a <<< 1) } in
    record r3 { a = u8 (r3.a + check_flag flag_carry r3) }

unfoldable pub rl_a : Registers → Registers
rl_a r =
    let r1 = remove_flag zero_negative_half r in
    let r2 = put_flag flag_carry (truthy (bit_and r1.a 0x80)) r1 in
    record r2 { a = u8 (r2.a <<< 1) }

unfoldable pub rrc_a : Registers → Registers
rrc_a r =
    let r1 = remove_flag zero_negative_half r in
    let r2 = put_flag flag_carry (truthy (bit_and r1.a 0x01)) r1 in
    let r3 = record r2 { a = r2.a >>> 1 } in
    record r3 { a = if truthy (check_flag flag_carry r3) then bit_or r3.a 0x80 else r3.a }

unfoldable pub rr_a : Registers → Registers
rr_a r =
    let r1 = remove_flag zero_negative_half r in
    let r2 = put_flag flag_carry (truthy (bit_and r1.a 0x01)) r1 in record r2 { a = r2.a >>> 1 }

unfoldable pub rlc_s : ByteRegister → Registers → Registers
rlc_s s r =
    let r1 = remove_flag negative_half r in
    let r2 = put_flag flag_carry (truthy (bit_and (get8 s r1) 0x80)) r1 in
    let r3 = set8 s (get8 s r2 <<< 1) r2 in
    let r4 = set8 s (get8 s r3 + check_flag flag_carry r3) r3 in put_zero (get8 s r4) r4

unfoldable pub rl_s : ByteRegister → Registers → Registers
rl_s s r =
    let r1 = remove_flag negative_half r in
    let r2 = put_flag flag_carry (truthy (bit_and (get8 s r1) 0x80)) r1 in
    let r3 = set8 s (get8 s r2 <<< 1) r2 in put_zero (get8 s r3) r3

unfoldable pub rrc_s : ByteRegister → Registers → Registers
rrc_s s r =
    let r1 = remove_flag negative_half r in
    let r2 = put_flag flag_carry (truthy (bit_and (get8 s r1) 0x01)) r1 in
    let r3 = set8 s (get8 s r2 >>> 1) r2 in
    let r4 =
      set8 s (if truthy (check_flag flag_carry r3) then bit_or (get8 s r3) 0x80 else get8 s r3)
        r3 in
    put_zero (get8 s r4) r4

unfoldable pub rr_s : ByteRegister → Registers → Registers
rr_s s r =
    let r1 = remove_flag negative_half r in
    let r2 = put_flag flag_carry (truthy (bit_and (get8 s r1) 0x01)) r1 in
    let r3 = set8 s (get8 s r2 >>> 1) r2 in put_zero (get8 s r3) r3

unfoldable pub sla_s : ByteRegister → Registers → Registers
sla_s s r =
    let r1 = remove_flag negative_half r in
    let r2 = put_flag flag_carry (truthy (bit_and (get8 s r1) 0x80)) r1 in
    let r3 = set8 s (get8 s r2 <<< 1) r2 in put_zero (get8 s r3) r3

unfoldable pub sra_s : ByteRegister → Registers → Registers
sra_s s r =
    let r1 = remove_flag negative_half r in
    let r2 = put_flag flag_carry (truthy (bit_and (get8 s r1) 0x01)) r1 in
    let r3 = set8 s (bit_or (get8 s r2 >>> 1) (bit_and (get8 s r2) 0x80)) r2 in
    put_zero (get8 s r3) r3

unfoldable pub srl_s : ByteRegister → Registers → Registers
srl_s s r =
    let r1 = remove_flag negative_half r in
    let r2 =
      if truthy (bit_and (get8 s r1) 0x01)
      then set_flag flag_carry r1
      else set_flag flag_carry r1 in
    let r3 = set8 s (get8 s r2 >>> 1) r2 in put_zero (get8 s r3) r3

-- The nibbles of a byte, exchanged.
unfoldable pub swap_nibbles : ℕ → ℕ
swap_nibbles v = u8 (bit_or (bit_and v 0xF0 >>> 4) (bit_and v 0x0F <<< 4))

unfoldable pub swap_s : ByteRegister → Registers → Registers
swap_s s r =
    let r1 = remove_flag (bit_or flag_negative (bit_or flag_half_carry flag_carry)) r in
    let r2 = set8 s (swap_nibbles (get8 s r1)) r1 in put_zero (get8 s r2) r2

unfoldable pub bit_b_s : ℕ → ByteRegister → Registers → Registers
bit_b_s position s r =
    let r1 = remove_flag flag_negative r in
    let r2 = set_flag flag_half_carry r1 in
    put_flag flag_zero (bit_and (get8 s r2) (1 <<< position) == 0) r2

unfoldable pub set_b_s : ℕ → ByteRegister → Registers → Registers
set_b_s position s r = set8 s (bit_or (get8 s r) (1 <<< position)) r

unfoldable pub res_b_s : ℕ → ByteRegister → Registers → Registers
res_b_s position s r = set8 s (bit_and (get8 s r) (complement8 (1 <<< position))) r
