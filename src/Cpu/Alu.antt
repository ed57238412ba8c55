-- ===== src/Cpu/Alu.antt =====
-- src/cpu.c: the 8-bit arithmetic and logic on A, and on a register by its address.
pub mod Laws
pub mod Adc
pub mod Decimal
use game_bloat.Prelude.{
  ℕ, ◌+◌, ◌-◌, ◌%◌, ◌^◌, Bool, bit_and, bit_or, bit_xor, ltb, ◌==◌, ◌||◌, truthy, u8, if◌then◌else◌,
  complement8,
}
use game_bloat.Registers.{Registers, ByteRegister, get8, set8}
use game_bloat.Cpu.Flags.{
  flag_zero, flag_negative, flag_half_carry, flag_carry, set_flag, remove_flag, check_flag,
  put_flag,
}

abbrev pub low_nibble : ℕ
low_nibble = 0x0F

-- The end of most operations: `if (v) removeFlag(flagZero); else setFlag(flagZero);`.
abbrev pub put_zero : ℕ → Registers → Registers
put_zero v r = put_flag flag_zero (v == 0) r

unfoldable pub add_s : ℕ → Registers → Registers
add_s s r =
    let sum = r.a + s in
    let r1 = remove_flag flag_negative r in
    let r2 = put_flag flag_carry (truthy (bit_and sum 0xFF00)) r1 in
    let r3 =
      put_flag flag_half_carry (ltb low_nibble (bit_and r2.a low_nibble + bit_and s low_nibble))
        r2 in
    let r4 = record r3 { a = u8 (bit_and sum 0x00FF) } in put_zero r4.a r4

unfoldable pub adc_s : ℕ → Registers → Registers
adc_s s0 r =
    let s = u8 (s0 + check_flag flag_carry r) in
    let sum = r.a + s in
    let r1 = remove_flag flag_negative r in
    let r2 = put_flag flag_carry (truthy (bit_and sum 0xFF00)) r1 in
    let r3 =
      put_flag flag_half_carry (ltb low_nibble (bit_and r2.a low_nibble + bit_and s low_nibble))
        r2 in
    let r4 = record r3 { a = u8 (bit_and sum 0x00FF) } in put_zero r4.a r4

unfoldable pub sub_s : ℕ → Registers → Registers
sub_s s r =
    let r1 = set_flag flag_negative r in
    let r2 = put_flag flag_carry (ltb r1.a s) r1 in
    let r3 = put_flag flag_half_carry (ltb (bit_and r2.a low_nibble) (bit_and s low_nibble)) r2 in
    let r4 = record r3 { a = u8 (r3.a + 256 - s) } in put_zero r4.a r4

unfoldable pub sbc_s : ℕ → Registers → Registers
sbc_s s0 r =
    let r1 = set_flag flag_negative r in
    let s = u8 (s0 + check_flag flag_carry r1) in
    let r2 = put_flag flag_carry (ltb r1.a s) r1 in
    let r3 = put_flag flag_half_carry (ltb (bit_and r2.a low_nibble) (bit_and s low_nibble)) r2 in
    let r4 = record r3 { a = u8 (r3.a + 256 - s) } in put_zero r4.a r4

unfoldable pub and_s : ℕ → Registers → Registers
and_s s r =
    let r1 = remove_flag (bit_or flag_negative flag_carry) r in
    let r2 = set_flag flag_half_carry r1 in
    let r3 = record r2 { a = bit_and r2.a s } in put_zero r3.a r3

unfoldable pub or_s : ℕ → Registers → Registers
or_s s r =
    let r1 = remove_flag (bit_or flag_negative (bit_or flag_half_carry flag_carry)) r in
    let r2 = record r1 { a = bit_or r1.a s } in put_zero r2.a r2

unfoldable pub xor_s : ℕ → Registers → Registers
xor_s s r =
    let r1 = remove_flag (bit_or flag_negative (bit_or flag_half_carry flag_carry)) r in
    let r2 = record r1 { a = bit_xor r1.a s } in put_zero r2.a r2

unfoldable pub cmp_s : ℕ → Registers → Registers
cmp_s s r =
    let r1 = set_flag flag_negative r in
    let r2 = put_flag flag_carry (ltb r1.a s) r1 in
    let r3 = put_flag flag_half_carry (ltb (bit_and r2.a low_nibble) (bit_and s low_nibble)) r2 in
    put_flag flag_zero (r3.a == s) r3

unfoldable pub inc_s : ByteRegister → Registers → Registers
inc_s s r =
    let r1 = remove_flag flag_negative r in
    let r2 = put_flag flag_half_carry (bit_and (get8 s r1) low_nibble == low_nibble) r1 in
    let r3 = set8 s (get8 s r2 + 1) r2 in put_zero (get8 s r3) r3

unfoldable pub dec_s : ByteRegister → Registers → Registers
dec_s s r =
    let r1 = set_flag flag_negative r in
    let r2 = put_flag flag_half_carry (bit_and (get8 s r1) low_nibble == 0) r1 in
    let r3 = set8 s (get8 s r2 + 255) r2 in put_zero (get8 s r3) r3

-- The two branches of `daa` on the flag N.
unfoldable pub daa_adjust : Registers → ℕ
daa_adjust r =
    if truthy (check_flag flag_negative r)
    then (let a1 =
          if truthy (check_flag flag_half_carry r) then bit_and (r.a + 256 - 0x06) 0xFF else r.a in
        if truthy (check_flag flag_carry r) then u8 (a1 + 256 - u8 (a1 + 256 - 0x60)) else a1)
    else (let a1 =
          if truthy (check_flag flag_half_carry r) || ltb 9 (bit_and r.a low_nibble)
          then u8 (r.a + 0x06)
          else r.a in
        if truthy (check_flag flag_carry r) || ltb 0x9F a1 then u8 (a1 + 0x60) else a1)

unfoldable pub daa : Registers → Registers
daa r =
    let r1 = record r { a = daa_adjust r } in
    let r2 = put_flag flag_carry (bit_and r1.a 0x0100 == 0x100) r1 in
    let r3 = put_zero r2.a r2 in remove_flag flag_half_carry r3

unfoldable pub cpl : Registers → Registers
cpl r =
    let r1 = set_flag (bit_or flag_negative flag_half_carry) r in record r1 { a = complement8 r1.a }

unfoldable pub ccf : Registers → Registers
ccf r =
    let r1 =
      if truthy (check_flag flag_carry r)
      then remove_flag flag_carry r
      else set_flag flag_carry r in
    remove_flag (bit_or flag_negative flag_half_carry) r1

unfoldable pub scf : Registers → Registers
scf r = remove_flag (bit_or flag_negative flag_half_carry) (set_flag flag_carry r)
