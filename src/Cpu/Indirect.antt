-- ===== src/Cpu/Indirect.antt =====
-- src/cpu.c: the operations on the byte at HL, the ones whose names end in `sHL`.
pub mod Laws
use game_bloat.Prelude.{
  ℕ, ◌+◌, ◌*◌, ◌/◌, ◌%◌, ◌^◌, bit_and, bit_or, ◌==◌, truthy, u8, if◌then◌else◌, complement8, ◌<<<◌,
  ◌>>>◌,
}
use game_bloat.Registers.{Registers, hl}
use game_bloat.Cpu.Flags.{
  flag_zero, flag_negative, flag_half_carry, flag_carry, set_flag, remove_flag, check_flag,
  put_flag,
}
use game_bloat.Cpu.Alu.{low_nibble, put_zero}
use game_bloat.Cpu.Shift.{swap_nibbles}
use game_bloat.Machine.{Command, ◌>>=◌, ◌>>◌, pure, on_registers, get_registers}
use game_bloat.Memory.{mmu_read_byte, mmu_write_byte}

-- `value = mmuReadByte(registers.HL)`.
abbrev pub load_hl : Command ℕ
load_hl = do r ← get_registers; mmu_read_byte (hl r)

-- `mmuWriteByte(registers.HL, value)`; a refused write is only logged.
abbrev pub store_hl : ℕ → Command (Unit {0})
store_hl value = do r ← get_registers; mmu_write_byte (hl r) value; pure tt

-- The write and the test of the value for zero that end most of them.
abbrev pub finish : ℕ → Command (Unit {0})
finish value = store_hl value >> on_registers (put_zero value)

abbrev pub negative_half : ℕ
negative_half = bit_or flag_negative flag_half_carry

unfoldable pub inc_shl : Command (Unit {0})
inc_shl = do
  on_registers (remove_flag flag_negative)
  value ← load_hl
  on_registers (put_flag flag_half_carry (bit_and value low_nibble == low_nibble))
  finish (u8 (value + 1))

unfoldable pub dec_shl : Command (Unit {0})
dec_shl = do
  on_registers (set_flag flag_negative)
  value ← load_hl
  on_registers (put_flag flag_half_carry (bit_and value low_nibble == 0))
  finish (u8 (value + 255))

unfoldable pub swap_shl : Command (Unit {0})
swap_shl = do
  on_registers (remove_flag (bit_or flag_negative (bit_or flag_half_carry flag_carry)))
  value ← load_hl
  finish (swap_nibbles value)

unfoldable pub rlc_shl : Command (Unit {0})
rlc_shl = do
  on_registers (remove_flag negative_half)
  value ← load_hl
  on_registers (put_flag flag_carry (truthy (bit_and value 0x80)))
  r ← get_registers
  finish (u8 (u8 (value <<< 1) + check_flag flag_carry r))

unfoldable pub rl_shl : Command (Unit {0})
rl_shl = do
  on_registers (remove_flag negative_half)
  value ← load_hl
  on_registers (put_flag flag_carry (truthy (bit_and value 0x80)))
  finish (u8 (value <<< 1))

unfoldable pub rrc_shl : Command (Unit {0})
rrc_shl = do
  on_registers (remove_flag negative_half)
  value ← load_hl
  on_registers (put_flag flag_carry (truthy (bit_and value 0x01)))
  r ← get_registers
  finish (if truthy (check_flag flag_carry r) then bit_or (value >>> 1) 0x80 else value >>> 1)

unfoldable pub rr_shl : Command (Unit {0})
rr_shl = do
  on_registers (remove_flag negative_half)
  value ← load_hl
  on_registers (put_flag flag_carry (truthy (bit_and value 0x01)))
  finish (value >>> 1)

unfoldable pub sla_shl : Command (Unit {0})
sla_shl = do
  on_registers (remove_flag negative_half)
  value ← load_hl
  on_registers (put_flag flag_carry (truthy (bit_and value 0x80)))
  finish (u8 (value <<< 1))

unfoldable pub sra_shl : Command (Unit {0})
sra_shl = do
  on_registers (remove_flag negative_half)
  value ← load_hl
  on_registers (put_flag flag_carry (truthy (bit_and value 0x01)))
  finish (bit_or (value >>> 1) (bit_and value 0x80))

-- Both branches of the source set the carry.
unfoldable pub srl_shl : Command (Unit {0})
srl_shl = do
  on_registers (remove_flag negative_half)
  value ← load_hl
  on_registers
      λ r. if truthy (bit_and value 0x01) then set_flag flag_carry r else set_flag flag_carry r
  finish (value >>> 1)

unfoldable pub bit_b_shl : ℕ → Command (Unit {0})
bit_b_shl position = do
  on_registers (remove_flag flag_negative)
  on_registers (set_flag flag_half_carry)
  value ← load_hl
  on_registers (put_flag flag_zero (bit_and value (1 <<< position) == 0))

unfoldable pub set_b_shl : ℕ → Command (Unit {0})
set_b_shl position = do value ← load_hl; store_hl (u8 (bit_or value (1 <<< position)))

unfoldable pub res_b_shl : ℕ → Command (Unit {0})
res_b_shl position = do value ← load_hl; store_hl (bit_and value (complement8 (1 <<< position)))
