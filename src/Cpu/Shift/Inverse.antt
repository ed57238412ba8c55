-- ===== src/Cpu/Shift/Inverse.antt =====
-- src/cpu.c: the operations that undo one another.
use game_bloat.Prelude.{ℕ, ◌+◌, ◌*◌, ◌%◌, ◌/◌, ◌≡◌, arith, Bool, u8}
use game_bloat.Registers.{
  Registers, ByteRegister, get8, set8, IsWidth, get8-lt, get8-set8, set8-IsWidth, f-IsWidth,
}
use game_bloat.Cpu.Flags.{flag_byte, flag_byte-lt}
use game_bloat.Cpu.Alu.{inc_s, dec_s}
use game_bloat.Cpu.Alu.Laws.{inc_s_lem, dec_s_lem}
use game_bloat.Cpu.Shift.{rlc_s, rrc_s, swap_s}
use game_bloat.Cpu.Shift.Laws.{rlc_s_lem, rrc_s_lem, swap_s_lem}

module _ (s : ByteRegister) {r : Registers} (w : IsWidth r) where
  -- The registers after a store of `v` beside new flags.
  stored-IsWidth :
      (z n h c : Bool) (v : ℕ) → IsWidth (set8 s v (record r { f = flag_byte z n h c (r.f % 16) }))
  stored-IsWidth z n h c v =
      set8-IsWidth s v
        (f-IsWidth (flag_byte z n h c (r.f % 16)) w (flag_byte-lt z n h c (r.f % 16) (omega arith)))

  rlc_s-IsWidth : IsWidth (rlc_s s r)
  rlc_s-IsWidth = rw (rlc_s_lem s r w) (stored-IsWidth _ _ _ _ _)

  rrc_s-IsWidth : IsWidth (rrc_s s r)
  rrc_s-IsWidth = rw (rrc_s_lem s r w) (stored-IsWidth _ _ _ _ _)

  swap_s-IsWidth : IsWidth (swap_s s r)
  swap_s-IsWidth = rw (swap_s_lem s r w) (stored-IsWidth _ _ _ _ _)

  inc_s-IsWidth : IsWidth (inc_s s r)
  inc_s-IsWidth = rw (inc_s_lem s r w) (stored-IsWidth _ _ _ _ _)

  rlc_s-byte : get8 s (rlc_s s r) ≡ get8 s r * 2 % 256 + get8 s r / 128
  rlc_s-byte = rw (rlc_s_lem s r w, get8-set8) (omega (arith, get8-lt s w))

  rrc_s-byte : get8 s (rrc_s s r) ≡ get8 s r / 2 + get8 s r % 2 * 128
  rrc_s-byte = rw (rrc_s_lem s r w, get8-set8) (omega (arith, get8-lt s w))

  swap_s-byte : get8 s (swap_s s r) ≡ get8 s r % 16 * 16 + get8 s r / 16
  swap_s-byte = rw (swap_s_lem s r w, get8-set8) (omega (arith, get8-lt s w))

  inc_s-byte : get8 s (inc_s s r) ≡ u8 (get8 s r + 1)
  inc_s-byte = rw (inc_s_lem s r w, get8-set8)

  dec_s-byte : get8 s (dec_s s r) ≡ u8 (get8 s r + 255)
  dec_s-byte = rw (dec_s_lem s r w, get8-set8)

-- On every register and byte, `rrc_s` undoes `rlc_s` and the other way round, `swap_s` undoes
-- itself, and `dec_s` undoes `inc_s`.
rotate_inverse :
    (s : ByteRegister) (r : Registers)
    → IsWidth r
    → (get8 s (rrc_s s (rlc_s s r)) ≡ get8 s r)
      × (get8 s (rlc_s s (rrc_s s r)) ≡ get8 s r)
      × (get8 s (swap_s s (swap_s s r)) ≡ get8 s r)
      × (get8 s (dec_s s (inc_s s r)) ≡ get8 s r)
rotate_inverse s r w = (
  omega (arith, rrc_s-byte s (rlc_s-IsWidth s w), rlc_s-byte s w, get8-lt s w),
  omega (arith, rlc_s-byte s (rrc_s-IsWidth s w), rrc_s-byte s w, get8-lt s w),
  omega (arith, swap_s-byte s (swap_s-IsWidth s w), swap_s-byte s w, get8-lt s w),
  omega (arith, dec_s-byte s (inc_s-IsWidth s w), inc_s-byte s w, get8-lt s w),
)
