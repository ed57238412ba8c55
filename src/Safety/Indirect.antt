-- ===== src/Safety/Indirect.antt =====
-- src/cpu.c: the operations on the byte at HL keep the machine's invariant.
use game_bloat.Prelude.{ℕ, ◌/◌, ◌<◌, refl, arith, Bool}
use game_bloat.Registers.{reg_hl, f-IsWidth}
use game_bloat.Machine.{Machine}
use game_bloat.Cpu.Shift.{swap_nibbles}
use game_bloat.Cpu.Indirect.{
  inc_shl, dec_shl, swap_shl, rlc_shl, rl_shl, rrc_shl, rr_shl, sla_shl, sra_shl, srl_shl,
  bit_b_shl, set_b_shl, res_b_shl,
}
use game_bloat.Safety.{IsWell, registers-IsWell}
use game_bloat.Safety.Access.{after_read}
use game_bloat.Safety.Bits.{byte_lt, bit_and-lt, bit_or-lt, u8-lt, literal, if-lt, if-IsWidth}
use game_bloat.Safety.Width.{get16-lt, put_flag-IsWidth}
use game_bloat.Safety.Commands.{Keeps, on_registers-Keeps}
use game_bloat.Safety.Loads.{finish-Keeps, store-Keeps}

half-lt : (v : ℕ) → v < 256 → v / 2 < 256
half-lt v fits = omega arith

swap_nibbles-lt : (v : ℕ) → swap_nibbles v < 256
unfolding swap_nibbles
swap_nibbles-lt v = u8-lt _

module _ {free : Bool} {m : Machine} (well : IsWell free m) where
  pub inc_shl-Keeps : Keeps free inc_shl m
  unfolding inc_shl
  inc_shl-Keeps =
      let first =
        registers-IsWell well (f-IsWidth _ well.width (search (byte_lt, well.width.f_fits))) in
      after_read _ _ first λ value fits.
        let flags = put_flag-IsWidth _ _ (literal _ refl) first.width in
        finish-Keeps (registers-IsWell first flags) _ (u8-lt _)

  pub dec_shl-Keeps : Keeps free dec_shl m
  unfolding dec_shl
  dec_shl-Keeps =
      let first =
        registers-IsWell well (f-IsWidth _ well.width (search (byte_lt, well.width.f_fits))) in
      after_read _ _ first λ value fits.
        let flags = put_flag-IsWidth _ _ (literal _ refl) first.width in
        finish-Keeps (registers-IsWell first flags) _ (u8-lt _)

  pub swap_shl-Keeps : Keeps free swap_shl m
  unfolding swap_shl
  swap_shl-Keeps =
      let first =
        registers-IsWell well (f-IsWidth _ well.width (search (byte_lt, well.width.f_fits))) in
      after_read _ _ first λ value fits. finish-Keeps (first) _ (swap_nibbles-lt value)

  pub rlc_shl-Keeps : Keeps free rlc_shl m
  unfolding rlc_shl
  rlc_shl-Keeps =
      let first =
        registers-IsWell well (f-IsWidth _ well.width (search (byte_lt, well.width.f_fits))) in
      after_read _ _ first λ value fits.
        let flags = put_flag-IsWidth _ _ (literal _ refl) first.width in
        finish-Keeps (registers-IsWell first flags) _ (u8-lt _)

  pub rl_shl-Keeps : Keeps free rl_shl m
  unfolding rl_shl
  rl_shl-Keeps =
      let first =
        registers-IsWell well (f-IsWidth _ well.width (search (byte_lt, well.width.f_fits))) in
      after_read _ _ first λ value fits.
        let flags = put_flag-IsWidth _ _ (literal _ refl) first.width in
        finish-Keeps (registers-IsWell first flags) _ (u8-lt _)

  pub sla_shl-Keeps : Keeps free sla_shl m
  unfolding sla_shl
  sla_shl-Keeps =
      let first =
        registers-IsWell well (f-IsWidth _ well.width (search (byte_lt, well.width.f_fits))) in
      after_read _ _ first λ value fits.
        let flags = put_flag-IsWidth _ _ (literal _ refl) first.width in
        finish-Keeps (registers-IsWell first flags) _ (u8-lt _)

  pub rr_shl-Keeps : Keeps free rr_shl m
  unfolding rr_shl
  rr_shl-Keeps =
      let first =
        registers-IsWell well (f-IsWidth _ well.width (search (byte_lt, well.width.f_fits))) in
      after_read _ _ first λ value fits.
        let flags = put_flag-IsWidth _ _ (literal _ refl) first.width in
        finish-Keeps (registers-IsWell first flags) _ (half-lt value fits)

  pub rrc_shl-Keeps : Keeps free rrc_shl m
  unfolding rrc_shl
  rrc_shl-Keeps =
      let first =
        registers-IsWell well (f-IsWidth _ well.width (search (byte_lt, well.width.f_fits))) in
      after_read _ _ first λ value fits.
        let flags = put_flag-IsWidth _ _ (literal _ refl) first.width in
        let half = half-lt value fits in
        finish-Keeps (registers-IsWell first flags) _
          (if-lt _ (bit_or-lt _ _ half (literal _ refl)) half)

  pub sra_shl-Keeps : Keeps free sra_shl m
  unfolding sra_shl
  sra_shl-Keeps =
      let first =
        registers-IsWell well (f-IsWidth _ well.width (search (byte_lt, well.width.f_fits))) in
      after_read _ _ first λ value fits.
        let flags = put_flag-IsWidth _ _ (literal _ refl) first.width in
        let half = half-lt value fits in
        finish-Keeps (registers-IsWell first flags) _
          (bit_or-lt _ _ half (bit_and-lt _ _ fits (literal _ refl)))

  pub srl_shl-Keeps : Keeps free srl_shl m
  unfolding srl_shl
  srl_shl-Keeps =
      let first =
        registers-IsWell well (f-IsWidth _ well.width (search (byte_lt, well.width.f_fits))) in
      after_read _ _ first λ value fits.
        let carry =
          f-IsWidth _ first.width (bit_or-lt _ 0x10 first.width.f_fits (literal _ refl)) in
        finish-Keeps (registers-IsWell first (if-IsWidth _ carry carry)) _ (half-lt value fits)

  pub bit_b_shl-Keeps : (position : ℕ) → Keeps free (bit_b_shl position) m
  unfolding bit_b_shl
  bit_b_shl-Keeps position =
      let first =
        registers-IsWell well (f-IsWidth _ well.width (search (byte_lt, well.width.f_fits))) in
      after_read _ _ first
        λ value fits. on_registers-Keeps first (put_flag-IsWidth _ _ (literal _ refl) first.width)

  pub set_b_shl-Keeps : (position : ℕ) → Keeps free (set_b_shl position) m
  unfolding set_b_shl
  set_b_shl-Keeps position =
      after_read _ _ well λ value fits. store-Keeps well _ _ (get16-lt reg_hl well.width) (u8-lt _)

  pub res_b_shl-Keeps : (position : ℕ) → Keeps free (res_b_shl position) m
  unfolding res_b_shl
  res_b_shl-Keeps position = after_read _ _ well λ value fits.
      store-Keeps well _ _ (get16-lt reg_hl well.width) (bit_and-lt _ _ fits (omega arith))
