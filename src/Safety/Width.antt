-- ===== src/Safety/Width.antt =====
-- src/cpu.c: the operations on registers alone keep the width of every register.
use game_bloat.Prelude.{ℕ, ◌/◌, ◌<◌, refl, arith, Bool}
use game_bloat.Registers.{
  Registers, IsWidth, ByteRegister, WordRegister, get16, set16, reg_af, reg_bc, reg_de, reg_hl,
  reg_sp, set8-IsWidth, f-IsWidth,
}
use game_bloat.Cpu.Flags.{put_flag}
use game_bloat.Cpu.Alu.{
  add_s, adc_s, sub_s, sbc_s, and_s, or_s, xor_s, cmp_s, inc_s, dec_s, daa, cpl, ccf, scf, put_zero,
}
use game_bloat.Cpu.Alu.Decimal.{daa_adjust-lt}
use game_bloat.Cpu.Wide.{add_hl_ss, add_sp_e, ld_hl_sp_e, inc_ss, dec_ss}
use game_bloat.Cpu.Shift.{
  rlc_a, rl_a, rrc_a, rr_a, rlc_s, rl_s, rrc_s, rr_s, sla_s, sra_s, srl_s, swap_s, bit_b_s, set_b_s,
  res_b_s,
}
use game_bloat.Safety.Bits.{
  bit_or-lt, bit_and-lt, bit_xor-lt, put_bits-lt, u8-lt, literal, if-lt, if-IsWidth, a-IsWidth,
  byte_lt,
}

module _ {r : Registers} (w : IsWidth r) where
  pub add_s-IsWidth : (s : ℕ) → IsWidth (add_s s r)
  unfolding add_s
  add_s-IsWidth s = a-IsWidth _ _ w (u8-lt _) (search (byte_lt, w.f_fits))

  pub adc_s-IsWidth : (s : ℕ) → IsWidth (adc_s s r)
  unfolding adc_s
  adc_s-IsWidth s = a-IsWidth _ _ w (u8-lt _) (search (byte_lt, w.f_fits))

  pub sub_s-IsWidth : (s : ℕ) → IsWidth (sub_s s r)
  unfolding sub_s
  sub_s-IsWidth s = a-IsWidth _ _ w (u8-lt _) (search (byte_lt, w.f_fits))

  pub sbc_s-IsWidth : (s : ℕ) → IsWidth (sbc_s s r)
  unfolding sbc_s
  sbc_s-IsWidth s = a-IsWidth _ _ w (u8-lt _) (search (byte_lt, w.f_fits))

  pub and_s-IsWidth : (s : ℕ) → s < 256 → IsWidth (and_s s r)
  unfolding and_s
  and_s-IsWidth s fits = a-IsWidth _ _ w (bit_and-lt _ _ w.a_fits fits) (search (byte_lt, w.f_fits))

  pub or_s-IsWidth : (s : ℕ) → s < 256 → IsWidth (or_s s r)
  unfolding or_s
  or_s-IsWidth s fits = a-IsWidth _ _ w (bit_or-lt _ _ w.a_fits fits) (search (byte_lt, w.f_fits))

  pub xor_s-IsWidth : (s : ℕ) → s < 256 → IsWidth (xor_s s r)
  unfolding xor_s
  xor_s-IsWidth s fits = a-IsWidth _ _ w (bit_xor-lt _ _ w.a_fits fits) (search (byte_lt, w.f_fits))

  pub cmp_s-IsWidth : (s : ℕ) → IsWidth (cmp_s s r)
  unfolding cmp_s
  cmp_s-IsWidth s = a-IsWidth _ _ w w.a_fits (search (byte_lt, w.f_fits))

  pub cpl-IsWidth : IsWidth (cpl r)
  unfolding cpl
  cpl-IsWidth = a-IsWidth _ _ w (omega arith) (search (byte_lt, w.f_fits))

  pub scf-IsWidth : IsWidth (scf r)
  unfolding scf
  scf-IsWidth = a-IsWidth _ _ w w.a_fits (search (byte_lt, w.f_fits))

  pub rlc_a-IsWidth : IsWidth (rlc_a r)
  unfolding rlc_a
  rlc_a-IsWidth = a-IsWidth _ _ w (u8-lt _) (search (byte_lt, w.f_fits))

  pub rl_a-IsWidth : IsWidth (rl_a r)
  unfolding rl_a
  rl_a-IsWidth = a-IsWidth _ _ w (u8-lt _) (search (byte_lt, w.f_fits))

  pub rr_a-IsWidth : IsWidth (rr_a r)
  unfolding rr_a
  rr_a-IsWidth = let a = w.a_fits in a-IsWidth _ _ w (omega arith) (search (byte_lt, w.f_fits))

  pub ccf-IsWidth : IsWidth (ccf r)
  unfolding ccf
  ccf-IsWidth =
      let chosen =
        if-IsWidth _ (f-IsWidth _ w (search (byte_lt, w.f_fits)))
          (f-IsWidth _ w (search (byte_lt, w.f_fits))) in
      f-IsWidth _ chosen (bit_and-lt _ _ chosen.f_fits (literal _ refl))

  pub rrc_a-IsWidth : IsWidth (rrc_a r)
  unfolding rrc_a
  rrc_a-IsWidth =
      let a = w.a_fits in
      let half : r.a / 2 < 256 = omega arith in
      a-IsWidth _ _ w (if-lt _ (bit_or-lt _ _ half (literal _ refl)) half)
        (search (byte_lt, w.f_fits))

  pub daa-IsWidth : IsWidth (daa r)
  unfolding daa
  daa-IsWidth = a-IsWidth _ _ w (daa_adjust-lt r w.a_fits) (search (byte_lt, w.f_fits))

  pub bit_b_s-IsWidth : (position : ℕ) (s : ByteRegister) → IsWidth (bit_b_s position s r)
  unfolding bit_b_s
  bit_b_s-IsWidth position s = a-IsWidth _ _ w w.a_fits (search (byte_lt, w.f_fits))

  pub set_b_s-IsWidth : (position : ℕ) (s : ByteRegister) → IsWidth (set_b_s position s r)
  unfolding set_b_s
  set_b_s-IsWidth position s = set8-IsWidth s _ w

  pub res_b_s-IsWidth : (position : ℕ) (s : ByteRegister) → IsWidth (res_b_s position s r)
  unfolding res_b_s
  res_b_s-IsWidth position s = set8-IsWidth s _ w

pub put_zero-IsWidth : (v : ℕ) {r : Registers} → IsWidth r → IsWidth (put_zero v r)
put_zero-IsWidth v w = f-IsWidth _ w (search (byte_lt, w.f_fits))

pub put_flag-IsWidth :
    (flag : ℕ) (test : Bool) {r : Registers}
    → flag < 256
    → IsWidth r
    → IsWidth (put_flag flag test r)
put_flag-IsWidth flag test small w = f-IsWidth _ w (put_bits-lt flag test _ small w.f_fits)

module _ (s : ByteRegister) {r : Registers} (w : IsWidth r) where
  pub inc_s-IsWidth : IsWidth (inc_s s r)
  unfolding inc_s
  inc_s-IsWidth = put_zero-IsWidth _ (
      set8-IsWidth s _
        (put_flag-IsWidth 0x20 _ (literal _ refl) (f-IsWidth _ w (search (byte_lt, w.f_fits)))))

  pub rlc_s-IsWidth : IsWidth (rlc_s s r)
  unfolding rlc_s
  rlc_s-IsWidth =
      put_zero-IsWidth _
        (set8-IsWidth s _ (set8-IsWidth s _ (f-IsWidth _ w (search (byte_lt, w.f_fits)))))

  pub rl_s-IsWidth : IsWidth (rl_s s r)
  unfolding rl_s
  rl_s-IsWidth = put_zero-IsWidth _ (set8-IsWidth s _ (f-IsWidth _ w (search (byte_lt, w.f_fits))))

  pub rr_s-IsWidth : IsWidth (rr_s s r)
  unfolding rr_s
  rr_s-IsWidth = put_zero-IsWidth _ (set8-IsWidth s _ (f-IsWidth _ w (search (byte_lt, w.f_fits))))

  pub sla_s-IsWidth : IsWidth (sla_s s r)
  unfolding sla_s
  sla_s-IsWidth = put_zero-IsWidth _ (set8-IsWidth s _ (f-IsWidth _ w (search (byte_lt, w.f_fits))))

  pub sra_s-IsWidth : IsWidth (sra_s s r)
  unfolding sra_s
  sra_s-IsWidth = put_zero-IsWidth _ (set8-IsWidth s _ (f-IsWidth _ w (search (byte_lt, w.f_fits))))

  pub swap_s-IsWidth : IsWidth (swap_s s r)
  unfolding swap_s
  swap_s-IsWidth =
      put_zero-IsWidth _ (set8-IsWidth s _ (f-IsWidth _ w (search (byte_lt, w.f_fits))))

  pub rrc_s-IsWidth : IsWidth (rrc_s s r)
  unfolding rrc_s
  rrc_s-IsWidth =
      put_zero-IsWidth _
        (set8-IsWidth s _ (set8-IsWidth s _ (f-IsWidth _ w (search (byte_lt, w.f_fits)))))

  pub dec_s-IsWidth : IsWidth (dec_s s r)
  unfolding dec_s
  dec_s-IsWidth = put_zero-IsWidth _ (
      set8-IsWidth s _
        (put_flag-IsWidth 0x20 _ (literal _ refl) (f-IsWidth _ w (search (byte_lt, w.f_fits)))))

  pub srl_s-IsWidth : IsWidth (srl_s s r)
  unfolding srl_s
  srl_s-IsWidth = put_zero-IsWidth _ (
      set8-IsWidth s _ (
        if-IsWidth _ (f-IsWidth _ w (search (byte_lt, w.f_fits)))
          (f-IsWidth _ w (search (byte_lt, w.f_fits)))))

pub get16-lt : (p : WordRegister) {r : Registers} → IsWidth r → get16 p r < 65536
get16-lt reg_af w = omega arith
get16-lt reg_bc w = omega arith
get16-lt reg_de w = omega arith
get16-lt reg_hl w = omega arith
get16-lt reg_sp w = omega arith

pub set16-IsWidth : (p : WordRegister) (v : ℕ) {r : Registers} → IsWidth r → IsWidth (set16 p v r)
set16-IsWidth reg_af v w = omega arith
set16-IsWidth reg_bc v w = omega arith
set16-IsWidth reg_de v w = omega arith
set16-IsWidth reg_hl v w = omega arith
set16-IsWidth reg_sp v w = omega arith

pub pc-IsWidth : (v : ℕ) {r : Registers} → v < 65536 → IsWidth r → IsWidth (record r { pc = v })
pc-IsWidth v fits w = omega arith

pub sp-IsWidth : (v : ℕ) {r : Registers} → v < 65536 → IsWidth r → IsWidth (record r { sp = v })
sp-IsWidth v fits w = omega arith

pub acc-IsWidth : (v : ℕ) {r : Registers} → v < 256 → IsWidth r → IsWidth (record r { a = v })
acc-IsWidth v fits w = omega arith

module _ {r : Registers} (w : IsWidth r) where
  pub add_hl_ss-IsWidth : (ss : ℕ) → IsWidth (add_hl_ss ss r)
  unfolding add_hl_ss
  add_hl_ss-IsWidth ss = set16-IsWidth reg_hl _ (f-IsWidth _ w (search (byte_lt, w.f_fits)))

  pub add_sp_e-IsWidth : (e : ℕ) → IsWidth (add_sp_e e r)
  unfolding add_sp_e
  add_sp_e-IsWidth e = sp-IsWidth _ (omega arith) (f-IsWidth _ w (search (byte_lt, w.f_fits)))

  pub ld_hl_sp_e-IsWidth : (e : ℕ) → IsWidth (ld_hl_sp_e e r)
  unfolding ld_hl_sp_e
  ld_hl_sp_e-IsWidth e = set16-IsWidth reg_hl _ (f-IsWidth _ w (search (byte_lt, w.f_fits)))

  pub inc_ss-IsWidth : (p : WordRegister) → IsWidth (inc_ss p r)
  unfolding inc_ss
  inc_ss-IsWidth p = set16-IsWidth p _ w

  pub dec_ss-IsWidth : (p : WordRegister) → IsWidth (dec_ss p r)
  unfolding dec_ss
  dec_ss-IsWidth p = set16-IsWidth p _ w
