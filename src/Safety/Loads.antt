-- ===== src/Safety/Loads.antt =====
-- src/cpu.c: the loads, and the operations on the byte at HL, keep the machine's invariant.
use game_bloat.Prelude.{ℕ, ◌<◌, arith, Bool}
use game_bloat.Registers.{reg_hl}
use game_bloat.Machine.{Machine}
use game_bloat.Cpu.Load.{
  ld_d_r, ld_d_n, ld_a_ss, ld_dd_a, ldd_a_mhl, ldd_mhl_a, ldi_a_mhl, ldi_mhl_a, ldh_n_a, ldh_a_n,
  ld_a_c, ld_nn_sp, ld_sp_hl, store,
}
use game_bloat.Cpu.Indirect.{finish}
use game_bloat.Safety.{IsWell, returned, after}
use game_bloat.Safety.Access.{after_read}
use game_bloat.Safety.Write.{mmu_write_byte-Outcome, mmu_write_short-Outcome}
use game_bloat.Safety.Width.{acc-IsWidth, sp-IsWidth, set16-IsWidth, get16-lt, put_zero-IsWidth}
use game_bloat.Safety.Commands.{Keeps, on_registers-Keeps}

module _ {free : Bool} {m : Machine} (well : IsWell free m) where
  pub store-Keeps :
      (address value : ℕ) → address < 65536 → value < 256 → Keeps free (store address value) m
  store-Keeps address value low fits =
      after (mmu_write_byte-Outcome address value low fits well) λ _ _ _ well'. returned tt well'

  pub ld_d_r-Keeps : (v : ℕ) → v < 256 → Keeps free (ld_d_r v) m
  unfolding ld_d_r
  ld_d_r-Keeps v fits = store-Keeps _ v (get16-lt reg_hl well.width) fits

  pub ld_d_n-Keeps : (v : ℕ) → v < 256 → Keeps free (ld_d_n v) m
  unfolding ld_d_n
  ld_d_n-Keeps v fits = store-Keeps _ v (get16-lt reg_hl well.width) fits

  pub ld_a_ss-Keeps : (address : ℕ) → Keeps free (ld_a_ss address) m
  unfolding ld_a_ss
  ld_a_ss-Keeps address =
      after_read address _ well λ v fits. on_registers-Keeps well (acc-IsWidth v fits well.width)

  pub ld_dd_a-Keeps : (address : ℕ) → address < 65536 → Keeps free (ld_dd_a address) m
  unfolding ld_dd_a
  ld_dd_a-Keeps address low = store-Keeps address _ low well.width.a_fits

  pub ldd_a_mhl-Keeps : Keeps free ldd_a_mhl m
  unfolding ldd_a_mhl
  ldd_a_mhl-Keeps =
      after_read _ _ well
        λ v fits. on_registers-Keeps well (set16-IsWidth reg_hl _ (acc-IsWidth v fits well.width))

  pub ldi_a_mhl-Keeps : Keeps free ldi_a_mhl m
  unfolding ldi_a_mhl
  ldi_a_mhl-Keeps =
      after_read _ _ well
        λ v fits. on_registers-Keeps well (set16-IsWidth reg_hl _ (acc-IsWidth v fits well.width))

  pub ldd_mhl_a-Keeps : Keeps free ldd_mhl_a m
  unfolding ldd_mhl_a
  ldd_mhl_a-Keeps =
      after (store-Keeps _ _ (get16-lt reg_hl well.width) well.width.a_fits)
        λ _ m' _ well'. on_registers-Keeps well' (set16-IsWidth reg_hl _ well'.width)

  pub ldi_mhl_a-Keeps : Keeps free ldi_mhl_a m
  unfolding ldi_mhl_a
  ldi_mhl_a-Keeps =
      after (store-Keeps _ _ (get16-lt reg_hl well.width) well.width.a_fits)
        λ _ m' _ well'. on_registers-Keeps well' (set16-IsWidth reg_hl _ well'.width)

  pub ldh_n_a-Keeps : (n : ℕ) → n < 256 → Keeps free (ldh_n_a n) m
  unfolding ldh_n_a
  ldh_n_a-Keeps n fits = store-Keeps _ _ (omega arith) well.width.a_fits

  pub ldh_a_n-Keeps : (n : ℕ) → Keeps free (ldh_a_n n) m
  unfolding ldh_a_n
  ldh_a_n-Keeps n =
      after_read _ _ well λ v fits. on_registers-Keeps well (acc-IsWidth v fits well.width)

  pub ld_a_c-Keeps : Keeps free ld_a_c m
  unfolding ld_a_c
  ld_a_c-Keeps =
      after_read _ _ well λ v fits. on_registers-Keeps well (acc-IsWidth v fits well.width)

  pub ld_nn_sp-Keeps : (nn : ℕ) → nn < 65536 → Keeps free (ld_nn_sp nn) m
  unfolding ld_nn_sp
  ld_nn_sp-Keeps nn low =
      after (mmu_write_short-Outcome nn _ low well.width.sp_fits well)
        λ _ m' _ well'. returned tt well'

  pub ld_sp_hl-Keeps : Keeps free ld_sp_hl m
  unfolding ld_sp_hl
  ld_sp_hl-Keeps = on_registers-Keeps well (sp-IsWidth _ (get16-lt reg_hl well.width) well.width)

  pub finish-Keeps : (v : ℕ) → v < 256 → Keeps free (finish v) m
  finish-Keeps v fits =
      after (store-Keeps _ v (get16-lt reg_hl well.width) fits)
        λ _ m' _ well'. on_registers-Keeps well' (put_zero-IsWidth v well'.width)
