-- ===== src/Safety/Commands.antt =====
-- src/cpu.c: the commands that touch memory keep the machine's invariant.
use game_bloat.Prelude.{
  ℕ, ◌+◌, ◌*◌, ◌%◌, ◌^◌, ◌<◌, ◌≡◌, arith, Option, none, some, Bool, true, false, bit_and, bit_or,
  u16, if◌then◌else◌, ◌<<<◌, ◌∙◌,
}
use game_bloat.Prelude.Bytes.{bit_and-low_byte, bit_and-high_byte_word}
use game_bloat.Registers.{Registers, IsWidth, WordRegister, reg_hl}
use game_bloat.Machine.{Machine, Command}
use game_bloat.Interrupt.{InterruptRegisters}
use game_bloat.Memory.Map.{bit_or-bytes}
use game_bloat.Cpu.Control.{
  jp_nn, jp_hl, jp_cc_nn, jr_e, jr_cc_e, call_nn, call_cc_nn, rst_f, ret, ret_cc, di, ei, reti,
  halt, stop, push_ss, pop_dd, add_ticks,
}
use game_bloat.Safety.{IsWell, Outcome, returned, after, registers-IsWell}
use game_bloat.Safety.Access.{after_read}
use game_bloat.Safety.Write.{mmu_write_byte-Outcome}
use game_bloat.Safety.Width.{get16-lt, pc-IsWidth, sp-IsWidth, set16-IsWidth}

-- A command that keeps the invariant.
abbrev pub Keeps : Bool → Command (Unit {0}) → Machine → Type 0
Keeps free c m = Outcome free (λ _. Unit {0}) (c m)

pub if-Outcome :
    {free : Bool} {A : Type 0} {P : A → Type 0} (b : Bool) {x y : Option (A × Machine)}
    → Outcome free P x
    → Outcome free P y
    → Outcome free P (if b then x else y)
if-Outcome true first second = first
if-Outcome false first second = second

module _ {free : Bool} {m : Machine} (well : IsWell free m) where
  pub on_registers-Keeps :
      {r : Registers}
      → IsWidth r
      → Outcome free (λ _. Unit {0}) (some (tt, record m { registers = r }))
  on_registers-Keeps w = returned tt (registers-IsWell well w)

  pub ticks-IsWell :
      (n : ℕ) → IsWell free (record m { tick_counter = (m.tick_counter + n) % 2 ^ 64 })
  ticks-IsWell n = record {
    width = well.width;
    work_ram_bytes = well.work_ram_bytes;
    oam_bytes = well.oam_bytes;
    high_ram_bytes = well.high_ram_bytes;
    request_fits = well.request_fits;
    enable_fits = well.enable_fits;
    gpu_valid = well.gpu_valid;
    gpu_bytes = well.gpu_bytes;
    ticks_fit = omega arith;
    room = well.room;
    dump = well.dump;
  }

  pub stop-Keeps : Keeps free stop m
  unfolding stop
  stop-Keeps = returned tt (record {
    width = well.width;
    work_ram_bytes = well.work_ram_bytes;
    oam_bytes = well.oam_bytes;
    high_ram_bytes = well.high_ram_bytes;
    request_fits = well.request_fits;
    enable_fits = well.enable_fits;
    gpu_valid = well.gpu_valid;
    gpu_bytes = well.gpu_bytes;
    ticks_fit = well.ticks_fit;
    room = well.room;
    dump = well.dump;
  })

  pub interrupts-IsWell :
      (i : InterruptRegisters)
      → i.request < 8
      → i.enable < 8
      → IsWell free (record m { interrupts = i })
  interrupts-IsWell i request enable = record {
    width = well.width;
    work_ram_bytes = well.work_ram_bytes;
    oam_bytes = well.oam_bytes;
    high_ram_bytes = well.high_ram_bytes;
    request_fits = request;
    enable_fits = enable;
    gpu_valid = well.gpu_valid;
    gpu_bytes = well.gpu_bytes;
    ticks_fit = well.ticks_fit;
    room = well.room;
    dump = well.dump;
  }

module _ {free : Bool} {m : Machine} (well : IsWell free m) where
  pub jp_nn-Keeps : (nn : ℕ) → nn < 65536 → Keeps free (jp_nn nn) m
  unfolding jp_nn
  jp_nn-Keeps nn fits = on_registers-Keeps well (pc-IsWidth nn fits well.width)

  pub jp_hl-Keeps : Keeps free jp_hl m
  unfolding jp_hl
  jp_hl-Keeps = on_registers-Keeps well (pc-IsWidth _ (get16-lt reg_hl well.width) well.width)

  pub jr_e-Keeps : (e : ℕ) → Keeps free (jr_e e) m
  unfolding jr_e
  jr_e-Keeps e = on_registers-Keeps well (pc-IsWidth _ (omega arith) well.width)

  pub rst_f-Keeps : (f : ℕ) → f < 65536 → Keeps free (rst_f f) m
  unfolding rst_f
  rst_f-Keeps f fits =
      let target = bit_and-low_byte f fits in
      let pc = well.width.pc_fits in
      let high = bit_and-high_byte_word m.registers.pc pc in
      let low = bit_and-low_byte m.registers.pc pc in
      after (mmu_write_byte-Outcome _ _ (omega arith) (omega arith) well) λ _ m1 _ well1.
        after (mmu_write_byte-Outcome _ _ (omega arith) (omega arith) well1) λ _ m2 _ well2.
          on_registers-Keeps well2
            (sp-IsWidth _ (omega arith) (pc-IsWidth _ (omega arith) well2.width))

  pub call_nn-Keeps : (nn : ℕ) → nn < 65536 → Keeps free (call_nn nn) m
  unfolding call_nn
  call_nn-Keeps nn fits =
      let pc = well.width.pc_fits in
      let high = bit_and-high_byte_word m.registers.pc pc in
      let low = bit_and-low_byte m.registers.pc pc in
      after (mmu_write_byte-Outcome _ _ (omega arith) (omega arith) well) λ _ m1 _ well1.
        after (mmu_write_byte-Outcome _ _ (omega arith) (omega arith) well1) λ _ m2 _ well2.
          on_registers-Keeps well2 (sp-IsWidth _ (omega arith) (pc-IsWidth nn fits well2.width))

  pub ret-Keeps : Keeps free ret m
  unfolding ret
  ret-Keeps = after_read _ _ well λ low low_fits.
      let first : bit_and low 0xFF ≡ low = bit_and-low_byte low (omega arith) ∙ omega arith in
      after_read _ _
        (registers-IsWell well (pc-IsWidth (bit_and low 0xFF) (omega arith) well.width))
        λ high high_fits.
          let second : bit_and high 0xFF ≡ high =
            bit_and-low_byte high (omega arith) ∙ omega arith in
          let whole : bit_or (bit_and low 0xFF) (bit_and high 0xFF <<< 8) ≡ high * 256 + low =
            rw (first, second) (bit_or-bytes low high low_fits high_fits) in
          on_registers-Keeps
            (registers-IsWell well (pc-IsWidth (bit_and low 0xFF) (omega arith) well.width))
            (sp-IsWidth _ (omega arith) (pc-IsWidth _ (omega arith) well.width))

  pub push_ss-Keeps : (ss : ℕ) → ss < 65536 → Keeps free (push_ss ss) m
  unfolding push_ss
  push_ss-Keeps ss fits =
      let high = bit_and-high_byte_word ss fits in
      let low = bit_and-low_byte ss fits in
      after
        (mmu_write_byte-Outcome _ _ (omega arith) (omega arith)
          (registers-IsWell well (sp-IsWidth _ (omega arith) well.width)))
        λ _ m1 _ well1.
          after
            (mmu_write_byte-Outcome _ _ (omega arith) (omega arith)
              (registers-IsWell well1 (sp-IsWidth _ (omega arith) well1.width)))
            λ _ m2 _ well2. returned tt well2

  pub pop_dd-Keeps : (dd : WordRegister) → Keeps free (pop_dd dd) m
  unfolding pop_dd
  pop_dd-Keeps dd =
      let first = sp-IsWidth (u16 (m.registers.sp + 1)) (omega arith) well.width in
      after_read _ _ well λ _ _. after_read _ _ (registers-IsWell well first) λ pair _.
        on_registers-Keeps (registers-IsWell well first)
          (set16-IsWidth dd pair (sp-IsWidth _ (omega arith) first))

  pub halt-Keeps : Keeps free halt m
  unfolding halt
  halt-Keeps =
      if-Outcome _ (returned tt well)
        (on_registers-Keeps well (pc-IsWidth _ (omega arith) well.width))

  pub di-Keeps : Keeps free di m
  unfolding di
  di-Keeps = returned tt (interrupts-IsWell well _ well.request_fits well.enable_fits)

  pub ei-Keeps : Keeps free ei m
  unfolding ei
  ei-Keeps = returned tt (interrupts-IsWell well _ well.request_fits well.enable_fits)

ticked :
    {free : Bool} {x : Option (Unit {0} × Machine)} (n : ℕ)
    → Outcome free (λ _. Unit {0}) x
    → Outcome free (λ _. Unit {0}) (elim x [ none ↦ none | some (_, m') ↦ add_ticks n m' ])
ticked n done = after done λ _ m' _ well'. returned tt (ticks-IsWell well' n)

module _ {free : Bool} {m : Machine} (well : IsWell free m) where
  pub jp_cc_nn-Keeps :
      (nn flag condition : ℕ) → nn < 65536 → Keeps free (jp_cc_nn nn flag condition) m
  unfolding jp_cc_nn
  jp_cc_nn-Keeps nn flag condition fits =
      if-Outcome _ (ticked 4 (jp_nn-Keeps well nn fits)) (returned tt well)

  pub jr_cc_e-Keeps : (e flag condition : ℕ) → Keeps free (jr_cc_e e flag condition) m
  unfolding jr_cc_e
  jr_cc_e-Keeps e flag condition = if-Outcome _ (ticked 4 (jr_e-Keeps well e)) (returned tt well)

  pub call_cc_nn-Keeps :
      (nn flag condition : ℕ) → nn < 65536 → Keeps free (call_cc_nn nn flag condition) m
  unfolding call_cc_nn
  call_cc_nn-Keeps nn flag condition fits =
      if-Outcome _ (ticked 12 (call_nn-Keeps well nn fits)) (returned tt well)

  pub ret_cc-Keeps : (flag condition : ℕ) → Keeps free (ret_cc flag condition) m
  unfolding ret_cc
  ret_cc-Keeps flag condition = if-Outcome _ (ticked 12 (ret-Keeps well)) (returned tt well)

  pub reti-Keeps : Keeps free reti m
  unfolding reti
  reti-Keeps = after (ret-Keeps well) λ _ m' _ well'. ei-Keeps well'
