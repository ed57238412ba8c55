-- ===== src/Cpu/Indirect/Laws.antt =====
-- src/cpu.c: the operations on the byte at HL do to it what their namesakes do to a register.
use game_bloat.Prelude.{
  ℕ, ◌/◌, ◌<◌, ◌≡◌, ◌∙◌, ap, sym, Bool, ==_iff, refl, arith, Option, some, true, false, none,
  truthy, if◌then◌else◌, ◌==◌, u8, bit_or, bit_and, ◌<<<◌, ◌>>>◌, complement8,
}
use game_bloat.Prelude.Bytes.{all_below, all_below_sound}
use game_bloat.Cpu.Shift.Laws.{halved, bit_or-top_bit}
use game_bloat.Registers.{Registers, ByteRegister, get8, set8, hl}
use game_bloat.Cpu.Flags.{
  remove_flag, put_flag, set_flag, flag_negative, flag_half_carry, flag_carry,
}
use game_bloat.Machine.{Machine, Command, ◌>>=◌, ◌>>◌, on_registers}
use game_bloat.Memory.{read_memory, mmu_read_byte}
use game_bloat.Memory.Ram.{
  is_ram, store_ram, mmu_write_byte-ram, store_ram-set_registers, read_memory-set_registers,
}
use game_bloat.Cpu.Alu.{inc_s, dec_s, put_zero}
use game_bloat.Cpu.Shift.{
  swap_nibbles, rlc_s, rl_s, rrc_s, rr_s, sla_s, sra_s, srl_s, swap_s, bit_b_s, set_b_s, res_b_s,
}
use game_bloat.Cpu.Indirect.{
  load_hl, store_hl, finish, negative_half, inc_shl, dec_shl, swap_shl, rlc_shl, rl_shl, rrc_shl,
  rr_shl, sla_shl, sra_shl, srl_shl, bit_b_shl, set_b_shl, res_b_shl,
}

-- What an operation on the register B does, done to the byte `v` at HL: the result goes to the cell
-- and the flags to F, and B stays.
abbrev pub in_cell : (ByteRegister → Registers → Registers) → ℕ → Machine → Machine
in_cell op v m =
    let r = op ByteRegister.reg_b (record (m.registers) { b = v }) in
    let stored = store_ram (hl m.registers) r.b m in
    record stored { registers = record (m.registers) { f = r.f } }

rotated :
    (v : ℕ) (t : Bool)
    → v < 256
    → (if t then bit_or (v >>> 1) 0x80 else v >>> 1)
      ≡ u8 (if t then bit_or (u8 (v >>> 1)) 0x80 else u8 (v >>> 1))
rotated v true fits = ground (arith, halved v fits, bit_or-top_bit (v / 2))
rotated v false fits = ground (arith, halved v fits)

shifted_table :
    all_below 256 (λ v. bit_or (v >>> 1) (bit_and v 0x80) == u8 (bit_or (v >>> 1) (bit_and v 0x80)))
    ≡ true
unfolding all_below
shifted_table = refl

shifted :
    (v : ℕ) → v < 256 → bit_or (v >>> 1) (bit_and v 0x80) ≡ u8 (bit_or (v >>> 1) (bit_and v 0x80))
shifted v fits = (==_iff _ _).0 (all_below_sound 256 _ v shifted_table fits)

swapped : (v : ℕ) → swap_nibbles v ≡ u8 (swap_nibbles v)
unfolding swap_nibbles
swapped v = omega arith

cleared_table :
    all_below 8 (λ p.
      all_below 256
        (λ v. bit_and v (complement8 (1 <<< p)) == u8 (bit_and v (complement8 (1 <<< p)))))
    ≡ true
unfolding all_below
cleared_table = refl

cleared :
    (v p : ℕ)
    → v < 256
    → p < 8
    → bit_and v (complement8 (1 <<< p)) ≡ u8 (bit_and v (complement8 (1 <<< p)))
cleared v p fits low =
    (==_iff _ _).0 (all_below_sound 256 _ v (all_below_sound 8 _ p cleared_table low) fits)

module _ (m : Machine) (v : ℕ) (ram : is_ram (hl m.registers) ≡ true)
    (cell : read_memory m (hl m.registers) ≡ some v) (fits : v < 256) where
  loads :
      (r : Registers) (k : ℕ → Command (Unit {0}))
      → hl r ≡ hl m.registers
      → (load_hl >>= k) (record m { registers = r }) ≡ k v (record m { registers = r })
  unfolding mmu_read_byte
  loads r k same =
      let found : read_memory (record m { registers = r }) (hl r) ≡ some v =
        read_memory-set_registers (hl r) m r ∙ ap (read_memory m) same ∙ cell in
      let mr = record m { registers = r } in
      ap
        (λ (x : Option ℕ).
          elim (elim x as (λ _. Option (ℕ × Machine)) [
            | none ↦ none
            | some value ↦ some (value, mr)
          ])
            as (λ _. Option (Unit {0} × Machine)) [ none ↦ none | some (value, m') ↦ k value m' ])
        found

  stores :
      (w : ℕ) (r : Registers)
      → hl r ≡ hl m.registers
      → store_hl w (record m { registers = r })
        ≡ some (tt, record (store_ram (hl m.registers) w m) { registers = r })
  stores w r same = ground (
    arith,
    mmu_write_byte-ram (hl m.registers) w (record m { registers = r }) ram,
    store_ram-set_registers (hl m.registers) w m r,
  )

  finishes :
      (w : ℕ) (r : Registers)
      → hl r ≡ hl m.registers
      → finish w (record m { registers = r })
        ≡ some (tt, record (store_ram (hl m.registers) w m) { registers = put_zero w r })
  finishes w r same =
      ap
        (λ (x : Option (Unit {0} × Machine)). elim x [
          | none ↦ none
          | some (a, m') ↦ on_registers (put_zero w) m'
        ])
        (stores w r same)

  inc_shl-inc_s : inc_shl m ≡ some (tt, in_cell inc_s v m)
  unfolding inc_shl inc_s
  inc_shl-inc_s = loads _ _ refl ∙ finishes _ _ refl

  dec_shl-dec_s : dec_shl m ≡ some (tt, in_cell dec_s v m)
  unfolding dec_shl dec_s
  dec_shl-dec_s = loads _ _ refl ∙ finishes _ _ refl

  rlc_shl-rlc_s : rlc_shl m ≡ some (tt, in_cell rlc_s v m)
  unfolding rlc_shl rlc_s
  rlc_shl-rlc_s = loads _ _ refl ∙ finishes _ _ refl

  rl_shl-rl_s : rl_shl m ≡ some (tt, in_cell rl_s v m)
  unfolding rl_shl rl_s
  rl_shl-rl_s = loads _ _ refl ∙ finishes _ _ refl

  sla_shl-sla_s : sla_shl m ≡ some (tt, in_cell sla_s v m)
  unfolding sla_shl sla_s
  sla_shl-sla_s = loads _ _ refl ∙ finishes _ _ refl

  set_b_shl-set_b_s :
      (position : ℕ) → set_b_shl position m ≡ some (tt, in_cell (set_b_s position) v m)
  unfolding set_b_shl set_b_s
  set_b_shl-set_b_s position = loads _ _ refl ∙ stores _ _ refl

  bit_b_shl-bit_b_s :
      (position : ℕ)
      → bit_b_shl position m
        ≡ some (
          tt,
          record m {
            registers = record (m.registers) {
              f = (bit_b_s position ByteRegister.reg_b (record (m.registers) { b = v })).f;
            };
          },
        )
  unfolding bit_b_shl bit_b_s
  bit_b_shl-bit_b_s position = loads _ _ refl

  -- The result of a command that ends in `finish`.
  abbrev result : Registers → ℕ → Option (Unit {0} × Machine)
  result r w = some (tt, record (store_ram (hl m.registers) w m) { registers = put_zero w r })

  rrc_shl-rrc_s : rrc_shl m ≡ some (tt, in_cell rrc_s v m)
  unfolding rrc_shl rrc_s
  rrc_shl-rrc_s =
      loads _ _ refl
      ∙ finishes _ _ refl
      ∙ ap
          (result
            (put_flag flag_carry (truthy (bit_and v 0x01)) (remove_flag negative_half m.registers)))
          (rotated v _ fits)

  rr_shl-rr_s : rr_shl m ≡ some (tt, in_cell rr_s v m)
  unfolding rr_shl rr_s
  rr_shl-rr_s =
      loads _ _ refl
      ∙ finishes _ _ refl
      ∙ ap
          (result
            (put_flag flag_carry (truthy (bit_and v 0x01)) (remove_flag negative_half m.registers)))
          (sym (halved v fits))

  sra_shl-sra_s : sra_shl m ≡ some (tt, in_cell sra_s v m)
  unfolding sra_shl sra_s
  sra_shl-sra_s =
      loads _ _ refl
      ∙ finishes _ _ refl
      ∙ ap
          (result
            (put_flag flag_carry (truthy (bit_and v 0x01)) (remove_flag negative_half m.registers)))
          (shifted v fits)

  -- `srl_s` whichever branch of its test is taken.
  abbrev srl_by : Bool → ByteRegister → Registers → Registers
  srl_by t s r =
      let r1 = remove_flag negative_half r in
      let r2 = if t then set_flag flag_carry r1 else set_flag flag_carry r1 in
      let r3 = set8 s (get8 s r2 >>> 1) r2 in put_zero (get8 s r3) r3

  carried :
      (t : Bool)
      → (on_registers (λ r. if t then set_flag flag_carry r else set_flag flag_carry r)
            >> finish (v >>> 1))
          (record m { registers = remove_flag negative_half m.registers })
        ≡ some (tt, in_cell (srl_by t) v m)
  carried true =
      finishes _ _ refl
      ∙ ap (result (set_flag flag_carry (remove_flag negative_half m.registers)))
          (sym (halved v fits))
  carried false =
      finishes _ _ refl
      ∙ ap (result (set_flag flag_carry (remove_flag negative_half m.registers)))
          (sym (halved v fits))

  srl_shl-srl_s : srl_shl m ≡ some (tt, in_cell srl_s v m)
  unfolding srl_shl srl_s
  srl_shl-srl_s = loads _ _ refl ∙ carried (truthy (bit_and v 0x01))

  swap_shl-swap_s : swap_shl m ≡ some (tt, in_cell swap_s v m)
  unfolding swap_shl swap_s
  swap_shl-swap_s =
      loads _ _ refl
      ∙ finishes _ _ refl
      ∙ ap
          (result
            (remove_flag (bit_or flag_negative (bit_or flag_half_carry flag_carry)) m.registers))
          (swapped v)

  res_b_shl-res_b_s :
      (position : ℕ)
      → position < 8
      → res_b_shl position m ≡ some (tt, in_cell (res_b_s position) v m)
  unfolding res_b_shl res_b_s
  res_b_shl-res_b_s position low =
      loads _ _ refl
      ∙ stores _ _ refl
      ∙ ap (λ w. some (tt, record (store_ram (hl m.registers) w m) { registers = m.registers }))
          (cleared v position fits low)

-- An operation on the byte at HL, where HL points to RAM, does to that byte and to the flags what
-- its namesake does to a register that holds the byte, and nothing else.
pub indirect_lem :
    (m : Machine) (v position : ℕ)
    → is_ram (hl m.registers) ≡ true
    → read_memory m (hl m.registers) ≡ some v
    → v < 256
    → position < 8
    → (inc_shl m ≡ some (tt, in_cell inc_s v m))
      × (dec_shl m ≡ some (tt, in_cell dec_s v m))
      × (swap_shl m ≡ some (tt, in_cell swap_s v m))
      × (rlc_shl m ≡ some (tt, in_cell rlc_s v m))
      × (rl_shl m ≡ some (tt, in_cell rl_s v m))
      × (rrc_shl m ≡ some (tt, in_cell rrc_s v m))
      × (rr_shl m ≡ some (tt, in_cell rr_s v m))
      × (sla_shl m ≡ some (tt, in_cell sla_s v m))
      × (sra_shl m ≡ some (tt, in_cell sra_s v m))
      × (srl_shl m ≡ some (tt, in_cell srl_s v m))
      × (set_b_shl position m ≡ some (tt, in_cell (set_b_s position) v m))
      × (res_b_shl position m ≡ some (tt, in_cell (res_b_s position) v m))
      × (bit_b_shl position m
          ≡ some (
            tt,
            record m {
              registers = record (m.registers) {
                f = (bit_b_s position ByteRegister.reg_b (record (m.registers) { b = v })).f;
              };
            },
          ))
indirect_lem m v position ram cell fits low = (
  inc_shl-inc_s m v ram cell fits,
  dec_shl-dec_s m v ram cell fits,
  swap_shl-swap_s m v ram cell fits,
  rlc_shl-rlc_s m v ram cell fits,
  rl_shl-rl_s m v ram cell fits,
  rrc_shl-rrc_s m v ram cell fits,
  rr_shl-rr_s m v ram cell fits,
  sla_shl-sla_s m v ram cell fits,
  sra_shl-sra_s m v ram cell fits,
  srl_shl-srl_s m v ram cell fits,
  set_b_shl-set_b_s m v ram cell fits position,
  res_b_shl-res_b_s m v ram cell fits position low,
  bit_b_shl-bit_b_s m v ram cell fits position,
)
