-- ===== src/Registers.antt =====
-- include/registers.h: the register file. A pair is a union of two bytes; the build defines
-- LITTLE_ENDIAN, so the first letter of a pair is its high byte.
use game_bloat.Prelude.{ℕ, ◌+◌, ◌*◌, ◌<◌, ◌≡◌, refl, arith, u8, u16, ◌>>>◌}

pub record Registers : Type 0 where
  pub a : ℕ
  pub f : ℕ
  pub b : ℕ
  pub c : ℕ
  pub d : ℕ
  pub e : ℕ
  pub h : ℕ
  pub l : ℕ
  pub sp : ℕ
  pub pc : ℕ

-- The address of a byte register, as the opcode tables pass it.
pub data ByteRegister : Type 0 where
  reg_a reg_b reg_c reg_d reg_e reg_h reg_l : ByteRegister

-- The address of a 16-bit register.
pub data WordRegister : Type 0 where
  reg_af reg_bc reg_de reg_hl reg_sp : WordRegister

-- `*ptr`.
abbrev pub get8 : ByteRegister → Registers → ℕ
get8 reg_a r = r.a
get8 reg_b r = r.b
get8 reg_c r = r.c
get8 reg_d r = r.d
get8 reg_e r = r.e
get8 reg_h r = r.h
get8 reg_l r = r.l

-- `*ptr = v`; the store keeps a byte.
abbrev pub set8 : ByteRegister → ℕ → Registers → Registers
set8 reg_a v r = record r { a = u8 v }
set8 reg_b v r = record r { b = u8 v }
set8 reg_c v r = record r { c = u8 v }
set8 reg_d v r = record r { d = u8 v }
set8 reg_e v r = record r { e = u8 v }
set8 reg_h v r = record r { h = u8 v }
set8 reg_l v r = record r { l = u8 v }

abbrev pub get16 : WordRegister → Registers → ℕ
get16 reg_af r = r.a * 256 + r.f
get16 reg_bc r = r.b * 256 + r.c
get16 reg_de r = r.d * 256 + r.e
get16 reg_hl r = r.h * 256 + r.l
get16 reg_sp r = r.sp

abbrev pub set16 : WordRegister → ℕ → Registers → Registers
set16 reg_af v r = record r { a = u8 (v >>> 8); f = u8 v }
set16 reg_bc v r = record r { b = u8 (v >>> 8); c = u8 v }
set16 reg_de v r = record r { d = u8 (v >>> 8); e = u8 v }
set16 reg_hl v r = record r { h = u8 (v >>> 8); l = u8 v }
set16 reg_sp v r = record r { sp = u16 v }

abbrev pub hl : Registers → ℕ
hl r = get16 reg_hl r

-- Every register holds a value of its width.
pub record IsWidth (r : Registers) : Type 0 where
  pub a_fits : r.a < 256
  pub f_fits : r.f < 256
  pub b_fits : r.b < 256
  pub c_fits : r.c < 256
  pub d_fits : r.d < 256
  pub e_fits : r.e < 256
  pub h_fits : r.h < 256
  pub l_fits : r.l < 256
  pub sp_fits : r.sp < 65536
  pub pc_fits : r.pc < 65536

pub get8-lt : (p : ByteRegister) {r : Registers} → IsWidth r → get8 p r < 256
get8-lt reg_a w = w.a_fits
get8-lt reg_b w = w.b_fits
get8-lt reg_c w = w.c_fits
get8-lt reg_d w = w.d_fits
get8-lt reg_e w = w.e_fits
get8-lt reg_h w = w.h_fits
get8-lt reg_l w = w.l_fits

pub get8-set8 : (s : ByteRegister) (v : ℕ) (r : Registers) → get8 s (set8 s v r) ≡ u8 v
get8-set8 reg_a v r = refl
get8-set8 _ v r = refl

-- A store through any of the pointers keeps the widths, and so does a byte put into F.
pub set8-IsWidth : (s : ByteRegister) (v : ℕ) {r : Registers} → IsWidth r → IsWidth (set8 s v r)
set8-IsWidth reg_a v w = omega arith
set8-IsWidth _ v w = omega arith

pub f-IsWidth : (v : ℕ) {r : Registers} → IsWidth r → v < 256 → IsWidth (record r { f = v })
f-IsWidth v w fits = omega arith
