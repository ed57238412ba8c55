-- ===== src/Cpu/Flags.antt =====
-- src/cpu.c: `setFlag`, `removeFlag`, `checkFlag`, and what they do to the four flags.
use game_bloat.Prelude.{
  ℕ, ◌+◌, ◌*◌, ◌%◌, ◌/◌, ◌<◌, ◌≡◌, refl, arith, bit_and, bit_or, Bool, true, false, ◌==◌, ==_iff,
  if◌then◌else◌, truthy, complement8, ◌&&◌,
}
use game_bloat.Prelude.Bytes.{all_below, all_below_sound}
use game_bloat.Registers.{Registers}

abbrev pub flag_zero : ℕ
flag_zero = 0x80

abbrev pub flag_negative : ℕ
flag_negative = 0x40

abbrev pub flag_half_carry : ℕ
flag_half_carry = 0x20

abbrev pub flag_carry : ℕ
flag_carry = 0x10

abbrev pub set_flag : ℕ → Registers → Registers
set_flag flag r = record r { f = bit_or r.f flag }

abbrev pub remove_flag : ℕ → Registers → Registers
remove_flag flag r = record r { f = bit_and r.f (complement8 flag) }

abbrev pub check_flag : ℕ → Registers → ℕ
check_flag flag r = if truthy (bit_and r.f flag) then 1 else 0

unfoldable pub put_bits : ℕ → Bool → ℕ → ℕ
put_bits flag test f = if test then bit_or f flag else bit_and f (complement8 flag)

-- `if (test) { setFlag(flag); } else { removeFlag(flag); }`; both write F alone.
abbrev pub put_flag : ℕ → Bool → Registers → Registers
put_flag flag test r = record r { f = put_bits flag test r.f }

abbrev pub bit : Bool → ℕ
bit true = 1
bit false = 0

-- The byte F with the four flags and the low nibble that no operation uses.
unfoldable pub flag_byte : (zero negative half carry : Bool) → ℕ → ℕ
flag_byte z n h c low = bit z * 128 + bit n * 64 + bit h * 32 + bit c * 16 + low

-- Whether a flag stands in the byte F.
abbrev pub has_flag : ℕ → ℕ → Bool
has_flag flag f = f / flag % 2 == 1

abbrev both : (Bool → Bool) → Bool
both p = p false && p true

-- A test on every value of the five parts of F.
every_flag_byte : (Bool → Bool → Bool → Bool → ℕ → Bool) → Bool
every_flag_byte p = all_below 16 (λ l. both λ z. both λ n. both λ h. both λ c. p z n h c l)

both_sound : (p : Bool → Bool) (b : Bool) → both p ≡ true → p b ≡ true
both_sound p true h = ground arith
both_sound p false h = ground arith

every_flag_byte_sound :
    (p : Bool → Bool → Bool → Bool → ℕ → Bool)
    → every_flag_byte p ≡ true
    → (z n h c : Bool) (l : ℕ) → l < 16
    → p z n h c l ≡ true
unfolding every_flag_byte
every_flag_byte_sound p ok z n h c l small =
    both_sound (λ c'. p z n h c' l) c
      (both_sound (λ h'. both λ c'. p z n h' c' l) h
        (both_sound (λ n'. both λ h'. both λ c'. p z n' h' c' l) n
          (both_sound (λ z'. both λ n'. both λ h'. both λ c'. p z' n' h' c' l) z
            (all_below_sound 16 _ l ok small))))

-- F is the byte of its own flags.
pub flag_byte-has_flag :
    (f : ℕ)
    → f < 256
    → f
      ≡ flag_byte
          (has_flag flag_zero f)
          (has_flag flag_negative f)
          (has_flag flag_half_carry f)
          (has_flag flag_carry f)
          (f % 16)
unfolding flag_byte
flag_byte-has_flag f fits = ground arith

check_table :
    all_below 256 (λ f.
      (bit_and f 0x80 == f / 128 % 2 * 128)
      && (bit_and f 0x40 == f / 64 % 2 * 64)
      && (bit_and f 0x20 == f / 32 % 2 * 32)
      && (bit_and f 0x10 == f / 16 % 2 * 16))
    ≡ true
unfolding all_below
check_table = refl

-- A flag's mask takes its binary digit.
pub flag_digits :
    (f : ℕ)
    → f < 256
    → (bit_and f 0x80 ≡ f / 128 % 2 * 128)
      × (bit_and f 0x40 ≡ f / 64 % 2 * 64)
      × (bit_and f 0x20 ≡ f / 32 % 2 * 32)
      × (bit_and f 0x10 ≡ f / 16 % 2 * 16)
flag_digits f fits = ground (arith, all_below_sound 256 _ f check_table fits)

pub check_flag-carry :
    (r : Registers) → r.f < 256 → check_flag flag_carry r ≡ bit (has_flag flag_carry r.f)
check_flag-carry r fits = ground (arith, flag_digits r.f fits)

module _ (z n h c : Bool) (l : ℕ) (small : l < 16) where
  pub remove-negative : bit_and (flag_byte z n h c l) 0xBF ≡ flag_byte z false h c l
  unfolding every_flag_byte all_below flag_byte
  remove-negative = (==_iff _ _).0 (
      every_flag_byte_sound
        (λ z n h c l. bit_and (flag_byte z n h c l) 0xBF == flag_byte z false h c l) refl z n h c l
        small)

  pub remove-half_carry : bit_and (flag_byte z n h c l) 0xDF ≡ flag_byte z n false c l
  unfolding every_flag_byte all_below flag_byte
  remove-half_carry = (==_iff _ _).0 (
      every_flag_byte_sound
        (λ z n h c l. bit_and (flag_byte z n h c l) 0xDF == flag_byte z n false c l) refl z n h c l
        small)

  pub remove-carry : bit_and (flag_byte z n h c l) 0xEF ≡ flag_byte z n h false l
  unfolding every_flag_byte all_below flag_byte
  remove-carry = (==_iff _ _).0 (
      every_flag_byte_sound
        (λ z n h c l. bit_and (flag_byte z n h c l) 0xEF == flag_byte z n h false l) refl z n h c l
        small)

  pub remove-zero : bit_and (flag_byte z n h c l) 0x7f ≡ flag_byte false n h c l
  unfolding every_flag_byte all_below flag_byte
  remove-zero = (==_iff _ _).0 (
      every_flag_byte_sound
        (λ z n h c l. bit_and (flag_byte z n h c l) 0x7f == flag_byte false n h c l) refl z n h c l
        small)

  pub remove-zero_negative : bit_and (flag_byte z n h c l) 0x3f ≡ flag_byte false false h c l
  unfolding every_flag_byte all_below flag_byte
  remove-zero_negative = (==_iff _ _).0 (
      every_flag_byte_sound
        (λ z n h c l. bit_and (flag_byte z n h c l) 0x3f == flag_byte false false h c l) refl z n h
        c l small)

  pub remove-negative_half : bit_and (flag_byte z n h c l) 0x9f ≡ flag_byte z false false c l
  unfolding every_flag_byte all_below flag_byte
  remove-negative_half = (==_iff _ _).0 (
      every_flag_byte_sound
        (λ z n h c l. bit_and (flag_byte z n h c l) 0x9f == flag_byte z false false c l) refl z n h
        c l small)

  pub remove-negative_carry : bit_and (flag_byte z n h c l) 0xaf ≡ flag_byte z false h false l
  unfolding every_flag_byte all_below flag_byte
  remove-negative_carry = (==_iff _ _).0 (
      every_flag_byte_sound
        (λ z n h c l. bit_and (flag_byte z n h c l) 0xaf == flag_byte z false h false l) refl z n h
        c l small)

  pub remove-arithmetic : bit_and (flag_byte z n h c l) 0x8f ≡ flag_byte z false false false l
  unfolding every_flag_byte all_below flag_byte
  remove-arithmetic = (==_iff _ _).0 (
      every_flag_byte_sound
        (λ z n h c l. bit_and (flag_byte z n h c l) 0x8f == flag_byte z false false false l) refl z
        n h c l small)

  pub remove-zero_negative_half :
      bit_and (flag_byte z n h c l) 0x1f ≡ flag_byte false false false c l
  unfolding every_flag_byte all_below flag_byte
  remove-zero_negative_half = (==_iff _ _).0 (
      every_flag_byte_sound
        (λ z n h c l. bit_and (flag_byte z n h c l) 0x1f == flag_byte false false false c l) refl z
        n h c l small)

  pub set-negative : bit_or (flag_byte z n h c l) 0x40 ≡ flag_byte z true h c l
  unfolding every_flag_byte all_below flag_byte
  set-negative = (==_iff _ _).0 (
      every_flag_byte_sound
        (λ z n h c l. bit_or (flag_byte z n h c l) 0x40 == flag_byte z true h c l) refl z n h c l
        small)

  pub set-half_carry : bit_or (flag_byte z n h c l) 0x20 ≡ flag_byte z n true c l
  unfolding every_flag_byte all_below flag_byte
  set-half_carry = (==_iff _ _).0 (
      every_flag_byte_sound
        (λ z n h c l. bit_or (flag_byte z n h c l) 0x20 == flag_byte z n true c l) refl z n h c l
        small)

  pub set-carry : bit_or (flag_byte z n h c l) 0x10 ≡ flag_byte z n h true l
  unfolding every_flag_byte all_below flag_byte
  set-carry = (==_iff _ _).0 (
      every_flag_byte_sound
        (λ z n h c l. bit_or (flag_byte z n h c l) 0x10 == flag_byte z n h true l) refl z n h c l
        small)

  pub set-zero : bit_or (flag_byte z n h c l) 0x80 ≡ flag_byte true n h c l
  unfolding every_flag_byte all_below flag_byte
  set-zero = (==_iff _ _).0 (
      every_flag_byte_sound
        (λ z n h c l. bit_or (flag_byte z n h c l) 0x80 == flag_byte true n h c l) refl z n h c l
        small)

  pub set-negative_half : bit_or (flag_byte z n h c l) 0x60 ≡ flag_byte z true true c l
  unfolding every_flag_byte all_below flag_byte
  set-negative_half = (==_iff _ _).0 (
      every_flag_byte_sound
        (λ z n h c l. bit_or (flag_byte z n h c l) 0x60 == flag_byte z true true c l) refl z n h c l
        small)

  pub put-zero : (t : Bool) → put_bits 0x80 t (flag_byte z n h c l) ≡ flag_byte t n h c l
  unfolding put_bits
  put-zero true = set-zero
  put-zero false = remove-zero

  pub put-half_carry : (t : Bool) → put_bits 0x20 t (flag_byte z n h c l) ≡ flag_byte z n t c l
  unfolding put_bits
  put-half_carry true = set-half_carry
  put-half_carry false = remove-half_carry

  pub put-carry : (t : Bool) → put_bits 0x10 t (flag_byte z n h c l) ≡ flag_byte z n h t l
  unfolding put_bits
  put-carry true = set-carry
  put-carry false = remove-carry

  pub test-zero : bit_and (flag_byte z n h c l) 0x80 ≡ bit z * 128
  unfolding every_flag_byte all_below flag_byte
  test-zero = (==_iff _ _).0 (
      every_flag_byte_sound (λ z n h c l. bit_and (flag_byte z n h c l) 0x80 == bit z * 128) refl z
        n h c l small)

  pub has_flag-zero : has_flag 0x80 (flag_byte z n h c l) ≡ z
  unfolding flag_byte
  has_flag-zero = ground arith

  pub test-negative : bit_and (flag_byte z n h c l) 0x40 ≡ bit n * 64
  unfolding every_flag_byte all_below flag_byte
  test-negative = (==_iff _ _).0 (
      every_flag_byte_sound (λ z n h c l. bit_and (flag_byte z n h c l) 0x40 == bit n * 64) refl z n
        h c l small)

  pub has_flag-negative : has_flag 0x40 (flag_byte z n h c l) ≡ n
  unfolding flag_byte
  has_flag-negative = ground arith

  pub test-half_carry : bit_and (flag_byte z n h c l) 0x20 ≡ bit h * 32
  unfolding every_flag_byte all_below flag_byte
  test-half_carry = (==_iff _ _).0 (
      every_flag_byte_sound (λ z n h c l. bit_and (flag_byte z n h c l) 0x20 == bit h * 32) refl z n
        h c l small)

  pub has_flag-half_carry : has_flag 0x20 (flag_byte z n h c l) ≡ h
  unfolding flag_byte
  has_flag-half_carry = ground arith

  pub test-carry : bit_and (flag_byte z n h c l) 0x10 ≡ bit c * 16
  unfolding every_flag_byte all_below flag_byte
  test-carry = (==_iff _ _).0 (
      every_flag_byte_sound (λ z n h c l. bit_and (flag_byte z n h c l) 0x10 == bit c * 16) refl z n
        h c l small)

  pub has_flag-carry : has_flag 0x10 (flag_byte z n h c l) ≡ c
  unfolding flag_byte
  has_flag-carry = ground arith

  pub low-flag_byte : flag_byte z n h c l % 16 ≡ l
  unfolding flag_byte
  low-flag_byte = ground arith

  pub flag_byte-lt : flag_byte z n h c l < 256
  unfolding flag_byte
  flag_byte-lt = ground arith

pub ruleset remove_laws = (
  remove-negative, remove-half_carry, remove-carry, remove-zero, remove-zero_negative,
  remove-negative_half, remove-negative_carry, remove-arithmetic, remove-zero_negative_half,
)

pub ruleset set_laws = (
  set-negative, set-half_carry, set-carry, set-zero, set-negative_half, put-zero, put-half_carry,
  put-carry,
)

pub ruleset flag_laws = (remove_laws, set_laws)
