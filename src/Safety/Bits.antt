-- ===== src/Safety/Bits.antt =====
-- src/cpu.c: bytes stay bytes under the operations on their bits.
use game_bloat.Prelude.{
  ℕ, ◌-◌, ◌%◌, ◌<◌, ◌≡◌, refl, arith, Bool, true, false, ltb, ◌&&◌, bit_and, bit_or, bit_xor,
  if◌then◌else◌,
}
use game_bloat.Prelude.Bytes.{all_below, all_below_sound}
use game_bloat.Registers.{Registers, IsWidth}
use game_bloat.Cpu.Flags.{put_bits}

bits_table :
    all_below 256 (λ x.
      all_below 256 (λ y. ltb (bit_or x y) 256 && ltb (bit_and x y) 256 && ltb (bit_xor x y) 256))
    ≡ true
unfolding all_below
bits_table = refl

bits_lt :
    (x y : ℕ) → x < 256 → y < 256 → (bit_or x y < 256) × (bit_and x y < 256) × (bit_xor x y < 256)
bits_lt x y fits small =
    let at_y =
      all_below_sound 256
        (λ y. ltb (bit_or x y) 256 && ltb (bit_and x y) 256 && ltb (bit_xor x y) 256) y
        (all_below_sound 256 _ x bits_table fits) small in
    ground (arith, at_y)

pub bit_or-lt : (x y : ℕ) → x < 256 → y < 256 → bit_or x y < 256
bit_or-lt x y fits small = (bits_lt x y fits small).0

pub bit_and-lt : (x y : ℕ) → x < 256 → y < 256 → bit_and x y < 256
bit_and-lt x y fits small = (bits_lt x y fits small).1

pub bit_xor-lt : (x y : ℕ) → x < 256 → y < 256 → bit_xor x y < 256
bit_xor-lt x y fits small = (bits_lt x y fits small).2

pub put_bits-lt :
    (flag : ℕ) (test : Bool) (f : ℕ) → flag < 256 → f < 256 → put_bits flag test f < 256
unfolding put_bits
put_bits-lt flag true f small fits = bit_or-lt f flag fits small
put_bits-lt flag false f small fits = bit_and-lt f (255 - flag) fits (omega arith)

pub u8-lt : (x : ℕ) → x % 256 < 256
u8-lt x = omega arith

pub literal : (x : ℕ) → ltb x 256 ≡ true → x < 256
literal x h = ground arith

pub if-lt : (b : Bool) {x y bound : ℕ} → x < bound → y < bound → (if b then x else y) < bound
if-lt true first second = first
if-lt false first second = second

pub if-IsWidth : (b : Bool) {x y : Registers} → IsWidth x → IsWidth y → IsWidth (if b then x else y)
if-IsWidth true first second = first
if-IsWidth false first second = second

pub a-IsWidth :
    (a f : ℕ) {r : Registers} → IsWidth r → a < 256 → f < 256 → IsWidth (record r { a = a; f = f })
a-IsWidth a f w a_fits f_fits = omega arith

pub ruleset byte_lt = (put_bits-lt, bit_and-lt, bit_or-lt, bit_xor-lt, u8-lt, literal)
