-- ===== src/Prelude/Bytes.antt =====
-- Facts on bytes by evaluation of every value.
use Prim.Native.Nat.{ℕ, zero, suc, ◌+◌, ◌*◌, ◌/◌, ◌%◌, ◌<◌, bit_and}
use mathlib.Core.Path.{◌≡◌, refl, subst}
use mathlib.Core.Bool.{Bool, true, ◌&&◌}
use native.Mathlib.Omega.{arith}
use game_bloat.Prelude.Tests.{◌==◌, ==_iff}

unfoldable pub all_below : (bound : ℕ) → (test : ℕ → Bool) → Bool
all_below zero test = true
all_below (suc bound) test = all_below bound test && test bound

-- A test that holds at every number below a bound holds at each of them.
pub all_below_sound :
    (bound : ℕ) (test : ℕ → Bool) (value : ℕ)
    → all_below bound test ≡ true
    → value < bound
    → test value ≡ true
unfolding all_below
all_below_sound zero test value checked small = absurd (omega arith)
all_below_sound (suc bound) test value checked small =
    let below = all_below_sound bound test value in ground (arith, below)

low_nibble_table : all_below 256 (λ x. bit_and x 0x0F == x % 16) ≡ true
unfolding all_below
low_nibble_table = refl

pub bit_and-low_nibble : (x : ℕ) → x < 256 → bit_and x 0x0F ≡ x % 16
bit_and-low_nibble x h = (==_iff _ _).0 (all_below_sound 256 _ x low_nibble_table h)

high_byte_table :
    all_below 256 (λ hi. all_below 256 (λ lo. bit_and (hi * 256 + lo) 0xFF00 == hi * 256)) ≡ true
unfolding all_below
high_byte_table = refl

bit_and-high_byte : (hi lo : ℕ) → hi < 256 → lo < 256 → bit_and (hi * 256 + lo) 0xFF00 ≡ hi * 256
bit_and-high_byte hi lo h l =
    (==_iff _ _).0 (all_below_sound 256 _ lo (all_below_sound 256 _ hi high_byte_table h) l)

low_byte_table :
    all_below 256 (λ hi. all_below 256 (λ lo. bit_and (hi * 256 + lo) 0x00FF == lo)) ≡ true
unfolding all_below
low_byte_table = refl

bit_and-low_byte_parts : (hi lo : ℕ) → hi < 256 → lo < 256 → bit_and (hi * 256 + lo) 0x00FF ≡ lo
bit_and-low_byte_parts hi lo h l =
    (==_iff _ _).0 (all_below_sound 256 _ lo (all_below_sound 256 _ hi low_byte_table h) l)

-- A word is its two bytes.
word_parts : (x : ℕ) → x / 256 * 256 + x % 256 ≡ x
word_parts x = omega arith

pub bit_and-low_byte : (x : ℕ) → x < 65536 → bit_and x 0x00FF ≡ x % 256
bit_and-low_byte x h =
    subst (λ y. bit_and y 0x00FF ≡ x % 256) (word_parts x)
      (bit_and-low_byte_parts (x / 256) (x % 256) (omega arith) (omega arith))

pub bit_and-high_byte_word : (x : ℕ) → x < 65536 → bit_and x 0xFF00 ≡ x / 256 * 256
bit_and-high_byte_word x h =
    subst (λ y. bit_and y 0xFF00 ≡ x / 256 * 256) (word_parts x)
      (bit_and-high_byte (x / 256) (x % 256) (omega arith) (omega arith))

mask_table :
    all_below 256 (λ v.
      (bit_and v 0x03 == v % 4)
      && (bit_and v 0x1F == v % 32)
      && (bit_and v 0x7F == v % 128)
      && (bit_and v 0xF8 == v / 8 * 8)
      && (bit_and v 0xFC == v / 4 * 4))
    ≡ true
unfolding all_below
mask_table = refl

-- Low and high masks of a byte, as arithmetic.
pub bit_and-masks :
    (v : ℕ)
    → v < 256
    → (bit_and v 0x03 ≡ v % 4)
      × (bit_and v 0x1F ≡ v % 32)
      × (bit_and v 0x7F ≡ v % 128)
      × (bit_and v 0xF8 ≡ v / 8 * 8)
      × (bit_and v 0xFC ≡ v / 4 * 4)
bit_and-masks v h = ground (arith, all_below_sound 256 _ v mask_table h)

low_mask_table :
    all_below 256 (λ v. (bit_and v 7 == v % 8) && (bit_and v 31 == v % 32) && (bit_and v 0xFF == v))
    ≡ true
unfolding all_below
low_mask_table = refl

pub bit_and-low_masks :
    (v : ℕ) → v < 256 → (bit_and v 7 ≡ v % 8) × (bit_and v 31 ≡ v % 32) × (bit_and v 0xFF ≡ v)
bit_and-low_masks v h = ground (arith, all_below_sound 256 _ v low_mask_table h)
