-- ===== src/Prelude/Words.antt =====
-- Casts to the fixed widths of C, shifts, and arrays as functions of the index.
use Prim.Native.Nat.{ℕ, ◌-◌, ◌*◌, ◌/◌, ◌%◌, ◌^◌}
use game_bloat.Prelude.Tests.{◌==◌, if◌then◌else◌}

-- `unsigned char`, `unsigned short` and `unsigned int`.
abbrev pub u8 : ℕ → ℕ
u8 n = n % 2 ^ 8

abbrev pub u16 : ℕ → ℕ
u16 n = n % 2 ^ 16

abbrev pub u32 : ℕ → ℕ
u32 n = n % 2 ^ 32

infixl 75 ◌<<<◌ ◌>>>◌
abbrev pub ◌<<<◌ : ℕ → ℕ → ℕ
x <<< k = x * 2 ^ k

abbrev pub ◌>>>◌ : ℕ → ℕ → ℕ
x >>> k = x / 2 ^ k

-- `~x`, cut to a byte.
abbrev pub complement8 : ℕ → ℕ
complement8 x = 255 - x

-- `xs[i] = v`.
abbrev pub update : (ℕ → ℕ) → ℕ → ℕ → ℕ → ℕ
update xs i v j = if i == j then v else xs j
