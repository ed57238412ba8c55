-- ===== src/Prelude/Buffer.antt =====
-- A block of `malloc`: its size and its bytes. A NULL pointer is the block of size 0.
use Prim.Native.Nat.{ℕ}
use mathlib.Core.Option.{Option, none, some}
use game_bloat.Prelude.Tests.{ltb, if◌then◌else◌}
use game_bloat.Prelude.Words.{update}

pub record Buffer : Type 0 where
  pub size : ℕ
  pub cells : ℕ → ℕ

-- `none` is an access out of bounds, which C leaves undefined.
abbrev pub load : Buffer → ℕ → Option ℕ
load b i = if ltb i b.size then some (b.cells i) else none

abbrev pub store : Buffer → ℕ → ℕ → Option Buffer
store b i v = if ltb i b.size then some (record b { cells = update b.cells i v }) else none
