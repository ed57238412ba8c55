-- ===== src/Cartridge/File.antt =====
-- The streams of <stdio.h> that src/cartridge.c and src/bios.c read, and the blocks of `malloc`.
use game_bloat.Prelude.{ℕ, ◌+◌, Option, ltb, if◌then◌else◌, ◌&&◌}
use game_bloat.Prelude.Buffer.{Buffer}

-- An open file and its position.
pub record Stream : Type 0 where
  pub file : Buffer
  pub position : ℕ

-- `fseek(fp, offset, SEEK_SET)`.
abbrev pub seek : ℕ → Stream → Stream
seek offset s = record s { position = offset }

-- Where a read of `count` bytes leaves the position: a short file ends it early.
unfoldable pub read_end : (size position count : ℕ) → ℕ
read_end size position count =
    if ltb size position
    then position
    else if ltb size (position + count)
    then size
    else position + count

-- `fread(target, 1, count, fp)`: the bytes that the file has, the others stay as they were.
unfoldable pub fread : (target : ℕ → ℕ) (count : ℕ) → Stream → (ℕ → ℕ) × Stream
unfolding read_end
fread target count s = (
  λ i.
      if ltb i count && ltb (s.position + i) s.file.size
      then s.file.cells (s.position + i)
      else target i,
  record s { position = read_end s.file.size s.position count },
)

-- The same for one variable of type `unsigned char`.
unfoldable pub fread_byte : (target : ℕ) → Stream → ℕ × Stream
unfolding fread
fread_byte target s = let (bytes, s') = fread (λ _. target) 1 s in (bytes 0, s')

-- `malloc`: the bytes of a new block of that size, or `none` for a NULL pointer.
abbrev pub Allocator : Type 0
Allocator = ℕ → Option (ℕ → ℕ)

-- A NULL pointer.
abbrev pub null : Buffer
null = record { size = 0; cells = λ _. 0 }
