-- ===== src/Cartridge/Supported.antt =====
-- src/cartridge.c and src/MBC.c: the cartridges that load, by the codes in their headers.
use game_bloat.Prelude.{
  ℕ, Option, none, some, Bool, true, false, ◌==◌, ◌&&◌, if◌then◌else◌, List, [], ◌∷◌, ◌*◌, suc,
}
use game_bloat.Prelude.Buffer.{Buffer}
use game_bloat.Cartridge.File.{Allocator}
use game_bloat.Cartridge.Laws.{has_block, flag_allows, gets_ram}

-- The sizes in bytes that a table lists for its codes.
unfoldable pub size_of : List (ℕ × ℕ) → ℕ → Option ℕ
size_of [] code = none
size_of ((listed, size) ∷ entries) code = if listed == code then some size else size_of entries code

unfoldable pub is_listed : List ℕ → ℕ → Bool
is_listed [] code = false
is_listed (listed ∷ entries) code = if listed == code then true else is_listed entries code

-- ROM sizes: 32 KiB doubled up to 4 MiB, and the three odd sizes.
abbrev pub rom_sizes : List (ℕ × ℕ)
rom_sizes =
    (0x00, 32 * 1024)
    ∷ (0x01, 64 * 1024)
    ∷ (0x02, 128 * 1024)
    ∷ (0x03, 256 * 1024)
    ∷ (0x04, 512 * 1024)
    ∷ (0x05, 1024 * 1024)
    ∷ (0x06, 2048 * 1024)
    ∷ (0x07, 4096 * 1024)
    ∷ (0x52, 1152 * 1024)
    ∷ (0x53, 1280 * 1024)
    ∷ (0x54, 1536 * 1024)
    ∷ []

-- RAM sizes: none, 2 KiB and 32 KiB; the code 0x02, 8 KiB, is not among them.
abbrev pub ram_sizes : List (ℕ × ℕ)
ram_sizes = (0x00, 0) ∷ (0x01, 2 * 1024) ∷ (0x03, 32 * 1024) ∷ []

-- The cartridge types: no controller, MBC1, MBC2, MBC3, MBC4, and MBC5 but for its plain form 0x19.
abbrev pub supported_types : List ℕ
supported_types =
    0x00 ∷ 0x01 ∷ 0x02 ∷ 0x03 ∷ 0x05 ∷ 0x06 ∷ 0x0F ∷ 0x10 ∷ 0x11 ∷ 0x12 ∷ 0x13 ∷ 0x15 ∷ 0x16 ∷ 0x17
    ∷ 0x1A ∷ 0x1B ∷ 0x1C ∷ 0x1D ∷ 0x1E ∷ []

-- The file has the size that the table lists for its byte 0x148, the sizes and the type of its bytes
-- 0x149 and 0x147 are listed, and there is memory for the ROM and for a RAM that is not empty.
unfoldable pub is_supported : Allocator → Buffer → Bool
is_supported malloc file =
    (flag_allows (size_of rom_sizes (file.cells 0x148)) file.size && has_block (malloc file.size))
    && (gets_ram malloc (size_of ram_sizes (file.cells 0x149))
        && is_listed supported_types (file.cells 0x147))

code : Option ℕ → ℕ
code none = 0
code (some x) = suc x
