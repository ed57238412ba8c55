-- ===== src/Bios.antt =====
-- src/bios.c: the checks of a cartridge's file before it is loaded.
pub mod Laws
use game_bloat.Prelude.{
  ℕ, zero, suc, ◌+◌, ◌-◌, Option, none, some, List, [], ◌∷◌, ltb, ◌==◌, ◌&&◌, if◌then◌else◌, truthy,
  bit_and,
}
use game_bloat.Prelude.Buffer.{Buffer}
use game_bloat.Cartridge.File.{Stream, seek, fread}
use game_bloat.Cartridge.Fields.{Header}

abbrev pub nintendo_logo_bitmap : List ℕ
nintendo_logo_bitmap =
    0xCE ∷ 0xED ∷ 0x66 ∷ 0x66 ∷ 0xCC ∷ 0x0D ∷ 0x00 ∷ 0x0B ∷ 0x03 ∷ 0x73 ∷ 0x00 ∷ 0x83 ∷ 0x00 ∷ 0x0C
    ∷ 0x00 ∷ 0x0D ∷ 0x00 ∷ 0x08 ∷ 0x11 ∷ 0x1F ∷ 0x88 ∷ 0x89 ∷ 0x00 ∷ 0x0E ∷ 0xDC ∷ 0xCC ∷ 0x6E
    ∷ 0xE6 ∷ 0xDD ∷ 0xDD ∷ 0xD9 ∷ 0x99 ∷ 0xBB ∷ 0xBB ∷ 0x67 ∷ 0x63 ∷ 0x6E ∷ 0x0E ∷ 0xEC ∷ 0xCC
    ∷ 0xDD ∷ 0xDC ∷ 0x99 ∷ 0x9F ∷ 0xBB ∷ 0xB9 ∷ 0x33 ∷ 0x3E ∷ []

abbrev pub cart_logo_start_loc : ℕ
cart_logo_start_loc = 0x104

abbrev pub header_values_start : ℕ
header_values_start = 0x134

abbrev pub header_values_end : ℕ
header_values_end = 0x14D

-- The loop over the bitmap from its entry `i` on; `is_match` is the flag so far.
unfoldable pub match_logo : (bitmap : List ℕ) (i is_match : ℕ) → (logo : ℕ → ℕ) → ℕ
match_logo [] i is_match logo = is_match
match_logo (expected ∷ bitmap) i is_match logo =
    match_logo bitmap (i + 1) (if expected == logo i then is_match else 0) logo

-- The logo is read into the cartridge's header.
unfoldable pub check_logo : Stream → Header → ℕ × Header
check_logo fp header =
    let (logo, _) = fread header.nintendo_logo 0x30 (seek cart_logo_start_loc fp) in
    (match_logo nintendo_logo_bitmap 0 1 logo, record header { nintendo_logo = logo })

-- The loop that adds up the first `count` values.
unfoldable pub add_values : (count : ℕ) → (header_values : ℕ → ℕ) → ℕ
add_values zero header_values = 0
add_values (suc i) header_values = add_values i header_values + header_values i

-- `stack` is what the array holds before it is read. Only the lowest bit of the sum is tested.
unfoldable pub check_header_values : (stack : ℕ → ℕ) → Stream → ℕ
check_header_values stack fp =
    let header_values_size = header_values_end - header_values_start in
    let (header_values, _) = fread stack header_values_size (seek header_values_start fp) in
    let value_sum = add_values header_values_size header_values + 0x19 in
    if truthy (bit_and value_sum 1) then 0 else 1

-- `&&` leaves the header values unread where the logo does not match.
unfoldable pub validate_cart : (stack : ℕ → ℕ) → Option Buffer → Header → ℕ × Header
validate_cart stack none header = (0, header)
validate_cart stack (some file) header =
    let fp : Stream = record { file = file; position = 0 } in
    if ltb file.size 0x14F then (0, header) else (
      if truthy (check_logo fp header).0 && truthy (check_header_values stack fp) then 1 else 0,
      (check_logo fp header).1,
    )
