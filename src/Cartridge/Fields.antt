-- ===== src/Cartridge/Fields.antt =====
-- include/cartridge.h: `struct header`; src/cartridge.c: `setHeaderValues`.
pub mod Laws
use game_bloat.Prelude.{ℕ, ◌-◌, ltb, ◌==◌, if◌then◌else◌}
use game_bloat.Cartridge.File.{Stream, seek, fread, fread_byte}

pub record Header : Type 0 where
  pub entry_point : ℕ → ℕ
  pub nintendo_logo : ℕ → ℕ
  pub title : ℕ → ℕ
  pub new_licensee_code : ℕ → ℕ
  pub sgb_flag : ℕ
  pub cartridge_type : ℕ
  pub rom_size : ℕ
  pub ram_size : ℕ
  pub destination_code : ℕ
  pub old_licensee_code : ℕ
  pub mask_rom_version_number : ℕ
  pub header_checksum : ℕ
  pub global_checksum : ℕ → ℕ

abbrev pub header_start : ℕ
header_start = 0x100

-- The comments of the struct: the field and the place in it that an address stands for.
unfoldable pub header_byte : Header → (address : ℕ) → ℕ
header_byte h address =
    if ltb address 0x104
    then h.entry_point (address - 0x100)
    else if ltb address 0x134
    then h.nintendo_logo (address - 0x104)
    else if ltb address 0x144
    then h.title (address - 0x134)
    else if ltb address 0x146
    then h.new_licensee_code (address - 0x144)
    else if address == 0x146
    then h.sgb_flag
    else if address == 0x147
    then h.cartridge_type
    else if address == 0x148
    then h.rom_size
    else if address == 0x149
    then h.ram_size
    else if address == 0x14A
    then h.destination_code
    else if address == 0x14B
    then h.old_licensee_code
    else if address == 0x14C
    then h.mask_rom_version_number
    else if address == 0x14D
    then h.header_checksum
    else h.global_checksum (address - 0x14E)

unfoldable pub set_header_values : Header → Stream → Header × Stream
set_header_values h fp =
    let (entry_point, s1) = fread h.entry_point 0x04 (seek header_start fp) in
    let (nintendo_logo, s2) = fread h.nintendo_logo 0x30 s1 in
    let (title, s3) = fread h.title 0x10 s2 in
    let (new_licensee_code, s4) = fread h.new_licensee_code 0x02 s3 in
    let (sgb_flag, s5) = fread_byte h.sgb_flag s4 in
    let (cartridge_type, s6) = fread_byte h.cartridge_type s5 in
    let (rom_size, s7) = fread_byte h.rom_size s6 in
    let (ram_size, s8) = fread_byte h.ram_size s7 in
    let (destination_code, s9) = fread_byte h.destination_code s8 in
    let (old_licensee_code, s10) = fread_byte h.old_licensee_code s9 in
    let (mask_rom_version_number, s11) = fread_byte h.mask_rom_version_number s10 in
    let (header_checksum, s12) = fread_byte h.header_checksum s11 in
    let (global_checksum, s13) = fread h.global_checksum 0x02 s12 in
    (
      record {
        entry_point = entry_point;
        nintendo_logo = nintendo_logo;
        title = title;
        new_licensee_code = new_licensee_code;
        sgb_flag = sgb_flag;
        cartridge_type = cartridge_type;
        rom_size = rom_size;
        ram_size = ram_size;
        destination_code = destination_code;
        old_licensee_code = old_licensee_code;
        mask_rom_version_number = mask_rom_version_number;
        header_checksum = header_checksum;
        global_checksum = global_checksum;
      },
      s13,
    )
