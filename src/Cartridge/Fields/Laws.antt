-- ===== src/Cartridge/Fields/Laws.antt =====
-- src/cartridge.c: `setHeaderValues` reads each field from its documented address.
use game_bloat.Prelude.{ℕ, ◌+◌, ◌-◌, ◌≤◌, ◌<◌, ◌≡◌, refl, arith, ltb, if◌then◌else◌}
use game_bloat.Prelude.Buffer.{Buffer}
use game_bloat.Cartridge.File.{Stream, read_end, fread, fread_byte}
use game_bloat.Cartridge.Fields.{Header, header_byte, set_header_values}

-- The position of a stream that has asked for every byte from the header's start to `address`.
reached : (size address : ℕ) → ℕ
reached size address = if ltb size 0x100 then 0x100 else if ltb size address then size else address

opened : Buffer → ℕ → Stream
opened file address = record { file = file; position = reached (file.size) address }

opened-start : (fp : Stream) → record fp { position = 0x100 } ≡ opened fp.file 0x100
unfolding opened reached
opened-start fp = ground arith

-- One field of a header that has been read up to `address`.
fread-reached :
    (target : ℕ → ℕ) (count address : ℕ) (file : Buffer) (s : Stream)
    → 0x100 ≤ address
    → s ≡ opened file address
    → ((i : ℕ)
        → i < count
        → (fread target count s).0 i
          ≡ (if ltb (address + i) file.size then file.cells (address + i) else target i))
      × ((fread target count s).1 ≡ opened file (address + count))
unfolding fread read_end opened reached
fread-reached target count address file s late here =
    rw here ((λ i small. ground arith), ground arith)

fread_byte-reached :
    (target address : ℕ) (file : Buffer) (s : Stream)
    → 0x100 ≤ address
    → s ≡ opened file address
    → ((fread_byte target s).0 ≡ (if ltb address file.size then file.cells address else target))
      × ((fread_byte target s).1 ≡ opened file (address + 1))
unfolding fread read_end fread_byte opened reached
fread_byte-reached target address file s late here = rw here (ground arith, ground arith)

-- Reading the header sets each byte of it to the byte of the file at its documented address; the
-- bytes that a short file lacks stay as they were.
pub set_header_values_lem :
    (h : Header) (fp : Stream) (address : ℕ)
    → 0x100 ≤ address
    → address < 0x150
    → header_byte (set_header_values h fp).0 address
      ≡ (if ltb address fp.file.size then fp.file.cells address else header_byte h address)
unfolding set_header_values header_byte
set_header_values_lem h fp address low high =
    let (c1, e1) =
      fread-reached h.entry_point 0x04 0x100 fp.file _ (omega arith) (opened-start fp) in
    let (c2, e2) = fread-reached h.nintendo_logo 0x30 0x104 fp.file _ (omega arith) e1 in
    let (c3, e3) = fread-reached h.title 0x10 0x134 fp.file _ (omega arith) e2 in
    let (c4, e4) = fread-reached h.new_licensee_code 0x02 0x144 fp.file _ (omega arith) e3 in
    let (c5, e5) = fread_byte-reached h.sgb_flag 0x146 fp.file _ (omega arith) e4 in
    let (c6, e6) = fread_byte-reached h.cartridge_type 0x147 fp.file _ (omega arith) e5 in
    let (c7, e7) = fread_byte-reached h.rom_size 0x148 fp.file _ (omega arith) e6 in
    let (c8, e8) = fread_byte-reached h.ram_size 0x149 fp.file _ (omega arith) e7 in
    let (c9, e9) = fread_byte-reached h.destination_code 0x14A fp.file _ (omega arith) e8 in
    let (c10, e10) = fread_byte-reached h.old_licensee_code 0x14B fp.file _ (omega arith) e9 in
    let (c11, e11) =
      fread_byte-reached h.mask_rom_version_number 0x14C fp.file _ (omega arith) e10 in
    let (c12, e12) = fread_byte-reached h.header_checksum 0x14D fp.file _ (omega arith) e11 in
    let (c13, _) = fread-reached h.global_checksum 0x02 0x14E fp.file _ (omega arith) e12 in
    ground (
      arith,
      c1 (address - 0x100),
      c2 (address - 0x104),
      c3 (address - 0x134),
      c4 (address - 0x144),
      c13 (address - 0x14E),
    )

pub set_header_values-file : (h : Header) (fp : Stream) → (set_header_values h fp).1.file ≡ fp.file
unfolding set_header_values fread fread_byte
set_header_values-file h fp = refl
