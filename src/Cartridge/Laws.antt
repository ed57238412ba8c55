-- ===== src/Cartridge/Laws.antt =====
-- src/cartridge.c: when a cartridge loads, and what it then holds.
use game_bloat.Prelude.{
  ℕ, ◌^◌, ◌≤◌, ◌<◌, ◌%◌, ◌≡◌, Option, none, some, Bool, true, false, refl, arith, ◌==◌, ◌&&◌, ◌||◌,
  truthy, if◌then◌else◌, ◌∙◌, ap,
}
use game_bloat.Prelude.Buffer.{Buffer}
use game_bloat.Cartridge.File.{Stream, Allocator}
use game_bloat.Cartridge.Fields.{Header, header_byte, set_header_values}
use game_bloat.Cartridge.Fields.Laws.{set_header_values_lem, set_header_values-file}
use game_bloat.Cartridge.{
  Board, get_cart_size, expected_rom_size, validate_cart_size, read_cart_rom_to_memory, ram_bytes,
  store_rom, store_ram, allocate_ram, after, attach_ram, attach_controller, initialize_ram,
  set_controller, load_cartridge,
}
use game_bloat.Mbc.{set_mbc_type}

abbrev pub has_block : Option (ℕ → ℕ) → Bool
has_block none = false
has_block (some _) = true

abbrev pub flag_allows : Option ℕ → ℕ → Bool
flag_allows none size = false
flag_allows (some expected) size = expected == size

abbrev pub gets_ram : Allocator → Option ℕ → Bool
gets_ram malloc none = false
gets_ram malloc (some size) = size == 0 || has_block (malloc size)

-- What a file must be for it to load: its size is the one that its byte 0x148 stands for, there is
-- memory for it, and the bytes 0x149 and 0x147 name a RAM size and a controller.
unfoldable pub is_loadable : Allocator → Buffer → Bool
is_loadable malloc file =
    (flag_allows (expected_rom_size (file.cells 0x148)) file.size && has_block (malloc file.size))
    && (gets_ram malloc (ram_bytes (file.cells 0x149))
        && truthy (set_mbc_type (file.cells 0x147)).0)

-- The fields of a complete header that the loader reads.
pub header_fields :
    (h : Header) (fp : Stream)
    → 0x150 ≤ fp.file.size
    → let read = (set_header_values h fp).0 in
      (read.cartridge_type ≡ fp.file.cells 0x147)
      × (read.rom_size ≡ fp.file.cells 0x148)
      × (read.ram_size ≡ fp.file.cells 0x149)
unfolding header_byte
header_fields h fp complete =
    let c = set_header_values_lem h fp 0x147 (omega arith) (omega arith) in
    let r = set_header_values_lem h fp 0x148 (omega arith) (omega arith) in
    let w = set_header_values_lem h fp 0x149 (omega arith) (omega arith) in ground arith

abbrev pub opened : Buffer → Stream
opened file = record { file = file; position = 0 }

-- The status of each part, as a test.
validate_cart_size_lem :
    (h : Header) (cart_size : ℕ)
    → truthy (validate_cart_size h cart_size) ≡ flag_allows (expected_rom_size h.rom_size) cart_size
unfolding validate_cart_size
validate_cart_size_lem h cart_size =
    elim (expected_rom_size h.rom_size)
      as (λ e.
        truthy (elim e [ none ↦ 0 | some expected ↦ if expected == cart_size then 1 else 0 ])
        ≡ flag_allows e cart_size) [ none ↦ refl | some expected ↦ ground arith ]

truthy_branch :
    (b : Bool) (block : Option (ℕ → ℕ)) (size : ℕ) (fp : Stream) (board : Board)
    → truthy (if b then store_rom block size fp board else (0, board)).0 ≡ (b && has_block block)
truthy_branch false block size fp board = refl
truthy_branch true none size fp board = refl
truthy_branch true (some _) size fp board = refl

abbrev pub with_header : Board → Stream → Board
with_header board fp = record board { header = (set_header_values board.header fp).0 }

-- The size check and the file's own size, in place of the copies in the header.
pub read_cart_rom_to_memory_lem :
    (malloc : Allocator) (file : Buffer) (board : Board)
    → 0x150 ≤ file.size
    → file.size < 2 ^ 32
    → read_cart_rom_to_memory malloc (opened file) board ≡ (
        if flag_allows (expected_rom_size (file.cells 0x148)) file.size
        then store_rom (malloc file.size) file.size (opened file) (with_header board (opened file))
        else (0, with_header board (opened file)))
unfolding read_cart_rom_to_memory get_cart_size
read_cart_rom_to_memory_lem malloc file board complete small =
    let (_, flag, _) = header_fields board.header (opened file) complete in
    let same = set_header_values-file board.header (opened file) in
    let fits : file.size % 2 ^ 32 ≡ file.size = omega arith in
    let checked =
      validate_cart_size_lem (set_header_values board.header (opened file)).0 file.size in
    rw (same, fits)
      (ap
        (λ b.
          if b
          then store_rom (malloc file.size) file.size (opened file)
              (with_header board (opened file))
          else (0, with_header board (opened file)))
        (checked ∙ ap (λ x. flag_allows (expected_rom_size x) file.size) flag))

pub read_cart_rom_to_memory-status :
    (malloc : Allocator) (file : Buffer) (board : Board)
    → 0x150 ≤ file.size
    → file.size < 2 ^ 32
    → truthy (read_cart_rom_to_memory malloc (opened file) board).0 ≡ (
        flag_allows (expected_rom_size (file.cells 0x148)) file.size
        && has_block (malloc file.size))
read_cart_rom_to_memory-status malloc file board complete small =
    ap (λ x. truthy x.0) (read_cart_rom_to_memory_lem malloc file board complete small)
    ∙ truthy_branch _ (malloc file.size) file.size (opened file) (with_header board (opened file))

allocated_branch :
    (b : Bool) (block : Option (ℕ → ℕ)) (size : ℕ) (board : Board)
    → truthy (if if b then false else true then store_ram block size board else (1, board)).0
      ≡ (b || has_block block)
allocated_branch true block size board = refl
allocated_branch false none size board = refl
allocated_branch false (some _) size board = refl

pub initialize_ram-status :
    (malloc : Allocator) (flag : ℕ) (board : Board)
    → truthy (initialize_ram malloc flag board).0 ≡ gets_ram malloc (ram_bytes flag)
unfolding initialize_ram
initialize_ram-status malloc flag board =
    elim (ram_bytes flag)
      as (λ size. truthy (allocate_ram malloc size board).0 ≡ gets_ram malloc size) [
        | none ↦ refl
        | some size ↦ allocated_branch (size == 0) (malloc size) size board
      ]

-- The header survives the calls behind `setHeaderValues`.
pub read_cart_rom_to_memory-header :
    (malloc : Allocator) (fp : Stream) (board : Board)
    → (read_cart_rom_to_memory malloc fp board).1.header ≡ (set_header_values board.header fp).0
unfolding read_cart_rom_to_memory
read_cart_rom_to_memory-header malloc fp board = ground arith

pub initialize_ram-kept :
    (malloc : Allocator) (flag : ℕ) (board : Board)
    → let kept = (initialize_ram malloc flag board).1 in
      (kept.header ≡ board.header) × (kept.slot.rom ≡ board.slot.rom)
unfolding initialize_ram
initialize_ram-kept malloc flag board = ground arith

set_mbc_type-bit :
    (kind : ℕ) → (set_mbc_type kind).0 ≡ (if truthy (set_mbc_type kind).0 then 1 else 0)
unfolding set_mbc_type
set_mbc_type-bit kind = ground arith

after-status :
    (first : ℕ × Board) (next : Board → ℕ × Board) (test rest : Bool)
    → truthy first.0 ≡ test
    → (next first.1).0 ≡ (if rest then 1 else 0)
    → (after first next).0 ≡ (if test && rest then 1 else 0)
after-status (status, board) next test rest passed behind = ground arith

attach_ram-status :
    (malloc : Allocator) (flag kind : ℕ) (board : Board)
    → board.header.ram_size ≡ flag
    → board.header.cartridge_type ≡ kind
    → (attach_ram malloc board).0
      ≡ (if gets_ram malloc (ram_bytes flag) && truthy (set_mbc_type kind).0 then 1 else 0)
unfolding set_controller
attach_ram-status malloc flag kind board memory controller =
    let (same, _) = initialize_ram-kept malloc board.header.ram_size board in
    after-status (initialize_ram malloc board.header.ram_size board) attach_controller
      (gets_ram malloc (ram_bytes flag)) (truthy (set_mbc_type kind).0)
      (initialize_ram-status malloc board.header.ram_size board
        ∙ ap (λ x. gets_ram malloc (ram_bytes x)) memory)
      (rw (same, controller) (set_mbc_type-bit kind))

-- A complete file loads exactly when it is loadable; otherwise the status is 0.
pub load_cartridge-loadable :
    (malloc : Allocator) (file : Buffer) (board : Board)
    → 0x150 ≤ file.size
    → file.size < 2 ^ 32
    → (load_cartridge malloc (some file) board).0 ≡ (if is_loadable malloc file then 1 else 0)
unfolding load_cartridge is_loadable
load_cartridge-loadable malloc file board complete small =
    let (kind, _, memory) = header_fields board.header (opened file) complete in
    let header = read_cart_rom_to_memory-header malloc (opened file) board in
    after-status (read_cart_rom_to_memory malloc (opened file) board) (attach_ram malloc) _ _
      (read_cart_rom_to_memory-status malloc file board complete small)
      (attach_ram-status malloc _ _ (read_cart_rom_to_memory malloc (opened file) board).1
        (ap (λ x. x.ram_size) header ∙ memory) (ap (λ x. x.cartridge_type) header ∙ kind))
