-- ===== src/Cartridge.antt =====
-- src/cartridge.c: the cartridge's header, ROM and RAM, read from a file.
pub mod File
pub mod Fields
pub mod Laws
pub mod Supported
pub mod Loaded
use game_bloat.Prelude.{
  ℕ, ◌+◌, ◌*◌, ◌^◌, Option, none, some, Bool, false, true, ltb, leb, ◌==◌, ◌&&◌, if◌then◌else◌, u32,
  truthy, ◌<<<◌,
}
use game_bloat.Prelude.Buffer.{Buffer}
use game_bloat.Cartridge.File.{Stream, seek, fread, Allocator, null}
use game_bloat.Cartridge.Fields.{Header, set_header_values}
use game_bloat.Mbc.{Cartridge as Slot, Controller, set_mbc_type}

-- `cartridge` and `MBC`: the header, the functions that `MBC` points to, whether `cartridge.mbc`
-- is `&MBC` rather than NULL, and what the controllers see of the cartridge.
pub record Board : Type 0 where
  pub header : Header
  pub functions : Option Controller
  pub attached : Bool
  pub slot : Slot

-- What a call through `cartridge.mbc` reaches.
abbrev pub connected : Bool → Option Controller → Option Controller
connected attached functions = if attached then functions else none

-- The size of the file, as an `unsigned int`, and the stream at its start.
unfoldable pub get_cart_size : Stream → ℕ × Stream
get_cart_size fp = (u32 fp.file.size, seek 0 fp)

-- The size that a ROM size flag stands for; the `default` of the inner `switch` is out of reach.
unfoldable pub expected_rom_size : (rom_size : ℕ) → Option ℕ
expected_rom_size rom_size =
    if ltb rom_size 0x08
    then some (1 <<< (15 + rom_size))
    else if leb 0x52 rom_size && leb rom_size 0x54
    then (if rom_size == 0x52
        then some 0x120000
        else if rom_size == 0x53
        then some 0x140000
        else some 0x180000)
    else none

unfoldable pub validate_cart_size : Header → (cart_size : ℕ) → ℕ
unfolding expected_rom_size
validate_cart_size h cart_size = elim (expected_rom_size h.rom_size) [
  | none ↦ 0
  | some expected ↦ if expected == cart_size then 1 else 0
]

-- What `malloc` gives for the ROM: a NULL pointer, or a block that `fread` fills.
abbrev pub store_rom : Option (ℕ → ℕ) → (cart_size : ℕ) → Stream → Board → ℕ × Board
store_rom none cart_size fp board = (0, record board { slot = record (board.slot) { rom = null } })
store_rom (some fresh) cart_size fp board =
    let rom : Buffer = record { size = cart_size; cells = (fread fresh cart_size fp).0 } in
    (1, record board { slot = record (board.slot) { rom = rom } })

-- The status, and the board with its header and its ROM.
unfoldable pub read_cart_rom_to_memory : Allocator → Stream → Board → ℕ × Board
unfolding set_header_values get_cart_size validate_cart_size
read_cart_rom_to_memory malloc fp board =
    let (header, fp1) = set_header_values board.header fp in
    let (cart_size, fp2) = get_cart_size fp1 in
    let board1 = record board { header = header } in
    if truthy (validate_cart_size header cart_size)
    then store_rom (malloc cart_size) cart_size fp2 board1
    else (0, board1)

-- The size of the RAM; `RAM_8KB` has no case.
unfoldable pub ram_bytes : (cart_ram_size : ℕ) → Option ℕ
ram_bytes cart_ram_size =
    if cart_ram_size == 0x00
    then some 0
    else if cart_ram_size == 0x01
    then some (1024 * 2)
    else if cart_ram_size == 0x03
    then some (1024 * 32)
    else none

-- What `malloc` gives for the RAM; `memset` clears a block.
abbrev pub store_ram : Option (ℕ → ℕ) → (ram_size : ℕ) → Board → ℕ × Board
store_ram none ram_size board = (0, record board { slot = record (board.slot) { ram = null } })
store_ram (some _) ram_size board =
    let ram : Buffer = record { size = ram_size; cells = λ _. 0 } in
    (1, record board { slot = record (board.slot) { ram = ram } })

-- A cartridge without RAM leaves the pointer as it was.
abbrev pub allocate_ram : Allocator → Option ℕ → Board → ℕ × Board
allocate_ram malloc none board = (0, board)
allocate_ram malloc (some ram_size) board =
    if truthy ram_size then store_ram (malloc ram_size) ram_size board else (1, board)

unfoldable pub initialize_ram : Allocator → (cart_ram_size : ℕ) → Board → ℕ × Board
unfolding ram_bytes
initialize_ram malloc cart_ram_size board = allocate_ram malloc (ram_bytes cart_ram_size) board

-- The functions of `MBC` behind the assignments of `setMBCType`.
abbrev assigned : Option Controller → Option Controller → Option Controller
assigned none functions = functions
assigned (some k) functions = some k

-- `setMBCType` with the assignment of `cartridge.mbc` behind it.
unfoldable pub set_controller : (cartridge_type : ℕ) → Board → ℕ × Board
set_controller cartridge_type board =
    let (status, set) = set_mbc_type cartridge_type in
    let functions = assigned set board.functions in
    let attached = if truthy status then true else board.attached in
    (
      status,
      record board {
        functions = functions;
        attached = attached;
        slot = record (board.slot) { controller = connected attached functions };
      },
    )

-- The rest of `loadCartridge` behind each status.
abbrev pub after : ℕ × Board → (Board → ℕ × Board) → ℕ × Board
after (status, board) next = if truthy status then next board else (0, board)

abbrev pub attach_controller : Board → ℕ × Board
attach_controller board = set_controller board.header.cartridge_type board

abbrev pub attach_ram : Allocator → Board → ℕ × Board
attach_ram malloc board =
    after (initialize_ram malloc board.header.ram_size board) attach_controller

-- The file is `none` where `fopen` fails.
unfoldable pub load_cartridge : Allocator → Option Buffer → Board → ℕ × Board
unfolding read_cart_rom_to_memory initialize_ram set_controller
load_cartridge malloc none board = (0, board)
load_cartridge malloc (some file) board =
    let fp : Stream = record { file = file; position = 0 } in
    after (read_cart_rom_to_memory malloc fp board) (attach_ram malloc)
