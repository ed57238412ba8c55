-- ===== src/Cartridge/Loaded.antt =====
-- src/cartridge.c: what a loaded cartridge holds, and what the CPU reads of it.
use game_bloat.Prelude.{
  ℕ, ◌+◌, ◌*◌, ◌^◌, ◌≤◌, ◌<◌, ◌%◌, ◌≡◌, ◌≢◌, Option, none, some, Bool, Bool-cases, inl, inr, true,
  false, refl, arith, ltb, lt→ltb, leb, ◌==◌, ◌&&◌, ◌||◌, truthy, if◌then◌else◌, ◌∙◌, ap, sym,
}
use game_bloat.Prelude.Buffer.{Buffer}
use game_bloat.Cartridge.File.{Stream, fread, Allocator}
use game_bloat.Cartridge.{
  Board, expected_rom_size, read_cart_rom_to_memory, ram_bytes, store_rom, store_ram, after,
  attach_ram, attach_controller, initialize_ram, set_controller, load_cartridge,
}
use game_bloat.Mbc.{Cartridge as Slot, set_mbc_type}
use game_bloat.Cartridge.Laws.{
  has_block, flag_allows, gets_ram, is_loadable, opened, with_header, header_fields,
  read_cart_rom_to_memory_lem, read_cart_rom_to_memory-status, initialize_ram-status,
  read_cart_rom_to_memory-header, initialize_ram-kept,
}
use game_bloat.Prelude.Bytes.{all_below, all_below_sound}
use mathlib.Core.Path.{subst}
use game_bloat.Mbc.{
  Controller, rom_only, mbc1, mbc2, mbc3, mbc4, mbc5, mbc_read_byte, read_controller,
}
use game_bloat.Mbc.RomOnly
use game_bloat.Mbc.Mbc1
use game_bloat.Mbc.Mbc3
use game_bloat.Machine.{Machine}
use game_bloat.Memory.{read_memory, read_cartridge}

-- What a loaded board holds of the file.
pub record IsLoaded (file : Buffer) (board : Board) : Type 0 where
  pub rom_size : board.slot.rom.size ≡ file.size
  pub rom_bytes : (i : ℕ) → i < file.size → board.slot.rom.cells i ≡ file.cells i
  pub controller : board.slot.controller ≡ (set_mbc_type (file.cells 0x147)).1
  pub ram_block :
      (size : ℕ)
      → ram_bytes (file.cells 0x149) ≡ some size
      → size ≢ 0
      → (board.slot.ram.size ≡ size) × ((i : ℕ) → board.slot.ram.cells i ≡ 0)

rom_branch-holds :
    (test : Bool) (block : Option (ℕ → ℕ)) (size : ℕ) (fp : Stream) (board : Board)
    → (test && has_block block) ≡ true
    → fp.position ≡ 0
    → let rom = (if test then store_rom block size fp board else (0, board)).1.slot.rom in
      (rom.size ≡ size) × ((i : ℕ) → i < size → i < fp.file.size → rom.cells i ≡ fp.file.cells i)
unfolding fread
rom_branch-holds test none size fp board got start = absurd (ground arith)
rom_branch-holds false (some fresh) size fp board got start = absurd (ground arith)
rom_branch-holds true (some fresh) size fp board got start =
    (refl, λ i inside there. rw start (ground arith))

after-passed :
    (first : ℕ × Board) (next : Board → ℕ × Board)
    → truthy first.0 ≡ true
    → after first next ≡ next first.1
after-passed (status, board) next passed = rw passed refl

attach_controller-functions :
    (kind : ℕ) (board : Board)
    → truthy (set_mbc_type kind).0 ≡ true
    → ((set_controller kind board).1.slot.controller ≡ (set_mbc_type kind).1)
      × ((set_controller kind board).1.slot.rom ≡ board.slot.rom)
      × ((set_controller kind board).1.slot.ram ≡ board.slot.ram)
unfolding set_controller set_mbc_type
attach_controller-functions kind board supported = ground arith

rom_holds :
    (malloc : Allocator) (file : Buffer) (board : Board)
    → 0x150 ≤ file.size
    → file.size < 2 ^ 32
    → (flag_allows (expected_rom_size (file.cells 0x148)) file.size && has_block (malloc file.size))
      ≡ true
    → let rom = (read_cart_rom_to_memory malloc (opened file) board).1.slot.rom in
      (rom.size ≡ file.size) × ((i : ℕ) → i < file.size → rom.cells i ≡ file.cells i)
rom_holds malloc file board complete small allowed =
    let (size, bytes) =
      rom_branch-holds (flag_allows (expected_rom_size (file.cells 0x148)) file.size)
        (malloc file.size) file.size (opened file) (with_header board (opened file)) allowed refl in
    rw (read_cart_rom_to_memory_lem malloc file board complete small)
      (size, λ i inside. bytes i inside inside)

zeroed_branch :
    (b : Bool) (block : Option (ℕ → ℕ)) (size : ℕ) (board : Board)
    → b ≡ false
    → (b || has_block block) ≡ true
    → let ram =
        (if if b then false else true then store_ram block size board else (1, board)).1.slot.ram in
      (ram.size ≡ size) × ((i : ℕ) → ram.cells i ≡ 0)
zeroed_branch true block size board nonzero got = absurd (ground arith)
zeroed_branch false none size board nonzero got = absurd (ground arith)
zeroed_branch false (some _) size board nonzero got = (refl, λ i. refl)

-- A RAM size of the header other than 0 gives a cleared block of that size.
initialize_ram-block :
    (malloc : Allocator) (flag : ℕ) (board : Board) (size : ℕ)
    → ram_bytes flag ≡ some size
    → size ≢ 0
    → gets_ram malloc (some size) ≡ true
    → let ram = (initialize_ram malloc flag board).1.slot.ram in
      (ram.size ≡ size) × ((i : ℕ) → ram.cells i ≡ 0)
unfolding initialize_ram
initialize_ram-block malloc flag board size known some_ram got =
    rw known (zeroed_branch (size == 0) (malloc size) size board (ground arith) got)

left_test : (a b : Bool) → (a && b) ≡ true → a ≡ true
left_test a b all = ground arith

split_tests : (a b c : Bool) → (a && (b && c)) ≡ true → (a ≡ true) × (b ≡ true) × (c ≡ true)
split_tests a b c all = ground arith

-- A loadable file leaves its bytes in the ROM and its controller behind `cartridge.mbc`.
pub load_cartridge-IsLoaded :
    (malloc : Allocator) (file : Buffer) (board : Board)
    → 0x150 ≤ file.size
    → file.size < 2 ^ 32
    → is_loadable malloc file ≡ true
    → IsLoaded file (load_cartridge malloc (some file) board).1
unfolding load_cartridge is_loadable
load_cartridge-IsLoaded malloc file board complete small loadable =
    let read = read_cart_rom_to_memory malloc (opened file) board in
    let (kind, _, memory) = header_fields board.header (opened file) complete in
    let header = read_cart_rom_to_memory-header malloc (opened file) board in
    let (has_rom, has_ram, supported) = split_tests _ _ _ loadable in
    let (size, bytes) = rom_holds malloc file board complete small has_rom in
    let ready = initialize_ram malloc read.1.header.ram_size read.1 in
    let (kept, rom) = initialize_ram-kept malloc read.1.header.ram_size read.1 in
    let type : ready.1.header.cartridge_type ≡ file.cells 0x147 =
      ap (λ x. x.cartridge_type) (kept ∙ header) ∙ kind in
    let first =
      after-passed read (attach_ram malloc)
        (read_cart_rom_to_memory-status malloc file board complete small ∙ has_rom) in
    let second = after-passed ready attach_controller (
      initialize_ram-status malloc read.1.header.ram_size read.1
      ∙ ap (λ x. gets_ram malloc (ram_bytes x)) (ap (λ x. x.ram_size) header ∙ memory)
      ∙ has_ram) in
    let (controller, same, same_ram) =
      attach_controller-functions _ ready.1
        (ap (λ x. truthy (set_mbc_type x).0) type ∙ supported) in
    subst (λ x. IsLoaded file x.1) (sym (first ∙ second))
      (record {
        rom_size = ap (λ x. x.size) (same ∙ rom) ∙ size;
        rom_bytes = λ i inside. ap (λ x. x.cells i) (same ∙ rom) ∙ bytes i inside;
        controller = controller ∙ ap (λ x. (set_mbc_type x).1) type;
        ram_block = λ size flag some_ram. rw same_ram (
            initialize_ram-block malloc read.1.header.ram_size read.1 size
              (ap (λ x. ram_bytes x.ram_size) header ∙ ap ram_bytes memory ∙ flag) some_ram
              (ap (gets_ram malloc) (sym flag) ∙ has_ram));
      })

shift_table :
    all_below 8 (λ flag. leb 0x8000 (1 * 2 ^ (15 + flag)) && ltb (1 * 2 ^ (15 + flag)) (2 ^ 32))
    ≡ true
unfolding all_below
shift_table = refl

-- A ROM size flag stands for 32 KiB at least.
flag_allows-bounds :
    (flag size : ℕ)
    → flag_allows (expected_rom_size flag) size ≡ true
    → (0x8000 ≤ size) × (size < 2 ^ 32)
unfolding expected_rom_size
flag_allows-bounds flag size allowed =
    let table = all_below_sound 8 _ flag shift_table in ground (arith, table)

pub is_loadable-bounds :
    (malloc : Allocator) (file : Buffer)
    → is_loadable malloc file ≡ true
    → (0x8000 ≤ file.size) × (file.size < 2 ^ 32)
unfolding is_loadable
is_loadable-bounds malloc file loadable =
    let flag : flag_allows (expected_rom_size (file.cells 0x148)) file.size ≡ true =
      left_test _ _ (left_test _ _ loadable) in
    flag_allows-bounds (file.cells 0x148) file.size flag

-- `mbc1` and `mbc3` read the first bank as the cartridge without a controller does.
unfoldable first_bank : Controller → Bool
first_bank rom_only = true
first_bank mbc1 = true
first_bank mbc3 = true
first_bank _ = false

read_first_bank :
    (k : Controller) (c : Slot) (address : ℕ)
    → first_bank k ≡ true
    → address < 0x4000
    → address < c.rom.size
    → read_controller k c address ≡ some (c.rom.cells address)
unfolding first_bank read_controller RomOnly.read_byte Mbc1.read_byte Mbc3.read_byte
read_first_bank rom_only c address reads low inside = ground arith
read_first_bank mbc1 c address reads low inside = ground arith
read_first_bank mbc3 c address reads low inside = ground arith
read_first_bank mbc2 c address reads low inside = absurd (ground arith)
read_first_bank mbc4 c address reads low inside = absurd (ground arith)
read_first_bank mbc5 c address reads low inside = absurd (ground arith)

unfoldable pub has_reader : ℕ → Bool
has_reader kind = leb kind 0x03 || (leb 0x0F kind && leb kind 0x13)

reader-first_bank :
    (kind : ℕ)
    → has_reader kind ≡ true
    → (k : Controller) × ((set_mbc_type kind).1 ≡ some k) × (first_bank k ≡ true)
unfolding has_reader set_mbc_type first_bank
reader-first_bank kind reads = elim (Bool-cases (kind == 0)) [
  | inl zero_kind ↦ (rom_only, ground arith, refl)
  | inr other ↦ elim (Bool-cases (leb kind 0x03)) [
    | inl low ↦ (mbc1, ground arith, refl)
    | inr high ↦ (mbc3, ground arith, refl)
  ]
]

read_slot :
    (m : Machine) (c : Slot) (k : Controller) (address value : ℕ)
    → c.controller ≡ some k
    → read_controller k c address ≡ some value
    → value < 256
    → address < 0x8000
    → read_memory (record m { cartridge = c }) address ≡ some value
unfolding read_memory read_cartridge mbc_read_byte
read_slot m c k address value reader read byte low =
    let below = lt→ltb address 0x8000 low in
    let same : value % 2 ^ 8 ≡ value = omega arith in ground (arith, below, reader, read, same)

-- The first bank of a file that loads is what the CPU reads below 0x4000, where its type has a
-- controller that reads: none, MBC1 or MBC3.
pub load_cartridge-read_memory :
    (malloc : Allocator) (file : Buffer) (board : Board) (m : Machine) (address : ℕ)
    → is_loadable malloc file ≡ true
    → has_reader (file.cells 0x147) ≡ true
    → file.cells address < 256
    → address < 0x4000
    → read_memory
        (record m { cartridge = (load_cartridge malloc (some file) board).1.slot })
        address
      ≡ some (file.cells address)
load_cartridge-read_memory malloc file board m address loadable reads byte low =
    let (large, small) = is_loadable-bounds malloc file loadable in
    let loaded = load_cartridge-IsLoaded malloc file board (omega arith) small loadable in
    let (k, set, first) = reader-first_bank (file.cells 0x147) reads in
    let board' = (load_cartridge malloc (some file) board).1 in
    let read = read_first_bank k board'.slot address first low (rw loaded.rom_size (omega arith)) in
    read_slot m board'.slot k address _ (loaded.controller ∙ set)
      (read ∙ ap some (loaded.rom_bytes address (omega arith))) byte (omega arith)
