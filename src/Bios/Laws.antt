-- ===== src/Bios/Laws.antt =====
-- src/bios.c: which files the checks accept.
use game_bloat.Prelude.{
  ℕ, zero, suc, ◌+◌, ◌*◌, ◌%◌, ◌≤◌, ◌<◌, ◌≡◌, ◌↔◌, some, List, [], ◌∷◌, Bool, true, false,
  Bool-cases, ==_iff, inl, inr, sym, refl, arith, ltb, ◌==◌, ◌&&◌, if◌then◌else◌, truthy, bit_and,
  ap, ◌∙◌,
}
use mathlib.Core.Path.{subst}
use game_bloat.Prelude.Buffer.{Buffer}
use game_bloat.Prelude.Bytes.{all_below, all_below_sound}
use game_bloat.Cartridge.File.{Stream, fread}
use game_bloat.Cartridge.Fields.{Header}
use game_bloat.Bios.{
  nintendo_logo_bitmap, match_logo, check_logo, add_values, check_header_values, validate_cart,
}

-- The bytes from an address on are those of the list.
unfoldable pub HasBytes : (cells : ℕ → ℕ) (address : ℕ) → List ℕ → Type 0
HasBytes cells address [] = Unit {0}
HasBytes cells address (expected ∷ rest) =
    (cells address ≡ expected) × HasBytes cells (address + 1) rest

match_logo-none : (bitmap : List ℕ) (i : ℕ) (logo : ℕ → ℕ) → match_logo bitmap i 0 logo ≡ 0
unfolding match_logo
match_logo-none [] i logo = refl
match_logo-none (expected ∷ bitmap) i logo = ground (arith, match_logo-none bitmap (i + 1) logo)

match_logo_lem :
    (bitmap : List ℕ) (i : ℕ) (logo : ℕ → ℕ)
    → (truthy (match_logo bitmap i 1 logo) ≡ true) ↔ HasBytes logo i bitmap
unfolding match_logo HasBytes
match_logo_lem [] i logo = ((λ _. tt), λ _. refl)
match_logo_lem (expected ∷ bitmap) i logo =
    let (to, from) = match_logo_lem bitmap (i + 1) logo in
    let failed = match_logo-none bitmap (i + 1) logo in
    elim (Bool-cases (expected == logo i)) [
      | inl same ↦ rw same ((λ matched. (sym ((==_iff _ _).0 same), to matched)), λ has. from has.1)
      | inr other ↦ rw other (
        (λ matched. absurd (ground (arith, failed, matched))),
        λ has. absurd (ground (arith, has.0)),
      )
    ]

parity_table : all_below 0x2000 (λ x. (bit_and x 1 == x % 2)) ≡ true
unfolding all_below
parity_table = refl

add_values-bound :
    (count : ℕ) (values : ℕ → ℕ)
    → ((i : ℕ) → values i < 256)
    → add_values count values ≤ count * 255
unfolding add_values
add_values-bound zero values bytes = omega arith
add_values-bound (suc i) values bytes =
    let below = add_values-bound i values bytes in let last = bytes i in omega arith

add_values-same :
    (count : ℕ) (values others : ℕ → ℕ)
    → ((i : ℕ) → i < count → values i ≡ others i)
    → add_values count values ≡ add_values count others
unfolding add_values
add_values-same zero values others same = refl
add_values-same (suc i) values others same =
    let below = add_values-same i values others (λ j small. same j (omega arith)) in
    let last = same i (omega arith) in omega arith

unfoldable length : List ℕ → ℕ
length [] = 0
length (x ∷ xs) = suc (length xs)

match_logo-same :
    (bitmap : List ℕ) (i is_match : ℕ) (logo others : ℕ → ℕ)
    → ((j : ℕ) → j < i + length bitmap → logo j ≡ others j)
    → match_logo bitmap i is_match logo ≡ match_logo bitmap i is_match others
unfolding match_logo length
match_logo-same [] i is_match logo others same = refl
match_logo-same (expected ∷ bitmap) i is_match logo others same =
    let here = same i (omega arith) in
    rw here (
      match_logo-same bitmap (i + 1) (if expected == others i then is_match else 0) logo others
        (λ j below. same j (omega arith)))

abbrev opened : Buffer → Stream
opened file = record { file = file; position = 0 }

-- The bytes at 0x104 to 0x133 are the logo.
unfoldable pub HasLogo : Buffer → Type 0
HasLogo file = HasBytes (λ i. file.cells (0x104 + i)) 0 nintendo_logo_bitmap

-- The sum of so many bytes from an address on.
unfoldable pub total_from : (cells : ℕ → ℕ) (first many : ℕ) → ℕ
total_from cells first zero = 0
total_from cells first (suc many) = cells first + total_from cells (first + 1) many

-- The sum of the bytes at 0x134 to 0x14C.
unfoldable pub header_sum : Buffer → ℕ
header_sum file = total_from file.cells 0x134 0x19

total_from-last :
    (cells : ℕ → ℕ) (first many : ℕ)
    → total_from cells first (suc many) ≡ total_from cells first many + cells (first + many)
unfolding total_from
total_from-last cells first zero =
    let same : first + 0 ≡ first = omega arith in rw same (omega arith)
total_from-last cells first (suc many) =
    let rest = total_from-last cells (first + 1) many in
    let same : first + 1 + many ≡ first + suc many = omega arith in
    let rest' =
      subst
        (λ x. total_from cells (first + 1) (suc many) ≡ total_from cells (first + 1) many + cells x)
        same rest in
    omega arith

add_values-total_from :
    (cells : ℕ → ℕ) (first many : ℕ)
    → add_values many (λ i. cells (first + i)) ≡ total_from cells first many
unfolding add_values total_from
add_values-total_from cells first zero = refl
add_values-total_from cells first (suc many) =
    let before = add_values-total_from cells first many in
    let last = total_from-last cells first many in omega arith

check_logo_lem :
    (file : Buffer) (header : Header)
    → 0x14F ≤ file.size
    → (truthy (check_logo (opened file) header).0 ≡ true) ↔ HasLogo file
unfolding check_logo fread length HasLogo
check_logo_lem file header complete =
    let same =
      match_logo-same nintendo_logo_bitmap 0 1
        (λ i.
          if ltb i 0x30 && ltb (0x104 + i) file.size
          then file.cells (0x104 + i)
          else header.nintendo_logo i)
        (λ i. file.cells (0x104 + i)) (λ j below. ground arith) in
    rw same (match_logo_lem nintendo_logo_bitmap 0 (λ i. file.cells (0x104 + i)))

low_bit_test :
    (sum : ℕ) → sum < 0x2000 → truthy (if truthy (bit_and sum 1) then 0 else 1) ≡ (sum % 2 == 0)
low_bit_test sum small =
    let parity = all_below_sound 0x2000 _ sum parity_table small in ground (arith, parity)

check_header_values_lem :
    (stack : ℕ → ℕ) (file : Buffer)
    → 0x14F ≤ file.size
    → ((i : ℕ) → file.cells i < 256)
    → truthy (check_header_values stack (opened file)) ≡ ((header_sum file + 0x19) % 2 == 0)
unfolding check_header_values fread header_sum
check_header_values_lem stack file complete bytes =
    let same =
      add_values-same 0x19
        (λ i. if ltb i 0x19 && ltb (0x134 + i) file.size then file.cells (0x134 + i) else stack i)
        (λ i. file.cells (0x134 + i)) (λ i small. ground arith) in
    let bound = add_values-bound 0x19 (λ i. file.cells (0x134 + i)) (λ i. bytes (0x134 + i)) in
    let total = add_values-total_from file.cells 0x134 0x19 in
    ap (λ s. truthy (if truthy (bit_and (s + 0x19) 1) then 0 else 1)) (same ∙ total)
    ∙ low_bit_test (header_sum file + 0x19) (omega (arith, total))

abbrev verdict : Bool → (logo values : ℕ) → (header read : Header) → ℕ × Header
verdict short logo values header read =
    if short then (0, header) else (if truthy logo && truthy values then 1 else 0, read)

accepted :
    (short : Bool) (logo values : ℕ) (header read : Header)
    → ((verdict short logo values header read).0 ≡ 1)
      ↔ ((short ≡ false) × (truthy logo ≡ true) × (truthy values ≡ true))
accepted short logo values header read = (λ ok. ground arith, λ (long, l, v). ground arith)

-- A file is accepted exactly when it has at least 0x14F bytes, the logo, and a sum of its bytes at 0x134 to 0x14C
-- that, with 25 added, is even.
pub validate_cart_lem :
    (stack : ℕ → ℕ) (file : Buffer) (header : Header)
    → ((i : ℕ) → file.cells i < 256)
    → ((validate_cart stack (some file) header).0 ≡ 1)
      ↔ ((0x14F ≤ file.size) × HasLogo file × ((header_sum file + 0x19) % 2 ≡ 0))
unfolding validate_cart
validate_cart_lem stack file header bytes =
    let (to, from) =
      accepted (ltb file.size 0x14F) (check_logo (opened file) header).0
        (check_header_values stack (opened file)) header (check_logo (opened file) header).1 in
    (
      (λ ok.
          let (long, logo, values) = to ok in
          let complete : 0x14F ≤ file.size = ground arith in
          (
            complete,
            (check_logo_lem file header complete).0 logo,
            (==_iff _ _).0 (sym (check_header_values_lem stack file complete bytes) ∙ values),
          )),
      λ (complete, logo, sum). from (
        ground arith,
        (check_logo_lem file header complete).1 logo,
        check_header_values_lem stack file complete bytes ∙ (==_iff _ _).1 sum,
      ),
    )
