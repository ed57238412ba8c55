-- ===== src/Mbc/Bank.antt =====
-- What the controllers share: the cartridge's two blocks and the bank shift.
use game_bloat.Prelude.{ℕ, Option, none, some, ltb, if◌then◌else◌, u32, ◌<<<◌}

-- `address << bank` on an `unsigned int`; a shift by 32 or more is undefined.
abbrev pub shift_bank : ℕ → ℕ → Option ℕ
shift_bank address bank = if ltb bank 32 then some (u32 (address <<< bank)) else none

infixl 5 ◌>>=◌
abbrev pub ◌>>=◌ {ℓ κ} : {A : Type ℓ} {B : Type κ} → Option A → (A → Option B) → Option B
none >>= f = none
some a >>= f = f a
