-- ===== src/Logger/Printf.antt =====
-- The texts of src/logger.c and src/utils.c: the bytes in front of the terminating zero. `snprintf`
-- gives the length of the whole text, and what fits into a buffer with its terminating zero.
use game_bloat.Prelude.{ℕ, zero, suc, ◌+◌, ◌-◌, ◌≤◌, ◌<◌, ◌≡◌, refl, ap, arith, List, [], ◌∷◌, ◌++◌}

abbrev pub Text : Type 0
Text = List ℕ

unfoldable pub length {ℓ} : {A : Type ℓ} → List A → ℕ
length [] = 0
length (x ∷ xs) = suc (length xs)

unfoldable pub take {ℓ} : {A : Type ℓ} → ℕ → List A → List A
take zero xs = []
take (suc n) [] = []
take (suc n) (x ∷ xs) = x ∷ take n xs

unfoldable pub snprintf : (size : ℕ) (text : Text) → ℕ × Text
snprintf size text = (length text, take (size - 1) text)

pub length-++ {ℓ} : {A : Type ℓ} (xs ys : List A) → length (xs ++ ys) ≡ length xs + length ys
unfolding length
length-++ [] ys = omega arith
length-++ (x ∷ xs) ys = let rest = length-++ xs ys in omega arith

-- Nothing is cut off a list that fits.
pub take-length {ℓ} : {A : Type ℓ} (n : ℕ) (xs : List A) → length xs ≤ n → take n xs ≡ xs
unfolding length take
take-length zero [] fits = refl
take-length zero (x ∷ xs) fits = absurd (omega arith)
take-length (suc n) [] fits = refl
take-length (suc n) (x ∷ xs) fits = ap (x ∷◌) (take-length n xs (omega arith))

-- A text that a buffer has room for is stored as it is.
pub snprintf_lem :
    (size : ℕ) (text : Text) → length text < size → snprintf size text ≡ (length text, text)
unfolding snprintf
snprintf_lem size text fits =
    ap (λ stored. (length text, stored)) (take-length (size - 1) text (omega arith))
