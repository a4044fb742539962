-- ===== src/Recovery/Words.antt =====
-- Integers in the memory of the log: four or eight bytes, the lowest first. An `int` is its 32-bit
-- pattern, so -1 is 2 ^ 32 - 1.
use whu_db_practice.Prelude.{
  ℕ, suc, ◌+◌, ◌*◌, ◌/◌, ◌%◌, ◌<◌, ◌≡◌, refl, ap, ◌∙◌, [], ◌∷◌, ◌++◌, arith, length, take, drop,
}
use whu_db_practice.Storage.Page.{Bytes}

abbrev pub two32 : ℕ
two32 = 4294967296

abbrev pub two64 : ℕ
two64 = 18446744073709551616

unfoldable pub le4 : ℕ → Bytes
le4 n = n % 256 ∷ n / 256 % 256 ∷ n / 65536 % 256 ∷ n / 16777216 % 256 ∷ []

unfoldable pub read4 : Bytes → ℕ
read4 (a ∷ b ∷ c ∷ d ∷ rest) = a + 256 * b + 65536 * c + 16777216 * d
read4 _ = 0

unfoldable pub le8 : ℕ → Bytes
le8 n = le4 (n % two32) ++ le4 (n / two32)

unfoldable pub read8 : Bytes → ℕ
read8 src = read4 src + two32 * read4 (drop 4 src)

pub length-le4 : (n : ℕ) → length (le4 n) ≡ 4
unfolding le4
length-le4 n = refl

pub length-le8 : (n : ℕ) → length (le8 n) ≡ 8
unfolding le8 le4
length-le8 n = refl

pub read4-le4 : (n : ℕ) (rest : Bytes) → n < two32 → read4 (le4 n ++ rest) ≡ n
unfolding read4 le4
read4-le4 n rest h = omega arith

pub read8-le8 : (n : ℕ) (rest : Bytes) → n < two64 → read8 (le8 n ++ rest) ≡ n
unfolding read8 read4 le8 le4
read8-le8 n rest h = omega arith

pub take-append : (xs ys : Bytes) → take (length xs) (xs ++ ys) ≡ xs
take-append [] ys = refl
take-append (x ∷ xs) ys = ap (◌∷◌ x) (take-append xs ys)

-- What follows the first bytes is read from where they end.
pub drop-append : (xs ys : Bytes) (k : ℕ) → drop (length xs + k) (xs ++ ys) ≡ drop k ys
drop-append [] ys k = let e : 0 + k ≡ k = omega arith in ap (λ n. drop n ys) e
drop-append (x ∷ xs) ys k =
    let e : suc (length xs) + k ≡ suc (length xs + k) = omega arith in
    ap (λ n. drop n (x ∷ (xs ++ ys))) e ∙ drop-append xs ys k
