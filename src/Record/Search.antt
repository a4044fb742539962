-- ===== src/Record/Search.antt =====
-- record/bitmap.h: `next_bit` and `first_bit` find the first position of the kind that is asked for.
use whu_db_practice.Prelude.{
  ℕ, zero, suc, ◌+◌, ◌-◌, ◌≤◌, ◌<◌, ◌≡◌, refl, ap, ◌≢◌, inl, inr, Bool, true, false, arith, ◌==◌,
  if◌then◌else◌, Bool-cases, sym,
}
use whu_db_practice.Storage.Page.{Bytes}
use whu_db_practice.Record.Bitmap.{is_set, bool_eq, find_bit, next_bit, first_bit}

bool_eq-true : (a b : Bool) → bool_eq a b ≡ true → a ≡ b
bool_eq-true true b h = sym h
bool_eq-true false true h = cc
bool_eq-true false false h = refl

bool_eq-false : (a b : Bool) → bool_eq a b ≡ false → a ≢ b
bool_eq-false true b h e = cc
bool_eq-false false true h e = cc
bool_eq-false false false h e = cc

-- What a search from `start` below `max_n` answers with.
pub record Found (bit : Bool) (bm : Bytes) (max_n start r : ℕ) : Type 0 where
  pub bounded : (start ≤ r) × (r ≤ max_n)
  pub hit : r < max_n → is_set bm r ≡ bit
  pub first : (k : ℕ) → start ≤ k → k < r → is_set bm k ≢ bit

find_bit-Found :
    (bit : Bool) (bm : Bytes) (max_n rounds i : ℕ)
    → i + rounds ≡ max_n
    → Found bit bm max_n i (find_bit bit bm max_n rounds i)
unfolding find_bit
find_bit-Found bit bm max_n zero i e = record {
  bounded = omega arith;
  hit = λ h. absurd (omega arith);
  first = λ k p q. absurd (omega arith);
}
find_bit-Found bit bm max_n (suc rounds) i e = elim (Bool-cases (bool_eq (is_set bm i) bit)) [
  | inl here ↦
      rw (here, find_bit)
        (record {
          bounded = omega arith;
          hit = λ h. bool_eq-true _ _ here;
          first = λ k p q. absurd (omega arith);
        })
  | inr there ↦
      let ih = find_bit-Found bit bm max_n rounds (suc i) (omega arith) in
      let (low, high) = ih.bounded in
      rw (there, find_bit)
        (record {
          bounded = omega arith;
          hit = ih.hit;
          first = λ k p q. elim (Bool-cases (k == i)) [
            | inl same ↦ let k_i : k ≡ i = ground arith in rw k_i (bool_eq-false _ _ there)
            | inr other ↦ ih.first k (ground arith) q
          ];
        })
]

-- `next_bit` answers with the first position from `start` on that has the bit, and with `max_n`
-- if no position below `max_n` has it.
pub next_bit-Found :
    (bit : Bool) (bm : Bytes) (max_n start : ℕ)
    → start ≤ max_n
    → Found bit bm max_n start (next_bit bit bm max_n start)
unfolding next_bit
next_bit-Found bit bm max_n start h =
    find_bit-Found bit bm max_n (max_n - start) start (omega arith)

pub first_bit-Found :
    (bit : Bool) (bm : Bytes) (max_n : ℕ) → Found bit bm max_n 0 (first_bit bit bm max_n)
unfolding first_bit
first_bit-Found bit bm max_n = next_bit-Found bit bm max_n 0 (omega arith)

-- The positions below `n` that a test holds at.
abbrev pub count_below : (ℕ → Bool) → ℕ → ℕ
count_below p zero = 0
count_below p (suc n) = if p n then suc (count_below p n) else count_below p n

pub count_below-le : (p : ℕ → Bool) (n : ℕ) → count_below p n ≤ n
count_below-le p zero = omega arith
count_below-le p (suc n) = ground (arith, count_below-le p n)

-- A count short of `n` leaves a position free,
pub count_below_full :
    (p : ℕ → Bool) (n : ℕ) → ((k : ℕ) → k < n → p k ≢ false) → count_below p n ≡ n
count_below_full p zero h = refl
count_below_full p (suc n) h = ground (arith, h n, count_below_full p n (λ k lt. h k (omega arith)))

count_below_same :
    (p q : ℕ → Bool) (n : ℕ) → ((k : ℕ) → k < n → q k ≡ p k) → count_below q n ≡ count_below p n
count_below_same p q zero h = refl
count_below_same p q (suc n) h =
    ground (arith, h n, count_below_same p q n (λ k lt. h k (omega arith)))

-- and one position more counts one more.
pub count_below_more :
    (p q : ℕ → Bool) (n i : ℕ)
    → i < n
    → p i ≡ false
    → ((k : ℕ) → k < n → q k ≡ (if k == i then true else p k))
    → count_below q n ≡ suc (count_below p n)
count_below_more p q zero i lt off h = absurd (omega arith)
count_below_more p q (suc n) i lt off h = elim (Bool-cases (n == i)) [
  | inl here ↦
      let e : n ≡ i = ground arith in
      ground (
        arith,
        h n,
        ap p e,
        count_below_same p q n
            (λ k k_n. let ne : (k == i) ≡ false = ground arith in ground (arith, h k)),
      )
  | inr there ↦
      ground (arith, h n, count_below_more p q n i (ground arith) off (λ k k_n. h k (omega arith)))
]

pub count_below_zero :
    (p : ℕ → Bool) (n : ℕ) → ((k : ℕ) → k < n → p k ≡ false) → count_below p n ≡ 0
count_below_zero p zero h = refl
count_below_zero p (suc n) h = ground (arith, h n, count_below_zero p n (λ k lt. h k (omega arith)))
