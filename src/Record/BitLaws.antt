-- ===== src/Record/BitLaws.antt =====
-- record/bitmap.h: what the operations of `Bitmap` do to each position, and what a search finds.
use Prim.Native.Nat.{bit_and, bit_or}
use whu_db_practice.Prelude.{
  ℕ, zero, suc, ◌+◌, ◌-◌, ◌*◌, ◌/◌, ◌%◌, ◌^◌, ◌≤◌, ◌<◌, ◌≡◌, refl, ap, inl, inr, Bool, true, false,
  not, ◌&&◌, [], ◌∷◌, arith, ltb, ◌==◌, ==_iff, if◌then◌else◌, Bool-cases, ltb→le, length, get_or,
  set, replicate, drop, ◌++◌,
}
use whu_db_practice.Storage.Page.{Bytes}
use whu_db_practice.Record.Bitmap.{
  get_bucket, get_bit, init, set_bit, reset, is_set, bool_eq, AreBytes,
}

-- Laws of one byte, checked on all of them.
passes : (ℕ → Bool) → ℕ → Bool
passes test zero = true
passes test (suc bound) = if passes test bound then test bound else false

passes_at :
    (test : ℕ → Bool) (bound : ℕ) → passes test bound ≡ true → (v : ℕ) → v < bound → test v ≡ true
unfolding passes
passes_at test zero ok v lt = absurd (omega arith)
passes_at test (suc bound) ok v lt = elim (Bool-cases (v == bound)) [
  | inl last ↦ let e = (==_iff v bound).0 last in rw e (ground arith)
  | inr below ↦ passes_at test bound (ground arith) v (ground arith)
]

bit_of : ℕ → ℕ → Bool
bit_of x j = not (bit_and x (128 / 2 ^ j) == 0)

set_test : ℕ → ℕ → ℕ → Bool
unfolding bit_of
set_test i j x =
    let y = bit_or x (128 / 2 ^ i) in
    bool_eq (bit_of y j) (if j == i then true else bit_of x j) && ltb y 256

reset_test : ℕ → ℕ → ℕ → Bool
unfolding bit_of
reset_test i j x =
    let y = bit_and x (255 - 128 / 2 ^ i) in
    bool_eq (bit_of y j) (if j == i then false else bit_of x j) && ltb y 256

set_table : passes (λ i. passes (λ j. passes (set_test i j) 256) 8) 8 ≡ true
unfolding passes set_test
set_table = refl

reset_table : passes (λ i. passes (λ j. passes (reset_test i j) 256) 8) 8 ≡ true
unfolding passes reset_test
reset_table = refl

table_lem :
    (test : ℕ → ℕ → ℕ → Bool)
    → passes (λ i. passes (λ j. passes (test i j) 256) 8) 8 ≡ true
    → (i j x : ℕ) → i < 8
    → j < 8
    → x < 256
    → test i j x ≡ true
table_lem test h i j x a b c = passes_at _ 256 (passes_at _ 8 (passes_at _ 8 h i a) j b) x c

-- Lists under a write.
length-set : (bm : Bytes) (i v : ℕ) → length (set bm i v) ≡ length bm
length-set [] i v = refl
length-set (b ∷ bm) zero v = refl
length-set (b ∷ bm) (suc i) v = ap suc (length-set bm i v)

get_or-set :
    (bm : Bytes) (i j v : ℕ)
    → i < length bm
    → get_or (set bm i v) j 0 ≡ (if j == i then v else get_or bm j 0)
get_or-set [] i j v h = absurd (omega arith)
get_or-set (b ∷ bm) zero zero v h = refl
get_or-set (b ∷ bm) zero (suc j) v h = ground arith
get_or-set (b ∷ bm) (suc i) zero v h = ground arith
get_or-set (b ∷ bm) (suc i) (suc j) v h = ground (arith, get_or-set bm i j v)

set-AreBytes : (bm : Bytes) (i v : ℕ) → AreBytes bm → v < 256 → AreBytes (set bm i v)
set-AreBytes [] i v h lt = tt
set-AreBytes (b ∷ bm) zero v h lt = (lt, h.1)
set-AreBytes (b ∷ bm) (suc i) v h lt = (h.0, set-AreBytes bm i v h.1 lt)

get_or-AreBytes : (bm : Bytes) (i : ℕ) → AreBytes bm → get_or bm i 0 < 256
get_or-AreBytes [] i h = omega arith
get_or-AreBytes (b ∷ bm) zero h = h.0
get_or-AreBytes (b ∷ bm) (suc i) h = get_or-AreBytes bm i h.1

module _ (bm : Bytes) (pos : ℕ) (bytes : AreBytes bm) where
  set_byte : (q : ℕ) → set_test (pos % 8) (q % 8) (get_or bm (get_bucket pos) 0) ≡ true
  set_byte q =
      table_lem set_test set_table (pos % 8) (q % 8) _ (omega arith) (omega arith)
        (get_or-AreBytes bm (get_bucket pos) bytes)

  reset_byte : (q : ℕ) → reset_test (pos % 8) (q % 8) (get_or bm (get_bucket pos) 0) ≡ true
  reset_byte q =
      table_lem reset_test reset_table (pos % 8) (q % 8) _ (omega arith) (omega arith)
        (get_or-AreBytes bm (get_bucket pos) bytes)

  pub length-set_bit : length (set_bit bm pos) ≡ length bm
  unfolding set_bit
  length-set_bit = length-set bm _ _

  pub length-reset : length (reset bm pos) ≡ length bm
  unfolding reset
  length-reset = length-set bm _ _

  pub set_bit-AreBytes : AreBytes (set_bit bm pos)
  unfolding set_bit get_bit set_test
  set_bit-AreBytes = set-AreBytes bm _ _ bytes (ground (arith, set_byte 0))

  pub reset-AreBytes : AreBytes (reset bm pos)
  unfolding reset get_bit reset_test
  reset-AreBytes = set-AreBytes bm _ _ bytes (ground (arith, reset_byte 0))

  -- `set` makes exactly its position 1.
  pub is_set-set_bit :
      (q : ℕ)
      → pos < 8 * length bm
      → is_set (set_bit bm pos) q ≡ (if q == pos then true else is_set bm q)
  unfolding is_set set_bit get_bucket get_bit set_test bit_of
  is_set-set_bit q lt = ground (
    arith,
    get_or-set bm (pos / 8) (q / 8) (bit_or (get_or bm (pos / 8) 0) (128 / 2 ^ (pos % 8))),
    set_byte q,
  )

  -- `reset` makes exactly its position 0.
  pub is_set-reset :
      (q : ℕ)
      → pos < 8 * length bm
      → is_set (reset bm pos) q ≡ (if q == pos then false else is_set bm q)
  unfolding is_set reset get_bucket get_bit reset_test bit_of
  is_set-reset q lt = ground (
    arith,
    get_or-set bm (pos / 8) (q / 8) (bit_and (get_or bm (pos / 8) 0) (255 - 128 / 2 ^ (pos % 8))),
    reset_byte q,
  )

get_or-replicate : (n i : ℕ) (rest : Bytes) → i < n → get_or (replicate n 0 ++ rest) i 0 ≡ 0
get_or-replicate zero i rest h = absurd (omega arith)
get_or-replicate (suc n) zero rest h = refl
get_or-replicate (suc n) (suc i) rest h = get_or-replicate n i rest (omega arith)

not-true : (b : Bool) → not b ≡ true → b ≡ false
not-true b h = ground arith

zero_table : passes (λ j. not (bit_of 0 j)) 8 ≡ true
unfolding passes bit_of
zero_table = refl

length-replicate : (n : ℕ) (rest : Bytes) → length (replicate n 0 ++ rest) ≡ n + length rest
length-replicate zero rest = omega arith
length-replicate (suc n) rest = omega (arith, length-replicate n rest)

length-drop : (n : ℕ) (xs : Bytes) → length (drop n xs) ≡ length xs - n
length-drop zero xs = omega arith
length-drop (suc n) [] = omega arith
length-drop (suc n) (x ∷ xs) = omega (arith, length-drop n xs)

pub length-init : (size : ℕ) (bm : Bytes) → size ≤ length bm → length (init size bm) ≡ length bm
unfolding init
length-init size bm h = omega (arith, length-replicate size (drop size bm), length-drop size bm)

replicate-AreBytes : (n : ℕ) (rest : Bytes) → AreBytes rest → AreBytes (replicate n 0 ++ rest)
replicate-AreBytes zero rest h = h
replicate-AreBytes (suc n) rest h = (omega arith, replicate-AreBytes n rest h)

drop-AreBytes : (n : ℕ) (xs : Bytes) → AreBytes xs → AreBytes (drop n xs)
drop-AreBytes zero xs h = h
drop-AreBytes (suc n) [] h = tt
drop-AreBytes (suc n) (x ∷ xs) h = drop-AreBytes n xs h.1

pub init-AreBytes : (size : ℕ) (bm : Bytes) → AreBytes bm → AreBytes (init size bm)
unfolding init
init-AreBytes size bm h = replicate-AreBytes size (drop size bm) (drop-AreBytes size bm h)

-- `init` clears every position of the bytes that it is given.
pub is_set-init : (size : ℕ) (bm : Bytes) (q : ℕ) → q < 8 * size → is_set (init size bm) q ≡ false
unfolding is_set init get_bucket get_bit bit_of
is_set-init size bm q lt =
    rw (get_or-replicate size (q / 8) (drop size bm) (omega arith))
      (not-true _ (passes_at (λ j. not (bit_of 0 j)) 8 zero_table (q % 8) (omega arith)))

get_or_beyond : (bm : Bytes) (i : ℕ) → length bm ≤ i → get_or bm i 0 ≡ 0
get_or_beyond [] i h = refl
get_or_beyond (b ∷ bm) zero h = absurd (omega arith)
get_or_beyond (b ∷ bm) (suc i) h = get_or_beyond bm i (omega arith)

pub is_set_beyond : (bm : Bytes) (q : ℕ) → 8 * length bm ≤ q → is_set bm q ≡ false
unfolding is_set get_bucket get_bit bit_of
is_set_beyond bm q h =
    rw (get_or_beyond bm (q / 8) (omega arith))
      (not-true _ (passes_at (λ j. not (bit_of 0 j)) 8 zero_table (q % 8) (omega arith)))

-- On a bitmap of `size` bytes it clears all there is.
pub is_set-init_all :
    (size : ℕ) (bm : Bytes) (q : ℕ) → length bm ≡ size → is_set (init size bm) q ≡ false
is_set-init_all size bm q e = elim (Bool-cases (ltb q (8 * size))) [
  | inl low ↦ is_set-init size bm q (ground arith)
  | inr high ↦ beyond (init size bm) (omega (arith, length-init size bm, ltb→le q (8 * size) high))
]
  where
    beyond : (cs : Bytes) → 8 * length cs ≤ q → is_set cs q ≡ false
    beyond cs h = is_set_beyond cs q h
