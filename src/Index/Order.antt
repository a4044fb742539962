-- ===== src/Index/Order.antt =====
-- index/ix_index_handle.h: `ix_compare`. A key is the bytes of its columns, one after the other. A
-- float is its 32 bits, and floats are compared as IEEE 754 says.
use whu_db_practice.Prelude.{
  ℕ, suc, zero, ◌+◌, ◌-◌, ◌%◌, ◌≡◌, refl, sym, ap, ◌∙◌, Bool, true, false, List, [], ◌∷◌, arith,
  ltb, if◌then◌else◌, compare, Ordering, drop, ℤ, pos, negsuc,
}
use whu_db_practice.Storage.Page.{Bytes}
use whu_db_practice.Recovery.Words.{read4, read8}

abbrev pub flip : Ordering → Ordering
flip Ordering.lt = Ordering.gt
flip Ordering.eq = Ordering.eq
flip Ordering.gt = Ordering.lt

pub data ColType : Type 0 where
  type_int : ColType
  type_float : ColType
  type_string : ColType
  type_bigint : ColType
  type_datetime : ColType

-- The integer of a pattern, where `half` is that of the sign bit.
abbrev pub signed : ℕ → ℕ → ℤ
signed half x = if ltb x half then pos x else negsuc (half + half - x - 1)

abbrev pub pos_part : ℤ → ℕ
pos_part (pos n) = n
pos_part (negsuc n) = 0

abbrev pub neg_part : ℤ → ℕ
neg_part (pos n) = 0
neg_part (negsuc n) = suc n

abbrev pub lt_ℤ : ℤ → ℤ → Bool
lt_ℤ a b = ltb (pos_part a + neg_part b) (pos_part b + neg_part a)

-- `(ia < ib) ? -1 : ((ia > ib) ? 1 : 0)`
abbrev pub compare_ℤ : ℤ → ℤ → Ordering
compare_ℤ a b = if lt_ℤ a b then Ordering.lt else if lt_ℤ b a then Ordering.gt else Ordering.eq

abbrev pub first : Bytes → ℕ
first [] = 0
first (b ∷ bs) = b

unfoldable pub memcmp : ℕ → Bytes → Bytes → Ordering
memcmp zero a b = Ordering.eq
memcmp (suc n) a b = elim (compare (first a) (first b)) [
  | Ordering.eq ↦ memcmp n (drop 1 a) (drop 1 b)
  | o ↦ o
]

-- The bits of a `float` without its sign; above those of infinity they are no number.
abbrev pub is_nan : ℕ → Bool
is_nan x = ltb 2139095040 (x % 2147483648)

-- The bits of a number, as an integer that is ordered like it; both zeros are 0.
unfoldable pub float_key : ℕ → ℤ
float_key x =
    if ltb x 2147483648
    then pos x
    else if ltb 2147483648 x
    then negsuc (x - 2147483648 - 1)
    else pos 0

-- `fa < fb`, which is false where a side is no number.
unfoldable pub float_lt : ℕ → ℕ → Bool
float_lt x y =
    if is_nan x then false else if is_nan y then false else lt_ℤ (float_key x) (float_key y)

-- `(fa < fb) ? -1 : ((fa > fb) ? 1 : 0)`
unfoldable pub compare_float : ℕ → ℕ → Ordering
compare_float x y =
    if float_lt x y then Ordering.lt else if float_lt y x then Ordering.gt else Ordering.eq

-- The comparison of one column.
unfoldable pub compare_column : ColType → ℕ → Bytes → Bytes → Ordering
compare_column type_int col_len a b =
    compare_ℤ (signed 2147483648 (read4 a)) (signed 2147483648 (read4 b))
compare_column type_bigint col_len a b =
    compare_ℤ (signed 9223372036854775808 (read8 a)) (signed 9223372036854775808 (read8 b))
compare_column type_datetime col_len a b =
    compare_ℤ (signed 9223372036854775808 (read8 a)) (signed 9223372036854775808 (read8 b))
compare_column type_float col_len a b = compare_float (read4 a) (read4 b)
compare_column type_string col_len a b = memcmp col_len a b

unfoldable pub ix_compare : List (ColType × ℕ) → Bytes → Bytes → Ordering
ix_compare [] a b = Ordering.eq
ix_compare ((ty, col_len) ∷ cols) a b = elim (compare_column ty col_len a b) [
  | Ordering.eq ↦ ix_compare cols (drop col_len a) (drop col_len b)
  | o ↦ o
]

-- A comparison that puts each two keys in an order; different keys may compare as equal.
abbrev pub IsOrder : {A : Type 0} → (A → A → Ordering) → Type 0
IsOrder {A} cmp =
    ((a b : A) → cmp b a ≡ flip (cmp a b))
    × ((a b c : A) → cmp a b ≡ Ordering.lt → cmp b c ≡ Ordering.lt → cmp a c ≡ Ordering.lt)
    × ((a b c : A) → cmp a b ≡ Ordering.eq → cmp a c ≡ cmp b c)

compare_ℤ-IsOrder : IsOrder compare_ℤ
compare_ℤ-IsOrder = (λ a b. ground arith, λ a b c h k. ground arith, λ a b c h. ground arith)

-- One comparison, and another where it finds no difference.
abbrev then_cmp : {A : Type 0} → (A → A → Ordering) → (A → A → Ordering) → A → A → Ordering
then_cmp f g a b = elim (f a b) [ Ordering.eq ↦ g a b | o ↦ o ]

then_cmp-IsOrder :
    {A : Type 0} (f g : A → A → Ordering) → IsOrder f → IsOrder g → IsOrder (then_cmp f g)
then_cmp-IsOrder f g (f1, f2, f3) (g1, g2, g3) = (
  λ a b. ground (arith, f1 a b, g1 a b),
  λ a b c h k. ground (arith, f2 a b c, f3 a b c, f3 b c a, f1 a b, f1 a c, g2 a b c),
  λ a b c h. ground (arith, f3 a b c, g3 a b c),
)

-- The order of what is read from the keys.
on-IsOrder :
    {A B : Type 0} (cmp : B → B → Ordering) (read : A → B)
    → IsOrder cmp
    → IsOrder (λ a b. cmp (read a) (read b))
on-IsOrder cmp read (f1, f2, f3) = (
  λ a b. f1 (read a) (read b),
  λ a b c. f2 (read a) (read b) (read c),
  λ a b c. f3 (read a) (read b) (read c),
)

memcmp-IsOrder : (n : ℕ) → IsOrder (memcmp n)
unfolding memcmp
memcmp-IsOrder zero = (λ a b. refl, λ a b c h k. cc, λ a b c h. refl)
memcmp-IsOrder (suc n) =
    then_cmp-IsOrder (λ a b. compare (first a) (first b)) (λ a b. memcmp n (drop 1 a) (drop 1 b))
      (λ a b. ground arith, λ a b c h k. ground arith, λ a b c h. ground arith)
      (on-IsOrder (memcmp n) (drop 1) (memcmp-IsOrder n))

-- The same for the keys with property `P`.
abbrev pub IsOrderOn : {A : Type 0} → (A → Type 0) → (A → A → Ordering) → Type 0
IsOrderOn {A} P cmp =
    ((a b : A) → P a → P b → cmp b a ≡ flip (cmp a b))
    × ((a b c : A)
        → P a
        → P b
        → P c
        → cmp a b ≡ Ordering.lt
        → cmp b c ≡ Ordering.lt
        → cmp a c ≡ Ordering.lt)
    × ((a b c : A) → P a → P b → P c → cmp a b ≡ Ordering.eq → cmp a c ≡ cmp b c)

IsOrder-IsOrderOn :
    {A : Type 0} (P : A → Type 0) (cmp : A → A → Ordering) → IsOrder cmp → IsOrderOn P cmp
IsOrder-IsOrderOn P cmp (f1, f2, f3) =
    (λ a b p q. f1 a b, λ a b c p q r. f2 a b c, λ a b c p q r. f3 a b c)

-- One comparison where its keys have `P`, and another of what is read where that has `Q`.
then_cmp-IsOrderOn :
    {A : Type 0} (P Q : A → Type 0) (f g : A → A → Ordering) (read : A → A)
    → IsOrderOn P f
    → IsOrderOn Q g
    → IsOrderOn (λ a. P a × Q (read a)) (then_cmp f (λ a b. g (read a) (read b)))
then_cmp-IsOrderOn P Q f g read (f1, f2, f3) (g1, g2, g3) = (
  λ a b (pa, qa) (pb, qb). ground (arith, f1 a b pa pb, g1 (read a) (read b) qa qb),
  λ a b c (pa, qa) (pb, qb) (pc, qc) h k. ground (
    arith,
    f2 a b c pa pb pc,
    f3 a b c pa pb pc,
    f3 b c a pb pc pa,
    f1 a b pa pb,
    f1 a c pa pc,
    g2 (read a) (read b) (read c) qa qb qc,
  ),
  λ a b c (pa, qa) (pb, qb) (pc, qc) h.
      ground (arith, f3 a b c pa pb pc, g3 (read a) (read b) (read c) qa qb qc),
)

compare_float-key :
    (x y : ℕ)
    → is_nan x ≡ false
    → is_nan y ≡ false
    → compare_float x y ≡ compare_ℤ (float_key x) (float_key y)
unfolding compare_float float_lt
compare_float-key x y p q = rw (p, q) refl

-- The column holds a number, if it holds a float.
abbrev pub IsNumber : ColType → Bytes → Type 0
IsNumber type_float a = is_nan (read4 a) ≡ false
IsNumber _ a = Unit

abbrev pub AreNumbers : List (ColType × ℕ) → Bytes → Type 0
AreNumbers [] a = Unit
AreNumbers ((ty, n) ∷ cols) a = IsNumber ty a × AreNumbers cols (drop n a)

float-IsOrderOn : (n : ℕ) → IsOrderOn (IsNumber type_float) (compare_column type_float n)
unfolding compare_column
float-IsOrderOn n =
    let (f1, f2, f3) = compare_ℤ-IsOrder in
    let key = λ (a : Bytes). float_key (read4 a) in
    let same = λ (a b : Bytes) (p : IsNumber type_float a) (q : IsNumber type_float b).
      compare_float-key (read4 a) (read4 b) p q in
    (
      λ a b p q. same b a q p ∙ (f1 (key a) (key b) ∙ ap flip (sym (same a b p q))),
      λ a b c p q r h k.
          same a c p r
          ∙ f2 (key a) (key b) (key c) (sym (same a b p q) ∙ h) (sym (same b c q r) ∙ k),
      λ a b c p q r h.
          same a c p r ∙ (f3 (key a) (key b) (key c) (sym (same a b p q) ∙ h) ∙ sym (same b c q r)),
    )

compare_column-IsOrderOn : (ty : ColType) (n : ℕ) → IsOrderOn (IsNumber ty) (compare_column ty n)
unfolding compare_column
compare_column-IsOrderOn type_int n =
    IsOrder-IsOrderOn (IsNumber type_int) (compare_column type_int n)
      (on-IsOrder compare_ℤ (λ a. signed 2147483648 (read4 a)) compare_ℤ-IsOrder)
compare_column-IsOrderOn type_bigint n =
    IsOrder-IsOrderOn (IsNumber type_bigint) (compare_column type_bigint n)
      (on-IsOrder compare_ℤ (λ a. signed 9223372036854775808 (read8 a)) compare_ℤ-IsOrder)
compare_column-IsOrderOn type_datetime n =
    IsOrder-IsOrderOn (IsNumber type_datetime) (compare_column type_datetime n)
      (on-IsOrder compare_ℤ (λ a. signed 9223372036854775808 (read8 a)) compare_ℤ-IsOrder)
compare_column-IsOrderOn type_float n = float-IsOrderOn n
compare_column-IsOrderOn type_string n =
    IsOrder-IsOrderOn (IsNumber type_string) (compare_column type_string n) (memcmp-IsOrder n)

-- Whatever the columns, `ix_compare` puts the keys whose float columns are all numbers (not NaN)
-- in an order.
pub ix_compare-IsOrder : (cols : List (ColType × ℕ)) → IsOrderOn (AreNumbers cols) (ix_compare cols)
unfolding ix_compare
ix_compare-IsOrder [] = (λ a b p q. refl, λ a b c p q r h k. cc, λ a b c p q r h. refl)
ix_compare-IsOrder ((ty, n) ∷ cols) =
    then_cmp-IsOrderOn (IsNumber ty) (AreNumbers cols) (compare_column ty n) (ix_compare cols)
      (drop n) (compare_column-IsOrderOn ty n) (ix_compare-IsOrder cols)

-- A key with NaN compares as equal to every number, whatever the order of these is.
pub compare_column_nan :
    (n : ℕ) (a b : Bytes)
    → is_nan (read4 a) ≡ true
    → (compare_column type_float n a b ≡ Ordering.eq)
      × (compare_column type_float n b a ≡ Ordering.eq)
unfolding compare_column compare_float float_lt
compare_column_nan n a b h = ground arith
