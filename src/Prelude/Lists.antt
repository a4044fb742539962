-- ===== src/Prelude/Lists.antt =====
-- Lists measured and indexed by native numbers, and lists of numbers without repetition.
use Prim.Native.Nat.{ℕ, zero, suc, ◌+◌}
use mathlib.Core.Path.{◌≡◌, refl}
use mathlib.Core.Logic.{◌⊎◌, inl, inr}
use mathlib.Core.Bool.{Bool, false, ◌||◌}
use mathlib.Core.List.{List, [], ◌∷◌, ◌++◌}
use mathlib.Core.Option.{Option, none, some}
use native.Mathlib.Omega.{arith}
use whu_db_practice.Prelude.Tests.{◌==◌, if◌then◌else◌}

module _ {ℓ} {A : Type ℓ} where
  pub List-cases : (xs : List A) → (xs ≡ []) ⊎ ((x : A) × (ys : List A) × (xs ≡ x ∷ ys))
  List-cases [] = inl refl
  List-cases (x ∷ xs) = inr (x, xs, refl)

  abbrev pub length : List A → ℕ
  length [] = 0
  length (x ∷ xs) = suc (length xs)

  abbrev pub get_elem? : List A → ℕ → Option A
  get_elem? [] i = none
  get_elem? (x ∷ xs) zero = some x
  get_elem? (x ∷ xs) (suc i) = get_elem? xs i

  abbrev pub get_or : List A → ℕ → A → A
  get_or [] i d = d
  get_or (x ∷ xs) zero d = x
  get_or (x ∷ xs) (suc i) d = get_or xs i d

  -- A write out of bounds changes nothing.
  abbrev pub set : List A → ℕ → A → List A
  set [] i v = []
  set (x ∷ xs) zero v = v ∷ xs
  set (x ∷ xs) (suc i) v = x ∷ set xs i v

  abbrev pub replicate : ℕ → A → List A
  replicate zero a = []
  replicate (suc n) a = a ∷ replicate n a

  abbrev pub take : ℕ → List A → List A
  take zero xs = []
  take (suc n) [] = []
  take (suc n) (x ∷ xs) = x ∷ take n xs

  abbrev pub drop : ℕ → List A → List A
  drop zero xs = xs
  drop (suc n) [] = []
  drop (suc n) (x ∷ xs) = drop n xs

  abbrev pub All {κ} : (A → Type κ) → List A → Type κ
  All P [] = Unit
  All P (x ∷ xs) = P x × All P xs

  pub length-append : (xs ys : List A) → length (xs ++ ys) ≡ length xs + length ys
  length-append [] ys = omega arith
  length-append (x ∷ xs) ys = omega (arith, length-append xs ys)

-- Membership of a number, as a test, and removal of its first occurrence.
abbrev pub contains : ℕ → List ℕ → Bool
contains f [] = false
contains f (x ∷ xs) = f == x || contains f xs

abbrev pub erase : ℕ → List ℕ → List ℕ
erase f [] = []
erase f (x ∷ xs) = if f == x then xs else x ∷ erase f xs

-- No number occurs twice.
abbrev pub IsDistinct : List ℕ → Type 0
IsDistinct [] = Unit
IsDistinct (x ∷ xs) = (contains x xs ≡ false) × IsDistinct xs

pub contains-append :
    (f : ℕ) (xs ys : List ℕ) → contains f (xs ++ ys) ≡ (contains f xs || contains f ys)
contains-append f [] ys = refl
contains-append f (x ∷ xs) ys = ground (arith, contains-append f xs ys)

pub contains-erase :
    (f g : ℕ) (xs : List ℕ)
    → IsDistinct xs
    → contains g (erase f xs) ≡ (if g == f then false else contains g xs)
contains-erase f g [] d = ground arith
contains-erase f g (x ∷ xs) d = ground (arith, contains-erase f g xs d.1)

pub erase-IsDistinct : (f : ℕ) (xs : List ℕ) → IsDistinct xs → IsDistinct (erase f xs)
erase-IsDistinct f [] d = tt
erase-IsDistinct f (x ∷ xs) d = ground (arith, contains-erase f x xs d.1, erase-IsDistinct f xs d.1)

pub append-IsDistinct :
    (x : ℕ) (xs : List ℕ) → IsDistinct xs → contains x xs ≡ false → IsDistinct (xs ++ x ∷ [])
append-IsDistinct x [] d h = (refl, tt)
append-IsDistinct x (y ∷ xs) d h =
    ground (arith, contains-append y xs (x ∷ []), append-IsDistinct x xs d.1)
