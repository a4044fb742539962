-- ===== src/Prelude/Maps.antt =====
-- Finite maps as functions: one entry is written at a time. The keys carry the equality test of
-- the source (`operator==`), with the law that it decides equality.
use Prim.Native.Nat.{ℕ}
use mathlib.Core.Path.{◌≡◌, refl}
use mathlib.Core.Logic.{◌↔◌, ◌≢◌, inl, inr}
use mathlib.Core.Bool.{Bool, true}
use native.Mathlib.Omega.{arith}
use whu_db_practice.Prelude.Tests.{◌==◌ as nat_beq, ==_iff, if◌then◌else◌, Bool-cases}

pub record Eq {ℓ} (A : Type ℓ) : Type ℓ where
  pub beq : A → A → Bool
  pub beq_iff : (a b : A) → (beq a b ≡ true) ↔ (a ≡ b)

instance abbrev pub nat_eq : Eq ℕ
nat_eq = record { beq = nat_beq; beq_iff = ==_iff }

module _ {ℓ κ} {K : Type ℓ} {V : Type κ} ⦃e : Eq K⦄ where
  abbrev pub update : (K → V) → K → V → K → V
  update m k v j = if e.beq j k then v else m j

  pub update_self : (m : K → V) (k : K) (v : V) → update m k v k ≡ v
  update_self m k v = let h = (e.beq_iff k k).1 refl in ground arith

  pub update_ne : (m : K → V) (k : K) (v : V) (j : K) → j ≢ k → update m k v j ≡ m j
  update_ne m k v j h = elim (Bool-cases (e.beq j k)) [
    | inl same ↦ absurd (h ((e.beq_iff j k).0 same))
    | inr other ↦ ground arith
  ]
