-- ===== src/Replacer.antt =====
-- replacer/replacer.h: the abstract class `Replacer` as a record of operations, with the laws that
-- the buffer pool relies on. `has r f` says that the policy may choose frame `f`.
pub mod Lru
use whu_db_practice.Prelude.{ℕ, ◌≡◌, Bool, true, false, Option, none, some, ◌==◌, if◌then◌else◌}

pub record Replacer : Type 1 where
  pub State : Type 0
  pub victim : State → Option ℕ × State
  pub pin : ℕ → State → State
  pub unpin : ℕ → State → State
  pub size : State → ℕ
  pub IsValid : State → Type 0
  pub has : State → ℕ → Bool
  pub pin-IsValid : (f : ℕ) (r : State) → IsValid r → IsValid (pin f r)
  pub unpin-IsValid : (f : ℕ) (r : State) → IsValid r → IsValid (unpin f r)
  pub victim-IsValid : (r : State) → IsValid r → IsValid (victim r).1
  pub has-pin :
      (f : ℕ) (r : State)
      → IsValid r
      → (g : ℕ) → has (pin f r) g ≡ (if g == f then false else has r g)
  pub has-unpin :
      (f : ℕ) (r : State)
      → IsValid r
      → (g : ℕ) → has (unpin f r) g ≡ (if g == f then true else has r g)
  pub victim_none :
      (r : State)
      → IsValid r
      → (victim r).0 ≡ none
      → ((victim r).1 ≡ r) × ((g : ℕ) → has r g ≡ false)
  pub victim_some :
      (r : State) (f : ℕ)
      → IsValid r
      → (victim r).0 ≡ some f
      → (has r f ≡ true) × ((g : ℕ) → has (victim r).1 g ≡ (if g == f then false else has r g))
