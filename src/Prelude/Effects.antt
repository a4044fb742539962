-- ===== src/Prelude/Effects.antt =====
-- C++ calls that change a state and may throw: the state as it stands when the call returns or
-- when the exception leaves it.

pub data Outcome {ℓ} (S A : Type ℓ) : Type ℓ where
  done : A → S → Outcome S A
  raised : S → Outcome S A

module _ {ℓ} {S A : Type ℓ} where
  abbrev pub state : Outcome S A → S
  state (done a s) = s
  state (raised s) = s

  -- What holds if the call returns.
  abbrev pub Returns {κ} : (A → S → Type κ) → Outcome S A → Type κ
  Returns P (done a s) = P a s
  Returns P (raised s) = Unit

  -- What holds if it throws.
  abbrev pub Raises {κ} : (S → Type κ) → Outcome S A → Type κ
  Raises P (done a s) = Unit
  Raises P (raised s) = P s

  pub Returns-map {κ μ} :
      {P : A → S → Type κ} {Q : A → S → Type μ} (r : Outcome S A)
      → ((a : A) (s : S) → P a s → Q a s)
      → Returns P r
      → Returns Q r
  Returns-map (done a s) f h = f a s h
  Returns-map (raised s) f h = tt
