-- ===== src/Lock/Upgrade.antt =====
-- A transaction's lock is raised in place, or given back, and the queue stays sound.
use whu_db_practice.Prelude.{
  ℕ, ◌≡◌, refl, ap, ◌∙◌, ◌≢◌, inl, inr, Bool, true, false, ◌&&◌, ◌||◌, List, [], ◌∷◌, none, some,
  arith, ◌==◌, ==_iff, if◌then◌else◌, Bool-cases,
}
use whu_db_practice.Lock.Modes.{
  LockMode, shared, s_ix, GroupLockMode, mode_eq, compatible, upgrade_group, compat, compat_comm,
  compatible-upgrade_group,
}
use whu_db_practice.Lock.Defs.{
  LockRequest, held_mode, others_granted, others_share, set_mode, erase_request, regroup,
}
use whu_db_practice.Lock.Queue.{all_compat, IsApart, held_mode-set_mode_ne}

-- Every lock of another transaction is compatible with a mode.
abbrev others_admit : ℕ → LockMode → List LockRequest → Bool
others_admit t m [] = true
others_admit t m (r ∷ rs) = (r.txn_id == t || compat m r.lock_mode) && others_admit t m rs

admit_of_alone :
    (t : ℕ) (m : LockMode) (rs : List LockRequest)
    → IsApart rs
    → others_granted t rs ≡ false
    → others_admit t m rs ≡ true
unfolding others_granted
admit_of_alone t m [] a h = refl
admit_of_alone t m (r ∷ rs) a h = ground (arith, admit_of_alone t m rs a.3)

admit_of_all :
    (t : ℕ) (m : LockMode) (rs : List LockRequest)
    → all_compat m rs ≡ true
    → others_admit t m rs ≡ true
admit_of_all t m [] h = refl
admit_of_all t m (r ∷ rs) h = ground (arith, admit_of_all t m rs)

pub compat_held :
    (t : ℕ) (m old : LockMode) (rs : List LockRequest)
    → all_compat m rs ≡ true
    → held_mode t rs ≡ some old
    → compat m old ≡ true
unfolding held_mode
compat_held t m old [] c h = absurd (ground arith)
compat_held t m old (r ∷ rs) c h = ground (arith, compat_held t m old rs)

-- The locks of the others are compatible with the transaction's own.
admit_of_held :
    (t : ℕ) (old : LockMode) (rs : List LockRequest)
    → IsApart rs
    → held_mode t rs ≡ some old
    → others_admit t old rs ≡ true
unfolding held_mode
admit_of_held t old [] a h = absurd (ground arith)
admit_of_held t old (r ∷ rs) a h = ground (
  arith,
  admit_of_held t old rs a.3,
  admit_of_all t old rs,
  compat_held t r.lock_mode old rs,
  compat_comm r.lock_mode old,
)

-- Beside a shared lock, a lock that is not shared is an intention to share.
share_step :
    (m : LockMode) → compat shared m ≡ true → mode_eq m shared ≡ false → compat s_ix m ≡ true
unfolding compat
share_step m c h = ground arith

admit_of_unshared :
    (t : ℕ) (rs : List LockRequest)
    → IsApart rs
    → others_admit t shared rs ≡ true
    → others_share t rs ≡ false
    → others_admit t s_ix rs ≡ true
unfolding others_share
admit_of_unshared t [] a c h = refl
admit_of_unshared t (r ∷ rs) a c h =
    ground (arith, admit_of_unshared t rs a.3, share_step r.lock_mode)

all_of_others :
    (t : ℕ) (m : LockMode) (rs : List LockRequest)
    → IsApart rs
    → held_mode t rs ≡ none
    → others_admit t m rs ≡ true
    → all_compat m rs ≡ true
unfolding held_mode
all_of_others t m [] a h c = refl
all_of_others t m (r ∷ rs) a h c = ground (arith, all_of_others t m rs a.3)

all_compat_raised :
    (t : ℕ) (m new : LockMode) (rs : List LockRequest)
    → all_compat m rs ≡ true
    → compat m new ≡ true
    → all_compat m (set_mode t new rs) ≡ true
unfolding set_mode
all_compat_raised t m new [] c h = refl
all_compat_raised t m new (r ∷ rs) c h = ground (arith, all_compat_raised t m new rs)

-- A lock may be raised to a mode that the locks of the others admit.
set_mode-IsApart :
    (t : ℕ) (old new : LockMode) (rs : List LockRequest)
    → IsApart rs
    → held_mode t rs ≡ some old
    → others_admit t new rs ≡ true
    → IsApart (set_mode t new rs)
unfolding set_mode held_mode
set_mode-IsApart t old new [] a h c = tt
set_mode-IsApart t old new (r ∷ rs) a h c = elim (Bool-cases (r.txn_id == t)) [
  | inl own ↦
      let same = (==_iff r.txn_id t).0 own in
      let unheld : held_mode t rs ≡ none = rw same at (a.1) in
      ground (arith, all_of_others t new rs a.3 unheld, a.0)
  | inr other ↦
      let ne : r.txn_id ≢ t = λ e. ground arith in
      ground (
        arith,
        a.0,
        held_mode-set_mode_ne t r.txn_id new rs ne,
        all_compat_raised t r.lock_mode new rs a.2,
        compat_comm r.lock_mode new,
        set_mode-IsApart t old new rs a.3,
      )
]

pub raised_to_exclusive :
    (t : ℕ) (old new : LockMode) (rs : List LockRequest)
    → IsApart rs
    → held_mode t rs ≡ some old
    → others_granted t rs ≡ false
    → IsApart (set_mode t new rs)
raised_to_exclusive t old new rs a h alone =
    set_mode-IsApart t old new rs a h (admit_of_alone t new rs a alone)

pub raised_to_six :
    (t : ℕ) (rs : List LockRequest)
    → IsApart rs
    → held_mode t rs ≡ some shared
    → others_share t rs ≡ false
    → IsApart (set_mode t s_ix rs)
raised_to_six t rs a h unshared =
    set_mode-IsApart t shared s_ix rs a h
      (admit_of_unshared t rs a (admit_of_held t shared rs a h) unshared)

-- Giving back.
all_compat-erase_request :
    (t : ℕ) (m : LockMode) (rs : List LockRequest)
    → all_compat m rs ≡ true
    → all_compat m (erase_request t rs) ≡ true
unfolding erase_request
all_compat-erase_request t m [] c = refl
all_compat-erase_request t m (r ∷ rs) c = ground (arith, all_compat-erase_request t m rs)

pub held_mode-erase_request :
    (t u : ℕ) (rs : List LockRequest)
    → IsApart rs
    → held_mode u (erase_request t rs) ≡ (if u == t then none else held_mode u rs)
unfolding held_mode erase_request
held_mode-erase_request t u [] a = ground arith
held_mode-erase_request t u (r ∷ rs) a = elim (Bool-cases (r.txn_id == t)) [
  | inl own ↦
      let same = (==_iff r.txn_id t).0 own in
      let unheld : held_mode t rs ≡ none = rw same at (a.1) in
      ground (arith, a.0, ap (λ x. held_mode x rs) {x = u} {y = t})
  | inr other ↦ ground (arith, a.0, held_mode-erase_request t u rs a.3)
]

pub erase_request-IsApart :
    (t : ℕ) (rs : List LockRequest) → IsApart rs → IsApart (erase_request t rs)
unfolding erase_request
erase_request-IsApart t [] a = tt
erase_request-IsApart t (r ∷ rs) a = ground (
  arith,
  erase_request-IsApart t rs a.3,
  all_compat-erase_request t r.lock_mode rs a.2,
  held_mode-erase_request t r.txn_id rs a.3,
  a.0,
)

-- The group mode computed anew admits what the locks admit.
pub compatible-regroup :
    (m : LockMode) (g : GroupLockMode) (rs : List LockRequest)
    → IsApart rs
    → compatible m (regroup g rs) ≡ (compatible m g && all_compat m rs)
unfolding regroup
compatible-regroup m g [] a = ground arith
compatible-regroup m g (r ∷ rs) a = rw (a.0) (
    compatible-regroup m (upgrade_group g r.lock_mode) rs a.3
    ∙ ground (arith, compatible-upgrade_group m g r.lock_mode))
