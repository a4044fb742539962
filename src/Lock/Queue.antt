-- ===== src/Lock/Queue.antt =====
-- The invariant of one lock queue: every request is granted, no transaction has two, the locks of
-- different transactions are compatible, and the group mode says what the queue admits.
use whu_db_practice.Prelude.{
  ℕ, ◌≡◌, refl, ◌≢◌, inl, inr, Bool, true, false, ◌&&◌, List, [], ◌∷◌, ◌++◌, none, some, arith,
  ◌==◌, Bool-cases, some_inj,
}
use whu_db_practice.Lock.Modes.{LockMode, compatible, compat, compat_comm}
use whu_db_practice.Lock.Defs.{LockRequest, LockRequestQueue, held_mode, any_waiting, set_mode}

-- A mode is compatible with every lock of the queue.
abbrev pub all_compat : LockMode → List LockRequest → Bool
all_compat m [] = true
all_compat m (r ∷ rs) = compat m r.lock_mode && all_compat m rs

abbrev pub IsApart : List LockRequest → Type 0
IsApart [] = Unit
IsApart (r ∷ rs) =
    (r.granted ≡ true)
    × (held_mode r.txn_id rs ≡ none)
    × (all_compat r.lock_mode rs ≡ true)
    × IsApart rs

pub record IsSound (q : LockRequestQueue) : Type 0 where
  pub apart : IsApart q.request_queue
  pub group : (m : LockMode) → compatible m q.group_lock_mode ≡ all_compat m q.request_queue

pub all_compat-append :
    (m : LockMode) (rs : List LockRequest) (r : LockRequest)
    → all_compat m (rs ++ r ∷ []) ≡ (all_compat m rs && compat m r.lock_mode)
all_compat-append m [] r = ground arith
all_compat-append m (x ∷ rs) r = ground (arith, all_compat-append m rs r)

pub held_mode-append :
    (t : ℕ) (rs : List LockRequest) (r : LockRequest)
    → (r.txn_id == t) ≡ false
    → held_mode t (rs ++ r ∷ []) ≡ held_mode t rs
unfolding held_mode
held_mode-append t [] r h = ground arith
held_mode-append t (x ∷ rs) r h = ground (arith, held_mode-append t rs r h)

-- A lock at the end of the queue.
pub append-IsApart :
    (rs : List LockRequest) (r : LockRequest)
    → IsApart rs
    → r.granted ≡ true
    → held_mode r.txn_id rs ≡ none
    → all_compat r.lock_mode rs ≡ true
    → IsApart (rs ++ r ∷ [])
unfolding held_mode
append-IsApart [] r a g h c = (g, refl, refl, tt)
append-IsApart (x ∷ rs) r a g h c = ground (
  arith,
  append-IsApart rs r a.3 g,
  held_mode-append x.txn_id rs r,
  all_compat-append x.lock_mode rs r,
  compat_comm x.lock_mode r.lock_mode,
)

-- No request waits.
pub IsApart-any_waiting : (rs : List LockRequest) → IsApart rs → any_waiting rs ≡ false
unfolding any_waiting
IsApart-any_waiting [] a = refl
IsApart-any_waiting (r ∷ rs) a = ground (arith, IsApart-any_waiting rs a.3)

pub and_swap : (a b c d : Bool) → a ≡ (b && d) → (a && c) ≡ ((b && c) && d)
and_swap a b c d e = ground arith

pub and_regroup : (a b c : Bool) → (a && (b && c)) ≡ ((a && b) && c)
and_regroup a b c = ground arith

-- A transaction's own lock gets a new mode, which admits less: `n` beside the old mode.
pub all_compat-set_mode :
    (m : LockMode) (t : ℕ) (old new n : LockMode) (rs : List LockRequest)
    → held_mode t rs ≡ some old
    → compat m new ≡ (compat m old && compat m n)
    → all_compat m (set_mode t new rs) ≡ (all_compat m rs && compat m n)
unfolding held_mode set_mode
all_compat-set_mode m t old new n [] h e = ground arith
all_compat-set_mode m t old new n (r ∷ rs) h e = elim (Bool-cases (r.txn_id == t && r.granted)) [
  | inl own ↦
      let same : r.lock_mode ≡ old = some_inj (rw (own, held_mode) at h) in
      rw (own, set_mode, same)
        (and_swap (compat m new) (compat m old) (all_compat m rs) (compat m n) e)
  | inr other ↦
      let later : held_mode t rs ≡ some old = rw (other, held_mode) at h in
      rw (other, set_mode, all_compat-set_mode m t old new n rs later e)
        (and_regroup (compat m r.lock_mode) (all_compat m rs) (compat m n))
]

pub held_mode-set_mode_ne :
    (t u : ℕ) (new : LockMode) (rs : List LockRequest)
    → u ≢ t
    → held_mode u (set_mode t new rs) ≡ held_mode u rs
unfolding held_mode set_mode
held_mode-set_mode_ne t u new [] ne = refl
held_mode-set_mode_ne t u new (r ∷ rs) ne = ground (arith, held_mode-set_mode_ne t u new rs)

pub held_mode-set_mode :
    (t : ℕ) (old new : LockMode) (rs : List LockRequest)
    → held_mode t rs ≡ some old
    → held_mode t (set_mode t new rs) ≡ some new
unfolding held_mode set_mode
held_mode-set_mode t old new [] h = ground arith
held_mode-set_mode t old new (r ∷ rs) h = ground (arith, held_mode-set_mode t old new rs)
