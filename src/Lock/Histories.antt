-- ===== src/Lock/Histories.antt =====
-- Any number of transactions, interleaved in any order: each takes locks one by one, and gives all
-- back in `TransactionManager::commit` or `abort` (transaction/transaction_manager.cpp).
use whu_db_practice.Prelude.{
  ℕ, ◌≡◌, refl, ap, ◌∙◌, Bool, true, List, [], ◌∷◌, Option, none, some, arith, ◌==◌, if◌then◌else◌,
  update, nat_eq,
}
use whu_db_practice.Lock.Modes.{LockMode}
use whu_db_practice.Lock.Defs.{
  LockDataId, lock_data_id_eq, LockTable, Holder, held_mode, lock, unlock, queue_at,
}
use whu_db_practice.Lock.Invariant.{holds}
use whu_db_practice.Lock.Answers.{has_lock}
use whu_db_practice.Lock.Tables.{AreSound, unlock-AreSound, holds-unlock}

pub record System : Type 0 where
  pub table : LockTable
  pub txns : ℕ → Holder

abbrev pub start : System
start = record { table = λ _. none; txns = λ t. record { txn_id = t; lock_set = [] } }

-- The loop over the lock set in `commit` and `abort`.
unfoldable pub release_locks : ℕ → List LockDataId → LockTable → LockTable
release_locks u [] t = t
release_locks u (lid ∷ ls) t = release_locks u ls (unlock u lid t)

pub data Event : Type 0 where
  locks : ℕ → LockDataId → LockMode → Event
  finishes : ℕ → Event

unfoldable pub step : Event → System → System
step (locks u lid mode) s =
    let (_, t, txn) = lock (s.txns u) lid mode s.table in
    record { table = t; txns = update s.txns u txn }
step (finishes u) s = record {
  table = release_locks (s.txns u).txn_id (s.txns u).lock_set s.table;
  txns = update s.txns u (record (s.txns u) { lock_set = [] });
}

unfoldable pub run : List Event → System → System
run [] s = s
run (e ∷ es) s = run es (step e s)

pub record IsOrderly (s : System) : Type 0 where
  pub sound : AreSound s.table
  pub named : (u : ℕ) → (s.txns u).txn_id ≡ u
  pub tracked :
      (u : ℕ) (l : LockDataId) (m : LockMode)
      → holds s.table u l ≡ some m
      → has_lock l (s.txns u).lock_set ≡ true

pub release_locks-AreSound :
    (u : ℕ) (ls : List LockDataId) (t : LockTable) → AreSound t → AreSound (release_locks u ls t)
unfolding release_locks
release_locks-AreSound u [] t v = v
release_locks-AreSound u (lid ∷ ls) t v =
    release_locks-AreSound u ls (unlock u lid t) (unlock-AreSound u lid t v)

-- The loop takes the transaction's locks on the listed items, and nothing else.
pub holds-release_locks :
    (u : ℕ) (ls : List LockDataId) (t : LockTable)
    → AreSound t
    → (w : ℕ) (l : LockDataId)
    → holds (release_locks u ls t) w l
      ≡ (if has_lock l ls then (if w == u then none else holds t w l) else holds t w l)
unfolding release_locks
holds-release_locks u [] t v w l = refl
holds-release_locks u (lid ∷ ls) t v w l =
    holds-release_locks u ls (unlock u lid t) (unlock-AreSound u lid t v) w l
    ∙ (ap (λ h. if has_lock l ls then (if w == u then none else h) else h)
          (holds-unlock u lid t v w l)
        ∙ merge (lock_data_id_eq l lid) (has_lock l ls) (w == u) (holds t w l))
  where
    merge :
        (here later own : Bool) (h : Option LockMode)
        → (if later
            then (if own then none else if here then (if own then none else h) else h)
            else if here
            then (if own then none else h)
            else h)
          ≡ (if (if here then true else later) then (if own then none else h) else h)
    merge here later own h = ground arith

pub start-IsOrderly : IsOrderly start
unfolding queue_at held_mode
start-IsOrderly = record { sound = λ lid q h. cc; named = λ u. refl; tracked = λ u l m h. cc }
