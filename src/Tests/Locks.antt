-- ===== src/Tests/Locks.antt =====
-- The lock manager with two transactions on one table.
use whu_db_practice.Prelude.{ℕ, ◌≡◌, refl, ◌≢◌, true, false, List, [], ◌∷◌, none, some, arith}
use whu_db_practice.Lock.Modes.{
  LockMode, shared, exclusive, intention_shared, intention_exclusive, s_ix, group_s, compat,
  compatible, upgrade_group,
}
use whu_db_practice.Lock.Defs.{
  LockDataId, table_id, LockRequestQueue, Holder, insert_lock, held_mode, set_mode, others_granted,
  others_share, any_waiting, locked, aborted, upgrade_conflict, deadlock_prevention,
  upgrade_to_exclusive, upgrade_to_six, relock, first_lock, lock_queue, queue_at, lock,
  erase_request, regroup, unlock_queue, unlock,
}
use whu_db_practice.Lock.Queue.{IsSound, all_compat}
use whu_db_practice.Lock.Invariant.{holds}
use whu_db_practice.Lock.Answers.{lock_queue_first, lock_queue_upgrade}
use whu_db_practice.Lock.Histories.{
  start, release_locks, Event, locks, finishes, step, run, start-IsOrderly,
}
use whu_db_practice.Lock.Exclusion.{run-compat, run_finishes, step_keeps_locks, run-IsOrderly}

program : Unit {0}
unfolding compatible upgrade_group compat insert_lock held_mode set_mode others_granted others_share
    any_waiting upgrade_to_exclusive upgrade_to_six relock first_lock lock_queue queue_at lock
    erase_request regroup unlock_queue unlock release_locks step run
program = tt

abbrev lid : LockDataId
lid = table_id 5

abbrev both : List Event
both = locks 1 lid intention_exclusive ∷ locks 2 lid intention_exclusive ∷ []

run-compat_example : compat intention_exclusive intention_exclusive ≡ true
unfolding program
run-compat_example =
    run-compat both 1 2 lid intention_exclusive intention_exclusive (omega arith) refl refl

run_finishes_example :
    ((l : LockDataId) → holds (step (finishes 1) (run both start)).table 1 l ≡ none)
    × ((w : ℕ) (l : LockDataId)
        → w ≢ 1
        → holds (step (finishes 1) (run both start)).table w l ≡ holds (run both start).table w l)
run_finishes_example = run_finishes both 1

step_keeps_locks_example :
    (n : LockMode) × (holds (step (finishes 2) (run both start)).table 1 lid ≡ some n)
unfolding program
step_keeps_locks_example =
    step_keeps_locks (run both start) (run-IsOrderly both start start-IsOrderly) (finishes 2) 1 lid
      intention_exclusive (λ e. ground arith) refl

-- Transaction 1 reads the table.
abbrev reading : LockRequestQueue
reading = record {
  request_queue = record { txn_id = 1; lock_mode = shared; granted = true } ∷ [];
  group_lock_mode = group_s;
}

reading-IsSound : IsSound reading
unfolding compatible held_mode compat
reading-IsSound = record {
  apart = (refl, refl, refl, tt);
  group = elim [
    | shared ↦ refl
    | exclusive ↦ refl
    | intention_shared ↦ refl
    | intention_exclusive ↦ refl
    | s_ix ↦ refl
  ];
}

abbrev second : Holder
second = record { txn_id = 2; lock_set = [] }

lock_queue_first_example :
    (all_compat exclusive reading.request_queue ≡ true
      → ((lock_queue second lid exclusive reading).0 ≡ locked)
        × (held_mode 2 (lock_queue second lid exclusive reading).1.request_queue ≡ some exclusive))
    × (all_compat exclusive reading.request_queue ≡ false
        → lock_queue second lid exclusive reading ≡ (aborted deadlock_prevention, reading, []))
unfolding held_mode
lock_queue_first_example = lock_queue_first second lid reading exclusive reading-IsSound refl

abbrev first : Holder
first = record { txn_id = 1; lock_set = lid ∷ [] }

lock_queue_upgrade_example :
    (((u : ℕ) → u ≢ 1 → held_mode u reading.request_queue ≡ none)
      → ((lock_queue first lid exclusive reading).0 ≡ locked)
        × (held_mode 1 (lock_queue first lid exclusive reading).1.request_queue ≡ some exclusive)
        × ((u : ℕ)
            → u ≢ 1
            → held_mode u (lock_queue first lid exclusive reading).1.request_queue ≡ none))
    × ((u : ℕ) (m : LockMode)
        → u ≢ 1
        → held_mode u reading.request_queue ≡ some m
        → lock_queue first lid exclusive reading ≡ (aborted upgrade_conflict, reading, lid ∷ []))
unfolding held_mode
lock_queue_upgrade_example = lock_queue_upgrade first lid reading refl
