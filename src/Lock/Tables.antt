-- ===== src/Lock/Tables.antt =====
-- The lock table: `lock` and `unlock` touch one entry, and keep all entries sound.
use whu_db_practice.Prelude.{
  ℕ, ◌≡◌, refl, ap, subst, sym, ◌∙◌, ◌≢◌, ◌⊎◌, inl, inr, Bool, true, false, [], Option, none, some,
  arith, ◌==◌, if◌then◌else◌, Bool-cases, Option-cases, List-cases, some_inj, update, update_self,
}
use whu_db_practice.Lock.Modes.{LockMode, compat}
use whu_db_practice.Lock.Defs.{
  LockDataId, lock_data_id_eq, lock_data_id_eq_iff, lock_data_id_has_eq, LockRequestQueue,
  LockTable, Holder, held_mode, lock_queue, queue_of, queue_at, lock, erase_request, unlock_queue,
  unlock,
}
use whu_db_practice.Lock.Queue.{IsSound}
use whu_db_practice.Lock.Upgrade.{held_mode-erase_request}
use whu_db_practice.Lock.Invariant.{
  holds, lock_queue-IsSound, unlock_queue-IsSound, held-compat, empty-IsSound,
}
use whu_db_practice.Lock.Answers.{
  has_lock, lock_queue-LeavesOthers, lock_queue-IsTracked, lock_queue-Keeps,
}

abbrev pub AreSound : LockTable → Type 0
AreSound t = (lid : LockDataId) (q : LockRequestQueue) → t lid ≡ some q → IsSound q

pub queue_at-IsSound : (t : LockTable) (lid : LockDataId) → AreSound t → IsSound (queue_at t lid)
unfolding queue_at
queue_at-IsSound t lid v = elim (Option-cases (t lid)) [
  | inl e ↦ rw (e, queue_at) empty-IsSound
  | inr (q, e) ↦ rw (e, queue_at) (v lid q e)
]

-- Whatever the outcome of `lock`, every queue stays sound.
pub lock-AreSound :
    (txn : Holder) (lid : LockDataId) (mode : LockMode) (t : LockTable)
    → AreSound t
    → AreSound (lock txn lid mode t).1
unfolding lock
lock-AreSound txn lid mode t v l q h = elim (Bool-cases (lock_data_id_eq l lid)) [
  | inl same ↦
      let e = some_inj (rw same at h) in
      subst IsSound e (lock_queue-IsSound txn lid (queue_at t lid) (queue_at-IsSound t lid v) mode)
  | inr other ↦ v l q (rw other at h)
]

pub unlock-AreSound :
    (u : ℕ) (lid : LockDataId) (t : LockTable) → AreSound t → AreSound (unlock u lid t)
unfolding unlock
unlock-AreSound u lid t v = elim (Option-cases (t lid)) [
  | inl e ↦ rw (e, unlock) v
  | inr (q0, e) ↦
      rw (e, unlock)
        λ l q h. elim (Bool-cases (lock_data_id_eq l lid)) [
          | inl same ↦ unlock_queue-IsSound u q0 q (v lid q0 e) (rw same at h)
          | inr other ↦ v l q (rw other at h)
        ]
]

-- In a table of sound queues two transactions never hold incompatible locks on one item.
pub holds-compat :
    (t : LockTable) (lid : LockDataId) (u w : ℕ) (m n : LockMode)
    → AreSound t
    → u ≢ w
    → holds t u lid ≡ some m
    → holds t w lid ≡ some n
    → compat m n ≡ true
holds-compat t lid u w m n v ne h k =
    held-compat (queue_at t lid).request_queue u w m n (queue_at-IsSound t lid v).apart ne h k

module _ (txn : Holder) (lid : LockDataId) (mode : LockMode) (t : LockTable) where
  queue_at-lock_self :
      queue_at (lock txn lid mode t).1 lid ≡ (lock_queue txn lid mode (queue_at t lid)).1
  unfolding lock queue_at
  queue_at-lock_self =
      ap queue_of (update_self t lid (some (lock_queue txn lid mode (queue_of (t lid))).1))

  queue_at-lock_ne :
      (l : LockDataId)
      → lock_data_id_eq l lid ≡ false
      → queue_at (lock txn lid mode t).1 l ≡ queue_at t l
  unfolding lock queue_at
  queue_at-lock_ne l other = ap queue_of {x = (lock txn lid mode t).1 l} {y = t l} (ground arith)

  -- `lock` changes no lock of another transaction, and none on another item.
  pub holds-lock_ne :
      (u : ℕ) (l : LockDataId)
      → (u ≢ txn.txn_id) ⊎ (l ≢ lid)
      → holds (lock txn lid mode t).1 u l ≡ holds t u l
  holds-lock_ne u l apart = elim (Bool-cases (lock_data_id_eq l lid)) [
    | inr other ↦ ap (λ q. held_mode u q.request_queue) (queue_at-lock_ne l other)
    | inl same ↦
        let e = (lock_data_id_eq_iff l lid).0 same in
        elim apart [
          | inr ne ↦ absurd (ne e)
          | inl ne ↦ rw e (
              ap (λ q. held_mode u q.request_queue) queue_at-lock_self
              ∙ lock_queue-LeavesOthers txn lid (queue_at t lid) mode u ne)
        ]
  ]

  -- A lock that the caller has on the item stays, perhaps in a stronger mode.
  pub holds-lock_self :
      (m : LockMode)
      → holds t txn.txn_id lid ≡ some m
      → (n : LockMode) × (holds (lock txn lid mode t).1 txn.txn_id lid ≡ some n)
  holds-lock_self m h =
      let (n, kept) = lock_queue-Keeps txn lid (queue_at t lid) mode m h in
      (n, ap (λ q. held_mode txn.txn_id q.request_queue) queue_at-lock_self ∙ kept)

  -- Every lock that the caller holds after `lock` and did not hold before is in its lock set.
  pub lock-tracks :
      ((l : LockDataId) (m : LockMode)
        → holds t txn.txn_id l ≡ some m
        → has_lock l txn.lock_set ≡ true)
      → (l : LockDataId) (m : LockMode) → holds (lock txn lid mode t).1 txn.txn_id l ≡ some m
      → has_lock l (lock txn lid mode t).2.lock_set ≡ true
  unfolding lock
  lock-tracks tracked l m h =
      let (at_lid, grows) = lock_queue-IsTracked txn lid (queue_at t lid) mode in
      elim (Bool-cases (lock_data_id_eq l lid)) [
        | inr other ↦ grows l (
            tracked l m
              (sym (ap (λ q. held_mode txn.txn_id q.request_queue) (queue_at-lock_ne l other)) ∙ h))
        | inl same ↦
            let e = (lock_data_id_eq_iff l lid).0 same in
            elim at_lid [
              | inl listed ↦ rw e listed
              | inr unchanged ↦ grows l (
                  tracked l m (
                    subst (λ x. holds t txn.txn_id x ≡ some m) (sym e)
                      (sym unchanged
                        ∙ (sym (ap (λ q. held_mode txn.txn_id q.request_queue) queue_at-lock_self)
                            ∙ subst (λ x. holds (lock txn lid mode t).1 txn.txn_id x ≡ some m) e
                                h))))
            ]
      ]

unlock_requests :
    (u : ℕ) (q : LockRequestQueue)
    → (queue_of (unlock_queue u q)).request_queue ≡ erase_request u q.request_queue
unfolding unlock_queue
unlock_requests u q = elim (List-cases (erase_request u q.request_queue)) [
  | inl e ↦ rw (e, unlock_queue) refl
  | inr (r, rs, e) ↦ rw (e, unlock_queue) refl
]

-- After `unlock` the caller holds nothing on the item, and no other lock changes.
pub holds-unlock :
    (u : ℕ) (lid : LockDataId) (t : LockTable)
    → AreSound t
    → (w : ℕ) (l : LockDataId)
    → holds (unlock u lid t) w l
      ≡ (if lock_data_id_eq l lid then (if w == u then none else holds t w l) else holds t w l)
unfolding unlock queue_at held_mode
holds-unlock u lid t v w l = elim (Bool-cases (lock_data_id_eq l lid)) [
  | inl same ↦ let e = (lock_data_id_eq_iff l lid).0 same in rw (same, e) (at_self (t lid) refl)
  | inr other ↦ rw other (at_other (t lid) refl other)
]
  where
    nothing : (b : Bool) → held_mode w [] ≡ (if b then none else held_mode w [])
    nothing b = ground arith

    at_self :
        (o : Option LockRequestQueue)
        → t lid ≡ o
        → held_mode w (queue_of (unlock u lid t lid)).request_queue
          ≡ (if w == u then none else held_mode w (queue_of (t lid)).request_queue)
    at_self none e =
        let empty = ap (λ o. held_mode w (queue_of o).request_queue) e in
        rw (e, unlock) (empty ∙ nothing (w == u))
    at_self (some q) e =
        rw (e, unlock)
          (ap (λ o. held_mode w (queue_of o).request_queue) (update_self t lid (unlock_queue u q))
            ∙ (ap (held_mode w) (unlock_requests u q)
                ∙ held_mode-erase_request u w q.request_queue (v lid q e).apart))

    at_other :
        (o : Option LockRequestQueue)
        → t lid ≡ o
        → lock_data_id_eq l lid ≡ false
        → held_mode w (queue_of (unlock u lid t l)).request_queue
          ≡ held_mode w (queue_of (t l)).request_queue
    at_other none e ne = rw (e, unlock) refl
    at_other (some q) e ne =
        rw (e, unlock)
          (ap (λ o. held_mode w (queue_of o).request_queue) {x = update t lid (unlock_queue u q) l}
            {y = t l} (ground arith))
