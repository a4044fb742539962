-- ===== src/Lock/Answers.antt =====
-- What one call of `lock` answers, and what it changes for whom.
use whu_db_practice.Prelude.{
  ℕ, ◌≡◌, refl, ◌∙◌, ◌≢◌, ◌⊎◌, inl, inr, Bool, true, false, List, [], ◌∷◌, ◌++◌, none, some, arith,
  if◌then◌else◌, Bool-cases, Option-cases,
}
use whu_db_practice.Lock.Modes.{LockMode, shared, exclusive, s_ix, compatible}
use whu_db_practice.Lock.Defs.{
  LockDataId, lock_data_id_eq, lock_data_id_eq_iff, LockRequest, LockRequestQueue, Holder,
  insert_lock, held_mode, others_granted, others_share, any_waiting, locked, aborted,
  upgrade_conflict, deadlock_prevention, upgrade_to_exclusive, upgrade_to_six, relock, first_lock,
  lock_queue, Answer,
}
use whu_db_practice.Lock.Queue.{
  all_compat, IsSound, held_mode-append, IsApart-any_waiting, held_mode-set_mode,
  held_mode-set_mode_ne,
}
use whu_db_practice.Lock.Invariant.{relock_cases}

abbrev pub has_lock : LockDataId → List LockDataId → Bool
has_lock l [] = false
has_lock l (k ∷ ks) = if lock_data_id_eq l k then true else has_lock l ks

pub has_lock-insert_lock :
    (l k : LockDataId) (ks : List LockDataId)
    → has_lock l (insert_lock k ks) ≡ (if lock_data_id_eq l k then true else has_lock l ks)
unfolding insert_lock
has_lock-insert_lock l k [] = refl
has_lock-insert_lock l k (j ∷ ks) = elim (Bool-cases (lock_data_id_eq k j)) [
  | inl same ↦
      let e = (lock_data_id_eq_iff k j).0 same in
      rw (same, insert_lock, e) (twice (lock_data_id_eq l j) (has_lock l ks))
  | inr other ↦
      rw (other, insert_lock, has_lock-insert_lock l k ks)
        (swap (lock_data_id_eq l j) (lock_data_id_eq l k) (has_lock l ks))
]
  where
    twice : (a b : Bool) → (if a then true else b) ≡ (if a then true else if a then true else b)
    twice a b = ground arith

    swap :
        (a b c : Bool)
        → (if a then true else if b then true else c) ≡ (if b then true else if a then true else c)
    swap a b c = ground arith

held_mode-append_none :
    (t : ℕ) (rs : List LockRequest) (r : LockRequest)
    → held_mode t rs ≡ none
    → r.txn_id ≡ t
    → r.granted ≡ true
    → held_mode t (rs ++ r ∷ []) ≡ some r.lock_mode
unfolding held_mode
held_mode-append_none t [] r h e g = ground arith
held_mode-append_none t (x ∷ rs) r h e g = ground (arith, held_mode-append_none t rs r)

-- The loop over the queue finds another transaction's lock exactly if there is one.
others_granted-none :
    (t : ℕ) (rs : List LockRequest)
    → ((u : ℕ) → u ≢ t → held_mode u rs ≡ none)
    → others_granted t rs ≡ false
unfolding others_granted held_mode
others_granted-none t [] h = refl
others_granted-none t (r ∷ rs) h =
    let ih = others_granted-none t rs (λ u ne. let k = h u ne in ground arith) in
    ground (arith, h r.txn_id)

others_granted-held :
    (t u : ℕ) (m : LockMode) (rs : List LockRequest)
    → u ≢ t
    → held_mode u rs ≡ some m
    → others_granted t rs ≡ true
unfolding others_granted held_mode
others_granted-held t u m [] ne h = absurd (ground arith)
others_granted-held t u m (r ∷ rs) ne h = ground (arith, others_granted-held t u m rs ne)

module _ (txn : Holder) (lid : LockDataId) (q : LockRequestQueue) where
  -- No other transaction's lock changes,
  abbrev LeavesOthers : Answer → Type 0
  LeavesOthers a =
      (u : ℕ) → u ≢ txn.txn_id → held_mode u a.1.request_queue ≡ held_mode u q.request_queue

  pub lock_queue-LeavesOthers : (mode : LockMode) → LeavesOthers (lock_queue txn lid mode q)
  unfolding lock_queue first_lock upgrade_to_exclusive upgrade_to_six
  lock_queue-LeavesOthers mode = elim (Option-cases (held_mode txn.txn_id q.request_queue)) [
    | inl e ↦ rw (e, lock_queue) (λ u ne. first u ne)
    | inr (held, e) ↦
        rw (e, lock_queue)
          (relock_cases txn lid q LeavesOthers mode held (λ u ne. refl)
            (λ _ u ne.
              ground (arith, held_mode-set_mode_ne txn.txn_id u exclusive q.request_queue ne))
            (λ _ u ne. ground (arith, held_mode-set_mode_ne txn.txn_id u s_ix q.request_queue ne)))
  ]
    where
      first :
          (u : ℕ)
          → u ≢ txn.txn_id
          → held_mode u (first_lock txn lid mode q).1.request_queue ≡ held_mode u q.request_queue
      first u ne = ground (
        arith,
        held_mode-append u q.request_queue
            (record { txn_id = txn.txn_id; lock_mode = mode; granted = true }) (ground arith),
      )

  -- A lock that the transaction has after the call it had before, or its id is in the lock set.
  abbrev IsTracked : Answer → Type 0
  IsTracked a =
      (has_lock lid a.2 ≡ true)
      ⊎ (held_mode txn.txn_id a.1.request_queue ≡ held_mode txn.txn_id q.request_queue)

  abbrev Grows : Answer → Type 0
  Grows a = (l : LockDataId) → has_lock l txn.lock_set ≡ true → has_lock l a.2 ≡ true

  inserted : has_lock lid (insert_lock lid txn.lock_set) ≡ true
  inserted =
      rw (has_lock-insert_lock lid lid txn.lock_set, (lock_data_id_eq_iff lid lid).1 refl) refl

  grown :
      (l : LockDataId)
      → has_lock l txn.lock_set ≡ true
      → has_lock l (insert_lock lid txn.lock_set) ≡ true
  grown l h = ground (arith, has_lock-insert_lock l lid txn.lock_set)

  upgrade_to_exclusive-IsTracked :
      IsTracked (upgrade_to_exclusive txn lid q) × Grows (upgrade_to_exclusive txn lid q)
  unfolding upgrade_to_exclusive
  upgrade_to_exclusive-IsTracked = elim (Bool-cases (others_granted txn.txn_id q.request_queue)) [
    | inl busy ↦ rw (busy, upgrade_to_exclusive) (inr refl, λ l h. h)
    | inr alone ↦ rw (alone, upgrade_to_exclusive) (inl inserted, grown)
  ]

  upgrade_to_six-IsTracked : IsTracked (upgrade_to_six txn lid q) × Grows (upgrade_to_six txn lid q)
  unfolding upgrade_to_six
  upgrade_to_six-IsTracked = elim (Bool-cases (others_share txn.txn_id q.request_queue)) [
    | inl busy ↦ rw (busy, upgrade_to_six) (inr refl, λ l h. h)
    | inr unshared ↦ rw (unshared, upgrade_to_six) (inl inserted, grown)
  ]

  first_lock-IsTracked :
      (mode : LockMode) → IsTracked (first_lock txn lid mode q) × Grows (first_lock txn lid mode q)
  unfolding first_lock
  first_lock-IsTracked mode = elim (Bool-cases (compatible mode q.group_lock_mode)) [
    | inr refused ↦ rw (refused, first_lock) (inr refl, λ l h. h)
    | inl admitted ↦ elim (Bool-cases (any_waiting q.request_queue)) [
      | inl waiting ↦ rw (admitted, first_lock, waiting) (inr refl, λ l h. h)
      | inr free ↦ rw (admitted, first_lock, free) (inl inserted, grown)
    ]
  ]

  pub lock_queue-IsTracked :
      (mode : LockMode) → IsTracked (lock_queue txn lid mode q) × Grows (lock_queue txn lid mode q)
  unfolding lock_queue
  lock_queue-IsTracked mode = elim (Option-cases (held_mode txn.txn_id q.request_queue)) [
    | inl e ↦ rw (e, lock_queue, ← e) (first_lock-IsTracked mode)
    | inr (held, e) ↦
        rw (e, lock_queue, ← e)
          (relock_cases txn lid q (λ a. IsTracked a × Grows a) mode held (inr refl, λ l h. h)
            (λ _. upgrade_to_exclusive-IsTracked) (λ _. upgrade_to_six-IsTracked))
  ]

  -- A transaction without a lock in a sound queue gets the mode that it asks for if the mode is
  -- compatible with every lock of the queue; if not, it is aborted to prevent a deadlock, and the
  -- queue and its lock set stay as they are.
  pub lock_queue_first :
      (mode : LockMode)
      → IsSound q
      → held_mode txn.txn_id q.request_queue ≡ none
      → (all_compat mode q.request_queue ≡ true
          → ((lock_queue txn lid mode q).0 ≡ locked)
            × (held_mode txn.txn_id (lock_queue txn lid mode q).1.request_queue ≡ some mode))
        × (all_compat mode q.request_queue ≡ false
            → lock_queue txn lid mode q ≡ (aborted deadlock_prevention, q, txn.lock_set))
  unfolding lock_queue first_lock
  lock_queue_first mode v e =
      let r : LockRequest = record { txn_id = txn.txn_id; lock_mode = mode; granted = true } in
      (
        λ c.
            let ok : compatible mode q.group_lock_mode ≡ true = v.group mode ∙ c in
            rw (e, lock_queue, ok, first_lock, IsApart-any_waiting q.request_queue v.apart)
              (refl, held_mode-append_none txn.txn_id q.request_queue r e refl refl),
        λ c.
            let bad : compatible mode q.group_lock_mode ≡ false = v.group mode ∙ c in
            rw (e, lock_queue, bad, first_lock) refl,
      )

  -- A holder of a shared lock that asks for the exclusive one gets it if no other transaction holds
  -- a lock of the queue, and no other transaction gets one thereby; if another holds one, in any
  -- mode, it is aborted for the conflict, and the queue and its lock set stay as they are.
  pub lock_queue_upgrade :
      held_mode txn.txn_id q.request_queue ≡ some shared
      → (((u : ℕ) → u ≢ txn.txn_id → held_mode u q.request_queue ≡ none)
          → ((lock_queue txn lid exclusive q).0 ≡ locked)
            × (held_mode txn.txn_id (lock_queue txn lid exclusive q).1.request_queue
                ≡ some exclusive)
            × ((u : ℕ)
                → u ≢ txn.txn_id
                → held_mode u (lock_queue txn lid exclusive q).1.request_queue ≡ none))
        × ((u : ℕ) (m : LockMode)
            → u ≢ txn.txn_id
            → held_mode u q.request_queue ≡ some m
            → lock_queue txn lid exclusive q ≡ (aborted upgrade_conflict, q, txn.lock_set))
  unfolding lock_queue relock upgrade_to_exclusive
  lock_queue_upgrade e = (
    λ none_other.
        let alone = others_granted-none txn.txn_id q.request_queue none_other in
        (
          rw (e, lock_queue, relock, alone, upgrade_to_exclusive) refl,
          rw (e, lock_queue, relock, alone, upgrade_to_exclusive)
              (held_mode-set_mode txn.txn_id shared exclusive q.request_queue e),
          λ u ne. lock_queue-LeavesOthers exclusive u ne ∙ none_other u ne,
        ),
    λ u m ne h.
        let busy = others_granted-held txn.txn_id u m q.request_queue ne h in
        rw (e, lock_queue, relock, busy, upgrade_to_exclusive) refl,
  )

  -- A holder of any lock but a shared one is answered `true` for every mode, and neither the queue
  -- nor its lock set changes: it keeps the mode that it had, also where it asked for a stronger one.
  pub lock_queue_weak :
      (mode held : LockMode)
      → held_mode txn.txn_id q.request_queue ≡ some held
      → held ≢ shared
      → lock_queue txn lid mode q ≡ (locked, q, txn.lock_set)
  unfolding lock_queue
  lock_queue_weak mode held e weak =
      rw (e, lock_queue)
        (relock_cases txn lid q (λ a. a ≡ (locked, q, txn.lock_set)) mode held refl
          (λ share. absurd (weak share)) (λ share. absurd (weak share)))

  abbrev Keeps : Answer → Type 0
  Keeps a = (n : LockMode) × (held_mode txn.txn_id a.1.request_queue ≡ some n)

  pub lock_queue-Keeps :
      (mode held : LockMode)
      → held_mode txn.txn_id q.request_queue ≡ some held
      → Keeps (lock_queue txn lid mode q)
  unfolding lock_queue upgrade_to_exclusive upgrade_to_six
  lock_queue-Keeps mode held e =
      rw (e, lock_queue)
        (relock_cases txn lid q Keeps mode held (held, e)
          (λ _. elim (Bool-cases (others_granted txn.txn_id q.request_queue)) [
            | inl busy ↦ rw (busy, upgrade_to_exclusive) (held, e)
            | inr alone ↦
                rw (alone, upgrade_to_exclusive)
                  (exclusive, held_mode-set_mode txn.txn_id held exclusive q.request_queue e)
          ])
          (λ _. elim (Bool-cases (others_share txn.txn_id q.request_queue)) [
            | inl busy ↦ rw (busy, upgrade_to_six) (held, e)
            | inr unshared ↦
                rw (unshared, upgrade_to_six)
                  (s_ix, held_mode-set_mode txn.txn_id held s_ix q.request_queue e)
          ]))
