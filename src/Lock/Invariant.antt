-- ===== src/Lock/Invariant.antt =====
-- `lock` and `unlock` keep every queue sound; what a call answers, and what it leaves alone.
use whu_db_practice.Prelude.{
  ℕ, ◌≡◌, refl, ap, subst, sym, ◌∙◌, ◌≢◌, inl, inr, true, ◌&&◌, List, [], ◌∷◌, Option, none, some,
  arith, Bool-cases, Option-cases, List-cases,
}
use whu_db_practice.Lock.Modes.{
  LockMode, shared, exclusive, intention_exclusive, s_ix, non_lock, mode_eq, compatible,
  upgrade_group, compat, compat_comm, compatible-upgrade_group,
}
use whu_db_practice.Lock.Defs.{
  LockDataId, lock_data_id_has_eq, LockRequest, LockRequestQueue, empty_queue, LockTable, Holder,
  held_mode, set_mode, others_granted, others_share, locked, Answer, upgrade_to_exclusive,
  upgrade_to_six, relock, first_lock, lock_queue, queue_at, erase_request, regroup, unlock_queue,
}
use whu_db_practice.Lock.Queue.{
  all_compat, IsApart, IsSound, all_compat-append, append-IsApart, IsApart-any_waiting,
  all_compat-set_mode,
}
use whu_db_practice.Lock.Upgrade.{
  raised_to_exclusive, raised_to_six, erase_request-IsApart, compatible-regroup, compat_held,
}

-- The lock of a transaction in a queue, and under a lock id.
abbrev pub holds : LockTable → ℕ → LockDataId → Option LockMode
holds t txn_id lid = held_mode txn_id (queue_at t lid).request_queue

compatible-non_lock : (m : LockMode) → compatible m non_lock ≡ true
unfolding compatible
compatible-non_lock m = refl

exclusive_beside : (m old : LockMode) → compat m exclusive ≡ (compat m old && compat m exclusive)
unfolding compat
exclusive_beside m old = ground arith

six_beside : (m : LockMode) → compat m s_ix ≡ (compat m shared && compat m intention_exclusive)
unfolding compat
six_beside m = ground arith

eq_of_mode_eq : (m n : LockMode) → mode_eq m n ≡ true → m ≡ n
eq_of_mode_eq m n h = ground arith

-- The branches of `relock`: nothing is done, or one of two upgrades of a shared lock.
pub relock_cases {ℓ} :
    (txn : Holder) (lid : LockDataId) (q : LockRequestQueue) (P : Answer → Type ℓ)
    (mode held : LockMode)
    → P (locked, q, txn.lock_set)
    → (held ≡ shared → P (upgrade_to_exclusive txn lid q))
    → (held ≡ shared → P (upgrade_to_six txn lid q))
    → P (relock txn lid mode held q)
unfolding relock
relock_cases txn lid q P mode held same exclusively with_intention =
    elim (Bool-cases (mode_eq mode held)) [
      | inl e ↦ rw (e, relock) same
      | inr e ↦ elim (Bool-cases (mode_eq held shared)) [
        | inr f ↦
            rw (e, relock, f)
              (elim (Bool-cases (mode_eq mode exclusive)) [
                | inl g ↦ rw g (elim (Bool-cases (mode_eq mode intention_exclusive)) [
                  | inl k ↦ rw k same
                  | inr k ↦ rw k same
                ])
                | inr g ↦ rw g (elim (Bool-cases (mode_eq mode intention_exclusive)) [
                  | inl k ↦ rw k same
                  | inr k ↦ rw k same
                ])
              ])
        | inl f ↦
            let share = eq_of_mode_eq held shared f in
            rw (e, relock, f)
              (elim (Bool-cases (mode_eq mode exclusive)) [
                | inl g ↦ rw g (exclusively share)
                | inr g ↦ rw g (elim (Bool-cases (mode_eq mode intention_exclusive)) [
                  | inl k ↦ rw k (with_intention share)
                  | inr k ↦ rw k same
                ])
              ])
      ]
    ]

module _ (txn : Holder) (lid : LockDataId) (q : LockRequestQueue) (v : IsSound q) where
  first_lock-IsSound :
      (mode : LockMode)
      → held_mode txn.txn_id q.request_queue ≡ none
      → IsSound (first_lock txn lid mode q).1
  unfolding first_lock
  first_lock-IsSound mode h = elim (Bool-cases (compatible mode q.group_lock_mode)) [
    | inr refused ↦ rw (refused, first_lock) v
    | inl admitted ↦
        rw (admitted, first_lock, IsApart-any_waiting q.request_queue v.apart)
          (record {
            apart = append-IsApart q.request_queue _ v.apart refl h (sym (v.group mode) ∙ admitted);
            group = λ m.
                compatible-upgrade_group m q.group_lock_mode mode
                ∙ (ap (λ x. x && compat m mode) (v.group m)
                    ∙ sym (all_compat-append m q.request_queue _));
          })
  ]

  raised-group :
      (old new n : LockMode)
      → held_mode txn.txn_id q.request_queue ≡ some old
      → ((m : LockMode) → compat m new ≡ (compat m old && compat m n))
      → (m : LockMode)
      → compatible m (upgrade_group q.group_lock_mode n)
        ≡ all_compat m (set_mode txn.txn_id new q.request_queue)
  raised-group old new n h e m =
      compatible-upgrade_group m q.group_lock_mode n
      ∙ (ap (λ x. x && compat m n) (v.group m)
          ∙ sym (all_compat-set_mode m txn.txn_id old new n q.request_queue h (e m)))

  upgrade_to_exclusive-IsSound :
      (held : LockMode)
      → held_mode txn.txn_id q.request_queue ≡ some held
      → IsSound (upgrade_to_exclusive txn lid q).1
  unfolding upgrade_to_exclusive
  upgrade_to_exclusive-IsSound held h =
      elim (Bool-cases (others_granted txn.txn_id q.request_queue)) [
        | inl busy ↦ rw (busy, upgrade_to_exclusive) v
        | inr alone ↦
            rw (alone, upgrade_to_exclusive)
              (record {
                apart =
                    raised_to_exclusive txn.txn_id held exclusive q.request_queue v.apart h alone;
                group = raised-group held exclusive exclusive h (λ m. exclusive_beside m held);
              })
      ]

  upgrade_to_six-IsSound :
      held_mode txn.txn_id q.request_queue ≡ some shared → IsSound (upgrade_to_six txn lid q).1
  unfolding upgrade_to_six
  upgrade_to_six-IsSound h = elim (Bool-cases (others_share txn.txn_id q.request_queue)) [
    | inl busy ↦ rw (busy, upgrade_to_six) v
    | inr unshared ↦
        rw (unshared, upgrade_to_six)
          (record {
            apart = raised_to_six txn.txn_id q.request_queue v.apart h unshared;
            group = raised-group shared s_ix intention_exclusive h six_beside;
          })
  ]

  relock-IsSound :
      (mode held : LockMode)
      → held_mode txn.txn_id q.request_queue ≡ some held
      → IsSound (relock txn lid mode held q).1
  relock-IsSound mode held h =
      relock_cases txn lid q (λ a. IsSound a.1) mode held v
        (λ e. upgrade_to_exclusive-IsSound held h) (λ e. upgrade_to_six-IsSound (rw e at h))

  -- Whatever a call of `lock` answers, the queue stays sound.
  pub lock_queue-IsSound : (mode : LockMode) → IsSound (lock_queue txn lid mode q).1
  unfolding lock_queue
  lock_queue-IsSound mode = elim (Option-cases (held_mode txn.txn_id q.request_queue)) [
    | inl e ↦ rw (e, lock_queue) (first_lock-IsSound mode e)
    | inr (held, e) ↦ rw (e, lock_queue) (relock-IsSound mode held e)
  ]

-- What `unlock` leaves of a queue is sound.
pub unlock_queue-IsSound :
    (t : ℕ) (q q' : LockRequestQueue) → IsSound q → unlock_queue t q ≡ some q' → IsSound q'
unfolding unlock_queue
unlock_queue-IsSound t q q' v h = elim (List-cases (erase_request t q.request_queue)) [
  | inl e ↦ absurd (ground arith)
  | inr (r, rs, e) ↦
      let a : IsApart (r ∷ rs) = rw e at (erase_request-IsApart t q.request_queue v.apart) in
      let same : record { request_queue = r ∷ rs; group_lock_mode = regroup non_lock (r ∷ rs) }
          ≡ q' =
        ground arith in
      subst IsSound same (record {
        apart = a;
        group = λ m. compatible-regroup m non_lock (r ∷ rs) a ∙ admits_all m (r ∷ rs);
      })
]
  where
    admits_all :
        (m : LockMode) (rs : List LockRequest)
        → (compatible m non_lock && all_compat m rs) ≡ all_compat m rs
    admits_all m rs = rw (compatible-non_lock m) refl

-- In a sound queue the locks of different transactions are compatible.
pub held-compat :
    (rs : List LockRequest) (t u : ℕ) (m n : LockMode)
    → IsApart rs
    → t ≢ u
    → held_mode t rs ≡ some m
    → held_mode u rs ≡ some n
    → compat m n ≡ true
unfolding held_mode
held-compat [] t u m n a ne h k = absurd (ground arith)
held-compat (r ∷ rs) t u m n a ne h k = ground (
  arith,
  a.0,
  held-compat rs t u m n a.3 ne,
  compat_held u r.lock_mode n rs a.2,
  compat_held t r.lock_mode m rs a.2,
  compat_comm m n,
)

pub empty-IsSound : IsSound empty_queue
empty-IsSound = record { apart = tt; group = compatible-non_lock }
