-- ===== src/Lock/Exclusion.antt =====
-- What holds in every history: mutual exclusion, and locks that last until commit or abort.
use whu_db_practice.Prelude.{
  ℕ, ◌≡◌, refl, ap, subst, sym, ◌∙◌, ◌≢◌, inl, inr, Bool, true, false, List, [], ◌∷◌, Option, none,
  some, arith, ◌==◌, ==_iff, if◌then◌else◌, Bool-cases, Option-cases, nat_eq,
}
use whu_db_practice.Lock.Modes.{LockMode, compat}
use whu_db_practice.Lock.Defs.{LockDataId, lock_data_id_eq, lock_data_id_eq_iff, lock}
use whu_db_practice.Lock.Invariant.{holds}
use whu_db_practice.Lock.Answers.{has_lock}
use whu_db_practice.Lock.Tables.{
  lock-AreSound, holds-compat, holds-lock_ne, holds-lock_self, lock-tracks,
}
use whu_db_practice.Lock.Histories.{
  System, start, release_locks, Event, locks, finishes, step, run, IsOrderly,
  release_locks-AreSound, holds-release_locks, start-IsOrderly,
}

none≢some {ℓ} : {A : Type ℓ} {a : A} → ◌≢◌ {A = Option A} none (some a)
none≢some h = cc

module _ (s : System) (v : IsOrderly s) where
  -- The lock of a transaction after another event.
  module _ (u : ℕ) (lid : LockDataId) (mode : LockMode) where
    holds-locks_ne :
        (w : ℕ) (l : LockDataId)
        → w ≢ u
        → holds (step (locks u lid mode) s).table w l ≡ holds s.table w l
    unfolding step
    holds-locks_ne w l ne =
        holds-lock_ne (s.txns u) lid mode s.table w l (inl (λ e. ne (e ∙ v.named u)))

    locks-IsOrderly : IsOrderly (step (locks u lid mode) s)
    unfolding step lock
    locks-IsOrderly = record {
      sound = lock-AreSound (s.txns u) lid mode s.table v.sound;
      named = λ w. elim (Bool-cases (w == u)) [
        | inl same ↦ rw same (v.named u ∙ sym ((==_iff w u).0 same))
        | inr other ↦ rw other (v.named w)
      ];
      tracked = λ w l m h. elim (Bool-cases (w == u)) [
        | inl same ↦
            let e = (==_iff w u).0 same ∙ sym (v.named u) in
            rw same (
              lock-tracks (s.txns u) lid mode s.table own l m
                (subst (λ x. holds (step (locks u lid mode) s).table x l ≡ some m) e h))
        | inr other ↦
            let ne : w ≢ u = λ e. ground arith in
            rw other (v.tracked w l m (sym (holds-locks_ne w l ne) ∙ h))
      ];
    }
      where
        own :
            (k : LockDataId) (n : LockMode)
            → holds s.table (s.txns u).txn_id k ≡ some n
            → has_lock k (s.txns u).lock_set ≡ true
        own k n g = v.tracked u k n (subst (λ x. holds s.table x k ≡ some n) (v.named u) g)

  -- A transaction that has finished holds nothing,
  finished : (u : ℕ) (l : LockDataId) → holds (step (finishes u) s).table u l ≡ none
  unfolding step
  finished u l = elim (Option-cases (holds s.table u l)) [
    | inl e ↦ released ∙ nothing (has_lock l (s.txns u).lock_set) (holds s.table u l) e
    | inr (m, e) ↦ rw (released, v.tracked u l m e) refl
  ]
    where
      own : (u == (s.txns u).txn_id) ≡ true
      own = (==_iff u (s.txns u).txn_id).1 (sym (v.named u))

      released :
          holds (release_locks (s.txns u).txn_id (s.txns u).lock_set s.table) u l
          ≡ (if has_lock l (s.txns u).lock_set then none else holds s.table u l)
      released =
          holds-release_locks (s.txns u).txn_id (s.txns u).lock_set s.table v.sound u l
          ∙ ap
              (λ b.
                if has_lock l (s.txns u).lock_set
                then (if b then none else holds s.table u l)
                else holds s.table u l)
              own

      nothing : (b : Bool) (h : Option LockMode) → h ≡ none → (if b then none else h) ≡ none
      nothing b h e = ground arith

  -- and the locks of the others stay.
  holds-finishes_ne :
      (u w : ℕ) (l : LockDataId) → w ≢ u → holds (step (finishes u) s).table w l ≡ holds s.table w l
  unfolding step
  holds-finishes_ne u w l ne =
      holds-release_locks (s.txns u).txn_id (s.txns u).lock_set s.table v.sound w l
      ∙ ap
          (λ b.
            if has_lock l (s.txns u).lock_set
            then (if b then none else holds s.table w l)
            else holds s.table w l)
          other
      ∙ same (has_lock l (s.txns u).lock_set) (holds s.table w l)
    where
      other : (w == (s.txns u).txn_id) ≡ false
      other = let e = v.named u in ground arith

      same : (b : Bool) (h : Option LockMode) → (if b then h else h) ≡ h
      same b h = ground arith

  finishes-IsOrderly : (u : ℕ) → IsOrderly (step (finishes u) s)
  unfolding step
  finishes-IsOrderly u = record {
    sound = release_locks-AreSound (s.txns u).txn_id (s.txns u).lock_set s.table v.sound;
    named = λ w. elim (Bool-cases (w == u)) [
      | inl same ↦ rw same (v.named u ∙ sym ((==_iff w u).0 same))
      | inr other ↦ rw other (v.named w)
    ];
    tracked = λ w l m h. elim (Bool-cases (w == u)) [
      | inl same ↦
          let h_u =
            subst (λ x. holds (step (finishes u) s).table x l ≡ some m) ((==_iff w u).0 same) h in
          absurd (none≢some (sym (finished u l) ∙ h_u))
      | inr other ↦
          let ne : w ≢ u = λ e. ground arith in
          rw other (v.tracked w l m (sym (holds-finishes_ne u w l ne) ∙ h))
    ];
  }

  pub step-IsOrderly : (e : Event) → IsOrderly (step e s)
  step-IsOrderly (locks u lid mode) = locks-IsOrderly u lid mode
  step-IsOrderly (finishes u) = finishes-IsOrderly u

  locks_keep :
      (u : ℕ) (lid : LockDataId) (mode : LockMode) (l : LockDataId) (m : LockMode)
      → holds s.table u l ≡ some m
      → (n : LockMode) × (holds (step (locks u lid mode) s).table u l ≡ some n)
  unfolding step
  locks_keep u lid mode l m h =
      let txn = s.txns u in
      let mine = subst (λ x. holds s.table x l ≡ some m) (sym (v.named u)) h in
      let after = (lock txn lid mode s.table).1 in
      elim (Bool-cases (lock_data_id_eq l lid)) [
        | inl same ↦
            let e = (lock_data_id_eq_iff l lid).0 same in
            let at_lid = subst (λ x. holds s.table txn.txn_id x ≡ some m) e mine in
            let (n, kept) = holds-lock_self txn lid mode s.table m at_lid in
            (
              n,
              subst (λ x. holds after x l ≡ some n) (v.named u)
                  (subst (λ x. holds after txn.txn_id x ≡ some n) (sym e) kept),
            )
        | inr other ↦
            let ne : l ≢ lid = λ e. ground (arith, lock_data_id_eq_iff l lid) in
            (
              m,
              subst (λ x. holds after x l ≡ some m) (v.named u)
                  (holds-lock_ne txn lid mode s.table txn.txn_id l (inr ne) ∙ mine),
            )
      ]

  -- In an orderly state every lock that transaction `u` holds survives each event but its own
  -- commit or abort, perhaps in another mode: locks are kept to the end.
  pub step_keeps_locks :
      (e : Event) (u : ℕ) (l : LockDataId) (m : LockMode)
      → e ≢ finishes u
      → holds s.table u l ≡ some m
      → (n : LockMode) × (holds (step e s).table u l ≡ some n)
  step_keeps_locks (finishes w) u l m ne h =
      (m, holds-finishes_ne w u l (λ e. ne (ap finishes (sym e))) ∙ h)
  step_keeps_locks (locks w lid mode) u l m ne h = elim (Bool-cases (u == w)) [
    | inr other ↦
        let apart : u ≢ w = λ e. ground arith in (m, holds-locks_ne w lid mode u l apart ∙ h)
    | inl own ↦
        let e = (==_iff u w).0 own in
        let h_w = subst (λ x. holds s.table x l ≡ some m) e h in
        rw e (locks_keep w lid mode l m h_w)
  ]

pub run-IsOrderly : (es : List Event) (s : System) → IsOrderly s → IsOrderly (run es s)
unfolding run
run-IsOrderly [] s v = v
run-IsOrderly (e ∷ es) s v = run-IsOrderly es (step e s) (step-IsOrderly s v e)

-- Mutual exclusion: in every history of lock requests, commits and aborts from an empty lock table,
-- two different transactions never hold incompatible locks on one item.
pub run-compat :
    (es : List Event) (u w : ℕ) (l : LockDataId) (m n : LockMode)
    → u ≢ w
    → holds (run es start).table u l ≡ some m
    → holds (run es start).table w l ≡ some n
    → compat m n ≡ true
run-compat es u w l m n ne h k =
    holds-compat (run es start).table l u w m n (run-IsOrderly es start start-IsOrderly).sound ne h
      k

-- After any history, a commit or an abort of transaction `u` leaves it without a single lock, and
-- leaves every lock of the others as it was.
pub run_finishes :
    (es : List Event) (u : ℕ)
    → ((l : LockDataId) → holds (step (finishes u) (run es start)).table u l ≡ none)
      × ((w : ℕ) (l : LockDataId)
          → w ≢ u
          → holds (step (finishes u) (run es start)).table w l ≡ holds (run es start).table w l)
run_finishes es u =
    let v = run-IsOrderly es start start-IsOrderly in
    (finished (run es start) v u, λ w l ne. holds-finishes_ne (run es start) v u w l ne)
