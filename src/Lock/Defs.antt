-- ===== src/Lock/Defs.antt =====
-- `LockManager`: the lock table and its operations. A `std::list` of requests is a list from its
-- front; the table is a map from lock ids to queues.
use whu_db_practice.Prelude.{
  ℕ, ◌≡◌, ◌↔◌, Bool, true, false, ◌&&◌, not, List, [], ◌∷◌, ◌++◌, Option, none, some, arith, ◌==◌,
  if◌then◌else◌, update, Eq, ℤ, negsuc, int_eq, int_eq_iff,
}
use whu_db_practice.Lock.Modes.{
  LockMode, shared, exclusive, intention_shared, intention_exclusive, s_ix, GroupLockMode, non_lock,
  mode_eq, compatible, upgrade_group,
}

-- defs.h
pub record Rid : Type 0 where
  pub page_no : ℤ
  pub slot_no : ℤ

pub data LockDataType : Type 0 where
  table : LockDataType
  tuple : LockDataType

pub record LockDataId : Type 0 where
  pub fd : ℕ
  pub rid : Rid
  pub type : LockDataType

-- The two constructors.
abbrev pub table_id : ℕ → LockDataId
table_id fd = record {
  fd = fd;
  rid = record { page_no = negsuc 0; slot_no = negsuc 0 };
  type = table;
}

abbrev pub record_id : ℕ → Rid → LockDataId
record_id fd rid = record { fd = fd; rid = rid; type = tuple }

abbrev pub type_eq : LockDataType → LockDataType → Bool
type_eq table table = true
type_eq tuple tuple = true
type_eq _ _ = false

-- `operator==` of `Rid` and of `LockDataId`.
abbrev pub rid_eq : Rid → Rid → Bool
rid_eq x y = int_eq x.page_no y.page_no && int_eq x.slot_no y.slot_no

abbrev pub lock_data_id_eq : LockDataId → LockDataId → Bool
lock_data_id_eq x y =
    if not (type_eq x.type y.type)
    then false
    else if not (x.fd == y.fd)
    then false
    else rid_eq x.rid y.rid

rid_eq_iff : (x y : Rid) → (rid_eq x y ≡ true) ↔ (x ≡ y)
rid_eq_iff x y = ground (arith, int_eq_iff x.page_no y.page_no, int_eq_iff x.slot_no y.slot_no)

type_eq_iff : (x y : LockDataType) → (type_eq x y ≡ true) ↔ (x ≡ y)
type_eq_iff x y = ground arith

pub lock_data_id_eq_iff : (x y : LockDataId) → (lock_data_id_eq x y ≡ true) ↔ (x ≡ y)
lock_data_id_eq_iff x y = ground (arith, rid_eq_iff x.rid y.rid, type_eq_iff x.type y.type)

instance abbrev pub lock_data_id_has_eq : Eq LockDataId
lock_data_id_has_eq = record { beq = lock_data_id_eq; beq_iff = lock_data_id_eq_iff }

pub data AbortReason : Type 0 where
  lock_on_shrinking : AbortReason
  upgrade_conflict : AbortReason
  deadlock_prevention : AbortReason

pub record LockRequest : Type 0 where
  pub txn_id : ℕ
  pub lock_mode : LockMode
  pub granted : Bool

pub record LockRequestQueue : Type 0 where
  pub request_queue : List LockRequest
  pub group_lock_mode : GroupLockMode

abbrev pub empty_queue : LockRequestQueue
empty_queue = record { request_queue = []; group_lock_mode = non_lock }

abbrev pub LockTable : Type 0
LockTable = LockDataId → Option LockRequestQueue

-- What `lock` touches of a transaction: its id and its lock set.
pub record Holder : Type 0 where
  pub txn_id : ℕ
  pub lock_set : List LockDataId

-- `unordered_set::insert`
unfoldable pub insert_lock : LockDataId → List LockDataId → List LockDataId
insert_lock lid [] = lid ∷ []
insert_lock lid (l ∷ ls) = if lock_data_id_eq lid l then l ∷ ls else l ∷ insert_lock lid ls

-- The mode of the transaction's first granted request.
unfoldable pub held_mode : ℕ → List LockRequest → Option LockMode
held_mode txn_id [] = none
held_mode txn_id (r ∷ rs) =
    if r.txn_id == txn_id && r.granted then some r.lock_mode else held_mode txn_id rs

-- Some other transaction has a granted request,
unfoldable pub others_granted : ℕ → List LockRequest → Bool
others_granted txn_id [] = false
others_granted txn_id (r ∷ rs) =
    if not (r.txn_id == txn_id) && r.granted then true else others_granted txn_id rs

-- one that is shared,
unfoldable pub others_share : ℕ → List LockRequest → Bool
others_share txn_id [] = false
others_share txn_id (r ∷ rs) =
    if not (r.txn_id == txn_id) && (r.granted && mode_eq r.lock_mode shared)
    then true
    else others_share txn_id rs

-- and some request waits.
unfoldable pub any_waiting : List LockRequest → Bool
any_waiting [] = false
any_waiting (r ∷ rs) = if not r.granted then true else any_waiting rs

-- The transaction's first granted request gets a new mode.
unfoldable pub set_mode : ℕ → LockMode → List LockRequest → List LockRequest
set_mode txn_id mode [] = []
set_mode txn_id mode (r ∷ rs) =
    if r.txn_id == txn_id && r.granted
    then record r { lock_mode = mode } ∷ rs
    else r ∷ set_mode txn_id mode rs

pub data Verdict : Type 0 where
  locked : Verdict
  aborted : AbortReason → Verdict

-- The queue and the lock set after a call, with what it returned or threw.
abbrev pub Answer : Type 0
Answer = Verdict × LockRequestQueue × List LockDataId

unfoldable pub upgrade_to_exclusive : Holder → LockDataId → LockRequestQueue → Answer
upgrade_to_exclusive txn lid q =
    if others_granted txn.txn_id q.request_queue
    then (aborted upgrade_conflict, q, txn.lock_set)
    else (
      locked,
      record {
        request_queue = set_mode txn.txn_id exclusive q.request_queue;
        group_lock_mode = upgrade_group q.group_lock_mode exclusive;
      },
      insert_lock lid txn.lock_set,
    )

unfoldable pub upgrade_to_six : Holder → LockDataId → LockRequestQueue → Answer
upgrade_to_six txn lid q =
    if others_share txn.txn_id q.request_queue
    then (aborted upgrade_conflict, q, txn.lock_set)
    else (
      locked,
      record {
        request_queue = set_mode txn.txn_id s_ix q.request_queue;
        group_lock_mode = upgrade_group q.group_lock_mode intention_exclusive;
      },
      insert_lock lid txn.lock_set,
    )

-- The `if (held)` block.
unfoldable pub relock : Holder → LockDataId → LockMode → LockMode → LockRequestQueue → Answer
relock txn lid mode held q =
    if mode_eq mode held
    then (locked, q, txn.lock_set)
    else if mode_eq mode exclusive && mode_eq held shared
    then upgrade_to_exclusive txn lid q
    else if mode_eq mode intention_exclusive && mode_eq held shared
    then upgrade_to_six txn lid q
    else (locked, q, txn.lock_set)

-- A transaction that holds nothing here.
unfoldable pub first_lock : Holder → LockDataId → LockMode → LockRequestQueue → Answer
first_lock txn lid mode q =
    if not (compatible mode q.group_lock_mode)
    then (aborted deadlock_prevention, q, txn.lock_set)
    else if any_waiting q.request_queue
    then (aborted deadlock_prevention, q, txn.lock_set)
    else (
      locked,
      record {
        request_queue =
            q.request_queue
            ++ record { txn_id = txn.txn_id; lock_mode = mode; granted = true } ∷ [];
        group_lock_mode = upgrade_group q.group_lock_mode mode;
      },
      insert_lock lid txn.lock_set,
    )

unfoldable pub lock_queue : Holder → LockDataId → LockMode → LockRequestQueue → Answer
lock_queue txn lid mode q = elim (held_mode txn.txn_id q.request_queue) [
  | some held ↦ relock txn lid mode held q
  | none ↦ first_lock txn lid mode q
]

-- `lock_table_[lid]`, which makes an entry where there is none.
abbrev pub queue_of : Option LockRequestQueue → LockRequestQueue
queue_of none = empty_queue
queue_of (some q) = q

unfoldable pub queue_at : LockTable → LockDataId → LockRequestQueue
queue_at t lid = queue_of (t lid)

unfoldable pub lock : Holder → LockDataId → LockMode → LockTable → Verdict × LockTable × Holder
lock txn lid mode t =
    let (verdict, q, set) = lock_queue txn lid mode (queue_at t lid) in
    (verdict, update t lid (some q), record txn { lock_set = set })

-- The first granted request of the transaction leaves the queue,
unfoldable pub erase_request : ℕ → List LockRequest → List LockRequest
erase_request txn_id [] = []
erase_request txn_id (r ∷ rs) =
    if r.txn_id == txn_id && r.granted then rs else r ∷ erase_request txn_id rs

-- and the group mode is computed anew.
unfoldable pub regroup : GroupLockMode → List LockRequest → GroupLockMode
regroup g [] = g
regroup g (r ∷ rs) = regroup (if r.granted then upgrade_group g r.lock_mode else g) rs

-- The queue that is left, or none if it is empty.
unfoldable pub unlock_queue : ℕ → LockRequestQueue → Option LockRequestQueue
unlock_queue txn_id q = elim (erase_request txn_id q.request_queue) [
  | [] ↦ none
  | r ∷ rs ↦ some (record { request_queue = r ∷ rs; group_lock_mode = regroup non_lock (r ∷ rs) })
]

unfoldable pub unlock : ℕ → LockDataId → LockTable → LockTable
unlock txn_id lid t = elim (t lid) [ none ↦ t | some q ↦ update t lid (unlock_queue txn_id q) ]

-- The six public calls.
unfoldable pub lock_shared_on_record : Holder → Rid → ℕ → LockTable → Verdict × LockTable × Holder
lock_shared_on_record txn rid tab_fd = lock txn (record_id tab_fd rid) shared

unfoldable pub lock_exclusive_on_record :
    Holder → Rid → ℕ → LockTable → Verdict × LockTable × Holder
lock_exclusive_on_record txn rid tab_fd = lock txn (record_id tab_fd rid) exclusive

unfoldable pub lock_shared_on_table : Holder → ℕ → LockTable → Verdict × LockTable × Holder
lock_shared_on_table txn tab_fd = lock txn (table_id tab_fd) shared

unfoldable pub lock_exclusive_on_table : Holder → ℕ → LockTable → Verdict × LockTable × Holder
lock_exclusive_on_table txn tab_fd = lock txn (table_id tab_fd) exclusive

unfoldable pub lock_is_on_table : Holder → ℕ → LockTable → Verdict × LockTable × Holder
lock_is_on_table txn tab_fd = lock txn (table_id tab_fd) intention_shared

unfoldable pub lock_ix_on_table : Holder → ℕ → LockTable → Verdict × LockTable × Holder
lock_ix_on_table txn tab_fd = lock txn (table_id tab_fd) intention_exclusive
