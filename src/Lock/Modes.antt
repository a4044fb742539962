-- ===== src/Lock/Modes.antt =====
-- The lock modes, the group mode of a queue, and the tests and updates on them.
use whu_db_practice.Prelude.{◌≡◌, Bool, true, false, not, ◌&&◌, ◌||◌, if◌then◌else◌, arith}

pub data LockMode : Type 0 where
  shared : LockMode
  exclusive : LockMode
  intention_shared : LockMode
  intention_exclusive : LockMode
  s_ix : LockMode

-- `NON_LOCK`, `IS`, `IX`, `S`, `X` and `SIX`.
pub data GroupLockMode : Type 0 where
  non_lock : GroupLockMode
  group_is : GroupLockMode
  group_ix : GroupLockMode
  group_s : GroupLockMode
  group_x : GroupLockMode
  group_six : GroupLockMode

abbrev pub mode_eq : LockMode → LockMode → Bool
mode_eq shared shared = true
mode_eq exclusive exclusive = true
mode_eq intention_shared intention_shared = true
mode_eq intention_exclusive intention_exclusive = true
mode_eq s_ix s_ix = true
mode_eq _ _ = false

abbrev pub group_eq : GroupLockMode → GroupLockMode → Bool
group_eq non_lock non_lock = true
group_eq group_is group_is = true
group_eq group_ix group_ix = true
group_eq group_s group_s = true
group_eq group_x group_x = true
group_eq group_six group_six = true
group_eq _ _ = false

-- The `switch` of `compatible`.
abbrev pub admits : LockMode → GroupLockMode → Bool
admits shared held = group_eq held group_is || group_eq held group_s
admits exclusive held = false
admits intention_shared held = not (group_eq held group_x)
admits intention_exclusive held = group_eq held group_is || group_eq held group_ix
admits s_ix held = group_eq held group_is

unfoldable pub compatible : LockMode → GroupLockMode → Bool
compatible requested held = if group_eq held non_lock then true else admits requested held

-- The `switch` of `upgrade_group`.
abbrev pub joined : GroupLockMode → LockMode → GroupLockMode
joined cur shared = if group_eq cur group_is || group_eq cur non_lock then group_s else group_s
joined cur intention_exclusive =
    if group_eq cur group_is || group_eq cur non_lock then group_ix else group_ix
joined cur intention_shared = if group_eq cur non_lock then group_is else cur
joined cur s_ix = group_six
joined cur exclusive = cur

unfoldable pub upgrade_group : GroupLockMode → LockMode → GroupLockMode
upgrade_group cur added =
    if group_eq cur group_x || mode_eq added exclusive
    then group_x
    else if group_eq cur group_s && mode_eq added intention_exclusive
    then group_six
    else if group_eq cur group_ix && mode_eq added shared
    then group_six
    else if group_eq cur group_six
    then group_six
    else joined cur added

-- The compatibility of two held locks, as a table of its own: the textbook matrix of
-- multi-granularity locking.
unfoldable pub compat : LockMode → LockMode → Bool
compat exclusive _ = false
compat _ exclusive = false
compat intention_shared _ = true
compat _ intention_shared = true
compat shared shared = true
compat intention_exclusive intention_exclusive = true
compat _ _ = false

pub compat_comm : (m n : LockMode) → compat m n ≡ compat n m
unfolding compat
compat_comm shared n = ground arith
compat_comm exclusive n = ground arith
compat_comm intention_shared n = ground arith
compat_comm intention_exclusive n = ground arith
compat_comm s_ix n = ground arith

-- A queue whose group mode was raised by a lock admits exactly the requests that it admitted
-- before and that are compatible with the lock.
pub compatible-upgrade_group :
    (m : LockMode) (g : GroupLockMode) (a : LockMode)
    → compatible m (upgrade_group g a) ≡ (compatible m g && compat m a)
unfolding compatible upgrade_group compat
compatible-upgrade_group shared g a = ground arith
compatible-upgrade_group exclusive g a = ground arith
compatible-upgrade_group intention_shared g a = ground arith
compatible-upgrade_group intention_exclusive g a = ground arith
compatible-upgrade_group s_ix g a = ground arith

-- The group mode is determined by the requests that it admits.
pub group_of_compatible :
    (g h : GroupLockMode) → ((m : LockMode) → compatible m g ≡ compatible m h) → g ≡ h
unfolding compatible
group_of_compatible g h e =
    ground (arith, e shared, e exclusive, e intention_shared, e intention_exclusive)
