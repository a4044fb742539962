-- ===== src/Execution/Executor.antt =====
-- execution/executor_abstract.h: `AbstractExecutor`, and what a plan's executor promises to the one
-- above it: its tuples in order, one for each round of `Next` and `nextTuple`.
use whu_db_practice.Prelude.{ℕ, ◌≡◌, Bool, false, List, ◌∷◌, [], Option, none, some}
use whu_db_practice.Storage.Page.{Bytes}
use whu_db_practice.Execution.Rows.{ColMeta}

-- `none` is a failed `assert` or a read through a null pointer; `Next` may move the executor.
pub record Executor : Type 1 where
  pub State : Type 0
  pub tuple_len : ℕ
  pub cols : List ColMeta
  pub begin_tuple : State → Option State
  pub next_tuple : State → Option State
  pub is_end : State → Bool
  pub next : State → Option (Option Bytes × State)

-- `Ahead rs s`: the tuples that are still to come are `rs`; `all` are those after `beginTuple`,
-- which may be called again in any state that is `Ready`.
pub record IsCursor (x : Executor) (all : List Bytes) : Type 1 where
  pub Ready : x.State → Type 0
  pub Ahead : List Bytes → x.State → Type 0
  pub ready : (rs : List Bytes) (s : x.State) → Ahead rs s → Ready s
  pub begins : (s : x.State) → Ready s → (s' : x.State) × (x.begin_tuple s ≡ some s') × Ahead all s'
  pub live : (r : Bytes) (rs : List Bytes) (s : x.State) → Ahead (r ∷ rs) s → x.is_end s ≡ false
  pub steps :
      (r : Bytes) (rs : List Bytes) (s : x.State)
      → Ahead (r ∷ rs) s
      → (s' : x.State) × (s'' : x.State) × (x.next s ≡ some (some r, s'))
        × (x.next_tuple s' ≡ some s'')
        × Ahead rs s''
  pub spent :
      (s : x.State) → Ahead [] s → (s' : x.State) × (x.next s ≡ some (none, s')) × Ahead [] s'
