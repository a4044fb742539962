-- ===== src/Index/Node.antt =====
-- index/ix_index_handle.h and ix_index_handle.cpp: `IxNodeHandle`, the operations on one node. The
-- keys are of any type with a comparison. A slot holds a key and a record's place; slots from
-- `num_key` on hold what was left there. A failed `assert` ends the call.
use whu_db_practice.Prelude.{
  ℕ, zero, suc, ◌+◌, ◌-◌, ◌/◌, Bool, true, false, ◌&&◌, Option, none, some, ◌==◌, ltb, leb,
  if◌then◌else◌, update, nat_eq, Outcome, done, raised, Ordering,
}
use whu_db_practice.Record.Defs.{Rid}

-- `IxPageHdr` and the slots behind it; a page number is a 32-bit pattern.
pub record Node (K : Type 0) : Type 0 where
  pub parent : ℕ
  pub num_key : ℕ
  pub is_leaf : Bool
  pub prev_leaf : ℕ
  pub next_leaf : ℕ
  pub slots : ℕ → K × Rid

abbrev pub is_lt : Ordering → Bool
is_lt Ordering.lt = true
is_lt _ = false

abbrev pub is_eq : Ordering → Bool
is_eq Ordering.eq = true
is_eq _ = false

abbrev pub is_gt : Ordering → Bool
is_gt Ordering.gt = true
is_gt _ = false

module _ {K : Type 0} where
  -- The loop of both binary searches, for the first key that passes the test.
  unfoldable pub bisect : (K → Bool) → (ℕ → K × Rid) → ℕ → ℕ → ℕ → ℕ
  bisect test slots zero lo hi = lo
  bisect test slots (suc fuel) lo hi =
      let mid = lo + (hi - lo) / 2 in
      elim (ltb lo hi) [
        | false ↦ lo
        | true ↦ elim (test (slots mid).0) [
          | true ↦ bisect test slots fuel lo mid
          | false ↦ bisect test slots fuel (mid + 1) hi
        ]
      ]

  -- The first loop of `insert_pairs`, from the last slot down to `pos`; `rounds` are left.
  unfoldable pub move_up : ℕ → ℕ → ℕ → (ℕ → K × Rid) → ℕ → K × Rid
  move_up zero pos n slots = slots
  move_up (suc rounds) pos n slots =
      move_up rounds pos n (update slots (pos + rounds + n) (slots (pos + rounds)))

  -- The second loop; `rounds` are left.
  unfoldable pub put_pairs : ℕ → ℕ → (ℕ → K × Rid) → ℕ → (ℕ → K × Rid) → ℕ → K × Rid
  put_pairs zero pos pairs i slots = slots
  put_pairs (suc rounds) pos pairs i slots =
      put_pairs rounds pos pairs (i + 1) (update slots (pos + i) (pairs i))

  unfoldable pub insert_pairs : ℕ → (ℕ → K × Rid) → ℕ → Node K → Outcome (Node K) (Unit {0})
  insert_pairs pos pairs n node =
      if leb pos node.num_key
      then (let moved = move_up (node.num_key - pos) pos n node.slots in
          done tt
            (record node { num_key = node.num_key + n; slots = put_pairs n pos pairs 0 moved }))
      else raised node

  unfoldable pub insert_pair : ℕ → K → Rid → Node K → Outcome (Node K) (Unit {0})
  insert_pair pos key rid node = insert_pairs pos (λ _. (key, rid)) 1 node

  -- The loop of `erase_pair`; `rounds` are left.
  unfoldable pub move_down : ℕ → ℕ → (ℕ → K × Rid) → ℕ → K × Rid
  move_down zero i slots = slots
  move_down (suc rounds) i slots = move_down rounds (i + 1) (update slots i (slots (i + 1)))

  unfoldable pub erase_pair : ℕ → Node K → Outcome (Node K) (Unit {0})
  erase_pair pos node =
      if ltb pos node.num_key
      then done tt (record node {
        num_key = node.num_key - 1;
        slots = move_down (node.num_key - 1 - pos) pos node.slots;
      })
      else raised node

  -- The loop of `find_child`, from slot `i`; `rounds` are left.
  unfoldable pub child_from : ℕ → ℕ → ℕ → Node K → Option ℕ
  child_from zero i page node = none
  child_from (suc rounds) i page node =
      let rest = child_from rounds (i + 1) page node in
      if (node.slots i).1.page_no == page then some i else rest

  unfoldable pub find_child : ℕ → Node K → Option ℕ
  find_child page node = child_from node.num_key 0 page node

  abbrev pub value_at : ℕ → Node K → ℕ
  value_at i node = (node.slots i).1.page_no

  module _ (cmp : K → K → Ordering) where
    abbrev pub at_least : K → K → Bool
    at_least target key = if is_lt (cmp key target) then false else true

    abbrev pub above : K → K → Bool
    above target key = is_gt (cmp key target)

    unfoldable pub lower_bound : K → Node K → ℕ
    lower_bound target node = bisect (at_least target) node.slots node.num_key 0 node.num_key

    unfoldable pub upper_bound : K → Node K → ℕ
    upper_bound target node = bisect (above target) node.slots node.num_key 0 node.num_key

    -- The slot of a key that the node has.
    abbrev pub has_key : ℕ → K → Node K → Bool
    has_key pos key node = ltb pos node.num_key && is_eq (cmp (node.slots pos).0 key)

    unfoldable pub leaf_lookup : K → Node K → Option Rid
    leaf_lookup key node =
        let pos = lower_bound key node in
        if has_key pos key node then some (node.slots pos).1 else none

    unfoldable pub internal_lookup : K → Node K → ℕ
    internal_lookup key node = value_at (upper_bound key node - 1) node

    -- A key that is there throws `RMDBError`.
    unfoldable pub insert : K → Rid → Node K → Outcome (Node K) (Unit {0})
    insert key value node =
        let pos = lower_bound key node in
        if has_key pos key node then raised node else insert_pair pos key value node

    unfoldable pub remove : K → Node K → Outcome (Node K) (Unit {0})
    remove key node =
        let pos = lower_bound key node in
        if has_key pos key node then erase_pair pos node else done tt node
