-- ===== src/Index/Remove.antt =====
-- index/ix_index_handle.cpp: what `remove` does to a node.
use whu_db_practice.Prelude.{
  ℕ, ◌+◌, ◌-◌, ◌<◌, ◌≡◌, inl, inr, refl, ap, ◌∙◌, true, false, ◌==◌, ltb, if◌then◌else◌, Bool-cases,
  Option-cases, none, some, arith, Ordering, done,
}
use whu_db_practice.Record.Defs.{Rid}
use whu_db_practice.Index.Order.{IsOrder}
use whu_db_practice.Index.Node.{
  Node, is_eq, move_down, erase_pair, lower_bound, has_key, leaf_lookup, remove,
}
use whu_db_practice.Index.Search.{
  IsSorted, lower_bound_hit, leaf_lookup_hit, leaf_lookup_miss, leaf_lookup_found,
}
use whu_db_practice.Index.Change.{move_down_lem}
use whu_db_practice.Index.Insert.{absent}

-- The node without the pair at a slot.
module _ {K : Type 0} (pos : ℕ) (node : Node K) (inside : pos < node.num_key) where
  unfoldable pub erased : Node K
  erased = record node {
    num_key = node.num_key - 1;
    slots = move_down (node.num_key - 1 - pos) pos node.slots;
  }

  pub erase_pair_done : erase_pair pos node ≡ done tt erased
  unfolding erase_pair erased
  erase_pair_done = ground arith

  pub erased_slots :
      (j : ℕ)
      → j < node.num_key - 1
      → erased.slots j ≡ (if ltb j pos then node.slots j else node.slots (j + 1))
  unfolding erased
  erased_slots j h = ground (arith, move_down_lem (node.num_key - 1 - pos) pos node.slots j)

  pub erased_size : erased.num_key + 1 ≡ node.num_key
  unfolding erased
  erased_size = omega arith

module _ {K : Type 0} (cmp : K → K → Ordering) (order : IsOrder cmp) where
  module _ (key : K) (node : Node K) (s : IsSorted cmp node.slots node.num_key) (pos : ℕ)
      (inside : pos < node.num_key) (hit : is_eq (cmp (node.slots pos).0 key) ≡ true) where
    node' : Node K
    node' = erased pos node inside

    here :
        (j : ℕ)
        → j < node'.num_key
        → node'.slots j ≡ (if ltb j pos then node.slots j else node.slots (j + 1))
    unfolding node'
    here j h = let n = erased_size pos node inside in erased_slots pos node inside j (omega arith)

    size : node'.num_key + 1 ≡ node.num_key
    unfolding node'
    size = erased_size pos node inside

    erased-IsSorted : IsSorted cmp node'.slots node'.num_key
    erased-IsSorted i j l h =
        let n = size in
        rw (here i (omega arith), here j h) (ground (arith, s i j, s i (j + 1), s (i + 1) (j + 1)))

    same_key : (k : K) → is_eq (cmp (node.slots pos).0 k) ≡ is_eq (cmp key k)
    same_key k = ground (arith, order.2 (node.slots pos).0 key k)

    -- The removed key was at no other slot.
    others :
        (k : K) (i : ℕ)
        → is_eq (cmp key k) ≡ true
        → i < node.num_key
        → (i == pos) ≡ false
        → is_eq (cmp (node.slots i).0 k) ≡ false
    others k i y h ne = elim (Bool-cases (is_eq (cmp (node.slots i).0 k))) [
      | inr n ↦ n
      | inl again ↦
          let a = lower_bound_hit cmp order k node i s h again in
          let b = lower_bound_hit cmp order k node pos s inside (same_key k ∙ y) in ground arith
    ]

    moved :
        (k : K) (i : ℕ)
        → is_eq (cmp key k) ≡ false
        → is_eq (cmp (node.slots i).0 k) ≡ true
        → (i == pos) ≡ false
    moved k i other at_i = elim (Bool-cases (i == pos)) [
      | inr n ↦ n
      | inl y ↦
          let e : i ≡ pos = ground arith in
          let same = ap (λ x. is_eq (cmp (node.slots x).0 k)) e in let gone = same_key k in cc
    ]

    lookup :
        (k : K)
        → leaf_lookup cmp k node' ≡ (if is_eq (cmp key k) then none else leaf_lookup cmp k node)
    lookup k =
        let n = size in
        elim (Bool-cases (is_eq (cmp key k))) [
          | inl y ↦ rw y (
              leaf_lookup_miss cmp k node'
                (λ j h. rw (here j h) (ground (arith, others k j y, others k (j + 1) y))))
          | inr other ↦ elim (Option-cases (leaf_lookup cmp k node)) [
            | inl e ↦
                rw (other, e)
                  (leaf_lookup_miss cmp k node' (λ j h. rw (here j h) (
                    ground
                      (arith, absent cmp order k node s e j, absent cmp order k node s e (j + 1)))))
            | inr (r, e) ↦
                let (i, h, at_i, same) = leaf_lookup_found cmp k node r e in
                let kept : (i == pos) ≡ false = moved k i other at_i in
                let j = if ltb i pos then i else i - 1 in
                let jn : j < node'.num_key = ground arith in
                let back : (if ltb j pos then j else j + 1) ≡ i = ground arith in
                let at_j : node'.slots j ≡ node.slots i =
                  here j jn ∙ ground (arith, ap node.slots back) in
                rw (other, e)
                  (leaf_lookup_hit cmp order k node' j erased-IsSorted jn
                      (ap (λ (x : K × Rid). is_eq (cmp x.0 k)) at_j ∙ at_i)
                    ∙ (ap (λ (x : K × Rid). some x.1) at_j ∙ ap some same))
          ]
        ]

  remove_hit :
      (key : K) (node : Node K) (hit : has_key cmp (lower_bound cmp key node) key node ≡ true)
      (inside : lower_bound cmp key node < node.num_key)
      → remove cmp key node ≡ done tt (erased (lower_bound cmp key node) node inside)
  unfolding remove
  remove_hit key node hit inside = rw hit (erase_pair_done (lower_bound cmp key node) node inside)

  remove_miss :
      (key : K) (node : Node K)
      → has_key cmp (lower_bound cmp key node) key node ≡ false
      → remove cmp key node ≡ done tt node
  unfolding remove
  remove_miss key node n = rw n refl

  lookup_miss :
      (key : K) (node : Node K)
      → IsSorted cmp node.slots node.num_key
      → has_key cmp (lower_bound cmp key node) key node ≡ false
      → (k : K)
      → leaf_lookup cmp k node ≡ (if is_eq (cmp key k) then none else leaf_lookup cmp k node)
  lookup_miss key node s n k = elim (Bool-cases (is_eq (cmp key k))) [
    | inr other ↦ rw other refl
    | inl y ↦ rw y (elim (Option-cases (leaf_lookup cmp k node)) [
      | inl e ↦ e
      | inr (r, e) ↦
          let (i, h, at_i, _) = leaf_lookup_found cmp k node r e in
          let a = (node.slots i).0 in
          let hit : is_eq (cmp a key) ≡ true =
            ground (arith, order.2 key k a, order.0 a key, order.0 a k) in
          let p = lower_bound_hit cmp order key node i s h hit in
          let q : has_key cmp (lower_bound cmp key node) key node ≡ true = rw p (ground arith) in cc
    ])
  ]

  -- A removal from a sorted node: the key is gone, the other keys keep their records, and the node
  -- stays sorted, one key smaller if it had the key.
  pub remove_lem :
      (key : K) (node : Node K)
      → IsSorted cmp node.slots node.num_key
      → (node' : Node K) × (remove cmp key node ≡ done tt node')
        × IsSorted cmp node'.slots node'.num_key
        × (node'.num_key + (if has_key cmp (lower_bound cmp key node) key node then 1 else 0)
            ≡ node.num_key)
        × ((k : K)
            → leaf_lookup cmp k node'
              ≡ (if is_eq (cmp key k) then none else leaf_lookup cmp k node))
  unfolding erased node'
  remove_lem key node s =
      let pos = lower_bound cmp key node in
      elim (Bool-cases (has_key cmp pos key node)) [
        | inl y ↦
            let inside : pos < node.num_key = ground arith in
            let hit : is_eq (cmp (node.slots pos).0 key) ≡ true = ground arith in
            (
              erased pos node inside,
              remove_hit key node y inside,
              erased-IsSorted key node s pos inside hit,
              rw y (erased_size pos node inside),
              lookup key node s pos inside hit,
            )
        | inr n ↦ (node, remove_miss key node n, s, rw n (omega arith), lookup_miss key node s n)
      ]
