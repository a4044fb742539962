-- ===== src/Index/Insert.antt =====
-- index/ix_index_handle.cpp: what `insert` does to a node.
use whu_db_practice.Prelude.{
  ℕ, ◌+◌, ◌-◌, ◌≤◌, ◌<◌, ◌≡◌, ◌⊎◌, inl, inr, refl, ap, ◌∙◌, false, ◌==◌, ltb, leb, if◌then◌else◌,
  Bool-cases, Option-cases, none, some, arith, Ordering, done, raised,
}
use whu_db_practice.Record.Defs.{Rid}
use whu_db_practice.Index.Order.{IsOrder}
use whu_db_practice.Index.Node.{
  Node, is_eq, move_up, put_pairs, insert_pairs, insert_pair, lower_bound, has_key, leaf_lookup,
  insert, at_least,
}
use whu_db_practice.Index.Search.{
  Splits, IsSorted, lower_bound-Splits, leaf_lookup_hit, leaf_lookup_miss, leaf_lookup_found,
}
use whu_db_practice.Index.Change.{move_up_lem, put_pairs_lem}

-- The node with a pair more, at a slot up to its end.
module _ {K : Type 0} (pos : ℕ) (key : K) (value : Rid) (node : Node K)
    (fits : pos ≤ node.num_key) where
  inserted : Node K
  inserted = record node {
    num_key = node.num_key + 1;
    slots = put_pairs 1 pos (λ _. (key, value)) 0 (move_up (node.num_key - pos) pos 1 node.slots);
  }

  insert_pair_done : insert_pair pos key value node ≡ done tt inserted
  unfolding insert_pair insert_pairs inserted
  insert_pair_done = ground arith

  inserted_slots :
      (j : ℕ)
      → inserted.slots j ≡ (
          if ltb j pos
          then node.slots j
          else if j == pos
          then (key, value)
          else if leb j node.num_key
          then node.slots (j - 1)
          else node.slots j)
  unfolding inserted
  inserted_slots j = ground (
    arith,
    put_pairs_lem 1 pos (λ (i : ℕ). (key, value)) 0 (move_up (node.num_key - pos) pos 1 node.slots)
        j,
    move_up_lem (node.num_key - pos) pos 1 node.slots j,
  )

module _ {K : Type 0} (cmp : K → K → Ordering) (order : IsOrder cmp) where
  -- A key that a sorted node does not answer is at none of its slots.
  pub absent :
      (key : K) (node : Node K)
      → IsSorted cmp node.slots node.num_key
      → leaf_lookup cmp key node ≡ none
      → (i : ℕ) → i < node.num_key
      → is_eq (cmp (node.slots i).0 key) ≡ false
  absent key node s none_e i h = elim (Bool-cases (is_eq (cmp (node.slots i).0 key))) [
    | inr n ↦ n
    | inl y ↦ let hit = leaf_lookup_hit cmp order key node i s h y in cc
  ]

  module _ (key : K) (value : Rid) (node : Node K) (s : IsSorted cmp node.slots node.num_key)
      (miss : leaf_lookup cmp key node ≡ none) where
    pos : ℕ
    pos = lower_bound cmp key node

    split : Splits (at_least cmp key) node.slots node.num_key pos
    unfolding pos
    split = lower_bound-Splits cmp order key node s

    smaller : (i : ℕ) → i < pos → cmp (node.slots i).0 key ≡ Ordering.lt
    smaller i h = let p = split.before i h in ground arith

    larger : (i : ℕ) → pos ≤ i → i < node.num_key → cmp key (node.slots i).0 ≡ Ordering.lt
    larger i h k =
        let p = split.after i h k in
        let q = absent key node s miss i k in ground (arith, order.0 (node.slots i).0 key)

    node' : Node K
    unfolding pos
    node' = inserted pos key value node split.within

    here :
        (j : ℕ)
        → node'.slots j ≡ (
            if ltb j pos
            then node.slots j
            else if j == pos
            then (key, value)
            else if leb j node.num_key
            then node.slots (j - 1)
            else node.slots j)
    unfolding node'
    here j = inserted_slots pos key value node split.within j

    size : node'.num_key ≡ node.num_key + 1
    unfolding node' inserted
    size = refl

    inserted-IsSorted : IsSorted cmp node'.slots node'.num_key
    inserted-IsSorted i j l h =
        let w = split.within in
        let n = size in
        rw (here i, here j)
          (ground (arith, s i j, s i (j - 1), s (i - 1) (j - 1), smaller i, larger (j - 1)))

    at_old :
        (i : ℕ) → i < node.num_key → node'.slots (if ltb i pos then i else i + 1) ≡ node.slots i
    at_old i h = elim (Bool-cases (ltb i pos)) [
      | inl y ↦ rw y (here i ∙ rw y refl)
      | inr n ↦
          let e : i + 1 - 1 ≡ i = omega arith in
          rw n (here (i + 1) ∙ ground (arith, ap node.slots e))
    ]

    at_new : node'.slots pos ≡ (key, value)
    at_new = here pos ∙ ground arith

    lookup :
        (k : K)
        → leaf_lookup cmp k node'
          ≡ (if is_eq (cmp key k) then some value else leaf_lookup cmp k node)
    lookup k =
        let w = split.within in
        let n = size in
        elim (Bool-cases (is_eq (cmp key k))) [
          | inl y ↦ rw y (
              leaf_lookup_hit cmp order k node' pos inserted-IsSorted (omega arith)
                (ap (λ (x : K × Rid). is_eq (cmp x.0 k)) at_new ∙ y)
              ∙ ap (λ (x : K × Rid). some x.1) at_new)
          | inr other ↦ elim (Option-cases (leaf_lookup cmp k node)) [
            | inr (r, e) ↦
                let (i, h, hit, same) = leaf_lookup_found cmp k node r e in
                let j = if ltb i pos then i else i + 1 in
                rw (other, e)
                  (leaf_lookup_hit cmp order k node' j inserted-IsSorted (ground arith)
                      (ap (λ (x : K × Rid). is_eq (cmp x.0 k)) (at_old i h) ∙ hit)
                    ∙ (ap (λ (x : K × Rid). some x.1) (at_old i h) ∙ ap some same))
            | inl e ↦
                rw (other, e)
                  (leaf_lookup_miss cmp k node' (λ j h.
                    rw (here j) (ground (arith, absent k node s e j, absent k node s e (j - 1)))))
          ]
        ]

  insert_hit :
      (key : K) (value : Rid) (node : Node K) (rid : Rid)
      → leaf_lookup cmp key node ≡ some rid
      → insert cmp key value node ≡ raised node
  unfolding insert leaf_lookup
  insert_hit key value node rid e = ground arith

  insert_miss :
      (key : K) (value : Rid) (node : Node K) (s : IsSorted cmp node.slots node.num_key)
      (miss : leaf_lookup cmp key node ≡ none)
      → insert cmp key value node ≡ done tt (node' key value node s miss)
  unfolding insert leaf_lookup node' pos
  insert_miss key value node s miss =
      let free : has_key cmp (lower_bound cmp key node) key node ≡ false = ground arith in
      rw free (insert_pair_done (lower_bound cmp key node) key value node _)

  -- An insertion into a sorted node: a key that it has is refused and nothing changes; any other is
  -- stored with its record, the other keys keep theirs, and the node stays sorted, one key larger.
  pub insert_lem :
      (key : K) (value : Rid) (node : Node K)
      → IsSorted cmp node.slots node.num_key
      → ((rid : Rid) × (leaf_lookup cmp key node ≡ some rid)
          × (insert cmp key value node ≡ raised node))
        ⊎ ((node' : Node K) × (leaf_lookup cmp key node ≡ none)
            × (insert cmp key value node ≡ done tt node')
            × IsSorted cmp node'.slots node'.num_key
            × (node'.num_key ≡ node.num_key + 1)
            × ((k : K)
                → leaf_lookup cmp k node'
                  ≡ (if is_eq (cmp key k) then some value else leaf_lookup cmp k node)))
  insert_lem key value node s = elim (Option-cases (leaf_lookup cmp key node)) [
    | inr (rid, e) ↦ inl (rid, e, insert_hit key value node rid e)
    | inl e ↦ inr (
      node' key value node s e,
      e,
      insert_miss key value node s e,
      inserted-IsSorted key value node s e,
      size key value node s e,
      lookup key value node s e,
    )
  ]
