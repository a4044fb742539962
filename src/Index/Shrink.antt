-- ===== src/Index/Shrink.antt =====
-- index/ix_index_handle.cpp: removal from the tree. `fuel` bounds the levels that a call climbs.
use whu_db_practice.Prelude.{
  ℕ, zero, suc, ◌+◌, ◌-◌, ◌*◌, ◌/◌, Bool, true, false, ◌&&◌, Option, none, some, ◌==◌, ltb, leb,
  if◌then◌else◌, Ordering,
}
use whu_db_practice.Index.Header.{IxFileHdr, no_page, leaf_header_page}
use whu_db_practice.Index.Node.{
  insert_pairs, insert_pair, erase_pair, lower_bound, has_key, value_at,
}
use whu_db_practice.Index.Tree.{
  M, ◌>>=◌, ◌>>◌, pure, throw, header, set_header, node_at, set_node, on_node, child_index,
  fetch_node, unpin_page, update_root_page_no, release_node_handle, maintain_child,
  maintain_children, find_leaf_page,
}
use whu_db_practice.Index.Grow.{max_size}

-- `get_min_size`
abbrev pub min_size : IxFileHdr → ℕ
min_size h = max_size h / 2

module _ {K : Type 0} where
  unfoldable pub adjust_root : ℕ → M K Bool
  adjust_root p = do
    node ← node_at p
    if node.is_leaf && node.num_key == 0
        then (do update_root_page_no no_page; release_node_handle p; pure true)
        else if (if node.is_leaf then false else true) && node.num_key == 1
        then (do
          child ← fetch_node (value_at 0 node)
          set_node child (λ n. record n { parent = no_page })
          unpin_page child
          update_root_page_no (value_at 0 node)
          release_node_handle p
          pure true)
        else pure false

  -- `memcpy(parent->get_key(i), …)`
  unfoldable pub set_key : ℕ → ℕ → K → M K (Unit {0})
  set_key p i key =
      set_node p (λ n. record n { slots = λ j. if j == i then (key, (n.slots j).1) else n.slots j })

  -- One pair moves from the neighbour into the node.
  unfoldable pub redistribute : ℕ → ℕ → ℕ → ℕ → M K (Unit {0})
  redistribute neighbor_p p parent index = do
    parent_node ← node_at parent
    neighbor ← node_at neighbor_p
    if value_at (index - 1) parent_node == neighbor_p
        then (do
          let last = neighbor.num_key - 1
          on_node p (insert_pair 0 (neighbor.slots last).0 (neighbor.slots last).1)
          set_node neighbor_p (λ n. record n { num_key = n.num_key - 1 })
          node ← node_at p
          set_key parent (index - 1) (node.slots 0).0
          maintain_child p 0)
        else (do
          node ← node_at p
          on_node p (insert_pair node.num_key (neighbor.slots 0).0 (neighbor.slots 0).1)
          on_node neighbor_p (erase_pair 0)
          neighbor' ← node_at neighbor_p
          set_key parent index (neighbor'.slots 0).0
          maintain_child p node.num_key)

  -- The links of the leaves around one that goes.
  unfoldable pub unlink_leaf : ℕ → ℕ → M K (Unit {0})
  unlink_leaf left_p right_p = do
    right ← node_at right_p
    set_node left_p (λ n. record n { next_leaf = right.next_leaf })
    if right.next_leaf == leaf_header_page
        then set_header (λ h. record h { last_leaf = left_p })
        else (do
          next ← fetch_node right.next_leaf
          set_node next (λ n. record n { prev_leaf = left_p })
          unpin_page next)

  -- `coalesce` once the left one of the two nodes is known; `again` is the call for the parent.
  unfoldable pub merge : (ℕ → M K Bool) → ℕ → ℕ → ℕ → M K Bool
  merge again left_p right_p parent = do
    left ← node_at left_p
    right ← node_at right_p
    on_node left_p (insert_pairs left.num_key right.slots right.num_key)
    if right.is_leaf
        then unlink_leaf left_p right_p
        else maintain_children right.num_key left.num_key left_p
    at_right ← child_index parent right_p
    on_node parent (erase_pair (at_right - 1))
    release_node_handle right_p
    parent_node ← node_at parent
    h ← header
    if parent_node.parent == no_page
        then adjust_root parent
        else if ltb parent_node.num_key (min_size h)
        then again parent
        else pure false

  unfoldable pub coalesce : (ℕ → M K Bool) → ℕ → ℕ → ℕ → M K Bool
  coalesce again neighbor_p p parent = do
    node_idx ← child_index parent p
    neighbor_idx ← child_index parent neighbor_p
    if ltb node_idx neighbor_idx
        then merge again p neighbor_p parent
        else merge again neighbor_p p parent

  -- With a neighbour that was fetched; `index` is that of the node, `neighbor_index` the argument
  -- of `redistribute`.
  unfoldable pub with_neighbor : (ℕ → M K Bool) → ℕ → ℕ → ℕ → ℕ → Bool → M K Bool
  with_neighbor again neighbor_p p parent neighbor_index is_left = do
    neighbor ← node_at neighbor_p
    node ← node_at p
    h ← header
    if leb (min_size h * 2) (neighbor.num_key + node.num_key)
        then (do
          redistribute neighbor_p p parent neighbor_index
          unpin_page neighbor_p
          unpin_page parent
          pure false)
        else (do
          let left_p = if is_left then neighbor_p else p
          let right_p = if is_left then p else neighbor_p
          parent_deleted ← coalesce again left_p right_p parent
          unpin_page left_p
          if parent_deleted then pure tt else unpin_page parent
          pure true)

  unfoldable pub coalesce_or_redistribute : ℕ → ℕ → M K Bool
  coalesce_or_redistribute zero p = throw
  coalesce_or_redistribute (suc fuel) p = do
    node ← node_at p
    h ← header
    if node.parent == no_page
        then adjust_root p
        else if leb (min_size h) node.num_key
        then pure false
        else (do
          parent ← fetch_node node.parent
          index ← child_index parent p
          parent_node ← node_at parent
          if ltb 0 index
              then (do
                neighbor ← fetch_node (value_at (index - 1) parent_node)
                with_neighbor (coalesce_or_redistribute fuel) neighbor p parent index true)
              else (do
                neighbor ← fetch_node (value_at (index + 1) parent_node)
                with_neighbor (coalesce_or_redistribute fuel) neighbor p parent (index + 1) false))

  unfoldable pub erase_leaf : ℕ → M K (Unit {0})
  erase_leaf p = do
    leaf ← node_at p
    if leaf.is_leaf
        then (do
          prev ← fetch_node leaf.prev_leaf
          set_node prev (λ n. record n { next_leaf = leaf.next_leaf })
          unpin_page prev
          next ← fetch_node leaf.next_leaf
          set_node next (λ n. record n { prev_leaf = leaf.prev_leaf })
          unpin_page next)
        else throw

  module _ (cmp : K → K → Ordering) where
    unfoldable pub delete_from : ℕ → K → Option ℕ → M K Bool
    delete_from fuel key none = pure false
    delete_from fuel key (some leaf) = do
      node ← node_at leaf
      let pos = lower_bound cmp key node
      if has_key cmp pos key node
          then (do
            on_node leaf (erase_pair pos)
            node_deleted ← coalesce_or_redistribute fuel leaf
            unpin_page leaf
            pure true)
          else (do unpin_page leaf; pure false)

    unfoldable pub delete_entry : ℕ → K → M K Bool
    delete_entry fuel key = do leaf ← find_leaf_page cmp fuel key; delete_from fuel key leaf
