-- ===== src/Index/Grow.antt =====
-- index/ix_index_handle.cpp: insertion into the tree. `fuel` bounds the levels that a call climbs.
use whu_db_practice.Prelude.{
  ℕ, zero, suc, ◌+◌, ◌-◌, ◌/◌, Bool, true, false, ◌&&◌, Option, none, some, ◌==◌, ltb, leb,
  if◌then◌else◌, Ordering,
}
use whu_db_practice.Record.Defs.{Rid}
use whu_db_practice.Index.Header.{IxFileHdr, no_page, leaf_header_page}
use whu_db_practice.Index.Node.{Node, is_eq, insert_pairs, insert_pair, insert}
use whu_db_practice.Index.Tree.{
  M, ◌>>=◌, ◌>>◌, pure, throw, header, set_header, node_at, set_node, on_node, child_index,
  fetch_node, unpin_page, update_root_page_no, create_node, maintain_children, find_leaf_page,
}

-- `get_max_size`
abbrev pub max_size : IxFileHdr → ℕ
max_size h = h.btree_order + 1

-- `Rid{page_no, -1}`
abbrev pub child_rid : ℕ → Rid
child_rid p = record { page_no = p; slot_no = 4294967295 }

module _ {K : Type 0} where
  -- The links of the leaves around a new one.
  unfoldable pub link_leaf : ℕ → ℕ → M K (Unit {0})
  link_leaf p new_p = do
    node ← node_at p
    set_node new_p (λ n. record n { next_leaf = node.next_leaf; prev_leaf = p })
    set_node p (λ n. record n { next_leaf = new_p })
    new_node ← node_at new_p
    if new_node.next_leaf == leaf_header_page
        then set_header (λ h. record h { last_leaf = new_p })
        else (do
          next ← fetch_node new_node.next_leaf
          set_node next (λ n. record n { prev_leaf = new_p })
          unpin_page next)

  -- The right half of a node goes to a new one.
  unfoldable pub split : K → ℕ → M K ℕ
  split zero_key p = do
    new_p ← create_node zero_key
    node ← node_at p
    let left_keys = node.num_key / 2
    let right_keys = node.num_key - left_keys
    set_node new_p (λ n. record n { is_leaf = node.is_leaf; parent = node.parent; num_key = 0 })
    on_node new_p (insert_pairs 0 (λ i. node.slots (left_keys + i)) right_keys)
    set_node p (λ n. record n { num_key = left_keys })
    if node.is_leaf then link_leaf p new_p else maintain_children right_keys 0 new_p
    pure new_p

  -- A new root over two nodes.
  unfoldable pub new_root : K → ℕ → ℕ → M K (Unit {0})
  new_root zero_key old_p new_p = do
    root ← create_node zero_key
    old_node ← node_at old_p
    new_node ← node_at new_p
    set_node root (λ n. record n {
      is_leaf = false;
      parent = no_page;
      num_key = 2;
      slots = λ i.
          if i == 0
          then ((old_node.slots 0).0, child_rid old_p)
          else if i == 1
          then ((new_node.slots 0).0, child_rid new_p)
          else n.slots i;
    })
    set_node old_p (λ n. record n { parent = root })
    set_node new_p (λ n. record n { parent = root })
    update_root_page_no root
    unpin_page root

  unfoldable pub insert_into_parent : K → ℕ → ℕ → ℕ → M K (Unit {0})
  insert_into_parent zero_key zero old_p new_p = throw
  insert_into_parent zero_key (suc fuel) old_p new_p = do
    old_node ← node_at old_p
    new_node ← node_at new_p
    if old_node.parent == no_page then new_root zero_key old_p new_p else (do
      parent ← fetch_node old_node.parent
      i ← child_index parent old_p
      on_node parent (insert_pair (i + 1) (new_node.slots 0).0 (child_rid new_p))
      h ← header
      node ← node_at parent
      if leb (max_size h) node.num_key
          then (do
            new_parent ← split zero_key parent
            insert_into_parent zero_key fuel parent new_parent
            unpin_page new_parent)
          else pure tt
      unpin_page parent)

  -- The loop of `maintain_parent`. The comparison is that of the bytes (`memcmp`).
  module _ (same_bytes : K → K → Bool) where
    unfoldable pub maintain_parent : ℕ → ℕ → M K (Unit {0})
    maintain_parent zero p = throw
    maintain_parent (suc fuel) p = do
      node ← node_at p
      if node.parent == no_page then pure tt else (do
        parent ← fetch_node node.parent
        rank ← child_index parent p
        parent_node ← node_at parent
        if same_bytes (parent_node.slots rank).0 (node.slots 0).0 then unpin_page parent else (do
          set_node parent (λ n. record n {
            slots = λ i. if i == rank then ((node.slots 0).0, (n.slots i).1) else n.slots i;
          })
          unpin_page parent
          maintain_parent fuel parent))

    module _ (cmp : K → K → Ordering) where
      -- The first leaf of an empty tree.
      unfoldable pub insert_first : K → K → Rid → M K ℕ
      insert_first zero_key key value = do
        root ← create_node zero_key
        set_node root (λ n. record n {
          is_leaf = true;
          parent = no_page;
          num_key = 0;
          prev_leaf = leaf_header_page;
          next_leaf = leaf_header_page;
        })
        set_header (λ h. record h { first_leaf = root; last_leaf = root })
        update_root_page_no root
        on_node root (insert cmp key value)
        unpin_page root
        pure root

      -- After an insertion into a leaf: a full leaf is split, and a new first key goes up.
      unfoldable pub repair : K → ℕ → ℕ → Node K → M K (Unit {0})
      repair zero_key fuel leaf old_leaf = do
        h ← header
        node ← node_at leaf
        if leb (max_size h) node.num_key
            then (do
              new_leaf ← split zero_key leaf
              insert_into_parent zero_key fuel leaf new_leaf
              unpin_page new_leaf)
            else if ltb 0 old_leaf.num_key
                && (if is_eq (cmp (old_leaf.slots 0).0 (node.slots 0).0) then false else true)
            then maintain_parent fuel leaf
            else pure tt

      unfoldable pub insert_into : K → ℕ → K → Rid → Option ℕ → M K ℕ
      insert_into zero_key fuel key value none = throw
      insert_into zero_key fuel key value (some leaf) = do
        old_leaf ← node_at leaf
        on_node leaf (insert cmp key value)
        repair zero_key fuel leaf old_leaf
        unpin_page leaf
        pure leaf

      unfoldable pub insert_entry : K → ℕ → K → Rid → M K ℕ
      insert_entry zero_key fuel key value = do
        h ← header
        if h.root_page == no_page
            then insert_first zero_key key value
            else (do leaf ← find_leaf_page cmp fuel key; insert_into zero_key fuel key value leaf)
