-- ===== src/Index/Merge.antt =====
-- index/ix_index_handle.cpp: the states that `coalesce` goes through on two leaves under the root.
use whu_db_practice.Prelude.{
  ℕ, suc, ◌+◌, ◌-◌, ◌<◌, ◌≡◌, refl, ap, ◌∙◌, Bool, true, false, ◌&&◌, ◌==◌, ==_self, ltb, leb,
  update, nat_eq, if◌then◌else◌, some, arith, done,
}
use whu_db_practice.Index.Header.{no_page, leaf_header_page}
use whu_db_practice.Index.Node.{Node, move_up, put_pairs, insert_pairs, erase_pair, find_child}
use whu_db_practice.Index.Remove.{erased, erase_pair_done, erased_size}
use whu_db_practice.Index.Tree.{
  Tree, M, ◌>>=◌, ◌>>◌, pure, >>=-done, if_true, if_false, header, node_at, on_node, child_index,
  release_node_handle, maintain_children,
}
use whu_db_practice.Index.Shrink.{min_size, adjust_root, unlink_leaf, merge}

module _ {K : Type 0} (again : ℕ → M K Bool) (left_p right_p parent : ℕ) (t : Tree K) where
  -- The left leaf with the pairs of both.
  unfoldable pub joined : Node K
  joined =
      let left = t.pages left_p in
      let right = t.pages right_p in
      record left {
        num_key = left.num_key + right.num_key;
        slots =
            put_pairs right.num_key left.num_key right.slots 0
              (move_up (left.num_key - left.num_key) left.num_key right.num_key left.slots);
      }

  join_done :
      on_node left_p
        (insert_pairs (t.pages left_p).num_key (t.pages right_p).slots (t.pages right_p).num_key)
        t
      ≡ done tt (record t { pages = update t.pages left_p joined })
  unfolding insert_pairs joined
  join_done =
      let all : leb (t.pages left_p).num_key (t.pages left_p).num_key ≡ true = ground arith in
      rw (all, on_node) refl

  -- The state once the right leaf, which is the last, is out of the list.
  unfoldable pub unlinked : Tree K
  unlinked =
      let s1 = record t { pages = update t.pages left_p joined } in
      record s1 {
        pages =
            update s1.pages left_p
              (record (s1.pages left_p) { next_leaf = (s1.pages right_p).next_leaf });
        file_hdr = record t.file_hdr { last_leaf = left_p };
      }

  unlink_done :
      (right_p == left_p) ≡ false
      → ((t.pages right_p).next_leaf == leaf_header_page) ≡ true
      → unlink_leaf left_p right_p (record t { pages = update t.pages left_p joined })
        ≡ done tt unlinked
  unfolding unlink_leaf unlinked
  unlink_done other last =
      rw (other) (if_true ((t.pages right_p).next_leaf == leaf_header_page) _ _ _ last)

  module _ (i : ℕ) (inside : suc i < (t.pages parent).num_key) where
    -- The parent without the entry at slot `i`.
    unfoldable pub shrunk : Node K
    shrunk = erased i (t.pages parent) (omega arith)

    unfoldable pub merged : Tree K
    merged = record unlinked {
      pages = update unlinked.pages parent shrunk;
      file_hdr = record unlinked.file_hdr { num_pages = unlinked.file_hdr.num_pages - 1 };
    }

    -- What follows in `coalesce` once the parent's entry is erased.
    unfoldable pub finish : M K Bool
    finish = do
      parent_node ← node_at parent
      h ← header
      if parent_node.parent == no_page
          then adjust_root parent
          else if ltb parent_node.num_key (min_size h)
          then again parent
          else pure false

    erase_from : ℕ → M K Bool
    erase_from at_right = do
      on_node parent (erase_pair (at_right - 1))
      release_node_handle right_p
      finish

    parent_kept : (parent == left_p) ≡ false → unlinked.pages parent ≡ t.pages parent
    unfolding unlinked
    parent_kept ne = rw ne refl

    erase_done :
        (parent == left_p) ≡ false
        → on_node parent (erase_pair i) unlinked
          ≡ done tt (record unlinked { pages = update unlinked.pages parent shrunk })
    unfolding shrunk
    erase_done ne =
        rw (on_node, parent_kept ne, erase_pair_done i (t.pages parent) (omega arith)) refl

    erase_from_done : (parent == left_p) ≡ false → erase_from (suc i) unlinked ≡ finish merged
    unfolding erase_from release_node_handle merged
    erase_from_done ne =
        let e : suc i - 1 ≡ i = omega arith in
        ap
          (λ j. (on_node parent (erase_pair j) >> (release_node_handle right_p >> finish)) unlinked)
          e
        ∙ >>=-done (on_node parent (erase_pair i)) (λ _. release_node_handle right_p >> finish)
            unlinked (record unlinked { pages = update unlinked.pages parent shrunk }) tt
            (erase_done ne)

    pub at_parent : merged.pages parent ≡ shrunk
    unfolding merged
    at_parent = rw (==_self parent) refl

    shrunk_root : ((t.pages parent).parent == no_page) ≡ true → (shrunk.parent == no_page) ≡ true
    unfolding shrunk erased
    shrunk_root r = r

    shrunk_inner : (t.pages parent).is_leaf ≡ false → shrunk.is_leaf ≡ false
    unfolding shrunk erased
    shrunk_inner e = e

    pub finish_done :
        ((t.pages parent).parent == no_page) ≡ true
        → (t.pages parent).is_leaf ≡ false
        → 2 < (t.pages parent).num_key
        → finish merged ≡ done false merged
    unfolding finish adjust_root shrunk
    finish_done root inner size =
        let root' = ap (λ (n : Node K). n.parent == no_page) at_parent ∙ shrunk_root root in
        let inner' = ap (λ (n : Node K). n.is_leaf) at_parent ∙ shrunk_inner inner in
        let count = erased_size i (t.pages parent) (omega arith) in
        let size' = ap (λ (n : Node K). n.num_key) at_parent in
        let many : ((merged.pages parent).num_key == 1) ≡ false = ground arith in
        let node = merged.pages parent in
        let first : (node.is_leaf && node.num_key == 0) ≡ false = ground arith in
        let second : ((if node.is_leaf then false else true) && node.num_key == 1) ≡ false =
          ground arith in
        if_true (node.parent == no_page) _ _ merged root'
        ∙ (if_false (node.is_leaf && node.num_key == 0) _ _ merged first
            ∙ if_false ((if node.is_leaf then false else true) && node.num_key == 1) _ _ merged
                second)

    found :
        (parent == left_p) ≡ false
        → find_child right_p (t.pages parent) ≡ some (suc i)
        → child_index parent right_p unlinked ≡ done (suc i) unlinked
    found ne e = rw (child_index, parent_kept ne, e) refl

    pub merge_done :
        (right_p == left_p) ≡ false
        → (parent == left_p) ≡ false
        → (t.pages right_p).is_leaf ≡ true
        → ((t.pages right_p).next_leaf == leaf_header_page) ≡ true
        → find_child right_p (t.pages parent) ≡ some (suc i)
        → merge again left_p right_p parent t ≡ finish merged
    unfolding merge erase_from finish
    merge_done other ne leaf last at_right =
        let s1 = record t { pages = update t.pages left_p joined } in
        let rest = child_index parent right_p >>= erase_from in
        let links =
          if (t.pages right_p).is_leaf
          then unlink_leaf left_p right_p
          else maintain_children (t.pages right_p).num_key (t.pages left_p).num_key left_p in
        >>=-done
          (on_node left_p (
            insert_pairs (t.pages left_p).num_key (t.pages right_p).slots
              (t.pages right_p).num_key))
          (λ _. links >> rest) t s1 tt join_done
        ∙ (>>=-done links (λ _. rest) s1 unlinked tt
              (if_true (t.pages right_p).is_leaf _ _ s1 leaf ∙ unlink_done other last)
            ∙ (>>=-done (child_index parent right_p) erase_from unlinked unlinked (suc i)
                  (found ne at_right)
                ∙ erase_from_done ne))
