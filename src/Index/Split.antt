-- ===== src/Index/Split.antt =====
-- index/ix_index_handle.cpp: the states that `split` goes through on a leaf.
use whu_db_practice.Prelude.{
  ℕ, ◌+◌, ◌-◌, ◌/◌, ◌<◌, ◌≡◌, refl, ap, ◌∙◌, true, false, ◌==◌, ==_self, update, nat_eq,
  if◌then◌else◌, arith, done,
}
use whu_db_practice.Index.Header.{leaf_header_page}
use whu_db_practice.Index.Node.{Node, move_up, put_pairs, insert_pairs}
use whu_db_practice.Index.Tree.{
  Tree, ◌>>=◌, ◌>>◌, pure, >>=-done, if_true, if_false, set_header, set_node, on_node, fetch_node,
  fetch_done, with_pins, unpin_page, zero_node, create_node, maintain_children,
}
use whu_db_practice.Index.Grow.{link_leaf, split}

module _ {K : Type 0} (zero_key : K) (p : ℕ) (t : Tree K) where
  -- The new page, with the right half.
  unfoldable pub right_node : Node K
  right_node =
      let node = t.pages p in
      let left_keys = node.num_key / 2 in
      let right_keys = node.num_key - left_keys in
      let fresh = zero_node zero_key in
      record fresh {
        is_leaf = node.is_leaf;
        parent = node.parent;
        num_key = 0 + right_keys;
        slots = put_pairs right_keys 0 (λ i. node.slots (left_keys + i)) 0 fresh.slots;
      }

  -- The state when the right half is moved.
  unfoldable pub created : Tree K
  created =
      let node = t.pages p in
      let fresh = zero_node zero_key in
      record t {
        file_hdr = record t.file_hdr { num_pages = t.file_hdr.num_pages + 1 };
        pages =
            update (update t.pages t.fd2pageno fresh) t.fd2pageno
              (record fresh { is_leaf = node.is_leaf; parent = node.parent; num_key = 0 });
        pin_count = update t.pin_count t.fd2pageno 1;
        fd2pageno = t.fd2pageno + 1;
      }

  -- The state before the links are set.
  unfoldable pub halves : Tree K
  halves = record created {
    pages =
        update (update created.pages t.fd2pageno right_node) p
          (record (t.pages p) { num_key = (t.pages p).num_key / 2 });
  }

  filled :
      on_node t.fd2pageno
        (insert_pairs 0
          (λ i. (t.pages p).slots ((t.pages p).num_key / 2 + i))
          ((t.pages p).num_key - (t.pages p).num_key / 2))
        created
      ≡ done tt (record created { pages = update created.pages t.fd2pageno right_node })
  unfolding insert_pairs move_up created right_node
  filled = rw (==_self t.fd2pageno, on_node) refl

  halves_eq :
      p < t.fd2pageno
      → (record created {
        pages =
            update
              (update created.pages t.fd2pageno right_node)
              p
              (record ((update created.pages t.fd2pageno right_node) p) {
                num_key = (t.pages p).num_key / 2;
              });
      })
        ≡ halves
  unfolding created halves right_node
  halves_eq h = let other : (p == t.fd2pageno) ≡ false = ground arith in rw other refl

  split-halves :
      p < t.fd2pageno
      → split zero_key p t
        ≡ ((if (t.pages p).is_leaf
                then link_leaf p t.fd2pageno
                else maintain_children
                    ((t.pages p).num_key - (t.pages p).num_key / 2)
                    0
                    t.fd2pageno)
              >> pure t.fd2pageno)
            halves
  unfolding split create_node created
  split-halves h =
      let self = ==_self t.fd2pageno in
      let other : (p == t.fd2pageno) ≡ false = ground arith in
      let links =
        (if (t.pages p).is_leaf
          then link_leaf p t.fd2pageno
          else maintain_children ((t.pages p).num_key - (t.pages p).num_key / 2) 0 t.fd2pageno)
        >> pure t.fd2pageno in
      rw (self, other)
        (>>=-done
            (on_node t.fd2pageno (
              insert_pairs 0 (λ i. (t.pages p).slots ((t.pages p).num_key / 2 + i))
                ((t.pages p).num_key - (t.pages p).num_key / 2)))
            (λ _. set_node p (λ n. record n { num_key = (t.pages p).num_key / 2 }) >> links) created
            (record created { pages = update created.pages t.fd2pageno right_node }) tt filled
          ∙ ap links (halves_eq h))

  -- The state when both halves are linked.
  unfoldable pub linked : Tree K
  linked =
      let new_p = t.fd2pageno in
      let pages1 =
        update halves.pages new_p
          (record (halves.pages new_p) { next_leaf = (halves.pages p).next_leaf; prev_leaf = p }) in
      record halves { pages = update pages1 p (record (pages1 p) { next_leaf = new_p }) }

  unfoldable pub link_next : ℕ
  link_next = (linked.pages t.fd2pageno).next_leaf

  link_linked :
      link_leaf p t.fd2pageno halves
      ≡ (if link_next == leaf_header_page
            then set_header (λ h. record h { last_leaf = t.fd2pageno })
            else fetch_node link_next >>= λ next.
                set_node next (λ n. record n { prev_leaf = t.fd2pageno }) >> unpin_page next)
          linked
  unfolding link_leaf linked link_next
  link_linked = refl

  -- The states that `split` ends in.
  unfoldable pub split_last : Tree K
  split_last = record linked { file_hdr = record linked.file_hdr { last_leaf = t.fd2pageno } }

  unfoldable pub split_inside : Tree K
  split_inside =
      let pins = update linked.pin_count link_next (linked.pin_count link_next + 1) in
      record linked {
        pages =
            update linked.pages link_next
              (record (linked.pages link_next) { prev_leaf = t.fd2pageno });
        pin_count = update pins link_next (pins link_next - 1);
      }

  pub split_leaf_last :
      p < t.fd2pageno
      → (t.pages p).is_leaf ≡ true
      → (link_next == leaf_header_page) ≡ true
      → split zero_key p t ≡ done t.fd2pageno split_last
  unfolding split_last
  split_leaf_last h leaf last =
      split-halves h
      ∙ >>=-done
          (if (t.pages p).is_leaf
            then link_leaf p t.fd2pageno
            else maintain_children ((t.pages p).num_key - (t.pages p).num_key / 2) 0 t.fd2pageno)
          (λ _. pure t.fd2pageno) halves split_last tt
          (if_true (t.pages p).is_leaf _ _ halves leaf
            ∙ (link_linked ∙ if_true (link_next == leaf_header_page) _ _ linked last))

  pub split_leaf_inside :
      p < t.fd2pageno
      → (t.pages p).is_leaf ≡ true
      → (link_next == leaf_header_page) ≡ false
      → link_next < linked.fd2pageno
      → split zero_key p t ≡ done t.fd2pageno split_inside
  unfolding split_inside unpin_page
  split_leaf_inside h leaf not_last there =
      split-halves h
      ∙ >>=-done
          (if (t.pages p).is_leaf
            then link_leaf p t.fd2pageno
            else maintain_children ((t.pages p).num_key - (t.pages p).num_key / 2) 0 t.fd2pageno)
          (λ _. pure t.fd2pageno) halves split_inside tt
          (if_true (t.pages p).is_leaf _ _ halves leaf
            ∙ (link_linked
                ∙ (if_false (link_next == leaf_header_page) _ _ linked not_last
                    ∙ >>=-done (fetch_node link_next)
                        (λ next.
                          set_node next (λ n. record n { prev_leaf = t.fd2pageno })
                          >> unpin_page next)
                        linked
                        (with_pins linked
                          (update linked.pin_count link_next (linked.pin_count link_next + 1)))
                        link_next (fetch_done link_next linked there))))
