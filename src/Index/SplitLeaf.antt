-- ===== src/Index/SplitLeaf.antt =====
-- index/ix_index_handle.cpp: what `split` does to a leaf and to the links of the leaves.
use whu_db_practice.Prelude.{
  ℕ, ◌+◌, ◌-◌, ◌/◌, ◌<◌, ◌≡◌, inl, inr, refl, ap, ◌∙◌, true, false, if◌then◌else◌, ◌==◌, ==_self,
  nat_eq, Bool-cases, arith, done,
}
use whu_db_practice.Index.Header.{leaf_header_page}
use whu_db_practice.Index.Node.{Node}
use whu_db_practice.Index.Change.{between, put_pairs_lem}
use whu_db_practice.Index.Tree.{Tree, zero_node}
use whu_db_practice.Index.Grow.{split}
use whu_db_practice.Index.Split.{
  halves, right_node, created, linked, link_next, split_last, split_inside, split_leaf_last,
  split_leaf_inside,
}

-- A leaf and a new leaf behind it, with the pairs of the leaf before.
pub record IsSplit {K : Type 0} (t t' : Tree K) (p : ℕ) : Type 0 where
  pub left_page :
      t'.pages p ≡ record (t.pages p) { num_key = (t.pages p).num_key / 2; next_leaf = t.fd2pageno }
  pub left_size : (t'.pages p).num_key ≡ (t.pages p).num_key / 2
  pub left_slots : (t'.pages p).slots ≡ (t.pages p).slots
  pub right_size : (t'.pages t.fd2pageno).num_key ≡ (t.pages p).num_key - (t.pages p).num_key / 2
  pub right_slots :
      (i : ℕ)
      → i < (t.pages p).num_key - (t.pages p).num_key / 2
      → (t'.pages t.fd2pageno).slots i ≡ (t.pages p).slots ((t.pages p).num_key / 2 + i)
  pub right_leaf : (t'.pages t.fd2pageno).is_leaf ≡ true
  pub right_parent : (t'.pages t.fd2pageno).parent ≡ (t.pages p).parent
  pub next_of_left : (t'.pages p).next_leaf ≡ t.fd2pageno
  pub prev_of_right : (t'.pages t.fd2pageno).prev_leaf ≡ p
  pub next_of_right : (t'.pages t.fd2pageno).next_leaf ≡ (t.pages p).next_leaf
  pub prev_of_next :
      ((t.pages p).next_leaf == leaf_header_page) ≡ false
      → t'.pages (t.pages p).next_leaf
        ≡ record (t.pages (t.pages p).next_leaf) { prev_leaf = t.fd2pageno }
  pub inner_header :
      ((t.pages p).next_leaf == leaf_header_page) ≡ false
      → t'.file_hdr ≡ record t.file_hdr { num_pages = t.file_hdr.num_pages + 1 }
  pub last :
      ((t.pages p).next_leaf == leaf_header_page) ≡ true
      → t'.file_hdr
        ≡ record t.file_hdr { num_pages = t.file_hdr.num_pages + 1; last_leaf = t.fd2pageno }
  pub last_next :
      ((t.pages p).next_leaf == leaf_header_page) ≡ true
      → t'.pages (t.pages p).next_leaf ≡ t.pages (t.pages p).next_leaf
  pub pins : (q : ℕ) → t'.pin_count q ≡ (if q == t.fd2pageno then 1 else t.pin_count q)
  pub numbered : t'.fd2pageno ≡ t.fd2pageno + 1
  pub others :
      (q : ℕ)
      → (q == p) ≡ false
      → (q == t.fd2pageno) ≡ false
      → (q == (t.pages p).next_leaf) ≡ false
      → t'.pages q ≡ t.pages q

module _ {K : Type 0} (zero_key : K) (p : ℕ) (t : Tree K) (h : p < t.fd2pageno) where
  new_slots :
      (i : ℕ)
      → i < (t.pages p).num_key - (t.pages p).num_key / 2
      → (right_node zero_key p t).slots i ≡ (t.pages p).slots ((t.pages p).num_key / 2 + i)
  unfolding right_node
  new_slots i l =
      let n = (t.pages p).num_key in
      let f = λ (j : ℕ). (t.pages p).slots (n / 2 + j) in
      let e : n / 2 + (i - 0) ≡ n / 2 + i = omega arith in
      let inside : between (0 + 0) i (0 + 0 + (n - n / 2)) ≡ true = ground arith in
      put_pairs_lem (n - n / 2) 0 f 0 (zero_node zero_key).slots i
      ∙ rw inside (ap (t.pages p).slots e)

  linked_new :
      (linked zero_key p t).pages t.fd2pageno
      ≡ record (right_node zero_key p t) { next_leaf = (t.pages p).next_leaf; prev_leaf = p }
  unfolding linked halves
  linked_new =
      let self = ==_self t.fd2pageno in
      let self' = ==_self p in
      let other : (p == t.fd2pageno) ≡ false = ground arith in
      let other' : (t.fd2pageno == p) ≡ false = ground arith in rw (self, self', other') refl

  linked_old :
      (linked zero_key p t).pages p
      ≡ record (t.pages p) { num_key = (t.pages p).num_key / 2; next_leaf = t.fd2pageno }
  unfolding linked halves
  linked_old =
      let self' = ==_self p in
      let other : (p == t.fd2pageno) ≡ false = ground arith in rw (self', other) refl

  linked_others :
      (q : ℕ)
      → (q == p) ≡ false
      → (q == t.fd2pageno) ≡ false
      → (linked zero_key p t).pages q ≡ t.pages q
  unfolding linked halves created
  linked_others q a b = rw (a, b) refl

  link_next_lem : link_next zero_key p t ≡ (t.pages p).next_leaf
  unfolding link_next
  link_next_lem = ap (λ (n : Node K). n.next_leaf) linked_new

  last-IsSplit :
      (t.pages p).is_leaf ≡ true
      → (link_next zero_key p t == leaf_header_page) ≡ true
      → (t.pages p).next_leaf < t.fd2pageno
      → (p == (t.pages p).next_leaf) ≡ false
      → IsSplit t (split_last zero_key p t) p
  unfolding split_last right_node linked halves created
  last-IsSplit leaf tail there ne = record {
    left_page = linked_old;
    inner_header = λ no_tail. let e = link_next_lem in absurd (ground arith);
    last_next = λ _. linked_others (t.pages p).next_leaf (ground arith) (ground arith);
    pins = λ q. refl;
    numbered = refl;
    left_size = ap (λ (n : Node K). n.num_key) linked_old;
    left_slots = ap (λ (n : Node K). n.slots) linked_old;
    right_size = ap (λ (n : Node K). n.num_key) linked_new ∙ omega arith;
    right_slots = λ i l. ap (λ (n : Node K). n.slots i) linked_new ∙ new_slots i l;
    right_leaf = ap (λ (n : Node K). n.is_leaf) linked_new ∙ leaf;
    right_parent = ap (λ (n : Node K). n.parent) linked_new;
    next_of_left = ap (λ (n : Node K). n.next_leaf) linked_old;
    prev_of_right = ap (λ (n : Node K). n.prev_leaf) linked_new;
    next_of_right = ap (λ (n : Node K). n.next_leaf) linked_new;
    prev_of_next = λ no_tail. let e = link_next_lem in absurd (ground arith);
    last = λ _. refl;
    others = λ q a b c. linked_others q a b;
  }

  -- The page of the next leaf is written last.
  inside_other :
      (q : ℕ)
      → (q == (t.pages p).next_leaf) ≡ false
      → (split_inside zero_key p t).pages q ≡ (linked zero_key p t).pages q
  unfolding split_inside
  inside_other q ne =
      let e : (q == link_next zero_key p t) ≡ false = rw link_next_lem ne in rw e refl

  inside_next :
      (split_inside zero_key p t).pages (t.pages p).next_leaf
      ≡ record ((linked zero_key p t).pages (t.pages p).next_leaf) { prev_leaf = t.fd2pageno }
  unfolding split_inside
  inside_next = rw (← link_next_lem) (rw (==_self (link_next zero_key p t)) refl)

  inside_pins :
      (t.pages p).next_leaf < t.fd2pageno
      → (q : ℕ)
      → (split_inside zero_key p t).pin_count q ≡ (if q == t.fd2pageno then 1 else t.pin_count q)
  unfolding split_inside linked halves created
  inside_pins there q =
      let e = link_next_lem in
      elim (Bool-cases (q == link_next zero_key p t)) [
        | inl same ↦
            let is_next : q ≡ link_next zero_key p t = ground arith in
            let old : (q == t.fd2pageno) ≡ false = ground arith in
            rw (is_next, ==_self (link_next zero_key p t)) (ground arith)
        | inr other ↦ rw other refl
      ]

  linked_there :
      (t.pages p).next_leaf < t.fd2pageno → link_next zero_key p t < (linked zero_key p t).fd2pageno
  unfolding linked halves created
  linked_there there = rw link_next_lem (omega arith)

  inside-IsSplit :
      (t.pages p).is_leaf ≡ true
      → (link_next zero_key p t == leaf_header_page) ≡ false
      → (t.pages p).next_leaf < t.fd2pageno
      → (p == (t.pages p).next_leaf) ≡ false
      → IsSplit t (split_inside zero_key p t) p
  unfolding right_node split_inside linked halves created
  inside-IsSplit leaf inner there ne =
      let next = (t.pages p).next_leaf in
      let old_next : (linked zero_key p t).pages next ≡ t.pages next =
        linked_others next (ground arith) (ground arith) in
      let new_ne : (t.fd2pageno == (t.pages p).next_leaf) ≡ false = ground arith in
      let left = inside_other p ne ∙ linked_old in
      let right = inside_other t.fd2pageno new_ne ∙ linked_new in
      record {
        left_page = left;
        inner_header = λ _. refl;
        last_next = λ tail. let e = link_next_lem in absurd (ground arith);
        pins = inside_pins there;
        numbered = refl;
        left_size = ap (λ (n : Node K). n.num_key) left;
        left_slots = ap (λ (n : Node K). n.slots) left;
        right_size = ap (λ (n : Node K). n.num_key) right ∙ omega arith;
        right_slots = λ i l. ap (λ (n : Node K). n.slots i) right ∙ new_slots i l;
        right_leaf = ap (λ (n : Node K). n.is_leaf) right ∙ leaf;
        right_parent = ap (λ (n : Node K). n.parent) right;
        next_of_left = ap (λ (n : Node K). n.next_leaf) left;
        prev_of_right = ap (λ (n : Node K). n.prev_leaf) right;
        next_of_right = ap (λ (n : Node K). n.next_leaf) right;
        prev_of_next =
            λ _. inside_next ∙ ap (λ (n : Node K). record n { prev_leaf = t.fd2pageno }) old_next;
        last = λ tail. let e = link_next_lem in absurd (ground arith);
        others = λ q a b c. inside_other q c ∙ linked_others q a b;
      }

  -- A leaf that has its links in the file is split into two leaves that hold its pairs between them,
  -- each in its old order; the new one stands behind the old one in the list of the leaves, and
  -- nothing else changes but the link back to it or the number of the last leaf, the number of
  -- pages, the next page number and the pin of the new leaf.
  pub split-IsSplit :
      (t.pages p).is_leaf ≡ true
      → (t.pages p).next_leaf < t.fd2pageno
      → (p == (t.pages p).next_leaf) ≡ false
      → (t' : Tree K) × (split zero_key p t ≡ done t.fd2pageno t') × IsSplit t t' p
  split-IsSplit leaf there ne = elim (Bool-cases (link_next zero_key p t == leaf_header_page)) [
    | inl tail ↦ (
      split_last zero_key p t,
      split_leaf_last zero_key p t h leaf tail,
      last-IsSplit leaf tail there ne,
    )
    | inr inner ↦ (
      split_inside zero_key p t,
      split_leaf_inside zero_key p t h leaf inner (linked_there there),
      inside-IsSplit leaf inner there ne,
    )
  ]
