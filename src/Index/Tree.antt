-- ===== src/Index/Tree.antt =====
-- index/ix_index_handle.cpp: `IxIndexHandle`, the state of a B+ tree and the operations that search
-- it. The buffer pool is modelled by what it keeps for the file, the nodes on its pages and their
-- pins, and has a frame for each page asked for; a page that the file does not have throws. A node
-- handle is the number of its page. The comparison of keys and the key of a zeroed page are
-- arguments; `fuel` bounds the levels of the tree.
use whu_db_practice.Prelude.{
  ℕ, zero, suc, ◌+◌, ◌-◌, Bool, true, false, ◌&&◌, Option, none, some, ◌==◌, ltb, leb,
  if◌then◌else◌, update, nat_eq, Outcome, done, raised, Ordering, ◌≡◌, ◌<◌, arith, refl,
}
use whu_db_practice.Record.Defs.{Rid}
use whu_db_practice.Index.Header.{IxFileHdr, no_page, leaf_header_page}
use whu_db_practice.Index.Node.{
  Node, find_child, value_at, lower_bound, upper_bound, leaf_lookup, internal_lookup,
}

-- `fd2pageno` is the number that the next page of the file gets.
pub record Tree (K : Type 0) : Type 0 where
  pub file_hdr : IxFileHdr
  pub pages : ℕ → Node K
  pub pin_count : ℕ → ℕ
  pub fd2pageno : ℕ

-- A place in the leaves.
pub record Iid : Type 0 where
  pub page_no : ℕ
  pub slot_no : ℕ

abbrev pub M : Type 0 → Type 0 → Type 0
M K A = Tree K → Outcome (Tree K) A

infixl 5 ◌>>=◌ ◌>>◌
abbrev pub ◌>>=◌ : {K A B : Type 0} → M K A → (A → M K B) → M K B
◌>>=◌ m f t = elim (m t) [ raised t' ↦ raised t' | done a t' ↦ f a t' ]

abbrev pub ◌>>◌ : {K B : Type 0} → M K (Unit {0}) → M K B → M K B
m >> k = m >>= λ _. k

abbrev pub with_pins : {K : Type 0} → Tree K → (ℕ → ℕ) → Tree K
with_pins t pins = record t { pin_count = pins }

-- A step that returns, and the branches of a step.
module _ {K A : Type 0} where
  pub >>=-done :
      {B : Type 0} (m : M K A) (f : A → M K B) (t t' : Tree K) (a : A)
      → m t ≡ done a t'
      → (m >>= f) t ≡ f a t'
  >>=-done m f t t' a e = rw (e, ◌>>=◌) refl

  pub if_true : (b : Bool) (x y : M K A) (t : Tree K) → b ≡ true → (if b then x else y) t ≡ x t
  if_true true x y t e = refl
  if_true false x y t e = cc

  pub if_false : (b : Bool) (x y : M K A) (t : Tree K) → b ≡ false → (if b then x else y) t ≡ y t
  if_false true x y t e = cc
  if_false false x y t e = refl

module _ {K : Type 0} where
  abbrev pub pure : {A : Type 0} → A → M K A
  pure a t = done a t

  abbrev pub throw : {A : Type 0} → M K A
  throw t = raised t

  abbrev pub header : M K IxFileHdr
  header t = done t.file_hdr t

  abbrev pub set_header : (IxFileHdr → IxFileHdr) → M K (Unit {0})
  set_header f t = done tt (record t { file_hdr = f t.file_hdr })

  -- What a node handle points to.
  abbrev pub node_at : ℕ → M K (Node K)
  node_at p t = done (t.pages p) t

  abbrev pub set_node : ℕ → (Node K → Node K) → M K (Unit {0})
  set_node p f t = done tt (record t { pages = update t.pages p (f (t.pages p)) })

  -- An operation of `IxNodeHandle` that may end the call.
  abbrev pub on_node : ℕ → (Node K → Outcome (Node K) (Unit {0})) → M K (Unit {0})
  on_node p f t = elim (f (t.pages p)) [
    | raised node ↦ raised (record t { pages = update t.pages p node })
    | done _ node ↦ done tt (record t { pages = update t.pages p node })
  ]

  -- `assert(rid_idx < page_hdr->num_key)`
  abbrev pub child_index : ℕ → ℕ → M K ℕ
  child_index parent child t = elim (find_child child (t.pages parent)) [
    | none ↦ raised t
    | some i ↦ done i t
  ]

  unfoldable pub fetch_node : ℕ → M K ℕ
  fetch_node p t =
      if ltb p t.fd2pageno
      then done p (record t { pin_count = update t.pin_count p (t.pin_count p + 1) })
      else raised t

  pub fetch_done :
      (p : ℕ) (t : Tree K)
      → p < t.fd2pageno
      → fetch_node p t ≡ done p (with_pins t (update t.pin_count p (t.pin_count p + 1)))
  unfolding fetch_node
  fetch_done p t h = ground arith

  unfoldable pub unpin_page : ℕ → M K (Unit {0})
  unpin_page p t = done tt (record t { pin_count = update t.pin_count p (t.pin_count p - 1) })

  unfoldable pub release_node_handle : ℕ → M K (Unit {0})
  release_node_handle p = set_header (λ h. record h { num_pages = h.num_pages - 1 })

  unfoldable pub update_root_page_no : ℕ → M K (Unit {0})
  update_root_page_no root = set_header (λ h. record h { root_page = root })

  -- `memset` with zeros.
  abbrev pub zero_node : K → Node K
  zero_node zero_key = record {
    parent = 0;
    num_key = 0;
    is_leaf = false;
    prev_leaf = 0;
    next_leaf = 0;
    slots = λ _. (zero_key, record { page_no = 0; slot_no = 0 });
  }

  unfoldable pub create_node : K → M K ℕ
  create_node zero_key t =
      let p = t.fd2pageno in
      done p (record t {
        file_hdr = record t.file_hdr { num_pages = t.file_hdr.num_pages + 1 };
        pages = update t.pages p (zero_node zero_key);
        pin_count = update t.pin_count p 1;
        fd2pageno = p + 1;
      })

  unfoldable pub maintain_child : ℕ → ℕ → M K (Unit {0})
  maintain_child p child_idx = do
    node ← node_at p
    if node.is_leaf then pure tt else (do
      child ← fetch_node (value_at child_idx node)
      set_node child (λ n. record n { parent = p })
      unpin_page child)

  -- The loop over the children from slot `i`; `rounds` are left.
  unfoldable pub maintain_children : ℕ → ℕ → ℕ → M K (Unit {0})
  maintain_children zero i p = pure tt
  maintain_children (suc rounds) i p = do maintain_child p i; maintain_children rounds (i + 1) p

  unfoldable pub leaf_begin : M K Iid
  leaf_begin t = done (record { page_no = t.file_hdr.first_leaf; slot_no = 0 }) t

  unfoldable pub leaf_end : M K Iid
  leaf_end = do
    h ← header
    p ← fetch_node h.last_leaf
    node ← node_at p
    unpin_page p
    pure (record { page_no = h.last_leaf; slot_no = node.num_key })

  -- The page stays pinned if there is no such slot.
  unfoldable pub get_rid : Iid → M K Rid
  get_rid iid = do
    p ← fetch_node iid.page_no
    node ← node_at p
    if leb node.num_key iid.slot_no
        then throw
        else (do unpin_page p; pure (node.slots iid.slot_no).1)

  -- `IxScan::next`, from the place of the scan.
  unfoldable pub next : Iid → M K Iid
  next iid = do
    p ← fetch_node iid.page_no
    node ← node_at p
    h ← header
    if node.is_leaf && ltb iid.slot_no node.num_key
        then (do
          unpin_page p
          pure (
              if (if iid.page_no == h.last_leaf then false else true)
                && iid.slot_no + 1 == node.num_key
              then record { page_no = node.next_leaf; slot_no = 0 }
              else record { page_no = iid.page_no; slot_no = iid.slot_no + 1 }))
        else throw

  module _ (cmp : K → K → Ordering) where
    -- The loop of `find_leaf_page`, from a node that is pinned.
    unfoldable pub descend : ℕ → K → ℕ → M K ℕ
    descend zero key p = throw
    descend (suc fuel) key p = do
      node ← node_at p
      if node.is_leaf then pure p else (do
        child ← fetch_node (internal_lookup cmp key node)
        unpin_page p
        descend fuel key child)

    unfoldable pub find_leaf_page : ℕ → K → M K (Option ℕ)
    find_leaf_page fuel key = do
      h ← header
      if h.root_page == no_page
          then pure none
          else (do root ← fetch_node h.root_page; leaf ← descend fuel key root; pure (some leaf))

    unfoldable pub lookup_leaf : K → Option ℕ → M K (Option Rid)
    lookup_leaf key none = pure none
    lookup_leaf key (some leaf) = do
      node ← node_at leaf
      unpin_page leaf
      pure (leaf_lookup cmp key node)

    -- The record's place, if there is one.
    unfoldable pub get_value : ℕ → K → M K (Option Rid)
    get_value fuel key = do leaf ← find_leaf_page fuel key; lookup_leaf key leaf

    -- `iid` in a leaf, or the start of the next leaf if it is behind the last slot.
    unfoldable pub place_in : ℕ → ℕ → Node K → Iid
    place_in leaf slot node =
        if slot == node.num_key
          && ((if node.next_leaf == leaf_header_page then false else true)
              && (if node.next_leaf == no_page then false else true))
        then record { page_no = node.next_leaf; slot_no = 0 }
        else record { page_no = leaf; slot_no = slot }

    unfoldable pub bound_in : (Node K → ℕ) → Option ℕ → M K Iid
    bound_in find none = leaf_end
    bound_in find (some leaf) = do
      node ← node_at leaf
      unpin_page leaf
      pure (place_in leaf (find node) node)

    unfoldable pub tree_lower_bound : ℕ → K → M K Iid
    tree_lower_bound fuel key = do
      leaf ← find_leaf_page fuel key
      bound_in (lower_bound cmp key) leaf

    unfoldable pub tree_upper_bound : ℕ → K → M K Iid
    tree_upper_bound fuel key = do
      leaf ← find_leaf_page fuel key
      bound_in (upper_bound cmp key) leaf
