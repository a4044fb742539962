-- ===== src/Index/Lookup.antt =====
-- index/ix_index_handle.cpp: `find_leaf_page` and `get_value` on a search tree.
use whu_db_practice.Prelude.{
  ℕ, zero, suc, ◌+◌, ◌-◌, ◌≤◌, ◌<◌, ◌≡◌, inl, inr, refl, sym, ap, ◌∙◌, Bool, true, false, ◌==◌,
  update, nat_eq, Bool-cases, Option, none, some, arith, Ordering, done,
}
use whu_db_practice.Index.Order.{IsOrder}
use whu_db_practice.Index.Header.{no_page}
use whu_db_practice.Index.Node.{Node, internal_lookup, leaf_lookup}
use whu_db_practice.Index.Tree.{
  Tree, ◌>>=◌, ◌>>◌, pure, >>=-done, with_pins, fetch_done, if_true, if_false, fetch_node,
  unpin_page, descend, find_leaf_page, lookup_leaf, get_value,
}
use whu_db_practice.Index.Contents.{child_lo, child_hi, IsTree, content, leaf_content}
use whu_db_practice.Index.Route.{route, route_inside, content-route}

abbrev pub one : Bool → ℕ
one true = 1
one false = 0

-- A step of the loop of `find_leaf_page`: the child is pinned, and the node is not any more.
abbrev moved : (ℕ → ℕ) → ℕ → ℕ → ℕ → ℕ
moved pins p child = let pins' = update pins child (pins child + 1) in update pins' p (pins' p - 1)

module _ {K : Type 0} (cmp : K → K → Ordering) (order : IsOrder cmp) where
  IsTree-there :
      (pages : ℕ → Node K) (fd h p : ℕ) (lo hi : Option K) → IsTree cmp pages fd h p lo hi → p < fd
  IsTree-there pages fd zero p lo hi t = t.there
  IsTree-there pages fd (suc h) p lo hi t = t.0.there

  -- The child that the loop goes to.
  subtree :
      (pages : ℕ → Node K) (fd h p : ℕ) (lo hi : Option K) (key : K)
      → IsTree cmp pages fd (suc h) p lo hi
      → IsTree cmp pages fd h
          (internal_lookup cmp key (pages p))
          (child_lo cmp lo (pages p) (route cmp order key (pages p)))
          (child_hi cmp hi (pages p) (route cmp order key (pages p)))
  unfolding internal_lookup
  subtree pages fd h p lo hi key t =
      t.1 (route cmp order key (pages p))
        (route_inside cmp order key (pages p) t.0.sorted t.0.some_child)

  descend_leaf :
      (fuel : ℕ) (key : K) (p : ℕ) (t : Tree K)
      → (t.pages p).is_leaf ≡ true
      → descend cmp (suc fuel) key p t ≡ done p t
  unfolding descend
  descend_leaf fuel key p t e = if_true (t.pages p).is_leaf _ _ t e

  descend_inner :
      (fuel : ℕ) (key : K) (p : ℕ) (t : Tree K)
      → (t.pages p).is_leaf ≡ false
      → internal_lookup cmp key (t.pages p) < t.fd2pageno
      → descend cmp (suc fuel) key p t
        ≡ descend cmp fuel key
            (internal_lookup cmp key (t.pages p))
            (with_pins t (moved t.pin_count p (internal_lookup cmp key (t.pages p))))
  unfolding descend unpin_page
  descend_inner fuel key p t e h =
      let child = internal_lookup cmp key (t.pages p) in
      if_false (t.pages p).is_leaf _ _ t e
      ∙ >>=-done (fetch_node child) (λ c. unpin_page p >> descend cmp fuel key c) t
          (with_pins t (update t.pin_count child (t.pin_count child + 1))) child
          (fetch_done child t h)

  moved_lem :
      (pins : ℕ → ℕ) (p child q : ℕ)
      → 1 ≤ pins p
      → moved pins p child q + one (q == p) ≡ pins q + one (q == child)
  moved_lem pins p child q h = elim (Bool-cases (q == p)) [
    | inl y ↦ let e : q ≡ p = ground arith in ground (arith, ap pins e)
    | inr n ↦ elim (Bool-cases (q == child)) [
      | inl y ↦ let e : q ≡ child = ground arith in ground (arith, ap pins e)
      | inr m ↦ ground arith
    ]
  ]

  moved_pinned : (pins : ℕ → ℕ) (p child : ℕ) → 1 ≤ pins p → 1 ≤ moved pins p child child
  moved_pinned pins p child h = elim (Bool-cases (child == p)) [
    | inl y ↦
        let e : child ≡ p = ground arith in
        let m = moved_lem pins p child child h in ground (arith, ap pins e)
    | inr n ↦ ground arith
  ]

  -- From the root of a search tree of a height below the fuel, the loop ends at a leaf that answers
  -- as the whole tree does; the pin moves from the root to this leaf.
  descend_lem :
      (h fuel : ℕ) (key : K) (p : ℕ) (lo hi : Option K) (t : Tree K)
      → IsTree cmp t.pages t.fd2pageno h p lo hi
      → h < fuel
      → 1 ≤ t.pin_count p
      → (leaf : ℕ) × (pins : ℕ → ℕ) × (descend cmp fuel key p t ≡ done leaf (with_pins t pins))
        × ((q : ℕ) → pins q + one (q == p) ≡ t.pin_count q + one (q == leaf))
        × (leaf_lookup cmp key (t.pages leaf) ≡ content cmp t.pages h p key)
  descend_lem h zero key p lo hi t tree f pin = absurd (omega arith)
  descend_lem zero (suc fuel) key p lo hi t tree f pin = (
    p,
    t.pin_count,
    descend_leaf fuel key p t tree.leaf,
    λ q. refl,
    leaf_content cmp order t.pages p key tree.sorted,
  )
  descend_lem (suc h) (suc fuel) key p lo hi t tree f pin =
      let node = t.pages p in
      let i = route cmp order key node in
      let child : ℕ = internal_lookup cmp key node in
      let inside = route_inside cmp order key node tree.0.sorted tree.0.some_child in
      let below = subtree t.pages t.fd2pageno h p lo hi key tree in
      let there = IsTree-there t.pages t.fd2pageno h child _ _ below in
      let step = descend_inner fuel key p t tree.0.inner there in
      let t1 = with_pins t (moved t.pin_count p child) in
      let pinned : 1 ≤ moved t.pin_count p child child = moved_pinned t.pin_count p child pin in
      let (leaf, pins, run, count, same) =
        descend_lem h fuel key child _ _ t1 below (omega arith) pinned in
      (
        leaf,
        pins,
        step ∙ run,
        λ q. omega (arith, count q, moved_lem t.pin_count p child q pin),
        same ∙ sym (content-route cmp order t.pages t.fd2pageno h p lo hi key tree),
      )

  find_done :
      (h fuel : ℕ) (key : K) (t : Tree K)
      → (t.file_hdr.root_page == no_page) ≡ false
      → IsTree cmp t.pages t.fd2pageno h t.file_hdr.root_page none none
      → h < fuel
      → (leaf : ℕ) × (pins : ℕ → ℕ) × (find_leaf_page cmp fuel key t
          ≡ done (some leaf) (with_pins t pins))
        × ((q : ℕ) → pins q ≡ t.pin_count q + one (q == leaf))
        × (leaf_lookup cmp key (t.pages leaf) ≡ content cmp t.pages h t.file_hdr.root_page key)
  unfolding find_leaf_page
  find_done h fuel key t root tree f =
      let p = t.file_hdr.root_page in
      let pins1 = update t.pin_count p (t.pin_count p + 1) in
      let t1 = with_pins t pins1 in
      let start = fetch_done p t (IsTree-there t.pages t.fd2pageno h p none none tree) in
      let pinned : 1 ≤ pins1 p = ground arith in
      let (leaf, pins, run, count, same) = descend_lem h fuel key p none none t1 tree f pinned in
      (
        leaf,
        pins,
        if_false (p == no_page) _ _ t root
            ∙ (>>=-done (fetch_node p) (λ r. descend cmp fuel key r >>= λ l. pure (some l)) t t1 p
                  start
                ∙ >>=-done (descend cmp fuel key p) (λ l. pure (some l)) t1 (with_pins t pins) leaf
                    run),
        λ q. elim (Bool-cases (q == p)) [
          | inl y ↦ let e : q ≡ p = ground arith in ground (arith, count q, ap t.pin_count e)
          | inr n ↦ ground (arith, count q)
        ],
        same,
      )

  -- On a search tree of a height below the fuel, `get_value` answers as a walk over all slots of all
  -- leaves does, changes no node, and leaves every page pinned as often as it was.
  pub get_value-content :
      (h fuel : ℕ) (key : K) (t : Tree K)
      → (t.file_hdr.root_page == no_page) ≡ false
      → IsTree cmp t.pages t.fd2pageno h t.file_hdr.root_page none none
      → h < fuel
      → (pins : ℕ → ℕ) × (get_value cmp fuel key t
          ≡ done (content cmp t.pages h t.file_hdr.root_page key) (record t { pin_count = pins }))
        × ((q : ℕ) → pins q ≡ t.pin_count q)
  unfolding get_value lookup_leaf unpin_page
  get_value-content h fuel key t root tree f =
      let (leaf, pins, run, count, same) = find_done h fuel key t root tree f in
      (
        update pins leaf (pins leaf - 1),
        >>=-done (find_leaf_page cmp fuel key) (lookup_leaf cmp key) t (with_pins t pins)
              (some leaf) run
            ∙ ap (λ v. done v (with_pins t (update pins leaf (pins leaf - 1)))) same,
        λ q. elim (Bool-cases (q == leaf)) [
          | inl y ↦
              let e : q ≡ leaf = ground arith in
              ground (arith, count q, count leaf, ap t.pin_count e)
          | inr n ↦ ground (arith, count q)
        ],
      )
