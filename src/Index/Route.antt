-- ===== src/Index/Route.antt =====
-- index/ix_index_handle.cpp: `internal_lookup` leads to the only child that may have the key.
use whu_db_practice.Prelude.{
  ℕ, zero, suc, ◌+◌, ◌-◌, ◌<◌, ◌≡◌, inl, inr, true, false, ◌==◌, ltb, Bool-cases, Option, none,
  some, arith, Ordering,
}
use whu_db_practice.Index.Order.{IsOrder}
use whu_db_practice.Index.Node.{Node, is_lt, value_at, upper_bound, internal_lookup}
use whu_db_practice.Index.Search.{IsSorted, upper_bound-Splits, lt_eq}
use whu_db_practice.Index.Contents.{
  first_of-none, first_of_only, FromLo, ToHi, child_lo, child_hi, IsTree, content,
}

module _ {K : Type 0} (cmp : K → K → Ordering) (order : IsOrder cmp) where
  -- A key outside of the bounds.
  abbrev IsBelow : Option K → K → Type 0
  IsBelow none key = ⊥
  IsBelow (some lo) key = is_lt (cmp key lo) ≡ true

  abbrev IsBeyond : Option K → K → Type 0
  IsBeyond none key = ⊥
  IsBeyond (some hi) key = is_lt (cmp key hi) ≡ false

  lt_le : (a b c : K) → is_lt (cmp a b) ≡ true → is_lt (cmp c b) ≡ false → is_lt (cmp a c) ≡ true
  lt_le a b c h k = ground (arith, order.0 c b, order.1 a b c, lt_eq cmp order a b c)

  IsBelow-child :
      (node : Node K) (lo : Option K) (i : ℕ) (key : K)
      → (0 < i → FromLo cmp lo (node.slots i).0)
      → IsBelow lo key
      → IsBelow (child_lo cmp lo node i) key
  IsBelow-child node none i key h b = absurd b
  IsBelow-child node (some l) i key h b = elim (Bool-cases (i == 0)) [
    | inl y ↦ rw y b
    | inr n ↦ rw n (lt_le key l (node.slots i).0 b (h (ground arith)))
  ]

  IsBeyond-child :
      (node : Node K) (hi : Option K) (i : ℕ) (key : K)
      → i < node.num_key
      → (i + 1 < node.num_key → ToHi cmp hi (node.slots (i + 1)).0)
      → IsBeyond hi key
      → IsBeyond (child_hi cmp hi node i) key
  IsBeyond-child node none i key inside h b = absurd b
  IsBeyond-child node (some u) i key inside h b = elim (Bool-cases (i + 1 == node.num_key)) [
    | inl y ↦ rw y b
    | inr n ↦
        let s = (node.slots (i + 1)).0 in
        let low = h (ground arith) in rw n (ground (arith, order.1 key s u))
  ]

  content_below :
      (pages : ℕ → Node K) (fd h p : ℕ) (lo hi : Option K) (key : K)
      → IsTree cmp pages fd h p lo hi
      → IsBelow lo key
      → content cmp pages h p key ≡ none
  unfolding content
  content_below pages fd zero p none hi key t b = absurd b
  content_below pages fd zero p (some l) hi key t b = first_of-none (pages p).num_key 0 _ (λ i x y.
      let s = ((pages p).slots i).0 in
      let low = t.lows i (omega arith) in ground (arith, order.2 s key l))
  content_below pages fd (suc h) p lo hi key t b = first_of-none (pages p).num_key 0 _ (λ i x y.
      content_below pages fd h (value_at i (pages p)) (child_lo cmp lo (pages p) i)
        (child_hi cmp hi (pages p) i) key (t.1 i (omega arith))
        (IsBelow-child (pages p) lo i key (λ pos. t.0.lows i pos (omega arith)) b))

  content_beyond :
      (pages : ℕ → Node K) (fd h p : ℕ) (lo hi : Option K) (key : K)
      → IsTree cmp pages fd h p lo hi
      → IsBeyond hi key
      → content cmp pages h p key ≡ none
  unfolding content
  content_beyond pages fd zero p lo none key t b = absurd b
  content_beyond pages fd zero p lo (some u) key t b = first_of-none (pages p).num_key 0 _ (λ i x y.
      let s = ((pages p).slots i).0 in
      let low = t.highs i (omega arith) in ground (arith, order.2 s key u))
  content_beyond pages fd (suc h) p lo hi key t b = first_of-none (pages p).num_key 0 _ (λ i x y.
      content_beyond pages fd h (value_at i (pages p)) (child_lo cmp lo (pages p) i)
        (child_hi cmp hi (pages p) i) key (t.1 i (omega arith))
        (IsBeyond-child (pages p) hi i key (omega arith) (λ l. t.0.highs (i + 1) (omega arith) l)
          b))

  -- The slot of the child that `internal_lookup` takes.
  abbrev pub route : K → Node K → ℕ
  route key node = upper_bound cmp key node - 1

  pub route_inside :
      (key : K) (node : Node K)
      → IsSorted cmp node.slots node.num_key
      → 0 < node.num_key
      → route key node < node.num_key
  route_inside key node s pos =
      let v = upper_bound-Splits cmp order key node s in let w = v.within in omega arith

  -- In a search tree the child that `internal_lookup` takes has the key if any has.
  pub content-route :
      (pages : ℕ → Node K) (fd h p : ℕ) (lo hi : Option K) (key : K)
      → IsTree cmp pages fd (suc h) p lo hi
      → content cmp pages (suc h) p key
        ≡ content cmp pages h (internal_lookup cmp key (pages p)) key
  unfolding content internal_lookup
  content-route pages fd h p lo hi key t =
      let node = pages p in
      let v = upper_bound-Splits cmp order key node t.0.sorted in
      let r = upper_bound cmp key node in
      let w = v.within in
      let m = route key node in
      first_of_only node.num_key 0 m _ (omega arith)
        (omega (arith, route_inside key node t.0.sorted t.0.some_child))
        (λ j a b ne. elim (Bool-cases (ltb j m)) [
          | inl y ↦
              let l : j < m = ground arith in
              let q = v.before (j + 1) (omega arith) in
              let not_last : (j + 1 == node.num_key) ≡ false = ground arith in
              content_beyond pages fd h (value_at j node) (child_lo cmp lo node j)
                (child_hi cmp hi node j) key (t.1 j (omega arith))
                (rw not_last (ground (arith, order.0 (node.slots (j + 1)).0 key)))
          | inr n ↦
              let q = v.after j (ground arith) (omega arith) in
              let not_first : (j == 0) ≡ false = ground arith in
              content_below pages fd h (value_at j node) (child_lo cmp lo node j)
                (child_hi cmp hi node j) key (t.1 j (omega arith))
                (rw not_first (ground (arith, order.0 (node.slots j).0 key)))
        ])
