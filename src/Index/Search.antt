-- ===== src/Index/Search.antt =====
-- index/ix_index_handle.cpp: what the binary searches of a node find.
use whu_db_practice.Prelude.{
  ℕ, zero, suc, ◌+◌, ◌-◌, ◌/◌, ◌≤◌, ◌<◌, ◌≡◌, inl, inr, refl, ap, ◌∙◌, Bool, true, false, none,
  some, ◌==◌, ltb, Ordering, Bool-cases, arith,
}
use whu_db_practice.Record.Defs.{Rid}
use whu_db_practice.Index.Order.{IsOrder}
use whu_db_practice.Index.Node.{
  Node, is_eq, bisect, at_least, above, lower_bound, upper_bound, leaf_lookup,
}

-- The keys before `r` fail the test, and those from `r` on pass it.
pub record Splits {K : Type 0} (test : K → Bool) (slots : ℕ → K × Rid) (n r : ℕ) : Type 0 where
  pub within : r ≤ n
  pub before : (i : ℕ) → i < r → test (slots i).0 ≡ false
  pub after : (i : ℕ) → r ≤ i → i < n → test (slots i).0 ≡ true

module _ {K : Type 0} where
  -- A key that passes is followed by keys that pass.
  abbrev pub Ascends : (K → Bool) → (ℕ → K × Rid) → ℕ → Type 0
  Ascends test slots n =
      (i j : ℕ) → i < j → j < n → test (slots i).0 ≡ true → test (slots j).0 ≡ true

  bisect-Splits :
      (test : K → Bool) (slots : ℕ → K × Rid) (n fuel lo hi : ℕ)
      → Ascends test slots n
      → hi ≤ n
      → lo ≤ hi
      → hi - lo ≤ fuel
      → ((i : ℕ) → i < lo → test (slots i).0 ≡ false)
      → ((i : ℕ) → hi ≤ i → i < n → test (slots i).0 ≡ true)
      → Splits test slots n (bisect test slots fuel lo hi)
  unfolding bisect
  bisect-Splits test slots n zero lo hi up hn lh f b a = record {
    within = omega arith;
    before = b;
    after = λ i h. a i (omega arith);
  }
  bisect-Splits test slots n (suc fuel) lo hi up hn lh f b a =
      let mid = lo + (hi - lo) / 2 in
      elim (Bool-cases (ltb lo hi)) [
        | inr out ↦
            rw (out, bisect)
              (record { within = omega arith; before = b; after = λ i h. a i (ground arith) })
        | inl inside ↦
            let l : lo < hi = ground arith in
            elim (Bool-cases (test (slots mid).0)) [
              | inl passes ↦
                  rw (inside, bisect, passes)
                    (bisect-Splits test slots n fuel lo mid up (omega arith) (omega arith)
                      (omega arith) b
                      (λ i h k. elim (Bool-cases (i == mid)) [
                        | inl e ↦
                            let same : i ≡ mid = ground arith in
                            ap (λ j. test (slots j).0) same ∙ passes
                        | inr e ↦ up mid i (ground arith) k passes
                      ]))
              | inr fails ↦
                  rw (inside, bisect, fails)
                    (bisect-Splits test slots n fuel (mid + 1) hi up hn (omega arith) (omega arith)
                      (λ i h. elim (Bool-cases (test (slots i).0)) [
                        | inr no_pass ↦ no_pass
                        | inl pass ↦ elim (Bool-cases (i == mid)) [
                          | inl e ↦
                              let same : i ≡ mid = ground arith in
                              ap (λ j. test (slots j).0) same ∙ fails
                          | inr e ↦ let p = up i mid (ground arith) (omega arith) pass in cc
                        ]
                      ])
                      a)
            ]
      ]

-- The keys of a node ascend, and no two are equal.
module _ {K : Type 0} (cmp : K → K → Ordering) where
  abbrev pub IsSorted : (ℕ → K × Rid) → ℕ → Type 0
  IsSorted slots n = (i j : ℕ) → i < j → j < n → cmp (slots i).0 (slots j).0 ≡ Ordering.lt

  module _ (order : IsOrder cmp) where
    pub lt_eq : (a b c : K) → cmp a b ≡ Ordering.lt → cmp b c ≡ Ordering.eq → cmp a c ≡ Ordering.lt
    lt_eq a b c h k = ground (arith, order.2 b c a k, order.0 a b, order.0 a c)

    at_least-Ascends :
        (target : K) (slots : ℕ → K × Rid) (n : ℕ)
        → IsSorted slots n
        → Ascends (at_least cmp target) slots n
    at_least-Ascends target slots n s i j l h p =
        let step = s i j l h in ground (arith, order.1 (slots i).0 (slots j).0 target)

    above-Ascends :
        (target : K) (slots : ℕ → K × Rid) (n : ℕ)
        → IsSorted slots n
        → Ascends (above cmp target) slots n
    above-Ascends target slots n s i j l h p =
        let step = s i j l h in
        let a = (slots i).0 in
        let b = (slots j).0 in
        ground (
          arith,
          order.1 target a b,
          order.0 target a,
          order.0 target b,
          order.0 a target,
          order.0 b target,
        )

    -- In a sorted node `lower_bound` finds the first key that is at least the target, or the end.
    pub lower_bound-Splits :
        (target : K) (node : Node K)
        → IsSorted node.slots node.num_key
        → Splits (at_least cmp target) node.slots node.num_key (lower_bound cmp target node)
    unfolding lower_bound
    lower_bound-Splits target node s =
        bisect-Splits (at_least cmp target) node.slots node.num_key node.num_key 0 node.num_key
          (at_least-Ascends target node.slots node.num_key s) (omega arith) (omega arith)
          (omega arith) (λ i h. absurd (omega arith)) (λ i h k. absurd (omega arith))

    -- In a sorted node `upper_bound` finds the first key that is above the target, or the end.
    pub upper_bound-Splits :
        (target : K) (node : Node K)
        → IsSorted node.slots node.num_key
        → Splits (above cmp target) node.slots node.num_key (upper_bound cmp target node)
    unfolding upper_bound
    upper_bound-Splits target node s =
        bisect-Splits (above cmp target) node.slots node.num_key node.num_key 0 node.num_key
          (above-Ascends target node.slots node.num_key s) (omega arith) (omega arith) (omega arith)
          (λ i h. absurd (omega arith)) (λ i h k. absurd (omega arith))

    -- Where the key stands, if the node has it.
    pub lower_bound_hit :
        (key : K) (node : Node K) (i : ℕ)
        → IsSorted node.slots node.num_key
        → i < node.num_key
        → is_eq (cmp (node.slots i).0 key) ≡ true
        → lower_bound cmp key node ≡ i
    lower_bound_hit key node i s h e =
        let v = lower_bound-Splits key node s in
        let r = lower_bound cmp key node in
        let late : (i < r) → ⊥ = λ l. let p = v.before i l in ground arith in
        let early : (r < i) → ⊥ = λ l.
          let p = v.after r (omega arith) (omega arith) in
          let q = s r i l h in ground (arith, lt_eq (node.slots r).0 (node.slots i).0 key) in
        elim (Bool-cases (ltb i r)) [
          | inl y ↦ absurd (late (ground arith))
          | inr n ↦ elim (Bool-cases (ltb r i)) [
            | inl y ↦ absurd (early (ground arith))
            | inr m ↦ ground arith
          ]
        ]

    -- A lookup in a sorted node answers with the record of the key, wherever it stands.
    pub leaf_lookup_hit :
        (key : K) (node : Node K) (i : ℕ)
        → IsSorted node.slots node.num_key
        → i < node.num_key
        → is_eq (cmp (node.slots i).0 key) ≡ true
        → leaf_lookup cmp key node ≡ some (node.slots i).1
    unfolding leaf_lookup
    leaf_lookup_hit key node i s h e = rw (lower_bound_hit key node i s h e) (ground arith)

  pub leaf_lookup_miss :
      (key : K) (node : Node K)
      → ((i : ℕ) → i < node.num_key → is_eq (cmp (node.slots i).0 key) ≡ false)
      → leaf_lookup cmp key node ≡ none
  unfolding leaf_lookup
  leaf_lookup_miss key node miss =
      let pos = lower_bound cmp key node in
      elim (Bool-cases (ltb pos node.num_key)) [
        | inr out ↦ rw (out) refl
        | inl inside ↦ let m = miss pos (ground arith) in rw (inside, m) refl
      ]

  -- What a lookup answers is in the node.
  pub leaf_lookup_found :
      (key : K) (node : Node K) (rid : Rid)
      → leaf_lookup cmp key node ≡ some rid
      → (i : ℕ) × (i < node.num_key)
        × (is_eq (cmp (node.slots i).0 key) ≡ true)
        × ((node.slots i).1 ≡ rid)
  unfolding leaf_lookup
  leaf_lookup_found key node rid h =
      (lower_bound cmp key node, ground arith, ground arith, ground arith)
