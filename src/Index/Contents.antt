-- ===== src/Index/Contents.antt =====
-- index/ix_index_handle.cpp: what makes nodes a search tree, and its contents, read by a walk over
-- all leaves.
use whu_db_practice.Prelude.{
  ℕ, zero, suc, ◌+◌, ◌≤◌, ◌<◌, ◌≡◌, inl, inr, refl, sym, ap, ◌∙◌, true, false, ◌==◌, if◌then◌else◌,
  Bool-cases, Option-cases, Option, none, some, arith, Ordering,
}
use whu_db_practice.Record.Defs.{Rid}
use whu_db_practice.Index.Order.{IsOrder}
use whu_db_practice.Index.Node.{Node, is_lt, is_eq, value_at, leaf_lookup}
use whu_db_practice.Index.Search.{IsSorted, lower_bound_hit, leaf_lookup_found}
use whu_db_practice.Index.Insert.{absent}

-- The first answer of `f` from `i` on; `rounds` are left.
unfoldable pub first_of : ℕ → ℕ → (ℕ → Option Rid) → Option Rid
first_of zero i f = none
first_of (suc rounds) i f = elim (f i) [ some r ↦ some r | none ↦ first_of rounds (i + 1) f ]

pub first_of-none :
    (rounds i : ℕ) (f : ℕ → Option Rid)
    → ((j : ℕ) → i ≤ j → j < i + rounds → f j ≡ none)
    → first_of rounds i f ≡ none
unfolding first_of
first_of-none zero i f h = refl
first_of-none (suc rounds) i f h =
    rw (h i (omega arith) (omega arith), first_of)
      (first_of-none rounds (i + 1) f (λ j a b. h j (omega arith) (omega arith)))

-- Only one place can answer.
pub first_of_only :
    (rounds i m : ℕ) (f : ℕ → Option Rid)
    → i ≤ m
    → m < i + rounds
    → ((j : ℕ) → i ≤ j → j < i + rounds → (j == m) ≡ false → f j ≡ none)
    → first_of rounds i f ≡ f m
unfolding first_of
first_of_only zero i m f a b h = absurd (omega arith)
first_of_only (suc rounds) i m f a b h = elim (Bool-cases (i == m)) [
  | inr other ↦
      rw (h i (omega arith) (omega arith) other, first_of)
        (first_of_only rounds (i + 1) m f (ground arith) (omega arith)
          (λ j x y. h j (omega arith) (omega arith)))
  | inl y ↦
      let same : i ≡ m = ground arith in
      elim (Option-cases (f i)) [
        | inr (r, e) ↦ rw (e, first_of) (sym e ∙ ap f same)
        | inl e ↦
            rw (e, first_of)
              (first_of-none rounds (i + 1) f
                  (λ j x z. h j (omega arith) (omega arith) (ground arith))
                ∙ (sym e ∙ ap f same))
      ]
]

module _ {K : Type 0} (cmp : K → K → Ordering) where
  -- A key is at least `lo` and below `hi`, where these are given.
  abbrev pub FromLo : Option K → K → Type 0
  FromLo none key = Unit
  FromLo (some lo) key = is_lt (cmp key lo) ≡ false

  abbrev pub ToHi : Option K → K → Type 0
  ToHi none key = Unit
  ToHi (some hi) key = is_lt (cmp key hi) ≡ true

  -- The bounds of a child.
  abbrev pub child_lo : Option K → Node K → ℕ → Option K
  child_lo lo node i = if i == 0 then lo else some (node.slots i).0

  abbrev pub child_hi : Option K → Node K → ℕ → Option K
  child_hi hi node i = if i + 1 == node.num_key then hi else some (node.slots (i + 1)).0

  -- The pages below `fd` hold a search tree of height `h` with its root on page `p`, whose keys lie
  -- between the bounds.
  pub record IsLeaf (pages : ℕ → Node K) (fd p : ℕ) (lo hi : Option K) : Type 0 where
    pub there : p < fd
    pub leaf : (pages p).is_leaf ≡ true
    pub sorted : IsSorted cmp (pages p).slots (pages p).num_key
    pub lows : (i : ℕ) → i < (pages p).num_key → FromLo lo ((pages p).slots i).0
    pub highs : (i : ℕ) → i < (pages p).num_key → ToHi hi ((pages p).slots i).0

  pub record IsInner (pages : ℕ → Node K) (fd p : ℕ) (lo hi : Option K) : Type 0 where
    pub there : p < fd
    pub inner : (pages p).is_leaf ≡ false
    pub some_child : 0 < (pages p).num_key
    pub sorted : IsSorted cmp (pages p).slots (pages p).num_key
    pub lows : (i : ℕ) → 0 < i → i < (pages p).num_key → FromLo lo ((pages p).slots i).0
    pub highs : (i : ℕ) → 0 < i → i < (pages p).num_key → ToHi hi ((pages p).slots i).0

  abbrev pub IsTree : (ℕ → Node K) → ℕ → ℕ → ℕ → Option K → Option K → Type 0
  IsTree pages fd zero p lo hi = IsLeaf pages fd p lo hi
  IsTree pages fd (suc h) p lo hi =
      IsInner pages fd p lo hi
      × ((i : ℕ)
          → i < (pages p).num_key
          → IsTree pages fd h (value_at i (pages p)) (child_lo lo (pages p) i)
              (child_hi hi (pages p) i))

  -- The record of a key, by a walk over all slots of all leaves.
  unfoldable pub content : (ℕ → Node K) → ℕ → ℕ → K → Option Rid
  content pages zero p key =
      first_of (pages p).num_key 0
        (λ i. if is_eq (cmp ((pages p).slots i).0 key) then some ((pages p).slots i).1 else none)
  content pages (suc h) p key =
      first_of (pages p).num_key 0 (λ i. content pages h (value_at i (pages p)) key)

  module _ (order : IsOrder cmp) where
    pub leaf_content :
        (pages : ℕ → Node K) (p : ℕ) (key : K)
        → IsSorted cmp (pages p).slots (pages p).num_key
        → leaf_lookup cmp key (pages p) ≡ content pages zero p key
    unfolding content
    leaf_content pages p key s = elim (Option-cases (leaf_lookup cmp key (pages p))) [
      | inl e ↦
          e
          ∙ sym (
              first_of-none (pages p).num_key 0 _
                (λ i a b. rw (absent cmp order key (pages p) s e i (omega arith)) refl))
      | inr (r, e) ↦
          let (m, inside, hit, same) = leaf_lookup_found cmp key (pages p) r e in
          let at_m = lower_bound_hit cmp order key (pages p) m s inside hit in
          e
          ∙ sym (
              first_of_only (pages p).num_key 0 m _ (omega arith) (omega arith) (λ j a b ne.
                elim (Bool-cases (is_eq (cmp ((pages p).slots j).0 key))) [
                  | inr n ↦ rw n refl
                  | inl again ↦
                      let at_j = lower_bound_hit cmp order key (pages p) j s (omega arith) again in
                      absurd (ground arith)
                ])
              ∙ rw hit (ap some same))
    ]
