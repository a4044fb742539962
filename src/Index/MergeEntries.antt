-- ===== src/Index/MergeEntries.antt =====
-- index/ix_index_handle.cpp: what `coalesce` does to the entries of the parent.
use whu_db_practice.Prelude.{
  ℕ, zero, suc, ◌+◌, ◌-◌, ◌≤◌, ◌<◌, ◌≡◌, inl, inr, refl, sym, ap, ◌∙◌, Bool, true, false, ◌==◌, ltb,
  nat_eq, if◌then◌else◌, Bool-cases, some_inj, ==_iff, none, some, arith, done,
}
use whu_db_practice.Record.Defs.{Rid}
use whu_db_practice.Index.Header.{no_page, leaf_header_page}
use whu_db_practice.Index.Node.{Node, child_from, find_child, value_at}
use whu_db_practice.Index.Remove.{erased, erased_slots, erased_size}
use whu_db_practice.Index.Tree.{Tree, M}
use whu_db_practice.Index.Shrink.{merge}
use whu_db_practice.Index.Merge.{shrunk, merged, at_parent, finish_done, merge_done}

module _ {K : Type 0} where
  child_from_found :
      (rounds i page : ℕ) (node : Node K) (j : ℕ)
      → child_from rounds i page node ≡ some j
      → value_at j node ≡ page
  unfolding child_from
  child_from_found zero i page node j e = cc
  child_from_found (suc rounds) i page node j e = elim (Bool-cases (value_at i node == page)) [
    | inl y ↦
        let hit : some i ≡ some j = sym (rw y refl) ∙ e in
        let same = some_inj hit in
        ap (λ k. value_at k node) (sym same) ∙ (==_iff (value_at i node) page).0 y
    | inr n ↦
        let later : child_from rounds (i + 1) page node ≡ some j = sym (rw n refl) ∙ e in
        child_from_found rounds (i + 1) page node j later
  ]

  child_from-none :
      (rounds i page : ℕ) (node : Node K)
      → ((j : ℕ) → i ≤ j → j < i + rounds → (value_at j node == page) ≡ false)
      → child_from rounds i page node ≡ none
  unfolding child_from
  child_from-none zero i page node h = refl
  child_from-none (suc rounds) i page node h =
      rw (h i (omega arith) (omega arith))
        (child_from-none rounds (i + 1) page node (λ j a b. h j (omega arith) (omega arith)))

module _ {K : Type 0} (again : ℕ → M K Bool) (left_p right_p parent : ℕ) (t : Tree K) (i : ℕ)
    (inside : suc i < (t.pages parent).num_key) where
  merged_slots :
      (j : ℕ)
      → j < (t.pages parent).num_key - 1
      → ((merged again left_p right_p parent t i inside).pages parent).slots j
        ≡ (if ltb j i then (t.pages parent).slots j else (t.pages parent).slots (j + 1))
  unfolding shrunk erased
  merged_slots j h =
      ap (λ (n : Node K). n.slots j) (at_parent again left_p right_p parent t i inside)
      ∙ erased_slots i (t.pages parent) (omega arith) j h

  merged_size :
      ((merged again left_p right_p parent t i inside).pages parent).num_key + 1
      ≡ (t.pages parent).num_key
  unfolding shrunk
  merged_size =
      ap (λ (n : Node K). n.num_key + 1) (at_parent again left_p right_p parent t i inside)
      ∙ erased_size i (t.pages parent) (omega arith)

  merged_right :
      find_child right_p (t.pages parent) ≡ some (suc i)
      → value_at i ((merged again left_p right_p parent t i inside).pages parent) ≡ right_p
  unfolding find_child
  merged_right at_right =
      let right =
        child_from_found (t.pages parent).num_key 0 right_p (t.pages parent) (suc i) at_right in
      let out : ltb i i ≡ false = ground arith in
      ap (λ (x : K × Rid). x.1.page_no) (merged_slots i (omega arith))
      ∙ rw out (ap (λ k. value_at k (t.pages parent)) (omega arith) ∙ right)

  merged_left :
      ((j : ℕ) → (j == i) ≡ false → (value_at j (t.pages parent) == left_p) ≡ false)
      → find_child left_p ((merged again left_p right_p parent t i inside).pages parent) ≡ none
  unfolding find_child
  merged_left only =
      child_from-none ((merged again left_p right_p parent t i inside).pages parent).num_key 0
        left_p ((merged again left_p right_p parent t i inside).pages parent)
        (λ j a b.
          let size = merged_size in
          let e = ap (λ (x : K × Rid). x.1.page_no) (merged_slots j (omega arith)) in
          rw e (ground (arith, only j, only (j + 1))))

  -- Two leaves under the root, side by side, the right one the last leaf, and with a third child:
  -- after `coalesce` has moved the pairs of the right leaf into the left one, the root has no
  -- entry for the left leaf, and still one for the right leaf, which was released.
  pub merge_loses :
      (right_p == left_p) ≡ false
      → (parent == left_p) ≡ false
      → (t.pages right_p).is_leaf ≡ true
      → ((t.pages right_p).next_leaf == leaf_header_page) ≡ true
      → find_child right_p (t.pages parent) ≡ some (suc i)
      → ((j : ℕ) → (j == i) ≡ false → (value_at j (t.pages parent) == left_p) ≡ false)
      → ((t.pages parent).parent == no_page) ≡ true
      → (t.pages parent).is_leaf ≡ false
      → 2 < (t.pages parent).num_key
      → (t' : Tree K) × (merge again left_p right_p parent t ≡ done false t')
        × (find_child left_p (t'.pages parent) ≡ none)
        × (value_at i (t'.pages parent) ≡ right_p)
  merge_loses other ne leaf last at_right only root inner size = (
    (merged again left_p right_p parent t i inside),
    merge_done again left_p right_p parent t i inside other ne leaf last at_right
        ∙ finish_done again left_p right_p parent t i inside root inner size,
    merged_left only,
    merged_right at_right,
  )
