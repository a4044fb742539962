-- ===== src/Index/Change.antt =====
-- index/ix_index_handle.cpp: what the loops of a node do to its slots.
use whu_db_practice.Prelude.{
  ℕ, zero, suc, ◌+◌, ◌-◌, ◌≡◌, inl, inr, ap, ◌∙◌, Bool, true, false, ◌&&◌, ◌==◌, ltb, leb,
  if◌then◌else◌, update, nat_eq, Bool-cases, arith,
}
use whu_db_practice.Record.Defs.{Rid}
use whu_db_practice.Index.Node.{move_up, put_pairs, move_down}

abbrev pub between : ℕ → ℕ → ℕ → Bool
between lo j hi = leb lo j && ltb j hi

module _ {K : Type 0} where
  pub move_up_lem :
      (rounds pos n : ℕ) (slots : ℕ → K × Rid) (j : ℕ)
      → move_up rounds pos n slots j
        ≡ (if between (pos + n) j (pos + n + rounds) then slots (j - n) else slots j)
  unfolding move_up
  move_up_lem zero pos n slots j = ground arith
  move_up_lem (suc rounds) pos n slots j =
      let ih =
        move_up_lem rounds pos n (update slots (pos + rounds + n) (slots (pos + rounds))) j in
      elim (Bool-cases (j == pos + rounds + n)) [
        | inl y ↦
            let e : j ≡ pos + rounds + n = ground arith in
            let k : pos + rounds ≡ j - n = omega arith in
            let out : between (pos + n) j (pos + n + rounds) ≡ false = ground arith in
            let inside : between (pos + n) j (pos + n + suc rounds) ≡ true = ground arith in
            ih ∙ rw (out, inside, y) (ap slots k)
        | inr no_hit ↦ ground arith
      ]

  pub put_pairs_lem :
      (rounds pos : ℕ) (pairs : ℕ → K × Rid) (i : ℕ) (slots : ℕ → K × Rid) (j : ℕ)
      → put_pairs rounds pos pairs i slots j
        ≡ (if between (pos + i) j (pos + i + rounds) then pairs (j - pos) else slots j)
  unfolding put_pairs
  put_pairs_lem zero pos pairs i slots j = ground arith
  put_pairs_lem (suc rounds) pos pairs i slots j =
      let ih = put_pairs_lem rounds pos pairs (i + 1) (update slots (pos + i) (pairs i)) j in
      elim (Bool-cases (j == pos + i)) [
        | inl y ↦
            let e : j ≡ pos + i = ground arith in
            let k : i ≡ j - pos = omega arith in
            let out : between (pos + (i + 1)) j (pos + (i + 1) + rounds) ≡ false = ground arith in
            let inside : between (pos + i) j (pos + i + suc rounds) ≡ true = ground arith in
            ih ∙ rw (out, inside, y) (ap pairs k)
        | inr no_hit ↦ ground arith
      ]

  pub move_down_lem :
      (rounds i : ℕ) (slots : ℕ → K × Rid) (j : ℕ)
      → move_down rounds i slots j ≡ (if between i j (i + rounds) then slots (j + 1) else slots j)
  unfolding move_down
  move_down_lem zero i slots j = ground arith
  move_down_lem (suc rounds) i slots j =
      let ih = move_down_lem rounds (i + 1) (update slots i (slots (i + 1))) j in
      elim (Bool-cases (j == i)) [
        | inl y ↦
            let e : j ≡ i = ground arith in
            let out : between (i + 1) j (i + 1 + rounds) ≡ false = ground arith in
            let inside : between i j (i + suc rounds) ≡ true = ground arith in
            ih ∙ rw (out, inside, y) (ap (λ x. slots (x + 1)) (omega arith))
        | inr no_hit ↦ ground arith
      ]
