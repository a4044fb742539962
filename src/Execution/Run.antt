-- ===== src/Execution/Run.antt =====
-- execution/execution_manager.cpp: the loop of `select_from` over the tuples of a plan, without the
-- printing of a tuple.
use whu_db_practice.Prelude.{
  ℕ, zero, suc, ◌+◌, ◌<◌, ◌≡◌, refl, true, false, ◌&&◌, List, [], ◌∷◌, Option, none, some, arith,
  ltb, leb, length, inl, inr, Bool-cases,
}
use whu_db_practice.Storage.Page.{Bytes}
use whu_db_practice.Execution.Executor.{Executor, IsCursor}

module _ (x : Executor) (limit_val : ℕ) where
  -- The rounds of the loop from `num_rec` tuples on; `none` is a fault of the executor, or no fuel.
  unfoldable pub select_rounds : ℕ → ℕ → x.State → Option (List Bytes)
  select_rounds zero num_rec s = none
  select_rounds (suc fuel) num_rec s = elim (x.is_end s) [
    | true ↦ some []
    | false ↦ elim (x.next s) [
      | none ↦ none
      | some (none, s') ↦ some []
      | some (some rec, s') ↦ elim (ltb 0 limit_val && leb limit_val num_rec) [
        | true ↦ some []
        | false ↦ elim (x.next_tuple s') [
          | none ↦ none
          | some s'' ↦ elim (select_rounds fuel (num_rec + 1) s'') [
            | none ↦ none
            | some recs ↦ some (rec ∷ recs)
          ]
        ]
      ]
    ]
  ]

  unfoldable pub select_from : ℕ → x.State → Option (List Bytes)
  select_from fuel s = elim (x.begin_tuple s) [ none ↦ none | some s' ↦ select_rounds fuel 0 s' ]

-- What a limit leaves of the tuples when `num_rec` are printed; 0 is no limit.
unfoldable pub limited : ℕ → ℕ → List Bytes → List Bytes
limited limit_val num_rec [] = []
limited limit_val num_rec (r ∷ rs) = elim (ltb 0 limit_val && leb limit_val num_rec) [
  | true ↦ []
  | false ↦ r ∷ limited limit_val (num_rec + 1) rs
]

module _ (x : Executor) (limit_val : ℕ) (all : List Bytes) (c : IsCursor x all) where
  select_rounds_lem :
      (fuel num_rec : ℕ) (rs : List Bytes) (s : x.State)
      → c.Ahead rs s
      → length rs < fuel
      → select_rounds x limit_val fuel num_rec s ≡ some (limited limit_val num_rec rs)
  unfolding select_rounds limited
  select_rounds_lem zero num_rec rs s a h = absurd (omega arith)
  select_rounds_lem (suc fuel) num_rec [] s a h = elim (Bool-cases (x.is_end s)) [
    | inl end ↦ rw (end, select_rounds) refl
    | inr open_ ↦ let (s', e, _) = c.spent s a in rw (open_, e, select_rounds) refl
  ]
  select_rounds_lem (suc fuel) num_rec (r ∷ rs) s a h =
      let open_ = c.live r rs s a in
      let (s', s'', answers, moves, a') = c.steps r rs s a in
      let ih = select_rounds_lem fuel (num_rec + 1) rs s'' a' (omega arith) in
      elim (Bool-cases (ltb 0 limit_val && leb limit_val num_rec)) [
        | inl full ↦ rw (open_, answers, full, select_rounds, limited) refl
        | inr room ↦ rw (open_, answers, room, moves, ih, select_rounds, limited) refl
      ]

  -- The loop over an executor that keeps its promise prints its tuples up to the limit.
  pub select_from_lem :
      (fuel : ℕ) (s : x.State)
      → c.Ready s
      → length all < fuel
      → select_from x limit_val fuel s ≡ some (limited limit_val 0 all)
  unfolding select_from
  select_from_lem fuel s ready enough =
      let (s', begun, a) = c.begins s ready in
      rw (begun, select_from) (select_rounds_lem fuel 0 all s' a enough)
