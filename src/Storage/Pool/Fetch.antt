-- ===== src/Storage/Pool/Fetch.antt =====
-- `fetch_page`: what a caller gets, and what stays.
use whu_db_practice.Prelude.{
  ℕ, ◌+◌, ◌<◌, ◌≡◌, refl, ap, subst, sym, ◌∙◌, ◌≢◌, ◌⊎◌, inl, inr, false, Option, none, some, arith,
  ==_self, ==_ne, ◌==◌, nat_eq, Bool-cases, Option-cases, some_inj, Returns, Returns-map,
}
use whu_db_practice.Replacer.{Replacer}
use whu_db_practice.Storage.Page.{
  PageId, page_id_has_eq, page_id_eq, page_id_eq_iff, Page, Bytes, page_size,
}
use whu_db_practice.Storage.Disk.{Disk, read_page, length-read_page}
use whu_db_practice.Storage.Pool.Defs.{
  BufferPool, pin_frame, find_victim_page, renamed, write_back, update_page, load, fetch_page,
}
use whu_db_practice.Storage.Pool.Invariant.{
  IsConsistent, IsClean, content, AllPinned, find_victim_page-IsConsistent, find_victim_page-none,
  find_victim_page-IsClean, find_victim_page_frame, content-find_victim_page,
}
use whu_db_practice.Storage.Pool.Update.{
  renamed-IsConsistent, renamed-IsClean, content-renamed, read_other,
}
use whu_db_practice.Storage.Pool.Pin.{
  pin_frame-IsConsistent, content-pin_frame_self, content-pin_frame_ne, pin_frame-IsClean,
}

module _ (rep : Replacer) where
  -- A frame in the hands of a caller: it holds page `p`, and is not evicted before it is released.
  pub record Holds (f : ℕ) (p : PageId) (b : BufferPool rep) : Type 0 where
    pub inside : f < b.pool_size
    pub table : b.page_table p ≡ some f
    pub id : (b.pages f).id ≡ some p
    pub pinned : (b.pages f).pin_count ≢ 0
    pub unevictable : rep.has b.replacer f ≡ false

  pub record Fetched (p : PageId) (b : BufferPool rep) (o : Option ℕ) (b' : BufferPool rep)
      : Type 0 where
    pub consistent : IsConsistent rep none b'
    pub clean : IsClean rep b'
    pub kept : (q : PageId) (cs : Bytes) → content rep b q ≡ some cs → content rep b' q ≡ some cs
    pub held : (f : ℕ) → o ≡ some f → Holds f p b'
    pub counted :
        (f : ℕ)
        → o ≡ some f
        → ((b.page_table p ≡ some f) × ((b'.pages f).pin_count ≡ (b.pages f).pin_count + 1))
          ⊎ ((b.page_table p ≡ none) × ((b'.pages f).pin_count ≡ 1))
    pub other_pins : (g : ℕ) → o ≢ some g → (b'.pages g).pin_count ≡ (b.pages g).pin_count
    pub refused : o ≡ none → (b.page_table p ≡ none) × AllPinned rep b

  module _ (f : ℕ) (page : Page) (p : PageId) (b : BufferPool rep) where
    -- Once its frame is pinned, a page is in the caller's hands.
    pub pin_frame-Holds :
        {lent : Option ℕ}
        → IsConsistent rep lent b
        → f < b.pool_size
        → (b.pages f).id ≡ some p
        → page.id ≡ some p
        → page.pin_count ≢ 0
        → Holds f p (pin_frame rep f page b)
    pin_frame-Holds v lt here same_id pinned = record {
      inside = lt;
      table = v.owned f p lt here;
      id = ground (arith, ==_self f);
      pinned = λ z. pinned (ground arith);
      unevictable = ground (arith, rep.has-pin f b.replacer v.policy f);
    }

  module _ (p : PageId) (b : BufferPool rep) (clean : IsClean rep b) where
    -- The page is in the pool.
    hit-Fetched :
        (f : ℕ)
        → IsConsistent rep none b
        → b.page_table p ≡ some f
        → Fetched p b
            (some f)
            (pin_frame rep f (record (b.pages f) { pin_count = (b.pages f).pin_count + 1 }) b)
    hit-Fetched f v e =
        let (lt, here) = v.mapped p f e in
        let page : Page = record (b.pages f) { pin_count = (b.pages f).pin_count + 1 } in
        let pinned : page.pin_count ≢ 0 = λ z. ground arith in
        record {
          consistent =
              pin_frame-IsConsistent rep f page p b v lt here here pinned (v.sized f lt)
                (λ g h. cc);
          clean =
              pin_frame-IsClean rep f page p b v lt here here pinned (v.sized f lt) (λ g h. cc)
                (λ g q l ne. clean g q l);
          kept = λ q cs h. elim (Bool-cases (page_id_eq q p)) [
            | inl same ↦
                let e_q = (page_id_eq_iff q p).0 same in
                rw e_q (
                  content-pin_frame_self rep f page p b v lt here here pinned (v.sized f lt)
                    (λ g h. cc)
                  ∙ ground (arith, ap (content rep b) e_q))
            | inr other ↦
                content-pin_frame_ne rep f page p b v lt here here pinned (v.sized f lt) (λ g h. cc)
                  q (λ e_q. ground (arith, page_id_eq_iff q p))
                ∙ h
          ];
          held = λ g h. rw (some_inj (sym h)) (pin_frame-Holds f page p b v lt here here pinned);
          counted = λ g h.
              let at_f : f ≡ g = some_inj h in rw (← at_f) (inl (e, ground (arith, ==_self f)));
          other_pins = λ g ne.
              let other : (g == f) ≡ false = ==_ne g f (λ x. ne (ap some (sym x))) in rw other refl;
          refused = λ h. cc;
        }

    module _ (f : ℕ) (v : IsConsistent rep (some f) b) (absent : b.page_table p ≡ none) where
      loaded-Fetched :
          (d : Disk) (bs : Bytes)
          → write_back (b.pages f) b.disk ≡ some d
          → read_page d p page_size ≡ some bs
          → Fetched p b (some f) (
              pin_frame rep f
                (record ((renamed rep f p d b).pages f) { bytes = bs; pin_count = 1 })
                (renamed rep f p d b))
      loaded-Fetched d bs w r =
          let b2 = renamed rep f p d b in
          let page : Page = record (b2.pages f) { bytes = bs; pin_count = 1 } in
          let v2 = renamed-IsConsistent rep f p d b v absent in
          let (lt, _, _, _) = v.taken f refl in
          let here : (b2.pages f).id ≡ some p = ground (arith, ==_self f) in
          let pinned : page.pin_count ≢ 0 = λ z. ground arith in
          let full = length-read_page d p page_size bs r in
          let only : (g : ℕ) → some f ≡ some g → g ≡ f = λ g h. some_inj (sym h) in
          record {
            consistent = pin_frame-IsConsistent rep f page p b2 v2 lt here here pinned full only;
            clean = pin_frame-IsClean rep f page p b2 v2 lt here here pinned full only λ g q l ne.
                let same : b2.pages g ≡ b.pages g = ground arith in
                rw same (renamed-IsClean rep f p d b v absent clean w g q l ne);
            kept = λ q cs h. elim (Bool-cases (page_id_eq q p)) [
              | inl same ↦
                  let e_q = (page_id_eq_iff q p).0 same in
                  let h_p : content rep b p ≡ some cs =
                    subst (λ x. content rep b x ≡ some cs) e_q h in
                  let before : read_page b.disk p page_size ≡ some cs = ground arith in
                  let not_f : (b.pages f).id ≢ some p = λ e. ground (arith, v.owned f p lt e) in
                  let after = read_other rep f p d b v absent clean w p cs not_f before in
                  rw e_q (
                    content-pin_frame_self rep f page p b2 v2 lt here here pinned full only
                    ∙ (sym r ∙ after))
              | inr other ↦
                  let ne : q ≢ p = λ e_q. ground (arith, page_id_eq_iff q p) in
                  content-pin_frame_ne rep f page p b2 v2 lt here here pinned full only q ne
                  ∙ content-renamed rep f p d b v absent clean w q cs ne h
            ];
            held =
                λ g h. rw (some_inj (sym h)) (pin_frame-Holds f page p b2 v2 lt here here pinned);
            counted = λ g h.
                let at_f : f ≡ g = some_inj h in
                rw (← at_f) (inr (absent, ground (arith, ==_self f)));
            other_pins = λ g ne.
                let other : (g == f) ≡ false = ==_ne g f (λ x. ne (ap some (sym x))) in
                rw other refl;
            refused = λ h. cc;
          }

      load-Fetched : Returns (λ o b'. (o ≡ some f) × Fetched p b o b') (load rep f p b)
      unfolding load update_page
      load-Fetched = elim (Option-cases (write_back (b.pages f) b.disk)) [
        | inl e ↦ rw (e, load, update_page) tt
        | inr (d, e) ↦ elim (Option-cases (read_page d p page_size)) [
          | inl r ↦ rw (e, load, update_page, r) tt
          | inr (bs, r) ↦ rw (e, load, update_page, r) (refl, loaded-Fetched d bs e r)
        ]
      ]

  module _ (p : PageId) (b : BufferPool rep) where
    loaded_after_search :
        (f : ℕ) (o : Option ℕ) (b' : BufferPool rep)
        → (o ≡ some f) × Fetched p (find_victim_page rep b).1 o b'
        → Fetched p b o b'
    loaded_after_search f o b' (e, fetched) = record {
      consistent = fetched.consistent;
      clean = fetched.clean;
      kept = λ q cs h. fetched.kept q cs (content-find_victim_page rep b q ∙ h);
      held = fetched.held;
      counted =
          let (pages, table, _, _) = find_victim_page_frame rep b in
          λ g h. elim (fetched.counted g h) [
            | inl (in_pool, count) ↦ inl (
              subst (λ t. t p ≡ some g) table in_pool,
              count ∙ ap (λ (x : ℕ → Page). (x g).pin_count + 1) pages,
            )
            | inr (absent, count) ↦ inr (subst (λ t. t p ≡ none) table absent, count)
          ];
      other_pins =
          let (pages, table, _, _) = find_victim_page_frame rep b in
          λ g ne. fetched.other_pins g ne ∙ ap (λ (x : ℕ → Page). (x g).pin_count) pages;
      refused = λ h. cc;
    }

    -- If `fetch_page` returns on a consistent pool in which clean frames agree with the disk, the
    -- pool is so again, every page that could be read before reads the same, a frame that is
    -- returned holds page `p`, out of the policy's reach and with one pin more, or one where `p` was
    -- not in the pool, no other frame's pins change, and `nullptr` is returned only if `p` is not in
    -- the pool and every frame is pinned.
    pub fetch_page-Fetched :
        IsConsistent rep none b → IsClean rep b → Returns (Fetched p b) (fetch_page rep p b)
    unfolding fetch_page
    fetch_page-Fetched v clean = elim (Option-cases (b.page_table p)) [
      | inr (f, e) ↦ rw (e, fetch_page) (hit-Fetched p b clean f v e)
      | inl e ↦
          let b1 = (find_victim_page rep b).1 in
          let found = find_victim_page-IsConsistent rep b v in
          let clean1 = find_victim_page-IsClean rep b clean in
          let (_, table, _, _) = find_victim_page_frame rep b in
          elim (Option-cases (find_victim_page rep b).0) [
            | inl o ↦
                rw (e, fetch_page, o)
                  (record {
                    consistent = rw o at found;
                    clean = clean1;
                    kept = λ q cs h. content-find_victim_page rep b q ∙ h;
                    held = λ f h. cc;
                    counted = λ f h. cc;
                    other_pins =
                        let (pages, _, _, _) = find_victim_page_frame rep b in
                        λ g ne. ap (λ (x : ℕ → Page). (x g).pin_count) pages;
                    refused = λ _. (e, find_victim_page-none rep b v o);
                  })
            | inr (f, o) ↦
                rw (e, fetch_page, o)
                  (Returns-map (load rep f p b1) (loaded_after_search f)
                    (load-Fetched p b1 clean1 f (rw o at found) (rw table e)))
          ]
    ]
