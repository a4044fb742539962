-- ===== src/Storage/Pool/Unpin.antt =====
-- `unpin_page`: the last release hands the frame to the policy; no page changes.
use whu_db_practice.Prelude.{
  ℕ, ◌+◌, ◌-◌, ◌≡◌, refl, ap, sym, ◌∙◌, ◌≢◌, ◌⊎◌, inl, inr, Bool, true, false, none, some, arith,
  ◌==◌, ==_iff, ==_self, if◌then◌else◌, length, nat_eq, Bool-cases, Option-cases, some_inj,
}
use whu_db_practice.Replacer.{Replacer}
use whu_db_practice.Storage.Page.{PageId, page_size}
use whu_db_practice.Storage.Disk.{read_page}
use whu_db_practice.Storage.Pool.Defs.{BufferPool, release_pin, unpin_page}
use whu_db_practice.Storage.Pool.Invariant.{IsConsistent, IsClean, content}

module _ (rep : Replacer) (f : ℕ) (is_dirty : Bool) (p : PageId) (b : BufferPool rep) where
  module _ (v : IsConsistent rep none b) (e : b.page_table p ≡ some f)
      (pinned : (b.pages f).pin_count ≢ 0) where
    released_page : (g : ℕ) → g ≢ f → (release_pin rep f is_dirty b).pages g ≡ b.pages g
    unfolding release_pin
    released_page g ne = ground arith

    released_same :
        (g : ℕ)
        → (((release_pin rep f is_dirty b).pages g).id ≡ (b.pages g).id)
          × (((release_pin rep f is_dirty b).pages g).bytes ≡ (b.pages g).bytes)
    unfolding release_pin
    released_same g = elim (Bool-cases (g == f)) [
      | inl here ↦ let same = (==_iff g f).0 here in rw same (ground (arith, ==_self f))
      | inr there ↦ ground arith
    ]

    released_pins :
        (g : ℕ)
        → ((release_pin rep f is_dirty b).pages g).pin_count
          ≡ (if g == f then (b.pages f).pin_count - 1 else (b.pages g).pin_count)
    unfolding release_pin
    released_pins g = ground arith

    unheld : rep.has b.replacer f ≡ false
    unheld = elim (Bool-cases (rep.has b.replacer f)) [
      | inl held ↦ absurd (pinned (v.evictable f held).2)
      | inr free ↦ free
    ]

    -- The policy gets the frame exactly if this was the last pin.
    pub has-release_pin :
        (g : ℕ)
        → rep.has (release_pin rep f is_dirty b).replacer g
          ≡ (if g == f then (b.pages f).pin_count == 1 else rep.has b.replacer g)
    unfolding release_pin
    has-release_pin g = elim (Bool-cases ((b.pages f).pin_count - 1 == 0)) [
      | inl last ↦ rw last (ground (arith, rep.has-unpin f b.replacer v.policy g))
      | inr more ↦
          rw more (ground (arith, unheld, ap (rep.has b.replacer) {x = g} {y = f}, ==_iff g f))
    ]

    released_policy : rep.IsValid (release_pin rep f is_dirty b).replacer
    unfolding release_pin
    released_policy = elim (Bool-cases ((b.pages f).pin_count - 1 == 0)) [
      | inl last ↦ rw last (rep.unpin-IsValid f b.replacer v.policy)
      | inr more ↦ rw more v.policy
    ]

    -- A page has an owner or is free as before.
    keeps_id : (g : ℕ) → (b.pages g).id ≢ none → ((release_pin rep f is_dirty b).pages g).id ≢ none
    keeps_id g h e' = h (sym (released_same g).0 ∙ e')

    pub release_pin-IsConsistent : IsConsistent rep none (release_pin rep f is_dirty b)
    unfolding release_pin
    release_pin-IsConsistent =
        let (lt, here) = v.mapped p f e in
        record {
          policy = released_policy;
          mapped = λ q g h. let (l, i) = v.mapped q g h in (l, (released_same g).0 ∙ i);
          owned = λ g q l i. v.owned g q l (sym (released_same g).0 ∙ i);
          evictable = λ g h. elim (Bool-cases (g == f)) [
            | inl at_f ↦
                let same = (==_iff g f).0 at_f in
                (
                  rw same lt,
                  keeps_id g (rw same (λ i. cc)),
                  ground (arith, has-release_pin g, released_pins g),
                )
            | inr other ↦
                let (l, i, z) = v.evictable g (ground (arith, has-release_pin g)) in
                (l, keeps_id g i, ground (arith, released_pins g))
          ];
          unpinned = λ g l i z not_lent. elim (Bool-cases (g == f)) [
            | inl at_f ↦ ground (arith, has-release_pin g, released_pins g)
            | inr other ↦
                let held =
                  v.unpinned g l (λ i'. i ((released_same g).0 ∙ i'))
                    (ground (arith, released_pins g)) not_lent in
                ground (arith, has-release_pin g)
          ];
          free = λ g h. let (l, i) = v.free g h in (l, (released_same g).0 ∙ i);
          vacant = λ g l i.
              let (z, listed) = v.vacant g l (sym (released_same g).0 ∙ i) in
              let ne : g ≢ f =
                λ at_f. ground (arith, ap (λ x. (b.pages x).id) at_f, released_same g) in
              (ground (arith, released_pins g), listed);
          distinct = v.distinct;
          sized = λ g l. ap length (released_same g).1 ∙ v.sized g l;
          taken = λ g h. cc;
        }

    pub content-release_pin :
        (q : PageId) → content rep (release_pin rep f is_dirty b) q ≡ content rep b q
    unfolding release_pin
    content-release_pin q = elim (Option-cases (b.page_table q)) [
      | inl absent ↦ ground arith
      | inr (g, at_g) ↦ ground (arith, (released_same g).1)
    ]

    -- The caller that drops the last pin of a page must say so if it has changed the page.
    pub release_pin-IsClean :
        IsClean rep b
        → (is_dirty ≡ true)
          ⊎ ((b.pages f).is_dirty ≡ true)
          ⊎ (read_page b.disk p page_size ≡ some (b.pages f).bytes)
        → IsClean rep (release_pin rep f is_dirty b)
    unfolding release_pin
    release_pin-IsClean clean told g q l i unmarked z = elim (Bool-cases (g == f)) [
      | inl at_f ↦
          let same = (==_iff g f).0 at_f in
          let (_, here) = v.mapped p f e in
          let on_disk : read_page b.disk p page_size ≡ some (b.pages f).bytes = ground arith in
          let q_is_p : q ≡ p =
            some_inj (sym i ∙ ((released_same g).0 ∙ (ap (λ x. (b.pages x).id) same ∙ here))) in
          rw q_is_p
            (on_disk ∙ ap some (sym ((released_same g).1 ∙ ap (λ x. (b.pages x).bytes) same)))
      | inr other ↦
          let ne : g ≢ f = λ same. ground arith in
          let page = released_page g ne in
          rw page (clean g q l (rw page at i) (rw page at unmarked) (rw page at z))
    ]

module _ (rep : Replacer) where
  pub record Unpinned (p : PageId) (b : BufferPool rep) (ok : Bool) (b' : BufferPool rep)
      : Type 0 where
    pub consistent : IsConsistent rep none b'
    pub kept : (q : PageId) → content rep b' q ≡ content rep b q
    pub accepted :
        ok ≡ true
        → (f : ℕ) × (b.page_table p ≡ some f)
          × ((b.pages f).pin_count ≡ (b'.pages f).pin_count + 1)
          × (rep.has b'.replacer f ≡ ((b'.pages f).pin_count == 0))
    pub refused :
        ok ≡ false → (b' ≡ b) × ((f : ℕ) → b.page_table p ≡ some f → (b.pages f).pin_count ≡ 0)

  -- On a consistent pool `unpin_page` keeps it consistent and changes the content of no page. It
  -- succeeds exactly on a page that is in the pool and pinned: then one pin is gone, and the
  -- policy may choose the frame exactly if it was the last; otherwise the pool is as it was.
  pub unpin_page-Unpinned :
      (p : PageId) (is_dirty : Bool) (b : BufferPool rep)
      → IsConsistent rep none b
      → Unpinned p b (unpin_page rep p is_dirty b).0 (unpin_page rep p is_dirty b).1
  unfolding unpin_page
  unpin_page-Unpinned p is_dirty b v = elim (Option-cases (b.page_table p)) [
    | inl e ↦
        rw (e, unpin_page)
          (record {
            consistent = v;
            kept = λ q. refl;
            accepted = λ h. cc;
            refused = λ _. (refl, λ f h. cc);
          })
    | inr (f, e) ↦ elim (Bool-cases ((b.pages f).pin_count == 0)) [
      | inl zero_pins ↦
          rw (e, unpin_page, zero_pins)
            (record {
              consistent = v;
              kept = λ q. refl;
              accepted = λ h. cc;
              refused = λ _. (
                refl,
                λ g h. ground (arith, ap (λ x. (b.pages x).pin_count) (some_inj (sym e ∙ h))),
              );
            })
      | inr some_pins ↦
          let pinned : (b.pages f).pin_count ≢ 0 = λ z. ground arith in
          let fewer = released_pins rep f is_dirty p b v e pinned f in
          rw (e, unpin_page, some_pins)
            (record {
              consistent = release_pin-IsConsistent rep f is_dirty p b v e pinned;
              kept = content-release_pin rep f is_dirty p b v e pinned;
              accepted = λ _. (
                f,
                e,
                ground arith,
                ground (arith, has-release_pin rep f is_dirty p b v e pinned f),
              );
              refused = λ h. cc;
            })
    ]
  ]
