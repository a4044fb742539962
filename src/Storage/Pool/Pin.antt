-- ===== src/Storage/Pool/Pin.antt =====
-- Pinning the frame that holds a page: it leaves the policy, and all else stays.
use whu_db_practice.Prelude.{
  ℕ, ◌<◌, ◌≡◌, ap, sym, ◌∙◌, ◌≢◌, inl, inr, false, Option, none, some, arith, ◌==◌, ==_iff,
  if◌then◌else◌, length, nat_eq, Option-cases, some_inj,
}
use whu_db_practice.Replacer.{Replacer}
use whu_db_practice.Storage.Page.{PageId, page_id_has_eq, Page, page_size}
use whu_db_practice.Storage.Disk.{read_page}
use whu_db_practice.Storage.Pool.Defs.{BufferPool, pin_frame}
use whu_db_practice.Storage.Pool.Invariant.{IsConsistent, IsClean, content}

module _ (rep : Replacer) (f : ℕ) (page : Page) (p : PageId) (b : BufferPool rep) where
  -- The frame holds page `p`, and is the one that is lent, if one is.
  module _ {lent : Option ℕ} (v : IsConsistent rep lent b) (lt : f < b.pool_size)
      (here : (b.pages f).id ≡ some p) (same_id : page.id ≡ some p) (pinned : page.pin_count ≢ 0)
      (full : length page.bytes ≡ page_size) (only : (g : ℕ) → lent ≡ some g → g ≡ f) where
    pinned_page : (g : ℕ) → g ≢ f → (pin_frame rep f page b).pages g ≡ b.pages g
    pinned_page g ne = ground arith

    pinned_id : (g : ℕ) → ((pin_frame rep f page b).pages g).id ≡ (b.pages g).id
    pinned_id g = ground (arith, ==_iff g f, ap (λ x. (b.pages x).id) {x = g} {y = f})

    pub has_after :
        (g : ℕ)
        → rep.has (pin_frame rep f page b).replacer g
          ≡ (if g == f then false else rep.has b.replacer g)
    has_after g = rep.has-pin f b.replacer v.policy g

    pub pin_frame-IsConsistent : IsConsistent rep none (pin_frame rep f page b)
    pin_frame-IsConsistent = record {
      policy = rep.pin-IsValid f b.replacer v.policy;
      mapped = λ q g h. let (l, e) = v.mapped q g h in (l, pinned_id g ∙ e);
      owned = λ g q l e. v.owned g q l (sym (pinned_id g) ∙ e);
      evictable = λ g h.
          let ne : g ≢ f = λ e. ground (arith, has_after g) in
          let (l, some_id, z) = v.evictable g (ground (arith, has_after g)) in
          (l, λ e. some_id (sym (pinned_id g) ∙ e), ground (arith, pinned_page g ne));
      unpinned = λ g l some_id z other.
          let ne : g ≢ f = λ e. pinned (ground arith) in
          let z_before : (b.pages g).pin_count ≡ 0 = ground (arith, pinned_page g ne) in
          let held =
            v.unpinned g l (λ e. some_id (pinned_id g ∙ e)) z_before (λ h. ne (only g h)) in
          ground (arith, has_after g);
      free = λ g h. let (l, e) = v.free g h in (l, pinned_id g ∙ e);
      vacant = λ g l no_id.
          let ne : g ≢ f = λ e. ground arith in
          let (z, listed) = v.vacant g l (sym (pinned_id g) ∙ no_id) in
          (ground (arith, pinned_page g ne), λ _. listed (λ h. ne (only g h)));
      distinct = v.distinct;
      sized = λ g l. ground (arith, v.sized g l);
      taken = λ g h. cc;
    }

    pub content-pin_frame_self : content rep (pin_frame rep f page b) p ≡ some page.bytes
    content-pin_frame_self = ground (arith, v.owned f p lt here)

    pub content-pin_frame_ne :
        (q : PageId) → q ≢ p → content rep (pin_frame rep f page b) q ≡ content rep b q
    content-pin_frame_ne q other = elim (Option-cases (b.page_table q)) [
      | inl e ↦ ground arith
      | inr (g, e) ↦
          let ne : g ≢ f = λ same.
            other (some_inj (sym (v.mapped q g e).1 ∙ (ap (λ x. (b.pages x).id) same ∙ here))) in
          ground arith
    ]

    pub pin_frame-IsClean :
        ((g : ℕ) (q : PageId)
          → g < b.pool_size
          → g ≢ f
          → (b.pages g).id ≡ some q
          → (b.pages g).is_dirty ≡ false
          → (b.pages g).pin_count ≡ 0
          → read_page b.disk q page_size ≡ some (b.pages g).bytes)
        → IsClean rep (pin_frame rep f page b)
    pin_frame-IsClean others g q l id unmarked z =
        let ne : g ≢ f = λ e. pinned (ground arith) in
        let same = pinned_page g ne in
        rw same (others g q l ne (rw same at id) (rw same at unmarked) (rw same at z))
