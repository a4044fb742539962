-- ===== src/Storage/Pool/Invariant.antt =====
-- The invariant of the buffer pool, and what its helpers do to it.
use whu_db_practice.Prelude.{
  ℕ, ◌<◌, ◌≡◌, ap, ◌≢◌, inl, inr, true, false, List, ◌∷◌, Option, none, some, arith, length,
  contains, IsDistinct, nat_eq, Option-cases, Bool-cases, List-cases,
}
use whu_db_practice.Replacer.{Replacer}
use whu_db_practice.Storage.Page.{PageId, page_id_has_eq, Bytes, page_size}
use whu_db_practice.Storage.Disk.{read_page}
use whu_db_practice.Storage.Pool.Defs.{BufferPool, find_victim_page}

module _ (rep : Replacer) where
  -- `lent` is the frame that an operation has taken from the free list or the policy and not yet
  -- filled; between operations it is `none`.
  pub record IsConsistent (lent : Option ℕ) (b : BufferPool rep) : Type 0 where
    pub policy : rep.IsValid b.replacer
    pub mapped :
        (p : PageId) (f : ℕ)
        → b.page_table p ≡ some f
        → (f < b.pool_size) × ((b.pages f).id ≡ some p)
    pub owned :
        (f : ℕ) (p : PageId) → f < b.pool_size → (b.pages f).id ≡ some p → b.page_table p ≡ some f
    pub evictable :
        (f : ℕ)
        → rep.has b.replacer f ≡ true
        → (f < b.pool_size) × ((b.pages f).id ≢ none) × ((b.pages f).pin_count ≡ 0)
    pub unpinned :
        (f : ℕ)
        → f < b.pool_size
        → (b.pages f).id ≢ none
        → (b.pages f).pin_count ≡ 0
        → lent ≢ some f
        → rep.has b.replacer f ≡ true
    pub free : (f : ℕ) → contains f b.free_list ≡ true → (f < b.pool_size) × ((b.pages f).id ≡ none)
    pub vacant :
        (f : ℕ)
        → f < b.pool_size
        → (b.pages f).id ≡ none
        → ((b.pages f).pin_count ≡ 0) × (lent ≢ some f → contains f b.free_list ≡ true)
    pub distinct : IsDistinct b.free_list
    pub sized : (f : ℕ) → f < b.pool_size → length (b.pages f).bytes ≡ page_size
    pub taken :
        (f : ℕ)
        → lent ≡ some f
        → (f < b.pool_size)
          × (rep.has b.replacer f ≡ false)
          × (contains f b.free_list ≡ false)
          × ((b.pages f).pin_count ≡ 0)

  -- A frame that is not dirty and not pinned agrees with the disk.
  abbrev pub IsClean : BufferPool rep → Type 0
  IsClean b =
      (f : ℕ) (p : PageId)
      → f < b.pool_size
      → (b.pages f).id ≡ some p
      → (b.pages f).is_dirty ≡ false
      → (b.pages f).pin_count ≡ 0
      → read_page b.disk p page_size ≡ some (b.pages f).bytes

  -- What a reader of page `p` gets: the copy in the pool, or what is on the disk.
  abbrev pub content : BufferPool rep → PageId → Option Bytes
  content b p = elim (b.page_table p) [
    | some f ↦ some (b.pages f).bytes
    | none ↦ read_page b.disk p page_size
  ]

  -- Every frame holds a page that is in use.
  abbrev pub AllPinned : BufferPool rep → Type 0
  AllPinned b = (f : ℕ) → f < b.pool_size → (b.pages f).pin_count ≢ 0

  module _ (b : BufferPool rep) (v : IsConsistent none b) where
    take_free :
        (f : ℕ) (rest : List ℕ)
        → b.free_list ≡ f ∷ rest
        → IsConsistent (some f) (record b { free_list = rest })
    take_free f rest e = record {
      policy = v.policy;
      mapped = v.mapped;
      owned = v.owned;
      evictable = v.evictable;
      unpinned = λ g lt some_id zero_pins other. v.unpinned g lt some_id zero_pins (λ h. cc);
      free = λ g h. v.free g (ground (arith, ap (contains g) e));
      vacant = λ g lt no_id.
          let (z, listed) = v.vacant g lt no_id in
          (z, λ other. ground (arith, listed (λ h. cc), ap (contains g) e));
      distinct = (rw e at (v.distinct)).1;
      sized = v.sized;
      taken = λ g h.
          let (lt, no_id) = v.free g (ground (arith, ap (contains g) e)) in
          (lt, not_has g no_id, ground (arith, rw e at (v.distinct)), (v.vacant g lt no_id).0);
    }
      where
        not_has : (g : ℕ) → (b.pages g).id ≡ none → rep.has b.replacer g ≡ false
        not_has g no_id = elim (Bool-cases (rep.has b.replacer g)) [
          | inl yes_has ↦ absurd ((v.evictable g yes_has).1 no_id)
          | inr no_has ↦ no_has
        ]

    take_victim :
        (f : ℕ)
        → (rep.victim b.replacer).0 ≡ some f
        → IsConsistent (some f) (record b { replacer = (rep.victim b.replacer).1 })
    take_victim f e =
        let (held, others) = rep.victim_some b.replacer f v.policy e in
        record {
          policy = rep.victim-IsValid b.replacer v.policy;
          mapped = v.mapped;
          owned = v.owned;
          evictable = λ g h. v.evictable g (ground (arith, others g));
          unpinned = λ g lt some_id zero_pins other.
              ground (arith, others g, v.unpinned g lt some_id zero_pins (λ h. cc), fresh g other);
          free = v.free;
          vacant =
              λ g lt no_id. let (z, listed) = v.vacant g lt no_id in (z, λ other. listed (λ h. cc));
          distinct = v.distinct;
          sized = v.sized;
          taken = λ g h.
              let same : f ≡ g = ground arith in
              let (lt, some_id, zero_pins) = v.evictable f held in
              rw (← same) (lt, ground (arith, others f), not_listed some_id, zero_pins);
        }
      where
        fresh : (g : ℕ) → some f ≢ some g → f ≢ g
        fresh g other same = other (ap some same)

        not_listed : (b.pages f).id ≢ none → contains f b.free_list ≡ false
        not_listed some_id = elim (Bool-cases (contains f b.free_list)) [
          | inl listed ↦ absurd (some_id (v.free f listed).1)
          | inr absent ↦ absent
        ]

    no_victim :
        (rep.victim b.replacer).0 ≡ none
        → IsConsistent none (record b { replacer = (rep.victim b.replacer).1 })
    no_victim e = rw ((rep.victim_none b.replacer v.policy e).0) v

    -- A frame is found unless all are pinned; nothing else of the pool changes.
    pub find_victim_page-IsConsistent :
        IsConsistent (find_victim_page rep b).0 (find_victim_page rep b).1
    unfolding find_victim_page
    find_victim_page-IsConsistent = elim (List-cases b.free_list) [
      | inr (f, rest, e) ↦ rw (e, find_victim_page) (take_free f rest e)
      | inl e ↦ elim (Option-cases (rep.victim b.replacer).0) [
        | inl o ↦ rw (e, find_victim_page, o) (no_victim o)
        | inr (f, o) ↦ rw (e, find_victim_page, o) (take_victim f o)
      ]
    ]

    pub find_victim_page-none : (find_victim_page rep b).0 ≡ none → AllPinned b
    unfolding find_victim_page
    find_victim_page-none h f lt z = elim (List-cases b.free_list) [
      | inr (g, rest, e) ↦ ground arith
      | inl e ↦
          let o : (rep.victim b.replacer).0 ≡ none = ground arith in
          let unheld = (rep.victim_none b.replacer v.policy o).1 f in
          elim (Option-cases (b.pages f).id) [
            | inl no_id ↦
                let listed = (v.vacant f lt no_id).1 (λ q. cc) in
                ground (arith, listed, ap (contains f) e)
            | inr (p, has_id) ↦ let held = v.unpinned f lt (λ q. cc) z (λ q. cc) in ground arith
          ]
    ]

  -- Finding a frame touches the free list and the policy only.
  pub find_victim_page_frame :
      (b : BufferPool rep)
      → ((find_victim_page rep b).1.pages ≡ b.pages)
        × ((find_victim_page rep b).1.page_table ≡ b.page_table)
        × ((find_victim_page rep b).1.disk ≡ b.disk)
        × ((find_victim_page rep b).1.pool_size ≡ b.pool_size)
  unfolding find_victim_page
  find_victim_page_frame b = ground arith

  pub find_victim_page-IsClean :
      (b : BufferPool rep) → IsClean b → IsClean (find_victim_page rep b).1
  find_victim_page-IsClean b clean =
      let (pages, _, disk, size) = find_victim_page_frame b in rw (pages, disk, size) clean

  pub content-find_victim_page :
      (b : BufferPool rep) (p : PageId) → content (find_victim_page rep b).1 p ≡ content b p
  unfolding find_victim_page
  content-find_victim_page b p = ground arith
