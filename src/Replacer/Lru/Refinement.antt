-- ===== src/Replacer/Lru/Refinement.antt =====
-- `LRUReplacer` against its contract: a queue of distinct frames, the most recent in front.
use whu_db_practice.Prelude.{
  ℕ, ◌≡◌, refl, ap, ◌∙◌, inl, inr, true, false, List, [], ◌∷◌, Option, none, some, arith,
  if◌then◌else◌, Option-cases, length, contains, erase, IsDistinct, nat_eq,
}
use whu_db_practice.Replacer.Lru.Defs.{
  Node, LruReplacer, init, back, pop_back, erase_node, victim, pin, unpin, size,
}
use whu_db_practice.Replacer.Lru.Invariant.{
  find_frame, IsLinked, IsValid, find_frame-has_addr, init-IsValid, pin-IsValid, unpin-IsValid,
  victim-IsValid,
}

-- The abstract view: the frames that may be evicted, in the order of the list.
abbrev pub frames_of : List Node → List ℕ
frames_of [] = []
frames_of (n ∷ ns) = n.frame ∷ frames_of ns

abbrev pub frames : LruReplacer → List ℕ
frames r = frames_of r.lru_list

-- The contract, on the abstract view.
abbrev pub last? : List ℕ → Option ℕ
last? [] = none
last? (x ∷ []) = some x
last? (x ∷ y ∷ xs) = last? (y ∷ xs)

abbrev pub drop_last : List ℕ → List ℕ
drop_last [] = []
drop_last (x ∷ []) = []
drop_last (x ∷ y ∷ xs) = x ∷ drop_last (y ∷ xs)

abbrev pub enqueue : ℕ → List ℕ → List ℕ
enqueue f fs = if contains f fs then fs else f ∷ fs

-- A frame is found exactly if the view holds it.
pub contains_frames :
    (f : ℕ) (ns : List Node)
    → contains f (frames_of ns) ≡ (elim (find_frame f ns) [ none ↦ false | some _ ↦ true ])
contains_frames f [] = refl
contains_frames f (n ∷ ns) = ground (arith, contains_frames f ns)

pub frames-IsDistinct : (ns : List Node) → IsLinked ns → IsDistinct (frames_of ns)
frames-IsDistinct [] l = tt
frames-IsDistinct (n ∷ ns) l =
    (ground (arith, contains_frames n.frame ns), frames-IsDistinct ns l.2)

frames-erase_node :
    (f a : ℕ) (ns : List Node)
    → IsLinked ns
    → find_frame f ns ≡ some a
    → frames_of (erase_node a ns) ≡ erase f (frames_of ns)
unfolding erase_node
frames-erase_node f a [] l h = refl
frames-erase_node f a (n ∷ ns) l h =
    ground (arith, frames-erase_node f a ns l.2, find_frame-has_addr f a ns)

erase_absent : (f : ℕ) (fs : List ℕ) → contains f fs ≡ false → erase f fs ≡ fs
erase_absent f [] h = refl
erase_absent f (x ∷ fs) h = ground (arith, erase_absent f fs)

-- On a valid replacer `pin` takes exactly the given frame out of the queue, and does nothing if
-- the queue does not hold it.
pub frames-pin : (f : ℕ) (r : LruReplacer) → IsValid r → frames (pin f r) ≡ erase f (frames r)
unfolding pin
frames-pin f r v = elim (Option-cases (r.lru_hash f)) [
  | inl e ↦ ground (arith, v.indexed f, contains_frames f r.lru_list, erase_absent f (frames r))
  | inr (a, e) ↦ ground (arith, v.indexed f, frames-erase_node f a r.lru_list v.linked)
]

-- On a valid replacer `unpin` puts a new frame in front, and leaves the order alone if the frame
-- is already there.
pub frames-unpin : (f : ℕ) (r : LruReplacer) → IsValid r → frames (unpin f r) ≡ enqueue f (frames r)
unfolding unpin
frames-unpin f r v = ground (arith, v.indexed f, contains_frames f r.lru_list)

back-last :
    (ns : List Node)
    → last? (frames_of ns) ≡ (elim (back ns) [ none ↦ none | some n ↦ some n.frame ])
unfolding back
back-last [] = refl
back-last (n ∷ []) = refl
back-last (n ∷ m ∷ ns) = back-last (m ∷ ns)

pop_back-drop_last : (ns : List Node) → frames_of (pop_back ns) ≡ drop_last (frames_of ns)
unfolding pop_back
pop_back-drop_last [] = refl
pop_back-drop_last (n ∷ []) = refl
pop_back-drop_last (n ∷ m ∷ ns) = ap (◌∷◌ n.frame) (pop_back-drop_last (m ∷ ns))

back-none : (ns : List Node) → back ns ≡ none → ns ≡ []
unfolding back
back-none [] h = refl
back-none (n ∷ []) h = ground arith
back-none (n ∷ m ∷ ns) h = ground (arith, back-none (m ∷ ns) h)

-- `victim` returns the frame at the back of the queue, `none` on the empty queue only, and leaves
-- the rest.
pub frames-victim :
    (r : LruReplacer)
    → ((victim r).0 ≡ last? (frames r)) × (frames (victim r).1 ≡ drop_last (frames r))
unfolding victim
frames-victim r =
    ground (arith, back-last r.lru_list, pop_back-drop_last r.lru_list, back-none r.lru_list)

-- A history of calls; the log collects what `victim` returned.
pub data Call : Type 0 where
  victims : Call
  pins : ℕ → Call
  unpins : ℕ → Call

unfoldable pub step : Call → LruReplacer → LruReplacer
step victims r = (victim r).1
step (pins f) r = pin f r
step (unpins f) r = unpin f r

unfoldable pub evicted : Call → LruReplacer → Option ℕ
evicted victims r = (victim r).0
evicted _ r = none

unfoldable pub run : List Call → LruReplacer → LruReplacer × List (Option ℕ)
run [] r = (r, [])
run (c ∷ cs) r = let (r', log) = run cs (step c r) in (r', evicted c r ∷ log)

abbrev pub spec_step : Call → List ℕ → List ℕ
spec_step victims fs = drop_last fs
spec_step (pins f) fs = erase f fs
spec_step (unpins f) fs = enqueue f fs

abbrev pub spec_evicted : Call → List ℕ → Option ℕ
spec_evicted victims fs = last? fs
spec_evicted _ fs = none

unfoldable pub spec_run : List Call → List ℕ → List ℕ × List (Option ℕ)
spec_run [] fs = (fs, [])
spec_run (c ∷ cs) fs =
    let (fs', log) = spec_run cs (spec_step c fs) in (fs', spec_evicted c fs ∷ log)

pub step-IsValid : (c : Call) (r : LruReplacer) → IsValid r → IsValid (step c r)
unfolding step
step-IsValid victims r v = victim-IsValid r v
step-IsValid (pins f) r v = pin-IsValid f r v
step-IsValid (unpins f) r v = unpin-IsValid f r v

frames-step : (c : Call) (r : LruReplacer) → IsValid r → frames (step c r) ≡ spec_step c (frames r)
unfolding step
frames-step victims r v = (frames-victim r).1
frames-step (pins f) r v = frames-pin f r v
frames-step (unpins f) r v = frames-unpin f r v

evicted_lem : (c : Call) (r : LruReplacer) → evicted c r ≡ spec_evicted c (frames r)
unfolding evicted
evicted_lem victims r = (frames-victim r).0
evicted_lem (pins f) r = refl
evicted_lem (unpins f) r = refl

run-IsValid :
    (cs : List Call) (r : LruReplacer)
    → IsValid r
    → IsValid (run cs r).0
      × ((run cs r).1 ≡ (spec_run cs (frames r)).1)
      × (frames (run cs r).0 ≡ (spec_run cs (frames r)).0)
unfolding run spec_run
run-IsValid [] r v = (v, refl, refl)
run-IsValid (c ∷ cs) r v =
    let (v', same, left) = run-IsValid cs (step c r) (step-IsValid c r v) in
    let e = frames-step c r v in (v', ground (arith, evicted_lem c r), ground arith)

-- From the constructor on, any history of `victim`, `pin` and `unpin` returns the victims that
-- the abstract queue returns, keeps the representation invariant, and ends in the queue's state;
-- `Size` is the length of the queue, in which no frame stands twice.
pub run-refines :
    (num_pages : ℕ) (cs : List Call)
    → ((run cs (init num_pages)).1 ≡ (spec_run cs []).1)
      × (frames (run cs (init num_pages)).0 ≡ (spec_run cs []).0)
      × (size (run cs (init num_pages)).0 ≡ length (spec_run cs []).0)
      × IsDistinct (spec_run cs []).0
unfolding init size
run-refines n cs =
    let (v, same, left) = run-IsValid cs (init n) (init-IsValid n) in
    let d = frames-IsDistinct (run cs (init n)).0.lru_list v.linked in
    (same, left, length_frames (run cs (init n)).0.lru_list ∙ ap length left, rw left at d)
  where
    length_frames : (ns : List Node) → length ns ≡ length (frames_of ns)
    length_frames ns = elim ns as (λ l. length l ≡ length (frames_of l)) [
      | [] ↦ refl
      | n ∷ (ms → ih) ↦ omega (arith, ih)
    ]
