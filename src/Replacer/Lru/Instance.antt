-- ===== src/Replacer/Lru/Instance.antt =====
-- `LRUReplacer` implements the interface `Replacer`.
use whu_db_practice.Prelude.{
  ℕ, ◌≡◌, refl, Bool, true, false, List, [], ◌∷◌, none, some, arith, ◌==◌, if◌then◌else◌, contains,
  IsDistinct, contains-erase,
}
use whu_db_practice.Replacer.{Replacer}
use whu_db_practice.Replacer.Lru.Defs.{LruReplacer, victim, pin, unpin, size}
use whu_db_practice.Replacer.Lru.Invariant.{IsValid, pin-IsValid, unpin-IsValid, victim-IsValid}
use whu_db_practice.Replacer.Lru.Refinement.{
  frames, last?, drop_last, frames-IsDistinct, frames-pin, frames-unpin, frames-victim,
}

abbrev pub holds : LruReplacer → ℕ → Bool
holds r f = contains f (frames r)

module _ (f : ℕ) (r : LruReplacer) (v : IsValid r) (g : ℕ) where
  pub holds-pin : holds (pin f r) g ≡ (if g == f then false else holds r g)
  holds-pin = ground (
    arith,
    frames-pin f r v,
    contains-erase f g (frames r) (frames-IsDistinct r.lru_list v.linked),
  )

  pub holds-unpin : holds (unpin f r) g ≡ (if g == f then true else holds r g)
  holds-unpin = ground (arith, frames-unpin f r v)

last-none : (fs : List ℕ) → last? fs ≡ none → fs ≡ []
last-none [] h = refl
last-none (x ∷ []) h = ground arith
last-none (x ∷ y ∷ fs) h = ground (arith, last-none (y ∷ fs) h)

last-contains : (fs : List ℕ) (f : ℕ) → last? fs ≡ some f → contains f fs ≡ true
last-contains [] f h = ground arith
last-contains (x ∷ []) f h = ground arith
last-contains (x ∷ y ∷ fs) f h = ground (arith, last-contains (y ∷ fs) f h)

contains-drop_last :
    (fs : List ℕ) (f : ℕ)
    → IsDistinct fs
    → last? fs ≡ some f
    → (g : ℕ) → contains g (drop_last fs) ≡ (if g == f then false else contains g fs)
contains-drop_last [] f d h g = ground arith
contains-drop_last (x ∷ []) f d h g = ground arith
contains-drop_last (x ∷ y ∷ fs) f d h g =
    ground (arith, contains-drop_last (y ∷ fs) f d.1 h g, last-contains (y ∷ fs) f h)

pub victim_none :
    (r : LruReplacer)
    → IsValid r
    → (victim r).0 ≡ none
    → ((victim r).1 ≡ r) × ((g : ℕ) → holds r g ≡ false)
unfolding victim
victim_none r v h =
    (ground arith, rw (last-none (frames r) (ground (arith, frames-victim r))) (λ g. refl))

pub victim_some :
    (r : LruReplacer) (f : ℕ)
    → IsValid r
    → (victim r).0 ≡ some f
    → (holds r f ≡ true) × ((g : ℕ) → holds (victim r).1 g ≡ (if g == f then false else holds r g))
victim_some r f v h =
    let (out, left) = frames-victim r in
    let e : last? (frames r) ≡ some f = ground arith in
    (
      last-contains (frames r) f e,
      λ g.
          ground
            (arith, contains-drop_last (frames r) f (frames-IsDistinct r.lru_list v.linked) e g),
    )

-- What `BufferPoolManager` gets from `new LRUReplacer`.
abbrev pub lru_replacer : Replacer
lru_replacer = record {
  State = LruReplacer;
  victim = victim;
  pin = pin;
  unpin = unpin;
  size = size;
  IsValid = IsValid;
  has = holds;
  pin-IsValid = pin-IsValid;
  unpin-IsValid = unpin-IsValid;
  victim-IsValid = victim-IsValid;
  has-pin = holds-pin;
  has-unpin = holds-unpin;
  victim_none = victim_none;
  victim_some = victim_some;
}
