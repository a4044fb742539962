-- ===== src/Replacer/Lru/Invariant.antt =====
-- The representation invariant of `LRUReplacer`: the hash table finds exactly the nodes of the
-- list, and neither a frame nor an address stands twice.
use whu_db_practice.Prelude.{
  ℕ, ◌+◌, ◌<◌, ◌≡◌, refl, inl, inr, Bool, true, false, List, [], ◌∷◌, Option, none, some, arith,
  ◌==◌, if◌then◌else◌, Option-cases, update, nat_eq,
}
use whu_db_practice.Replacer.Lru.Defs.{
  Node, LruReplacer, init, back, pop_back, erase_node, victim, pin, unpin,
}

-- The address of the first node that holds a frame.
abbrev pub find_frame : ℕ → List Node → Option ℕ
find_frame f [] = none
find_frame f (n ∷ ns) = if f == n.frame then some n.addr else find_frame f ns

abbrev pub has_addr : ℕ → List Node → Bool
has_addr a [] = false
has_addr a (n ∷ ns) = if a == n.addr then true else has_addr a ns

abbrev pub IsLinked : List Node → Type 0
IsLinked [] = Unit
IsLinked (n ∷ ns) = (find_frame n.frame ns ≡ none) × (has_addr n.addr ns ≡ false) × IsLinked ns

abbrev pub Below : ℕ → List Node → Type 0
Below k [] = Unit
Below k (n ∷ ns) = (n.addr < k) × Below k ns

pub record IsValid (r : LruReplacer) : Type 0 where
  pub indexed : (f : ℕ) → r.lru_hash f ≡ find_frame f r.lru_list
  pub linked : IsLinked r.lru_list
  pub fresh : Below r.next_addr r.lru_list

pub find_frame-has_addr :
    (f a : ℕ) (ns : List Node) → find_frame f ns ≡ some a → has_addr a ns ≡ true
find_frame-has_addr f a [] h = ground arith
find_frame-has_addr f a (n ∷ ns) h = ground (arith, find_frame-has_addr f a ns)

-- A node that the list holds is unlinked, and no other frame is lost.
pub find_frame-erase_node :
    (f a g : ℕ) (ns : List Node)
    → IsLinked ns
    → find_frame f ns ≡ some a
    → find_frame g (erase_node a ns) ≡ (if g == f then none else find_frame g ns)
unfolding erase_node
find_frame-erase_node f a g [] l h = ground arith
find_frame-erase_node f a g (n ∷ ns) l h =
    ground (arith, find_frame-erase_node f a g ns l.2, find_frame-has_addr f a ns)

has_addr-erase_node :
    (a b : ℕ) (ns : List Node) → has_addr b ns ≡ false → has_addr b (erase_node a ns) ≡ false
unfolding erase_node
has_addr-erase_node a b [] h = h
has_addr-erase_node a b (n ∷ ns) h = ground (arith, has_addr-erase_node a b ns)

erase_node-IsLinked :
    (f a : ℕ) (ns : List Node) → IsLinked ns → find_frame f ns ≡ some a → IsLinked (erase_node a ns)
unfolding erase_node
erase_node-IsLinked f a [] l h = tt
erase_node-IsLinked f a (n ∷ ns) l h = ground (
  arith,
  erase_node-IsLinked f a ns l.2,
  find_frame-erase_node f a n.frame ns l.2,
  find_frame-has_addr f a ns,
  has_addr-erase_node a n.addr ns,
)

erase_node-Below : (k a : ℕ) (ns : List Node) → Below k ns → Below k (erase_node a ns)
unfolding erase_node
erase_node-Below k a [] b = tt
erase_node-Below k a (n ∷ ns) b = ground (arith, erase_node-Below k a ns b.1)

-- `pop_back` unlinks the node that `back` returns.
pub pop_back-erase_node :
    (ns : List Node) (n : Node)
    → IsLinked ns
    → back ns ≡ some n
    → (find_frame n.frame ns ≡ some n.addr) × (pop_back ns ≡ erase_node n.addr ns)
unfolding back pop_back erase_node
pop_back-erase_node [] n l h = ground arith
pop_back-erase_node (x ∷ []) n l h = ground arith
pop_back-erase_node (x ∷ y ∷ ns) n l h =
    ground
      (arith, pop_back-erase_node (y ∷ ns) n l.2 h, find_frame-has_addr n.frame n.addr (y ∷ ns))

Below-suc : (k : ℕ) (ns : List Node) → Below k ns → Below (k + 1) ns
Below-suc k [] b = tt
Below-suc k (n ∷ ns) b = (ground arith, Below-suc k ns b.1)

Below-has_addr : (k : ℕ) (ns : List Node) → Below k ns → has_addr k ns ≡ false
Below-has_addr k [] b = refl
Below-has_addr k (n ∷ ns) b = ground (arith, Below-has_addr k ns b.1)

pub init-IsValid : (num_pages : ℕ) → IsValid (init num_pages)
unfolding init
init-IsValid n = record { indexed = λ f. refl; linked = tt; fresh = tt }

-- Unlinking the node of one frame, in the list and in the table.
pub drop-IsValid :
    (r : LruReplacer) (f a : ℕ)
    → IsValid r
    → find_frame f r.lru_list ≡ some a
    → IsValid (record r { lru_list = erase_node a r.lru_list; lru_hash = update r.lru_hash f none })
drop-IsValid r f a v h = record {
  indexed = λ g. ground (arith, v.indexed g, find_frame-erase_node f a g r.lru_list v.linked h);
  linked = erase_node-IsLinked f a r.lru_list v.linked h;
  fresh = erase_node-Below r.next_addr a r.lru_list v.fresh;
}

pub pin-IsValid : (f : ℕ) (r : LruReplacer) → IsValid r → IsValid (pin f r)
unfolding pin
pin-IsValid f r v = elim (Option-cases (r.lru_hash f)) [
  | inl e ↦ rw (e, pin) v
  | inr (a, e) ↦ rw (e, pin) (drop-IsValid r f a v (ground (arith, v.indexed f)))
]

pub unpin-IsValid : (f : ℕ) (r : LruReplacer) → IsValid r → IsValid (unpin f r)
unfolding unpin
unpin-IsValid f r v = elim (Option-cases (r.lru_hash f)) [
  | inr (a, e) ↦ rw (e, unpin) v
  | inl e ↦
      rw (e, unpin)
        (record {
          indexed = λ g. ground (arith, v.indexed g);
          linked = (
            ground (arith, v.indexed f),
            Below-has_addr r.next_addr r.lru_list v.fresh,
            v.linked,
          );
          fresh = (ground arith, Below-suc r.next_addr r.lru_list v.fresh);
        })
]

pub victim-IsValid : (r : LruReplacer) → IsValid r → IsValid (victim r).1
unfolding victim
victim-IsValid r v = elim (Option-cases (back r.lru_list)) [
  | inl e ↦ rw (e, victim) v
  | inr (n, e) ↦
      let (found, same) = pop_back-erase_node r.lru_list n v.linked e in
      rw (e, victim) (rw same (drop-IsValid r n.frame n.addr v found))
]
