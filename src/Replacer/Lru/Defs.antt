-- ===== src/Replacer/Lru/Defs.antt =====
-- `LRUReplacer`: its state and its four operations.
use whu_db_practice.Prelude.{
  ℕ, ◌+◌, List, [], ◌∷◌, Option, none, some, ◌==◌, if◌then◌else◌, length, update, nat_eq,
}

-- A node of `std::list<frame_id_t>`; an iterator is the address of a node.
pub record Node : Type 0 where
  pub addr : ℕ
  pub frame : ℕ

-- `next_addr` stands for the allocator: a new node gets an address that no node has.
pub record LruReplacer : Type 0 where
  pub lru_list : List Node
  pub lru_hash : ℕ → Option ℕ
  pub next_addr : ℕ
  pub max_size : ℕ

unfoldable pub init : ℕ → LruReplacer
init num_pages = record { lru_list = []; lru_hash = λ _. none; next_addr = 0; max_size = num_pages }

-- `list::back`, on a list that may be empty.
unfoldable pub back : List Node → Option Node
back [] = none
back (n ∷ []) = some n
back (n ∷ m ∷ ns) = back (m ∷ ns)

-- `list::pop_back`.
unfoldable pub pop_back : List Node → List Node
pop_back [] = []
pop_back (n ∷ []) = []
pop_back (n ∷ m ∷ ns) = n ∷ pop_back (m ∷ ns)

-- `list::erase(it)`: the node with the iterator's address is unlinked.
unfoldable pub erase_node : ℕ → List Node → List Node
erase_node a [] = []
erase_node a (n ∷ ns) = if a == n.addr then ns else n ∷ erase_node a ns

unfoldable pub victim : LruReplacer → Option ℕ × LruReplacer
victim r = elim (back r.lru_list) [
  | none ↦ (none, r)
  | some n ↦ (
    some n.frame,
    record r { lru_list = pop_back r.lru_list; lru_hash = update r.lru_hash n.frame none },
  )
]

unfoldable pub pin : ℕ → LruReplacer → LruReplacer
pin frame_id r = elim (r.lru_hash frame_id) [
  | none ↦ r
  | some it ↦ record r {
    lru_list = erase_node it r.lru_list;
    lru_hash = update r.lru_hash frame_id none;
  }
]

unfoldable pub unpin : ℕ → LruReplacer → LruReplacer
unpin frame_id r = elim (r.lru_hash frame_id) [
  | some _ ↦ r
  | none ↦ record r {
    lru_list = record { addr = r.next_addr; frame = frame_id } ∷ r.lru_list;
    lru_hash = update r.lru_hash frame_id (some r.next_addr);
    next_addr = r.next_addr + 1;
  }
]

unfoldable pub size : LruReplacer → ℕ
size r = length r.lru_list
