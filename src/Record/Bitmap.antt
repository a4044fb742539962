-- ===== src/Record/Bitmap.antt =====
-- record/bitmap.h: `Bitmap`, over a list of bytes. Position 0 is the highest bit of byte 0.
use Prim.Native.Nat.{bit_and, bit_or}
use whu_db_practice.Prelude.{
  ℕ, zero, suc, ◌-◌, ◌/◌, ◌%◌, ◌^◌, ◌<◌, Bool, true, false, not, ◌==◌, if◌then◌else◌, get_or, set,
  replicate, drop, ◌++◌, All,
}
use whu_db_practice.Storage.Page.{Bytes}

unfoldable pub get_bucket : ℕ → ℕ
get_bucket pos = pos / 8

-- `BITMAP_HIGHEST_BIT >> (pos % BITMAP_WIDTH)`.
unfoldable pub get_bit : ℕ → ℕ
get_bit pos = 128 / 2 ^ (pos % 8)

-- `Bitmap::init`: the first `size` bytes become 0.
unfoldable pub init : ℕ → Bytes → Bytes
init size bm = replicate size 0 ++ drop size bm

-- `Bitmap::set`.
unfoldable pub set_bit : Bytes → ℕ → Bytes
set_bit bm pos = set bm (get_bucket pos) (bit_or (get_or bm (get_bucket pos) 0) (get_bit pos))

-- `Bitmap::reset`: `~get_bit(pos)` on a byte is 255 - get_bit(pos).
unfoldable pub reset : Bytes → ℕ → Bytes
reset bm pos = set bm (get_bucket pos) (bit_and (get_or bm (get_bucket pos) 0) (255 - get_bit pos))

unfoldable pub is_set : Bytes → ℕ → Bool
is_set bm pos = not (bit_and (get_or bm (get_bucket pos) 0) (get_bit pos) == 0)

abbrev pub bool_eq : Bool → Bool → Bool
bool_eq true b = b
bool_eq false b = not b

-- The loop of `next_bit` with `rounds` left, at position `i`.
unfoldable pub find_bit : Bool → Bytes → ℕ → ℕ → ℕ → ℕ
find_bit bit bm max_n zero i = max_n
find_bit bit bm max_n (suc rounds) i =
    let rest = find_bit bit bm max_n rounds (suc i) in if bool_eq (is_set bm i) bit then i else rest

-- `Bitmap::next_bit`, from `start` = curr + 1 on: `curr` is -1 for `first_bit`.
unfoldable pub next_bit : Bool → Bytes → ℕ → ℕ → ℕ
next_bit bit bm max_n start = find_bit bit bm max_n (max_n - start) start

unfoldable pub first_bit : Bool → Bytes → ℕ → ℕ
first_bit bit bm max_n = next_bit bit bm max_n 0

abbrev pub IsByte : ℕ → Type 0
IsByte b = b < 256

abbrev pub AreBytes : Bytes → Type 0
AreBytes bm = All IsByte bm
