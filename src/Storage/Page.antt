-- ===== src/Storage/Page.antt =====
-- storage/page.h: `PageId` and `Page`, and the sizes of common/config.h.
use whu_db_practice.Prelude.{
  ℕ, ◌≡◌, refl, ◌↔◌, inl, inr, Bool, true, false, ◌&&◌, List, Option, none, some, arith, ◌==◌,
  length, replicate, Eq,
}
use whu_db_practice.Prelude

abbrev pub page_size : ℕ
page_size = 4096

-- A page number is a natural number here. `INVALID_PAGE_ID` (-1) stands in no `PageId` of the
-- model: a frame whose `id_` has that number has `none` for its id.
pub record PageId : Type 0 where
  pub fd : ℕ
  pub page_no : ℕ

-- `operator==`.
abbrev pub page_id_eq : PageId → PageId → Bool
page_id_eq x y = x.fd == y.fd && x.page_no == y.page_no

pub page_id_eq_iff : (x y : PageId) → (page_id_eq x y ≡ true) ↔ (x ≡ y)
page_id_eq_iff x y = ground arith

instance abbrev pub page_id_has_eq : Eq PageId
page_id_has_eq = record { beq = page_id_eq; beq_iff = page_id_eq_iff }

abbrev pub Bytes : Type 0
Bytes = List ℕ

pub record Page : Type 0 where
  pub id : Option PageId
  pub bytes : Bytes
  pub is_dirty : Bool
  pub pin_count : ℕ

-- `reset_memory`.
unfoldable pub zeroed : Bytes
zeroed = replicate page_size 0

pub length-replicate : (n : ℕ) (a : ℕ) → length (replicate n a) ≡ n
length-replicate Prelude.zero a = refl
length-replicate (Prelude.suc n) a = Prelude.ap Prelude.suc (length-replicate n a)

pub length-zeroed : length zeroed ≡ page_size
unfolding zeroed
length-zeroed = length-replicate 4096 0
