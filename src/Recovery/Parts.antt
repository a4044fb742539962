-- ===== src/Recovery/Parts.antt =====
-- recovery/log_manager.h: the parts of a serialized record, and how each is read back.
use mathlib.Core.List.{append_assoc}
use whu_db_practice.Prelude.{ℕ, ◌+◌, ◌<◌, ◌≡◌, refl, ap, sym, ◌∙◌, ◌++◌, arith, length, take, drop}
use whu_db_practice.Storage.Page.{Bytes}
use whu_db_practice.Recovery.Words.{
  two32, two64, le4, read4, le8, read8, read4-le4, read8-le8, take-append, drop-append,
}
use whu_db_practice.Recovery.Log.{
  LogType, LogHeader, Place, log_header_size, serialize_header, serialize_value, serialize_target,
  deserialize_header, size_at, value_at, place_at, name_at,
}

-- The numbers of a header and of a place fit into an `int`.
pub record IsWordHeader (h : LogHeader) : Type 0 where
  pub lsn : h.lsn < two32
  pub log_tot_len : h.log_tot_len < two32
  pub log_tid : h.log_tid < two32
  pub prev_lsn : h.prev_lsn < two32

abbrev pub IsWordPlace : Place → Type 0
IsWordPlace r = (r.page_no < two32) × (r.slot_no < two32)

pub length-serialize_header :
    (t : LogType) (h : LogHeader) → length (serialize_header t h) ≡ log_header_size
unfolding serialize_header le4
length-serialize_header t h = refl

pub length-serialize_value : (v : Bytes) → length (serialize_value v) ≡ length v + 4
unfolding serialize_value le4
length-serialize_value v = omega arith

pub length-serialize_target :
    (r : Place) (t : Bytes) → length (serialize_target r t) ≡ 16 + length t
unfolding serialize_target le4 le8
length-serialize_target r t = omega arith

header_eq :
    (g h : LogHeader)
    → g.lsn ≡ h.lsn
    → g.log_tot_len ≡ h.log_tot_len
    → g.log_tid ≡ h.log_tid
    → g.prev_lsn ≡ h.prev_lsn
    → g ≡ h
header_eq g h a b c d = ground arith

pub header-serialize_header :
    (t : LogType) (h : LogHeader) (rest : Bytes)
    → IsWordHeader h
    → deserialize_header (serialize_header t h ++ rest) ≡ h
unfolding deserialize_header serialize_header le4
header-serialize_header t h rest v =
    header_eq _ h
      (read4-le4 h.lsn (le4 h.log_tot_len ++ (le4 h.log_tid ++ (le4 h.prev_lsn ++ rest))) v.lsn)
      (read4-le4 h.log_tot_len (le4 h.log_tid ++ (le4 h.prev_lsn ++ rest)) v.log_tot_len)
      (read4-le4 h.log_tid (le4 h.prev_lsn ++ rest) v.log_tid)
      (read4-le4 h.prev_lsn rest v.prev_lsn)

skip_size : (v rest : Bytes) → drop 4 (serialize_value v ++ rest) ≡ v ++ rest
unfolding serialize_value le4
skip_size v rest = refl

module _ (r : Place) (t : Bytes) (rest : Bytes) where
  read_page_no : r.page_no < two32 → read4 (serialize_target r t ++ rest) ≡ r.page_no
  unfolding serialize_target le4
  read_page_no h = read4-le4 r.page_no (le4 r.slot_no ++ (le8 (length t) ++ t) ++ rest) h

  read_slot_no : r.slot_no < two32 → read4 (drop 4 (serialize_target r t ++ rest)) ≡ r.slot_no
  unfolding serialize_target le4
  read_slot_no h = read4-le4 r.slot_no ((le8 (length t) ++ t) ++ rest) h

  read_name_size : length t < two64 → read8 (drop 8 (serialize_target r t ++ rest)) ≡ length t
  unfolding serialize_target le4
  read_name_size h =
      ap read8 (append_assoc (le8 (length t)) t rest) ∙ read8-le8 (length t) (t ++ rest) h

  skip_to_name : drop 16 (serialize_target r t ++ rest) ≡ t ++ rest
  unfolding serialize_target le4 le8
  skip_to_name = refl

place_eq : (a b : Place) → a.page_no ≡ b.page_no → a.slot_no ≡ b.slot_no → a ≡ b
place_eq a b p q = ground arith

-- What stands behind `off` bytes.
module _ (pre : Bytes) (off : ℕ) (e : length pre ≡ off) where
  behind : (src : Bytes) (k : ℕ) → drop (off + k) (pre ++ src) ≡ drop k src
  behind src k = ap (λ n. drop (n + k) (pre ++ src)) (sym e) ∙ drop-append pre src k

  at_once : (src : Bytes) → drop off (pre ++ src) ≡ src
  at_once src =
      let z : off ≡ off + 0 = omega arith in ap (λ n. drop n (pre ++ src)) z ∙ behind src 0

  module _ (v : Bytes) (rest : Bytes) (small : length v < two32) where
    pub size_at-serialize_value : size_at (pre ++ (serialize_value v ++ rest)) off ≡ length v
    unfolding size_at serialize_value
    size_at-serialize_value =
        ap read4 (at_once ((le4 (length v) ++ v) ++ rest) ∙ append_assoc (le4 (length v)) v rest)
        ∙ read4-le4 (length v) (v ++ rest) small

    pub value_at-serialize_value : value_at (pre ++ (serialize_value v ++ rest)) off ≡ v
    unfolding value_at
    value_at-serialize_value =
        ap (λ n. take n (drop (off + 4) (pre ++ (serialize_value v ++ rest))))
          size_at-serialize_value
        ∙ ap (take (length v)) (behind (serialize_value v ++ rest) 4 ∙ skip_size v rest)
        ∙ take-append v rest

  module _ (r : Place) (t : Bytes) (rest : Bytes) where
    pub place_at-serialize_target :
        IsWordPlace r → place_at (pre ++ (serialize_target r t ++ rest)) off ≡ r
    unfolding place_at
    place_at-serialize_target w =
        let src = serialize_target r t ++ rest in
        place_eq _ r (ap read4 (at_once src) ∙ read_page_no r t rest w.0)
          (ap read4 (behind src 4) ∙ read_slot_no r t rest w.1)

    pub name_at-serialize_target :
        length t < two64 → name_at (pre ++ (serialize_target r t ++ rest)) (off + 8) ≡ t
    unfolding name_at
    name_at-serialize_target small =
        let src = serialize_target r t ++ rest in
        let e16 : off + 8 + 8 ≡ off + 16 = omega arith in
        ap (λ n. take n (drop (off + 8 + 8) (pre ++ src)))
          (ap read8 (behind src 8) ∙ read_name_size r t rest small)
        ∙ ap (λ n. take (length t) (drop n (pre ++ src))) e16
        ∙ ap (take (length t)) (behind src 16 ∙ skip_to_name r t rest)
        ∙ take-append t rest
