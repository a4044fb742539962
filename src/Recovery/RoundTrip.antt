-- ===== src/Recovery/RoundTrip.antt =====
-- recovery/log_manager.h: a record that was serialized is read back as it was, and its length is the
-- one that its constructor computes.
use mathlib.Core.List.{append_assoc}
use whu_db_practice.Prelude.{
  ℕ, ◌+◌, ◌<◌, ◌≡◌, refl, ap, sym, ◌∙◌, ◌++◌, arith, length, length-append,
}
use whu_db_practice.Storage.Page.{Bytes}
use whu_db_practice.Recovery.Words.{two32, two64}
use whu_db_practice.Recovery.Log.{
  LogType, update, insert, delete, begin, commit, abort, LogHeader, Place, LogRecord, begin_log,
  commit_log, abort_log, insert_log, delete_log, update_log, header_of, log_header_size, new_begin,
  new_commit, new_abort, new_insert, new_delete, new_update, serialize_header, serialize_value,
  serialize_target, serialize, deserialize_header, size_at, value_at, place_at, name_at,
  deserialize_insert, deserialize_delete, deserialize_update,
}
use whu_db_practice.Recovery.Parts.{
  IsWordHeader, IsWordPlace, length-serialize_header, length-serialize_value,
  length-serialize_target, header-serialize_header, size_at-serialize_value,
  value_at-serialize_value, place_at-serialize_target, name_at-serialize_target,
}

-- The numbers of a record fit into the words that it is written with.
abbrev pub IsWordRecord : LogRecord → Type 0
IsWordRecord (begin_log h) = IsWordHeader h
IsWordRecord (commit_log h) = IsWordHeader h
IsWordRecord (abort_log h) = IsWordHeader h
IsWordRecord (insert_log h v r t) =
    IsWordHeader h × (length v < two32) × IsWordPlace r × (length t < two64)
IsWordRecord (delete_log h v r t) =
    IsWordHeader h × (length v < two32) × IsWordPlace r × (length t < two64)
IsWordRecord (update_log h o n r t) =
    IsWordHeader h × (length o < two32) × (length n < two32) × IsWordPlace r × (length t < two64)

-- `deserialize` of the record's own class.
unfoldable pub deserialize : LogRecord → Bytes → LogRecord
deserialize (begin_log _) src = begin_log (deserialize_header src)
deserialize (commit_log _) src = commit_log (deserialize_header src)
deserialize (abort_log _) src = abort_log (deserialize_header src)
deserialize (insert_log _ _ _ _) src = deserialize_insert src
deserialize (delete_log _ _ _ _) src = deserialize_delete src
deserialize (update_log _ _ _ _ _) src = deserialize_update src

-- One value between the header and the target.
module _ (ty : LogType) (h : LogHeader) (v : Bytes) (r : Place) (t rest : Bytes)
    (hw : IsWordHeader h) (vw : length v < two32) (place_w : IsWordPlace r)
    (tw : length t < two64) where
  one : Bytes
  one = (serialize_header ty h ++ (serialize_value v ++ serialize_target r t)) ++ rest

  from_value : one ≡ serialize_header ty h ++ (serialize_value v ++ (serialize_target r t ++ rest))
  unfolding one
  from_value =
      append_assoc (serialize_header ty h) (serialize_value v ++ serialize_target r t) rest
      ∙ ap (λ x. serialize_header ty h ++ x)
          (append_assoc (serialize_value v) (serialize_target r t) rest)

  from_target : one ≡ (serialize_header ty h ++ serialize_value v) ++ (serialize_target r t ++ rest)
  from_target =
      from_value
      ∙ sym
          (append_assoc (serialize_header ty h) (serialize_value v) (serialize_target r t ++ rest))

  one_header : deserialize_header one ≡ h
  one_header = ap deserialize_header from_value ∙ header-serialize_header ty h _ hw

  one_size : size_at one log_header_size ≡ length v
  one_size =
      ap (λ x. size_at x log_header_size) from_value
      ∙ size_at-serialize_value (serialize_header ty h) log_header_size
          (length-serialize_header ty h) v _ vw

  one_value : value_at one log_header_size ≡ v
  one_value =
      ap (λ x. value_at x log_header_size) from_value
      ∙ value_at-serialize_value (serialize_header ty h) log_header_size
          (length-serialize_header ty h) v _ vw

  one_length : length (serialize_header ty h ++ serialize_value v) ≡ log_header_size + length v + 4
  one_length = omega (
    arith,
    length-append (serialize_header ty h) (serialize_value v),
    length-serialize_header ty h,
    length-serialize_value v,
  )

  one_place : place_at one (log_header_size + length v + 4) ≡ r
  one_place =
      ap (λ x. place_at x (log_header_size + length v + 4)) from_target
      ∙ place_at-serialize_target (serialize_header ty h ++ serialize_value v) _ one_length r t rest
          place_w

  one_name : name_at one (log_header_size + length v + 4 + 8) ≡ t
  one_name =
      ap (λ x. name_at x (log_header_size + length v + 4 + 8)) from_target
      ∙ name_at-serialize_target (serialize_header ty h ++ serialize_value v) _ one_length r t rest
          tw

-- `deserialize` of the three classes, on their own bytes.
insert_read :
    (h : LogHeader) (v : Bytes) (r : Place) (t rest : Bytes)
    → IsWordRecord (insert_log h v r t)
    → deserialize_insert (serialize (insert_log h v r t) ++ rest) ≡ insert_log h v r t
unfolding deserialize_insert serialize one
insert_read h v r t rest (hw, vw, pw, tw) =
    rw
      (
        one_header insert h v r t rest hw vw pw tw,
        one_size insert h v r t rest hw vw pw tw,
        one_value insert h v r t rest hw vw pw tw,
      )
      (rw (one_place insert h v r t rest hw vw pw tw, one_name insert h v r t rest hw vw pw tw)
        refl)

delete_read :
    (h : LogHeader) (v : Bytes) (r : Place) (t rest : Bytes)
    → IsWordRecord (delete_log h v r t)
    → deserialize_delete (serialize (delete_log h v r t) ++ rest) ≡ delete_log h v r t
unfolding deserialize_delete serialize one
delete_read h v r t rest (hw, vw, pw, tw) =
    rw
      (
        one_header delete h v r t rest hw vw pw tw,
        one_size delete h v r t rest hw vw pw tw,
        one_value delete h v r t rest hw vw pw tw,
      )
      (rw (one_place delete h v r t rest hw vw pw tw, one_name delete h v r t rest hw vw pw tw)
        refl)

-- Two values between the header and the target.
module _ (h : LogHeader) (o n : Bytes) (r : Place) (t rest : Bytes) (hw : IsWordHeader h)
    (ow : length o < two32) (nw : length n < two32) (pw : IsWordPlace r)
    (tw : length t < two64) where
  two : Bytes
  two = serialize (update_log h o n r t) ++ rest

  two_old :
      two
      ≡ serialize_header update h
        ++ (serialize_value o ++ (serialize_value n ++ (serialize_target r t ++ rest)))
  unfolding two serialize
  two_old =
      append_assoc (serialize_header update h)
        (serialize_value o ++ (serialize_value n ++ serialize_target r t)) rest
      ∙ ap (λ x. serialize_header update h ++ x)
          (append_assoc (serialize_value o) (serialize_value n ++ serialize_target r t) rest
            ∙ ap (λ x. serialize_value o ++ x)
                (append_assoc (serialize_value n) (serialize_target r t) rest))

  two_new :
      two
      ≡ (serialize_header update h ++ serialize_value o)
        ++ (serialize_value n ++ (serialize_target r t ++ rest))
  two_new = two_old ∙ sym (append_assoc (serialize_header update h) (serialize_value o) _)

  two_target :
      two
      ≡ ((serialize_header update h ++ serialize_value o) ++ serialize_value n)
        ++ (serialize_target r t ++ rest)
  two_target =
      two_new
      ∙ sym (append_assoc (serialize_header update h ++ serialize_value o) (serialize_value n) _)

  before_new :
      length (serialize_header update h ++ serialize_value o) ≡ log_header_size + length o + 4
  before_new = one_length update h o r t rest hw ow pw tw

  before_target :
      length ((serialize_header update h ++ serialize_value o) ++ serialize_value n)
      ≡ log_header_size + length o + 4 + (length n + 4)
  before_target = omega (
    arith,
    length-append (serialize_header update h ++ serialize_value o) (serialize_value n),
    before_new,
    length-serialize_value n,
  )

  update_read : deserialize_update two ≡ update_log h o n r t
  unfolding deserialize_update
  update_read =
      let header = ap deserialize_header two_old ∙ header-serialize_header update h _ hw in
      let old_size =
        ap (λ x. size_at x log_header_size) two_old
        ∙ size_at-serialize_value (serialize_header update h) log_header_size
            (length-serialize_header update h) o _ ow in
      let old =
        ap (λ x. value_at x log_header_size) two_old
        ∙ value_at-serialize_value (serialize_header update h) log_header_size
            (length-serialize_header update h) o _ ow in
      let off = log_header_size + length o + 4 in
      let new_size =
        ap (λ x. size_at x off) two_new ∙ size_at-serialize_value _ off before_new n _ nw in
      let new =
        ap (λ x. value_at x off) two_new ∙ value_at-serialize_value _ off before_new n _ nw in
      let off' = off + (length n + 4) in
      let place =
        ap (λ x. place_at x off') two_target
        ∙ place_at-serialize_target _ off' before_target r t rest pw in
      let name =
        ap (λ x. name_at x (off' + 8)) two_target
        ∙ name_at-serialize_target _ off' before_target r t rest tw in
      rw (header, old_size, old) (rw (new_size, new) (rw (place, name) refl))

-- A record that was serialized, with anything behind it, is read back as it was, if its numbers
-- fit into their words.
pub deserialize-serialize :
    (l : LogRecord) (rest : Bytes) → IsWordRecord l → deserialize l (serialize l ++ rest) ≡ l
unfolding deserialize serialize two
deserialize-serialize (begin_log h) rest w = ap begin_log (header-serialize_header begin h rest w)
deserialize-serialize (commit_log h) rest w =
    ap commit_log (header-serialize_header commit h rest w)
deserialize-serialize (abort_log h) rest w = ap abort_log (header-serialize_header abort h rest w)
deserialize-serialize (insert_log h v r t) rest w = insert_read h v r t rest w
deserialize-serialize (delete_log h v r t) rest w = delete_read h v r t rest w
deserialize-serialize (update_log h o n r t) rest (hw, ow, nw, pw, tw) =
    update_read h o n r t rest hw ow nw pw tw

-- `log_tot_len_` is the number of bytes that `serialize` writes.
abbrev pub IsSized : LogRecord → Type 0
IsSized l = length (serialize l) ≡ (header_of l).log_tot_len

-- Every constructor computes the length of the bytes that `serialize` writes for the record.
pub new-IsSized :
    (txn_id : ℕ) (old new : Bytes) (rid : Place) (name : Bytes)
    → IsSized (new_begin txn_id)
      × IsSized (new_commit txn_id)
      × IsSized (new_abort txn_id)
      × IsSized (new_insert txn_id new rid name)
      × IsSized (new_delete txn_id old rid name)
      × IsSized (new_update txn_id old new rid name)
unfolding serialize new_begin new_commit new_abort new_insert new_delete new_update
new-IsSized txn_id old new rid name =
    let p = length-serialize_target rid name in
    let n = length-serialize_value new in
    let o = length-serialize_value old in
    (
      length-serialize_header _ _,
      length-serialize_header _ _,
      length-serialize_header _ _,
      omega (arith, length-append {0}, length-serialize_header),
      omega (arith, length-append {0}, length-serialize_header),
      omega (arith, length-append {0}, length-serialize_header),
    )
