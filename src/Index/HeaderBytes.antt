-- ===== src/Index/HeaderBytes.antt =====
-- index/ix_defs.h: a header that was serialized is read back as it was.
use mathlib.Core.List.{append_assoc}
use whu_db_practice.Prelude.{
  ℕ, zero, suc, ◌+◌, ◌*◌, ◌≡◌, refl, ap, sym, ◌∙◌, true, List, [], ◌∷◌, ◌++◌, some, arith, ◌==◌,
  length, drop, length-append, All, get_elem?, some_inj,
}
use whu_db_practice.Storage.Page.{Bytes}
use whu_db_practice.Recovery.Words.{le4, read4, length-le4, read4-le4, drop-append}
use whu_db_practice.Index.Header.{
  IxFileHdr, update_tot_len, put_words, serialize_head, serialize_tail, serialize, get_words,
  deserialize, IsWord, IsWordHeader,
}

length-put_words : (ws : List ℕ) → length (put_words ws) ≡ 4 * length ws
unfolding put_words
length-put_words [] = omega arith
length-put_words (w ∷ ws) =
    omega (arith, length-append (le4 w) (put_words ws), length-le4 w, length-put_words ws)

-- A word is read from where it was put.
word_at : (w : ℕ) (ws : List ℕ) (rest : Bytes) → IsWord w → read4 (put_words (w ∷ ws) ++ rest) ≡ w
unfolding put_words
word_at w ws rest h =
    ap read4 (append_assoc (le4 w) (put_words ws) rest) ∙ read4-le4 w (put_words ws ++ rest) h

after_word :
    (w : ℕ) (ws : List ℕ) (rest : Bytes) (k : ℕ)
    → drop (4 + k) (put_words (w ∷ ws) ++ rest) ≡ drop k (put_words ws ++ rest)
unfolding put_words
after_word w ws rest k =
    ap (drop (4 + k)) (append_assoc (le4 w) (put_words ws) rest)
    ∙ (ap (λ n. drop (n + k) (le4 w ++ (put_words ws ++ rest))) (sym (length-le4 w))
        ∙ drop-append (le4 w) (put_words ws ++ rest) k)

after_words :
    (ws : List ℕ) (rest : Bytes) (k : ℕ)
    → drop (4 * length ws + k) (put_words ws ++ rest) ≡ drop k rest
after_words ws rest k =
    ap (λ n. drop (n + k) (put_words ws ++ rest)) (sym (length-put_words ws))
    ∙ drop-append (put_words ws) rest k

get_words-put_words :
    (ws : List ℕ) (rest : Bytes) → All IsWord ws → get_words (length ws) (put_words ws ++ rest) ≡ ws
unfolding get_words
get_words-put_words [] rest h = refl
get_words-put_words (w ∷ ws) rest h = rw (word_at w ws rest h.0) (
    ap (λ x. w ∷ get_words (length ws) x) (after_word w ws rest 0)
    ∙ ap (λ x. w ∷ x) (get_words-put_words ws rest h.1))

-- The word with an index, of bytes that words were put into.
word_nth :
    (i : ℕ) (ws : List ℕ) (w : ℕ) (rest : Bytes)
    → All IsWord ws
    → get_elem? ws i ≡ some w
    → read4 (drop (4 * i) (put_words ws ++ rest)) ≡ w
word_nth zero [] w rest h e = cc
word_nth (suc i) [] w rest h e = cc
word_nth zero (v ∷ ws) w rest h e = word_at v ws rest h.0 ∙ some_inj e
word_nth (suc i) (v ∷ ws) w rest h e =
    let k : 4 * suc i ≡ 4 + 4 * i = omega arith in
    ap (λ n. read4 (drop n (put_words (v ∷ ws) ++ rest))) k
    ∙ (ap read4 (after_word v ws rest (4 * i)) ∙ word_nth i ws w rest h.1 e)

module _ (h : IxFileHdr) (rest : Bytes) (wd : IsWordHeader h) where
  types_on : Bytes
  types_on = put_words h.col_types ++ (put_words h.col_lens ++ (serialize_tail h ++ rest))

  whole : Bytes
  whole = serialize_head h ++ (put_words h.col_types ++ (put_words h.col_lens ++ serialize_tail h))

  whole_rest : whole ++ rest ≡ serialize_head h ++ types_on
  unfolding whole types_on
  whole_rest =
      append_assoc (serialize_head h) _ rest
      ∙ ap (λ x. serialize_head h ++ x)
          (append_assoc (put_words h.col_types) _ rest
            ∙ ap (λ x. put_words h.col_types ++ x)
                (append_assoc (put_words h.col_lens) (serialize_tail h) rest))

  head_word :
      (i w : ℕ)
      → get_elem? (h.tot_len ∷ h.first_free_page_no ∷ h.num_pages ∷ h.root_page ∷ h.col_num ∷ []) i
        ≡ some w
      → read4 (drop (4 * i) (whole ++ rest)) ≡ w
  unfolding serialize_head
  head_word i w e = ap (λ x. read4 (drop (4 * i) x)) whole_rest ∙ word_nth i _ w types_on wd.head e

  from_types : (k : ℕ) → drop (20 + k) (whole ++ rest) ≡ drop k types_on
  unfolding serialize_head
  from_types k =
      ap (drop (20 + k)) whole_rest
      ∙ after_words (h.tot_len ∷ h.first_free_page_no ∷ h.num_pages ∷ h.root_page ∷ h.col_num ∷ [])
          types_on k

  from_lens :
      (k : ℕ)
      → drop (20 + 4 * h.col_num + k) (whole ++ rest)
        ≡ drop k (put_words h.col_lens ++ (serialize_tail h ++ rest))
  unfolding types_on
  from_lens k =
      let e : 20 + 4 * h.col_num + k ≡ 20 + (4 * length h.col_types + k) =
        omega (arith, wd.types_length) in
      ap (λ n. drop n (whole ++ rest)) e
      ∙ (from_types (4 * length h.col_types + k)
          ∙ after_words h.col_types (put_words h.col_lens ++ (serialize_tail h ++ rest)) k)

  from_tail :
      (k : ℕ)
      → drop (20 + 4 * h.col_num + 4 * h.col_num + k) (whole ++ rest)
        ≡ drop k (serialize_tail h ++ rest)
  from_tail k =
      let e : 20 + 4 * h.col_num + 4 * h.col_num + k
          ≡ 20 + 4 * h.col_num + (4 * length h.col_lens + k) =
        omega (arith, wd.lens_length) in
      ap (λ n. drop n (whole ++ rest)) e
      ∙ (from_lens (4 * length h.col_lens + k)
          ∙ after_words h.col_lens (serialize_tail h ++ rest) k)

  tail_word :
      (i w : ℕ)
      → get_elem? (h.col_tot_len ∷ h.btree_order ∷ h.keys_size ∷ h.first_leaf ∷ h.last_leaf ∷ []) i
        ≡ some w
      → read4 (drop (20 + 4 * h.col_num + 4 * h.col_num + 4 * i) (whole ++ rest)) ≡ w
  unfolding serialize_tail
  tail_word i w e = ap read4 (from_tail (4 * i)) ∙ word_nth i _ w rest wd.tail e

  types_read : get_words h.col_num (drop 20 (whole ++ rest)) ≡ h.col_types
  unfolding types_on
  types_read =
      ap (get_words h.col_num) (from_types 0)
      ∙ (ap (λ n. get_words n types_on) (sym wd.types_length)
          ∙ get_words-put_words h.col_types _ wd.types)

  lens_read : get_words h.col_num (drop (20 + 4 * h.col_num) (whole ++ rest)) ≡ h.col_lens
  lens_read =
      let e : 20 + 4 * h.col_num ≡ 20 + 4 * h.col_num + 0 = omega arith in
      ap (λ n. get_words h.col_num (drop n (whole ++ rest))) e
      ∙ (ap (get_words h.col_num) (from_lens 0)
          ∙ (ap (λ n. get_words n (put_words h.col_lens ++ (serialize_tail h ++ rest)))
                (sym wd.lens_length)
              ∙ get_words-put_words h.col_lens _ wd.lens))

  length-whole : length whole ≡ 40 + 8 * h.col_num
  unfolding whole serialize_head serialize_tail
  length-whole =
      let a =
        put_words (h.tot_len ∷ h.first_free_page_no ∷ h.num_pages ∷ h.root_page ∷ h.col_num ∷ []) in
      let z =
        put_words (h.col_tot_len ∷ h.btree_order ∷ h.keys_size ∷ h.first_leaf ∷ h.last_leaf ∷ []) in
      omega (
        arith,
        length-append a (put_words h.col_types ++ (put_words h.col_lens ++ z)),
        length-append (put_words h.col_types) (put_words h.col_lens ++ z),
        length-append (put_words h.col_lens) z,
        length-put_words,
        wd.types_length,
        wd.lens_length,
      )

  tail_start : read4 (drop (20 + 4 * h.col_num + 4 * h.col_num) (whole ++ rest)) ≡ h.col_tot_len
  tail_start =
      let e : 20 + 4 * h.col_num + 4 * h.col_num ≡ 20 + 4 * h.col_num + 4 * h.col_num + 4 * 0 =
        omega arith in
      ap (λ n. read4 (drop n (whole ++ rest))) e ∙ tail_word 0 h.col_tot_len refl

  whole_read : h.tot_len ≡ 40 + 8 * h.col_num → deserialize (whole ++ rest) ≡ some h
  unfolding deserialize
  whole_read sized =
      let ends : (20 + 4 * h.col_num + 4 * h.col_num + 20 == h.tot_len) ≡ true = ground arith in
      rw (head_word 4 h.col_num refl, head_word 0 h.tot_len refl, ends)
        (rw
          (
            head_word 1 h.first_free_page_no refl,
            head_word 2 h.num_pages refl,
            head_word 3 h.root_page refl,
            types_read,
            lens_read,
            tail_start,
          )
          (rw
            (
              tail_word 1 h.btree_order refl,
              tail_word 2 h.keys_size refl,
              tail_word 3 h.first_leaf refl,
              tail_word 4 h.last_leaf refl,
            )
            refl))

  whole_written : h.tot_len ≡ 40 + 8 * h.col_num → serialize h ≡ some whole
  unfolding serialize whole
  whole_written sized = ground (arith, length-whole)

-- A header with as many column types and lengths as columns, whose numbers fit into their words, is
-- serialized once `update_tot_len` has been called, and read back as it was, whatever follows.
pub deserialize-serialize_header :
    (h : IxFileHdr) (rest : Bytes)
    → IsWordHeader (update_tot_len h)
    → (bytes : Bytes) × (serialize (update_tot_len h) ≡ some bytes)
      × (deserialize (bytes ++ rest) ≡ some (update_tot_len h))
unfolding update_tot_len
deserialize-serialize_header h rest wd =
    let h' = update_tot_len h in
    let sized : h'.tot_len ≡ 40 + 8 * h'.col_num = omega arith in
    (whole h' rest wd, whole_written h' rest wd sized, whole_read h' rest wd sized)
