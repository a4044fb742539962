-- ===== src/Storage/Disk.antt =====
-- storage/disk_manager.cpp: page reads and writes, and page numbers. A file is its size with its
-- bytes; `lseek` and a complete `write` past the end leave a hole of zeros, and a `read` that the
-- end cuts short is the error of the source. `accepts` says for which pages the system's `write`
-- is complete; one that is not leaves the file as it was.
use whu_db_practice.Prelude.{
  ℕ, zero, suc, ◌+◌, ◌-◌, ◌*◌, ◌≤◌, ◌<◌, min, max, ◌≡◌, refl, ap, ◌≢◌, ◌⊎◌, inl, inr, Bool, ◌&&◌,
  [], ◌∷◌, Option, none, some, arith, ltb, leb, if◌then◌else◌, length, get_or, update, nat_eq,
  Bool-cases, ◌==◌,
}
use whu_db_practice.Storage.Page.{PageId, Bytes, page_size}

pub record File : Type 0 where
  pub size : ℕ
  pub byte : ℕ → ℕ

pub record Disk : Type 0 where
  pub file : ℕ → File
  pub accepts : PageId → Bool
  pub fd2pageno : ℕ → ℕ

-- `write` at an offset.
abbrev pub write_at : File → ℕ → Bytes → File
write_at f off bs = record {
  size = max f.size (off + length bs);
  byte = λ i.
      if ltb i off
      then if ltb i f.size then f.byte i else 0
      else if ltb i (off + length bs)
      then get_or bs (i - off) 0
      else f.byte i;
}

-- `read` of `n` bytes at an offset.
pub bytes_from : (ℕ → ℕ) → ℕ → ℕ → Bytes
bytes_from byte off zero = []
bytes_from byte off (suc n) = byte off ∷ bytes_from byte (suc off) n

abbrev pub read_at : File → ℕ → ℕ → Option Bytes
read_at f off n = if leb (off + n) f.size then some (bytes_from f.byte off n) else none

-- The offset `page_no * PAGE_SIZE` is an `int`. From page 2 ^ 19 on it overflows, which leaves the
-- behaviour of the program undefined; the calls then answer `none`.
unfoldable pub fits : PageId → Bool
fits p = ltb p.page_no 524288

unfoldable pub write_page : Disk → PageId → Bytes → Option Disk
write_page d p bs =
    if fits p && d.accepts p
    then some
        (record d { file = update d.file p.fd (write_at (d.file p.fd) (p.page_no * page_size) bs) })
    else none

unfoldable pub read_page : Disk → PageId → ℕ → Option Bytes
read_page d p num_bytes =
    if fits p then read_at (d.file p.fd) (p.page_no * page_size) num_bytes else none

-- The bytes that a `read` which the end of the file cuts short leaves in the buffer.
unfoldable pub short_read : Disk → PageId → ℕ → Bytes
short_read d p num_bytes =
    let f = d.file p.fd in
    let off = p.page_no * page_size in bytes_from f.byte off (min num_bytes (f.size - off))

abbrev pub max_fd : ℕ
max_fd = 8192

abbrev pub allocated : Disk → ℕ → ℕ × Disk
allocated d fd =
    (d.fd2pageno fd, record d { fd2pageno = update d.fd2pageno fd (d.fd2pageno fd + 1) })

-- `none` is the failed `assert` on the file.
unfoldable pub allocate_page : Disk → ℕ → Option (ℕ × Disk)
allocate_page d fd = if ltb fd max_fd then some (allocated d fd) else none

unfoldable pub set_fd2pageno : Disk → ℕ → ℕ → Disk
set_fd2pageno d fd start = record d { fd2pageno = update d.fd2pageno fd start }

bytes_from_read :
    (byte : ℕ → ℕ) (off : ℕ) (bs : Bytes)
    → ((k : ℕ) → k < length bs → byte (off + k) ≡ get_or bs k 0)
    → bytes_from byte off (length bs) ≡ bs
unfolding bytes_from
bytes_from_read byte off [] h = refl
bytes_from_read byte off (b ∷ bs) h = ground (
  arith,
  h 0,
  bytes_from_read byte (suc off) bs
      (λ k p. let e : suc off + k ≡ off + suc k = omega arith in rw e (h (suc k) (omega arith))),
)

bytes_from_same :
    (byte byte' : ℕ → ℕ) (off n : ℕ)
    → ((k : ℕ) → off ≤ k → k < off + n → byte k ≡ byte' k)
    → bytes_from byte off n ≡ bytes_from byte' off n
unfolding bytes_from
bytes_from_same byte byte' off zero h = refl
bytes_from_same byte byte' off (suc n) h = ground (
  arith,
  h off,
  bytes_from_same byte byte' (suc off) n (λ k p q. h k (omega arith) (omega arith)),
)

-- Bytes that were written are read back.
read_at-write_at :
    (f : File) (off : ℕ) (bs : Bytes) → read_at (write_at f off bs) off (length bs) ≡ some bs
read_at-write_at f off bs = ground (
  arith,
  bytes_from_read (write_at f off bs).byte off bs
      (λ k p. let e : off + k - off ≡ k = omega arith in ground (arith, ap (λ j. get_or bs j 0) e)),
)

-- What lay outside the range that is written can still be read, unchanged.
read_at-write_at_apart :
    (f : File) (off off' n : ℕ) (bs cs : Bytes)
    → (off' + n ≤ off) ⊎ (off + length bs ≤ off')
    → read_at f off' n ≡ some cs
    → read_at (write_at f off bs) off' n ≡ some cs
read_at-write_at_apart f off off' n bs cs apart h =
    ground (
      arith,
      leb_ok,
      bytes_from_same (write_at f off bs).byte f.byte off' n (λ k p q. ground arith),
    )
  where
    leb_ok : off' + n ≤ f.size
    leb_ok = ground arith

-- A page that was written is read back as it was written, whatever its length; a write of a page
-- whose offset overflows, or one that is cut short, does not return.
pub read_page-write_page :
    (d d' : Disk) (p : PageId) (bs : Bytes)
    → write_page d p bs ≡ some d'
    → read_page d' p (length bs) ≡ some bs
unfolding write_page read_page
read_page-write_page d d' p bs h =
    ground (arith, read_at-write_at (d.file p.fd) (p.page_no * page_size) bs)

-- A write of at most a page's bytes that returns leaves every other page, of this file or another, as it was.
pub read_page-write_page_ne :
    (d d' : Disk) (p q : PageId) (bs cs : Bytes)
    → write_page d p bs ≡ some d'
    → length bs ≤ page_size
    → p ≢ q
    → read_page d q page_size ≡ some cs
    → read_page d' q page_size ≡ some cs
unfolding write_page read_page
read_page-write_page_ne d d' p q bs cs h small other r = elim (Bool-cases (q.fd == p.fd)) [
  | inl same ↦ ground (
    arith,
    read_at-write_at_apart (d.file p.fd) (p.page_no * page_size) (q.page_no * page_size) page_size
        bs cs (pages_apart (ground arith)),
  )
  | inr differ ↦ ground arith
]
  where
    pages_apart :
        p.page_no ≢ q.page_no
        → (q.page_no * page_size + page_size ≤ p.page_no * page_size)
          ⊎ (p.page_no * page_size + length bs ≤ q.page_no * page_size)
    pages_apart ne = elim (Bool-cases (ltb q.page_no p.page_no)) [
      | inl below ↦ inl (ground arith)
      | inr above ↦ inr (ground arith)
    ]

length-bytes_from : (byte : ℕ → ℕ) (off n : ℕ) → length (bytes_from byte off n) ≡ n
unfolding bytes_from
length-bytes_from byte off zero = refl
length-bytes_from byte off (suc n) = ap suc (length-bytes_from byte (suc off) n)

pub length-read_page :
    (d : Disk) (p : PageId) (n : ℕ) (bs : Bytes) → read_page d p n ≡ some bs → length bs ≡ n
unfolding read_page
length-read_page d p n bs h =
    ground (arith, length-bytes_from (d.file p.fd).byte (p.page_no * page_size) n)
