-- ===== src/Storage/Pool/Start.antt =====
-- The pool as its constructor leaves it.
use whu_db_practice.Prelude.{
  ℕ, zero, suc, ◌+◌, ◌≡◌, refl, false, ◌&&◌, none, arith, contains, IsDistinct, ltb, leb,
}
use whu_db_practice.Replacer.{Replacer}
use whu_db_practice.Storage.Page.{length-zeroed}
use whu_db_practice.Storage.Disk.{Disk}
use whu_db_practice.Storage.Pool.Defs.{frames_from, init}
use whu_db_practice.Storage.Pool.Invariant.{IsConsistent, IsClean}

contains-frames_from : (f i n : ℕ) → contains f (frames_from i n) ≡ (leb i f && ltb f (i + n))
unfolding frames_from
contains-frames_from f i zero = ground arith
contains-frames_from f i (suc n) = ground (arith, contains-frames_from f (suc i) n)

frames_from-IsDistinct : (i n : ℕ) → IsDistinct (frames_from i n)
unfolding frames_from
frames_from-IsDistinct i zero = tt
frames_from-IsDistinct i (suc n) =
    (ground (arith, contains-frames_from i (suc i) n), frames_from-IsDistinct (suc i) n)

-- With a policy that may choose no frame, the constructor's pool is consistent and clean.
pub init-IsConsistent :
    (rep : Replacer) (n : ℕ) (d : Disk) (r : rep.State)
    → rep.IsValid r
    → ((f : ℕ) → rep.has r f ≡ false)
    → IsConsistent rep none (init rep n d r) × IsClean rep (init rep n d r)
unfolding init
init-IsConsistent rep n d r valid empty = (
  record {
    policy = valid;
    mapped = λ p f h. cc;
    owned = λ f p lt h. cc;
    evictable = λ f h. absurd (ground (arith, empty f));
    unpinned = λ f lt some_id z other. absurd (some_id refl);
    free = λ f h. (ground (arith, contains-frames_from f 0 n), refl);
    vacant = λ f lt h. (refl, λ _. ground (arith, contains-frames_from f 0 n));
    distinct = frames_from-IsDistinct 0 n;
    sized = λ f lt. length-zeroed;
    taken = λ f h. cc;
  },
  λ f p lt h. cc,
)
