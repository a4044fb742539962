-- ===== src/Tests/Replacers.antt =====
-- `LRUReplacer` on a short history (compare `unit_test.cpp`).
use whu_db_practice.Prelude.{◌≡◌, refl, List, [], ◌∷◌, none, some, length, IsDistinct}
use whu_db_practice.Replacer.Lru.Defs.{init, back, pop_back, erase_node, victim, pin, unpin, size}
use whu_db_practice.Replacer.Lru.Refinement.{
  Call, victims, pins, unpins, step, evicted, run, spec_run, frames, run-refines,
}

abbrev calls : List Call
calls = unpins 1 ∷ unpins 2 ∷ unpins 3 ∷ unpins 1 ∷ pins 2 ∷ victims ∷ victims ∷ victims ∷ []

victims_in_order :
    (run calls (init 4)).1 ≡ none ∷ none ∷ none ∷ none ∷ none ∷ some 1 ∷ some 3 ∷ none ∷ []
unfolding run step evicted init victim pin unpin back pop_back erase_node
victims_in_order = refl

run-refines_example :
    ((run calls (init 4)).1 ≡ (spec_run calls []).1)
    × (frames (run calls (init 4)).0 ≡ (spec_run calls []).0)
    × (size (run calls (init 4)).0 ≡ length (spec_run calls []).0)
    × IsDistinct (spec_run calls []).0
run-refines_example = run-refines 4 calls
