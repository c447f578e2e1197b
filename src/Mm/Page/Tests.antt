-- ===== src/Mm/Page/Tests.antt =====
-- A memory of 16 frames, and the set-up of a small machine.
use oscomp.Common.{ℕ, ◌+◌, ◌*◌, ◌<◌, ◌≡◌, refl, true, false, none, some, [], ◌∷◌, arith}
use oscomp.Common.Bits.{test_bit, set_bit, clear_bit}
use oscomp.Mm.Page.{
  Page, Pool, alloc_page, trylock_page, unlock_page, set_page_dirty, clear_page_dirty,
  test_page_dirty, get_page,
}
use oscomp.Mm.Page.Alloc.{IsFree, IsFrame, Allocated, alloc_page-Allocated}

abbrev blank : Page
blank = record {
  flags = 0;
  mapping = none;
  refcount = 0;
  index = 0;
  kmalloc_size = 0;
  paddr = 0;
  locked = false;
}

abbrev pool : Pool
pool = record {
  base = 40960;
  size = 65536;
  total = 16;
  free = some (49152 ∷ 45056 ∷ []);
  counter = 2;
  pages = λ _. blank;
}

pool-IsFree : IsFree pool (49152 ∷ 45056 ∷ [])
pool-IsFree = record {
  linked = refl;
  frames = (frame 2 (omega arith), (frame 1 (omega arith), tt));
  distinct = (((λ e. omega arith), tt), (tt, tt));
  counted = refl;
  bounded = omega arith;
  covered = omega arith;
  base_pos = omega arith;
}
  where
    frame : (k : ℕ) → k < 16 → IsFrame 40960 65536 (40960 + k * 4096)
    frame k lt = record { aligned = omega arith; above = omega arith; below = omega arith }

alloc_page-Allocated_example :
    Allocated (λ a. a) pool (49152 ∷ 45056 ∷ []) (alloc_page (λ a. a) pool)
alloc_page-Allocated_example = alloc_page-Allocated (λ a. a) pool (49152 ∷ 45056 ∷ []) pool-IsFree

-- A page that is locked is not locked again.
trylock_twice : (trylock_page (trylock_page pool (some 3)).0 (some 3)).1 ≡ false
unfolding trylock_page
trylock_twice = refl

dirty_page : test_page_dirty (set_page_dirty (get_page pool (some 3)) (some 3)) (some 3) ≡ true
unfolding test_page_dirty set_page_dirty get_page test_bit set_bit
dirty_page = refl

clean_page :
    test_page_dirty (clear_page_dirty (set_page_dirty pool (some 3)) (some 3)) (some 3) ≡ false
unfolding test_page_dirty set_page_dirty clear_page_dirty test_bit set_bit clear_bit
clean_page = refl

unlocked_page :
    (trylock_page (unlock_page (trylock_page pool (some 3)).0 (some 3)) (some 3)).1 ≡ true
unfolding trylock_page unlock_page
unlocked_page = refl
