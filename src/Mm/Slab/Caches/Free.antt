-- ===== src/Mm/Slab/Caches/Free.antt =====
-- A free of an object that was taken puts its slab back.
use oscomp.Common.{
  ℕ, suc, ◌+◌, ◌*◌, ◌%◌, ◌^◌, ◌≤◌, ◌<◌, ◌==◌, leb, Bool, true, false, Option, none, some, get_or,
  ◌≡◌, refl, sym, ◌∙◌, ap, arith, ==_iff, ==_self, ==_ne, lt→leb, Bool-cases, inl, inr, First, scan,
  scan-First,
}
use native.Mathlib.Nat.{mul-le-mul_right}
use oscomp.Bitmap.{is_set}
use oscomp.Mm.Space.{page_size}
use oscomp.Mm.Slab.{Slab, header_size, slab_sizes, index_to_obj, obj_index}
use oscomp.Mm.Slab.Object.{Taken, Given, give_object-Given}
use oscomp.Mm.Slab.Sizes.{obj_index-index_to_obj}
use oscomp.Mm.Slab.Cache.{slab_free_obj}
use oscomp.Mm.Slab.Cache.Laws.{given_to-slabs, slab_free_obj-given}
use oscomp.Mm.Slab.Caches.{
  Allocator, cache_at, with_cache, find_slab, has_size, freed, free_to, slab_free,
}

-- A slab of objects of `size` bytes on an aligned page, inside of which the objects lie.
pub record IsPlaced (size p : ℕ) (h : Slab) : Type 0 where
  pub aligned : p % 4096 ≡ 0
  pub above : 0 < p
  pub sized : h.obj_size ≡ size
  pub inside : header_size + h.total_count * h.obj_size ≤ page_size

abbrev pub HasSizes : Allocator → Type 0
HasSizes s = (j : ℕ) → j < 8 → (cache_at s j).obj_size ≡ get_or slab_sizes j 0

-- The slab at `p` has its objects and its count as in `before` again, and the free has succeeded.
abbrev pub IsRestored : ℕ → Slab → Option (Allocator × Bool × Option ℕ) → Type 0
IsRestored p before result =
    (s' : Allocator) × (given_up : Option ℕ) × (result ≡ some (s', true, given_up))
    × ((i : ℕ) → i < before.total_count → is_set (s'.headers p).bitmap i ≡ is_set before.bitmap i)
    × ((s'.headers p).free_count ≡ before.free_count)

slab_of-address :
    (p k total size : ℕ)
    → p % 4096 ≡ 0
    → header_size + total * size ≤ page_size
    → k < total
    → 0 < size
    → find_slab (index_to_obj p size k) ≡ p
unfolding index_to_obj
slab_of-address p k total size aligned inside below pos =
    let more : suc k * size ≤ total * size = mul-le-mul_right size (omega arith) in
    omega (arith, more)

slab_free-at :
    (s : Allocator) (obj p k : ℕ)
    → find_slab obj ≡ p
    → (obj == 0) ≡ false
    → obj_index p (s.headers p).obj_size obj ≡ k
    → leb (s.headers p).total_count k ≡ false
    → slab_free s obj ≡ free_to s p obj (scan (has_size s (s.headers p).obj_size) 8 0)
unfolding slab_free
slab_free-at s obj p k there pos index inside = rw (there, pos, index, inside) refl

-- Index `k` was taken from `before`: the bits are restored.
Given-Taken :
    (before h h' : Slab) (k : ℕ)
    → Taken before h k
    → Given h h' k
    → ((i : ℕ) → i < before.total_count → is_set h'.bitmap i ≡ is_set before.bitmap i)
      × (h'.free_count ≡ before.free_count)
Given-Taken before h h' k t g = (
  λ i l. elim (Bool-cases (k == i)) [
    | inl e ↦
        let same : k ≡ i = (==_iff k i).0 e in
        g.bits i ∙ rw e (sym t.was_free.1 ∙ ap (is_set before.bitmap) same)
    | inr e ↦ g.bits i ∙ rw e (t.bits i l ∙ rw e refl)
  ],
  omega (arith, t.count, g.count),
)

free_to-IsRestored :
    (s : Allocator) (p k obj : ℕ) (before : Slab) (i : ℕ) (r : Option ℕ)
    → HasSizes s
    → i < 8
    → get_or slab_sizes i 0 ≡ (s.headers p).obj_size
    → obj_index p (s.headers p).obj_size obj ≡ k
    → Taken before (s.headers p) k
    → First (has_size s (s.headers p).obj_size) 0 8 r
    → IsRestored p before (free_to s p obj r)
unfolding free_to slab_free_obj
free_to-IsRestored s p k obj before i none sizes small at index t f =
    let found : has_size s (s.headers p).obj_size i ≡ true =
      rw (sizes i small, at) (==_self (s.headers p).obj_size) in
    absurd (cc (found, f i (omega arith) small))
free_to-IsRestored s p k obj before i (some j) sizes small at index t f =
    let h = s.headers p in
    let used : is_set h.bitmap k ≡ true = t.bits k t.was_free.0 ∙ ground arith in
    let (h', e, g) = give_object-Given h k t.valid (omega (arith, t.same.0, t.was_free.0)) used in
    let (c', given_up, e', here) = given_to-slabs (cache_at s j) p h' in
    let (bits, count) = Given-Taken before h h' k t g in
    (
      with_cache s j c',
      given_up,
      ap (freed s j) (slab_free_obj-given (cache_at s j) p obj k h' index e ∙ e'),
      rw here bits,
      rw here count,
    )

pub slab_free-IsRestored :
    (s : Allocator) (p k : ℕ) (before : Slab) (size i : ℕ)
    → HasSizes s
    → i < 8
    → get_or slab_sizes i 0 ≡ size
    → 0 < size
    → before.total_count ≤ 32
    → IsPlaced size p before
    → Taken before (s.headers p) k
    → IsRestored p before (slab_free s (index_to_obj p before.obj_size k))
slab_free-IsRestored s p k before size i sizes small at pos few placed t =
    let h = s.headers p in
    let obj = index_to_obj p before.obj_size k in
    let there : find_slab obj ≡ p =
      slab_of-address p k before.total_count before.obj_size placed.aligned placed.inside
        t.was_free.0 (omega (arith, placed.sized)) in
    let nonzero : (obj == 0) ≡ false =
      ==_ne obj 0 (λ z. absurd (omega (arith, there, z, placed.above))) in
    let index : obj_index p h.obj_size obj ≡ k =
      index_of-address p h.obj_size before.obj_size k t.same.1 (omega (arith, placed.sized))
        (omega (arith, t.was_free.0)) in
    let inside : leb h.total_count k ≡ false =
      lt→leb k h.total_count (omega (arith, t.same.0, t.was_free.0)) in
    rw (slab_free-at s obj p k there nonzero index inside) (
      free_to-IsRestored s p k obj before i (scan (has_size s h.obj_size) 8 0) sizes small
        (at ∙ sym placed.sized ∙ sym t.same.1) index t
        (scan-First (has_size s h.obj_size) 8 0 8 refl))
  where
    index_of-address :
        (p size size' k : ℕ)
        → size ≡ size'
        → 0 < size'
        → k < 2 ^ 32
        → obj_index p size (index_to_obj p size' k) ≡ k
    index_of-address p size size' k e pos l =
        let here : index_to_obj p size' k + 0 ≡ index_to_obj p size' k = omega arith in
        rw e (ap (obj_index p size') (sym here) ∙ obj_index-index_to_obj p size' k 0 pos l)
