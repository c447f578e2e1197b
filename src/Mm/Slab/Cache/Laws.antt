-- ===== src/Mm/Slab/Cache/Laws.antt =====
-- What a cache gives out.
use oscomp.Common.{
  ℕ, suc, ◌+◌, ◌-◌, ◌*◌, ◌/◌, ◌%◌, ◌^◌, ◌≤◌, ◌<◌, ◌==◌, Option, none, some, List, [], ◌∷◌,
  length-replicate, ◌≡◌, refl, ◌∙◌, ap, ltb, arith, ==_self, Bool-cases, inl, inr, sym,
}
use native.Mathlib.Nat.{le-div_iff_mul-le, div-lt_iff_lt-mul}
use oscomp.Mm.Space.{page_size}
use oscomp.Mm.Space.Areas.{All}
use oscomp.Mm.Slab.{Slab, slab_header_init, header_size, index_to_obj, obj_index, give_object}
use oscomp.Mm.Slab.Count.{clear_count-replicate}
use oscomp.Mm.Slab.Object.{IsValid, Taken, take_object-Taken}
use oscomp.Mm.Slab.Cache.{
  Cache, update_slab, refill, given_to, trim, list_del, slab_free_obj, choose_slab, taken_from,
  alloc_partial, alloc_chosen, slab_alloc_obj,
}

-- A slab of few objects with a free one.
pub record IsReady (s : Slab) : Type 0 where
  pub valid : IsValid s
  pub few : s.total_count ≤ 32
  pub some_free : 0 < s.free_count

-- A fresh slab of objects of 128 bytes or more is ready.
pub slab_header_init-IsReady :
    (size : ℕ) → 128 ≤ size → size ≤ 2048 → IsReady (slab_header_init size)
unfolding slab_header_init
slab_header_init-IsReady size low high =
    let o = (size + 7) / 8 * 8 in
    let bits = page_size / o in
    let bytes = (bits + 7) / 8 in
    let total = (page_size - header_size - bytes) / o in
    let o_low : 128 ≤ o = omega arith in
    let o_high : o ≤ 2048 = omega arith in
    let bits_few : bits < 33 =
      at_most 32 page_size o (omega (arith, o_low)) (omega (arith, o_low)) in
    let total_few : total < 33 =
      at_most 32 (page_size - header_size - bytes) o (omega (arith, o_low))
        (omega (arith, o_low)) in
    let one : 1 ≤ total =
      (le-div_iff_mul-le (omega (arith, o_low))).1 (omega (arith, o_high, bits_few)) in
    let whole : total * o ≤ page_size - header_size - bytes =
      (le-div_iff_mul-le (omega (arith, o_low))).0 (omega arith) in
    let enough : total ≤ bits =
      (le-div_iff_mul-le (omega (arith, o_low))).1 (omega (arith, whole)) in
    record {
      valid = record {
        room = omega (arith, enough, length-replicate {A = ℕ} bytes 0);
        bound = omega (arith, total_few);
        counted = sym (clear_count-replicate bytes total);
      };
      few = omega (arith, total_few);
      some_free = one;
    }
  where
    at_most : (k x o : ℕ) → 0 < o → x < suc k * o → x / o < suc k
    at_most k x o p h = (div-lt_iff_lt-mul {k = o} {x = x} {y = suc k} p).1 h

-- Every slab that is not full has a free object.
abbrev pub IsStocked : Cache → Type 0
IsStocked c =
    All (λ p. IsReady (c.slabs p)) c.slabs_partial × All (λ p. IsReady (c.slabs p)) c.slabs_free

-- `addr` is that of an object in the slab at `p` of `c'`, which was `before`: it was free and is marked
-- now. The objects of the cache have the same size as before.
abbrev pub Object : ℕ → ℕ → Slab → Cache → ℕ → Type 0
Object size p before c' addr =
    (k : ℕ) × IsReady before
    × Taken before (c'.slabs p) k
    × (addr ≡ index_to_obj p before.obj_size k)
    × (c'.obj_size ≡ size)

Taken-Object :
    (c' : Cache) (p k : ℕ) (before s : Slab)
    → IsReady before
    → Taken before s k
    → c'.slabs p ≡ s
    → Object c'.obj_size p before c' (index_to_obj p s.obj_size k)
Taken-Object c' p k before s r t e = (k, r, rw e t, rw t.same.1 refl, refl)

alloc_partial-Object :
    (c : Cache) (p : ℕ) (ps : List ℕ)
    → IsReady (c.slabs p)
    → (c' : Cache) × (addr : ℕ) × (alloc_partial c (p ∷ ps) ≡ some (c', some addr))
      × Object c.obj_size p (c.slabs p) c' addr
unfolding alloc_partial taken_from
alloc_partial-Object c p ps r =
    let (s, k, e, t) = take_object-Taken (c.slabs p) r.valid r.few r.some_free in
    let at : update_slab c.slabs p s p ≡ s = rw (==_self p) refl in
    elim (Bool-cases (s.free_count == 0)) [
      | inl z ↦ (
        full s,
        index_to_obj p s.obj_size k,
        rw (e, z) refl,
        Taken-Object (full s) p k (c.slabs p) s r t at,
      )
      | inr z ↦ (
        counted s,
        index_to_obj p s.obj_size k,
        rw (e, z) refl,
        Taken-Object (counted s) p k (c.slabs p) s r t at,
      )
    ]
  where
    counted : Slab → Cache
    counted s = record c {
      slabs = update_slab c.slabs p s;
      free_objects = (c.free_objects + (2 ^ 32 - 1)) % 2 ^ 32;
    }

    full : Slab → Cache
    full s = record (counted s) { slabs_partial = ps; slabs_full = p ∷ c.slabs_full }

-- The slab that an object is taken from: the first partial one, the first free one, or a fresh one on
-- the page.
abbrev pub IsChosen : Cache → List ℕ → List ℕ → Option ℕ → ℕ → Slab → Type 0
IsChosen c (p ∷ ps) free page q before = (q ≡ p) × (before ≡ c.slabs p)
IsChosen c [] (p ∷ ps) page q before = (q ≡ p) × (before ≡ c.slabs p)
IsChosen c [] [] page q before = (some q ≡ page) × (before ≡ slab_header_init c.obj_size)

abbrev pub Returned : Cache → List ℕ → List ℕ → Option ℕ → Cache → Option ℕ → Type 0
Returned c partial free page c' none = (page ≡ none) × (partial ≡ []) × (free ≡ [])
Returned c partial free page c' (some addr) =
    (p : ℕ) × (before : Slab) × IsChosen c partial free page p before
    × Object c.obj_size p before c' addr

-- What `slab_alloc_obj` returns, with the lists and the page that it had: null only if there is nothing,
-- and never a panic.
abbrev pub Outcome : Cache → List ℕ → List ℕ → Option ℕ → Option (Cache × Option ℕ) → Type 0
Outcome c partial free page result =
    (c' : Cache) × (r : Option ℕ) × (result ≡ some (c', r)) × Returned c partial free page c' r

-- A cache of objects of 128 to 2048 bytes, in which every slab that is not full has a free object:
-- `slab_alloc_obj` does not panic. It returns null only if both lists are empty and there is no page;
-- else the address of an object that was free, in the first partial slab, the first free slab or a fresh
-- one, and which it has marked and counted.
pub slab_alloc_obj-Object :
    (c : Cache) (page : Option ℕ)
    → IsStocked c
    → 128 ≤ c.obj_size
    → c.obj_size ≤ 2048
    → Outcome c c.slabs_partial c.slabs_free page (slab_alloc_obj c page)
unfolding slab_alloc_obj choose_slab refill alloc_chosen
slab_alloc_obj-Object c page stocked low high =
    choose c.slabs_partial c.slabs_free page refl stocked.0 stocked.1
  where
    given :
        (partial free : List ℕ) (page : Option ℕ) (d : Cache) (l : List ℕ) (p : ℕ) (ps : List ℕ)
        → l ≡ p ∷ ps
        → IsReady (d.slabs p)
        → d.obj_size ≡ c.obj_size
        → IsChosen c partial free page p (d.slabs p)
        → Outcome c partial free page (alloc_partial d l)
    given partial free page d l p ps at r size from =
        let (c', addr, e, (k, o, t, a, s)) = alloc_partial-Object d p ps r in
        (c', some addr, rw at e, (p, d.slabs p, from, (k, o, t, a, s ∙ size)))

    choose :
        (partial free : List ℕ) (page : Option ℕ)
        → c.slabs_partial ≡ partial
        → All (λ p. IsReady (c.slabs p)) partial
        → All (λ p. IsReady (c.slabs p)) free
        → Outcome c partial free page (alloc_chosen c (choose_slab c partial free page))
    choose (p ∷ ps) free page e (r, rs) gs =
        given (p ∷ ps) free page c c.slabs_partial p ps e r refl (refl, refl)
    choose [] (p ∷ ps) page e rs (g, gs) =
        given [] (p ∷ ps) page (record c { slabs_partial = p ∷ []; slabs_free = ps }) (p ∷ []) p []
          refl g refl (refl, refl)
    choose [] [] none e rs gs = (c, none, refl, (refl, refl, refl))
    choose [] [] (some p) e rs gs =
        let fresh = slab_header_init c.obj_size in
        let at : update_slab c.slabs p fresh p ≡ fresh = rw (==_self p) refl in
        given [] [] (some p)
          (record c {
            slabs_partial = p ∷ [];
            slabs = update_slab c.slabs p (slab_header_init c.obj_size);
          })
          (p ∷ []) p [] refl (rw at (slab_header_init-IsReady c.obj_size low high)) refl (refl, at)

trim-slabs : (c : Cache) (total : ℕ) → (trim c total).0.slabs ≡ c.slabs
unfolding trim list_del
trim-slabs c total = elim (Bool-cases (ltb (2 * total % 2 ^ 32) c.free_objects)) [
  | inl many ↦ rw many refl
  | inr few ↦ rw few refl
]

-- The slab is given to its cache, whatever list it moves to.
pub given_to-slabs :
    (c : Cache) (p : ℕ) (h : Slab)
    → (c' : Cache) × (page : Option ℕ) × (given_to c p (some h) ≡ some (c', page))
      × (c'.slabs p ≡ h)
unfolding given_to trim list_del
given_to-slabs c p h =
    let at : update_slab c.slabs p h p ≡ h = rw (==_self p) refl in
    let counted = record c {
      slabs = update_slab c.slabs p h;
      free_objects = (c.free_objects + 1) % 2 ^ 32;
    } in
    let away = list_del counted p in
    let back = record away { slabs_free = p ∷ away.slabs_free } in
    elim (Bool-cases (h.free_count == 1)) [
      | inl one ↦ (record away { slabs_partial = p ∷ away.slabs_partial }, none, rw one refl, at)
      | inr more ↦ elim (Bool-cases (h.free_count == h.total_count)) [
        | inr some_used ↦ (counted, none, rw (more, some_used) refl, at)
        | inl unused ↦ (
          (trim back h.total_count).0,
          (trim back h.total_count).1,
          rw (more, unused) refl,
          ap (λ f. f p) (trim-slabs back h.total_count) ∙ at,
        )
      ]
    ]

pub slab_free_obj-given :
    (c : Cache) (p obj k : ℕ) (h : Slab)
    → obj_index p (c.slabs p).obj_size obj ≡ k
    → give_object (c.slabs p) k ≡ some h
    → slab_free_obj c p obj ≡ given_to c p (some h)
unfolding slab_free_obj
slab_free_obj-given c p obj k h index e = rw (index, e) refl
