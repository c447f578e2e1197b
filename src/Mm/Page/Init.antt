-- ===== src/Mm/Page/Init.antt =====
-- init_page_manager sets up a list of free frames.
use oscomp.Common.{
  ℕ, zero, suc, ◌+◌, ◌-◌, ◌*◌, ◌%◌, ◌^◌, ◌≤◌, ◌<◌, lt→leb, Option, some, List, [], ◌∷◌, length, ◌≡◌,
  ◌≢◌, refl, arith,
}
use oscomp.Mm.Space.Areas.{All, All-map}
use oscomp.Mm.Page.{
  Page, Pool, put_free_page, push_free, free_frames, mem_size, free_start, free_rounds, fresh_pool,
  init_page_manager, kern_base,
}
use oscomp.Mm.Page.Alloc.{IsFrame, IsFree, valid_frame}

abbrev pushed : Pool → ℕ → List ℕ → Pool
pushed s a l = record s { free = some (a ∷ l); counter = (s.counter + 1) % 2 ^ 64 }

put_free_page-pushed :
    (s : Pool) (a : ℕ) (l : List ℕ)
    → IsFree s l
    → IsFrame s.base s.size a
    → put_free_page s a ≡ some (pushed s a l)
unfolding put_free_page
put_free_page-pushed s a l v f = rw (valid_frame s a f) (push (s.free) v.linked)
  where
    push : (o : Option (List ℕ)) → o ≡ some l → push_free s a o ≡ some (pushed s a l)
    push o e = rw e refl

pushed-IsFree :
    (s : Pool) (a : ℕ) (l : List ℕ)
    → IsFree s l
    → IsFrame s.base s.size a
    → All (λ b. b ≢ a) l
    → length l + 1 < 2 ^ 64
    → IsFree (pushed s a l) (a ∷ l)
pushed-IsFree s a l v f new lt = record {
  linked = refl;
  frames = (f, v.frames);
  distinct = (new, v.distinct);
  counted = omega (arith, v.counted);
  bounded = omega arith;
  covered = v.covered;
  base_pos = v.base_pos;
}

-- The frames of the list lie from `lo` on and below `hi`.
abbrev Within : ℕ → ℕ → ℕ → Type 0
Within lo hi a = (lo ≤ a) × (a < hi)

free_frames-IsFree :
    (rounds i lo : ℕ) (s : Pool) (l : List ℕ)
    → IsFree s l
    → All (Within lo i) l
    → lo ≤ i
    → s.base ≤ i
    → i % 4096 ≡ 0
    → (0 < rounds → i + rounds * 4096 < s.base + s.size + 4096)
    → length l + rounds < 2 ^ 64
    → (s' : Pool) × (l' : List ℕ) × (free_frames rounds i s ≡ some s')
      × IsFree s' l'
      × All (Within lo (i + rounds * 4096)) l'
      × (length l' ≡ length l + rounds)
unfolding free_frames
free_frames-IsFree zero i lo s l v w le up al fits few = (
  s,
  l,
  refl,
  v,
  All-map _ _ l (λ a (p : Within lo i a). (p.0, omega (arith, p.1))) w,
  omega arith,
)
free_frames-IsFree (suc rounds) i lo s l v w le up al fits few =
    let room = fits (omega arith) in
    let f : IsFrame s.base s.size i = record { aligned = al; above = up; below = omega arith } in
    let new : All (λ b. b ≢ i) l =
      All-map _ _ l (λ a (p : Within lo i a) e. omega (arith, p.1)) w in
    let v' = pushed-IsFree s i l v f new (omega arith) in
    let w' : All (Within lo (i + 4096)) (i ∷ l) =
      ((le, omega arith), All-map _ _ l (λ a (p : Within lo i a). (p.0, omega (arith, p.1))) w) in
    let (s', l', e, free, within, count) =
      free_frames-IsFree rounds (i + 4096) lo (pushed s i l) (i ∷ l) v' w' (omega arith)
        (omega arith) (omega arith) (λ more. omega arith) (omega arith) in
    let shift : i + suc rounds * 4096 ≡ i + 4096 + rounds * 4096 = omega arith in
    (s', l', rw (put_free_page-pushed s i l v f) e, free, rw shift within, omega (arith, count))

fresh-IsFree : (info_size : ℕ) (pages : ℕ → Page) → IsFree (fresh_pool info_size pages) []
fresh-IsFree info_size pages = record {
  linked = refl;
  frames = tt;
  distinct = tt;
  counted = refl;
  bounded = omega arith;
  covered = omega arith;
  base_pos = omega arith;
}

-- If the image of the kernel ends at or behind KERN_BASE and fits the memory, init_page_manager
-- does not panic, and as many frames as begin between the structures of the pages and the end of the
-- memory are free, behind the structures, each once, and counted.
pub init_page_manager-IsFree :
    (kernel_end info_size struct_size : ℕ) (pages : ℕ → Page)
    → kern_base ≤ kernel_end
    → kernel_end - kern_base < mem_size info_size
    → let start = free_start kernel_end info_size struct_size in
      (s : Pool) × (l : List ℕ) × (init_page_manager kernel_end info_size struct_size pages
        ≡ some s)
      × IsFree s l
      × All (λ a. start ≤ a) l
      × (length l ≡ free_rounds start info_size)
unfolding init_page_manager
init_page_manager-IsFree kernel_end info_size struct_size pages le fits =
    let start = free_start kernel_end info_size struct_size in
    let rounds = free_rounds start info_size in
    let (s, l, e, free, within, count) =
      free_frames-IsFree rounds start start (fresh_pool info_size pages) []
        (fresh-IsFree info_size pages) tt (omega arith) (omega arith) (omega arith)
        (λ more. omega arith) (omega arith) in
    (
      s,
      l,
      rw (lt→leb (kernel_end - kern_base) (mem_size info_size) fits) e,
      free,
      All-map _ _ l (λ a (p : Within start (start + rounds * 4096) a). p.0) within,
      omega (arith, count),
    )
