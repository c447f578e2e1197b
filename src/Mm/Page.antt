-- ===== src/Mm/Page.antt =====
-- The physical pages of kernel/mm/page.c: the list of free pages and the structures of the pages.
use oscomp.Common.{
  ℕ, zero, suc, ◌+◌, ◌-◌, ◌*◌, ◌/◌, ◌%◌, ◌^◌, ◌==◌, ltb, leb, ◌||◌, not, min, Bool, true, false,
  if◌then◌else◌, Option, none, some, List, [], ◌∷◌,
}
use oscomp.Common.Bits.{set_bit, clear_bit, test_bit}
pub mod Alloc
pub mod Init
mod Tests

abbrev pub frame_size : ℕ
frame_size = 4096

-- `locked` is the state of page_lock.
pub record Page : Type 0 where
  pub flags : ℕ
  pub mapping : Option ℕ
  pub refcount : ℕ
  pub index : ℕ
  pub kmalloc_size : ℕ
  pub paddr : ℕ
  pub locked : Bool

-- The static variables. `free` is what free_page_list leads to, from its head on, or none where
-- the head leads nowhere. A page is named by its number.
pub record Pool : Type 0 where
  pub base : ℕ
  pub size : ℕ
  pub total : ℕ
  pub free : Option (List ℕ)
  pub counter : ℕ
  pub pages : ℕ → Page

abbrev pub init_page_struct : Page → Page
init_page_struct p = record p {
  flags = 0;
  refcount = 0;
  index = 0;
  paddr = 0;
  mapping = none;
  locked = false;
}

abbrev pub with_page : (ℕ → Page) → ℕ → Page → ℕ → Page
with_page pages i p j = if i == j then p else pages j

abbrev pub is_invalid : Pool → ℕ → Bool
is_invalid s addr = not (addr % 4096 == 0) || ltb addr s.base || leb (s.base + s.size) addr

-- The head of the list is not a page.
pub data Taken : Type 0 where
  page : ℕ → Taken
  head : Taken
  null : Taken

abbrev pub take_first : Pool → Option (List ℕ) → Pool × Taken
take_first s none = (s, null)
take_first s (some []) =
    (record s { free = none; counter = (s.counter + (2 ^ 64 - 1)) % 2 ^ 64 }, head)
take_first s (some (a ∷ l)) =
    (record s { free = some l; counter = (s.counter + (2 ^ 64 - 1)) % 2 ^ 64 }, page a)

-- The next of an empty circular list is its head, which list_del then cuts off from itself.
pub get_free_page_addr : Pool → Pool × Taken
get_free_page_addr s = take_first s s.free

abbrev pub push_free : Pool → ℕ → Option (List ℕ) → Option Pool
push_free s addr none = none
push_free s addr (some l) =
    some (record s { free = some (addr ∷ l); counter = (s.counter + 1) % 2 ^ 64 })

-- none is a panic, or a write through the null pointer of a list that was cut off.
pub put_free_page : Pool → ℕ → Option Pool
put_free_page s addr = if is_invalid s addr then none else push_free s addr s.free

pub pfn_to_page : Pool → ℕ → Option ℕ
pfn_to_page s pfn = if leb s.total pfn then none else some pfn

abbrev pub or_panic : Option Pool → (Pool → Option Pool) → Option Pool
or_panic none f = none
or_panic (some s) f = f s

-- The loop that frees the frames from `addr` on, one in each round.
pub free_frames : ℕ → ℕ → Pool → Option Pool
unfolding put_free_page
free_frames zero addr s = some s
free_frames (suc rounds) addr s =
    or_panic (put_free_page s addr) (λ s'. free_frames rounds (addr + 4096) s')

abbrev pub kern_base : ℕ
kern_base = 0x80200000

abbrev pub dram_base : ℕ
dram_base = 0x80000000

-- PKE_MAX_ALLOWABLE_RAM or the size that the device tree tells, rounded down.
abbrev pub mem_size : ℕ → ℕ
mem_size info_size = min (128 * 1024 * 1024) info_size / 4096 * 4096

-- ROUNDUP(a, PAGE_SIZE), which is 0 for 0 as well.
abbrev pub frames_up : ℕ → ℕ
frames_up a = (a + 4095) / 4096 * 4096

-- The first address behind the structures of the pages, of `struct_size` bytes each.
abbrev pub free_start : ℕ → ℕ → ℕ → ℕ
free_start kernel_end info_size struct_size =
    frames_up kernel_end + frames_up (mem_size info_size / 4096 * struct_size)

abbrev pub fresh_pool : ℕ → (ℕ → Page) → Pool
fresh_pool info_size pages = record {
  base = kern_base;
  size = mem_size info_size;
  total = mem_size info_size / 4096;
  free = some [];
  counter = 0;
  pages = λ i. if ltb i (mem_size info_size / 4096) then init_page_struct (pages i) else pages i;
}

-- The frames that begin between the structures and the end of the memory.
abbrev pub free_rounds : ℕ → ℕ → ℕ
free_rounds start info_size = (dram_base + mem_size info_size - start + 4095) / 4096

-- init_page_manager, where `pages` is what the memory of the structures held; none where the
-- kernel does not fit.
pub init_page_manager : ℕ → ℕ → ℕ → (ℕ → Page) → Option Pool
unfolding free_frames
init_page_manager kernel_end info_size struct_size pages =
    let start = free_start kernel_end info_size struct_size in
    if leb (mem_size info_size) (kernel_end - kern_base)
    then none
    else free_frames (free_rounds start info_size) start (fresh_pool info_size pages)

-- `lookup_pa` translates an address by the page table of the kernel.
module _ (lookup_pa : ℕ → ℕ) where
  abbrev pub physical : Pool → ℕ → ℕ
  physical s addr = if leb (s.base + s.size) addr then lookup_pa addr else addr

  -- none is a panic.
  pub get_pfn : Pool → ℕ → Option ℕ
  get_pfn s pa = if ltb pa s.base then none else some ((physical s pa - s.base) / 4096)

  abbrev pub page_of_pfn : Pool → Option ℕ → Option ℕ
  page_of_pfn s none = none
  page_of_pfn s (some pfn) = pfn_to_page s pfn

  pub addr_to_page : Pool → ℕ → Option ℕ
  unfolding get_pfn pfn_to_page
  addr_to_page s addr =
      let pa = physical s addr in if is_invalid s pa then none else page_of_pfn s (get_pfn s pa)

  abbrev pub set_up : Pool → ℕ → Option ℕ → Pool × Option ℕ
  set_up s pa none = (s, none)
  set_up s pa (some pfn) = (
    record s {
      pages =
          with_page s.pages pfn
            (record (init_page_struct (s.pages pfn)) { refcount = 1; paddr = pa });
    },
    some pfn,
  )

  -- none: the head of the list is taken for a page, and 4096 bytes of the kernel from it on are
  -- cleared.
  abbrev pub alloc_taken : Pool × Taken → Option (Pool × Option ℕ)
  alloc_taken (s, page pa) = some (if pa == 0 then (s, none) else set_up s pa (addr_to_page s pa))
  alloc_taken (s, head) = none
  alloc_taken (s, null) = some (s, none)

  pub alloc_page : Pool → Option (Pool × Option ℕ)
  unfolding get_free_page_addr addr_to_page
  alloc_page s = alloc_taken (get_free_page_addr s)

-- The page is cleared first, and its address with it.
abbrev pub release : Pool → ℕ → Option Pool
release s pfn =
    let p = init_page_struct (s.pages pfn) in
    put_free_page (record s { pages = with_page s.pages pfn p }) p.paddr

pub put_page : Pool → Option ℕ → Option Pool
unfolding put_free_page
put_page s none = some s
put_page s (some pfn) = if not ((s.pages pfn).refcount == 0) then some s else release s pfn

abbrev pub on_page : (Page → Page) → Pool → Option ℕ → Pool
on_page f s none = s
on_page f s (some pfn) = record s { pages = with_page s.pages pfn (f (s.pages pfn)) }

pub get_page : Pool → Option ℕ → Pool
get_page = on_page (λ p. record p { refcount = (p.refcount + 1) % 2 ^ 32 })

pub set_page_dirty : Pool → Option ℕ → Pool
set_page_dirty = on_page (λ p. record p { flags = set_bit p.flags 0 })

pub clear_page_dirty : Pool → Option ℕ → Pool
clear_page_dirty = on_page (λ p. record p { flags = clear_bit 64 p.flags 0 })

pub test_page_dirty : Pool → Option ℕ → Bool
test_page_dirty s none = false
test_page_dirty s (some pfn) = test_bit (s.pages pfn).flags 0

pub unlock_page : Pool → Option ℕ → Pool
unlock_page = on_page (λ p. record p { flags = clear_bit 64 p.flags 2; locked = false })

abbrev pub try_lock : Pool → ℕ → Bool → Pool × Bool
try_lock s pfn true = (s, false)
try_lock s pfn false =
    (on_page (λ p. record p { flags = set_bit p.flags 2; locked = true }) s (some pfn), true)

pub trylock_page : Pool → Option ℕ → Pool × Bool
trylock_page s none = (s, false)
trylock_page s (some pfn) = try_lock s pfn (s.pages pfn).locked
