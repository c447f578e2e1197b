-- ===== src/Util/Memory.antt =====
-- Bytes in memory, kernel/util/string.c. A region does not wrap around the address space, and a string
-- ends within the fuel that a search for its end is given.
pub mod Copy
pub mod Compare
pub mod Strings
mod Tests
use oscomp.Common.{
  ℕ, zero, suc, ◌+◌, ◌-◌, ◌*◌, ◌/◌, ◌%◌, ◌==◌, bit_or, ltb, leb, Bool, true, false, not, ◌&&◌, ◌||◌,
  Option, none, some, if◌then◌else◌, scan,
}
use oscomp.Common.Int.{ℤ, pos, negsuc}

-- The byte at each address.
abbrev pub Memory : Type 0
Memory = ℕ → ℕ

abbrev pub write : Memory → ℕ → ℕ → Memory
write m a v b = if a == b then v else m b

-- `while (n-- > 0) *d++ = *s++;`
pub copy_up : Memory → ℕ → ℕ → ℕ → Memory
copy_up m d s zero = m
copy_up m d s (suc n) = copy_up (write m d (m s)) (d + 1) (s + 1) n

-- `while (n-- > 0) *--d = *--s;`, from the ends of the regions at `d` and `s`
pub copy_down : Memory → ℕ → ℕ → ℕ → Memory
copy_down m d s zero = m
copy_down m d s (suc n) = copy_down (write m (d + n) (m (s + n))) d s n

pub memmove : Memory → ℕ → ℕ → ℕ → Memory
unfolding copy_up copy_down
memmove m dst src n =
    if ltb src dst && ltb dst (src + n) then copy_down m dst src n else copy_up m dst src n

-- `*(uintptr_t*)d = *(const uintptr_t*)s`: the eight bytes are read before they are written.
abbrev pub copy_word : Memory → ℕ → ℕ → Memory
copy_word m d s b = if leb d b && ltb b (d + 8) then m (s + (b - d)) else m b

-- The loop over `n` words.
pub copy_words : Memory → ℕ → ℕ → ℕ → Memory
copy_words m d s zero = m
copy_words m d s (suc n) = copy_words (copy_word m d s) (d + 8) (s + 8) n

pub memcpy : Memory → ℕ → ℕ → ℕ → Memory
unfolding copy_words copy_up
memcpy m dest src len =
    if bit_or dest src % 8 == 0
    then copy_up (copy_words m dest src (len / 8)) (dest + len / 8 * 8) (src + len / 8 * 8)
        (len % 8)
    else copy_up m dest src len

-- `a - b`, as an `int`
abbrev pub diff : ℕ → ℕ → ℤ
diff a b = if leb b a then pos (a - b) else negsuc (b - a - 1)

abbrev pub is_zero : ℤ → Bool
is_zero (pos n) = n == 0
is_zero (negsuc n) = false

-- The loop of `memcmp`.
pub compare_bytes : Memory → ℕ → ℕ → ℕ → ℤ
compare_bytes m p q zero = pos 0
compare_bytes m p q (suc n) =
    let rest = compare_bytes m (p + 1) (q + 1) n in
    if not (m p == m q) then diff (m p) (m q) else rest

pub memcmp : Memory → ℕ → ℕ → ℕ → ℤ
unfolding compare_bytes
memcmp m s1 s2 n = if s1 == s2 || n == 0 then pos 0 else compare_bytes m s1 s2 n

-- The loop of `strncmp`.
pub compare_chars : Memory → ℕ → ℕ → ℕ → ℤ
compare_chars m p q zero = pos 0
compare_chars m p q (suc n) =
    let rest = compare_chars m (p + 1) (q + 1) n in
    if not (m p == m q) || m p == 0 || m q == 0 then diff (m p) (m q) else rest

pub strncmp : Memory → ℕ → ℕ → ℕ → ℤ
unfolding compare_chars
strncmp m s1 s2 n = if n == 0 then pos 0 else compare_chars m s1 s2 n

-- `none` is a string that does not end within the fuel.
pub strlen : Memory → ℕ → ℕ → Option ℕ
strlen m s fuel = scan (λ i. m (s + i) == 0) fuel 0

-- `n` bytes are set to 0, from `d` on.
pub fill_zeros : Memory → ℕ → ℕ → Memory
fill_zeros m d zero = m
fill_zeros m d (suc n) = fill_zeros (write m d 0) (d + 1) n

-- Both loops of `strncpy`, with `n` bytes left.
pub strncpy : Memory → ℕ → ℕ → ℕ → Memory
unfolding fill_zeros
strncpy m dest src zero = m
strncpy m dest src (suc n) =
    let rest = strncpy (write m dest (m src)) (dest + 1) (src + 1) n in
    if m src == 0 then fill_zeros m dest (suc n) else rest

-- The outer `none` is a string that does not end within the fuel, the inner one null.
pub strchr : Memory → ℕ → ℕ → ℕ → Option (Option ℕ)
strchr m p ch zero = none
strchr m p ch (suc fuel) =
    let rest = strchr m (p + 1) ch fuel in
    if m p == ch % 256 then some (some p) else if m p == 0 then some none else rest

-- `none` is a string that does not end within the fuel.
pub strcpy : Memory → ℕ → ℕ → ℕ → Option Memory
strcpy m d s zero = none
strcpy m d s (suc fuel) =
    let rest = strcpy (write m d (m s)) (d + 1) (s + 1) fuel in
    if m s == 0 then some (write m d 0) else rest

pub strcat : Memory → ℕ → ℕ → ℕ → Option Memory
unfolding strlen strcpy
strcat m dst src fuel = elim (strlen m dst fuel) [
  | none ↦ none
  | some n ↦ strcpy m (dst + n) src fuel
]

-- `none` is a pair of strings that agree for longer than the fuel.
pub strcmp : Memory → ℕ → ℕ → ℕ → Option ℤ
strcmp m s1 s2 zero = none
strcmp m s1 s2 (suc fuel) =
    let rest = strcmp m (s1 + 1) (s2 + 1) fuel in
    if not (m s1 == 0) && (m s1 == m s2) then rest else some (diff (m s1) (m s2))
