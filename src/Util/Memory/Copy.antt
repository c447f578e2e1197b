-- ===== src/Util/Memory/Copy.antt =====
-- What the copies leave in memory.
use oscomp.Common.{
  ℕ, zero, suc, ◌+◌, ◌-◌, ◌*◌, ◌/◌, ◌%◌, ◌≤◌, ◌<◌, ◌==◌, bit_or, ltb, leb, true, false, ◌&&◌, ◌⊎◌,
  inl, inr, if◌then◌else◌, ◌≡◌, refl, ◌∙◌, arith, Bool-cases,
}
use oscomp.Util.Memory.{Memory, write, copy_up, copy_down, memmove, copy_word, copy_words, memcpy}

-- The memory after `n` bytes went from `s` to `d` at once.
abbrev pub moved : Memory → ℕ → ℕ → ℕ → Memory
moved m d s n b = if leb d b && ltb b (d + n) then m (s + (b - d)) else m b

step_up :
    (m : Memory) (d s n b : ℕ)
    → (d ≤ s) ⊎ (s + suc n ≤ d)
    → moved (write m d (m s)) (d + 1) (s + 1) n b ≡ moved m d s (suc n) b
step_up m d s n b h = elim (Bool-cases (ltb d b)) [
  | inl t ↦
      let below : d < b = ground arith in
      let from : s + 1 + (b - (d + 1)) ≡ s + (b - d) = omega arith in rw from (ground arith)
  | inr t ↦ elim (Bool-cases (d == b)) [
    | inl e ↦
        let same : d ≡ b = ground arith in
        let from : s + (b - d) ≡ s = omega arith in rw (from, same) (ground arith)
    | inr e ↦ ground arith
  ]
]

copy_up_lem :
    (m : Memory) (d s n b : ℕ) → (d ≤ s) ⊎ (s + n ≤ d) → copy_up m d s n b ≡ moved m d s n b
unfolding copy_up
copy_up_lem m d s zero b h = ground arith
copy_up_lem m d s (suc n) b (inl h) =
    copy_up_lem (write m d (m s)) (d + 1) (s + 1) n b (inl (omega arith))
    ∙ step_up m d s n b (inl h)
copy_up_lem m d s (suc n) b (inr h) =
    copy_up_lem (write m d (m s)) (d + 1) (s + 1) n b (inr (omega arith))
    ∙ step_up m d s n b (inr h)

step_down :
    (m : Memory) (d s n b : ℕ)
    → s ≤ d
    → moved (write m (d + n) (m (s + n))) d s n b ≡ moved m d s (suc n) b
step_down m d s n b h = elim (Bool-cases (d + n == b)) [
  | inl e ↦
      let same : d + n ≡ b = ground arith in
      let from : s + (b - d) ≡ s + n = omega arith in rw from (ground arith)
  | inr e ↦ ground arith
]

copy_down_lem : (m : Memory) (d s n b : ℕ) → s ≤ d → copy_down m d s n b ≡ moved m d s n b
unfolding copy_down
copy_down_lem m d s zero b h = ground arith
copy_down_lem m d s (suc n) b h =
    copy_down_lem (write m (d + n) (m (s + n))) d s n b h ∙ step_down m d s n b h

-- `memmove` copies the bytes as they were before the call, however the regions overlap, and changes no
-- byte outside of the destination.
pub memmove-moved : (m : Memory) (dst src n b : ℕ) → memmove m dst src n b ≡ moved m dst src n b
unfolding memmove
memmove-moved m dst src n b = elim (Bool-cases (ltb src dst && ltb dst (src + n))) [
  | inl t ↦ rw t (copy_down_lem m dst src n b (ground arith))
  | inr t ↦ rw t (copy_up_lem m dst src n b (apart t))
]
  where
    apart : (ltb src dst && ltb dst (src + n)) ≡ false → (dst ≤ src) ⊎ (src + n ≤ dst)
    apart t = ground arith

moved_cong :
    (m m' : Memory) (d s n b : ℕ) → ((a : ℕ) → m a ≡ m' a) → moved m d s n b ≡ moved m' d s n b
moved_cong m m' d s n b h = rw (h (s + (b - d)), h b) refl

-- Moving `j` bytes and then the next `k` is moving `j + k`.
moved-moved :
    (m : Memory) (d s j k b : ℕ)
    → (d ≤ s) ⊎ (s + (j + k) ≤ d)
    → moved (moved m d s j) (d + j) (s + j) k b ≡ moved m d s (j + k) b
moved-moved m d s j k b h = elim (Bool-cases (leb (d + j) b && ltb b (d + j + k))) [
  | inl t ↦
      let from : s + j + (b - (d + j)) ≡ s + (b - d) = ground arith in
      let kept : (leb d (s + (b - d)) && ltb (s + (b - d)) (d + j)) ≡ false = ground arith in
      let inside : (leb d b && ltb b (d + (j + k))) ≡ true = ground arith in
      rw (t, from, kept, inside) refl
  | inr t ↦
      let same : (leb d b && ltb b (d + (j + k))) ≡ (leb d b && ltb b (d + j)) = ground arith in
      rw (t, same) refl
]

copy_words_lem :
    (m : Memory) (d s n b : ℕ)
    → (d ≤ s) ⊎ (s + n * 8 ≤ d)
    → copy_words m d s n b ≡ moved m d s (n * 8) b
unfolding copy_words
copy_words_lem m d s zero b h = ground arith
copy_words_lem m d s (suc n) b h =
    let whole : 8 + n * 8 ≡ suc n * 8 = omega arith in
    copy_words_lem (copy_word m d s) (d + 8) (s + 8) n b (later h)
    ∙ moved-moved m d s 8 (n * 8) b (rw whole h)
    ∙ rw whole refl
  where
    later : (d ≤ s) ⊎ (s + suc n * 8 ≤ d) → (d + 8 ≤ s + 8) ⊎ (s + 8 + n * 8 ≤ d + 8)
    later (inl h) = inl (omega arith)
    later (inr h) = inr (omega arith)

-- `memcpy` copies the bytes as they were before the call and changes no byte outside of the destination,
-- whether it copies words or bytes, if the source does not start before the destination or ends before
-- it.
pub memcpy-moved :
    (m : Memory) (dest src len b : ℕ)
    → (dest ≤ src) ⊎ (src + len ≤ dest)
    → memcpy m dest src len b ≡ moved m dest src len b
unfolding memcpy
memcpy-moved m dest src len b h = elim (Bool-cases (bit_or dest src % 8 == 0)) [
  | inl t ↦
      let q = len / 8 * 8 in
      let whole : q + len % 8 ≡ len = omega arith in
      rw t (
        copy_up_lem (copy_words m dest src (len / 8)) (dest + q) (src + q) (len % 8) b (rest h)
        ∙ moved_cong (copy_words m dest src (len / 8)) (moved m dest src q) (dest + q) (src + q)
            (len % 8) b (λ a. copy_words_lem m dest src (len / 8) a (words h))
        ∙ moved-moved m dest src q (len % 8) b (rw whole h)
        ∙ rw whole refl)
  | inr t ↦ rw t (copy_up_lem m dest src len b h)
]
  where
    rest :
        (dest ≤ src) ⊎ (src + len ≤ dest)
        → (dest + len / 8 * 8 ≤ src + len / 8 * 8)
          ⊎ (src + len / 8 * 8 + len % 8 ≤ dest + len / 8 * 8)
    rest (inl h) = inl (omega arith)
    rest (inr h) = inr (omega arith)

    words : (dest ≤ src) ⊎ (src + len ≤ dest) → (dest ≤ src) ⊎ (src + len / 8 * 8 ≤ dest)
    words (inl h) = inl h
    words (inr h) = inr (omega arith)
