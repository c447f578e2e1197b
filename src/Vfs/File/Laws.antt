-- ===== src/Vfs/File/Laws.antt =====
-- What taking and dropping a reference do to the counts.
use oscomp.Common.{
  ℕ, zero, suc, ◌+◌, ◌-◌, ◌<◌, ◌==◌, ◌≡◌, refl, Option, none, some, Bool, false, arith,
  if◌then◌else◌,
}
use oscomp.Common.Errno.{ok, fail, ebadf}
use oscomp.Vfs.File.{Refs, update, file_ref, file_unref, drop_ref}

-- The entry `o` is the file `f`.
abbrev pub is_file : Option ℕ → ℕ → Bool
is_file none f = false
is_file (some g) f = g == f

-- Each file has one reference less if it is the one in `o`.
abbrev pub Dropped : Refs → Option ℕ → Refs → Type 0
Dropped r o r' = (f : ℕ) → r' f ≡ (if is_file o f then r f - 1 else r f)

-- Dropping a reference that is held returns 0 for the last one and -EBADF for any other.
pub file_unref-Dropped :
    (r : Refs) (f : ℕ)
    → 0 < r f
    → (r' : Refs) × (file_unref r (some f) ≡ some (r', if r f == 1 then ok 0 else fail ebadf))
      × Dropped r (some f) r'
unfolding file_unref
file_unref-Dropped r f h = go (r f) refl h
  where
    go :
        (n : ℕ)
        → r f ≡ n
        → 0 < n
        → (r' : Refs) × (drop_ref r f n ≡ some (r', if n == 1 then ok 0 else fail ebadf))
          × Dropped r (some f) r'
    go zero e p = absurd (omega arith)
    go (suc zero) e p = (update r f 0, refl, λ g. ground arith)
    go (suc (suc n)) e p = (update r f (suc n), ground arith, λ g. ground arith)

-- Each file has one reference more if it is the one in `o`.
abbrev pub Raised : Refs → Option ℕ → Refs → Type 0
Raised r o r' = (f : ℕ) → r' f ≡ (if is_file o f then r f + 1 else r f)

pub file_ref-Raised :
    (r : Refs) (f : ℕ)
    → 0 < r f
    → (r' : Refs) × (file_ref r (some f) ≡ some (r', some f)) × Raised r (some f) r'
unfolding file_ref
file_ref-Raised r f h = (update r f (r f + 1), ground arith, λ g. ground arith)

pub file_ref_freed : (r : Refs) (f : ℕ) → r f ≡ 0 → file_ref r (some f) ≡ none
unfolding file_ref
file_ref_freed r f h = ground arith
