-- ===== src/Vfs/Dentry/Paths.antt =====
-- The paths of dentries: dentry_allocFullPath and dentry_allocPath2Mount of kernel/fs/vfs/dentry.c. A
-- text is the list of its bytes, without the zero at its end. The references that a walk takes and
-- gives back on its way are left out. The outer `none` is a read of memory that was given back, or of
-- a name that is null.
pub mod Full
pub mod Mount
use oscomp.Common.{
  ℕ, zero, suc, ◌+◌, ◌-◌, ◌==◌, ltb, Bool, true, false, not, ◌&&◌, ◌||◌, Option, none, some, List,
  [], ◌∷◌, ◌++◌, length, if◌then◌else◌,
}
use oscomp.Common.Bits.{test_bit}
use oscomp.Vfs.Dentry.{Dentry, Dcache, dentry_at, dcache_mounted}

abbrev pub slash : ℕ
slash = 0x2F

-- The first pass: the size of the buffer, without the zero.
abbrev pub longer : Option (List ℕ) → Option ℕ → Option ℕ
longer (some n) (some k) = some (length n + 1 + k)
longer n k = none

abbrev pub measured_at : (ℕ → Option ℕ) → Option (List ℕ) → Option ℕ → Option ℕ
measured_at next n none = some 1
measured_at next n (some p) = longer n (next p)

abbrev pub measured : (ℕ → Option ℕ) → Option Dentry → Option ℕ
measured next none = none
measured next (some d) = measured_at next d.d_name d.d_parent

pub path_len : ℕ → Dcache → ℕ → Option ℕ
path_len zero c a = none
path_len (suc fuel) c a = measured (λ p. path_len fuel c p) (dentry_at c a)

-- At the root: the first byte is written, in front of an empty text or over the slash that is there.
abbrev pub with_root : List ℕ → List ℕ
with_root [] = slash ∷ []
with_root (x ∷ text) = slash ∷ text

abbrev pub prepended : (List ℕ → Option (List ℕ)) → Option (List ℕ) → List ℕ → Option (List ℕ)
prepended next none text = none
prepended next (some n) text = next (slash ∷ (n ++ text))

abbrev pub built_at :
    (ℕ → List ℕ → Option (List ℕ)) → Option (List ℕ) → List ℕ → Option ℕ → Option (List ℕ)
built_at next n text none = some (with_root text)
built_at next n text (some p) = prepended (next p) n text

abbrev pub built : (ℕ → List ℕ → Option (List ℕ)) → Option Dentry → List ℕ → Option (List ℕ)
built next none text = none
built next (some d) text = built_at next d.d_name text d.d_parent

-- The second pass, with the bytes that stand in the buffer from `start` on.
pub fill_path : ℕ → Dcache → ℕ → List ℕ → Option (List ℕ)
fill_path zero c a text = none
fill_path (suc fuel) c a text = built (λ p t. fill_path fuel c p t) (dentry_at c a) text

-- A text that is longer than the buffer is written in front of it: `none`.
abbrev pub filled : ℕ → Option (List ℕ) → Option (Option (List ℕ))
filled size none = none
filled size (some text) = if ltb size (length text) then none else some (some text)

-- Without memory the result is null.
abbrev pub allocated : Bool → Option (List ℕ) → Option ℕ → Option (Option (List ℕ))
allocated memory text none = none
allocated true text (some size) = filled size text
allocated false text (some size) = some none

-- `memory` is the answer of kmalloc.
pub dentry_alloc_full_path : ℕ → Dcache → ℕ → Bool → Option (Option (List ℕ))
unfolding path_len fill_path
dentry_alloc_full_path fuel c a memory =
    allocated memory (fill_path fuel c a []) (path_len fuel c a)

abbrev pub config_max_path_depth : ℕ
config_max_path_depth = 128

-- `cur != dentry->d_parent`
abbrev pub is_not : Option ℕ → ℕ → Bool
is_not none cur = true
is_not (some p) cur = not (p == cur)

-- The stack, its top first, with the name of a dentry on it if there is room for it.
abbrev pub pushed : Option ℕ → ℕ → Option (List ℕ) → List (List ℕ) → Option (List (List ℕ))
pushed parent cur n stack =
    if ltb (length stack) config_max_path_depth && is_not parent cur
    then elim n [ none ↦ none | some m ↦ some (m ∷ stack) ]
    else some stack

abbrev pub climbed :
    (List (List ℕ) → Option (List (List ℕ))) → Option (List (List ℕ)) → Option (List (List ℕ))
climbed next none = none
climbed next (some stack) = next stack

abbrev pub collected_at :
    (ℕ → List (List ℕ) → Option (List (List ℕ)))
    → Option (List (List ℕ))
    → List (List ℕ)
    → Bool
    → Option ℕ
    → Option (List (List ℕ))
collected_at next more stack true q = some stack
collected_at next more stack false none = some stack
collected_at next more stack false (some q) = climbed (next q) more

abbrev pub collected :
    (ℕ → List (List ℕ) → Option (List (List ℕ)))
    → Option ℕ
    → ℕ
    → Option Dentry
    → List (List ℕ)
    → Option (List (List ℕ))
collected next parent cur none stack = none
collected next parent cur (some d) stack =
    collected_at next (pushed parent cur d.d_name stack) stack (test_bit d.d_flags dcache_mounted)
      d.d_parent

-- The walk up to the mount point, from `cur` on, for a dentry with the given parent.
pub path_stack : ℕ → Dcache → Option ℕ → ℕ → List (List ℕ) → Option (List (List ℕ))
path_stack zero c parent cur stack = none
path_stack (suc fuel) c parent cur stack =
    collected (λ q s. path_stack fuel c parent q s) parent cur (dentry_at c cur) stack

-- The names of the stack from its top on, with a slash between two.
pub joined : List (List ℕ) → List ℕ
joined [] = []
joined (n ∷ []) = n
joined (n ∷ m ∷ stack) = n ++ slash ∷ joined (m ∷ stack)

abbrev pub mount_text : Bool → Option (List (List ℕ)) → Option (Option (List ℕ))
unfolding joined
mount_text memory none = none
mount_text memory (some stack) = some (if memory then some (slash ∷ joined stack) else none)

abbrev pub path_to_mount : ℕ → Dcache → ℕ → Bool → Option Dentry → Option (Option (List ℕ))
unfolding path_stack mount_text
path_to_mount fuel c a memory none = none
path_to_mount fuel c a memory (some d) = mount_text memory (path_stack fuel c d.d_parent a [])

pub dentry_alloc_path_to_mount : ℕ → Dcache → ℕ → Bool → Option (Option (List ℕ))
unfolding path_to_mount
dentry_alloc_path_to_mount fuel c a memory = path_to_mount fuel c a memory (dentry_at c a)
