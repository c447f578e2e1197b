-- ===== src/Vfs/File.antt =====
-- Reference counts of open files, kernel/fs/vfs/file.c. A file is a number; what `file_free` calls of
-- the file system and of the path layer is left out.
pub mod Laws
use oscomp.Common.{
  ℕ, zero, suc, ◌+◌, ◌==◌, ltb, Bool, Option, none, some, if◌then◌else◌, ◌≡◌, refl, arith,
}
use oscomp.Common.Errno.{Ret, ok, fail, einval, ebadf}

-- `f_refcount` of each file; a file at 0 has been freed.
abbrev pub Refs : Type 0
Refs = ℕ → ℕ

abbrev pub update : Refs → ℕ → ℕ → Refs
update r f n g = if f == g then n else r g

-- A null pointer is `none`. The outer `none` is the panic.
unfoldable pub file_ref : Refs → Option ℕ → Option (Refs × Option ℕ)
file_ref r none = some (r, none)
file_ref r (some f) = if r f == 0 then none else some (update r f (r f + 1), some f)

-- The decrement and its test. The outer `none` is a decrement of a freed file.
pub drop_ref : Refs → ℕ → ℕ → Option (Refs × Ret)
drop_ref r f zero = none
drop_ref r f (suc zero) = some (update r f 0, ok 0)
drop_ref r f (suc (suc n)) = some (update r f (suc n), fail ebadf)

unfoldable pub file_unref : Refs → Option ℕ → Option (Refs × Ret)
unfolding drop_ref
file_unref r none = some (r, fail einval)
file_unref r (some f) = drop_ref r f (r f)
