-- ===== src/Vfs/Open/Modes.antt =====
-- What vfs_alloc_file grants.
use oscomp.Common.{
  ℕ, ◌≡◌, ◌≢◌, ◌⊎◌, refl, Bool, true, false, ◌&&◌, Option, none, some, if◌then◌else◌, arith,
}
use oscomp.Common.Bits.{test_bit, test_bit-set_bit}
use oscomp.Common.Errno.{ok}
use oscomp.Vfs.Inode.{Inode, Caller}
use oscomp.Vfs.Open.{
  OpenFlags, AccessMode, rdonly, wronly, rdwr, invalid, Opened, opened, failed, set_if,
  vfs_validate_flags, write_check, file_is_readable, file_is_writeable, is_usable,
}

abbrev pub reads : AccessMode → Bool
reads rdonly = true
reads wronly = false
reads rdwr = true
reads invalid = false

abbrev pub writes : AccessMode → Bool
writes rdonly = false
writes wronly = true
writes rdwr = true
writes invalid = false

pub bit_set_if : (b : Bool) (k m j : ℕ) → k ≢ j → test_bit (set_if b k m) j ≡ test_bit m j
bit_set_if false k m j ne = refl
bit_set_if true k m j ne = ground (arith, test_bit-set_bit m k j)

-- The end of an inode that has operations, if O_APPEND is set; else 0.
abbrev pub StartsAt : Bool → Option Inode → ℕ → Type 0
StartsAt append none pos = pos ≡ 0
StartsAt append (some i) pos = pos ≡ (if append && i.i_op then i.i_size else 0)

-- Every check has passed, and the file may be read and written as the access mode says.
abbrev pub OpenedAs : Caller → (ℕ → Bool) → Option Inode → OpenFlags → Bool → Opened → Type 0
OpenedAs c is_dir i f memory (failed r) =
    (memory ≡ false) ⊎ ((vfs_validate_flags f ≢ ok 0) ⊎ (write_check c is_dir f.acc_mode i ≢ ok 0))
OpenedAs c is_dir i f memory (opened g) =
    (memory ≡ true)
    × (vfs_validate_flags f ≡ ok 0)
    × (write_check c is_dir f.acc_mode i ≡ ok 0)
    × (file_is_readable g ≡ (is_usable g && reads f.acc_mode))
    × (file_is_writeable g ≡ (is_usable g && writes f.acc_mode))
    × StartsAt f.o_append i g.f_pos
    × (g.f_refcount ≡ 1)
