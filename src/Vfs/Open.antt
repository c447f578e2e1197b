-- ===== src/Vfs/Open.antt =====
-- Opening a file and moving its position: vfs_alloc_file and the flags of kernel/fs/vfs/vfs.c, and
-- kernel/fs/vfs/file.c. A position is a 64-bit word, negative from 2 ^ 63 on; an overflow wraps around.
pub mod Modes
pub mod Seek
mod Tests
use oscomp.Common.{
  ℕ, zero, suc, ◌+◌, ◌%◌, ◌^◌, ◌==◌, leb, Bool, true, false, not, ◌&&◌, ◌||◌, Option, none, some,
  if◌then◌else◌,
}
use oscomp.Common.Bits.{test_bit, set_bit, clear_bit}
use oscomp.Common.Errno.{Ret, ok, fail, einval, erofs, eisdir, enomem, espipe, ebadf}
use oscomp.Vfs.Inode.{Inode, Caller, inode_permission}

-- `flags & O_ACCMODE`
pub data AccessMode : Type 0 where
  rdonly wronly rdwr invalid : AccessMode

-- The flags of an open, of which the C library's header gives the bits: a field is whether the flags
-- have a bit of the mask of its name, and `unknown` whether they have one out of VALID_OPEN_FLAGS.
pub record OpenFlags : Type 0 where
  pub acc_mode : AccessMode
  pub o_creat : Bool
  pub o_excl : Bool
  pub o_trunc : Bool
  pub o_append : Bool
  pub o_nonblock : Bool
  pub o_direct : Bool
  pub o_sync : Bool
  pub o_dsync : Bool
  pub o_path : Bool
  pub o_directory : Bool
  pub o_nofollow : Bool
  pub unknown : Bool

abbrev pub is_invalid : AccessMode → Bool
is_invalid invalid = true
is_invalid m = false

abbrev pub is_rdonly : AccessMode → Bool
is_rdonly rdonly = true
is_rdonly m = false

pub vfs_validate_flags : OpenFlags → Ret
vfs_validate_flags f =
    if is_invalid f.acc_mode
    then fail einval
    else if f.o_trunc && is_rdonly f.acc_mode
    then fail einval
    else if f.unknown
    then fail einval
    else ok 0

pub validate_open_flags : OpenFlags → Ret
validate_open_flags f =
    if is_invalid f.acc_mode
    then fail einval
    else if f.o_trunc && is_rdonly f.acc_mode
    then fail einval
    else if f.o_excl && not f.o_creat
    then fail einval
    else if f.o_directory && f.o_trunc
    then fail eisdir
    else if f.unknown
    then fail einval
    else ok 0

-- The bits of FMODE_ constants.
abbrev pub fmode_read : ℕ
fmode_read = 0

abbrev pub fmode_write : ℕ
fmode_write = 1

abbrev pub fmode_append : ℕ
fmode_append = 3

abbrev pub fmode_nonblock : ℕ
fmode_nonblock = 4

abbrev pub fmode_direct : ℕ
fmode_direct = 5

abbrev pub fmode_sync : ℕ
fmode_sync = 6

abbrev pub fmode_excl : ℕ
fmode_excl = 7

abbrev pub fmode_directory : ℕ
fmode_directory = 11

abbrev pub fmode_path : ℕ
fmode_path = 12

abbrev pub fmode_lseek : ℕ
fmode_lseek = 14

abbrev pub set_if : Bool → ℕ → ℕ → ℕ
set_if b k m = if b then set_bit m k else m

abbrev pub access_fmode : AccessMode → ℕ
access_fmode rdonly = set_bit 0 fmode_read
access_fmode wronly = set_bit 0 fmode_write
access_fmode rdwr = set_bit (set_bit 0 fmode_read) fmode_write
access_fmode invalid = 0

-- The mode that vfs_alloc_file gives a file.
pub alloc_fmode : OpenFlags → ℕ
alloc_fmode f =
    set_if f.o_nonblock fmode_nonblock
      (set_if f.o_excl fmode_excl (set_if f.o_append fmode_append (access_fmode f.acc_mode)))

pub open_flags_to_fmode : OpenFlags → ℕ
open_flags_to_fmode f = set_if f.o_directory fmode_directory (
    set_if f.o_path fmode_path (
      set_if f.o_excl fmode_excl (
        set_if (f.o_sync || f.o_dsync) fmode_sync (
          set_if f.o_direct fmode_direct (
            set_if f.o_nonblock fmode_nonblock
              (set_if f.o_append fmode_append (access_fmode f.acc_mode)))))))

-- `struct file`; `llseek` is the file system's operation, where there is one.
pub record File : Type 0 where
  pub f_mode : ℕ
  pub f_pos : ℕ
  pub f_refcount : ℕ
  pub f_inode : Option Inode
  pub llseek : Option (ℕ → ℕ → Ret)

pub data Opened : Type 0 where
  opened : File → Opened
  failed : Ret → Opened

-- The checks for a file that shall be written; `is_dir` tells the modes of directories.
pub write_check : Caller → (ℕ → Bool) → AccessMode → Option Inode → Ret
write_check c is_dir rdonly i = ok 0
write_check c is_dir m none = ok 0
write_check c is_dir invalid (some i) = if c.is_readonly then fail erofs else ok 0
write_check c is_dir m (some i) =
    if c.is_readonly
    then fail erofs
    else if is_dir i.i_mode
    then fail eisdir
    else inode_permission c (some i) may_write_mask
  where
    may_write_mask : ℕ
    may_write_mask = 2

-- inode_ref, which gives null for an inode without operations.
abbrev pub referenced : Option Inode → Option Inode
referenced none = none
referenced (some i) =
    if i.i_op then some (record i { i_refcount = (i.i_refcount + 1) % 2 ^ 32 }) else none

abbrev pub start_position : Bool → Option Inode → ℕ
start_position append none = 0
start_position append (some i) = if append then i.i_size else 0

-- `seek` is what the operations of the file's inode bring along.
abbrev pub new_file : OpenFlags → Option Inode → Option (ℕ → ℕ → Ret) → File
new_file f i seek = record {
  f_mode = alloc_fmode f;
  f_pos = start_position f.o_append i;
  f_refcount = 1;
  f_inode = i;
  llseek = elim i [ none ↦ none | some v ↦ seek ];
}

abbrev pub unless_error : Ret → Opened → Opened
unless_error (fail e) o = failed (fail e)
unless_error (ok zero) o = o
unless_error (ok (suc n)) o = failed (ok (suc n))

-- The path has a dentry and a mount, whose references are left out here. The mode of a file that is
-- created is computed and used nowhere, so it is no argument. `memory` is the answer of kmalloc.
pub vfs_alloc_file :
    Caller → (ℕ → Bool) → Option Inode → OpenFlags → Option (ℕ → ℕ → Ret) → Bool → Opened
unfolding alloc_fmode vfs_validate_flags write_check
vfs_alloc_file c is_dir i f seek memory = unless_error (vfs_validate_flags f) (
    unless_error (write_check c is_dir f.acc_mode i)
      (if memory then opened (new_file f (referenced i) seek) else failed (fail enomem)))

pub data Whence : Type 0 where
  seek_set seek_cur seek_end other : Whence

-- A negative position is refused.
abbrev pub sought : File → ℕ → File × Ret
sought f pos = if leb (2 ^ 63) pos then (f, fail einval) else (record f { f_pos = pos }, ok pos)

pub seek_from : File → Inode → ℕ → Whence → File × Ret
seek_from f i offset seek_set = sought f offset
seek_from f i offset seek_cur = sought f ((f.f_pos + offset) % 2 ^ 64)
seek_from f i offset seek_end = sought f ((i.i_size + offset) % 2 ^ 64)
seek_from f i offset other = (f, fail einval)

-- `code` is the number of `whence`, for the operation of the file system.
pub file_llseek : File → ℕ → Whence → ℕ → File × Ret
unfolding seek_from
file_llseek f offset whence code = elim f.f_inode [
  | none ↦ (f, fail einval)
  | some i ↦
      if not (test_bit f.f_mode fmode_lseek)
      then (f, fail espipe)
      else elim f.llseek [ none ↦ seek_from f i offset whence | some op ↦ (f, op offset code) ]
]

abbrev pub is_usable : File → Bool
is_usable f = elim f.f_inode [
  | none ↦ false
  | some i ↦ not (f.f_refcount == 0 || leb (2 ^ 31) f.f_refcount)
]

pub file_deny_write : File → File × Ret
file_deny_write f =
    if is_usable f
    then (record f { f_mode = clear_bit 32 f.f_mode fmode_write }, ok 0)
    else (f, fail ebadf)

pub file_allow_write : File → File × Ret
file_allow_write f =
    if is_usable f
    then (record f { f_mode = set_bit f.f_mode fmode_write }, ok 0)
    else (f, fail ebadf)

pub file_is_readable : File → Bool
file_is_readable f = is_usable f && test_bit f.f_mode fmode_read

pub file_is_writeable : File → Bool
file_is_writeable f = is_usable f && test_bit f.f_mode fmode_write
