-- ===== src/Vfs/Inode.antt =====
-- Inodes, kernel/fs/vfs/inode.c, of one superblock: permissions, reference counts and the lists by
-- state. An inode is a number; the locks make each region that they guard one step.
pub mod Permission
pub mod Lists
pub mod Super
mod Tests
use oscomp.Common.{
  ℕ, ◌+◌, ◌-◌, ◌/◌, ◌%◌, ◌^◌, ◌==◌, Bool, true, false, not, ◌&&◌, ◌||◌, Option, none, some, List,
  [], ◌∷◌, ◌++◌, if◌then◌else◌,
}
use oscomp.Common.Bits.{test_bit, set_bit, clear_bit}
use oscomp.Common.Errno.{Ret, ok, fail, Errno, einval, eagain, eacces, erofs}

-- `struct inode`, without what is left to the file systems. `i_op` says whether the pointer is set.
pub record Inode : Type 0 where
  pub i_mode : ℕ
  pub i_uid : ℕ
  pub i_gid : ℕ
  pub i_size : ℕ
  pub i_nlink : ℕ
  pub i_state : ℕ
  pub i_refcount : ℕ
  pub i_op : Bool

-- Who asks, and what the inode's superblock and file system say: MS_RDONLY, the operation
-- `permission` where there is one, and the types of device files.
pub record Caller : Type 0 where
  pub euid : ℕ
  pub is_readonly : Bool
  pub permission : Option (Inode → ℕ → Ret)
  pub is_device : ℕ → Bool

-- The bits of MAY_EXEC, MAY_WRITE and MAY_READ, and of the permissions in a mode.
abbrev pub may_exec : ℕ
may_exec = 0

abbrev pub may_write : ℕ
may_write = 1

abbrev pub may_read : ℕ
may_read = 2

-- `current_group_matches`, whose tests of the groups are commented out.
abbrev pub current_group_matches : ℕ → Bool
current_group_matches gid = true

-- The shift of the mode.
abbrev pub class_shift : Caller → Inode → ℕ
class_shift c i = if c.euid == i.i_uid then 6 else if current_group_matches i.i_gid then 3 else 0

abbrev pub lacks : ℕ → ℕ → ℕ → Bool
lacks mask mode b = test_bit mask b && not (test_bit mode b)

pub mode_check : ℕ → ℕ → Ret
mode_check mask mode =
    if lacks mask mode may_read
    then fail eacces
    else if lacks mask mode may_write
    then fail eacces
    else if lacks mask mode may_exec
    then fail eacces
    else ok 0

abbrev pub default_permission : Caller → Inode → ℕ → Ret
default_permission c i mask =
    if test_bit mask may_write && c.is_readonly
    then fail erofs
    else mode_check mask (i.i_mode / 2 ^ class_shift c i)

-- `retval != -EAGAIN`
abbrev pub is_final : Ret → Bool
is_final (ok n) = true
is_final (fail eagain) = false
is_final (fail e) = true

abbrev pub asked_first : Caller → Inode → ℕ → Ret → Ret
asked_first c i mask rest = elim c.permission [
  | none ↦ rest
  | some f ↦ if is_final (f i mask) then f i mask else rest
]

pub inode_permission : Caller → Option Inode → ℕ → Ret
unfolding mode_check
inode_permission c none mask = fail einval
inode_permission c (some i) mask =
    if c.euid == 0 then ok 0 else asked_first c i mask (default_permission c i mask)

-- The three tests, each of which sets the result.
abbrev pub with_denial : Bool → Ret → Ret
with_denial b r = if b then fail eacces else r

pub generic_permission : Caller → Inode → ℕ → Ret
generic_permission c i mask =
    let mode = i.i_mode / 2 ^ class_shift c i in
    if c.euid == 0
    then ok 0
    else if test_bit mask may_write && c.is_readonly
    then fail erofs
    else with_denial (lacks mask mode may_exec)
        (with_denial (lacks mask mode may_write) (with_denial (lacks mask mode may_read) (ok 0)))

pub inode_check_permission : Caller → Option Inode → ℕ → Ret
unfolding generic_permission
inode_check_permission c none mask = fail einval
inode_check_permission c (some i) mask =
    if c.is_device i.i_mode then ok 0 else asked_first c i mask (generic_permission c i mask)

-- The inodes of a superblock, with its lists of dirty and of clean inodes.
pub record Inodes : Type 0 where
  pub inode : ℕ → Inode
  pub dirty_inodes : List ℕ
  pub clean_inodes : List ℕ

abbrev pub with_inode : Inodes → ℕ → Inode → Inodes
with_inode s i v = record s { inode = λ j. if i == j then v else s.inode j }

-- `list_del` of an inode in a list.
unfoldable pub unlink : ℕ → List ℕ → List ℕ
unlink i [] = []
unlink i (j ∷ l) = if i == j then l else j ∷ unlink i l

-- The bits of I_DIRTY and I_NEW.
abbrev pub i_dirty : ℕ
i_dirty = 0

abbrev pub i_new : ℕ
i_new = 1

abbrev pub is_dirty : Inode → Bool
is_dirty v = test_bit v.i_state i_dirty

abbrev pub list_del_init : Inodes → ℕ → Inodes
unfolding unlink
list_del_init s i = record s {
  dirty_inodes = unlink i s.dirty_inodes;
  clean_inodes = unlink i s.clean_inodes;
}

abbrev pub add_clean_tail : Inodes → ℕ → Inodes
add_clean_tail s i = record s { clean_inodes = s.clean_inodes ++ i ∷ [] }

-- The result is whether the pointer is returned, and null otherwise.
unfoldable pub inode_ref : Inodes → ℕ → Inodes × Bool
inode_ref s i =
    let v = s.inode i in
    if v.i_op
    then (with_inode s i (record v { i_refcount = (v.i_refcount + 1) % 2 ^ 32 }), true)
    else (s, false)

abbrev pub when_unused : Inodes → ℕ → Inodes
unfolding unlink
when_unused s i =
    if (s.inode i).i_refcount == 0 && not (is_dirty (s.inode i))
    then add_clean_tail (list_del_init s i) i
    else s

unfoldable pub inode_unref : Inodes → ℕ → Inodes
unfolding unlink
inode_unref s i =
    let v = s.inode i in
    when_unused (with_inode s i (record v { i_refcount = (v.i_refcount + (2 ^ 32 - 1)) % 2 ^ 32 }))
      i

abbrev pub marked_dirty : Inodes → ℕ → Inodes
marked_dirty s i =
    let v = s.inode i in
    let s' = with_inode s i (record v { i_state = set_bit v.i_state i_dirty }) in
    record s' { dirty_inodes = i ∷ s'.dirty_inodes }

pub inode_set_dirty : Inodes → ℕ → Inodes
unfolding unlink
inode_set_dirty s i = if is_dirty (s.inode i) then s else marked_dirty (list_del_init s i) i

abbrev pub marked_clean : Inodes → ℕ → Inodes
marked_clean s i =
    let v = s.inode i in
    let s' = with_inode s i (record v { i_state = clear_bit 64 v.i_state i_dirty }) in
    record s' { clean_inodes = i ∷ s'.clean_inodes }

-- `written` is the result of `write_inode`, 0 where there is no such operation.
pub inode_sync : Inodes → ℕ → Bool → Ret → Inodes × Ret
unfolding unlink
inode_sync s i wait written = if not (is_dirty (s.inode i)) then (s, ok 0) else elim written [
  | ok n ↦ if n == 0 && wait then (marked_clean (list_del_init s i) i, ok n) else (s, ok n)
  | fail e ↦ (s, fail e)
]

pub unlock_new_inode : Inodes → ℕ → Inodes × Ret
unlock_new_inode s i =
    let v = s.inode i in
    if test_bit v.i_state i_new
    then (with_inode s i (record v { i_state = clear_bit 64 v.i_state i_new }), ok 0)
    else (s, fail einval)
