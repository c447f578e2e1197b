-- ===== src/Common/Errno.antt =====
-- The negative results of the kernel's functions.
use Prim.Native.Nat.{ℕ}

-- The codes of errno.h that the modelled functions return, negated.
pub data Errno : Type 0 where
  eperm enoent esrch eintr ebadf eagain enomem eacces efault ebusy eexist enodev enotdir eisdir :
      Errno
  einval emfile espipe erofs enosys enotempty : Errno

-- An `int` result: `ok n` is the value n, which is not negative, and `fail e` is -e.
pub data Ret : Type 0 where
  ok : ℕ → Ret
  fail : Errno → Ret
