-- ===== src/Vfs/Path/Walk/Whole.antt =====
-- The walk as a whole keeps the references in balance.
use oscomp.Common.{ℕ, ◌<◌, ◌≡◌, Option, none, some}
use oscomp.Vfs.Mount.{Mount, Tree, mount_at}

-- The root of the mount is held.
abbrev pub HasRoot : (ℕ → ℕ) → Option ℕ → Tree → Type 0
HasRoot ext none s = Unit
HasRoot ext (some k) s = (v : Mount) × (mount_at s k ≡ some v) × (0 < ext v.mnt_root)

-- The mount of the start, if there is one, has references, and its root is held.
abbrev pub IsUsable : (ℕ → ℕ) → Tree → Option ℕ → Type 0
IsUsable ext s none = Unit
IsUsable ext s (some k) =
    (v : Mount) × (mount_at s k ≡ some v) × (0 < v.mnt_refcount) × (0 < ext v.mnt_root)
