-- ===== src/Vfs/Path/Parent.antt =====
-- The directory of a path: resolve_path_parent of kernel/fs/vfs/path.c, and kstrndup of
-- kernel/mm/kmalloc.c, which it calls.
pub mod Laws
use oscomp.Common.{ℕ, suc, ◌+◌, ◌-◌, ◌==◌, Bool, Option, none, some, List, [], ◌∷◌, if◌then◌else◌}
use oscomp.Common.Chain.{◌>>=◌}
use oscomp.Common.Errno.{Errno, einval, enomem}
use oscomp.Vfs.Dentry.Paths.{slash}
use oscomp.Vfs.Mount.{Tree, take, mount_ref}
use oscomp.Vfs.Path.{World, Walked, at_path, stopped}
use oscomp.Vfs.Path.Walk.{FsStruct, vfs_pathwalk, path_destroy}

-- The position of the name with the path of its directory, or an error.
pub data Resolved : Type 0 where
  parent_at : ℕ → ℕ → Option ℕ → Resolved
  failed : Errno → Resolved

abbrev pub next_index : Option ℕ → Option ℕ
next_index none = none
next_index (some i) = some (suc i)

-- The distance of what `strchr` finds.
pub slash_index : List ℕ → Option ℕ
slash_index [] = none
slash_index (x ∷ l) = let r = slash_index l in if x == slash then some 0 else next_index r

-- `max` is not read.
abbrev pub kstrndup : List ℕ → ℕ → Bool → Option (List ℕ)
kstrndup s max memory = if memory then some s else none

abbrev pub resolved : ℕ → Walked → Resolved
resolved i (at_path b k) = parent_at i b k
resolved i (stopped e) = failed e

abbrev pub looked_up : ℕ → Option (Tree × Walked) → ℕ → Option ℕ → Option (Tree × Resolved)
unfolding path_destroy
looked_up i none a m = none
looked_up i (some (s, r)) a m = do s1 ← path_destroy s a m; some (s1, resolved i r)

abbrev pub with_copy :
    World → Bool → Tree → ℕ → Option ℕ → ℕ → Option (List ℕ) → Option (Tree × Resolved)
unfolding looked_up vfs_pathwalk
with_copy w copied s a m i none = do s1 ← path_destroy s a m; some (s1, failed enomem)
with_copy w copied s a m i (some []) = some (s, parent_at i a m)
with_copy w copied s a m i (some (x ∷ l)) = looked_up i (vfs_pathwalk w copied s a m (x ∷ l)) a m

abbrev pub at_slash :
    World → Bool → Bool → List ℕ → Tree → ℕ → Option ℕ → Option ℕ → Option (Tree × Resolved)
unfolding with_copy
at_slash w copied memory path s a m none = some (s, parent_at 0 a m)
at_slash w copied memory path s a m (some i) =
    with_copy w copied s a m (i + 1) (kstrndup path (i + 1 - 1) memory)

abbrev pub resolve_from :
    World → Bool → Bool → List ℕ → Tree → ℕ → Option ℕ → Option (Tree × Resolved)
unfolding at_slash slash_index take mount_ref
resolve_from w copied memory path s a m = do
  s1 ← take s a
  s2 ← mount_ref s1 m
  at_slash w copied memory path s2 a m (slash_index path)

-- `memory` is the answer to the allocation of the copy here, `copied` that in the walk.
unfoldable pub resolve_path_parent :
    World → Bool → Bool → FsStruct → Tree → List ℕ → Option (Tree × Resolved)
unfolding resolve_from
resolve_path_parent w copied memory p s [] = some (s, failed einval)
resolve_path_parent w copied memory p s (x ∷ l) =
    if x == slash
    then resolve_from w copied memory (x ∷ l) s p.root p.root_mnt
    else resolve_from w copied memory (x ∷ l) s p.pwd p.pwd_mnt
