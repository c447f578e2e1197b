-- ===== src/Vfs/Path/Parent/Laws.antt =====
-- What resolve_path_parent returns, and the references that it leaves.
use oscomp.Common.{
  ℕ, ◌+◌, ◌==◌, ◌≡◌, ◌⊎◌, false, Option, none, some, List, [], ◌∷◌, ◌++◌, length, if◌then◌else◌,
}
use oscomp.Mm.Space.Areas.{All}
use oscomp.Vfs.Dentry.Acquire.Counts.{plus, IsSafe}
use oscomp.Vfs.Dentry.Paths.{slash}
use oscomp.Vfs.Mount.{Mount, Tree}
use oscomp.Vfs.Mount.Held.{HeldMount}
use oscomp.Vfs.Path.Walk.{FsStruct}
use oscomp.Vfs.Path.Parent.{Resolved, parent_at, failed}

-- The position is that behind the first slash, or 0 where there is none.
abbrev pub IsBehindFirst : List ℕ → ℕ → Type 0
IsBehindFirst path i =
    (i ≡ 0) × All (λ x. (x == slash) ≡ false) path
    ⊎ ((c : List ℕ) × (l : List ℕ) × (path ≡ c ++ slash ∷ l)
        × (i ≡ length c + 1)
        × All (λ x. (x == slash) ≡ false) c)

-- With a directory, the caller has one reference more of it and of the mount; with an error, none.
abbrev pub Parented :
    (ℕ → ℕ) → Option ℕ → List (Option Mount) → List ℕ → Option (Tree × Resolved) → Type 0
Parented ext m before path none = ⊥
Parented ext m before path (some (s, failed e)) = IsSafe ext s.dcache × (s.mounts ≡ before)
Parented ext m before path (some (s, parent_at i b k)) =
    IsBehindFirst path i × (k ≡ m) × IsSafe (plus ext b) s.dcache × HeldMount m before s.mounts

abbrev pub At : List ℕ → Option ℕ → Type 0
At path none = All (λ x. (x == slash) ≡ false) path
At path (some i) =
    (c : List ℕ) × (l : List ℕ) × (path ≡ c ++ slash ∷ l)
    × (i ≡ length c)
    × All (λ x. (x == slash) ≡ false) c

-- The directory that a path starts from, by its first byte.
abbrev pub start : FsStruct → List ℕ → ℕ × Option ℕ
start p [] = (p.pwd, p.pwd_mnt)
start p (x ∷ l) = if x == slash then (p.root, p.root_mnt) else (p.pwd, p.pwd_mnt)
