-- ===== src/Vfs/Path/Tests.antt =====
-- A root directory at 0, under it "a" at 1, under that "b" at 2; a mount of the root at 0.
use oscomp.Common.{
  length, ℕ, zero, suc, ◌≡◌, refl, true, false, Option, none, some, List, [], ◌∷◌, arith,
}
use oscomp.Vfs.Inode.{Inode}
use oscomp.Vfs.Dentry.{Dentry, Dcache}
use oscomp.Vfs.Dentry.Acquire.{Acquired, null}
use oscomp.Vfs.Dentry.Paths.{slash}
use oscomp.Vfs.Mount.{Mount, Tree}
use oscomp.Vfs.Path.{World, Walked, at_path, dot}
use oscomp.Vfs.Path.Parent.{Resolved, parent_at, resolve_path_parent}
use oscomp.Vfs.Path.Walk.{FsStruct, path_destroy, walk, vfs_pathwalk}
use oscomp.Vfs.Path.Walk.Dotdot.{walk_dotdot_faults}

abbrev folder : Inode
folder = record {
  i_mode = 0x41ED;
  i_uid = 0;
  i_gid = 0;
  i_size = 0;
  i_nlink = 1;
  i_state = 0;
  i_refcount = 3;
  i_op = true;
}

abbrev entry : ℕ → Option ℕ → List ℕ → Option ℕ → List ℕ → Dentry
entry count inode name parent children = record {
  d_refcount = count;
  d_flags = 0x4000;
  d_inode = inode;
  d_name = some name;
  d_parent = parent;
  d_child_list = children;
  in_parent = true;
}

abbrev root : Dentry
root = entry 2 (some 0) (slash ∷ []) none (1 ∷ [])

abbrev middle : Dentry
middle = entry 1 (some 1) (0x61 ∷ []) (some 0) (2 ∷ [])

abbrev leaf : Dentry
leaf = entry 1 (some 2) (0x62 ∷ []) (some 1) []

abbrev tree : List (Option Dentry) → List ℕ → Tree
tree l hashed = record {
  dcache = record {
    dentries = l;
    hashed = hashed;
    bucket = λ p n. length n;
    inodes = record { inode = λ i. folder; dirty_inodes = []; clean_inodes = [] };
    aliases = λ i. [];
  };
  mounts = some (record { mnt_refcount = 1; mnt_root = 0; mnt_dentry = none; mnt_mnt = none }) ∷ [];
  mount_hashtable = 0 ∷ [];
}

abbrev nothing_found : Dcache → ℕ → Dcache × Acquired
nothing_found c x = (c, null)

abbrev world : World
world = record {
  fs = record { d_revalidate = λ x. none; is_dir = λ m. true };
  lookup = λ i. some nothing_found;
  copy = λ k. true;
  memory = λ k. true;
  automount = false;
}

the_function : Option (Dcache → ℕ → Dcache × Acquired) → Dcache → ℕ → Dcache × Acquired
the_function none = nothing_found
the_function (some f) = f

-- The root and "a", held once each.
abbrev one_each : ℕ → ℕ
one_each zero = 1
one_each (suc zero) = 1
one_each (suc (suc q)) = 0

abbrev two : Tree
two = tree (some root ∷ some (entry 1 (some 1) (0x61 ∷ []) (some 0) []) ∷ []) (1 ∷ [])

end_of : Option (Tree × Walked) → Option Walked
end_of none = none
end_of (some (s, r)) = some r

found_a :
    end_of (vfs_pathwalk world true two 0 (some 0) (slash ∷ 0x61 ∷ [])) ≡ some (at_path 1 (some 0))
unfolding vfs_pathwalk end_of
found_a = refl

abbrev outer : Mount
outer = record { mnt_refcount = 1; mnt_root = 0; mnt_dentry = none; mnt_mnt = none }

abbrev places : FsStruct
places = record { root = 0; root_mnt = some 0; pwd = 1; pwd_mnt = none }

index_of : Option (Tree × Resolved) → Option ℕ
index_of (some (s, parent_at i b k)) = some i
index_of r = none

-- The name of /a/b is taken to be a/b.
index_of_b :
    index_of (resolve_path_parent world true true places two (slash ∷ 0x61 ∷ slash ∷ 0x62 ∷ []))
    ≡ some 1
unfolding resolve_path_parent vfs_pathwalk path_destroy index_of
index_of_b = refl

abbrev chain : Tree
chain = tree (some root ∷ some middle ∷ some leaf ∷ []) (1 ∷ 2 ∷ [])

walk_dotdot_faults_example : walk world 4 (dot ∷ dot ∷ slash ∷ 0x63 ∷ []) chain 2 none ≡ none
walk_dotdot_faults_example =
    walk_dotdot_faults world 3 (0x63 ∷ []) chain 2 1 leaf middle refl refl refl refl refl
      (omega arith)
