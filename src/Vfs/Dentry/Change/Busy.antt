-- ===== src/Vfs/Dentry/Change/Busy.antt =====
-- dentry_rename to a name whose dentry is in the hash table.
use oscomp.Common.{ℕ, ◌≤◌, ◌<◌, ◌≡◌, ◌≢◌, true, some, List}
use oscomp.Vfs.Dentry.{Dentry, Dcache, dentry_at}
use oscomp.Vfs.Dentry.Refs.{live}
use oscomp.Vfs.Dentry.Table.{IsTable}
use oscomp.Vfs.Inode.Lists.{count}
use oscomp.Vfs.Dentry.Acquire.Counts.{IsSound}
use oscomp.Vfs.Dentry.Change.{with_name}
use oscomp.Vfs.Dentry.Change.Whole.{freed}

module _ (fuel : ℕ) (ext : ℕ → ℕ) (c : Dcache) (a b p : ℕ) (d e : Dentry) (n : List ℕ)
    (sound : IsSound ext c.dentries) (enough : live c.dentries ≤ fuel)
    (here : dentry_at c a ≡ some d) (other : dentry_at c b ≡ some e) (points : d.d_parent ≡ some p)
    (listed : d.in_parent ≡ true) (target : e.d_parent ≡ some p) (new_name : e.d_name ≡ some n)
    (different : a ≢ b) (apart : p ≢ a) (table : IsTable c) (in_table : 0 < count b c.hashed) where
  c1 : Dcache
  c1 =
      freed fuel ext c a b p p d e n sound enough here other points listed target new_name different
        apart apart

  -- Under the new name, with the rest as it was.
  c2 : Dcache
  c2 = with_name c1 a n (dentry_at c1 a)
