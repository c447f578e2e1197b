-- ===== src/Vfs/Mount/Hidden.antt =====
-- Mounts under a mount, and the search for the mount of a dentry.
use oscomp.Common.{
  ℕ, zero, suc, ◌<◌, ◌≡◌, refl, ◌∙◌, ap, Bool, true, false, ◌&&◌, Option, none, some, List, [], ◌∷◌,
  length, if◌then◌else◌, arith,
}
use oscomp.Common.Bits.{test_bit}
use oscomp.Mm.Space.Areas.{All}
use oscomp.Vfs.Dentry.{Dentry, Dcache, dentry_at, dcache_mounted}
use oscomp.Vfs.Mount.{
  Mount, Tree, mount_at, same_pointer, mount_key_equals, lookup_from, path_lookup_mount, or_up,
  found_over, mount_over, find_mount, mount_ref, dentry_lookup_mountpoint,
}

-- Every mount of the table was added under a mount.
abbrev pub IsUnder : Tree → ℕ → Type 0
IsUnder s k = (v : Mount) × (p : ℕ) × (mount_at s k ≡ some v) × (v.mnt_mnt ≡ some p)

key_not_under :
    (d : Option ℕ) (o : Option Mount) (v : Mount) (p : ℕ)
    → o ≡ some v
    → v.mnt_mnt ≡ some p
    → mount_key_equals d none o ≡ false
unfolding mount_key_equals
key_not_under d o v p there under =
    ap (mount_key_equals d none) there
    ∙ ap (λ m. same_pointer d v.mnt_dentry && same_pointer none m) under
    ∙ and-false (same_pointer d v.mnt_dentry)
  where
    and-false : (b : Bool) → (b && false) ≡ false
    and-false true = refl
    and-false false = refl

lookup_from-IsUnder :
    (s : Tree) (d : Option ℕ) (l : List ℕ) → All (IsUnder s) l → lookup_from s d none l ≡ none
unfolding lookup_from
lookup_from-IsUnder s d [] h = refl
lookup_from-IsUnder s d (k ∷ l) ((v, p, there, under), h) =
    ap (λ b. if b then some k else lookup_from s d none l)
      (key_not_under d (mount_at s k) v p there under)
    ∙ lookup_from-IsUnder s d l h

-- The way from a dentry to the root has `n` steps.
pub data IsBelow (c : Dcache) : ℕ → ℕ → Type 0 where
  root : {a : ℕ} (d : Dentry) → dentry_at c a ≡ some d → d.d_parent ≡ none → IsBelow c a 0
  child :
      {a p n : ℕ} (d : Dentry)
      → dentry_at c a ≡ some d
      → d.d_parent ≡ some p
      → IsBelow c p n
      → IsBelow c a (suc n)

found_over-none : (o : Option ℕ) (marked : Bool) → found_over o marked none ≡ none
found_over-none none marked = refl
found_over-none (some p) true = refl
found_over-none (some p) false = refl

over-IsUnder :
    (next : ℕ → Option (Option ℕ)) (s : Tree) (a : ℕ) (d : Dentry) (o : Option ℕ)
    → All (IsUnder s) s.mount_hashtable
    → dentry_at s.dcache a ≡ some d
    → d.d_parent ≡ o
    → mount_over next s a (dentry_at s.dcache a) ≡ or_up next none o
unfolding path_lookup_mount
over-IsUnder next s a d o under there points =
    ap (mount_over next s a) there
    ∙ ap (λ f. or_up next (found_over d.d_parent (test_bit d.d_flags dcache_mounted) f) d.d_parent)
        (lookup_from-IsUnder s (some a) s.mount_hashtable under)
    ∙ ap (λ f. or_up next f d.d_parent)
        (found_over-none d.d_parent (test_bit d.d_flags dcache_mounted))
    ∙ ap (or_up next none) points

find_mount-IsUnder :
    (fuel : ℕ) (s : Tree) (a n : ℕ)
    → All (IsUnder s) s.mount_hashtable
    → IsBelow s.dcache a n
    → n < fuel
    → find_mount fuel s a ≡ some none
unfolding find_mount
find_mount-IsUnder zero s a n under way enough = absurd (omega arith)
find_mount-IsUnder (suc fuel) s a n under (root d there top) enough =
    over-IsUnder (λ p. find_mount fuel s p) s a d none under there top
find_mount-IsUnder (suc fuel) s a n under (child {p = p} {n = k} d there points way) enough =
    over-IsUnder (λ q. find_mount fuel s q) s a d (some p) under there points
    ∙ find_mount-IsUnder fuel s p k under way (omega arith)

-- If every mount in the hash table was attached under a mount, the search for the mount of a dentry
-- finds none, for any dentry whose way to the root is shorter than the number of dentries.
pub dentry_lookup_mountpoint_hidden :
    (s : Tree) (a n : ℕ)
    → All (IsUnder s) s.mount_hashtable
    → IsBelow s.dcache a n
    → n < length s.dcache.dentries
    → dentry_lookup_mountpoint s a ≡ some (s, none)
unfolding dentry_lookup_mountpoint mount_ref
dentry_lookup_mountpoint_hidden s a n under way enough =
    rw (find_mount-IsUnder (length s.dcache.dentries) s a n under way enough) refl
