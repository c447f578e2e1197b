-- ===== src/Vfs/Mount/Held.antt =====
-- A reference of a mount, taken and given back.
use oscomp.Common.{
  ℕ, zero, suc, ◌+◌, ◌-◌, ◌<◌, ◌==◌, ◌≡◌, refl, sym, ◌∙◌, ap, false, Option, none, some, List, [],
  ◌∷◌, length, get_or, set, arith,
}
use oscomp.Vfs.Mount.{
  Mount, Tree, mount_at, put_mount, mount_ref, ref_mount, unref_mount, unref_mounts, mount_unref,
}

-- The mounts `l` are those of `s`, with one reference more of `m`.
abbrev pub HeldMount : Option ℕ → List (Option Mount) → List (Option Mount) → Type 0
HeldMount none m l = l ≡ m
HeldMount (some k) m l =
    (v : Mount) × (get_or m k none ≡ some v)
    × (0 < v.mnt_refcount)
    × (l ≡ set m k (some (record v { mnt_refcount = v.mnt_refcount + 1 })))

pub get_or-set-some :
    (l : List (Option Mount)) (k : ℕ) (v v' : Mount)
    → get_or l k none ≡ some v
    → get_or (set l k (some v')) k none ≡ some v'
get_or-set-some [] k v v' e = absurd (cc)
get_or-set-some (x ∷ l) zero v v' e = refl
get_or-set-some (x ∷ l) (suc k) v v' e = get_or-set-some l k v v' e

set-set_back :
    (l : List (Option Mount)) (k : ℕ) (v v' : Mount)
    → get_or l k none ≡ some v
    → set (set l k (some v')) k (some v) ≡ l
set-set_back [] k v v' e = refl
set-set_back (x ∷ l) zero v v' e = ap (λ o. o ∷ l) (sym e)
set-set_back (x ∷ l) (suc k) v v' e = ap (λ r. x ∷ r) (set-set_back l k v v' e)

-- A mount with references that are not the walk's is not freed.
pub mount_unref-HeldMount :
    (s : Tree) (m : Option ℕ) (before : List (Option Mount))
    → HeldMount m before s.mounts
    → mount_unref s m ≡ some (record s { mounts = before })
unfolding mount_unref unref_mounts unref_mount
mount_unref-HeldMount s none before e = rw e refl
mount_unref-HeldMount s (some k) before (v, there, pos, e) =
    let v' = record v { mnt_refcount = v.mnt_refcount + 1 } in
    let here : mount_at s k ≡ some v' = rw e (get_or-set-some before k v v' there) in
    let zero' : (v.mnt_refcount + 1 == 0) ≡ false = ground arith in
    let one : (v.mnt_refcount + 1 == 1) ≡ false = ground arith in
    let minus : v.mnt_refcount + 1 - 1 ≡ v.mnt_refcount = omega arith in
    let undone : mount_unref s (some k)
        ≡ some (put_mount s k (some (record v' { mnt_refcount = v.mnt_refcount + 1 - 1 }))) =
      ap (unref_mount (λ s' p. unref_mounts (length s.mounts) s' p) s k) here
      ∙ rw (zero', one) refl in
    undone
    ∙ rw (minus, e) (ap (λ l. some (record s { mounts = l })) (set-set_back before k v v' there))

pub mount_ref-HeldMount :
    (s : Tree) (k : ℕ) (v : Mount)
    → mount_at s k ≡ some v
    → 0 < v.mnt_refcount
    → (l : List (Option Mount)) × (mount_ref s (some k) ≡ some (record s { mounts = l }))
      × (get_or l k none ≡ some (record v { mnt_refcount = v.mnt_refcount + 1 }))
      × HeldMount (some k) s.mounts l
unfolding mount_ref
mount_ref-HeldMount s k v there pos =
    let v' = record v { mnt_refcount = v.mnt_refcount + 1 } in
    (
      set s.mounts k (some v'),
      ap (ref_mount s k) there,
      get_or-set-some s.mounts k v v' there,
      (v, there, pos, refl),
    )
