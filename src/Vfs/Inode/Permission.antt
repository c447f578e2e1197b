-- ===== src/Vfs/Inode/Permission.antt =====
-- When the permission checks of kernel/fs/vfs/inode.c grant access.
use oscomp.Common.{
  ℕ, zero, suc, ◌+◌, ◌/◌, ◌^◌, ◌<◌, ◌≡◌, ◌↔◌, ◌⊎◌, ◌∙◌, sym, refl, inl, inr, ◌==◌, true, false,
  ◌&&◌, none, some, Bool-cases, arith, ==_iff,
}
use oscomp.Common.Bits.{test_bit}
use oscomp.Common.Bits.Shift.{test_bit-shift}
use oscomp.Common.Errno.{ok, fail, erofs}
use oscomp.Vfs.Inode.{
  Inode, Caller, class_shift, lacks, mode_check, inode_permission, generic_permission,
  default_permission, may_write,
}

-- Every bit of the mask below 3 is a bit of the mode.
abbrev Covers : ℕ → ℕ → Type 0
Covers mask mode = (b : ℕ) → b < 3 → test_bit mask b ≡ true → test_bit mode b ≡ true

covered :
    (mask mode b : ℕ) → lacks mask mode b ≡ false → test_bit mask b ≡ true → test_bit mode b ≡ true
covered mask mode b h m = ground arith

mode_check_sound : (mask mode : ℕ) → mode_check mask mode ≡ ok 0 → Covers mask mode
unfolding mode_check
mode_check_sound mask mode h zero lt = ground arith
mode_check_sound mask mode h (suc zero) lt = ground arith
mode_check_sound mask mode h (suc (suc zero)) lt = ground arith
mode_check_sound mask mode h (suc (suc (suc b))) lt = absurd (omega arith)

mode_check_complete : (mask mode : ℕ) → Covers mask mode → mode_check mask mode ≡ ok 0
unfolding mode_check
mode_check_complete mask mode all =
    ground (arith, all 0 (omega arith), all 1 (omega arith), all 2 (omega arith))

-- Access by the class of the caller: to a file system that may be written, and with its bits.
abbrev pub Granted : Caller → Inode → ℕ → Type 0
Granted c i mask =
    (c.euid ≡ 0)
    ⊎ ((test_bit mask may_write ≡ true → c.is_readonly ≡ false)
        × ((b : ℕ)
            → b < 3
            → test_bit mask b ≡ true
            → test_bit i.i_mode (b + class_shift c i) ≡ true))

module _ (c : Caller) (i : Inode) (mask : ℕ) where
  abbrev MayWrite : Type 0
  MayWrite = test_bit mask may_write ≡ true → c.is_readonly ≡ false

  abbrev InClass : Type 0
  InClass =
      (b : ℕ) → b < 3 → test_bit mask b ≡ true → test_bit i.i_mode (b + class_shift c i) ≡ true

  shifted_mode : ℕ
  shifted_mode = i.i_mode / 2 ^ class_shift c i

  default_permission_sound : default_permission c i mask ≡ ok 0 → MayWrite × InClass
  unfolding shifted_mode
  default_permission_sound h = elim (Bool-cases (test_bit mask may_write && c.is_readonly)) [
    | inl w ↦ let no_write : fail erofs ≡ ok 0 = rw w at h in absurd (cc)
    | inr w ↦ (
      λ m. ground arith,
      λ b lt m.
          sym (test_bit-shift (class_shift c i) i.i_mode b)
          ∙ mode_check_sound mask shifted_mode (rw w at h) b lt m,
    )
  ]

  default_permission_complete : MayWrite → InClass → default_permission c i mask ≡ ok 0
  unfolding shifted_mode
  default_permission_complete free all =
      elim (Bool-cases (test_bit mask may_write && c.is_readonly)) [
        | inl w ↦ elim (Bool-cases (test_bit mask may_write)) [
          | inl m ↦ ground (arith, free m)
          | inr m ↦ ground arith
        ]
        | inr w ↦ rw w (
            mode_check_complete mask shifted_mode
              (λ b lt m. test_bit-shift (class_shift c i) i.i_mode b ∙ all b lt m))
      ]

-- Where the file system has no check of its own, inode_permission grants access exactly to root, and
-- to others if the mask does not ask to write on a read-only file system and each of the bits MAY_EXEC,
-- MAY_WRITE and MAY_READ of the mask stands in the mode, in the bits of the owner for the owner and in
-- those of the group for anybody else. The other bits of the mask are not looked at.
pub inode_permission-Granted :
    (c : Caller) (i : Inode) (mask : ℕ)
    → c.permission ≡ none
    → (inode_permission c (some i) mask ≡ ok 0) ↔ Granted c i mask
unfolding inode_permission
inode_permission-Granted c i mask own = elim (Bool-cases (c.euid == 0)) [
  | inl root ↦ (λ h. inl ((==_iff c.euid 0).0 root), λ g. rw root refl)
  | inr other ↦
      rw (other, own)
        (
          λ h. inr (default_permission_sound c i mask h),
          λ g. elim g [
            | inl root ↦ absurd (cc (sym other ∙ (==_iff c.euid 0).1 root))
            | inr (free, all) ↦ default_permission_complete c i mask free all
          ],
        )
]

-- The two checks of permissions agree, where the file system has no check of its own.
pub generic_permission-inode_permission :
    (c : Caller) (i : Inode) (mask : ℕ)
    → c.permission ≡ none
    → generic_permission c i mask ≡ inode_permission c (some i) mask
unfolding inode_permission generic_permission mode_check
generic_permission-inode_permission c i mask own = rw own (ground arith)
