-- ===== src/Vfs/Open/Seek.antt =====
-- Where file_llseek puts the position.
use oscomp.Common.{
  ℕ, zero, suc, ◌∙◌, ◌+◌, ◌-◌, ◌%◌, ◌^◌, ◌≤◌, ◌<◌, ◌≡◌, refl, Bool, true, false, Option, none, some,
  if◌then◌else◌, arith,
}
use oscomp.Common.Bits.{test_bit, set_bit}
use oscomp.Common.Errno.{Ret, ok, fail, einval, enomem, espipe}
use oscomp.Vfs.Open.Modes.{bit_set_if}
use oscomp.Vfs.Inode.{Inode, Caller}
use oscomp.Vfs.Open.{
  File, OpenFlags, AccessMode, rdonly, wronly, rdwr, invalid, Whence, seek_set, seek_cur, seek_end,
  other, file_llseek, seek_from, sought, fmode_lseek, alloc_fmode, vfs_alloc_file, Opened, opened,
  failed, access_fmode, set_if, unless_error, new_file, referenced, vfs_validate_flags, write_check,
}

-- What the offset counts from, for a known `whence`.
abbrev pub base : File → Inode → Whence → Option ℕ
base f i seek_set = some 0
base f i seek_cur = some f.f_pos
base f i seek_end = some i.i_size
base f i other = none

abbrev pub SoughtFrom : File → ℕ → Option ℕ → File × Ret → Type 0
SoughtFrom f offset none r = r ≡ (f, fail einval)
SoughtFrom f offset (some b) r =
    (offset < 2 ^ 63 → b + offset < 2 ^ 63 → r ≡ (record f { f_pos = b + offset }, ok (b + offset)))
    × (offset < 2 ^ 63 → 2 ^ 63 ≤ b + offset → r ≡ (f, fail einval))
    × (2 ^ 63 ≤ offset
        → 2 ^ 64 ≤ b + offset
        → r ≡ (record f { f_pos = b + offset - 2 ^ 64 }, ok (b + offset - 2 ^ 64)))
    × (2 ^ 63 ≤ offset → b + offset < 2 ^ 64 → r ≡ (f, fail einval))

sought-From :
    (f : File) (offset b : ℕ)
    → b < 2 ^ 63
    → offset < 2 ^ 64
    → SoughtFrom f offset (some b) (sought f ((b + offset) % 2 ^ 64))
sought-From f offset b hb ho = (
  λ p q. let e : (b + offset) % 2 ^ 64 ≡ b + offset = omega arith in rw e (ground arith),
  λ p q. let e : (b + offset) % 2 ^ 64 ≡ b + offset = omega arith in rw e (ground arith),
  λ p q. let e : (b + offset) % 2 ^ 64 ≡ b + offset - 2 ^ 64 = omega arith in rw e (ground arith),
  λ p q. let e : (b + offset) % 2 ^ 64 ≡ b + offset = omega arith in rw e (ground arith),
)

module _ (f : File) (i : Inode) (offset : ℕ) (whence : Whence) (code : ℕ)
    (has_inode : f.f_inode ≡ some i) (seekable : test_bit f.f_mode fmode_lseek ≡ true)
    (generic : f.llseek ≡ none) (pos_fits : f.f_pos < 2 ^ 63) (size_fits : i.i_size < 2 ^ 63)
    (offset_fits : offset < 2 ^ 64) where
  from_base : (w : Whence) → SoughtFrom f offset (base f i w) (seek_from f i offset w)
  unfolding seek_from
  from_base seek_set =
      let e : (0 + offset) % 2 ^ 64 ≡ offset = omega arith in
      let start : 0 < 2 ^ 63 = omega arith in
      let h : SoughtFrom f offset (some 0) (sought f ((0 + offset) % 2 ^ 64)) =
        sought-From f offset 0 start offset_fits in
      rw e at h
  from_base seek_cur = sought-From f offset f.f_pos pos_fits offset_fits
  from_base seek_end = sought-From f offset i.i_size size_fits offset_fits
  from_base other = refl

  generic_seek : file_llseek f offset whence code ≡ seek_from f i offset whence
  unfolding file_llseek
  generic_seek = ground arith

  -- For a file that may be sought, whose file system has no operation of its own: the position becomes
  -- the sum of the offset, a signed word, and the start, the position or the size, if the sum is not
  -- negative and below 2 ^ 63; else, and for any other `whence`, the result is -EINVAL and the file is
  -- unchanged.
  pub file_llseek-SoughtFrom :
      SoughtFrom f offset (base f i whence) (file_llseek f offset whence code)
  file_llseek-SoughtFrom = rw generic_seek (from_base whence)

access_fmode-lseek : (m : AccessMode) → test_bit (access_fmode m) fmode_lseek ≡ false
unfolding test_bit set_bit
access_fmode-lseek rdonly = refl
access_fmode-lseek wronly = refl
access_fmode-lseek rdwr = refl
access_fmode-lseek invalid = refl

alloc_fmode-lseek : (f : OpenFlags) → test_bit (alloc_fmode f) fmode_lseek ≡ false
unfolding alloc_fmode
alloc_fmode-lseek f =
    let appending = set_if f.o_append 3 (access_fmode f.acc_mode) in
    bit_set_if f.o_nonblock 4 (set_if f.o_excl 7 appending) 14 (omega arith)
    ∙ bit_set_if f.o_excl 7 appending 14 (omega arith)
    ∙ bit_set_if f.o_append 3 (access_fmode f.acc_mode) 14 (omega arith)
    ∙ access_fmode-lseek f.acc_mode

-- Its position cannot be moved.
abbrev pub Unseekable : Opened → Type 0
Unseekable (failed r) = Unit
Unseekable (opened f) =
    (i : Inode) (offset : ℕ) (whence : Whence) (code : ℕ)
    → f.f_inode ≡ some i
    → file_llseek f offset whence code ≡ (f, fail espipe)

new_file-Unseekable :
    (f : OpenFlags) (i : Option Inode) (seek : Option (ℕ → ℕ → Ret))
    → Unseekable (opened (new_file f i seek))
unfolding file_llseek
new_file-Unseekable f none seek v offset whence code h = cc
new_file-Unseekable f (some i) seek v offset whence code h = ground (arith, alloc_fmode-lseek f)

unless_error-Unseekable : (r : Ret) (o : Opened) → Unseekable o → Unseekable (unless_error r o)
unless_error-Unseekable (fail e) o h = tt
unless_error-Unseekable (ok zero) o h = h
unless_error-Unseekable (ok (suc n)) o h = tt

-- Whatever the flags and the file system, file_llseek refuses with -ESPIPE, and leaves as it is, every
-- file with an inode that vfs_alloc_file makes: none has FMODE_LSEEK.
pub vfs_alloc_file-Unseekable :
    (c : Caller) (is_dir : ℕ → Bool) (i : Option Inode) (f : OpenFlags)
    (seek : Option (ℕ → ℕ → Ret)) (memory : Bool)
    → Unseekable (vfs_alloc_file c is_dir i f seek memory)
unfolding vfs_alloc_file
vfs_alloc_file-Unseekable c is_dir i f seek memory =
    unless_error-Unseekable (vfs_validate_flags f)
      (unless_error (write_check c is_dir f.acc_mode i) (last memory))
      (unless_error-Unseekable (write_check c is_dir f.acc_mode i) (last memory)
        (last-Unseekable memory))
  where
    last : Bool → Opened
    last m = if m then opened (new_file f (referenced i) seek) else failed (fail enomem)

    last-Unseekable : (m : Bool) → Unseekable (last m)
    last-Unseekable false = tt
    last-Unseekable true = new_file-Unseekable f (referenced i) seek
