-- ===== src/Vfs/Open/Tests.antt =====
-- A file of 100 bytes.
use oscomp.Common.{◌+◌, ◌^◌, ◌≡◌, refl, false, true, none, some}
use oscomp.Common.Bits.{test_bit, set_bit, clear_bit}
use oscomp.Common.Errno.{fail, eisdir, einval}
use oscomp.Vfs.Inode.{Inode, Caller}
use oscomp.Vfs.Open.{
  File, OpenFlags, rdonly, rdwr, vfs_alloc_file, open_flags_to_fmode, alloc_fmode, file_deny_write,
  file_allow_write, file_is_writeable, failed, validate_open_flags,
}
use oscomp.Vfs.Open.Seek.{Unseekable, vfs_alloc_file-Unseekable}

abbrev hundred : Inode
hundred = record {
  i_mode = 0x1A4;
  i_uid = 5;
  i_gid = 7;
  i_size = 100;
  i_nlink = 1;
  i_state = 0;
  i_refcount = 1;
  i_op = true;
}

abbrev root : Caller
root = record { euid = 0; is_readonly = false; permission = none; is_device = λ m. false }

abbrev append_both : OpenFlags
append_both = record {
  acc_mode = rdwr;
  o_creat = false;
  o_excl = false;
  o_trunc = false;
  o_append = true;
  o_nonblock = false;
  o_direct = false;
  o_sync = false;
  o_dsync = false;
  o_path = false;
  o_directory = false;
  o_nofollow = false;
  unknown = false;
}

abbrev seekable : File
seekable = record {
  f_mode = 2 ^ 14 + 3;
  f_pos = 10;
  f_refcount = 1;
  f_inode = some hundred;
  llseek = none;
}

same_modes : open_flags_to_fmode append_both ≡ alloc_fmode append_both
unfolding open_flags_to_fmode alloc_fmode
same_modes = refl

no_truncation :
    validate_open_flags (record append_both { acc_mode = rdonly; o_trunc = true }) ≡ fail einval
unfolding validate_open_flags
no_truncation = refl

denied_and_allowed : file_is_writeable (file_allow_write (file_deny_write seekable).0).0 ≡ true
unfolding file_is_writeable file_allow_write file_deny_write test_bit set_bit clear_bit
denied_and_allowed = refl

directory_refused :
    vfs_alloc_file root (λ m. true) (some hundred) append_both none true ≡ failed (fail eisdir)
unfolding vfs_alloc_file
directory_refused = refl

vfs_alloc_file-Unseekable_example :
    Unseekable (vfs_alloc_file root (λ m. false) (some hundred) append_both none true)
vfs_alloc_file-Unseekable_example =
    vfs_alloc_file-Unseekable root (λ m. false) (some hundred) append_both none true
