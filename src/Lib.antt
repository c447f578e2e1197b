-- ===== src/Lib.antt =====
-- Models of the kernel of oscomp, a RISC-V kernel in C, and of what makes its parts correct.
--
-- The parts and the files that model them:
--
-- Common: names passed on, lists, searches in loops (`scan`, for a loop that returns in the first
--   round that passes a test), the bits of unsigned words, error numbers and signed integers.
-- Bitmap: the bitmap helpers of kernel/mm/slab.c (bitmap_setbit, bitmap_clearbit, bitmap_testbit,
--   bitmap_firstzero) over a list of bytes. kernel/sched/pid.c writes the same expressions out.
-- Sched.Pid: kernel/sched/pid.c, the numbers of processes. `PidManager` is the static variable
--   `manager`; pid_init, pid_alloc and pid_free are the functions of the same names. Pid/Holders follows
--   the calls of several holders.
-- Sched.SigSet and Sched.Signal: kernel/sched/signal.c. Sets of signals are 16 words, as in
--   `sigset_t`; `Task` holds the fields of `struct task_struct` that concern signals, and `Tasks` is
--   the table `procs` of kernel/sched/sched.c with the running process. A signal is sent by do_kill to
--   the table of processes and taken by do_signal_delivery from the running process.
-- Sched.Queue: kernel/sched/sched.c, the ready queue, schedule and alloc_empty_process.
-- Vfs.File: the reference counts of open files, file_ref and file_unref of kernel/fs/vfs/file.c.
-- Vfs.FdTable: kernel/fs/vfs/fdtable.c, the tables of file descriptors of a process, which hold
--   references of Vfs.File. FdTable/Share is about references to tables and their copies for a new
--   process.
-- Vfs.Inode: kernel/fs/vfs/inode.c, with the permissions, the counts and the lists of dirty and clean
--   inodes of one superblock. Inode/Permission is about inode_permission and generic_permission,
--   Inode/Lists about the operations that move an inode between lists; those of kernel/fs/vfs/superblock.c
--   (sync_filesystem, superblock_createInode) are in Inode/Super.
-- Vfs.Open: vfs_alloc_file of kernel/fs/vfs/vfs.c with its checks of flags, and the modes and the
--   position of an open file, kernel/fs/vfs/file.c. Open/Modes is about vfs_alloc_file, Open/Seek about
--   file_llseek.
-- Vfs.Dentry: kernel/fs/vfs/dentry.c, directory entries with their counts. A dentry is a place in the
--   list of all that were allocated; the hash table is the list of its nodes in their order. A search
--   takes the first that has the key, and fails on a node whose memory was given back; an insertion
--   finds its bucket empty or fails, as the keys of nodes are all read into one static place. Dentry/Refs
--   counts references, Dentry/Unref is about dentry_unref, Dentry/Table and Change/Table are about the
--   hash table, Dentry/Acquire models dentry_lookup and dentry_acquire, Dentry/Paths
--   dentry_allocFullPath and dentry_allocPath2Mount, Dentry/Change dentry_instantiate, dentry_prune,
--   dentry_delete and dentry_rename. Dentries hold references of the inodes of Vfs.Inode.
-- Vfs.Mount: kernel/fs/vfs/vfsmount.c (mount_ref, mount_unref, mount_add) and the searches for mounts,
--   path_lookupMount and dentry_lookupMountpoint. `Tree` is the state: the dentries of Vfs.Dentry, the
--   mounts, and their hash table. Mount/Held is about references, Mount/Hidden about the searches.
-- Vfs.Path: the steps of vfs_pathwalk of kernel/fs/vfs/vfs.c over a `Tree`; a step has what comes after
--   it as an argument, takes dentries by dentry_acquire and fills them by what a file system finds.
--   Path/Walk is its loop, with path_create and path_destroy of kernel/fs/vfs/path.c, and Path/Parent
--   resolve_path_parent. Path/Parts is about the components of a path, Path/Holds, Path/Balance and
--   Walk/Whole about references, Walk/Dotdot about the component "..".
--
-- Mm.Flags: the conversions of protection flags in kernel/mm/mmap.c.
-- Mm.Space: the areas of an address space. `Area` and `Mm` are `struct vm_area_struct` and `struct
--   mm_struct`; the list of areas is in the order of the source, where a new area goes to the front.
--   vm_area_setup of kernel/mm/vma.c is in Mm.Space itself, the searches of kernel/mm/mm_struct.c too;
--   Space/Free is find_free_area, Space/Unmap is do_unmap, and Space/Brk is do_brk of
--   kernel/mm/mmap.c. Pages that are given up are part of the result, their page table entries are not.
-- Mm.Page: kernel/mm/page.c. `Pool` holds its static variables, with the free pages as a list of
--   addresses; Page/Alloc is about alloc_page and put_page, Page/Init about init_page_manager.
-- Mm.PageTable: kernel/mm/pagetable.c. `Entry k` is an entry with k levels of tables below it; the levels
--   count from the bottom as in page_walk, where the root has level 2.
--   PageTable/Laws is about pgt_map_page, PageTable/Unmap about pgt_unmap.
-- Mm.Slab: kernel/mm/slab.c. `Slab` is `struct slab_header`, with the bitmap where the compiler puts it;
--   Slab/Object is the part of slab_alloc_obj and slab_free_obj that concerns one slab, Slab/Cache the
--   lists of `struct kmem_cache`, Slab/Caches slab_alloc and slab_free over the array of caches, and
--   Slab/Sizes the size classes and the addresses of objects.
-- Util.Memory: kernel/util/string.c, over a function from addresses to bytes. A search for the end of a
--   string runs on fuel.
-- Util.Qstr: kernel/util/qstr.c over the same memory, the hashes modulo 2 ^ 32.
--
-- Util.Radix: kernel/util/radix_tree.c. `Slot h` is what a slot above h levels of nodes holds, and `Root`
--   is `struct radixTreeRoot`, whose height and node go together. The parent has the insertion, Radix/Remove
--   radix_tree_delete, Radix/Tags the tags, and Radix/Walk the walks. An item is a number for its address.
--   A number of allocations that succeed before the first that fails is an argument.
-- Util.Hashtable: kernel/util/hashtable.c. `Keys` holds the callbacks of a table, `Table` is `struct
--   hashtable` and `Expansion` the static variables of hashtable_try_expand; a bucket is the list of its
--   nodes. Hashtable/Laws is about tables that are not expanded, Hashtable/Expand about those that are.
--
-- Return values. A function that returns a negative error number returns `Ret`: `ok` with the number, or
-- `fail` with the error. A panic is `none`. A null pointer is `none` of an `Option`.
--
-- Bounds. The loops of the source run over a number of rounds known at their start, and the models
-- are structural in that number, but for loops that run on fuel: the one of find_free_area, for
-- which one round for each page from the break up to the last area, and one more, are enough; the
-- searches for the end of a string; the release of a dentry and then of its parents, for which the
-- number of dentries that have references is enough; the ways from a dentry to the root, for
-- which one round more than names on the way is enough; and the components of a path, for which the
-- length of the path is enough. Words keep their width: the size of a table of descriptors is
-- doubled modulo 2 ^ 32, and complements are taken within the width of the word. Areas are smaller
-- than 2 ^ 43 bytes, so that their numbers of pages fit an int32. The counts of dentries and of mounts
-- do not wrap around. The hash table of dentries has 1024 buckets; at 768 nodes, where it would be
-- expanded, the allocation of the larger one is taken to fail. The walk of one bucket goes along all
-- nodes of the table, more than the source reads.
--
-- Parameters. Whether an allocation or a copy between user and kernel space succeeds is a Boolean
-- argument of the operations, in the order of the calls. The operations of file systems (the
-- permission check, the seek, the revalidation of a name, the lookup of a name in a directory) are
-- arguments too. Spinlocks make each locked region one step, and are left out.
--
-- Not modelled: input and output, drivers, boot and traps; the adaptor to ext4, whose library is not
-- part of the repository; vendored projects; the console; what superblocks do besides their lists of inodes, the page cache, the making of
-- processes and the ELF loader, which call these.
pub mod Common
pub mod Bitmap
pub mod Sched
pub mod Mm
pub mod Util
pub mod Vfs
