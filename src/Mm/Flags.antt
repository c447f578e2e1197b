-- ===== src/Mm/Flags.antt =====
-- Conversions between the three sets of protection flags, kernel/mm/mmap.c: PROT_ flags of the system
-- calls, VM_ flags of an area, and the bits of a page table entry. A flag is the number of its bit.
pub mod Laws
mod Tests
use oscomp.Common.{ℕ, ◌==◌, Bool, not, ◌||◌, if◌then◌else◌}
use oscomp.Common.Bits.{test_bit, set_bit}

abbrev pub prot_read : ℕ
prot_read = 0

abbrev pub prot_write : ℕ
prot_write = 1

abbrev pub prot_exec : ℕ
prot_exec = 2

abbrev pub vm_read : ℕ
vm_read = 0

abbrev pub vm_write : ℕ
vm_write = 1

abbrev pub vm_exec : ℕ
vm_exec = 2

abbrev pub vm_private : ℕ
vm_private = 4

abbrev pub vm_mayread : ℕ
vm_mayread = 5

abbrev pub vm_maywrite : ℕ
vm_maywrite = 6

abbrev pub vm_mayexec : ℕ
vm_mayexec = 7

abbrev pub vm_growsup : ℕ
vm_growsup = 10

abbrev pub vm_user : ℕ
vm_user = 11

abbrev pub pte_v : ℕ
pte_v = 0

abbrev pub pte_r : ℕ
pte_r = 1

abbrev pub pte_w : ℕ
pte_w = 2

abbrev pub pte_x : ℕ
pte_x = 3

abbrev pub pte_u : ℕ
pte_u = 4

abbrev pub pte_a : ℕ
pte_a = 6

abbrev pub pte_d : ℕ
pte_d = 7

-- `if (b) x |= 1 << k;`
abbrev pub set_if : Bool → ℕ → ℕ → ℕ
set_if b x k = if b then set_bit x k else x

-- `if (b) x |= 1 << j | 1 << k;`
abbrev pub set_both : Bool → ℕ → ℕ → ℕ → ℕ
set_both b x j k = if b then set_bit (set_bit x j) k else x

-- The flags of an area for reading, writing and executing, with the permissions to ask for them.
pub area_flags : Bool → Bool → Bool → ℕ
area_flags r w x =
    set_both x (set_both w (set_both r 0 vm_read vm_mayread) vm_write vm_maywrite) vm_exec
      vm_mayexec

-- The bits of an entry for reading, writing and executing.
pub entry_bits : Bool → Bool → Bool → ℕ
entry_bits r w x = set_both x (set_both w (set_both r 0 pte_r pte_a) pte_w pte_d) pte_x pte_a

pub prot_to_vm_flags : ℕ → ℕ
unfolding area_flags
prot_to_vm_flags prot =
    area_flags (test_bit prot prot_read) (test_bit prot prot_write) (test_bit prot prot_exec)

-- `perm` when the flags of `prot` are read.
pub with_default : ℕ → Bool → ℕ
with_default perm user = set_if user (if perm == 0 then set_bit 0 pte_r else perm) pte_u

pub prot_to_type : ℕ → Bool → ℕ
unfolding entry_bits with_default
prot_to_type prot user =
    with_default
      (entry_bits (test_bit prot prot_read) (test_bit prot prot_write) (test_bit prot prot_exec))
      user

-- The end of `vm_flags_to_type`, when the flags are read.
pub valid_or_none : ℕ → ℕ
valid_or_none perm =
    if not (test_bit perm pte_r || test_bit perm pte_w || test_bit perm pte_x)
    then set_bit 0 pte_v
    else perm

pub vm_flags_to_type : ℕ → ℕ
unfolding entry_bits valid_or_none
vm_flags_to_type f =
    let perm = entry_bits (test_bit f vm_read) (test_bit f vm_write) (test_bit f vm_exec) in
    valid_or_none (set_bit (set_if (test_bit f vm_user) perm pte_u) pte_v)

pub type_to_vm_flags : ℕ → ℕ
unfolding area_flags
type_to_vm_flags p =
    let flags = area_flags (test_bit p pte_r) (test_bit p pte_w) (test_bit p pte_x) in
    set_if (test_bit p pte_u) flags vm_user
