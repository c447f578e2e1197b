-- ===== src/Mm/Flags/Laws.antt =====
-- What the conversions keep.
use oscomp.Common.{ℕ, Bool, true, false, not, ◌&&◌, ◌||◌, ◌≡◌, refl}
use oscomp.Common.Bits.{test_bit, set_bit}
use oscomp.Mm.Flags.{
  vm_read, vm_write, vm_exec, vm_user, pte_r, pte_w, pte_x, pte_v, pte_u, prot_read, prot_write,
  prot_exec, set_if, prot_to_type, vm_flags_to_type, type_to_vm_flags, area_flags, entry_bits,
  valid_or_none, with_default,
}

-- Whether the bits of reading, writing, executing and of the user in `p` are the four given.
abbrev pub Reads : ℕ → Bool → Bool → Bool → Bool → Type 0
Reads f r w x u =
    (test_bit f vm_read ≡ r)
    × (test_bit f vm_write ≡ w)
    × (test_bit f vm_exec ≡ x)
    × (test_bit f vm_user ≡ u)

round_trip :
    (r w x u : Bool)
    → Reads
        (type_to_vm_flags (valid_or_none (set_bit (set_if u (entry_bits r w x) pte_u) pte_v)))
        r
        w
        x
        (u && (r || w || x))
unfolding type_to_vm_flags valid_or_none entry_bits area_flags test_bit set_bit
round_trip true true true true = (refl, refl, refl, refl)
round_trip true true true false = (refl, refl, refl, refl)
round_trip true true false true = (refl, refl, refl, refl)
round_trip true true false false = (refl, refl, refl, refl)
round_trip true false true true = (refl, refl, refl, refl)
round_trip true false true false = (refl, refl, refl, refl)
round_trip true false false true = (refl, refl, refl, refl)
round_trip true false false false = (refl, refl, refl, refl)
round_trip false true true true = (refl, refl, refl, refl)
round_trip false true true false = (refl, refl, refl, refl)
round_trip false true false true = (refl, refl, refl, refl)
round_trip false true false false = (refl, refl, refl, refl)
round_trip false false true true = (refl, refl, refl, refl)
round_trip false false true false = (refl, refl, refl, refl)
round_trip false false false true = (refl, refl, refl, refl)
round_trip false false false false = (refl, refl, refl, refl)

-- The flags of an area survive the round trip through a page table entry: reading, writing and
-- executing always, access by the user if some access is allowed at all.
pub type_to_vm_flags-vm_flags_to_type :
    (f : ℕ)
    → Reads
        (type_to_vm_flags (vm_flags_to_type f))
        (test_bit f vm_read)
        (test_bit f vm_write)
        (test_bit f vm_exec)
        (test_bit f vm_user && (test_bit f vm_read || test_bit f vm_write || test_bit f vm_exec))
unfolding vm_flags_to_type
type_to_vm_flags-vm_flags_to_type f =
    round_trip (test_bit f vm_read) (test_bit f vm_write) (test_bit f vm_exec) (test_bit f vm_user)

entry_of :
    (r w x u : Bool)
    → (test_bit (with_default (entry_bits r w x) u) pte_r ≡ (r || not (w || x)))
      × (test_bit (with_default (entry_bits r w x) u) pte_w ≡ w)
      × (test_bit (with_default (entry_bits r w x) u) pte_x ≡ x)
      × (test_bit (with_default (entry_bits r w x) u) pte_u ≡ u)
unfolding with_default entry_bits test_bit set_bit
entry_of true true true true = (refl, refl, refl, refl)
entry_of true true true false = (refl, refl, refl, refl)
entry_of true true false true = (refl, refl, refl, refl)
entry_of true true false false = (refl, refl, refl, refl)
entry_of true false true true = (refl, refl, refl, refl)
entry_of true false true false = (refl, refl, refl, refl)
entry_of true false false true = (refl, refl, refl, refl)
entry_of true false false false = (refl, refl, refl, refl)
entry_of false true true true = (refl, refl, refl, refl)
entry_of false true true false = (refl, refl, refl, refl)
entry_of false true false true = (refl, refl, refl, refl)
entry_of false true false false = (refl, refl, refl, refl)
entry_of false false true true = (refl, refl, refl, refl)
entry_of false false true false = (refl, refl, refl, refl)
entry_of false false false true = (refl, refl, refl, refl)
entry_of false false false false = (refl, refl, refl, refl)

-- `prot_to_type` allows to write and to execute what `prot` allows, to read what it allows or where it
-- allows nothing, and the user's access as asked.
pub prot_to_type-allows :
    (prot : ℕ) (user : Bool)
    → (test_bit (prot_to_type prot user) pte_r
        ≡ (test_bit prot prot_read || not (test_bit prot prot_write || test_bit prot prot_exec)))
      × (test_bit (prot_to_type prot user) pte_w ≡ test_bit prot prot_write)
      × (test_bit (prot_to_type prot user) pte_x ≡ test_bit prot prot_exec)
      × (test_bit (prot_to_type prot user) pte_u ≡ user)
unfolding prot_to_type
prot_to_type-allows prot user =
    entry_of (test_bit prot prot_read) (test_bit prot prot_write) (test_bit prot prot_exec) user
