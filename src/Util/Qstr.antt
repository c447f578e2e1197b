-- ===== src/Util/Qstr.antt =====
-- Strings with their length and hash, kernel/util/qstr.c, over the bytes of memory. Address 0 is null. A
-- byte is a `char`, which has no sign on RISC-V.
pub mod Laws
mod Tests
use oscomp.Common.{
  ℕ, zero, suc, ◌+◌, ◌-◌, ◌*◌, ◌%◌, ◌^◌, ◌==◌, bit_xor, min, ltb, leb, Bool, true, false, not, ◌&&◌,
  ◌||◌, Option, none, some, if◌then◌else◌,
}
use oscomp.Common.Int.{ℤ, pos, negsuc}
use oscomp.Util.Memory.{Memory, memcmp, is_zero}

-- `struct qstr`
pub record Qstr : Type 0 where
  pub name : ℕ
  pub len : ℕ
  pub hash : ℕ

-- `current_hash_algorithm`
pub data Algorithm : Type 0 where
  fnv1a djbx33a : Algorithm

-- The loop with `n` characters left.
pub fnv1a_from : Memory → ℕ → ℕ → ℕ → ℕ
fnv1a_from m p zero hash = hash
fnv1a_from m p (suc n) hash = fnv1a_from m (p + 1) n (bit_xor hash (m p) * 16777619 % 2 ^ 32)

pub fnv1a_hash : Memory → ℕ → ℕ → ℕ
unfolding fnv1a_from
fnv1a_hash m str len = fnv1a_from m str len 2166136261

pub djbx33a_from : Memory → ℕ → ℕ → ℕ → ℕ
djbx33a_from m p zero hash = hash
djbx33a_from m p (suc n) hash =
    djbx33a_from m (p + 1) n (bit_xor ((hash * 32 + hash) % 2 ^ 32) (m p))

pub djbx33a_hash : Memory → ℕ → ℕ → ℕ
unfolding djbx33a_from
djbx33a_hash m str len = djbx33a_from m str len 5381

pub qstr_hash : Algorithm → Memory → ℕ → ℕ → ℕ
unfolding fnv1a_hash djbx33a_hash
qstr_hash fnv1a m name len = if name == 0 then 0 else fnv1a_hash m name len
qstr_hash djbx33a m name len = if name == 0 then 0 else djbx33a_hash m name len

pub qstr_update_hash : Algorithm → Memory → Qstr → Qstr
unfolding qstr_hash
qstr_update_hash alg m q =
    if q.name == 0 then q else record q { hash = qstr_hash alg m q.name q.len }

-- A null `name` leaves the string as it was.
pub qstr_init_from_str_with_len : Algorithm → Memory → Qstr → ℕ → ℕ → Qstr
unfolding qstr_hash
qstr_init_from_str_with_len alg m q name len =
    if name == 0 then q else record { name = name; len = len; hash = qstr_hash alg m name len }

abbrev pub compare_nat : ℕ → ℕ → ℤ
compare_nat a b = if ltb a b then negsuc 0 else if ltb b a then pos 1 else pos 0

-- The comparison of two strings that are there.
pub compare_names : Memory → Qstr → Qstr → ℤ
compare_names m a b =
    let result = memcmp m a.name b.name (min a.len b.len) in
    if not (a.hash == b.hash)
    then compare_nat a.hash b.hash
    else if not (is_zero result)
    then result
    else compare_nat a.len b.len

pub qstr_compare : Memory → Option Qstr → Option Qstr → ℤ
unfolding compare_names
qstr_compare m none none = pos 0
qstr_compare m none (some b) = negsuc 0
qstr_compare m (some a) none = if a.name == 0 then pos 0 else pos 1
qstr_compare m (some a) (some b) =
    if a.name == 0 then negsuc 0 else if b.name == 0 then pos 1 else compare_names m a b

unfoldable pub qstr_eq : Memory → Option Qstr → Option Qstr → Bool
qstr_eq m none b = false
qstr_eq m (some a) none = false
qstr_eq m (some a) (some b) =
    if not (a.hash == b.hash)
    then false
    else if not (a.len == b.len)
    then false
    else is_zero (memcmp m a.name b.name a.len)

-- `if (c >= 'A' && c <= 'Z') c += 'a' - 'A';`
abbrev pub fold_case : ℕ → ℕ
fold_case c = if leb 65 c && leb c 90 then c + 32 else c

-- The loop of `qstr_case_compare`; `pos 0` where it ends without a return.
pub case_compare : Memory → ℕ → ℕ → ℕ → ℤ
case_compare m p q zero = pos 0
case_compare m p q (suc n) =
    let rest = case_compare m (p + 1) (q + 1) n in
    if not (fold_case (m p) == fold_case (m q))
    then compare_nat (fold_case (m p)) (fold_case (m q))
    else rest

pub qstr_case_compare : Memory → Option Qstr → Option Qstr → ℤ
unfolding case_compare
qstr_case_compare m none none = pos 0
qstr_case_compare m none (some b) = negsuc 0
qstr_case_compare m (some a) none = if a.name == 0 then pos 0 else pos 1
qstr_case_compare m (some a) (some b) =
    let result = case_compare m a.name b.name (min a.len b.len) in
    if a.name == 0
    then negsuc 0
    else if b.name == 0
    then pos 1
    else if not (is_zero result)
    then result
    else compare_nat a.len b.len

pub qstr_case_eq : Memory → Option Qstr → Option Qstr → Bool
unfolding case_compare
qstr_case_eq m none b = false
qstr_case_eq m (some a) none = false
qstr_case_eq m (some a) (some b) =
    if not (a.len == b.len) then false else is_zero (case_compare m a.name b.name a.len)

pub qstr_prefix_compare : Memory → Option Qstr → Option Qstr → Bool
qstr_prefix_compare m none str = false
qstr_prefix_compare m (some p) none = false
qstr_prefix_compare m (some p) (some s) =
    if ltb s.len p.len then false else is_zero (memcmp m p.name s.name p.len)
