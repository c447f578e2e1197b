-- ===== src/Util/Qstr/Laws.antt =====
-- Equality of hashed strings.
use oscomp.Common.{
  ℕ, zero, suc, ◌+◌, ◌==◌, true, false, some, ◌≡◌, ◌↔◌, refl, ◌∙◌, ap, sym, arith, Bool-cases, inl,
  inr,
}
use oscomp.Util.Memory.{Memory}
use oscomp.Util.Memory.Compare.{Agree, Agree-head, Agree-tail, memcmp-Agree}
use oscomp.Util.Qstr.{
  Qstr, Algorithm, fnv1a, djbx33a, fnv1a_from, fnv1a_hash, djbx33a_from, djbx33a_hash, qstr_hash,
  qstr_eq,
}

-- Equal bytes have equal hashes.
fnv1a_from-Agree :
    (m : Memory) (p q n h : ℕ) → Agree m p q n → fnv1a_from m p n h ≡ fnv1a_from m q n h
unfolding fnv1a_from
fnv1a_from-Agree m p q zero h a = refl
fnv1a_from-Agree m p q (suc n) h a =
    rw (Agree-head m p q n a) (fnv1a_from-Agree m (p + 1) (q + 1) n _ (Agree-tail m p q n a))

djbx33a_from-Agree :
    (m : Memory) (p q n h : ℕ) → Agree m p q n → djbx33a_from m p n h ≡ djbx33a_from m q n h
unfolding djbx33a_from
djbx33a_from-Agree m p q zero h a = refl
djbx33a_from-Agree m p q (suc n) h a =
    rw (Agree-head m p q n a) (djbx33a_from-Agree m (p + 1) (q + 1) n _ (Agree-tail m p q n a))

qstr_hash-Agree :
    (alg : Algorithm) (m : Memory) (p q n : ℕ)
    → (p == 0) ≡ false
    → (q == 0) ≡ false
    → Agree m p q n
    → qstr_hash alg m p n ≡ qstr_hash alg m q n
unfolding qstr_hash fnv1a_hash djbx33a_hash
qstr_hash-Agree fnv1a m p q n e f a = rw (e, f) (fnv1a_from-Agree m p q n 2166136261 a)
qstr_hash-Agree djbx33a m p q n e f a = rw (e, f) (djbx33a_from-Agree m p q n 5381 a)

-- The hash belongs to the bytes of the name.
pub record IsHashed (alg : Algorithm) (m : Memory) (a : Qstr) : Type 0 where
  pub named : (a.name == 0) ≡ false
  pub hashed : a.hash ≡ qstr_hash alg m a.name a.len

-- `qstr_eq` of two strings whose hashes belong to their names, by the same algorithm, returns 1 exactly
-- if the lengths and the bytes are the same: the comparison of the hashes changes no answer.
pub qstr_eq-Agree :
    (alg : Algorithm) (m : Memory) (a b : Qstr)
    → IsHashed alg m a
    → IsHashed alg m b
    → (qstr_eq m (some a) (some b) ≡ true) ↔ ((a.len ≡ b.len) × Agree m a.name b.name a.len)
unfolding qstr_eq
qstr_eq-Agree alg m a b h g = (there, back)
  where
    there : qstr_eq m (some a) (some b) ≡ true → (a.len ≡ b.len) × Agree m a.name b.name a.len
    there e = elim (Bool-cases (a.hash == b.hash)) [
      | inr t ↦ absurd (ground (arith, rw t at e))
      | inl t ↦ elim (Bool-cases (a.len == b.len)) [
        | inr u ↦ absurd (ground (arith, rw (t, u) at e))
        | inl u ↦ (ground (arith, u), (memcmp-Agree m a.name b.name a.len).0 (rw (t, u) at e))
      ]
    ]

    back : (a.len ≡ b.len) × Agree m a.name b.name a.len → qstr_eq m (some a) (some b) ≡ true
    back (l, agree) =
        let hashes : a.hash ≡ b.hash =
          h.hashed
          ∙ qstr_hash-Agree alg m a.name b.name a.len h.named g.named agree
          ∙ ap (qstr_hash alg m b.name) l
          ∙ sym g.hashed in
        let same_hash : (a.hash == b.hash) ≡ true = ground (arith, hashes) in
        let same_len : (a.len == b.len) ≡ true = ground (arith, l) in
        rw (same_hash, same_len) ((memcmp-Agree m a.name b.name a.len).1 agree)
