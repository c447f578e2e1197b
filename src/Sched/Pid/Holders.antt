-- ===== src/Sched/Pid/Holders.antt =====
-- Over every sequence of allocations and releases: who holds which number.
use oscomp.Common.{
  ℕ, ◌+◌, ◌≤◌, ◌<◌, ◌==◌, ◌≡◌, some, List, [], ◌∷◌, arith, if◌then◌else◌, Bool-cases, inl, inr,
}
use oscomp.Common.Errno.{Errno, ok, fail}
use oscomp.Common.Int.{pos}
use oscomp.Bitmap.{is_set}
use oscomp.Sched.Pid.{PidManager, pid_init, pid_alloc, pid_free}
use oscomp.Sched.Pid.Laws.{
  IsValid, Allocated, Freed, pid_alloc-Allocated, pid_free-Freed, pid_init-IsValid,
}

-- How many of the holders have `p`.
abbrev pub count : ℕ → List ℕ → ℕ
count p [] = 0
count p (q ∷ qs) = (if q == p then 1 else 0) + count p qs

-- One holder of `p` less.
abbrev pub drop_one : ℕ → List ℕ → List ℕ
drop_one p [] = []
drop_one p (q ∷ qs) = if q == p then qs else q ∷ drop_one p qs

-- The states that calls lead to, with the numbers handed out and not yet given back. A number is
-- given back only by a holder.
pub data Reach : PidManager → List ℕ → Type 0 where
  start : Reach pid_init []
  allocate :
      {m m' : PidManager} {held : List ℕ} {p : ℕ}
      → Reach m held
      → pid_alloc m ≡ (m', ok p)
      → Reach m' (p ∷ held)
  refuse :
      {m m' : PidManager} {held : List ℕ} {e : Errno}
      → Reach m held
      → pid_alloc m ≡ (m', fail e)
      → Reach m' held
  release :
      {m m' : PidManager} {held : List ℕ} (p : ℕ)
      → Reach m held
      → 0 < count p held
      → pid_free m (pos p) ≡ some m'
      → Reach m' (drop_one p held)

count-drop_one :
    (p q : ℕ) (held : List ℕ)
    → 0 < count p held
    → count q (drop_one p held) + (if p == q then 1 else 0) ≡ count q held
count-drop_one p q [] h = absurd (omega arith)
count-drop_one p q (x ∷ xs) h = elim (Bool-cases (x == p)) [
  | inl t ↦ ground arith
  | inr t ↦ ground (arith, count-drop_one p q xs)
]

record Exact (m : PidManager) (held : List ℕ) : Type 0 where
  valid : IsValid m
  exact : (p : ℕ) → count p held ≡ (if is_set m.pid_map p then 1 else 0)

Reach-Exact : {m : PidManager} {held : List ℕ} → Reach m held → Exact m held
Reach-Exact start = record {
  valid = pid_init-IsValid.0;
  exact = λ p. ground (arith, pid_init-IsValid.1 p);
}
Reach-Exact (allocate {m = m} {m' = m'} {p = p} r e) =
    let x = Reach-Exact r in
    let (a, v) = pid_alloc-Allocated m x.valid in
    let a' : Allocated m m' (ok p) = rw e at a in
    record { valid = rw e at v; exact = λ q. ground (arith, x.exact q, a'.3 q) }
Reach-Exact (refuse {m = m} {m' = m'} {e = x'} r e) =
    let x = Reach-Exact r in
    let (a, v) = pid_alloc-Allocated m x.valid in
    let a' : Allocated m m' (fail x') = rw e at a in rw a'.1 x
Reach-Exact (release {m = m} {m' = m'} {held = held} p r h e) =
    let x = Reach-Exact r in
    let f = pid_free-Freed m (pos p) x.valid in
    let f' : Freed m (pos p) (some m') = rw e at f in
    record {
      valid = f'.2;
      exact = λ q. ground (arith, count-drop_one p q held h, x.exact q, x.exact p, f'.3 q);
    }

-- After any sequence of allocations and of releases by holders, every number has at most one holder,
-- and exactly the numbers that are held are marked in the map.
pub Reach-unique :
    {m : PidManager} {held : List ℕ} (p : ℕ)
    → Reach m held
    → (count p held ≤ 1) × (count p held ≡ (if is_set m.pid_map p then 1 else 0))
Reach-unique p r = let x = Reach-Exact r in (ground (arith, x.exact p), x.exact p)
