-- ===== src/Sched/Pid/Laws.antt =====
-- A process number is handed out only while it is free, and every free number is found.
use oscomp.Common.{
  ℕ, ◌+◌, ◌-◌, ◌*◌, ◌/◌, ◌%◌, ◌≤◌, ◌<◌, ◌==◌, leb, true, false, ◌||◌, Option, none, some, length,
  if◌then◌else◌, ◌≡◌, refl, ◌⊎◌, inl, inr, arith, scan, First, scan-First, Bool-cases,
}
use oscomp.Common.Errno.{Ret, ok, fail, eagain}
use oscomp.Common.Int.{ℤ, pos, negsuc}
use oscomp.Bitmap.{is_set}
use oscomp.Bitmap.Laws.{
  is_set-setbit, is_set-clearbit, length-setbit, length-clearbit, is_set-replicate,
}
use oscomp.Sched.Pid.{
  PidManager, pid_max, pid_init, current_pid, takes, pid_return, pid_alloc, pid_free,
}

pub record IsValid (m : PidManager) : Type 0 where
  pub next_in : m.next_pid < pid_max
  pub map_size : length m.pid_map * 8 ≡ pid_max

-- The outcome of an allocation from `m`.
abbrev pub Allocated : PidManager → PidManager → Ret → Type 0
Allocated m m' (ok p) =
    (0 < p)
    × (p < pid_max)
    × (is_set m.pid_map p ≡ false)
    × ((q : ℕ) → is_set m'.pid_map q ≡ (if p == q then true else is_set m.pid_map q))
Allocated m m' (fail e) =
    (e ≡ eagain) × (m' ≡ m) × ((q : ℕ) → 0 < q → q < pid_max → is_set m.pid_map q ≡ true)

-- The round in which `q` is looked at.
round_of : (n q : ℕ) → n < pid_max → q < pid_max → (n + (q + pid_max - n) % pid_max) % pid_max ≡ q
round_of n q h g = omega arith

none_free :
    (m : PidManager) (q : ℕ)
    → IsValid m
    → First (takes m) 0 pid_max none
    → 0 < q
    → q < pid_max
    → is_set m.pid_map q ≡ true
none_free m q v f gt lt =
    let i = (q + pid_max - m.next_pid) % pid_max in
    ground (arith, f i (omega arith) (omega arith), round_of m.next_pid q v.next_in lt)

pid_return-Allocated :
    (m : PidManager) (r : Option ℕ)
    → IsValid m
    → First (takes m) 0 pid_max r
    → Allocated m (pid_return m r).0 (pid_return m r).1 × IsValid (pid_return m r).0
unfolding pid_return
pid_return-Allocated m none v f = ((refl, refl, λ q. none_free m q v f), v)
pid_return-Allocated m (some i) v (_, lt, hit, _) =
    let p = current_pid m i in
    (
      (ground arith, omega arith, ground arith, λ q. is_set-setbit m.pid_map p q (omega arith)),
      record { next_in = omega arith; map_size = omega (arith, length-setbit m.pid_map p) },
    )

-- On a valid manager `pid_alloc` returns a number in [1, PID_MAX) that was free, marks it and no
-- other; it fails, with -EAGAIN and no change, only if every number is in use. The manager stays valid.
pub pid_alloc-Allocated :
    (m : PidManager)
    → IsValid m
    → Allocated m (pid_alloc m).0 (pid_alloc m).1 × IsValid (pid_alloc m).0
unfolding pid_alloc
pid_alloc-Allocated m v =
    pid_return-Allocated m (scan (takes m) pid_max 0) v
      (scan-First (takes m) pid_max 0 pid_max refl)

-- The outcome of releasing `pid`: a panic outside [1, PID_MAX), else a manager without it.
abbrev pub Freed : PidManager → ℤ → Option PidManager → Type 0
Freed m (negsuc _) r = r ≡ none
Freed m (pos p) none = (p ≡ 0) ⊎ (pid_max ≤ p)
Freed m (pos p) (some m') =
    (0 < p)
    × (p < pid_max)
    × IsValid m'
    × ((q : ℕ) → is_set m'.pid_map q ≡ (if p == q then false else is_set m.pid_map q))

-- `pid_free` panics on a number outside [1, PID_MAX), and otherwise makes that number free and no
-- other; the manager stays valid.
pub pid_free-Freed : (m : PidManager) (p : ℤ) → IsValid m → Freed m p (pid_free m p)
unfolding pid_free
pid_free-Freed m (negsuc _) v = refl
pid_free-Freed m (pos p) v = elim (Bool-cases (p == 0 || leb pid_max p)) [
  | inl bad ↦
      rw bad
        (elim (Bool-cases (p == 0)) [ inl z ↦ inl (ground arith) | inr z ↦ inr (ground arith) ])
  | inr good ↦ rw good (
    ground arith,
    ground arith,
    record { next_in = v.next_in; map_size = omega (arith, length-clearbit m.pid_map p) },
    λ q. is_set-clearbit m.pid_map p q (ground arith),
  )
]

-- The manager after `pid_init` is valid and has every number free.
pub pid_init-IsValid : IsValid pid_init × ((q : ℕ) → is_set pid_init.pid_map q ≡ false)
unfolding pid_init
pid_init-IsValid =
    (record { next_in = omega arith; map_size = refl }, λ q. is_set-replicate (pid_max / 8) q)
