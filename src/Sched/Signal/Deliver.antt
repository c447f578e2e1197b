-- ===== src/Sched/Signal/Deliver.antt =====
-- What `do_signal_delivery` takes out of the pending set.
use oscomp.Common.{
  ℕ, zero, suc, ◌+◌, ◌-◌, ◌≤◌, ◌<◌, ◌==◌, leb, Bool, true, false, ◌&&◌, ◌≡◌, ◌∙◌, refl, Option,
  none, some, if◌then◌else◌, arith, First-cong, Bool-cases, inl, inr, First, First-append,
  First-none_one,
}
use native.Mathlib.Decide.{ℕ_discrete}
use oscomp.Sched.SigSet.{nsig, bad_signal, has_signal}
use oscomp.Sched.SigSet.Laws.{IsValid, has_signal-del_signal, del_signal-IsValid}
use oscomp.Sched.Signal.{
  Task, Handler, dfl, ign, custom, deliverable, handler_of, take_pending, deliver_from,
  do_signal_delivery,
}

abbrev pub is_custom : Handler → Bool
is_custom dfl = false
is_custom ign = false
is_custom (custom _) = true

-- The loop stops at this signal.
abbrev pub stops : Task → ℕ → Bool
stops t sig = deliverable t sig && is_custom (handler_of t sig)

-- The loop looks at `sig` when it stops at `r`.
abbrev pub looked_at : Option ℕ → ℕ → Bool
looked_at none sig = true
looked_at (some c) sig = leb sig c

-- `t` has become `u` by a loop from `lo` on that stopped at `r`.
record Run (lo : ℕ) (t : Task) (u : Task) (r : Option ℕ) : Type 0 where
  first : First (stops t) lo nsig r
  blocked : u.blocked ≡ t.blocked
  actions : u.sighand ≡ t.sighand
  pid : u.pid ≡ t.pid
  pending :
      (sig : ℕ)
      → 0 < sig
      → sig < nsig
      → has_signal u.pending sig ≡ (
          if leb lo sig && (looked_at r sig && deliverable t sig)
          then false
          else has_signal t.pending sig)

module _ (t : Task) (sig : ℕ) (v : IsValid t.pending) (low : 0 < sig) (high : sig < nsig) where
  -- A signal that is not deliverable is passed over.
  Run-skip :
      {u : Task} {r : Option ℕ} → deliverable t sig ≡ false → Run (sig + 1) t u r → Run sig t u r
  Run-skip {u} {r} e run = record {
    first =
        First-append (stops t) sig (sig + 1) nsig r
          (First-none_one (stops t) sig (sig + 1) refl (ground arith)) (omega arith) run.first;
    blocked = run.blocked;
    actions = run.actions;
    pid = run.pid;
    pending = λ m a b. elim (ℕ_discrete sig m) [
      | yes p ↦ rw (← p) (ground (arith, run.pending sig low high))
      | no p ↦ ground (arith, run.pending m a b)
    ];
  }

  taken :
      (m : ℕ)
      → 0 < m
      → m < nsig
      → has_signal (take_pending t sig).pending m
        ≡ (if sig == m then false else has_signal t.pending m)
  taken m a b = has_signal-del_signal t.pending sig m v low high a b

  same_stops : (m : ℕ) → sig + 1 ≤ m → m < nsig → stops (take_pending t sig) m ≡ stops t m
  same_stops m a b =
      let kept : has_signal (take_pending t sig).pending m ≡ has_signal t.pending m =
        ground (arith, taken m (omega arith) b) in
      rw kept

  looked_past : (r : Option ℕ) → First (stops t) (sig + 1) nsig r → looked_at r sig ≡ true
  looked_past none f = refl
  looked_past (some c) f = ground (arith, f.0)

  -- A signal without a handler is taken out, and the loop goes on.
  Run-take :
      {u : Task} {r : Option ℕ}
      → deliverable t sig ≡ true
      → is_custom (handler_of t sig) ≡ false
      → Run (sig + 1) (take_pending t sig) u r
      → Run sig t u r
  Run-take {u} {r} e plain run =
      let later =
        First-cong (stops (take_pending t sig)) (stops t) (sig + 1) nsig r same_stops run.first in
      record {
        first =
            First-append (stops t) sig (sig + 1) nsig r
              (First-none_one (stops t) sig (sig + 1) refl (rw (e, plain))) (omega arith) later;
        blocked = run.blocked;
        actions = run.actions;
        pid = run.pid;
        pending = λ m a b. elim (ℕ_discrete sig m) [
          | yes p ↦
              rw (← p)
                (ground (arith, run.pending sig low high, taken sig low high, looked_past r later))
          | no p ↦ ground (arith, run.pending m a b, taken m a b)
        ];
      }

  -- A signal with a handler is taken out, and the loop stops.
  Run-stop :
      deliverable t sig ≡ true
      → is_custom (handler_of t sig) ≡ true
      → Run sig t (take_pending t sig) (some sig)
  Run-stop e hit = record {
    first = (omega arith, high, rw (e, hit), λ i le lt. absurd (omega arith));
    blocked = refl;
    actions = refl;
    pid = refl;
    pending = λ m a b. elim (ℕ_discrete sig m) [
      | yes p ↦ rw (← p) (ground (arith, taken sig low high))
      | no p ↦ ground (arith, taken m a b)
    ];
  }

-- One round, at the handler of a deliverable signal; `rest` is the rest of the loop.
abbrev round : Task → ℕ → Task × Option ℕ → Handler → Task × Option ℕ
round t sig rest h = elim h [ dfl ↦ rest | ign ↦ rest | custom _ ↦ (take_pending t sig, some sig) ]

round-Run :
    (t : Task) (sig : ℕ) (rest : Task × Option ℕ) (h : Handler)
    → IsValid t.pending
    → 0 < sig
    → sig < nsig
    → deliverable t sig ≡ true
    → handler_of t sig ≡ h
    → Run (sig + 1) (take_pending t sig) rest.0 rest.1
    → Run sig t (round t sig rest h).0 (round t sig rest h).1
round-Run t sig rest dfl v low high d e run = Run-take t sig v low high d (rw e) run
round-Run t sig rest ign v low high d e run = Run-take t sig v low high d (rw e) run
round-Run t sig rest (custom f) v low high d e run = Run-stop t sig v low high d (rw e)

deliver_from-Run :
    (t : Task) (n sig : ℕ)
    → IsValid t.pending
    → 0 < sig
    → sig + n ≡ nsig
    → Run sig t (deliver_from t n sig).0 (deliver_from t n sig).1
unfolding deliver_from
deliver_from-Run t zero sig v low e = record {
  first = λ i le lt. absurd (omega arith);
  blocked = refl;
  actions = refl;
  pid = refl;
  pending = λ m a b. ground arith;
}
deliver_from-Run t (suc n) sig v low e = elim (Bool-cases (deliverable t sig)) [
  | inl d ↦
      rw (d, deliver_from)
        (round-Run t sig (deliver_from (take_pending t sig) n (sig + 1)) (handler_of t sig) v low
          (omega arith) d refl
          (deliver_from-Run (take_pending t sig) n (sig + 1)
            (del_signal-IsValid t.pending sig v (omega arith)) (omega arith) (omega arith)))
  | inr d ↦
      rw (d, deliver_from)
        (Run-skip t sig v low (omega arith) d
          (deliver_from-Run t n (sig + 1) v (omega arith) (omega arith)))
]

whole :
    (sig : ℕ) (b c d : Bool) → 0 < sig → (if leb 1 sig && b then c else d) ≡ (if b then c else d)
whole sig b c d h = ground arith

-- `do_signal_delivery` stops at the first signal that is pending, not blocked and has a handler, if
-- there is one. It takes out of the pending set the signals that are not blocked, up to that one and
-- with it, and leaves the others pending; the mask and the actions are as before.
pub do_signal_delivery-takes :
    (t : Task) (sig : ℕ)
    → IsValid t.pending
    → bad_signal sig ≡ false
    → let (u, r) = do_signal_delivery t in
      First (stops t) 1 nsig r
      × (has_signal u.pending sig
          ≡ (if looked_at r sig && deliverable t sig then false else has_signal t.pending sig))
      × (u.blocked ≡ t.blocked)
      × (u.sighand ≡ t.sighand)
unfolding do_signal_delivery
do_signal_delivery-takes t sig v good =
    let run = deliver_from-Run t (nsig - 1) 1 v (omega arith) refl in
    let low : 0 < sig = ground arith in
    let high : sig < nsig = ground arith in
    (run.first, run.pending sig low high ∙ whole sig _ _ _ low, run.blocked, run.actions)
