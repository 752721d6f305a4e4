-- ===== src/Alarms/Releasing.antt =====
-- Cancelling timers through the pointers of a test.
use i_perf_demo_runtime.Common.{
  Bool-cases, Option, Option-cases, arith, false, inl, inr, none, refl, some, ℕ, ◌==◌, ◌≡◌, ◌≢◌,
}
use i_perf_demo_runtime.Timer.{Timer, Timers, list_remove, lookup_next, tmr_cancel}
use i_perf_demo_runtime.Timer.Invariant.{IsWellFormed, tmr_cancel-IsWellFormed}
use i_perf_demo_runtime.Alarms.{Alarm, Alarms, cancel_alarm, cancel_at, proc_of, set_pointer}
use i_perf_demo_runtime.Alarms.Kinds.{count_alarm-list_remove, is_at}
use i_perf_demo_runtime.Alarms.Held.{
  Held, Points, Points-IsActive, Points-le, Points-lookup, is_at-elsewhere,
}
use mathlib.Core.Path.{subst}

-- A pointer is set, and the queue may change, as long as the pointers that are left lead to timers.
pub Held-set_pointer :
    (k : Alarm) (p : Option ℕ) (a : Alarms)
    → IsWellFormed a.queue
    → a.stale ≡ false
    → ((j : Alarm) → proc_of j ≡ proc_of k → Points j p a.queue.timers)
    → ((j : Alarm) → proc_of j ≢ proc_of k → Points j (a.pointer j) a.queue.timers)
    → Held (set_pointer k p a)
unfolding set_pointer
Held-set_pointer k p a w f here there = record {
  wf = w;
  each = λ j. elim (Bool-cases (proc_of j == proc_of k)) [
    | inl e ↦ rw e (here j (ground arith))
    | inr e ↦ rw e (there j (ground arith))
  ];
  fresh = f;
}

pub Held-null : (k : Alarm) (a : Alarms) → Held a → Held (set_pointer k none a)
Held-null k a h = Held-set_pointer k none a h.wf h.fresh (λ j e. tt) (λ j e. h.each j)

pub cancel_alarm-lem :
    (x : ℕ) (a : Alarms) {u : Timer × Option ℕ}
    → lookup_next x a.queue.timers ≡ some u
    → cancel_alarm x a ≡ record a { queue = tmr_cancel x a.queue }
unfolding cancel_alarm
cancel_alarm-lem x a e = rw (e, cancel_alarm) refl

-- What the other pointers lead to is still there when a timer is cancelled.
pub Points-tmr_cancel :
    (j : Alarm) (p : Option ℕ) (x : ℕ) (s : Timers) {t : Timer} {n : Option ℕ}
    → lookup_next x s.timers ≡ some (t, n)
    → ((y : ℕ) → p ≡ some y → is_at y j t ≡ 0)
    → Points j p s.timers
    → Points j p (tmr_cancel x s).timers
unfolding tmr_cancel
Points-tmr_cancel j p x s e h q =
    Points-le j p s.timers (list_remove x s.timers)
      (λ y r. omega (arith, h y r, count_alarm-list_remove y j x s.timers e)) q

pub Points-at :
    (k : Alarm) (x : ℕ) (a : Alarms)
    → Held a
    → a.pointer k ≡ some x
    → Points k (some x) a.queue.timers
Points-at k x a h e = subst (λ p. Points k p a.queue.timers) e (h.each k)

pub Held-cancel_at : (k : Alarm) (a : Alarms) → Held a → Held (cancel_at k a)
unfolding cancel_at
Held-cancel_at k a h = elim (Option-cases (a.pointer k)) [
  | inl e ↦ rw (e, cancel_at) h
  | inr (x, e) ↦
      let here : Points k (some x) a.queue.timers = Points-at k x a h e in
      let ((t, n), q) = Points-lookup k x a.queue here in
      let b : Alarms = record a { queue = tmr_cancel x a.queue } in
      rw (e, cancel_at, cancel_alarm-lem x a q)
        (Held-set_pointer k none b
          (tmr_cancel-IsWellFormed a.queue x h.wf (Points-IsActive k x a.queue here)) h.fresh
          (λ j f. tt)
          (λ j f.
            Points-tmr_cancel j (a.pointer j) x a.queue q
              (λ y r. is_at-elsewhere j k x y a.queue h.wf f here q) (h.each j)))
]
