-- ===== src/Alarms/Procs.antt =====
-- The timer procs of a test.
use i_perf_demo_runtime.Common.{
  Bool, List, Option, Option-cases, ap, arith, false, if◌then◌else◌, inl, inr, none, refl, some,
  true, ℕ, ◌∙◌, ◌∷◌, ◌≡◌,
}
use i_perf_demo_runtime.Timer.{
  Timer, Timers, Timeval, add_usecs, list_remove, list_resort, lookup_next, tmr_reset,
}
use i_perf_demo_runtime.Timer.Order.{IsNormal, list_add_lem}
use i_perf_demo_runtime.Timer.Invariant.{
  count_addr, count_addr-list_add, count_addr-list_remove, lookup_next-addr, tmr_reset-IsWellFormed,
}
use i_perf_demo_runtime.Alarms.{
  Alarm, Alarms, alarm_proc, end_omission, omit_timer, omit_timer_proc, repeats, reporter_callback,
  reporter_timer, reporter_timer_proc, reset_alarm, reset_at, send_timer, send_timer_proc,
  set_pointer, stats_callback, stats_timer, stats_timer_proc, test_timer, test_timer_proc,
}
use i_perf_demo_runtime.Alarms.Kinds.{count_alarm}
use i_perf_demo_runtime.Alarms.Held.{Held, Points-le, Points-lookup, count_alarm-tmr_reset}
use i_perf_demo_runtime.Timer.Runs.{lookup_next_self}
use i_perf_demo_runtime.Alarms.Releasing.{Held-null, Points-at}

-- The two queues have the same timers, up to their times.
abbrev pub Same : List Timer → List Timer → Type 0
Same l m =
    (x : ℕ)
    → (count_addr x l ≡ count_addr x m) × ((k : Alarm) → count_alarm x k l ≡ count_alarm x k m)

-- What a timer proc may do.
pub record Proc (k : Alarm) (a b : Alarms) : Type 0 where
  pub held : Held b
  pub same : Same b.queue.timers a.queue.timers
  pub null : repeats k ≡ false → b.pointer k ≡ none

pub count_addr-tmr_reset :
    (x : ℕ) (now : Timeval) (b : ℕ) (s : Timers)
    → count_addr x (tmr_reset now b s).timers ≡ count_addr x s.timers
unfolding tmr_reset list_resort
count_addr-tmr_reset x now b s = elim (Option-cases (lookup_next b s.timers)) [
  | inl e ↦ rw (e, tmr_reset) refl
  | inr ((t, n), e) ↦
      let t' : Timer = record t { time = add_usecs now t.usecs } in
      let here = lookup_next-addr t.addr s.timers (lookup_next_self b s.timers e) in
      rw (e, tmr_reset, list_add_lem t' (list_remove t.addr s.timers))
        (ground (
          arith,
          count_addr-list_add x t' (list_remove t.addr s.timers),
          count_addr-list_remove x t.addr s.timers here.1,
        ))
]

Same-tmr_reset : (now : Timeval) (b : ℕ) (s : Timers) → Same (tmr_reset now b s).timers s.timers
Same-tmr_reset now b s x = (count_addr-tmr_reset x now b s, λ k. count_alarm-tmr_reset x k now b s)

-- Resetting a timer leaves the pointers and, but for times, the queue.
record Resets (a b : Alarms) : Type 0 where
  pub held : Held b
  pub same : Same b.queue.timers a.queue.timers
  pointers : b.pointer ≡ a.pointer

Resets-refl : (a : Alarms) → Held a → Resets a a
Resets-refl a h = record { held = h; same = λ x. (refl, λ k. refl); pointers = refl }

reset_alarm-lem :
    (now : Timeval) (x : ℕ) (a : Alarms) {u : Timer × Option ℕ}
    → lookup_next x a.queue.timers ≡ some u
    → reset_alarm now x a ≡ record a { queue = tmr_reset now x a.queue }
unfolding reset_alarm
reset_alarm-lem now x a e = rw (e, reset_alarm) refl

Resets-tmr_reset :
    (now : Timeval) (x : ℕ) (a : Alarms)
    → IsNormal now
    → Held a
    → Resets a (record a { queue = tmr_reset now x a.queue })
Resets-tmr_reset now x a hn h =
    let same = Same-tmr_reset now x a.queue in
    record {
      held = record {
        wf = tmr_reset-IsWellFormed now x a.queue hn h.wf;
        each = λ j.
            Points-le j (a.pointer j) a.queue.timers (tmr_reset now x a.queue).timers
              (λ y r. omega (arith, (same y).1 j)) (h.each j);
        fresh = h.fresh;
      };
      same = same;
      pointers = refl;
    }

Resets-reset_at :
    (now : Timeval) (k : Alarm) (a : Alarms) → IsNormal now → Held a → Resets a (reset_at now k a)
unfolding reset_at
Resets-reset_at now k a hn h = elim (Option-cases (a.pointer k)) [
  | inl e ↦ rw (e, reset_at) (Resets-refl a h)
  | inr (x, e) ↦
      let (u, q) = Points-lookup k x a.queue (Points-at k x a h e) in
      rw (e, reset_at, reset_alarm-lem now x a q) (Resets-tmr_reset now x a hn h)
]

Resets-trans : (a b c : Alarms) → Resets a b → Resets b c → Resets a c
Resets-trans a b c p q = record {
  held = q.held;
  same = λ x. ((q.same x).0 ∙ (p.same x).0, λ k. (q.same x).1 k ∙ (p.same x).1 k);
  pointers = q.pointers ∙ p.pointers;
}

-- What `Held` reads is the same in the two.
pub Held-copy :
    (a b : Alarms) → Held a → b.pointer ≡ a.pointer → b.queue ≡ a.queue → b.stale ≡ a.stale → Held b
Held-copy a b h p q f = record {
  wf = rw q h.wf;
  each = λ j. rw (p, q) (h.each j);
  fresh = f ∙ h.fresh;
}

-- The test's own pointer is NULL, and nothing else happens to the timers.
Proc-null :
    (k : Alarm) (a b : Alarms)
    → Held a
    → b.pointer ≡ (set_pointer k none a).pointer
    → b.queue ≡ a.queue
    → b.stale ≡ a.stale
    → Proc k a b
unfolding set_pointer
Proc-null k a b h p q f = record {
  held = Held-copy (set_pointer k none a) b (Held-null k a h) p q f;
  same = λ x. (rw q refl, λ j. rw q refl);
  null = λ r. ap (λ p. p k) p ∙ own;
}
  where
    own : (set_pointer k none a).pointer k ≡ none
    own = ground arith

Proc-same :
    (k : Alarm) (a b : Alarms)
    → Held a
    → repeats k ≡ true
    → b.pointer ≡ a.pointer
    → b.queue ≡ a.queue
    → b.stale ≡ a.stale
    → Proc k a b
Proc-same k a b h r p q f = record {
  held = Held-copy a b h p q f;
  same = λ x. (rw q refl, λ j. rw q refl);
  null = λ e. absurd (cc);
}

Proc-Resets : (k : Alarm) (a b c : Alarms) → Proc k a b → Resets b c → Proc k a c
Proc-Resets k a b c p r = record {
  held = r.held;
  same = λ x. ((r.same x).0 ∙ (p.same x).0, λ j. (r.same x).1 j ∙ (p.same x).1 j);
  null = λ e. ap (λ p. p k) r.pointers ∙ p.null e;
}

Proc-if :
    (k : Alarm) (a b : Alarms) (d : Bool) → Proc k a a → Proc k a b → Proc k a (if d then a else b)
Proc-if k a b true p q = p
Proc-if k a b false p q = q

pub alarm_proc-Proc :
    (k : Alarm) (now : Timeval) (a : Alarms) → IsNormal now → Held a → Proc k a (alarm_proc k now a)
unfolding alarm_proc
alarm_proc-Proc test_timer now a hn h =
    unfold test_timer_proc in Proc-null test_timer a _ h refl refl refl
alarm_proc-Proc stats_timer now a hn h =
    unfold stats_timer_proc in
    Proc-if stats_timer a (record a { callbacks = stats_callback ∷ a.callbacks }) a.test.done
      (Proc-same stats_timer a _ h refl refl refl refl)
      (Proc-same stats_timer a _ h refl refl refl refl)
alarm_proc-Proc reporter_timer now a hn h =
    unfold reporter_timer_proc in
    Proc-if reporter_timer a (record a { callbacks = reporter_callback ∷ a.callbacks }) a.test.done
      (Proc-same reporter_timer a _ h refl refl refl refl)
      (Proc-same reporter_timer a _ h refl refl refl refl)
alarm_proc-Proc omit_timer now a hn h =
    let b = end_omission now a in
    let first : Proc omit_timer a b =
      unfold end_omission in Proc-null omit_timer a _ h refl refl refl in
    let p = Resets-reset_at now stats_timer b hn first.held in
    let q = Resets-reset_at now reporter_timer (reset_at now stats_timer b) hn p.held in
    unfold omit_timer_proc in Proc-Resets omit_timer a b _ first (Resets-trans b _ _ p q)
alarm_proc-Proc (send_timer n) now a hn h =
    unfold send_timer_proc in Proc-same (send_timer n) a _ h refl refl refl refl
