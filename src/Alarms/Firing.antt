-- ===== src/Alarms/Firing.antt =====
-- A timer of a test fires.
use i_perf_demo_runtime.Common.{
  Bool, Bool-cases, Option, Option-cases, ap, arith, false, if◌then◌else◌, inl, inr, none, refl,
  some, sym, true, ℕ, ◌==◌, ◌∙◌, ◌≡◌, ◌≤◌,
}
use i_perf_demo_runtime.Timer.{
  Timer, Timers, Timeval, add_usecs, fire, list_resort, lookup_next, tmr_after, tmr_cancel,
}
use i_perf_demo_runtime.Timer.Order.{IsNormal}
use i_perf_demo_runtime.Timer.Invariant.{
  IsWellFormed, lookup_next-All, lookup_next-addr, tmr_after-IsWellFormed,
}
use i_perf_demo_runtime.Alarms.{
  Alarm, Alarms, alarm_of, alarm_proc, fire_alarm, proc_of, repeats, timer_proc,
}
use i_perf_demo_runtime.Alarms.Kinds.{
  alarm_of-proc_of, count_alarm, count_alarm-list_remove, is_at, is_at-none, is_at-other,
  is_at-repeats,
}
use i_perf_demo_runtime.Alarms.Held.{Held, Points-le, count_alarm-list_resort, count_alarm-lookup}
use i_perf_demo_runtime.Timer.Rounds.{lookup_next-none}
use i_perf_demo_runtime.Timer.Runs.{lookup_next_self}
use mathlib.Core.Path.{subst}
use i_perf_demo_runtime.Alarms.Procs.{Proc, Same, alarm_proc-Proc}

-- The timer that is left on the list after its proc is of the same alarms as before.
fired-same :
    (j : Alarm) (x : ℕ) (s s' : Timers) {t t' : Timer} {n n' : Option ℕ}
    → IsWellFormed s
    → IsWellFormed s'
    → Same s'.timers s.timers
    → lookup_next x s.timers ≡ some (t, n)
    → lookup_next x s'.timers ≡ some (t', n')
    → is_at x j t' ≡ is_at x j t
fired-same j x s s' w w' alike e e' =
    sym (count_alarm-lookup j x s' w' e') ∙ (alike x).1 j ∙ count_alarm-lookup j x s w e

reads_back : (n : ℕ) (k : Alarm) → n ≡ proc_of k → alarm_of n ≡ k
reads_back n k e = ap alarm_of e ∙ alarm_of-proc_of k

-- No pointer leads to a timer that `tmr_run` cancels.
once-unused :
    (j : Alarm) (y : ℕ) (a b : Alarms) {t t' : Timer} {n n' : Option ℕ}
    → IsWellFormed a.queue
    → Proc (alarm_of t.proc) a b
    → lookup_next t.addr a.queue.timers ≡ some (t, n)
    → lookup_next t.addr b.queue.timers ≡ some (t', n')
    → t'.periodic ≡ false
    → b.pointer j ≡ some y
    → is_at y j t' ≡ 0
once-unused j y a b {t} {t'} w p e e' once at = elim (Bool-cases (t.addr == y)) [
  | inr f ↦ is_at-none y j t' (ground (arith, lookup_next-addr t.addr b.queue.timers e'))
  | inl f ↦
      subst (λ y. is_at y j t' ≡ 0) (ground arith)
        (elim (Bool-cases (t.proc == proc_of j)) [
          | inr g ↦
              fired-same j t.addr a.queue b.queue w p.held.wf p.same e e'
              ∙ is_at-other t.addr j t (ground arith)
          | inl g ↦ elim (Bool-cases (repeats j)) [
            | inl r ↦ is_at-repeats t.addr j t' r once
            | inr r ↦
                let alike : alarm_of t.proc ≡ j = reads_back t.proc j (ground arith) in
                let null : b.pointer j ≡ none =
                  subst (λ k. repeats k ≡ false → b.pointer k ≡ none) alike p.null r in
                absurd cc
          ]
        ])
]

tmr_after-if :
    (t : Timer) (s : Timers) (p : Bool)
    → t.periodic ≡ p
    → tmr_after t s ≡ (
        if p
        then record s {
          timers = list_resort (record t { time = add_usecs t.time t.usecs }) s.timers;
        }
        else tmr_cancel t.addr s)
unfolding tmr_after
tmr_after-if t s p e =
    ap
      (λ b.
        if b
        then record s {
          timers = list_resort (record t { time = add_usecs t.time t.usecs }) s.timers;
        }
        else tmr_cancel t.addr s)
      e

count_alarm-tmr_after :
    (y : ℕ) (j : Alarm) (t : Timer) (s : Timers) {n : Option ℕ}
    → lookup_next t.addr s.timers ≡ some (t, n)
    → (t.periodic ≡ false → is_at y j t ≡ 0)
    → count_alarm y j s.timers ≤ count_alarm y j (tmr_after t s).timers
count_alarm-tmr_after y j t s e h =
    let le : Timers → Type 0 = λ q. count_alarm y j s.timers ≤ count_alarm y j q.timers in
    elim (Bool-cases t.periodic) [
      | inl p ↦
          subst le (sym (tmr_after-if t s true p))
            (omega (arith, count_alarm-list_resort y j s.timers t (add_usecs t.time t.usecs) e))
      | inr p ↦
          subst le (sym (tmr_after-if t s false p))
            (unfold tmr_cancel in omega (arith, h p, count_alarm-list_remove y j t.addr s.timers e))
    ]

-- What is left once the proc has returned and `tmr_run` has put the timer back or cancelled it.
fired-Held :
    (a b : Alarms) (t t' : Timer) {n n' : Option ℕ}
    → IsWellFormed a.queue
    → Proc (alarm_of t.proc) a b
    → lookup_next t.addr a.queue.timers ≡ some (t, n)
    → lookup_next t.addr b.queue.timers ≡ some (t', n')
    → Held (record b { queue = tmr_after t' b.queue })
fired-Held a b t t' w p e e' =
    let wf = p.held.wf in
    let here = lookup_next_self t.addr b.queue.timers e' in
    let found = lookup_next-addr t'.addr b.queue.timers here in
    record {
      wf =
          tmr_after-IsWellFormed t' b.queue (lookup_next-All _ t.addr b.queue.timers wf.normal e')
            found.1 wf;
      each = λ j.
          Points-le j (b.pointer j) b.queue.timers (tmr_after t' b.queue).timers
            (λ y at.
              count_alarm-tmr_after y j t' b.queue here
                (λ once. once-unused j y a b w p e e' once at))
            (p.held.each j);
      fresh = p.held.fresh;
    }

fire_alarm-lem :
    (now : Timeval) (x : ℕ) (a : Alarms) {t t' : Timer} {n n' : Option ℕ}
    → let b = alarm_proc (alarm_of t.proc) now a in
      lookup_next x a.queue.timers ≡ some (t, n)
      → lookup_next t.addr b.queue.timers ≡ some (t', n')
      → fire_alarm now x a ≡ record b { queue = tmr_after t' b.queue }
unfolding fire_alarm timer_proc fire
fire_alarm-lem now x a e e' = rw (e, fire_alarm, e') refl

pub fire_alarm-Held :
    (now : Timeval) (x : ℕ) (a : Alarms) → IsNormal now → Held a → Held (fire_alarm now x a)
fire_alarm-Held now x a hn h = elim (Option-cases (lookup_next x a.queue.timers)) [
  | inl e ↦ unfold fire_alarm in rw (e, fire_alarm) h
  | inr ((t, n), e) ↦
      let b = alarm_proc (alarm_of t.proc) now a in
      let p = alarm_proc-Proc (alarm_of t.proc) now a hn h in
      let here = lookup_next_self x a.queue.timers e in
      let found = (lookup_next-addr t.addr a.queue.timers here).1 in
      elim (Option-cases (lookup_next t.addr b.queue.timers)) [
        | inl e' ↦
            absurd
              (omega (arith, lookup_next-none t.addr b.queue.timers e', (p.same t.addr).0, found))
        | inr ((t', n'), e') ↦ rw (fire_alarm-lem now x a e e') (fired-Held a b t t' h.wf p here e')
      ]
]
