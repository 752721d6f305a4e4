-- ===== src/Alarms/Creating.antt =====
-- Creating the timers of a test.
use i_perf_demo_runtime.Common.{
  Bool, Bool-cases, List, Option, Option-cases, [], arith, false, if◌then◌else◌, inl, inr, none,
  refl, some, sym, true, ℕ, ◌∷◌, ◌≡◌,
}
use i_perf_demo_runtime.Common.Int.{is_zero}
use i_perf_demo_runtime.Timer.{Timers, Timeval, alloc, list_add_after, new_timer, tmr_create}
use i_perf_demo_runtime.Timer.Order.{IsNormal, list_add_lem}
use i_perf_demo_runtime.Timer.Invariant.{IsFresh, tmr_create-IsWellFormed}
use i_perf_demo_runtime.Alarms.{
  Alarm, Alarms, create_client_timers, create_omit_timer, create_send_timers, create_server_timers,
  iperf_create_send_timers, omit_timer, proc_of, repeats, reporter_timer, seconds, send_timer,
  set_pointer, start, start_intervals, start_omitting, stats_timer, test_timer,
}
use i_perf_demo_runtime.Alarms.Kinds.{count_alarm-list_add, is_alarm, is_at, proc_of-injective}
use i_perf_demo_runtime.Alarms.Held.{Held, Points, Points-le}
use i_perf_demo_runtime.Alarms.Releasing.{Held-null, Held-set_pointer}
use i_perf_demo_runtime.Alarms.Procs.{Held-copy}
use mathlib.Core.Path.{subst}

is_at-new_timer :
    (k : Alarm) (x : ℕ) (now : Timeval) (usecs : ℕ)
    → is_at x k (new_timer x now (proc_of k) usecs (repeats k)) ≡ 1
unfolding is_at is_alarm new_timer
is_at-new_timer k x now usecs = elim (Bool-cases (repeats k)) [
  | inl e ↦ rw e (ground arith)
  | inr e ↦ rw e (ground arith)
]

-- The queue after `tmr_create`: the new timer is there, and all the old ones.
record Created (k : Alarm) (s : Timers) (r : Option ℕ × Timers) : Type 0 where
  new : Points k r.0 r.1.timers
  old : (j : Alarm) (p : Option ℕ) → Points j p s.timers → Points j p r.1.timers

tmr_create-Created :
    (malloc : Option ℕ) (now : Timeval) (k : Alarm) (usecs : ℕ) (s : Timers)
    → Created k s (tmr_create malloc now (proc_of k) usecs (repeats k) s)
unfolding tmr_create
tmr_create-Created malloc now k usecs s = elim (Option-cases (alloc malloc s)) [
  | inl e ↦ rw (e, tmr_create) (record { new = tt; old = λ j p h. h })
  | inr ((x, rest), e) ↦
      let t = new_timer x now (proc_of k) usecs (repeats k) in
      rw (e, tmr_create, list_add_lem t s.timers)
        (record {
          new = omega (arith, count_alarm-list_add x k t s.timers, is_at-new_timer k x now usecs);
          old = λ j p.
              Points-le j p s.timers (list_add_after t s.timers)
                (λ y r. omega (arith, count_alarm-list_add y j t s.timers));
        })
]

-- What the result of a function that creates timers keeps.
abbrev pub Keeps : Bool × Alarms → Type 0
Keeps r = Held r.1

-- What `gettimeofday` answers.
abbrev pub IsClock : Option Timeval → Type 0
IsClock none = Unit
IsClock (some now) = IsNormal now

Held-if : (b : Bool) (x y : Alarms) → Held x → Held y → Held (if b then x else y)
Held-if true x y p q = p
Held-if false x y p q = q

Keeps-if : (b : Bool) (x y : Bool × Alarms) → Keeps x → Keeps y → Keeps (if b then x else y)
Keeps-if true x y p q = p
Keeps-if false x y p q = q

module _ (malloc : Timers → Option ℕ) (fresh : (s : Timers) → IsFresh (malloc s) s) where
  Held-created :
      (now : Timeval) (k : Alarm) (usecs : ℕ) (a : Alarms)
      → IsNormal now
      → Held a
      → let r = tmr_create (malloc a.queue) now (proc_of k) usecs (repeats k) a.queue in
        Held (set_pointer k r.0 (record a { queue = r.1 }))
  Held-created now k usecs a hn h =
      let r = tmr_create (malloc a.queue) now (proc_of k) usecs (repeats k) a.queue in
      let c = tmr_create-Created (malloc a.queue) now k usecs a.queue in
      Held-set_pointer k r.0 (record a { queue = r.1 })
        (tmr_create-IsWellFormed (malloc a.queue) now (proc_of k) usecs (repeats k) a.queue hn
          (fresh a.queue) h.wf)
        h.fresh (λ j e. subst (λ i. Points i r.0 r.1.timers) (sym (proc_of-injective j k e)) c.new)
        (λ j e. c.old j (a.pointer j) (h.each j))

  start-Keeps :
      (wanted : Bool) (now : Timeval) (k : Alarm) (usecs : ℕ) (next : Alarms → Bool × Alarms)
      (a : Alarms)
      → IsNormal now
      → ((b : Alarms) → Held b → Keeps (next b))
      → Held a
      → Keeps (start malloc wanted now k usecs next a)
  unfolding start
  start-Keeps false now k usecs next a hn f h = f a h
  start-Keeps true now k usecs next a hn f h =
      let (p, s) = tmr_create (malloc a.queue) now (proc_of k) usecs (repeats k) a.queue in
      let b : Alarms = set_pointer k p (record a { queue = s }) in
      let kept : Held b = Held-created now k usecs a hn h in
      elim p as (λ q. Keeps (elim q [ none ↦ (false, b) | some _ ↦ next b ])) [
        | none ↦ kept
        | some _ ↦ f b kept
      ]

  start_intervals-Keeps :
      (now : Timeval) (a : Alarms) → IsNormal now → Held a → Keeps (start_intervals malloc now a)
  unfolding start_intervals
  start_intervals-Keeps now a hn h =
      start-Keeps _ now stats_timer _ _ a hn
        (λ b. start-Keeps _ now reporter_timer _ _ b hn (λ c hc. hc)) h

  pub create_client_timers-Keeps :
      (now : Option Timeval) (a : Alarms)
      → IsClock now
      → Held a
      → Keeps (create_client_timers malloc now a)
  unfolding create_client_timers
  create_client_timers-Keeps none a hn h = h
  create_client_timers-Keeps (some now) a hn h =
      let u = Held-null reporter_timer _ (Held-null stats_timer _ (Held-null test_timer a h)) in
      start-Keeps _ now test_timer _ _ _ hn (λ b. start_intervals-Keeps now b hn)
        (Held-if (is_zero a.test.duration) _ _ u (Held-copy _ _ u refl refl refl))

  pub create_server_timers-Keeps :
      (now : Option Timeval) (a : Alarms)
      → IsClock now
      → Held a
      → Keeps (create_server_timers malloc now a)
  unfolding create_server_timers
  create_server_timers-Keeps none a hn h = h
  create_server_timers-Keeps (some now) a hn h =
      start_intervals-Keeps now _ hn (Held-null reporter_timer _ (Held-null stats_timer a h))

  start_omitting-Keeps :
      (now : Option Timeval) (a : Alarms)
      → IsClock now
      → Held a
      → Keeps (start_omitting malloc now a)
  unfolding start_omitting
  start_omitting-Keeps none a hn h = h
  start_omitting-Keeps (some now) a hn h =
      start-Keeps true now omit_timer (seconds a.test.omit) (λ b. (true, b))
        (record a { omitting = true }) hn (λ b hb. hb)
        (Held-copy a (record a { omitting = true }) h refl refl refl)

  pub create_omit_timer-Keeps :
      (now : Option Timeval) (a : Alarms)
      → IsClock now
      → Held a
      → Keeps (create_omit_timer malloc now a)
  unfolding create_omit_timer
  create_omit_timer-Keeps now a hn h =
      Keeps-if (is_zero a.test.omit) _ _ (Held-copy _ _ (Held-null omit_timer a h) refl refl refl)
        (start_omitting-Keeps now a hn h)

  create_send_timers-Keeps :
      (now : Timeval) (ns : List ℕ) (a : Alarms)
      → IsNormal now
      → Held a
      → Keeps (create_send_timers malloc now ns a)
  unfolding create_send_timers
  create_send_timers-Keeps now [] a hn h = h
  create_send_timers-Keeps now (n ∷ ns) a hn h =
      start-Keeps _ now (send_timer n) _ _ a hn (λ b. create_send_timers-Keeps now ns b hn) h

  pub iperf_create_send_timers-Keeps :
      (now : Option Timeval) (ns : List ℕ) (a : Alarms)
      → IsClock now
      → Held a
      → Keeps (iperf_create_send_timers malloc now ns a)
  unfolding iperf_create_send_timers
  iperf_create_send_timers-Keeps none ns a hn h = h
  iperf_create_send_timers-Keeps (some now) ns a hn h = create_send_timers-Keeps now ns a hn h
