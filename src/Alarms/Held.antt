-- ===== src/Alarms/Held.antt =====
-- The pointers of a test and its running timers.
use i_perf_demo_runtime.Common.{
  Bool-cases, List, Option, Option-cases, arith, false, inl, inr, none, refl, some, ℕ, ◌<◌, ◌==◌,
  ◌≡◌, ◌≢◌, ◌≤◌,
}
use i_perf_demo_runtime.Timer.{
  Timer, Timers, Timeval, list_remove, list_resort, lookup_next, tmr_reset,
}
use i_perf_demo_runtime.Timer.Order.{list_add_lem}
use i_perf_demo_runtime.Timer.Invariant.{
  IsActive, IsWellFormed, count_addr, count_addr-list_remove, lookup_next-addr,
}
use i_perf_demo_runtime.Timer.Rounds.{lookup_next-none}
use i_perf_demo_runtime.Timer.Runs.{lookup_next_self}
use i_perf_demo_runtime.Alarms.{Alarm, Alarms, proc_of}
use i_perf_demo_runtime.Alarms.Kinds.{
  count_alarm, count_alarm-le, count_alarm-list_add, count_alarm-list_remove, count_alarm-one,
  is_at, is_at-none, is_at-time,
}
use mathlib.Core.Path.{subst}

-- The pointer is NULL, or it is the address of a running timer with the proc of the alarm, which
-- repeats if that alarm does.
abbrev pub Points : Alarm → Option ℕ → List Timer → Type 0
Points k none l = Unit
Points k (some x) l = 0 < count_alarm x k l

pub record Held (a : Alarms) : Type 0 where
  pub wf : IsWellFormed a.queue
  pub each : (k : Alarm) → Points k (a.pointer k) a.queue.timers
  pub fresh : a.stale ≡ false

-- What stands under a pointer is still there if the timers for the alarm there are.
pub Points-le :
    (k : Alarm) (p : Option ℕ) (l m : List Timer)
    → ((x : ℕ) → p ≡ some x → count_alarm x k l ≤ count_alarm x k m)
    → Points k p l
    → Points k p m
Points-le k none l m h q = tt
Points-le k (some x) l m h q = omega (arith, h x refl)

-- A timer that is put where it belongs with a new time.
pub count_alarm-list_resort :
    (x : ℕ) (k : Alarm) (l : List Timer) (t : Timer) {n : Option ℕ} (v : Timeval)
    → lookup_next t.addr l ≡ some (t, n)
    → count_alarm x k (list_resort (record t { time = v }) l) ≡ count_alarm x k l
unfolding list_resort
count_alarm-list_resort x k l t v e =
    let t' : Timer = record t { time = v } in
    rw (list_add_lem t' (list_remove t.addr l)) (
      omega (
        arith,
        count_alarm-list_add x k t' (list_remove t.addr l),
        count_alarm-list_remove x k t.addr l e,
        is_at-time x k t v,
      ))

pub count_alarm-tmr_reset :
    (x : ℕ) (k : Alarm) (now : Timeval) (b : ℕ) (s : Timers)
    → count_alarm x k (tmr_reset now b s).timers ≡ count_alarm x k s.timers
unfolding tmr_reset
count_alarm-tmr_reset x k now b s = elim (Option-cases (lookup_next b s.timers)) [
  | inl e ↦ rw (e, tmr_reset) refl
  | inr ((t, n), e) ↦
      rw (e, tmr_reset) (count_alarm-list_resort x k s.timers t _ (lookup_next_self b s.timers e))
]

-- The timer at an address that the list has once.
pub count_alarm-lookup :
    (k : Alarm) (b : ℕ) (s : Timers) {t : Timer} {n : Option ℕ}
    → IsWellFormed s
    → lookup_next b s.timers ≡ some (t, n)
    → count_alarm b k s.timers ≡ is_at b k t
count_alarm-lookup k b s {t} {n} w e =
    let found : 0 < count_addr b s.timers = (lookup_next-addr b s.timers e).1 in
    ground (
      arith,
      w.once b,
      count_alarm-list_remove b k b s.timers e,
      count_alarm-le b k (list_remove b s.timers),
      count_addr-list_remove b b s.timers found,
    )

-- A timer that a pointer leads to is on the list.
pub Points-IsActive : (k : Alarm) (x : ℕ) (s : Timers) → Points k (some x) s.timers → IsActive x s
Points-IsActive k x s h = omega (arith, count_alarm-le x k s.timers)

pub Points-lookup :
    (k : Alarm) (x : ℕ) (s : Timers)
    → Points k (some x) s.timers
    → (u : Timer × Option ℕ) × (lookup_next x s.timers ≡ some u)
Points-lookup k x s h = elim (Option-cases (lookup_next x s.timers)) [
  | inl e ↦ absurd (omega (arith, lookup_next-none x s.timers e, Points-IsActive k x s h))
  | inr (u, e) ↦ (u, e)
]

-- Another alarm does not lead to the timer that `k` leads to.
pub is_at-elsewhere :
    (j k : Alarm) (x y : ℕ) (s : Timers) {t : Timer} {n : Option ℕ}
    → IsWellFormed s
    → proc_of j ≢ proc_of k
    → Points k (some x) s.timers
    → lookup_next x s.timers ≡ some (t, n)
    → is_at y j t ≡ 0
is_at-elsewhere j k x y s {t} {n} w h q e =
    let same : t.addr ≡ x = (lookup_next-addr x s.timers e).0 in
    elim (Bool-cases (x == y)) [
      | inl f ↦
          let z : x ≡ y = ground arith in
          subst (λ y. is_at y j t ≡ 0) z
            (omega
              (arith, w.once x, count_alarm-one x j k s.timers h, count_alarm-lookup j x s w e))
      | inr f ↦ is_at-none y j t (ground arith)
    ]
