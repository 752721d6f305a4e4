-- ===== src/Alarms/Kinds.antt =====
-- Which timer of a queue is which alarm of a test.
use i_perf_demo_runtime.Common.{
  Bool, Bool-cases, List, Option, [], ap, arith, false, if◌then◌else◌, inl, inr, not, refl, some,
  sym, true, ℕ, ◌&&◌, ◌+◌, ◌==◌, ◌∙◌, ◌∷◌, ◌≡◌, ◌≢◌, ◌≤◌,
}
use i_perf_demo_runtime.Timer.{Timer, Timeval, earlier, list_add_after, list_remove, lookup_next}
use i_perf_demo_runtime.Timer.Invariant.{count_addr}
use i_perf_demo_runtime.Alarms.{
  Alarm, alarm_of, omit_timer, proc_of, repeats, reporter_timer, send_timer, stats_timer,
  test_timer,
}

pub alarm_of-proc_of : (k : Alarm) → alarm_of (proc_of k) ≡ k
alarm_of-proc_of test_timer = refl
alarm_of-proc_of stats_timer = refl
alarm_of-proc_of reporter_timer = refl
alarm_of-proc_of omit_timer = refl
alarm_of-proc_of (send_timer n) = refl

-- The procs of two alarms differ.
pub proc_of-injective : (j k : Alarm) → proc_of j ≡ proc_of k → j ≡ k
proc_of-injective j k e = sym (alarm_of-proc_of j) ∙ ap alarm_of e ∙ alarm_of-proc_of k

-- A timer that `tmr_create` can have made for an alarm.
unfoldable pub is_alarm : Alarm → Timer → Bool
is_alarm k t = t.proc == proc_of k && (if repeats k then t.periodic else not t.periodic)

-- One if the timer stands at an address and is for an alarm.
unfoldable pub is_at : ℕ → Alarm → Timer → ℕ
unfolding is_alarm
is_at a k t = if t.addr == a && is_alarm k t then 1 else 0

-- How many timers for an alarm stand at an address of a queue.
abbrev pub count_alarm : ℕ → Alarm → List Timer → ℕ
count_alarm a k [] = 0
count_alarm a k (t ∷ rest) = is_at a k t + count_alarm a k rest

pub count_alarm-list_add :
    (a : ℕ) (k : Alarm) (t : Timer) (l : List Timer)
    → count_alarm a k (list_add_after t l) ≡ count_alarm a k (t ∷ l)
unfolding list_add_after
count_alarm-list_add a k t [] = refl
count_alarm-list_add a k t (x ∷ rest) = elim (Bool-cases (earlier t.time x.time)) [
  | inl e ↦ rw (e, list_add_after) refl
  | inr e ↦ rw (e, list_add_after) (omega (arith, count_alarm-list_add a k t rest))
]

pub count_alarm-list_remove :
    (a : ℕ) (k : Alarm) (b : ℕ) (l : List Timer) {t : Timer} {n : Option ℕ}
    → lookup_next b l ≡ some (t, n)
    → count_alarm a k (list_remove b l) + is_at a k t ≡ count_alarm a k l
unfolding list_remove lookup_next
count_alarm-list_remove a k b [] h = cc
count_alarm-list_remove a k b (x ∷ rest) {t} {n} h = elim (Bool-cases (x.addr == b)) [
  | inl e ↦ let q : x ≡ t = ground arith in rw (e, list_remove, sym q) (omega arith)
  | inr e ↦
      let more = count_alarm-list_remove a k b rest {t = t} {n = n} (rw e at h) in
      rw (e, list_remove) (omega (arith, more))
]

is_at-le : (a : ℕ) (k : Alarm) (t : Timer) → is_at a k t ≤ (if t.addr == a then 1 else 0)
unfolding is_at
is_at-le a k t =
    elim (t.addr == a) as (λ b. (if b && is_alarm k t then 1 else 0) ≤ (if b then 1 else 0)) [
      | true ↦ elim (is_alarm k t) as (λ b. (if b then 1 else 0) ≤ 1) [
        | true ↦ omega arith
        | false ↦ omega arith
      ]
      | false ↦ omega arith
    ]

pub is_at-other : (a : ℕ) (k : Alarm) (t : Timer) → t.proc ≢ proc_of k → is_at a k t ≡ 0
unfolding is_at is_alarm
is_at-other a k t h = ground arith

pub is_at-repeats :
    (a : ℕ) (k : Alarm) (t : Timer) → repeats k ≡ true → t.periodic ≡ false → is_at a k t ≡ 0
unfolding is_at is_alarm
is_at-repeats a k t r h = rw (r, h) (ground arith)

-- A timer is that of one alarm at most.
is_at-one :
    (a : ℕ) (j k : Alarm) (t : Timer)
    → proc_of j ≢ proc_of k
    → is_at a j t + is_at a k t ≤ (if t.addr == a then 1 else 0)
is_at-one a j k t h = elim (Bool-cases (t.proc == proc_of j)) [
  | inl e ↦
      let q : t.proc ≢ proc_of k = ground arith in
      ground (arith, is_at-other a k t q, is_at-le a j t)
  | inr e ↦
      let q : t.proc ≢ proc_of j = ground arith in
      ground (arith, is_at-other a j t q, is_at-le a k t)
]

pub count_alarm-le : (a : ℕ) (k : Alarm) (l : List Timer) → count_alarm a k l ≤ count_addr a l
count_alarm-le a k [] = omega arith
count_alarm-le a k (t ∷ rest) = ground (arith, is_at-le a k t, count_alarm-le a k rest)

pub count_alarm-one :
    (a : ℕ) (j k : Alarm) (l : List Timer)
    → proc_of j ≢ proc_of k
    → count_alarm a j l + count_alarm a k l ≤ count_addr a l
count_alarm-one a j k [] h = omega arith
count_alarm-one a j k (t ∷ rest) h =
    ground (arith, is_at-one a j k t h, count_alarm-one a j k rest h)

-- A timer with another time is as good.
pub is_at-time :
    (a : ℕ) (k : Alarm) (t : Timer) (v : Timeval) → is_at a k (record t { time = v }) ≡ is_at a k t
unfolding is_at is_alarm
is_at-time a k t v = refl

pub is_at-none : (a : ℕ) (k : Alarm) (t : Timer) → t.addr ≢ a → is_at a k t ≡ 0
unfolding is_at
is_at-none a k t h = ground arith
