-- ===== src/Alarms.antt =====
-- The timers of a test: `create_client_timers` and `create_client_omit_timer` of
-- iperf-3.1.3/src/iperf_client_api.c, `create_server_timers`, `create_server_omit_timer` and
-- `cleanup_server` of iperf_server_api.c, `iperf_create_send_timers` of iperf_api.c, what
-- `iperf_reset_test`, `iperf_free_test` and `iperf_free_stream` do with timers, and the timer procs.
pub mod Kinds
pub mod Held
pub mod Releasing
pub mod Procs
pub mod Firing
pub mod Creating
pub mod Acts
mod Tests
use i_perf_demo_runtime.Common.{
  Bool, List, Option, [], false, if◌then◌else◌, none, not, some, suc, true, zero, ℕ, ◌*◌, ◌+◌, ◌==◌,
  ◌∷◌,
}
use i_perf_demo_runtime.Common.Int.{is_zero, neg_part, pos_part, sub_ℕ, ℤ}
use i_perf_demo_runtime.Config.{IperfTest}
use i_perf_demo_runtime.Timer.{
  Timer, Timers, Timeval, fire, lookup_next, tmr_cancel, tmr_create, tmr_reset,
}
use i_perf_demo_runtime.Stats.{StatsStream, iperf_reset_stats}

-- The pointers to timers: `timer`, `stats_timer`, `reporter_timer` and `omit_timer` of
-- `struct iperf_test`, and `send_timer` of the stream with a number.
pub data Alarm : Type 0 where
  test_timer stats_timer reporter_timer omit_timer : Alarm
  send_timer : ℕ → Alarm

-- The number that stands for the timer proc, with its `client_data`.
abbrev pub proc_of : Alarm → ℕ
proc_of test_timer = 0
proc_of stats_timer = 1
proc_of reporter_timer = 2
proc_of omit_timer = 3
proc_of (send_timer n) = suc (suc (suc (suc n)))

-- Whose proc it is.
abbrev pub alarm_of : ℕ → Alarm
alarm_of zero = test_timer
alarm_of (suc zero) = stats_timer
alarm_of (suc (suc zero)) = reporter_timer
alarm_of (suc (suc (suc zero))) = omit_timer
alarm_of (suc (suc (suc (suc n)))) = send_timer n

-- The last argument of `tmr_create`.
abbrev pub repeats : Alarm → Bool
repeats test_timer = false
repeats stats_timer = true
repeats reporter_timer = true
repeats omit_timer = false
repeats (send_timer n) = true

-- A call from a timer proc of a function that does not change the timers.
pub data Callback : Type 0 where
  stats_callback reporter_callback : Callback
  checks_throttle : ℕ → Callback

-- `pointer` is none for NULL. `stale` is true once a timer that is not on the active list has been
-- cancelled or reset, of which C says nothing.
pub record Alarms : Type 0 where
  pub test : IperfTest
  pub pointer : Alarm → Option ℕ
  pub omitting : Bool
  pub streams : List StatsStream
  pub callbacks : List Callback
  pub queue : Timers
  pub stale : Bool

unfoldable pub set_pointer : Alarm → Option ℕ → Alarms → Alarms
set_pointer k p a = record a { pointer = λ j. if proc_of j == proc_of k then p else a.pointer j }

-- What `tmr_cancel` and `tmr_reset` do through a pointer that is not NULL.
unfoldable pub cancel_alarm : ℕ → Alarms → Alarms
unfolding tmr_cancel lookup_next
cancel_alarm x a = elim (lookup_next x a.queue.timers) [
  | none ↦ record a { stale = true }
  | some _ ↦ record a { queue = tmr_cancel x a.queue }
]

unfoldable pub reset_alarm : Timeval → ℕ → Alarms → Alarms
unfolding tmr_reset lookup_next
reset_alarm now x a = elim (lookup_next x a.queue.timers) [
  | none ↦ record a { stale = true }
  | some _ ↦ record a { queue = tmr_reset now x a.queue }
]

-- `if (test->k != NULL) { tmr_cancel(test->k); test->k = NULL; }`
unfoldable pub cancel_at : Alarm → Alarms → Alarms
unfolding cancel_alarm set_pointer
cancel_at k a = elim (a.pointer k) [ none ↦ a | some x ↦ set_pointer k none (cancel_alarm x a) ]

-- `if (test->k != NULL) tmr_reset(nowP, test->k);`
unfoldable pub reset_at : Timeval → Alarm → Alarms → Alarms
unfolding reset_alarm
reset_at now k a = elim (a.pointer k) [ none ↦ a | some x ↦ reset_alarm now x a ]

-- The timer procs.
unfoldable pub test_timer_proc : Alarms → Alarms
unfolding set_pointer
test_timer_proc a = record (set_pointer test_timer none a) { test = record a.test { done = true } }

unfoldable pub stats_timer_proc : Alarms → Alarms
stats_timer_proc a =
    if a.test.done then a else record a { callbacks = stats_callback ∷ a.callbacks }

unfoldable pub reporter_timer_proc : Alarms → Alarms
reporter_timer_proc a =
    if a.test.done then a else record a { callbacks = reporter_callback ∷ a.callbacks }

-- What the proc of the omit timer does first, less the text that is printed.
unfoldable pub end_omission : Timeval → Alarms → Alarms
unfolding set_pointer iperf_reset_stats
end_omission now a = record (set_pointer omit_timer none a) {
  omitting = false;
  streams = iperf_reset_stats now a.streams;
}

unfoldable pub omit_timer_proc : Timeval → Alarms → Alarms
unfolding end_omission reset_at
omit_timer_proc now a = reset_at now reporter_timer (reset_at now stats_timer (end_omission now a))

unfoldable pub send_timer_proc : ℕ → Alarms → Alarms
send_timer_proc n a = record a { callbacks = checks_throttle n ∷ a.callbacks }

unfoldable pub alarm_proc : Alarm → Timeval → Alarms → Alarms
unfolding test_timer_proc stats_timer_proc reporter_timer_proc omit_timer_proc send_timer_proc
alarm_proc test_timer now a = test_timer_proc a
alarm_proc stats_timer now a = stats_timer_proc a
alarm_proc reporter_timer now a = reporter_timer_proc a
alarm_proc omit_timer now a = omit_timer_proc now a
alarm_proc (send_timer n) now a = send_timer_proc n a

-- The argument of `tmr_run`: the queue is taken out of the state and put back.
unfoldable pub timer_proc : Timer → Timeval → Timers → Alarms → Timers × Alarms
unfolding alarm_proc
timer_proc t now s a =
    let b = alarm_proc (alarm_of t.proc) now (record a { queue = s }) in (b.queue, b)

-- A timer at an address fires, as in a round of `tmr_run`.
unfoldable pub fire_alarm : Timeval → ℕ → Alarms → Alarms
unfolding timer_proc fire lookup_next
fire_alarm now x a = elim (lookup_next x a.queue.timers) [
  | none ↦ a
  | some (t, _) ↦ elim (fire timer_proc now t a.queue a) [
    | none ↦ record a { stale = true }
    | some (s, b) ↦ record b { queue = s }
  ]
]

-- `i * SEC_TO_US`. A negative time counts as 0.
abbrev pub seconds : ℤ → ℕ
seconds i = pos_part i * 1000000

-- `duration + omit`
abbrev pub whole_time : IperfTest → ℤ
whole_time t = sub_ℕ (pos_part t.duration + pos_part t.omit) (neg_part t.duration + neg_part t.omit)

-- `malloc` answers as it likes from what is in use. The first part of a result is whether the function
-- returns 0.
module _ (malloc : Timers → Option ℕ) where
  -- A timer is created where `wanted`, and the rest follows unless that fails.
  unfoldable pub start :
      Bool → Timeval → Alarm → ℕ → (Alarms → Bool × Alarms) → Alarms → Bool × Alarms
  unfolding tmr_create set_pointer
  start false now k usecs next a = next a
  start true now k usecs next a =
      let (p, s) = tmr_create (malloc a.queue) now (proc_of k) usecs (repeats k) a.queue in
      let b : Alarms = set_pointer k p (record a { queue = s }) in
      elim p [ none ↦ (false, b) | some _ ↦ next b ]

  -- The timers of the statistics and the reports.
  unfoldable pub start_intervals : Timeval → Alarms → Bool × Alarms
  unfolding start
  start_intervals now a =
      start (not (is_zero a.test.stats_interval)) now stats_timer (pos_part a.test.stats_interval)
        (start (not (is_zero a.test.reporter_interval)) now reporter_timer
          (pos_part a.test.reporter_interval) (λ b. (true, b)))
        a

  -- `now` is none where `gettimeofday` fails.
  unfoldable pub create_client_timers : Option Timeval → Alarms → Bool × Alarms
  unfolding start_intervals start set_pointer
  create_client_timers none a = (false, a)
  create_client_timers (some now) a =
      let b : Alarms =
        set_pointer reporter_timer none
          (set_pointer stats_timer none (set_pointer test_timer none a)) in
      let c : Alarms =
        if is_zero a.test.duration then b else record b { test = record b.test { done = false } } in
      start (not (is_zero a.test.duration)) now test_timer (seconds (whole_time a.test))
        (start_intervals now) c

  unfoldable pub create_server_timers : Option Timeval → Alarms → Bool × Alarms
  unfolding start_intervals set_pointer
  create_server_timers none a = (false, a)
  create_server_timers (some now) a =
      start_intervals now (set_pointer reporter_timer none (set_pointer stats_timer none a))

  -- The omit timer is wanted: `omit` is not zero.
  unfoldable pub start_omitting : Option Timeval → Alarms → Bool × Alarms
  unfolding start
  start_omitting none a = (false, a)
  start_omitting (some now) a =
      start true now omit_timer (seconds a.test.omit) (λ b. (true, b))
        (record a { omitting = true })

  -- `create_client_omit_timer` and `create_server_omit_timer`.
  unfoldable pub create_omit_timer : Option Timeval → Alarms → Bool × Alarms
  unfolding start_omitting set_pointer
  create_omit_timer now a =
      if is_zero a.test.omit
      then (true, record (set_pointer omit_timer none a) { omitting = false })
      else start_omitting now a

  -- The loop of `iperf_create_send_timers`, over the numbers of the streams.
  unfoldable pub create_send_timers : Timeval → List ℕ → Alarms → Bool × Alarms
  unfolding start
  create_send_timers now [] a = (true, a)
  create_send_timers now (n ∷ ns) a =
      start (not (a.test.settings.rate == 0)) now (send_timer n) 100000 (create_send_timers now ns)
        a

  unfoldable pub iperf_create_send_timers : Option Timeval → List ℕ → Alarms → Bool × Alarms
  unfolding create_send_timers
  iperf_create_send_timers none ns a = (false, a)
  iperf_create_send_timers (some now) ns a = create_send_timers now ns a

-- The timers in `cleanup_server`.
unfoldable pub cleanup_timers : Alarms → Alarms
unfolding cancel_at
cleanup_timers a = cancel_at omit_timer (cancel_at reporter_timer (cancel_at stats_timer a))

-- The timers in the loop of `iperf_reset_test` and `iperf_free_test` that frees the streams.
unfoldable pub free_send_timers : List ℕ → Alarms → Alarms
unfolding cancel_at
free_send_timers [] a = a
free_send_timers (n ∷ ns) a = free_send_timers ns (cancel_at (send_timer n) a)

-- The timers in `iperf_reset_test`, and in `iperf_free_test`, after which the test is gone.
unfoldable pub release_timers : List ℕ → Alarms → Alarms
unfolding free_send_timers cancel_at
release_timers ns a =
    cancel_at reporter_timer
      (cancel_at stats_timer (cancel_at test_timer (cancel_at omit_timer (free_send_timers ns a))))
